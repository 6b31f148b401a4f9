-- ===== src/Ffi/Boxes/Keypair.antt =====
-- src/ffi.rs: the version, and the keypair that is written into two buffers of the caller.
use null_path.Base.{
  ℕ, ◌+◌, ◌≤◌, ◌≡◌, refl, sym, ap, ◌∙◌, Option, some, arith, take, length, splice, take-splice,
}
use null_path.Crypto.{generate_identity_keypair}
use null_path.Curves.{Curves, IsSound}
use null_path.Ffi.{ReturnCode}
use null_path.Primitives.{Bytes}

abbrev pub decoypath_abi_version : ℕ
decoypath_abi_version = 1

-- both buffers, the code, and the draws
unfoldable pub generate_keypair_into :
    (k : Curves) → Option Bytes → Option Bytes → ℕ → Option Bytes × Option Bytes × ReturnCode × ℕ
generate_keypair_into k (some out_priv) (some out_pub) draw =
    let (priv_key, pub_key, draw') = generate_identity_keypair k draw in
    (
      some (splice out_priv 0 (k.signing_to_bytes priv_key)),
      some (splice out_pub 0 (k.verifying_as_bytes pub_key)),
      ReturnCode.decoypath_ok,
      draw',
    )
generate_keypair_into k out_priv out_pub draw =
    (out_priv, out_pub, ReturnCode.decoypath_err_null_pointer, draw)

take-splice_all :
    (out src : Bytes) → length src ≡ 32 → 32 ≤ length out → take 32 (splice out 0 src) ≡ src
unfolding take
take-splice_all out src size room = take-splice out 0 src 32 (omega arith) (omega arith)

module _ (k : Curves) (sound : IsSound k) where
  -- With two buffers of at least 32 bytes `decoypath_generate_identity_keypair` returns
  -- `DECOYPATH_OK`, and the 32 bytes that it wrote to each are a signing key and its verifying key.
  pub generate_keypair_into-pair :
      (out_priv out_pub : Bytes) (draw : ℕ)
      → 32 ≤ length out_priv
      → 32 ≤ length out_pub
      → (priv : Bytes) × (peer : Bytes) × (generate_keypair_into k
            (some out_priv)
            (some out_pub)
            draw
          ≡ (some priv, some peer, ReturnCode.decoypath_ok, draw + 1))
        × (k.verifying_from_bytes (take 32 peer)
            ≡ some (k.verifying_key (k.signing_from_bytes (take 32 priv))))
  unfolding generate_keypair_into generate_identity_keypair
  generate_keypair_into-pair out_priv out_pub draw room room' =
      let key = k.random_signing_key draw in
      (
        splice out_priv 0 (k.signing_to_bytes key),
        splice out_pub 0 (k.verifying_as_bytes (k.verifying_key key)),
        refl,
        ap k.verifying_from_bytes (
              take-splice_all out_pub (k.verifying_as_bytes (k.verifying_key key))
                (sound.length-verifying_as_bytes (k.verifying_key key)) room')
            ∙ sound.verifying_from-as (k.verifying_key key)
            ∙ ap (λ s. some (k.verifying_key s))
                (sym (
                  ap k.signing_from_bytes (
                    take-splice_all out_priv (k.signing_to_bytes key)
                      (sound.length-signing_to_bytes key) room)
                  ∙ sound.signing_from-to key)),
      )
