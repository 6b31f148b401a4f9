-- ===== src/Types/Identity.antt =====
-- src/types.rs: `IdentityPrivateKey`, and the texts that `Debug` gives of the three secrets.
use null_path.Base.{ℕ, ◌+◌, ◌≡◌, ap, ◌∙◌, length, replicate, length-replicate, codes}
use null_path.Curves.{Curves, IsSound}
use null_path.Primitives.{Bytes}
use null_path.Types.{RootKey, RawDhSecret}

pub record IdentityPrivateKey (k : Curves) : Type 0 where
  pub key : k.SigningKey

module _ (k : Curves) where
  unfoldable pub new : Bytes → IdentityPrivateKey k
  new bytes = record { key = k.signing_from_bytes bytes }

  -- with the number of draws of random bytes
  unfoldable pub generate : ℕ → IdentityPrivateKey k × ℕ
  generate draw = (record { key = k.random_signing_key draw }, draw + 1)

  unfoldable pub verifying_key : IdentityPrivateKey k → k.VerifyingKey
  verifying_key priv = k.verifying_key priv.key

  -- `raw_bytes.zeroize()` writes a zero to every byte
  unfoldable pub zeroize : IdentityPrivateKey k → IdentityPrivateKey k
  zeroize priv =
      let raw_bytes = k.signing_to_bytes priv.key in
      let raw_bytes = replicate (length raw_bytes) 0 in
      record { key = k.signing_from_bytes raw_bytes }

  -- what stands in memory after the value
  unfoldable pub drop : IdentityPrivateKey k → IdentityPrivateKey k
  drop priv = zeroize priv

  unfoldable pub debug_identity_private_key : IdentityPrivateKey k → Bytes
  debug_identity_private_key priv = codes "IdentityPrivateKey([REDACTED])"

unfoldable pub debug_root_key : RootKey → Bytes
debug_root_key root_key = codes "RootKey([REDACTED])"

unfoldable pub debug_raw_dh_secret : RawDhSecret → Bytes
debug_raw_dh_secret secret = codes "RawDhSecret([REDACTED])"

module _ (k : Curves) (sound : IsSound k) where
  -- After `drop` the identity key is that of 32 zero bytes, whatever it was.
  pub drop-to_bytes :
      (priv : IdentityPrivateKey k) → k.signing_to_bytes (drop k priv).key ≡ replicate 32 0
  unfolding zeroize drop
  drop-to_bytes priv =
      let n = sound.length-signing_to_bytes priv.key in
      ap (λ m. k.signing_to_bytes (k.signing_from_bytes (replicate m 0))) n
      ∙ sound.signing_to-from (replicate 32 0) (length-replicate {A = ℕ} 32 0)
