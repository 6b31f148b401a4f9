-- ===== src/Handshake/Agreement.antt =====
-- src/handshake.rs between two honest parties.
use mathlib.Core.Path.{subst}
use null_path.Base.{ℕ, ◌+◌, length, arith, ◌≡◌, refl, sym, ap, ◌∙◌, Option, some, none, ok}
use null_path.Crypto.{
  diffie_hellman, derive_root_key, generate, sign_response, generate_nonce, verify_response,
  verify_initiation,
}
use null_path.Crypto.Transcript.{
  verify_initiation-sign_initiation, verify_response-sign_response, derive_root_key_total,
  derive_root_key-length,
}
use null_path.Curves.{Curves, IsSound}
use null_path.Handshake.{
  InitiatorState, check_identity, initiate, finalize, check_expected, answer, respond,
}
use null_path.Types.{RootKey, HandshakeInitPayload, HandshakeResponsePayload}

-- the responder expects this key, or any
pub data Permits (k : Curves) (v : k.VerifyingKey) : Option k.VerifyingKey → Type 0 where
  any : Permits k v none
  expected : Permits k v (some v)

module _ (k : Curves) (sound : IsSound k) where
  pub check_identity_self : (v : k.VerifyingKey) → check_identity k v v ≡ ok tt
  check_identity_self v = rw ((sound.verifying_eq_iff v v).1 refl) refl

  check_expected-Permits :
      (p : HandshakeInitPayload k) (who : Option k.VerifyingKey)
      → Permits k p.initiator_identity_pub who
      → check_expected k who p ≡ ok tt
  unfolding check_expected
  check_expected-Permits p none any = refl
  check_expected-Permits p (some _) expected = check_identity_self p.initiator_identity_pub

  -- what `answer` returns, when the derivation of the root key does not fail
  pub answered :
      (b : k.SigningKey) (p : HandshakeInitPayload k) (draw : ℕ)
      → (response : HandshakeResponsePayload k) × (root : RootKey) × ((answer k b p draw).0
          ≡ ok (response, root))
        × (response.responder_identity_pub ≡ k.verifying_key b)
        × (verify_response k
              (k.verifying_key b)
              p.initiator_identity_pub
              response.responder_ephemeral_pub
              p.initiator_ephemeral_pub
              response.nonce
              p.nonce
              response.signature
            ≡ ok tt)
        × (derive_root_key k
              (record { bytes = k.diffie_hellman (k.random_secret draw) p.initiator_ephemeral_pub })
              p.initiator_identity_pub
              (k.verifying_key b)
              p.initiator_ephemeral_pub
              response.responder_ephemeral_pub
              p.nonce
              response.nonce
            ≡ ok root)
        × (response.responder_ephemeral_pub ≡ k.dh_public (k.random_secret draw))
        × (length response.nonce ≡ 16)
  unfolding answer generate generate_nonce diffie_hellman
  answered b p draw =
      let e = k.dh_public (k.random_secret draw) in
      let nonce = k.fill_bytes (draw + 1) 16 in
      let dh = k.diffie_hellman (k.random_secret draw) p.initiator_ephemeral_pub in
      let signature =
        sign_response k b p.initiator_identity_pub e p.initiator_ephemeral_pub nonce p.nonce in
      let response : HandshakeResponsePayload k = record {
        responder_identity_pub = k.verifying_key b;
        responder_ephemeral_pub = e;
        nonce = nonce;
        signature = signature;
      } in
      let (root, h) =
        derive_root_key_total k sound (record { bytes = dh }) p.initiator_identity_pub
          (k.verifying_key b) p.initiator_ephemeral_pub e p.nonce nonce in
      (
        response,
        root,
        rw h refl,
        refl,
        verify_response-sign_response k sound b p.initiator_identity_pub e p.initiator_ephemeral_pub
            nonce p.nonce,
        h,
        refl,
        sound.length-fill_bytes (draw + 1) 16,
      )

  pub respond-answer :
      (b : k.SigningKey) (who : Option k.VerifyingKey) (p : HandshakeInitPayload k) (draw : ℕ)
      → check_expected k who p ≡ ok tt
      → verify_initiation k p.initiator_identity_pub
          (k.verifying_key b)
          p.initiator_ephemeral_pub
          p.nonce
          p.signature
        ≡ ok tt
      → respond k b who p draw ≡ answer k b p draw
  unfolding respond
  respond-answer b who p draw checked verified = rw (checked, verified, respond) refl

  initiate-verify_initiation :
      (a : k.SigningKey) (v : k.VerifyingKey) (draw : ℕ)
      → verify_initiation k
          (initiate k a v draw).1.initiator_identity_pub
          v
          (initiate k a v draw).1.initiator_ephemeral_pub
          (initiate k a v draw).1.nonce
          (initiate k a v draw).1.signature
        ≡ ok tt
  unfolding initiate
  initiate-verify_initiation a v draw = verify_initiation-sign_initiation k sound a v _ _

  initiate-identity :
      (a : k.SigningKey) (v : k.VerifyingKey) (draw : ℕ)
      → (initiate k a v draw).1.initiator_identity_pub ≡ k.verifying_key a
  unfolding initiate
  initiate-identity a v draw = refl

  -- a root key has 32 bytes
  pub finalize-length :
      (s : InitiatorState k) (response : HandshakeResponsePayload k) (root : RootKey)
      → finalize k s response ≡ ok root
      → length root.bytes ≡ 32
  unfolding finalize
  finalize-length s response root h =
      let length-root =
        derive_root_key-length k sound
          (diffie_hellman k s.ephemeral response.responder_ephemeral_pub) s.identity_pub
          s.expected_responder_pub s.ephemeral_pub response.responder_ephemeral_pub s.nonce
          response.nonce root in
      ground (arith, length-root)

  -- Between two parties that name each other's identity keys, the responder with any initiator or
  -- with this one, and whatever the random draws: `respond` takes what `initiate` sent and returns a
  -- response and a root key, and `finalize` takes that response, whose nonce has 16 bytes, and returns
  -- the same root key.
  pub finalize-respond :
      (a b : k.SigningKey) (who : Option k.VerifyingKey) (draw draw' : ℕ)
      → Permits k (k.verifying_key a) who
      → (response : HandshakeResponsePayload k) × (root : RootKey) × ((respond k b who
            (initiate k a (k.verifying_key b) draw).1
            draw').0
          ≡ ok (response, root))
        × (finalize k (initiate k a (k.verifying_key b) draw).0 response ≡ ok root)
        × (length response.nonce ≡ 16)
  unfolding initiate finalize generate diffie_hellman
  finalize-respond a b who draw draw' h =
      let p = (initiate k a (k.verifying_key b) draw).1 in
      let (response, root, done, same, verified, derived, ephemeral, size) = answered b p draw' in
      let same_a = initiate-identity a (k.verifying_key b) draw in
      let agreed =
        ap (k.diffie_hellman (k.random_secret draw)) ephemeral
        ∙ sound.diffie_hellman_comm (k.random_secret draw) (k.random_secret draw') in
      (
        response,
        root,
        ap (λ r. r.0)
              (respond-answer b who p draw'
                (check_expected-Permits p who (subst (λ v. Permits k v who) (sym same_a) h))
                (initiate-verify_initiation a (k.verifying_key b) draw))
            ∙ done,
        rw (same, check_identity_self (k.verifying_key b), verified, agreed) derived,
        size,
      )
