-- ===== src/Handshake/Authentication.antt =====
-- What src/handshake.rs accepts, and how it refuses the rest.
use mathlib.Core.Path.{subst}
use null_path.Base.{
  ℕ, ◌≡◌, refl, ◌∙◌, ap, inl, inr, Bool, true, false, Option, some, none, Result, ok, err,
  Bool-cases, arith, List, [], ◌∷◌, ◌++◌, codes,
}
use null_path.Crypto.{
  diffie_hellman, verify_initiation, verify_response, initiation_message, response_message,
}
use null_path.Crypto.Transcript.{derive_root_key_total}
use null_path.Curves.{Curves, IsSound}
use null_path.Errors.{HandshakeError}
use null_path.Handshake.{InitiatorState, finalize, check_expected, respond}
use null_path.Handshake.Agreement.{Permits, any, expected, answered, respond-answer}
use null_path.Primitives.{Bytes}
use null_path.Types.{RootKey, HandshakeInitPayload, HandshakeResponsePayload}

-- the outcome `r` of a check that the peer is the `Expected` one, then of its signature
pub data Verdict {ℓ} {A : Type ℓ} (Expected : Type 0) (valid : Bool) (r : Result HandshakeError A)
    : Type ℓ where
  mismatch : ¬ Expected → r ≡ err HandshakeError.peer_identity_mismatch → Verdict Expected valid r
  forged :
      Expected → valid ≡ false → r ≡ err HandshakeError.invalid_signature → Verdict Expected valid r
  genuine : Expected → valid ≡ true → (a : A) × (r ≡ ok a) → Verdict Expected valid r

-- byte strings one behind the other
abbrev pub joined : List Bytes → Bytes
joined [] = []
joined (x ∷ []) = x
joined (x ∷ y ∷ ys) = x ++ joined (y ∷ ys)

Verdict-map {ℓ} :
    {A : Type ℓ} {P Q : Type 0} (valid : Bool) (r : Result HandshakeError A)
    → (P → Q)
    → (Q → P)
    → Verdict P valid r
    → Verdict Q valid r
Verdict-map valid r f g (mismatch n h) = mismatch (λ q. n (g q)) h
Verdict-map valid r f g (forged p v h) = forged (f p) v h
Verdict-map valid r f g (genuine p v h) = genuine (f p) v h

module _ (k : Curves) (sound : IsSound k) where
  -- the identity check, then what `rest` finds of the signature
  check_identity-Verdict {ℓ} :
      {A : Type ℓ} (a b : k.VerifyingKey) (valid : Bool) (r : Result HandshakeError A)
      → (k.verifying_eq a b ≡ false → r ≡ err HandshakeError.peer_identity_mismatch)
      → (k.verifying_eq a b ≡ true → valid ≡ false → r ≡ err HandshakeError.invalid_signature)
      → (k.verifying_eq a b ≡ true → valid ≡ true → (x : A) × (r ≡ ok x))
      → Verdict (a ≡ b) valid r
  check_identity-Verdict a b valid r differ invalid passes =
      let same_iff = sound.verifying_eq_iff a b in
      elim (Bool-cases (k.verifying_eq a b)) [
        | inr h ↦ mismatch (λ same. let e = same_iff.1 same in grind arith) (differ h)
        | inl h ↦ elim (Bool-cases valid) [
          | inl v ↦ genuine (same_iff.0 h) v (passes h v)
          | inr v ↦ forged (same_iff.0 h) v (invalid h v)
        ]
      ]

  -- For every state and response, `finalize` returns: `PeerIdentityMismatch` if the response's
  -- identity is not the expected responder, else `InvalidSignature` if the signature is not valid
  -- under that identity for the label "decoypath-v1-resp-sig:", the identities of the responder and
  -- of the initiator, the ephemeral keys of both and the nonces of both, in this order, and else a
  -- root key.
  pub finalize-Verdict :
      (s : InitiatorState k) (response : HandshakeResponsePayload k)
      → Verdict
          (response.responder_identity_pub ≡ s.expected_responder_pub)
          (k.verify s.expected_responder_pub
            (joined (
              codes "decoypath-v1-resp-sig:"
              ∷ k.verifying_as_bytes s.expected_responder_pub
              ∷ k.verifying_as_bytes s.identity_pub
              ∷ k.dh_as_bytes response.responder_ephemeral_pub
              ∷ k.dh_as_bytes s.ephemeral_pub
              ∷ response.nonce
              ∷ s.nonce
              ∷ []))
            response.signature)
          (finalize k s response)
  unfolding finalize verify_response response_message
  finalize-Verdict s response =
      let (root, derived) =
        derive_root_key_total k sound
          (diffie_hellman k s.ephemeral response.responder_ephemeral_pub) s.identity_pub
          s.expected_responder_pub s.ephemeral_pub response.responder_ephemeral_pub s.nonce
          response.nonce in
      check_identity-Verdict response.responder_identity_pub s.expected_responder_pub _ _
        (λ h. rw h refl) (λ h v. rw (h, v) refl) (λ h v. (root, rw (h, v) derived))

  Permits-same : (v w : k.VerifyingKey) → Permits k v (some w) → v ≡ w
  Permits-same v _ expected = refl

  -- the response, behind the two checks
  respond-genuine :
      (b : k.SigningKey) (who : Option k.VerifyingKey) (p : HandshakeInitPayload k) (draw : ℕ)
      → check_expected k who p ≡ ok tt
      → k.verify p.initiator_identity_pub
          (initiation_message k p.initiator_identity_pub
            (k.verifying_key b)
            p.initiator_ephemeral_pub
            p.nonce)
          p.signature
        ≡ true
      → (a : HandshakeResponsePayload k × RootKey) × ((respond k b who p draw).0 ≡ ok a)
  unfolding verify_initiation
  respond-genuine b who p draw checked valid =
      let (response, root, done, _, _, _, _, _) = answered k sound b p draw in
      (
        (response, root),
        ap (λ r. r.0) (respond-answer k sound b who p draw checked (rw valid refl)) ∙ done,
      )

  -- For every responder key, expected initiator, initiation and draw, `respond` returns:
  -- `PeerIdentityMismatch` if an initiator is expected and the initiation's identity is another,
  -- else `InvalidSignature` if the signature is not valid under that identity for the label
  -- "decoypath-v1-init-sig:", that identity, the identity of this responder, the initiator's
  -- ephemeral key and its nonce, in this order, and else a response and a root key.
  pub respond-Verdict :
      (b : k.SigningKey) (who : Option k.VerifyingKey) (p : HandshakeInitPayload k) (draw : ℕ)
      → Verdict
          (Permits k p.initiator_identity_pub who)
          (k.verify p.initiator_identity_pub
            (joined (
              codes "decoypath-v1-init-sig:"
              ∷ k.verifying_as_bytes p.initiator_identity_pub
              ∷ k.verifying_as_bytes (k.verifying_key b)
              ∷ k.dh_as_bytes p.initiator_ephemeral_pub
              ∷ p.nonce
              ∷ []))
            p.signature)
          (respond k b who p draw).0
  unfolding respond verify_initiation check_expected initiation_message
  respond-Verdict b none p draw =
      elim (Bool-cases (
        k.verify p.initiator_identity_pub
          (initiation_message k p.initiator_identity_pub (k.verifying_key b)
            p.initiator_ephemeral_pub p.nonce)
          p.signature)) [
            | inl v ↦ genuine any v (respond-genuine b none p draw refl v)
            | inr v ↦ forged any v (rw (v, respond) refl)
          ]
  respond-Verdict b (some w) p draw =
      let v = p.initiator_identity_pub in
      Verdict-map _ _ (λ e. subst (λ x. Permits k v (some x)) e expected) (Permits-same v w)
        (check_identity-Verdict v w _ (respond k b (some w) p draw).0 (λ h. rw (h, respond) refl)
          (λ h valid. rw (h, valid, respond) refl)
          (λ h valid. respond-genuine b (some w) p draw (rw h refl) valid))
