-- ===== src/Handshake/Matching/Respond.antt =====
-- What a responder of src/handshake.rs knows of the initiator when `respond` accepts.
use mathlib.Core.List.{Memᴰ}
use mathlib.Core.Path.{subst}
use null_path.Base.{ℕ, ◌≡◌, sym, true, Option, List, ok}
use null_path.Crypto.Messages.{initiation_message-injective, initiation_message-response_message}
use null_path.Crypto.{initiation_message}
use null_path.Curves.{Curves, IsSound}
use null_path.Handshake.Authentication.{mismatch, forged, genuine, respond-Verdict}
use null_path.Handshake.{initiate, respond}
use null_path.Types.{RootKey, HandshakeInitPayload, HandshakeResponsePayload}
use null_path.Handshake.Matching.{Run, initiated, responded, message_of, Unforged}

module _ (k : Curves) (sound : IsSound k) where
  respond_ok :
      (b : k.SigningKey) (who : Option k.VerifyingKey) (p : HandshakeInitPayload k) (draw : ℕ)
      (made : HandshakeResponsePayload k) (root : RootKey)
      → (respond k b who p draw).0 ≡ ok (made, root)
      → k.verify p.initiator_identity_pub
          (initiation_message k p.initiator_identity_pub
            (k.verifying_key b)
            p.initiator_ephemeral_pub
            p.nonce)
          p.signature
        ≡ true
  unfolding initiation_message
  respond_ok b who p draw made root h = elim (respond-Verdict k sound b who p draw) [
    | mismatch n e ↦ absurd (cc)
    | forged _ _ e ↦ absurd (cc)
    | genuine _ valid _ ↦ valid
  ]

  match_initiated :
      (a b : k.SigningKey) (p : HandshakeInitPayload k) (log : List (Run k a)) (r : Run k a)
      → Memᴰ r log
      → message_of k r
        ≡ initiation_message k
            (k.verifying_key a)
            (k.verifying_key b)
            p.initiator_ephemeral_pub
            p.nonce
      → (start : ℕ) × Memᴰ (initiated (k.verifying_key b) start) log
        × (p.initiator_ephemeral_pub
            ≡ (initiate k a (k.verifying_key b) start).1.initiator_ephemeral_pub)
        × (p.nonce ≡ (initiate k a (k.verifying_key b) start).1.nonce)
  unfolding message_of initiate
  match_initiated a b p log (initiated v start) listed same =
      let (_, responder, ephemeral, nonce) =
        initiation_message-injective k sound _ _ _ _ _ _ _ _ same in
      (start, subst (λ w. Memᴰ (initiated w start) log) responder listed, sym ephemeral, sym nonce)
  match_initiated a b p log (responded who' q draw' made' root' run) listed same =
      absurd (initiation_message-response_message k sound _ _ _ _ _ _ _ _ _ _ (sym same))

  -- Suppose that the signature in an initiation is valid under the initiator's key only if a call in
  -- the log of that key's owner signed the message that `respond` checks. Then if `respond` accepts
  -- the initiation, the owner has made it with `initiate` for this responder: one of the calls in the
  -- log has this ephemeral key and this nonce. An initiation for another responder, or a signature
  -- that the owner made as a responder, does not serve.
  pub respond-initiated :
      (a b : k.SigningKey) (who : Option k.VerifyingKey) (p : HandshakeInitPayload k) (draw : ℕ)
      (made : HandshakeResponsePayload k) (root : RootKey) (log : List (Run k a))
      → p.initiator_identity_pub ≡ k.verifying_key a
      → Unforged k a log
          (initiation_message k
            (k.verifying_key a)
            (k.verifying_key b)
            p.initiator_ephemeral_pub
            p.nonce)
          p.signature
      → (respond k b who p draw).0 ≡ ok (made, root)
      → (start : ℕ) × Memᴰ (initiated (k.verifying_key b) start) log
        × (p.initiator_ephemeral_pub
            ≡ (initiate k a (k.verifying_key b) start).1.initiator_ephemeral_pub)
        × (p.nonce ≡ (initiate k a (k.verifying_key b) start).1.nonce)
  respond-initiated a b who p draw made root log owner unforged accepted =
      let valid = respond_ok b who p draw made root accepted in
      let (r, listed, same) = unforged (rw owner at valid) in
      match_initiated a b p log r listed same
