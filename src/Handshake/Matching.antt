-- ===== src/Handshake/Matching.antt =====
-- Whom a party of src/handshake.rs has talked to when it accepts: the calls of the other party that
-- signed with its identity key are a log, and a signature that verifies for no call in it is a
-- forgery.
pub mod Finalize
pub mod Respond
use mathlib.Core.List.{Memᴰ}
use mathlib.Core.Path.{subst}
use null_path.Base.{
  ℕ, ◌+◌, ◌≡◌, refl, sym, ap, ◌∙◌, inl, inr, true, false, Option, List, Result, ok, err, panic,
  ◌>>=◌, length, arith, Result-cases,
}
use null_path.Crypto.Messages.{
  initiation_message-injective, response_message-injective, initiation_message-response_message,
}
use null_path.Crypto.{
  generate, generate_nonce, diffie_hellman, initiation_message, response_message, sign_initiation,
  sign_response, verify_initiation, verify_response, derive_root_key,
}
use null_path.Curves.{Curves, IsSound}
use null_path.Errors.{HandshakeError}
use null_path.Handshake.Agreement.{answered}
use null_path.Handshake.Authentication.{
  Verdict, mismatch, forged, genuine, finalize-Verdict, respond-Verdict,
}
use null_path.Handshake.{InitiatorState, initiate, finalize, check_expected, answer, respond}
use null_path.Primitives.{Bytes}
use null_path.Types.{RootKey, HandshakeInitPayload, HandshakeResponsePayload}

module _ (k : Curves) where
  -- a call that signed with the key `b`
  pub data Run (b : k.SigningKey) : Type 0 where
    initiated : (responder : k.VerifyingKey) (draw : ℕ) → Run b
    responded :
        (who : Option k.VerifyingKey) (initiation : HandshakeInitPayload k) (draw : ℕ)
        (response : HandshakeResponsePayload k) (root : RootKey)
        → (respond k b who initiation draw).0 ≡ ok (response, root)
        → Run b

  -- the message that it signed
  unfoldable pub message_of : {b : k.SigningKey} → Run b → Bytes
  message_of {b} (initiated responder draw) =
      let initiation = (initiate k b responder draw).1 in
      initiation_message k (k.verifying_key b) responder initiation.initiator_ephemeral_pub
        initiation.nonce
  message_of {b} (responded who initiation draw response root run) =
      response_message k (k.verifying_key b) initiation.initiator_identity_pub
        response.responder_ephemeral_pub initiation.initiator_ephemeral_pub response.nonce
        initiation.nonce

  -- a signature of this message that is valid under the key of `b` is that of a call in the log
  abbrev pub Unforged : (b : k.SigningKey) → List (Run b) → Bytes → k.Signature → Type 0
  Unforged b log message signature =
      k.verify (k.verifying_key b) message signature ≡ true
      → (r : Run b) × Memᴰ r log × (message_of r ≡ message)

  -- a call of `respond` in the log on what the initiator `s` sent, with the response that `s` got and
  -- the root key
  pub record Matched (b : k.SigningKey) (log : List (Run b)) (s : InitiatorState k)
      (response : HandshakeResponsePayload k) (root : RootKey) : Type 0 where
    pub who : Option k.VerifyingKey
    pub initiation : HandshakeInitPayload k
    pub draw : ℕ
    pub made : HandshakeResponsePayload k
    pub run : (respond k b who initiation draw).0 ≡ ok (made, root)
    pub listed : Memᴰ (responded who initiation draw made root run) log
    pub same_identity : initiation.initiator_identity_pub ≡ s.identity_pub
    pub same_ephemeral : initiation.initiator_ephemeral_pub ≡ s.ephemeral_pub
    pub same_nonce : initiation.nonce ≡ s.nonce
    pub made_ephemeral : made.responder_ephemeral_pub ≡ response.responder_ephemeral_pub
    pub made_nonce : made.nonce ≡ response.nonce
