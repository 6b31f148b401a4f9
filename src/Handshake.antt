-- ===== src/Handshake.antt =====
-- src/handshake.rs: the initiator's state and the responder. The draws of random bytes are counted,
-- and the number is threaded through.
pub mod Agreement
pub mod Authentication
pub mod Matching
use null_path.Base.{ℕ, not, Option, some, none, Result, ok, err, panic, ◌>>=◌, if◌then◌else◌}
use null_path.Crypto.{
  EphemeralKeyPair, generate, diffie_hellman, generate_nonce, sign_initiation, verify_initiation,
  sign_response, verify_response, derive_root_key,
}
use null_path.Curves.{Curves}
use null_path.Errors.{HandshakeError}
use null_path.Primitives.{Bytes}
use null_path.Types.{RootKey, HandshakeInitPayload, HandshakeResponsePayload}

pub record InitiatorState (k : Curves) : Type 0 where
  pub identity_pub : k.VerifyingKey
  pub expected_responder_pub : k.VerifyingKey
  pub ephemeral : EphemeralKeyPair k
  pub ephemeral_pub : k.DhPublicKey
  pub nonce : Bytes

-- `if a != b { return Err(PeerIdentityMismatch) }`
abbrev pub check_identity :
    (k : Curves) → k.VerifyingKey → k.VerifyingKey → Result HandshakeError (Unit {0})
check_identity k a b =
    if not (k.verifying_eq a b) then err HandshakeError.peer_identity_mismatch else ok tt

module _ (k : Curves) where
  unfoldable pub initiate :
      k.SigningKey → k.VerifyingKey → ℕ → InitiatorState k × HandshakeInitPayload k × ℕ
  initiate identity_priv expected_responder_pub draw =
      let identity_pub = k.verifying_key identity_priv in
      let (ephemeral, drawn) = generate k draw in
      let ephemeral_pub = ephemeral.public in
      let (nonce, draw') = generate_nonce k drawn in
      let signature = sign_initiation k identity_priv expected_responder_pub ephemeral_pub nonce in
      (
        record {
          identity_pub = identity_pub;
          expected_responder_pub = expected_responder_pub;
          ephemeral = ephemeral;
          ephemeral_pub = ephemeral_pub;
          nonce = nonce;
        },
        record {
          initiator_identity_pub = identity_pub;
          initiator_ephemeral_pub = ephemeral_pub;
          nonce = nonce;
          signature = signature;
        },
        draw',
      )

  unfoldable pub finalize :
      InitiatorState k → HandshakeResponsePayload k → Result HandshakeError RootKey
  finalize s response = do
    _ ← check_identity k response.responder_identity_pub s.expected_responder_pub
    _ ←
        verify_response k s.expected_responder_pub s.identity_pub response.responder_ephemeral_pub
          s.ephemeral_pub response.nonce s.nonce response.signature
    derive_root_key k (diffie_hellman k s.ephemeral response.responder_ephemeral_pub) s.identity_pub
        s.expected_responder_pub s.ephemeral_pub response.responder_ephemeral_pub s.nonce
        response.nonce

  -- the optional check of the initiator's identity
  unfoldable pub check_expected :
      Option k.VerifyingKey → HandshakeInitPayload k → Result HandshakeError (Unit {0})
  check_expected none initiation = ok tt
  check_expected (some expected) initiation =
      check_identity k initiation.initiator_identity_pub expected

  -- the response is made behind the checks
  unfoldable pub answer :
      k.SigningKey
      → HandshakeInitPayload k
      → ℕ
      → Result HandshakeError (HandshakeResponsePayload k × RootKey) × ℕ
  answer responder_identity_priv initiation draw =
      let responder_identity_pub = k.verifying_key responder_identity_priv in
      let (responder_ephemeral, drawn) = generate k draw in
      let responder_ephemeral_pub = responder_ephemeral.public in
      let (responder_nonce, draw') = generate_nonce k drawn in
      let signature =
        sign_response k responder_identity_priv initiation.initiator_identity_pub
          responder_ephemeral_pub initiation.initiator_ephemeral_pub responder_nonce
          initiation.nonce in
      let raw_dh = diffie_hellman k responder_ephemeral initiation.initiator_ephemeral_pub in
      (
        do
          root_key ←
              derive_root_key k raw_dh initiation.initiator_identity_pub responder_identity_pub
                initiation.initiator_ephemeral_pub responder_ephemeral_pub initiation.nonce
                responder_nonce
          ok (
            record {
              responder_identity_pub = responder_identity_pub;
              responder_ephemeral_pub = responder_ephemeral_pub;
              nonce = responder_nonce;
              signature = signature;
            },
            root_key,
          ),
        draw',
      )

  unfoldable pub respond :
      k.SigningKey
      → Option k.VerifyingKey
      → HandshakeInitPayload k
      → ℕ
      → Result HandshakeError (HandshakeResponsePayload k × RootKey) × ℕ
  respond responder_identity_priv expected_initiator_pub initiation draw =
      let checked = check_expected expected_initiator_pub initiation >>= λ _.
      verify_initiation k initiation.initiator_identity_pub
        (k.verifying_key responder_identity_priv) initiation.initiator_ephemeral_pub
        initiation.nonce initiation.signature in
      elim checked [
        | ok _ ↦ answer responder_identity_priv initiation draw
        | err e ↦ (err e, draw)
        | panic ↦ (panic, draw)
      ]
