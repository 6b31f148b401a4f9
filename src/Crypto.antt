-- ===== src/Crypto.antt =====
-- src/crypto.rs: ephemeral keys, the two signed transcripts, and the derivation of the root key.
-- Each function that signs or verifies builds its message; the two builders are shared here.
pub mod Transcript
pub mod Messages
use null_path.Base.{ℕ, ◌+◌, Option, some, none, List, ◌++◌, Result, ok, err, codes, if◌then◌else◌}
use null_path.Curves.{Curves}
use null_path.Errors.{HandshakeError}
use null_path.Primitives.{Bytes}
use null_path.Types.{RootKey, RawDhSecret}

pub record EphemeralKeyPair (k : Curves) : Type 0 where
  pub secret : k.EphemeralSecret
  pub public : k.DhPublicKey

abbrev init_label : Bytes
init_label = codes "decoypath-v1-init-sig:"

abbrev resp_label : Bytes
resp_label = codes "decoypath-v1-resp-sig:"

abbrev transcript_label : Bytes
transcript_label = codes "decoypath-v1-transcript-binding:"

module _ (k : Curves) where
  -- with the number of draws of random bytes
  unfoldable pub generate : ℕ → EphemeralKeyPair k × ℕ
  generate draw =
      let secret = k.random_secret draw in
      (record { secret = secret; public = k.dh_public secret }, draw + 1)

  unfoldable pub diffie_hellman : EphemeralKeyPair k → k.DhPublicKey → RawDhSecret
  diffie_hellman pair peer_public = record { bytes = k.diffie_hellman pair.secret peer_public }

  unfoldable pub generate_identity_keypair : ℕ → k.SigningKey × k.VerifyingKey × ℕ
  generate_identity_keypair draw =
      let signing_key = k.random_signing_key draw in
      (signing_key, k.verifying_key signing_key, draw + 1)

  unfoldable pub generate_nonce : ℕ → Bytes × ℕ
  generate_nonce draw = (k.fill_bytes draw 16, draw + 1)

  unfoldable pub initiation_message :
      k.VerifyingKey → k.VerifyingKey → k.DhPublicKey → Bytes → Bytes
  initiation_message identity_pub expected_responder_pub ephemeral_pub nonce =
      init_label
      ++ (k.verifying_as_bytes identity_pub
          ++ (k.verifying_as_bytes expected_responder_pub
              ++ (k.dh_as_bytes ephemeral_pub ++ nonce)))

  unfoldable pub sign_initiation :
      k.SigningKey → k.VerifyingKey → k.DhPublicKey → Bytes → k.Signature
  sign_initiation identity_priv expected_responder_pub ephemeral_pub nonce = k.sign identity_priv (
      initiation_message (k.verifying_key identity_priv) expected_responder_pub ephemeral_pub nonce)

  unfoldable pub verify_initiation :
      k.VerifyingKey
      → k.VerifyingKey
      → k.DhPublicKey
      → Bytes
      → k.Signature
      → Result HandshakeError (Unit {0})
  verify_initiation initiator_identity_pub expected_responder_pub ephemeral_pub nonce signature =
      if k.verify initiator_identity_pub
        (initiation_message initiator_identity_pub expected_responder_pub ephemeral_pub nonce)
        signature
      then ok tt
      else err HandshakeError.invalid_signature

  unfoldable pub response_message :
      k.VerifyingKey → k.VerifyingKey → k.DhPublicKey → k.DhPublicKey → Bytes → Bytes → Bytes
  response_message responder_identity_pub initiator_identity_pub responder_ephemeral_pub
        initiator_ephemeral_pub responder_nonce initiator_nonce =
      resp_label
      ++ (k.verifying_as_bytes responder_identity_pub
          ++ (k.verifying_as_bytes initiator_identity_pub
              ++ (k.dh_as_bytes responder_ephemeral_pub
                  ++ (k.dh_as_bytes initiator_ephemeral_pub
                      ++ (responder_nonce ++ initiator_nonce)))))

  unfoldable pub sign_response :
      k.SigningKey → k.VerifyingKey → k.DhPublicKey → k.DhPublicKey → Bytes → Bytes → k.Signature
  sign_response identity_priv initiator_identity_pub responder_ephemeral_pub initiator_ephemeral_pub
        responder_nonce initiator_nonce =
      k.sign identity_priv (
        response_message (k.verifying_key identity_priv) initiator_identity_pub
          responder_ephemeral_pub initiator_ephemeral_pub responder_nonce initiator_nonce)

  unfoldable pub verify_response :
      k.VerifyingKey
      → k.VerifyingKey
      → k.DhPublicKey
      → k.DhPublicKey
      → Bytes
      → Bytes
      → k.Signature
      → Result HandshakeError (Unit {0})
  verify_response responder_identity_pub initiator_identity_pub responder_ephemeral_pub
        initiator_ephemeral_pub responder_nonce initiator_nonce signature =
      if k.verify responder_identity_pub
        (response_message responder_identity_pub initiator_identity_pub responder_ephemeral_pub
          initiator_ephemeral_pub responder_nonce initiator_nonce)
        signature
      then ok tt
      else err HandshakeError.invalid_signature

  -- the `info` of the key derivation
  unfoldable pub transcript_binding :
      k.VerifyingKey → k.VerifyingKey → k.DhPublicKey → k.DhPublicKey → Bytes
  transcript_binding initiator_identity_pub responder_identity_pub initiator_ephemeral_pub
        responder_ephemeral_pub =
      transcript_label
      ++ (k.verifying_as_bytes initiator_identity_pub
          ++ (k.verifying_as_bytes responder_identity_pub
              ++ (k.dh_as_bytes initiator_ephemeral_pub ++ k.dh_as_bytes responder_ephemeral_pub)))

  unfoldable pub derive_root_key :
      RawDhSecret
      → k.VerifyingKey
      → k.VerifyingKey
      → k.DhPublicKey
      → k.DhPublicKey
      → Bytes
      → Bytes
      → Result HandshakeError RootKey
  derive_root_key raw_dh initiator_identity_pub responder_identity_pub initiator_ephemeral_pub
        responder_ephemeral_pub initiator_nonce responder_nonce =
      let salt = initiator_nonce ++ responder_nonce in
      let info =
        transcript_binding initiator_identity_pub responder_identity_pub initiator_ephemeral_pub
          responder_ephemeral_pub in
      elim (k.hkdf_expand salt raw_dh.bytes info 32) [
        | some root_key_bytes ↦ ok (record { bytes = root_key_bytes })
        | none ↦ err HandshakeError.crypto_failure
      ]
