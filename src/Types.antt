-- ===== src/Types.antt =====
-- src/types.rs: the two payloads of the handshake on the wire, 144 bytes each. `RootKey` and
-- `RawDhSecret` are their bytes; their zeroization is left out.
pub mod Wire
pub mod Identity
use null_path.Base.{
  ℕ, Option, some, none, List, Result, ok, err, length, ◌==◌, replicate, slice, splice,
  if◌then◌else◌,
}
use null_path.Curves.{Curves}
use null_path.Errors.{HandshakeError}
use null_path.Primitives.{Bytes}

abbrev pub init_payload_len : ℕ
init_payload_len = 144

abbrev pub resp_payload_len : ℕ
resp_payload_len = 144

pub record RootKey : Type 0 where
  pub bytes : Bytes

pub record RawDhSecret : Type 0 where
  pub bytes : Bytes

pub record HandshakeInitPayload (k : Curves) : Type 0 where
  pub initiator_identity_pub : k.VerifyingKey
  pub initiator_ephemeral_pub : k.DhPublicKey
  pub nonce : Bytes
  pub signature : k.Signature

pub record HandshakeResponsePayload (k : Curves) : Type 0 where
  pub responder_identity_pub : k.VerifyingKey
  pub responder_ephemeral_pub : k.DhPublicKey
  pub nonce : Bytes
  pub signature : k.Signature

module _ (k : Curves) where
  unfoldable pub init_to_bytes : HandshakeInitPayload k → Bytes
  init_to_bytes p =
      let out = replicate init_payload_len 0 in
      let out = splice out 0 (k.verifying_as_bytes p.initiator_identity_pub) in
      let out = splice out 32 (k.dh_as_bytes p.initiator_ephemeral_pub) in
      let out = splice out 64 p.nonce in splice out 80 (k.signature_to_bytes p.signature)

  unfoldable pub init_from_bytes : Bytes → Result HandshakeError (HandshakeInitPayload k)
  init_from_bytes bytes =
      if length bytes == init_payload_len
      then (elim (k.verifying_from_bytes (slice 0 32 bytes)) [
        | none ↦ err HandshakeError.invalid_payload_format
        | some identity ↦ ok (record {
          initiator_identity_pub = identity;
          initiator_ephemeral_pub = k.dh_from_bytes (slice 32 64 bytes);
          nonce = slice 64 80 bytes;
          signature = k.signature_from_bytes (slice 80 144 bytes);
        })
      ])
      else err HandshakeError.invalid_payload_format

  unfoldable pub response_to_bytes : HandshakeResponsePayload k → Bytes
  response_to_bytes p =
      let out = replicate resp_payload_len 0 in
      let out = splice out 0 (k.verifying_as_bytes p.responder_identity_pub) in
      let out = splice out 32 (k.dh_as_bytes p.responder_ephemeral_pub) in
      let out = splice out 64 p.nonce in splice out 80 (k.signature_to_bytes p.signature)

  unfoldable pub response_from_bytes : Bytes → Result HandshakeError (HandshakeResponsePayload k)
  response_from_bytes bytes =
      if length bytes == resp_payload_len
      then (elim (k.verifying_from_bytes (slice 0 32 bytes)) [
        | none ↦ err HandshakeError.invalid_payload_format
        | some identity ↦ ok (record {
          responder_identity_pub = identity;
          responder_ephemeral_pub = k.dh_from_bytes (slice 32 64 bytes);
          nonce = slice 64 80 bytes;
          signature = k.signature_from_bytes (slice 80 144 bytes);
        })
      ])
      else err HandshakeError.invalid_payload_format
