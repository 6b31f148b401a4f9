-- ===== src/Errors.antt =====
-- src/errors.rs: the error types of the five modules, and their texts as ASCII codes.
pub mod Texts
use null_path.Base.{ℕ, List, codes}

pub data HandshakeError : Type 0 where
  invalid_signature : HandshakeError
  peer_identity_mismatch : HandshakeError
  invalid_payload_format : HandshakeError
  crypto_failure : HandshakeError

pub data PathEngineError : Type 0 where
  invalid_path_count : PathEngineError
  hmac_failure : PathEngineError

pub data EnvelopeError : Type 0 where
  payload_too_large : EnvelopeError
  encryption_failure : EnvelopeError
  decryption_failure : EnvelopeError
  invalid_format : EnvelopeError

pub data DecoyError : Type 0 where
  invalid_path_count : DecoyError
  invalid_slot_index : DecoyError
  seal_failure : DecoyError

pub data ChannelError : Type 0 where
  handshake_required : ChannelError
  replayed_sequence : ChannelError
  skipped_key_expired : ChannelError
  invalid_sequence : ChannelError
  invalid_message_id : ChannelError
  out_of_window : ChannelError
  authentication_failed : ChannelError
  decoy_failure : ChannelError

unfoldable pub display_handshake_error : HandshakeError → List ℕ
display_handshake_error HandshakeError.invalid_signature =
    codes "Handshake signature verification failed"
display_handshake_error HandshakeError.peer_identity_mismatch = codes "Peer identity key mismatch"
display_handshake_error HandshakeError.invalid_payload_format =
    codes "Invalid handshake payload format"
display_handshake_error HandshakeError.crypto_failure = codes "Cryptographic primitive failure"

unfoldable pub display_path_engine_error : PathEngineError → List ℕ
display_path_engine_error PathEngineError.invalid_path_count =
    codes "Number of paths must be greater than zero"
display_path_engine_error PathEngineError.hmac_failure = codes "HMAC-SHA256 path evaluation failed"

unfoldable pub display_envelope_error : EnvelopeError → List ℕ
display_envelope_error EnvelopeError.payload_too_large =
    codes "Payload exceeds maximum 992-byte capacity"
display_envelope_error EnvelopeError.encryption_failure = codes "AEAD encryption failed"
display_envelope_error EnvelopeError.decryption_failure =
    codes "AEAD decryption or tag verification failed"
display_envelope_error EnvelopeError.invalid_format =
    codes "Invalid decrypted envelope format or version"

unfoldable pub display_decoy_error : DecoyError → List ℕ
display_decoy_error DecoyError.invalid_path_count = codes "Path count must be greater than zero"
display_decoy_error DecoyError.invalid_slot_index =
    codes "Valid slot index is out of bounds for path count"
display_decoy_error DecoyError.seal_failure = codes "Decoy envelope sealing failed"

unfoldable pub display_channel_error : ChannelError → List ℕ
display_channel_error ChannelError.handshake_required = codes "Handshake completion required"
display_channel_error ChannelError.replayed_sequence =
    codes "Replayed or already consumed sequence number"
display_channel_error ChannelError.skipped_key_expired =
    codes "Skipped ratchet key was evicted from memory"
display_channel_error ChannelError.invalid_sequence =
    codes "Sequence number exceeds max skip window"
display_channel_error ChannelError.invalid_message_id =
    codes "Message ID exceeds maximum 256-byte capacity"
display_channel_error ChannelError.out_of_window = codes "Message outside allowed time window"
display_channel_error ChannelError.authentication_failed = codes "Message authentication failed"
display_channel_error ChannelError.decoy_failure = codes "Decoy channel processing error"
