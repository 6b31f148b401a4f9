-- ===== src/Errors/Texts.antt =====
-- The texts of src/errors.rs, compared within each type.
use null_path.Base.{
  ℕ, ◌+◌, ◌*◌, ◌≡◌, refl, sym, ap, ◌∙◌, List, [], ◌∷◌, length, codes, ◌==◌, if◌then◌else◌,
}
use null_path.Errors.{
  HandshakeError, PathEngineError, EnvelopeError, DecoyError, ChannelError, display_handshake_error,
  display_path_engine_error, display_envelope_error, display_decoy_error, display_channel_error,
}

-- the first letter and the length of a text
abbrev mark : List ℕ → ℕ
mark [] = 0
mark (c ∷ cs) = c + 1000 * length cs

abbrev read_handshake_error : ℕ → HandshakeError
read_handshake_error n =
    if n == 38072
    then HandshakeError.invalid_signature
    else if n == 25080
    then HandshakeError.peer_identity_mismatch
    else if n == 31073
    then HandshakeError.invalid_payload_format
    else HandshakeError.crypto_failure

abbrev read_path_engine_error : ℕ → PathEngineError
read_path_engine_error n =
    if n == 40078 then PathEngineError.invalid_path_count else PathEngineError.hmac_failure

abbrev read_envelope_error : ℕ → EnvelopeError
read_envelope_error n =
    if n == 40080
    then EnvelopeError.payload_too_large
    else if n == 21065
    then EnvelopeError.encryption_failure
    else if n == 41065
    then EnvelopeError.decryption_failure
    else EnvelopeError.invalid_format

abbrev read_decoy_error : ℕ → DecoyError
read_decoy_error n =
    if n == 35080
    then DecoyError.invalid_path_count
    else if n == 47086
    then DecoyError.invalid_slot_index
    else DecoyError.seal_failure

abbrev read_channel_error : ℕ → ChannelError
read_channel_error n =
    if n == 28072
    then ChannelError.handshake_required
    else if n == 43082
    then ChannelError.replayed_sequence
    else if n == 42083
    then ChannelError.skipped_key_expired
    else if n == 38083
    then ChannelError.invalid_sequence
    else if n == 43077
    then ChannelError.invalid_message_id
    else if n == 34077
    then ChannelError.out_of_window
    else if n == 28077
    then ChannelError.authentication_failed
    else ChannelError.decoy_failure

read_handshake_error-display_handshake_error :
    (e : HandshakeError) → read_handshake_error (mark (display_handshake_error e)) ≡ e
unfolding display_handshake_error codes
read_handshake_error-display_handshake_error HandshakeError.invalid_signature = refl
read_handshake_error-display_handshake_error HandshakeError.peer_identity_mismatch = refl
read_handshake_error-display_handshake_error HandshakeError.invalid_payload_format = refl
read_handshake_error-display_handshake_error HandshakeError.crypto_failure = refl

read_path_engine_error-display_path_engine_error :
    (e : PathEngineError) → read_path_engine_error (mark (display_path_engine_error e)) ≡ e
unfolding display_path_engine_error codes
read_path_engine_error-display_path_engine_error PathEngineError.invalid_path_count = refl
read_path_engine_error-display_path_engine_error PathEngineError.hmac_failure = refl

read_envelope_error-display_envelope_error :
    (e : EnvelopeError) → read_envelope_error (mark (display_envelope_error e)) ≡ e
unfolding display_envelope_error codes
read_envelope_error-display_envelope_error EnvelopeError.payload_too_large = refl
read_envelope_error-display_envelope_error EnvelopeError.encryption_failure = refl
read_envelope_error-display_envelope_error EnvelopeError.decryption_failure = refl
read_envelope_error-display_envelope_error EnvelopeError.invalid_format = refl

read_decoy_error-display_decoy_error :
    (e : DecoyError) → read_decoy_error (mark (display_decoy_error e)) ≡ e
unfolding display_decoy_error codes
read_decoy_error-display_decoy_error DecoyError.invalid_path_count = refl
read_decoy_error-display_decoy_error DecoyError.invalid_slot_index = refl
read_decoy_error-display_decoy_error DecoyError.seal_failure = refl

read_channel_error-display_channel_error :
    (e : ChannelError) → read_channel_error (mark (display_channel_error e)) ≡ e
unfolding display_channel_error codes
read_channel_error-display_channel_error ChannelError.handshake_required = refl
read_channel_error-display_channel_error ChannelError.replayed_sequence = refl
read_channel_error-display_channel_error ChannelError.skipped_key_expired = refl
read_channel_error-display_channel_error ChannelError.invalid_sequence = refl
read_channel_error-display_channel_error ChannelError.invalid_message_id = refl
read_channel_error-display_channel_error ChannelError.out_of_window = refl
read_channel_error-display_channel_error ChannelError.authentication_failed = refl
read_channel_error-display_channel_error ChannelError.decoy_failure = refl

by_reading :
    {E : Type 0} (display : E → List ℕ) (read : ℕ → E)
    → ((e : E) → read (mark (display e)) ≡ e)
    → (e f : E) → display e ≡ display f
    → e ≡ f
by_reading display read back e f h = sym (back e) ∙ ap (λ t. read (mark t)) h ∙ back f

-- Two errors of one type with the same text are the same error.
pub display-injective :
    ((e f : HandshakeError) → display_handshake_error e ≡ display_handshake_error f → e ≡ f)
    × ((e f : PathEngineError) → display_path_engine_error e ≡ display_path_engine_error f → e ≡ f)
    × ((e f : EnvelopeError) → display_envelope_error e ≡ display_envelope_error f → e ≡ f)
    × ((e f : DecoyError) → display_decoy_error e ≡ display_decoy_error f → e ≡ f)
    × ((e f : ChannelError) → display_channel_error e ≡ display_channel_error f → e ≡ f)
display-injective = (
  λ e f h.
      by_reading display_handshake_error read_handshake_error
        read_handshake_error-display_handshake_error e f h,
  λ e f h.
      by_reading display_path_engine_error read_path_engine_error
        read_path_engine_error-display_path_engine_error e f h,
  λ e f h.
      by_reading display_envelope_error read_envelope_error
        read_envelope_error-display_envelope_error e f h,
  λ e f h.
      by_reading display_decoy_error read_decoy_error read_decoy_error-display_decoy_error e f h,
  λ e f h.
      by_reading display_channel_error read_channel_error read_channel_error-display_channel_error e
        f h,
)
