-- ===== src/Ffi.antt =====
-- src/ffi.rs: the codes, `decoypath_channel_send` and `decoypath_channel_receive`. A pointer is
-- `none` when null, and otherwise what it points to; a function returns what the caller's memory
-- holds after it. The length that a caller states of a buffer is at most the length of that buffer.
pub mod Codes
pub mod Panics
pub mod Values
pub mod Integrity
pub mod Again
pub mod Sent
pub mod Buffer
pub mod Session
pub mod Exchange
pub mod Boxes
use null_path.Base.{
  ℕ, zero, suc, ◌+◌, ◌*◌, ◌/◌, ◌%◌, not, ◌||◌, Option, none, some, List, [], ◌∷◌, Result, ok, err,
  panic, ◌>>=◌, Bool, true, false, ◌&&◌, length, take, get_range, splice, ltb, leb, ◌==◌,
  if◌then◌else◌,
}
use null_path.Channel.{SecureChannel, max_message_id_len, send, receive}
use null_path.Envelope.{envelope_total_len, max_payload_size}
use null_path.Errors.{ChannelError}
use null_path.Primitives.{Bytes, Primitives}

abbrev pub max_n_paths : ℕ
max_n_paths = 64

-- the return codes; Values has their numbers
pub data ReturnCode : Type 0 where
  decoypath_ok : ReturnCode
  decoypath_err_null_pointer : ReturnCode
  decoypath_err_invalid_payload : ReturnCode
  decoypath_err_authentication_failed : ReturnCode
  decoypath_err_crypto_failure : ReturnCode
  decoypath_err_buffer_too_small : ReturnCode
  decoypath_err_invalid_sequence : ReturnCode
  decoypath_err_replayed_sequence : ReturnCode
  decoypath_err_skipped_key_expired : ReturnCode
  decoypath_err_invalid_message_id : ReturnCode
  decoypath_err_panic : ReturnCode

unfoldable pub send_code : ChannelError → ReturnCode
send_code ChannelError.invalid_message_id = decoypath_err_invalid_message_id
send_code ChannelError.invalid_sequence = decoypath_err_invalid_sequence
send_code _ = decoypath_err_crypto_failure

-- `for (i, env) in envelopes.iter().enumerate()`, from `i` on, into a slice of `len` bytes: what is
-- written, and whether the loop came to its end. It panics where the range is out of the slice, or
-- where `copy_from_slice` has another length.
unfoldable pub copy_envelopes : ℕ → ℕ → List Bytes → Bytes → Bytes × Bool
copy_envelopes len i [] out = (out, true)
copy_envelopes len i (env ∷ envelopes) out =
    let start = i * envelope_total_len in
    if leb (start + envelope_total_len) len && (length env == envelope_total_len)
    then copy_envelopes len (i + 1) envelopes (splice out start env)
    else (out, false)

-- the end of `decoypath_channel_send`: the buffer, its length and the code
unfoldable pub write_envelopes :
    Result ChannelError (List Bytes) → Bytes → ℕ → Bytes × ℕ × ReturnCode
write_envelopes (ok envelopes) out out_len =
    let required_len = length envelopes * envelope_total_len in
    if ltb out_len required_len
    then (out, required_len, decoypath_err_buffer_too_small)
    else (let (out', done) = copy_envelopes required_len 0 envelopes out in
        if done then (out', required_len, decoypath_ok) else (out', out_len, decoypath_err_panic))
write_envelopes (err e) out out_len = (out, out_len, send_code e)
write_envelopes panic out out_len = (out, out_len, decoypath_err_panic)

unfoldable pub receive_code : ChannelError → ReturnCode
receive_code ChannelError.replayed_sequence = decoypath_err_replayed_sequence
receive_code ChannelError.skipped_key_expired = decoypath_err_skipped_key_expired
receive_code ChannelError.invalid_sequence = decoypath_err_invalid_sequence
receive_code ChannelError.invalid_message_id = decoypath_err_invalid_message_id
receive_code ChannelError.authentication_failed = decoypath_err_authentication_failed
receive_code _ = decoypath_err_crypto_failure

-- `for i in i..i + left`, the envelopes of the raw bytes; a range beyond the bytes panics
unfoldable pub split_envelopes : ℕ → ℕ → Bytes → Result ChannelError (List Bytes)
split_envelopes zero i raw = ok []
split_envelopes (suc left) i raw = do
  env ← get_range (i * envelope_total_len) (i * envelope_total_len + envelope_total_len) raw
  envelopes ← split_envelopes left (i + 1) raw
  ok (env ∷ envelopes)

-- the end of `decoypath_channel_receive`; `copy_from_slice` cannot panic, for the slice of the buffer
-- is made as long as the payload
unfoldable pub write_payload : Result ChannelError Bytes → Bytes → ℕ → Bytes × ℕ × ReturnCode
write_payload (ok decrypted) out out_len =
    if ltb out_len (length decrypted)
    then (out, length decrypted, decoypath_err_buffer_too_small)
    else (splice out 0 decrypted, length decrypted, decoypath_ok)
write_payload (err e) out out_len = (out, out_len, receive_code e)
write_payload panic out out_len = (out, out_len, decoypath_err_panic)

-- what the pointers of a call on a channel hold after it, and the code
pub record Outcome : Type 0 where
  pub channel : Option SecureChannel
  pub out : Option Bytes
  pub out_len : Option ℕ
  pub code : ReturnCode

abbrev pub outcome : SecureChannel → Bytes × ℕ × ReturnCode → Outcome
outcome c (out, len, code) = record {
  channel = some c;
  out = some out;
  out_len = some len;
  code = code;
}

module _ (p : Primitives) where
  -- behind the null checks
  unfoldable pub channel_send_checked :
      SecureChannel → Bytes → ℕ → Bytes → ℕ → Bytes → ℕ → ℕ → Outcome × ℕ
  channel_send_checked c payload payload_len message_id message_id_len out out_len draw =
      if ltb max_payload_size payload_len
      then (outcome c (out, out_len, decoypath_err_invalid_payload), draw)
      else if ltb max_message_id_len message_id_len
      then (outcome c (out, out_len, decoypath_err_invalid_message_id), draw)
      else (let (c', envelopes, draw') =
            send p c (take payload_len payload) (take message_id_len message_id) draw in
          (outcome c' (write_envelopes envelopes out out_len), draw'))

  unfoldable pub channel_send :
      Option SecureChannel
      → Option Bytes
      → ℕ
      → Option Bytes
      → ℕ
      → Option Bytes
      → Option ℕ
      → ℕ
      → Outcome × ℕ
  channel_send (some c) (some payload) payload_len (some message_id) message_id_len (some out)
        (some out_len) draw =
      channel_send_checked c payload payload_len message_id message_id_len out out_len draw
  channel_send c payload payload_len message_id message_id_len out out_len draw = (
    record { channel = c; out = out; out_len = out_len; code = decoypath_err_null_pointer },
    draw,
  )

  -- behind the null checks
  unfoldable pub channel_receive_checked :
      ℕ → SecureChannel → Bytes → ℕ → ℕ → Bytes → ℕ → Bytes → ℕ → Outcome
  channel_receive_checked now c envelopes envelopes_len seq message_id message_id_len out out_len =
      if ltb max_message_id_len message_id_len
      then outcome c (out, out_len, decoypath_err_invalid_message_id)
      else if (envelopes_len == 0)
          || not ((envelopes_len % envelope_total_len) == 0)
          || ltb (max_n_paths * envelope_total_len) envelopes_len
      then outcome c (out, out_len, decoypath_err_invalid_payload)
      else (let n_paths = envelopes_len / envelope_total_len in
          elim (split_envelopes n_paths 0 (take envelopes_len envelopes)) [
            | ok envelope_vec ↦
                let (c', decrypted) =
                  receive p now c envelope_vec seq (take message_id_len message_id) in
                outcome c' (write_payload decrypted out out_len)
            | err e ↦ outcome c (write_payload (err e) out out_len)
            | panic ↦ outcome c (write_payload panic out out_len)
          ])

  unfoldable pub channel_receive :
      ℕ
      → Option SecureChannel
      → Option Bytes
      → ℕ
      → ℕ
      → Option Bytes
      → ℕ
      → Option Bytes
      → Option ℕ
      → Outcome
  channel_receive now (some c) (some envelopes) envelopes_len seq (some message_id) message_id_len
        (some out) (some out_len) =
      channel_receive_checked now c envelopes envelopes_len seq message_id message_id_len out
        out_len
  channel_receive now c envelopes envelopes_len seq message_id message_id_len out out_len = record {
    channel = c;
    out = out;
    out_len = out_len;
    code = decoypath_err_null_pointer;
  }
