-- ===== src/Ffi/Sent.antt =====
-- What a message leaves behind at the C boundary of src/ffi.rs.
use null_path.Base.{
  ℕ, ◌*◌, ◌≤◌, ◌<◌, ◌≡◌, refl, some, List, [], ◌++◌, ok, arith, length, take, drop, length-take,
  ltb, le→ltb, if◌then◌else◌,
}
use null_path.Channel.Accept.{Carries}
use null_path.Channel.Exchange.{send_total}
use null_path.Channel.Sending.{advance}
use null_path.Channel.{SecureChannel, max_message_id_len, next_send_seq}
use null_path.Envelope.{envelope_total_len, max_payload_size}
use null_path.Envelope.Sized.{AllSized}
use null_path.Ffi.Buffer.{concat, copy_envelopes-concat}
use null_path.Ffi.{ReturnCode, outcome, write_envelopes, channel_send_checked, channel_send}
use null_path.Primitives.{Bytes, Primitives, IsSound}

-- The buffer, its length and the code after envelopes for `n_paths` paths. With room the buffer
-- starts with the envelopes, one behind the other, and is as it was behind them.
abbrev pub written : ℕ → List Bytes → Bytes → ℕ → Bytes × ℕ × ReturnCode
written n_paths envelopes out out_len =
    let required_len = n_paths * envelope_total_len in
    if ltb out_len required_len
    then (out, required_len, ReturnCode.decoypath_err_buffer_too_small)
    else (concat envelopes ++ drop required_len out, required_len, ReturnCode.decoypath_ok)

write_envelopes-sized :
    (envelopes : List Bytes) (out : Bytes) (out_len : ℕ)
    → AllSized envelopes
    → write_envelopes (ok envelopes) out out_len ≡ written (length envelopes) envelopes out out_len
unfolding write_envelopes
write_envelopes-sized envelopes out out_len sized =
    let n = length envelopes * envelope_total_len in
    rw (copy_envelopes-concat n 0 envelopes [] out sized refl (omega arith)) refl

module _ (p : Primitives) (sound : IsSound p) where
  -- A call of `decoypath_channel_send` with no null pointer and lengths within the limits advances
  -- the channel by one message, whether or not the buffer has room. With room for an envelope for
  -- each path the buffer holds envelopes that carry the payload under the number and key that the
  -- channel had, one behind the other at its start, and is as it was behind them; without, it leaves the buffer as it was, gives the length it needs and
  -- `DECOYPATH_ERR_BUFFER_TOO_SMALL`, and the message is lost.
  pub channel_send_total :
      (c : SecureChannel) (draw : ℕ) (payload : Bytes) (payload_len : ℕ) (message_id : Bytes)
      (message_id_len : ℕ) (out : Bytes) (out_len : ℕ)
      → length c.current_key.bytes ≡ 32
      → 0 < c.n_paths
      → payload_len ≤ max_payload_size
      → message_id_len ≤ max_message_id_len
      → (envelopes : List Bytes) × (draw' : ℕ) × Carries p c.current_key
          (next_send_seq c)
          c.n_paths
          (take message_id_len message_id)
          (take payload_len payload)
          envelopes
        × (channel_send p
              (some c)
              (some payload)
              payload_len
              (some message_id)
              message_id_len
              (some out)
              (some out_len)
              draw
            ≡ (outcome (advance p c) (written c.n_paths envelopes out out_len), draw'))
  unfolding channel_send channel_send_checked
  channel_send_total c draw payload payload_len message_id message_id_len out out_len key_size paths
        small short =
      let (envelopes, draw', sent, carries) =
        send_total p sound c draw (take payload_len payload) (take message_id_len message_id)
          key_size paths (omega (arith, length-take message_id_len message_id))
          (omega (arith, length-take payload_len payload)) in
      (
        envelopes,
        draw',
        carries,
        rw
            (
              le→ltb max_payload_size payload_len small,
              le→ltb max_message_id_len message_id_len short,
              sent,
              write_envelopes-sized envelopes out out_len carries.sized,
              carries.size,
            )
            refl,
      )
