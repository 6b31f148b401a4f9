-- ===== src/Ffi/Codes.antt =====
-- What the return code of `decoypath_channel_receive` of src/ffi.rs says of the channel.
use null_path.Base.{
  ℕ, ◌≡◌, ◌≢◌, ◌⊎◌, inl, inr, refl, not, ◌||◌, ◌*◌, ◌/◌, ◌%◌, some, arith, Bool, length, take,
  splice, ltb, ◌==◌, if◌then◌else◌, Bool-cases, Result-cases,
}
use null_path.Channel.Invariant.{IsValid, receive_lem}
use null_path.Channel.Step.{Accepts}
use null_path.Channel.{SecureChannel, max_message_id_len, receive}
use null_path.Envelope.{envelope_total_len}
use null_path.Errors.{ChannelError}
use null_path.Ffi.{
  ReturnCode, Outcome, outcome, receive_code, write_payload, split_envelopes,
  channel_receive_checked, channel_receive, max_n_paths,
}
use null_path.PathEngine.{RatchetKey}
use null_path.Primitives.{Bytes, Primitives}

-- the channel, the buffer and its length are as they were, and the code is that of an error
pub record Unchanged (c : SecureChannel) (out : Bytes) (out_len : ℕ) (o : Outcome) : Type 0 where
  pub code : ReturnCode
  pub same : o ≡ outcome c (out, out_len, code)
  pub not_ok : code ≢ ReturnCode.decoypath_ok
  pub not_too_small : code ≢ ReturnCode.decoypath_err_buffer_too_small

-- the channel has taken the message in, and the payload is in the buffer if there was room
pub record Consumed (p : Primitives) (now : ℕ) (c : SecureChannel) (seq : ℕ) (message_id : Bytes)
    (out : Bytes) (out_len : ℕ) (o : Outcome) : Type 0 where
  pub after : SecureChannel
  pub key : RatchetKey
  pub payload : Bytes
  pub step : Accepts p now c after seq message_id key
  pub leaves :
      o
      ≡ outcome after (
          if ltb out_len (length payload)
          then (out, length payload, ReturnCode.decoypath_err_buffer_too_small)
          else (splice out 0 payload, length payload, ReturnCode.decoypath_ok))

pub receive_code-error :
    (e : ChannelError)
    → (receive_code e ≢ ReturnCode.decoypath_ok)
      × (receive_code e ≢ ReturnCode.decoypath_err_buffer_too_small)
unfolding receive_code
receive_code-error e = (λ h. ground arith, λ h. ground arith)

-- a guard that returns before the channel is used
guarded :
    (c : SecureChannel) (out : Bytes) (out_len : ℕ) (o : Outcome) (code : ReturnCode)
    → o ≡ outcome c (out, out_len, code)
    → code ≢ ReturnCode.decoypath_ok
    → code ≢ ReturnCode.decoypath_err_buffer_too_small
    → Unchanged c out out_len o
guarded c out out_len o code e h h' = record {
  code = code;
  same = e;
  not_ok = h;
  not_too_small = h';
}

-- the guard on the length of the envelopes
abbrev pub is_invalid : ℕ → Bool
is_invalid envelopes_len =
    (envelopes_len == 0)
    || not ((envelopes_len % envelope_total_len) == 0)
    || ltb (max_n_paths * envelope_total_len) envelopes_len

module _ (p : Primitives) (c : SecureChannel) (v : IsValid c) where
  -- A call of `decoypath_channel_receive` on a valid channel with no null pointer either changes
  -- nothing and returns the code of an error other than `DECOYPATH_ERR_BUFFER_TOO_SMALL`, or takes
  -- the message in and leaves the payload in the buffer, with `DECOYPATH_OK`, if the buffer has room
  -- for it; if it has not, the call leaves the length that it needs and
  -- `DECOYPATH_ERR_BUFFER_TOO_SMALL`, and the message has been taken in all the same.
  pub channel_receive_lem :
      (now : ℕ) (envelopes : Bytes) (envelopes_len seq : ℕ) (message_id : Bytes)
      (message_id_len : ℕ) (out : Bytes) (out_len : ℕ)
      → Unchanged c out out_len (
          channel_receive p now
            (some c)
            (some envelopes)
            envelopes_len
            seq
            (some message_id)
            message_id_len
            (some out)
            (some out_len))
        ⊎ Consumed p now c seq (take message_id_len message_id) out out_len (
            channel_receive p now
              (some c)
              (some envelopes)
              envelopes_len
              seq
              (some message_id)
              message_id_len
              (some out)
              (some out_len))
  unfolding channel_receive channel_receive_checked write_payload
  channel_receive_lem now envelopes envelopes_len seq message_id message_id_len out out_len =
      let n_paths = envelopes_len / envelope_total_len in
      let cut = split_envelopes n_paths 0 (take envelopes_len envelopes) in
      let id = take message_id_len message_id in
      elim (Bool-cases (ltb max_message_id_len message_id_len)) [
        | inl long ↦ inl (
            guarded c out out_len _ ReturnCode.decoypath_err_invalid_message_id (rw long refl)
              (λ h. grind arith) (λ h. grind arith))
        | inr short ↦ elim (Bool-cases (is_invalid envelopes_len)) [
          | inl odd ↦ inl (
              guarded c out out_len _ ReturnCode.decoypath_err_invalid_payload
                (rw (short, odd) refl) (λ h. grind arith) (λ h. grind arith))
          | inr even ↦ elim (Result-cases cut) [
            | inr (inl (e, r)) ↦
                let (h, h') = receive_code-error e in
                inl (guarded c out out_len _ (receive_code e) (rw (short, even, r) refl) h h')
            | inr (inr r) ↦ inl (
                guarded c out out_len _ ReturnCode.decoypath_err_panic (rw (short, even, r) refl)
                  (λ h. grind arith) (λ h. grind arith))
            | inl (envelope_vec, vec) ↦ elim (receive_lem p v now envelope_vec seq id) [
              | inl a ↦ inr (record {
                after = (receive p now c envelope_vec seq id).0;
                key = a.key;
                payload = a.payload;
                step = a.step;
                leaves = rw (short, even, vec, a.returns) refl;
              })
              | inr (same, inl (e, r)) ↦
                  let (h, h') = receive_code-error e in
                  inl (
                    guarded c out out_len _ (receive_code e) (rw (short, even, vec, r, same) refl) h
                      h')
              | inr (same, inr r) ↦ inl (
                  guarded c out out_len _ ReturnCode.decoypath_err_panic
                    (rw (short, even, vec, r, same) refl) (λ h. grind arith) (λ h. grind arith))
            ]
          ]
        ]
      ]
