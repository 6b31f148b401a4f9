-- ===== src/Ffi/Panics.antt =====
-- Panics behind `decoypath_channel_receive` of src/ffi.rs, which `catch_unwind` turns into a code.
use null_path.Base.{
  ℕ, zero, suc, ◌+◌, ◌*◌, ◌/◌, ◌≤◌, ◌≢◌, some, arith, length, take, length-slice, length-take,
  panic, Result, ok, List, [], ◌∷◌, ◌≡◌, refl, slice, get_range-slice,
}
use null_path.Channel.Accept.{receive-returns}
use null_path.Channel.Invariant.{IsValid}
use null_path.Channel.{SecureChannel, receive}
use null_path.Envelope.Sized.{AllSized}
use null_path.Envelope.{envelope_total_len}
use null_path.Errors.{ChannelError}
use null_path.Ffi.{
  ReturnCode, receive_code, write_payload, split_envelopes, channel_receive_checked,
  channel_receive,
}
use null_path.Primitives.{Bytes, Primitives, IsSound}

-- with bytes for all its turns the loop comes to its end, and each envelope has its full length
split_envelopes-returns :
    (left i : ℕ) (raw : Bytes)
    → (i + left) * envelope_total_len ≤ length raw
    → (envelopes : List Bytes) × (split_envelopes left i raw ≡ ok envelopes) × AllSized envelopes
unfolding split_envelopes
split_envelopes-returns zero i raw fits = ([], refl, tt)
split_envelopes-returns (suc left) i raw fits =
    let start = i * envelope_total_len in
    let end = i * envelope_total_len + envelope_total_len in
    let (envelopes, rest, sized) = split_envelopes-returns left (i + 1) raw (omega arith) in
    let first = get_range-slice {E = ChannelError} start end raw (omega arith) (omega arith) in
    (
      slice start end raw ∷ envelopes,
      rw (first, rest) refl,
      (omega (arith, length-slice start end raw), sized),
    )

write_payload-returns :
    (r : Result ChannelError Bytes) (out : Bytes) (out_len : ℕ)
    → r ≢ panic
    → (write_payload r out out_len).2 ≢ ReturnCode.decoypath_err_panic
unfolding write_payload receive_code
write_payload-returns r out out_len h = λ e. ground arith

module _ (p : Primitives) (sound : IsSound p) (c : SecureChannel) (v : IsValid c) where
  -- On a valid channel, with no null pointer and as many bytes behind the envelope pointer as the
  -- caller states, `decoypath_channel_receive` never returns `DECOYPATH_ERR_PANIC`.
  pub channel_receive-returns :
      (now : ℕ) (envelopes : Bytes) (envelopes_len seq : ℕ) (message_id : Bytes)
      (message_id_len : ℕ) (out : Bytes) (out_len : ℕ)
      → envelopes_len ≤ length envelopes
      → (channel_receive p now
          (some c)
          (some envelopes)
          envelopes_len
          seq
          (some message_id)
          message_id_len
          (some out)
          (some out_len)).code
        ≢ ReturnCode.decoypath_err_panic
  unfolding channel_receive channel_receive_checked
  channel_receive-returns now envelopes envelopes_len seq message_id message_id_len out out_len
        whole =
      let n = envelopes_len / envelope_total_len in
      let (envelope_vec, cut, sized) =
        split_envelopes-returns n 0 (take envelopes_len envelopes)
          (omega (arith, length-take envelopes_len envelopes)) in
      let id = take message_id_len message_id in
      let returns =
        write_payload-returns (receive p now c envelope_vec seq id).1 out out_len
          (receive-returns p sound now seq envelope_vec id v sized) in
      λ e. ground (arith, returns, cut)
