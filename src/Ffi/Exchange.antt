-- ===== src/Ffi/Exchange.antt =====
-- A message through the C boundary of src/ffi.rs, from the buffer of one caller to that of another.
use null_path.Base.{
  ℕ, ◌*◌, ◌/◌, ◌%◌, ◌≤◌, ◌<◌, ◌≡◌, refl, ap, ◌∙◌, false, some, List, not, ◌||◌, arith, ok, length,
  take, drop, ◌++◌, splice, length-take, ltb, ◌==◌, le→ltb,
}
use null_path.Channel.Delivery.{CanAccept, receive-Accepts}
use null_path.Channel.Exchange.{SendsAt, Carries-SendsAt}
use null_path.Channel.Invariant.{IsValid}
use null_path.Channel.Ratchet.{Follows}
use null_path.Channel.Sending.{advance}
use null_path.Channel.{SecureChannel, max_message_id_len, receive}
use null_path.Envelope.{envelope_total_len, max_payload_size}
use null_path.Ffi.Buffer.{concat, split_envelopes-written}
use null_path.Ffi.Sent.{channel_send_total}
use null_path.Ffi.{
  ReturnCode, outcome, max_n_paths, split_envelopes, write_payload, channel_send, channel_receive,
  channel_receive_checked,
}
use null_path.PathEngine.Chain.{derive_n-length}
use null_path.PathEngine.{RatchetKey}
use null_path.Primitives.{Bytes, Primitives, IsSound}

-- the guard of `decoypath_channel_receive` lets a whole number of envelopes through
pub envelopes_len-passes :
    (n : ℕ)
    → 0 < n
    → n ≤ max_n_paths
    → ((n * envelope_total_len == 0)
        || not ((n * envelope_total_len) % envelope_total_len == 0)
        || ltb (max_n_paths * envelope_total_len) (n * envelope_total_len))
      ≡ false
envelopes_len-passes n lo hi = ground arith

module _ (p : Primitives) where
  channel_receive-receive :
      (now seq n : ℕ) (d d' : SecureChannel) (envelopes : List Bytes) (raw message_id : Bytes)
      (message_id_len : ℕ) (payload buffer : Bytes) (buffer_len : ℕ)
      → 0 < n
      → n ≤ max_n_paths
      → message_id_len ≤ max_message_id_len
      → length payload ≤ buffer_len
      → split_envelopes n 0 (take (n * envelope_total_len) raw) ≡ ok envelopes
      → receive p now d envelopes seq (take message_id_len message_id) ≡ (d', ok payload)
      → channel_receive p now
          (some d)
          (some raw)
          (n * envelope_total_len)
          seq
          (some message_id)
          message_id_len
          (some buffer)
          (some buffer_len)
        ≡ outcome d' (splice buffer 0 payload, length payload, ReturnCode.decoypath_ok)
  unfolding channel_receive channel_receive_checked write_payload
  channel_receive-receive now seq n d d' envelopes raw message_id message_id_len payload buffer
        buffer_len lo hi short room cut got =
      let whole : n * envelope_total_len / envelope_total_len ≡ n = omega arith in
      rw (le→ltb max_message_id_len message_id_len short, envelopes_len-passes n lo hi, whole, cut)
        (ap (λ r. outcome r.0 (write_payload r.1 buffer buffer_len)) got
          ∙ rw (le→ltb buffer_len (length payload) room) refl)

  -- With a sender whose message `n` is under the root key advanced `n` times, a valid receiver whose
  -- keys stand at their places in the ratchet from the same root key, path counts from 1 to 64, lengths within the limits and
  -- buffers with room, and a number that the receiver can still take in: what
  -- `decoypath_channel_send` writes, `decoypath_channel_receive` takes from that buffer, and leaves
  -- the payload and its length. Both return `DECOYPATH_OK`.
  pub channel_receive-channel_send :
      (root : RatchetKey) (c d : SecureChannel) (n draw now : ℕ) (payload : Bytes) (payload_len : ℕ)
      (message_id : Bytes) (message_id_len : ℕ) (out : Bytes) (out_len : ℕ) (buffer : Bytes)
      (buffer_len : ℕ)
      → IsSound p
      → length root.bytes ≡ 32
      → SendsAt p root n c
      → IsValid d
      → Follows p root d
      → d.n_paths ≡ c.n_paths
      → CanAccept d n
      → 0 < c.n_paths
      → c.n_paths ≤ max_n_paths
      → payload_len ≤ max_payload_size
      → message_id_len ≤ max_message_id_len
      → c.n_paths * envelope_total_len ≤ out_len
      → out_len ≤ length out
      → payload_len ≤ buffer_len
      → (sent : Bytes) × (draw' : ℕ) × (d' : SecureChannel) × (channel_send p
            (some c)
            (some payload)
            payload_len
            (some message_id)
            message_id_len
            (some out)
            (some out_len)
            draw
          ≡ (
            outcome (advance p c) (sent, c.n_paths * envelope_total_len, ReturnCode.decoypath_ok),
            draw',
          ))
        × (channel_receive p now
              (some d)
              (some sent)
              (c.n_paths * envelope_total_len)
              n
              (some message_id)
              message_id_len
              (some buffer)
              (some buffer_len)
            ≡ outcome d' (
              splice buffer 0 (take payload_len payload),
              length (take payload_len payload),
              ReturnCode.decoypath_ok,
            ))
  channel_receive-channel_send root c d n draw now payload payload_len message_id message_id_len out
        out_len buffer buffer_len sound root_size s v f same can lo hi fit short room within space =
      let id = take message_id_len message_id in
      let text = take payload_len payload in
      let key_size : length c.current_key.bytes ≡ 32 =
        rw (s.current) (derive_n-length p n root sound root_size) in
      let (envelopes, draw', carries, sent) =
        channel_send_total p sound c draw payload payload_len message_id message_id_len out out_len
          key_size lo fit short in
      let (d', got, step) =
        receive-Accepts p root d now n id text envelopes v f can
          (omega (arith, length-take message_id_len message_id))
          (rw same (Carries-SendsAt p root s carries)) in
      let left = concat envelopes ++ drop (c.n_paths * envelope_total_len) out in
      let cut =
        split_envelopes-written envelopes (drop (c.n_paths * envelope_total_len) out)
          carries.sized in
      (
        left,
        draw',
        d',
        rw (le→ltb out_len (c.n_paths * envelope_total_len) room) at sent,
        channel_receive-receive now n c.n_paths d d' envelopes left message_id message_id_len text
            buffer buffer_len lo hi short (omega (arith, length-take payload_len payload))
            (rw carries.size at cut) got,
      )
