-- ===== src/Channel/Refusal.antt =====
-- The errors of `send` of src/channel.rs.
use null_path.Base.{
  ℕ, ◌<◌, ◌≡◌, ap, ◌∙◌, ==_iff, ◌⊎◌, inl, inr, arith, err, ok, List, length, ◌≤◌, ltb→lt, ltb→le,
  ltb, ◌==◌, if◌then◌else◌, Bool-cases,
}
use null_path.Channel.{
  SecureChannel, max_message_id_len, next_send_seq, construct_aad, distribute, send,
}
use null_path.Envelope.RoundTrip.{seal-payload_too_large}
use null_path.Envelope.{max_payload_size}
use null_path.Errors.{ChannelError}
use null_path.PathEngine.Slot.{select_slot-zero, select_slot_total}
use null_path.PathEngine.{select_slot}
use null_path.Primitives.{Bytes, Primitives, IsSound}

-- the first limit that the arguments break
abbrev pub send_error : SecureChannel → Bytes → ChannelError
send_error c message_id =
    if ltb max_message_id_len (length message_id)
    then ChannelError.invalid_message_id
    else if c.n_paths == 0
    then ChannelError.decoy_failure
    else ChannelError.authentication_failed

module _ (p : Primitives) (sound : IsSound p) (c : SecureChannel) (payload message_id : Bytes)
    (draw : ℕ) where
  -- A message ID of more than 256 bytes, a channel with no path, or a payload of more than 992 bytes
  -- is an error, by the first of these that applies; the channel is unchanged and nothing is drawn.
  pub send-refused :
      (max_message_id_len < length message_id)
        ⊎ (c.n_paths ≡ 0)
        ⊎ (max_payload_size < length payload)
      → send p c payload message_id draw ≡ (c, err (send_error c message_id), draw)
  unfolding send distribute
  send-refused h = elim (Bool-cases (ltb max_message_id_len (length message_id))) [
    | inl long ↦ rw long
    | inr short ↦ elim (Bool-cases (c.n_paths == 0)) [
      | inl no_path ↦
          let chosen =
            ap (select_slot p c.current_key.bytes message_id) ((==_iff c.n_paths 0).0 no_path)
            ∙ select_slot-zero p c.current_key.bytes message_id in
          rw (short, chosen, no_path)
      | inr paths ↦
          let (slot, chosen, below) =
            select_slot_total p c.current_key.bytes message_id c.n_paths sound (ground arith) in
          let large : max_payload_size < length payload = ground arith in
          rw (
            short,
            chosen,
            paths,
            seal-payload_too_large p c.current_key.bytes payload
                (construct_aad (next_send_seq c) message_id) draw large,
            distribute,
          )
    ]
  ]

  -- A call that gave envelopes was within the limits.
  pub send-within :
      (envelopes : List Bytes)
      → (send p c payload message_id draw).1 ≡ ok envelopes
      → (length message_id ≤ max_message_id_len)
        × (0 < c.n_paths)
        × (length payload ≤ max_payload_size)
  send-within envelopes h =
      let refuse : ¬ (
          (max_message_id_len < length message_id)
          ⊎ (c.n_paths ≡ 0)
          ⊎ (max_payload_size < length payload)) =
        λ broken. let refused = ap (λ r. r.1) (send-refused broken) in cc in
      (
        elim (Bool-cases (ltb max_message_id_len (length message_id))) [
          | inl long ↦ absurd (refuse (inl (ltb→lt max_message_id_len (length message_id) long)))
          | inr short ↦ ltb→le max_message_id_len (length message_id) short
        ],
        elim (Bool-cases (ltb 0 c.n_paths)) [
          | inl paths ↦ ltb→lt 0 c.n_paths paths
          | inr no_path ↦
              let none_there = ltb→le 0 c.n_paths no_path in
              absurd (refuse (inr (inl (omega arith))))
        ],
        elim (Bool-cases (ltb max_payload_size (length payload))) [
          | inl large ↦ absurd (refuse (inr (inr (ltb→lt max_payload_size (length payload) large))))
          | inr small ↦ ltb→le max_payload_size (length payload) small
        ],
      )
