-- ===== src/Channel/Sending.antt =====
-- What `send` of src/channel.rs does to the state, whatever its result.
use null_path.Base.{
  ◌^◌, ◌<◌, arith, ℕ, ◌≡◌, refl, ◌⊎◌, inl, inr, some, Result, ok, err, panic, map_err, ltb, length,
  Bool-cases, Result-cases,
}
use null_path.Channel.Invariant.{IsValid, Consumed}
use null_path.Channel.Step.{next_seq}
use null_path.Channel.{
  SecureChannel, max_message_id_len, construct_aad, next_send_seq, distribute, send,
}
use null_path.Errors.{ChannelError}
use null_path.PathEngine.{derive_next, select_slot}
use null_path.Primitives.{Bytes, Primitives}

-- the ratchet and the sequence number one step on
unfoldable pub advance : Primitives → SecureChannel → SecureChannel
advance p c = record c {
  current_key = derive_next p c.current_key;
  send_seq = some (next_send_seq c);
}

-- the number of a message is a `u64`
pub next_send_seq-lt : (c : SecureChannel) → next_send_seq c < 2 ^ 64
unfolding next_send_seq
next_send_seq-lt c = ground arith

module _ (p : Primitives) (c : SecureChannel) where
  distribute-state :
      (valid_slot : ℕ) (aad : Bytes) (r : Result ChannelError Bytes) (draw : ℕ)
      → ((distribute p c (next_send_seq c) valid_slot aad (r, draw)).0 ≡ c)
        ⊎ ((distribute p c (next_send_seq c) valid_slot aad (r, draw)).0 ≡ advance p c)
  unfolding distribute advance
  distribute-state valid_slot aad (ok e) draw = inr refl
  distribute-state valid_slot aad (err e) draw = inl refl
  distribute-state valid_slot aad panic draw = inl refl

  -- `send` leaves the state alone or advances it by one step.
  pub send-state :
      (payload message_id : Bytes) (draw : ℕ)
      → ((send p c payload message_id draw).0 ≡ c)
        ⊎ ((send p c payload message_id draw).0 ≡ advance p c)
  unfolding send
  send-state payload message_id draw =
      let chosen =
        map_err ChannelError.decoy_failure
          (select_slot p c.current_key.bytes message_id c.n_paths) in
      elim (Bool-cases (ltb max_message_id_len (length message_id))) [
        | inl long ↦ rw long (inl refl)
        | inr short ↦ rw short (elim (Result-cases chosen) [
          | inl (slot, e) ↦
              rw e (distribute-state slot (construct_aad (next_send_seq c) message_id) _ _)
          | inr (inl (x, e)) ↦ rw e (inl refl)
          | inr (inr e) ↦ rw e (inl refl)
        ])
      ]

  pub advance-IsValid : IsValid c → IsValid (advance p c)
  unfolding advance next_seq
  advance-IsValid v = record {
    ordered = v.ordered;
    bounded = v.bounded;
    below = v.below;
    store = v.store;
    seen = v.seen;
  }

  advance-Consumed : (s : ℕ) → Consumed c s → Consumed (advance p c) s
  unfolding advance next_seq
  advance-Consumed s h = h

  -- `send` keeps the invariant, and what is consumed stays so.
  pub send-IsValid :
      (payload message_id : Bytes) (draw : ℕ)
      → IsValid c
      → IsValid (send p c payload message_id draw).0
  send-IsValid payload message_id draw v = elim (send-state payload message_id draw) [
    | inl e ↦ rw e v
    | inr e ↦ rw e (advance-IsValid v)
  ]

  pub send-Consumed :
      (payload message_id : Bytes) (draw s : ℕ)
      → Consumed c s
      → Consumed (send p c payload message_id draw).0 s
  send-Consumed payload message_id draw s h = elim (send-state payload message_id draw) [
    | inl e ↦ rw e h
    | inr e ↦ rw e (advance-Consumed s h)
  ]
