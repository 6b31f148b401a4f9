-- ===== src/Channel/Replay.antt =====
-- src/channel.rs along any sequence of calls.
use null_path.Base.{ℕ, ◌≡◌, ◌≢◌, inl, inr, List, ok}
use null_path.Channel.Invariant.{
  IsValid, Consumed, Accepts-Consumed, Accepts-Consumed_self, receive_lem, receive-IsValid,
}
use null_path.Channel.Sending.{send-IsValid, send-Consumed}
use null_path.Channel.{SecureChannel, receive, send}
use null_path.Primitives.{Bytes, Primitives}

module _ (p : Primitives) where
  -- a call on the channel, with whatever arguments, time and random bytes
  pub data Step (c c' : SecureChannel) : Type 0 where
    received :
        (now : ℕ) (envelopes : List Bytes) (seq : ℕ) (message_id : Bytes)
        → c' ≡ (receive p now c envelopes seq message_id).0
        → Step c c'
    sent :
        (payload message_id : Bytes) (draw : ℕ)
        → c' ≡ (send p c payload message_id draw).0
        → Step c c'

  -- any number of calls
  pub data Reach (c : SecureChannel) : SecureChannel → Type 0 where
    here : Reach c c
    next : {d e : SecureChannel} → Reach c d → Step d e → Reach c e

  pub Step-IsValid : {c c' : SecureChannel} → Step c c' → IsValid c → IsValid c'
  Step-IsValid (received now envelopes seq message_id e) v =
      rw e (receive-IsValid p v now envelopes seq message_id)
  Step-IsValid {c} (sent payload message_id draw e) v =
      rw e (send-IsValid p c payload message_id draw v)

  pub Step-Consumed :
      {c c' : SecureChannel} (s : ℕ) → Step c c' → IsValid c → Consumed c s → Consumed c' s
  Step-Consumed s (received now envelopes seq message_id e) v h =
      rw e (elim (receive_lem p v now envelopes seq message_id) [
        | inl a ↦ Accepts-Consumed p v s a.step h
        | inr r ↦ rw (r.0) h
      ])
  Step-Consumed {c} s (sent payload message_id draw e) v h =
      rw e (send-Consumed p c payload message_id draw s h)

  -- Every state that calls lead to from a valid one is valid.
  pub Reach-IsValid : {c c' : SecureChannel} → Reach c c' → IsValid c → IsValid c'
  Reach-IsValid here v = v
  Reach-IsValid (next r st) v = Step-IsValid st (Reach-IsValid r v)

  Reach-Consumed :
      {c c' : SecureChannel} (s : ℕ) → Reach c c' → IsValid c → Consumed c s → Consumed c' s
  Reach-Consumed s here v h = h
  Reach-Consumed s (next r st) v h = Step-Consumed s st (Reach-IsValid r v) (Reach-Consumed s r v h)

  -- a payload was returned, so the number is consumed, and was not before
  pub receive-Consumed :
      {c : SecureChannel} (now : ℕ) (envelopes : List Bytes) (seq : ℕ) (message_id payload : Bytes)
      → IsValid c
      → (receive p now c envelopes seq message_id).1 ≡ ok payload
      → (¬ Consumed c seq) × Consumed (receive p now c envelopes seq message_id).0 seq
  receive-Consumed now envelopes seq message_id payload v h =
      elim (receive_lem p v now envelopes seq message_id) [
        | inl a ↦ Accepts-Consumed_self p v a.step
        | inr (_, inl (e, r)) ↦ absurd (cc)
        | inr (_, inr r) ↦ absurd (cc)
      ]

  -- Once `receive` has returned a payload for a sequence number, no later call of `receive` with that
  -- number returns one: not under another message ID, not after any further calls, and not when the
  -- anti-replay store has forgotten the message.
  pub receive_once :
      {c d : SecureChannel} (now now' : ℕ) (envelopes envelopes' : List Bytes) (seq : ℕ)
      (message_id message_id' payload payload' : Bytes)
      → IsValid c
      → (receive p now c envelopes seq message_id).1 ≡ ok payload
      → Reach (receive p now c envelopes seq message_id).0 d
      → (receive p now' d envelopes' seq message_id').1 ≢ ok payload'
  receive_once now now' envelopes envelopes' seq message_id message_id' payload payload' v h r h' =
      let v' = receive-IsValid p v now envelopes seq message_id in
      let consumed = (receive-Consumed now envelopes seq message_id payload v h).1 in
      (receive-Consumed now' envelopes' seq message_id' payload' (Reach-IsValid r v') h').0
        (Reach-Consumed seq r v' consumed)
