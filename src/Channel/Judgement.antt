-- ===== src/Channel/Judgement.antt =====
-- Which result `receive` of src/channel.rs gives, and why.
pub mod Cases
pub mod Again
use null_path.AntiReplay
use null_path.Base.{
  ℕ, ◌-◌, ◌≤◌, ◌<◌, ◌≡◌, ◌≢◌, refl, ap, ◌∙◌, ==_iff, ◌==◌, le→ltb, ◌>>=◌, inl, inr, true, false,
  Option, some, none, List, arith, Result, ok, err, panic, length, get_elem?, ltb, leb, leb→le,
  leb→lt, ltb→le, ltb→lt, get_elem?_is_some, Bool-cases, Option-cases, Result-cases,
}
use null_path.Channel.Accept.{examine-Accepts}
use null_path.Channel.Invariant.{IsValid, Consumed}
use null_path.Channel.Receive.{Finds-forward_key}
use null_path.Channel.Step.{next_seq, max_seq, Accepts, find_target_lem, skipped_key_target}
use null_path.Channel.{
  SecureChannel, Target, construct_aad, max_message_id_len, forward_target, skipped_target,
  find_target, index, authenticate, examine, receive,
}
use null_path.Collections.BTreeMap
use null_path.Envelope.Sized.{AllSized, AllSized-get_elem?, open_envelope-returns}
use null_path.Envelope.{open_envelope}
use null_path.Errors.{ChannelError}
use null_path.PathEngine.Chain.{derive_n}
use null_path.PathEngine.Slot.{select_slot-zero, select_slot_total}
use null_path.PathEngine.{RatchetKey, duplicate_for_target_use, select_slot}
use null_path.Primitives.{Bytes, Primitives, IsSound}

-- the arguments pass the guards
pub record IsCall (c : SecureChannel) (envelopes : List Bytes) (message_id : Bytes) : Type 0 where
  pub short : length message_id ≤ max_message_id_len
  pub enough : c.n_paths ≤ length envelopes

module _ (p : Primitives) where
  -- the key that the channel has, or can reach, for the number
  pub data Expects (c : SecureChannel) (seq : ℕ) (key : RatchetKey) : Type 0 where
    reached :
        next_seq c ≤ seq
        → seq ≤ max_seq c
        → key ≡ derive_n p (seq - next_seq c) c.current_key
        → Expects c seq key
    kept : seq < next_seq c → BTreeMap.get seq c.skipped_keys ≡ some key → Expects c seq key

  -- the envelope that stands at the slot of the key
  pub record Chooses (key : RatchetKey) (n_paths : ℕ) (message_id : Bytes) (envelopes : List Bytes)
      (envelope : Bytes) : Type 0 where
    pub slot : ℕ
    pub chosen : select_slot p key.bytes message_id n_paths ≡ ok slot
    pub stands : get_elem? envelopes slot ≡ some envelope

  -- what a call leaves and returns, and the reason
  pub data Judgement (now : ℕ) (c : SecureChannel) (envelopes : List Bytes) (seq : ℕ)
      (message_id : Bytes) (result : SecureChannel × Result ChannelError Bytes) : Type 0 where
    long_id :
        max_message_id_len < length message_id
        → result ≡ (c, err ChannelError.invalid_message_id)
        → Judgement now c envelopes seq message_id result
    too_few :
        length message_id ≤ max_message_id_len
        → length envelopes < c.n_paths
        → result ≡ (c, err ChannelError.decoy_failure)
        → Judgement now c envelopes seq message_id result
    too_far :
        IsCall c envelopes message_id
        → max_seq c < seq
        → result ≡ (c, err ChannelError.invalid_sequence)
        → Judgement now c envelopes seq message_id result
    on_record :
        IsCall c envelopes message_id
        → Consumed c seq
        → AntiReplay.contains c.anti_replay seq message_id ≡ true
        → result ≡ (c, err ChannelError.replayed_sequence)
        → Judgement now c envelopes seq message_id result
    not_on_record :
        IsCall c envelopes message_id
        → Consumed c seq
        → AntiReplay.contains c.anti_replay seq message_id ≡ false
        → result ≡ (c, err ChannelError.skipped_key_expired)
        → Judgement now c envelopes seq message_id result
    no_path :
        (key : RatchetKey)
        → IsCall c envelopes message_id
        → Expects c seq key
        → c.n_paths ≡ 0
        → result ≡ (c, err ChannelError.decoy_failure)
        → Judgement now c envelopes seq message_id result
    forged :
        (key : RatchetKey) (envelope : Bytes)
        → IsCall c envelopes message_id
        → Expects c seq key
        → Chooses key c.n_paths message_id envelopes envelope
        → ((payload : Bytes)
            → open_envelope p key.bytes envelope (construct_aad seq message_id) ≢ ok payload)
        → result ≡ (c, err ChannelError.authentication_failed)
        → Judgement now c envelopes seq message_id result
    genuine :
        (key : RatchetKey) (envelope payload : Bytes) (c' : SecureChannel)
        → IsCall c envelopes message_id
        → Expects c seq key
        → Chooses key c.n_paths message_id envelopes envelope
        → open_envelope p key.bytes envelope (construct_aad seq message_id) ≡ ok payload
        → Accepts p now c c' seq message_id key
        → result ≡ (c', ok payload)
        → Judgement now c envelopes seq message_id result

  -- Steps 2 and 3 under a key
  pub data Tried (c : SecureChannel) (envelopes : List Bytes) (seq : ℕ) (message_id : Bytes)
      (key : RatchetKey) (r : Result ChannelError Bytes) : Type 0 where
    nowhere :
        c.n_paths ≡ 0 → r ≡ err ChannelError.decoy_failure → Tried c envelopes seq message_id key r
    closed :
        (envelope : Bytes)
        → Chooses key c.n_paths message_id envelopes envelope
        → ((payload : Bytes)
            → open_envelope p key.bytes envelope (construct_aad seq message_id) ≢ ok payload)
        → r ≡ err ChannelError.authentication_failed
        → Tried c envelopes seq message_id key r
    opened :
        (envelope payload : Bytes)
        → Chooses key c.n_paths message_id envelopes envelope
        → open_envelope p key.bytes envelope (construct_aad seq message_id) ≡ ok payload
        → r ≡ ok payload
        → Tried c envelopes seq message_id key r

  module _ (sound : IsSound p) (c : SecureChannel) (envelopes : List Bytes) (seq : ℕ)
      (message_id : Bytes) where
    pub authenticate-Tried :
        (key : RatchetKey)
        → c.n_paths ≤ length envelopes
        → AllSized envelopes
        → Tried c envelopes seq message_id key
            (authenticate p key envelopes c.n_paths seq message_id)
    unfolding authenticate index
    authenticate-Tried key enough sized = elim (Bool-cases (c.n_paths == 0)) [
      | inl none_there ↦
          let zero_paths = (==_iff c.n_paths 0).0 none_there in
          let chosen =
            ap (select_slot p key.bytes message_id) zero_paths
            ∙ select_slot-zero p key.bytes message_id in
          nowhere zero_paths (rw (chosen, authenticate) refl)
      | inr some_there ↦
          let (slot, chosen, below) =
            select_slot_total p key.bytes message_id c.n_paths sound (ground arith) in
          let within : slot < length envelopes = omega arith in
          let (envelope, stands) = get_elem?_is_some envelopes slot within in
          let chooses : Chooses key c.n_paths message_id envelopes envelope = record {
            slot = slot;
            chosen = chosen;
            stands = stands;
          } in
          let inside : leb (length envelopes) slot ≡ false = ground arith in
          let aad = construct_aad seq message_id in
          elim (Result-cases (open_envelope p key.bytes envelope aad)) [
            | inl (payload, h) ↦
                opened envelope payload chooses h
                  (rw (chosen, authenticate, inside, index, stands, h) refl)
            | inr (inl (x, h)) ↦
                closed envelope chooses (λ payload e. ground (arith, h, e))
                  (rw (chosen, authenticate, inside, index, stands, h) refl)
            | inr (inr h) ↦ absurd (
                open_envelope-returns p key.bytes envelope aad sound
                  (AllSized-get_elem? envelopes slot envelope sized stands) h)
          ]
    ]
