-- ===== src/Channel/Step.antt =====
-- What `receive` of src/channel.rs did when it returned a payload: the key it used, and the state
-- that it left.
use null_path.AntiReplay
use null_path.AntiReplay.{AntiReplayStore}
use null_path.Base.{
  ℕ, suc, ◌+◌, ◌-◌, ◌≤◌, ◌<◌, ◌≡◌, sym, ◌∙◌, inl, inr, true, false, none, some, List, [], arith, ok,
  err, ltb, leb, leb→le, leb→lt, ltb→le, if◌then◌else◌, Bool-cases,
}
use null_path.Channel.Skipped.{forward_skipped}
use null_path.Channel.{
  SecureChannel, Target, run_ahead, max_skip_window, forward_target, bounded_target, skipped_target,
  find_target, authenticate, examine,
}
use null_path.Collections.BTreeMap
use null_path.Errors.{ChannelError}
use null_path.PathEngine.Chain.{derive_n}
use null_path.PathEngine.{RatchetKey, derive_next, duplicate_for_target_use}
use null_path.Primitives.{Bytes, Primitives}

-- the number of the first message that no forward step has passed
unfoldable pub next_seq : SecureChannel → ℕ
next_seq c = elim c.last_seq [ none ↦ 0 | some last ↦ suc last ]

-- the last number that the skip window admits
unfoldable pub max_seq : SecureChannel → ℕ
max_seq c = elim c.last_seq [ none ↦ max_skip_window | some last ↦ last + max_skip_window ]

-- the store after a message has been put on record
unfoldable pub recorded : ℕ → SecureChannel → ℕ → Bytes → AntiReplayStore
recorded now c seq message_id = (AntiReplay.check_and_insert c.anti_replay now seq message_id).0

unfoldable pub after_skipped : ℕ → SecureChannel → ℕ → Bytes → SecureChannel
after_skipped now c seq message_id = record c {
  anti_replay = recorded now c seq message_id;
  skipped_keys = BTreeMap.remove seq c.skipped_keys;
}

module _ (p : Primitives) where
  unfoldable pub after_forward : ℕ → SecureChannel → ℕ → Bytes → SecureChannel
  after_forward now c seq message_id = record c {
    anti_replay = recorded now c seq message_id;
    skipped_keys = forward_skipped p c.current_key (next_seq c) seq c.skipped_keys;
    last_seq = some seq;
    current_key = derive_n p (suc (seq - next_seq c)) c.current_key;
  }

  -- the message `seq` is taken in by the state `c`, with the key `key`, and leaves `c'`
  pub data Accepts (now : ℕ) (c c' : SecureChannel) (seq : ℕ) (message_id : Bytes)
      (key : RatchetKey) : Type 0 where
    forward :
        next_seq c ≤ seq
        → seq ≤ max_seq c
        → key ≡ derive_n p (seq - next_seq c) c.current_key
        → c' ≡ after_forward now c seq message_id
        → Accepts now c c' seq message_id key
    behind :
        seq < next_seq c
        → BTreeMap.get seq c.skipped_keys ≡ some key
        → c' ≡ after_skipped now c seq message_id
        → Accepts now c c' seq message_id key

  -- the first message of all is a forward step over no key
  forward_target-first :
      (current : RatchetKey) (seq : ℕ)
      → seq ≡ 0
      → forward_target p current 0 seq ≡ record {
        target_key = duplicate_for_target_use current;
        next_ratchet_key = some (derive_next p current);
        is_forward = true;
        local_skipped = [];
      }
  unfolding forward_target run_ahead duplicate_for_target_use
  forward_target-first current seq h = rw h

  -- the cases of Step 1
  pub find_target_lem :
      (c : SecureChannel) (seq : ℕ) (message_id : Bytes)
      → find_target p c seq message_id ≡ (
          if leb (next_seq c) seq
          then (if ltb (max_seq c) seq
              then err ChannelError.invalid_sequence
              else ok (forward_target p c.current_key (next_seq c) seq))
          else skipped_target p c seq message_id)
  unfolding find_target bounded_target next_seq max_seq
  find_target_lem c seq message_id = ground (arith, forward_target-first c.current_key seq)

  -- a target that is a skipped key
  unfoldable pub skipped_key_target : RatchetKey → Target
  skipped_key_target key = record {
    target_key = key;
    next_ratchet_key = none;
    is_forward = false;
    local_skipped = [];
  }

  -- what Step 1 found, in a state `c`
  pub data Finds (c : SecureChannel) (seq : ℕ) (t : Target) : Type 0 where
    ahead :
        next_seq c ≤ seq
        → seq ≤ max_seq c
        → t ≡ forward_target p c.current_key (next_seq c) seq
        → Finds c seq t
    back :
        (key : RatchetKey)
        → seq < next_seq c
        → BTreeMap.get seq c.skipped_keys ≡ some key
        → t ≡ skipped_key_target key
        → Finds c seq t

  skipped_target_ok :
      (c : SecureChannel) (seq : ℕ) (message_id : Bytes) (t : Target)
      → skipped_target p c seq message_id ≡ ok t
      → (key : RatchetKey) × (BTreeMap.get seq c.skipped_keys ≡ some key)
        × (t ≡ skipped_key_target key)
  unfolding skipped_target skipped_key_target duplicate_for_target_use
  skipped_target_ok c seq message_id t h = ground arith

  pub find_target_ok :
      (c : SecureChannel) (seq : ℕ) (message_id : Bytes) (t : Target)
      → find_target p c seq message_id ≡ ok t
      → Finds c seq t
  find_target_ok c seq message_id t h =
      let e = sym (find_target_lem c seq message_id) ∙ h in
      elim (Bool-cases (leb (next_seq c) seq)) [
        | inl onward ↦ elim (Bool-cases (ltb (max_seq c) seq)) [
          | inl far ↦ ground arith
          | inr near ↦
              ahead (leb→le (next_seq c) seq onward) (ltb→le (max_seq c) seq near) (ground arith)
        ]
        | inr earlier ↦
            let (key, found, made) = skipped_target_ok c seq message_id t (rw earlier at e) in
            back key (leb→lt (next_seq c) seq earlier) found made
      ]

  pub examine_ok :
      (c : SecureChannel) (envelopes : List Bytes) (seq : ℕ) (message_id : Bytes) (t : Target)
      (payload : Bytes)
      → examine p c envelopes seq message_id ≡ ok (t, payload)
      → (find_target p c seq message_id ≡ ok t)
        × (authenticate p t.target_key envelopes c.n_paths seq message_id ≡ ok payload)
  unfolding examine
  examine_ok c envelopes seq message_id t payload h = ground arith
