-- ===== src/Channel/Receive.antt =====
-- The ways in which a call of `receive` of src/channel.rs can end.
use null_path.AntiReplay
use null_path.AntiReplay.{AntiReplayStore}
use null_path.Base.{
  ℕ, ◌-◌, ◌≡◌, refl, sym, ap, ◌∙◌, ◌⊎◌, inl, inr, Bool, true, false, some, List, [], Result, ok,
  err, panic, Bool-cases, Result-cases,
}
use null_path.Channel.Skipped.{forward_skipped, run_ahead-runner}
use null_path.Channel.Step.{
  next_seq, recorded, after_skipped, after_forward, Accepts, forward, behind, Finds, ahead, back,
  skipped_key_target, find_target_ok, examine_ok,
}
use null_path.Channel.{
  SecureChannel, Target, forward_target, authenticate, examine, commit, insert_and_commit, receive,
}
use null_path.Errors.{ChannelError}
use null_path.PathEngine.Chain.{derive_n}
use null_path.PathEngine.{RatchetKey, derive_next, duplicate_for_target_use}
use null_path.Primitives.{Bytes, Primitives}

module _ (p : Primitives) where
  commit_ahead :
      (now : ℕ) (c : SecureChannel) (seq : ℕ) (message_id payload : Bytes)
      → commit
          (record c { anti_replay = recorded now c seq message_id })
          (forward_target p c.current_key (next_seq c) seq)
          seq
          payload
        ≡ (after_forward p now c seq message_id, ok payload)
  unfolding commit forward_target after_forward forward_skipped duplicate_for_target_use derive_n
  commit_ahead now c seq message_id payload =
      ap
        (λ key. (
          record c {
            anti_replay = recorded now c seq message_id;
            skipped_keys = forward_skipped p c.current_key (next_seq c) seq c.skipped_keys;
            last_seq = some seq;
            current_key = derive_next p key;
          },
          ok payload,
        ))
        (run_ahead-runner p (seq - next_seq c) (next_seq c) c.current_key [])

  commit_back :
      (now : ℕ) (c : SecureChannel) (seq : ℕ) (message_id payload : Bytes) (key : RatchetKey)
      → commit
          (record c { anti_replay = recorded now c seq message_id })
          (skipped_key_target p key)
          seq
          payload
        ≡ (after_skipped now c seq message_id, ok payload)
  unfolding commit skipped_key_target after_skipped
  commit_back now c seq message_id payload key = refl

  -- Step 4 put the message on record
  abbrev IsInserted : ℕ → SecureChannel → ℕ → Bytes → Bool → Type 0
  IsInserted now c seq message_id b =
      (AntiReplay.check_and_insert c.anti_replay now seq message_id).1 ≡ b

  insert_and_commit-inserted :
      (now : ℕ) (c : SecureChannel) (t : Target) (seq : ℕ) (message_id payload : Bytes)
      → IsInserted now c seq message_id true
      → insert_and_commit now c t seq message_id payload
        ≡ commit (record c { anti_replay = recorded now c seq message_id }) t seq payload
  unfolding insert_and_commit recorded
  insert_and_commit-inserted now c t seq message_id payload h = rw h

  insert_and_commit-refused :
      (now : ℕ) (c : SecureChannel) (t : Target) (seq : ℕ) (message_id payload : Bytes)
      → IsInserted now c seq message_id false
      → insert_and_commit now c t seq message_id payload ≡ (
        record c { anti_replay = recorded now c seq message_id },
        err ChannelError.replayed_sequence,
      )
  unfolding insert_and_commit recorded
  insert_and_commit-refused now c t seq message_id payload h = rw h

  pub Finds-forward_key :
      (current : RatchetKey) (from seq : ℕ)
      → (forward_target p current from seq).target_key ≡ derive_n p (seq - from) current
  unfolding forward_target duplicate_for_target_use
  Finds-forward_key current from seq = run_ahead-runner p (seq - from) from current []

  -- a message that the state can take in, and that is put on record, is accepted
  pub insert_and_commit-Accepts :
      (now : ℕ) (c : SecureChannel) (t : Target) (seq : ℕ) (message_id payload : Bytes)
      → Finds p c seq t
      → IsInserted now c seq message_id true
      → (c' : SecureChannel) × (insert_and_commit now c t seq message_id payload ≡ (c', ok payload))
        × Accepts p now c c' seq message_id t.target_key
  unfolding skipped_key_target
  insert_and_commit-Accepts now c t seq message_id payload (ahead lo hi made) h = (
    after_forward p now c seq message_id,
    insert_and_commit-inserted now c t seq message_id payload h
        ∙ ap (λ u. commit (record c { anti_replay = recorded now c seq message_id }) u seq payload)
            made
        ∙ commit_ahead now c seq message_id payload,
    forward lo hi (ap (λ u. u.target_key) made ∙ Finds-forward_key c.current_key (next_seq c) seq)
        refl,
  )
  insert_and_commit-Accepts now c t seq message_id payload (back key lo found made) h = (
    after_skipped now c seq message_id,
    insert_and_commit-inserted now c t seq message_id payload h
        ∙ ap (λ u. commit (record c { anti_replay = recorded now c seq message_id }) u seq payload)
            made
        ∙ commit_back now c seq message_id payload key,
    behind lo (found ∙ ap (λ u. some u.target_key) (sym made)) refl,
  )

  -- nothing was returned, and nothing changed
  abbrev pub Refused : SecureChannel → SecureChannel → Result ChannelError Bytes → Type 0
  Refused c c' r = (c' ≡ c) × (((e : ChannelError) × (r ≡ err e)) ⊎ (r ≡ panic))

  -- a payload was returned: it authenticated under the key that the state had for the message
  pub record Accepted (now : ℕ) (c c' : SecureChannel) (envelopes : List Bytes) (seq : ℕ)
      (message_id : Bytes) (r : Result ChannelError Bytes) : Type 0 where
    pub key : RatchetKey
    pub payload : Bytes
    pub returns : r ≡ ok payload
    pub authentic : authenticate p key envelopes c.n_paths seq message_id ≡ ok payload
    pub step : Accepts p now c c' seq message_id key

  -- Step 4 refused a message that the state could take in
  pub record Late (now : ℕ) (c : SecureChannel) (seq : ℕ) (message_id : Bytes) : Type 0 where
    pub target : Target
    pub finds : Finds p c seq target
    pub refused : IsInserted now c seq message_id false

  pub receive-cases :
      (now : ℕ) (c : SecureChannel) (envelopes : List Bytes) (seq : ℕ) (message_id : Bytes)
      → Accepted now c
          (receive p now c envelopes seq message_id).0
          envelopes
          seq
          message_id
          (receive p now c envelopes seq message_id).1
        ⊎ Refused c
            (receive p now c envelopes seq message_id).0
            (receive p now c envelopes seq message_id).1
        ⊎ Late now c seq message_id
  unfolding receive
  receive-cases now c envelopes seq message_id =
      elim (Result-cases (examine p c envelopes seq message_id)) [
        | inl ((t, payload), e) ↦
            let (found, authentic) = examine_ok p c envelopes seq message_id t payload e in
            let finds = find_target_ok p c seq message_id t found in
            elim (Bool-cases (AntiReplay.check_and_insert c.anti_replay now seq message_id).1) [
              | inl new ↦
                  let (c', run, step) =
                    insert_and_commit-Accepts now c t seq message_id payload finds new in
                  inl (
                    rw (e, receive, run)
                      (record {
                        key = t.target_key;
                        payload = payload;
                        returns = refl;
                        authentic = authentic;
                        step = step;
                      }))
              | inr old ↦ inr (inr (record { target = t; finds = finds; refused = old }))
            ]
        | inr (inl (e, h)) ↦ inr (inl (rw (h, receive) (refl, inl (e, refl))))
        | inr (inr h) ↦ inr (inl (rw (h, receive) (refl, inr refl)))
      ]
