-- ===== src/Channel/Receiver/Refines.antt =====
-- `receive` of src/channel.rs against the receiver with no keys.
use null_path.AntiReplay
use null_path.Base.{
  ℕ, suc, ◌-◌, ◌≤◌, ◌≡◌, refl, ap, ◌∙◌, inl, inr, false, List, arith, Result, ok, err, panic,
  length, ltb, leb, leb→le, le→leb, ltb→le, le→ltb, Bool-cases, Option-cases,
}
use null_path.Channel.Accept.{examine-Accepts}
use null_path.Channel.Invariant.{IsValid}
use null_path.Channel.Judgement.Cases.{examine_tried, examine_unfound, receive-err}
use null_path.Channel.Judgement.{IsCall}
use null_path.Channel.Ratchet.{Follows, ahead_key}
use null_path.Channel.Receive.{Finds-forward_key}
use null_path.Channel.Receiver.{Receiver, receiver_of, limit, admit, accept, conclude, receive_spec}
use null_path.Channel.Skipped.Numbers.{
  Below-AllBelow, numbers-forward_skipped, numbers-remove, holds-some, holds-none,
}
use null_path.Channel.Step.{
  next_seq, max_seq, recorded, after_skipped, after_forward, Accepts, forward, behind,
  find_target_lem, skipped_key_target,
}
use null_path.Channel.{
  SecureChannel, Target, max_message_id_len, forward_target, skipped_target, find_target,
  authenticate, examine, receive,
}
use null_path.Collections.BTreeMap
use null_path.Errors.{ChannelError}
use null_path.PathEngine.Chain.{derive_n}
use null_path.PathEngine.{RatchetKey, duplicate_for_target_use}
use null_path.Primitives.{Bytes, Primitives}

limit-next_seq : (c : SecureChannel) → limit (next_seq c) ≡ max_seq c
unfolding next_seq max_seq
limit-next_seq c = ground arith

-- a result with the receiver that its channel is
abbrev pub seen : SecureChannel × Result ChannelError Bytes → Receiver × Result ChannelError Bytes
seen (c, r) = (receiver_of c, r)

module _ (p : Primitives) {c : SecureChannel} (v : IsValid c) (now seq : ℕ)
    (message_id : Bytes) where
  receiver_of-after_forward :
      next_seq c ≤ seq
      → receiver_of (after_forward p now c seq message_id)
        ≡ accept now (receiver_of c) seq message_id
  unfolding after_forward accept recorded next_seq
  receiver_of-after_forward h = rw (le→leb (next_seq c) seq h) (
      ap
        (λ waiting. record {
          next = suc seq;
          waiting = waiting;
          store = recorded now c seq message_id;
          n_paths = c.n_paths;
        })
        (numbers-forward_skipped p c.current_key (next_seq c) seq c.skipped_keys
          (Below-AllBelow 0 (next_seq c) c.skipped_keys v.ordered v.below)))

  receiver_of-after_skipped :
      leb (next_seq c) seq ≡ false
      → receiver_of (after_skipped now c seq message_id) ≡ accept now (receiver_of c) seq message_id
  unfolding after_skipped accept recorded next_seq
  receiver_of-after_skipped h = rw h (
      ap
        (λ waiting. record {
          next = next_seq c;
          waiting = waiting;
          store = recorded now c seq message_id;
          n_paths = c.n_paths;
        })
        (numbers-remove seq c.skipped_keys))

  receiver_of-Accepts :
      {c' : SecureChannel} {key : RatchetKey}
      → Accepts p now c c' seq message_id key
      → receiver_of c' ≡ accept now (receiver_of c) seq message_id
  receiver_of-Accepts (forward lo hi made e) = ap receiver_of e ∙ receiver_of-after_forward lo
  receiver_of-Accepts (behind lo found e) =
      ap receiver_of e ∙ receiver_of-after_skipped (ground arith)

module _ (p : Primitives) (root : RatchetKey) {c : SecureChannel} (v : IsValid c)
    (f : Follows p root c) (now seq : ℕ) (message_id : Bytes) where
  -- Step 1 and `admit` agree
  data Agree (found : Result ChannelError Target) (admitted : Result ChannelError (Unit {0}))
      : Type 0 where
    both :
        (t : Target)
        → t.target_key ≡ derive_n p seq root
        → found ≡ ok t
        → admitted ≡ ok tt
        → Agree found admitted
    neither : (x : ChannelError) → found ≡ err x → admitted ≡ err x → Agree found admitted

  skipped_target-Agree :
      leb (next_seq c) seq ≡ false
      → Agree (skipped_target p c seq message_id) (admit (receiver_of c) seq message_id)
  unfolding skipped_target admit skipped_key_target duplicate_for_target_use
  skipped_target-Agree back = elim (Option-cases (BTreeMap.get seq c.skipped_keys)) [
    | inr (key, held) ↦
        both (skipped_key_target p key) (f.skipped seq key held) (rw (held, skipped_target) refl)
          (rw (back, holds-some seq key c.skipped_keys held) refl)
    | inl missing ↦ elim (Bool-cases (AntiReplay.contains c.anti_replay seq message_id)) [
      | inl known ↦
          neither ChannelError.replayed_sequence (rw (missing, skipped_target, known) refl)
            (rw (back, holds-none seq c.skipped_keys missing, known) refl)
      | inr unknown ↦
          neither ChannelError.skipped_key_expired (rw (missing, skipped_target, unknown) refl)
            (rw (back, holds-none seq c.skipped_keys missing, unknown) refl)
    ]
  ]

  find_target-Agree : Agree (find_target p c seq message_id) (admit (receiver_of c) seq message_id)
  unfolding admit
  find_target-Agree =
      rw (find_target_lem p c seq message_id) (elim (Bool-cases (leb (next_seq c) seq)) [
        | inr back ↦ rw back (rw back at (skipped_target-Agree back))
        | inl onward ↦
            rw (onward, limit-next_seq c)
              (elim (Bool-cases (ltb (max_seq c) seq)) [
                | inl far ↦ rw far (neither ChannelError.invalid_sequence refl refl)
                | inr near ↦ rw near (
                    both (forward_target p c.current_key (next_seq c) seq)
                      (Finds-forward_key p c.current_key (next_seq c) seq
                        ∙ ahead_key p root (seq - next_seq c) seq f
                            (let lo = leb→le (next_seq c) seq onward in omega arith))
                      refl refl)
              ])
      ])

  -- a call that passes the guards, with what its envelopes held
  receive-conclude :
      (envelopes : List Bytes) (t : Target) (r : Result ChannelError Bytes)
      → IsCall c envelopes message_id
      → find_target p c seq message_id ≡ ok t
      → authenticate p t.target_key envelopes c.n_paths seq message_id ≡ r
      → seen (receive p now c envelopes seq message_id)
        ≡ conclude now (receiver_of c) seq message_id r
  unfolding receive
  receive-conclude envelopes t (ok payload) call found tried =
      let (c', run, step) =
        examine-Accepts p v now seq message_id envelopes t payload
          (examine_tried p c envelopes seq message_id t (ok payload) call found tried) in
      ap seen run ∙ ap (λ r. (r, ok payload)) (receiver_of-Accepts p v now seq message_id step)
  receive-conclude envelopes t (err x) call found tried = ap seen (
      receive-err p c envelopes seq message_id now x
        (examine_tried p c envelopes seq message_id t (err x) call found tried))
  receive-conclude envelopes t panic call found tried =
      rw (examine_tried p c envelopes seq message_id t panic call found tried, receive) refl

  receive-Agree :
      (envelopes : List Bytes)
      → IsCall c envelopes message_id
      → Agree (find_target p c seq message_id) (admit (receiver_of c) seq message_id)
      → seen (receive p now c envelopes seq message_id)
        ≡ receive_spec p root now (receiver_of c) envelopes seq message_id
  unfolding receive_spec
  receive-Agree envelopes call (both t same found admitted) =
      rw
        (
          le→ltb max_message_id_len (length message_id) call.short,
          le→ltb (length envelopes) c.n_paths call.enough,
          admitted,
        )
        (receive-conclude envelopes t _ call found
          (ap (λ key. authenticate p key envelopes c.n_paths seq message_id) same))
  receive-Agree envelopes call (neither x found admitted) =
      rw
        (
          le→ltb max_message_id_len (length message_id) call.short,
          le→ltb (length envelopes) c.n_paths call.enough,
          admitted,
        )
        (ap seen (
          receive-err p c envelopes seq message_id now x
            (examine_unfound p c envelopes seq message_id x call found)))

  -- `receive` on a valid channel whose keys stand at their places in the ratchet from the root key (a
  -- channel that has itself sent is not like this) is the receiver that keeps no keys and takes them
  -- from the root key: for any arguments the result is the same, and so is what is left, once the keys
  -- are forgotten.
  pub receive-receive_spec :
      (envelopes : List Bytes)
      → seen (receive p now c envelopes seq message_id)
        ≡ receive_spec p root now (receiver_of c) envelopes seq message_id
  unfolding receive_spec examine
  receive-receive_spec envelopes = elim (Bool-cases (ltb max_message_id_len (length message_id))) [
    | inl long ↦
        ap seen (
          receive-err p c envelopes seq message_id now ChannelError.invalid_message_id
            (rw long refl))
        ∙ rw long refl
    | inr short ↦ elim (Bool-cases (ltb (length envelopes) c.n_paths)) [
      | inl few ↦
          ap seen (
            receive-err p c envelopes seq message_id now ChannelError.decoy_failure
              (rw (short, few) refl))
          ∙ rw (short, few) refl
      | inr enough ↦
          receive-Agree envelopes
            (record {
              short = ltb→le max_message_id_len (length message_id) short;
              enough = ltb→le (length envelopes) c.n_paths enough;
            })
            find_target-Agree
    ]
  ]
