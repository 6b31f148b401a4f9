-- ===== src/Channel/Judgement/Cases.antt =====
-- The results of `receive` of src/channel.rs, by its guards and steps in their order.
use null_path.AntiReplay
use null_path.Base.{
  ◌<◌, true, false, arith, ℕ, ◌≡◌, refl, ◌∙◌, le→ltb, ◌>>=◌, inl, inr, List, Result, ok, err,
  length, ltb, leb, leb→le, leb→lt, ltb→le, ltb→lt, Bool-cases, Option-cases,
}
use null_path.Channel.Accept.{examine-Accepts}
use null_path.Channel.Invariant.{IsValid, Consumed}
use null_path.Channel.Receive.{Finds-forward_key}
use null_path.Channel.Step.{next_seq, max_seq, find_target_lem, skipped_key_target}
use null_path.Channel.{
  SecureChannel, Target, max_message_id_len, forward_target, skipped_target, find_target,
  authenticate, examine, receive,
}
use null_path.Collections.BTreeMap
use null_path.Envelope.Sized.{AllSized}
use null_path.Errors.{ChannelError}
use null_path.PathEngine.{duplicate_for_target_use}
use null_path.Primitives.{Bytes, Primitives, IsSound}
use null_path.Channel.Judgement.{
  IsCall, Expects, reached, kept, Judgement, long_id, too_few, too_far, on_record, not_on_record,
  no_path, forged, genuine, Tried, nowhere, closed, opened, authenticate-Tried,
}

module _ (p : Primitives) (c : SecureChannel) (envelopes : List Bytes) (seq : ℕ)
    (message_id : Bytes) where
  pub examine_tried :
      (t : Target) (r : Result ChannelError Bytes)
      → IsCall c envelopes message_id
      → find_target p c seq message_id ≡ ok t
      → authenticate p t.target_key envelopes c.n_paths seq message_id ≡ r
      → examine p c envelopes seq message_id ≡ r >>= λ payload. ok (t, payload)
  unfolding examine
  examine_tried t r call found tried =
      rw
        (
          le→ltb max_message_id_len (length message_id) call.short,
          le→ltb (length envelopes) c.n_paths call.enough,
          found,
          tried,
        )
        refl

  pub examine_unfound :
      (x : ChannelError)
      → IsCall c envelopes message_id
      → find_target p c seq message_id ≡ err x
      → examine p c envelopes seq message_id ≡ err x
  unfolding examine
  examine_unfound x call unfound =
      rw
        (
          le→ltb max_message_id_len (length message_id) call.short,
          le→ltb (length envelopes) c.n_paths call.enough,
          unfound,
        )
        refl

  pub receive-err :
      (now : ℕ) (x : ChannelError)
      → examine p c envelopes seq message_id ≡ err x
      → receive p now c envelopes seq message_id ≡ (c, err x)
  unfolding receive
  receive-err now x h = rw (h, receive) refl

  judge-Tried :
      (now : ℕ) (t : Target) (r : Result ChannelError Bytes)
      → IsValid c
      → IsCall c envelopes message_id
      → find_target p c seq message_id ≡ ok t
      → Expects p c seq t.target_key
      → authenticate p t.target_key envelopes c.n_paths seq message_id ≡ r
      → Tried p c envelopes seq message_id t.target_key r
      → Judgement p now c envelopes seq message_id (receive p now c envelopes seq message_id)
  judge-Tried now t r v call found expects same (nowhere zero_paths h) =
      no_path t.target_key call expects zero_paths (
        receive-err now ChannelError.decoy_failure
          (examine_tried t (err ChannelError.decoy_failure) call found (same ∙ h)))
  judge-Tried now t r v call found expects same (closed envelope chooses shut h) =
      forged t.target_key envelope call expects chooses shut (
        receive-err now ChannelError.authentication_failed
          (examine_tried t (err ChannelError.authentication_failed) call found (same ∙ h)))
  judge-Tried now t r v call found expects same (opened envelope payload chooses unsealed h) =
      let (c', run, step) =
        examine-Accepts p v now seq message_id envelopes t payload
          (examine_tried t (ok payload) call found (same ∙ h)) in
      genuine t.target_key envelope payload c' call expects chooses unsealed step run

  judge_found :
      (sound : IsSound p) (now : ℕ) (t : Target)
      → IsValid c
      → AllSized envelopes
      → IsCall c envelopes message_id
      → find_target p c seq message_id ≡ ok t
      → Expects p c seq t.target_key
      → Judgement p now c envelopes seq message_id (receive p now c envelopes seq message_id)
  judge_found sound now t v sized call found expects =
      judge-Tried now t _ v call found expects refl
        (authenticate-Tried p sound c envelopes seq message_id t.target_key call.enough sized)

  find_target_back :
      seq < next_seq c → find_target p c seq message_id ≡ skipped_target p c seq message_id
  find_target_back h = find_target_lem p c seq message_id ∙ ground arith

  -- The channel has gone past the number and has no key for it, and the message is on record.
  pub receive_on_record :
      (now : ℕ)
      → IsCall c envelopes message_id
      → Consumed c seq
      → AntiReplay.contains c.anti_replay seq message_id ≡ true
      → receive p now c envelopes seq message_id ≡ (c, err ChannelError.replayed_sequence)
  unfolding skipped_target
  receive_on_record now call (earlier, no_key) known =
      receive-err now ChannelError.replayed_sequence (
        examine_unfound ChannelError.replayed_sequence call
          (find_target_back earlier ∙ rw (no_key, skipped_target, known) refl))

  -- The same, and the message is not on record.
  receive_not_on_record :
      (now : ℕ)
      → IsCall c envelopes message_id
      → Consumed c seq
      → AntiReplay.contains c.anti_replay seq message_id ≡ false
      → receive p now c envelopes seq message_id ≡ (c, err ChannelError.skipped_key_expired)
  unfolding skipped_target
  receive_not_on_record now call (earlier, no_key) unknown =
      receive-err now ChannelError.skipped_key_expired (
        examine_unfound ChannelError.skipped_key_expired call
          (find_target_back earlier ∙ rw (no_key, skipped_target, unknown) refl))

  judge-Consumed :
      (now : ℕ)
      → IsCall c envelopes message_id
      → Consumed c seq
      → Judgement p now c envelopes seq message_id (receive p now c envelopes seq message_id)
  judge-Consumed now call h = elim (Bool-cases (AntiReplay.contains c.anti_replay seq message_id)) [
    | inl known ↦ on_record call h known (receive_on_record now call h known)
    | inr unknown ↦ not_on_record call h unknown (receive_not_on_record now call h unknown)
  ]

  judge_call :
      (sound : IsSound p) (now : ℕ)
      → IsValid c
      → AllSized envelopes
      → IsCall c envelopes message_id
      → Judgement p now c envelopes seq message_id (receive p now c envelopes seq message_id)
  unfolding skipped_target duplicate_for_target_use skipped_key_target
  judge_call sound now v sized call =
      let cases = find_target_lem p c seq message_id in
      elim (Bool-cases (leb (next_seq c) seq)) [
        | inl onward ↦ elim (Bool-cases (ltb (max_seq c) seq)) [
          | inl far ↦ too_far call (ltb→lt (max_seq c) seq far) (
              receive-err now ChannelError.invalid_sequence (
                examine_unfound ChannelError.invalid_sequence call (cases ∙ rw (onward, far) refl)))
          | inr near ↦
              let t = forward_target p c.current_key (next_seq c) seq in
              judge_found sound now t v sized call (cases ∙ rw (onward, near) refl) (
                reached (leb→le (next_seq c) seq onward) (ltb→le (max_seq c) seq near)
                  (Finds-forward_key p c.current_key (next_seq c) seq))
        ]
        | inr back ↦
            let earlier = leb→lt (next_seq c) seq back in
            let found : find_target p c seq message_id ≡ skipped_target p c seq message_id =
              cases ∙ rw back refl in
            elim (Option-cases (BTreeMap.get seq c.skipped_keys)) [
              | inl missing ↦ judge-Consumed now call (earlier, missing)
              | inr (key, held) ↦
                  let t = skipped_key_target p key in
                  judge_found sound now t v sized call (found ∙ rw (held, skipped_target) refl)
                    (kept earlier held)
            ]
      ]

  -- A call of `receive` on a valid channel, with envelopes of full length, has one of these results,
  -- each for its reason. `InvalidMessageId`: the message ID is longer than 256 bytes.
  -- `DecoyFailure`: there are fewer envelopes than paths, or no path. `InvalidSequence`: the number
  -- is beyond the window. `ReplayedSequence` or `SkippedKeyExpired`: the number has been passed and
  -- has no key, and the message is on record, or is not. `AuthenticationFailed`: the envelope in the
  -- slot of the number's key does not open under that key. Or the payload of that envelope, and the
  -- step for it is taken. An error leaves the channel as it was.
  pub receive-Judgement :
      (sound : IsSound p) (now : ℕ)
      → IsValid c
      → AllSized envelopes
      → Judgement p now c envelopes seq message_id (receive p now c envelopes seq message_id)
  unfolding examine
  receive-Judgement sound now v sized =
      elim (Bool-cases (ltb max_message_id_len (length message_id))) [
        | inl long ↦
            long_id (ltb→lt max_message_id_len (length message_id) long)
              (receive-err now ChannelError.invalid_message_id (rw long refl))
        | inr short ↦ elim (Bool-cases (ltb (length envelopes) c.n_paths)) [
          | inl few ↦
              too_few (ltb→le max_message_id_len (length message_id) short)
                (ltb→lt (length envelopes) c.n_paths few)
                (receive-err now ChannelError.decoy_failure (rw (short, few) refl))
          | inr enough ↦ judge_call sound now v sized (record {
            short = ltb→le max_message_id_len (length message_id) short;
            enough = ltb→le (length envelopes) c.n_paths enough;
          })
        ]
      ]
