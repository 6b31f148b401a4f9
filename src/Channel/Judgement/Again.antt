-- ===== src/Channel/Judgement/Again.antt =====
-- A message of src/channel.rs that is delivered a second time, at once.
use null_path.AntiReplay
use null_path.AntiReplay.Recorded.{contains-check_and_insert}
use null_path.Base.{ℕ, ◌≤◌, ◌≡◌, ap, inl, inr, true, List, arith, ok, err, length}
use null_path.Channel.Invariant.{IsValid, Accepts-Consumed_self, receive_lem}
use null_path.Channel.Judgement.Cases.{receive_on_record}
use null_path.Channel.Judgement.{IsCall}
use null_path.Channel.Step.{recorded, after_skipped, after_forward, Accepts, forward, behind}
use null_path.Channel.{SecureChannel, examine, receive}
use null_path.Errors.{ChannelError}
use null_path.PathEngine.{RatchetKey}
use null_path.Primitives.{Bytes, Primitives}

module _ (p : Primitives) {c : SecureChannel} (v : IsValid c) where
  pub Accepts-recorded :
      {c' : SecureChannel} {now seq : ℕ} {message_id : Bytes} {key : RatchetKey}
      → Accepts p now c c' seq message_id key
      → AntiReplay.contains c'.anti_replay seq message_id ≡ true
  unfolding recorded after_forward after_skipped
  Accepts-recorded {now = now} {seq = seq} {message_id = message_id} (forward lo hi made e) =
      rw e (contains-check_and_insert c.anti_replay now seq message_id v.store)
  Accepts-recorded {now = now} {seq = seq} {message_id = message_id} (behind lo found e) =
      rw e (contains-check_and_insert c.anti_replay now seq message_id v.store)

  pub Accepts-n_paths :
      {c' : SecureChannel} {now seq : ℕ} {message_id : Bytes} {key : RatchetKey}
      → Accepts p now c c' seq message_id key
      → c'.n_paths ≡ c.n_paths
  unfolding after_forward after_skipped
  Accepts-n_paths (forward lo hi made e) = ap (λ d. d.n_paths) e
  Accepts-n_paths (behind lo found e) = ap (λ d. d.n_paths) e

  received-short :
      {c' : SecureChannel} (now seq : ℕ) (envelopes : List Bytes) (message_id payload : Bytes)
      → receive p now c envelopes seq message_id ≡ (c', ok payload)
      → IsCall c envelopes message_id
  unfolding receive examine
  received-short now seq envelopes message_id payload h = record {
    short = ground arith;
    enough = ground arith;
  }

  -- Once `receive` on a valid channel has returned a payload, a call with the same number and message
  -- ID and at least as many envelopes as paths, made before any other, at whatever time, returns
  -- `ReplayedSequence` and changes nothing.
  pub receive-again :
      (c' : SecureChannel) (now now' seq : ℕ) (envelopes envelopes' : List Bytes)
      (message_id payload : Bytes)
      → receive p now c envelopes seq message_id ≡ (c', ok payload)
      → c.n_paths ≤ length envelopes'
      → receive p now' c' envelopes' seq message_id ≡ (c', err ChannelError.replayed_sequence)
  receive-again c' now now' seq envelopes envelopes' message_id payload run enough =
      elim (receive_lem p v now envelopes seq message_id) [
        | inl a ↦
            let step : Accepts p now c c' seq message_id a.key = rw (run) at a.step in
            receive_on_record p c' envelopes' seq message_id now'
              (record {
                short = (received-short now seq envelopes message_id payload run).short;
                enough = omega (arith, Accepts-n_paths step);
              })
              (Accepts-Consumed_self p v step).1 (Accepts-recorded step)
        | inr (_, inl (e, r)) ↦ absurd (cc)
        | inr (_, inr r) ↦ absurd (cc)
      ]
