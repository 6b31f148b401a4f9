-- ===== src/Channel/Receiver.antt =====
-- What the receiving half of src/channel.rs promises, with no key in its state: a receiver knows the
-- root key, the number that comes next and the numbers that it still waits for, and derives the key
-- of every message anew.
pub mod Refines
use null_path.AntiReplay
use null_path.AntiReplay.{AntiReplayStore}
use null_path.Base.{
  ℕ, suc, ◌+◌, ◌-◌, Bool, List, ◌++◌, Result, ok, err, panic, length, ltb, leb, ◌==◌, if◌then◌else◌,
}
use null_path.Channel.Skipped.Numbers.{numbers, numbers_from, newest, without, holds}
use null_path.Channel.Step.{next_seq}
use null_path.Channel.{SecureChannel, max_message_id_len, max_skip_window, authenticate}
use null_path.Errors.{ChannelError}
use null_path.PathEngine.Chain.{derive_n}
use null_path.PathEngine.{RatchetKey}
use null_path.Primitives.{Bytes, Primitives}

pub record Receiver : Type 0 where
  pub next : ℕ
  pub waiting : List ℕ
  pub store : AntiReplayStore
  pub n_paths : ℕ

-- the receiver that a channel is
abbrev pub receiver_of : SecureChannel → Receiver
receiver_of c = record {
  next = next_seq c;
  waiting = numbers c.skipped_keys;
  store = c.anti_replay;
  n_paths = c.n_paths;
}

-- the greatest number that is accepted: 1000 at first, and then 1000 beyond the greatest so far
abbrev pub limit : ℕ → ℕ
limit next = if next == 0 then max_skip_window else (next - 1) + max_skip_window

-- the verdict on a number, before any envelope is read
unfoldable pub admit : Receiver → ℕ → Bytes → Result ChannelError (Unit {0})
admit r seq message_id =
    if leb r.next seq
    then (if ltb (limit r.next) seq then err ChannelError.invalid_sequence else ok tt)
    else if holds seq r.waiting
    then ok tt
    else if AntiReplay.contains r.store seq message_id
    then err ChannelError.replayed_sequence
    else err ChannelError.skipped_key_expired

-- a message is taken in: those that it overtakes are waited for, the newest 1000 of all
unfoldable pub accept : ℕ → Receiver → ℕ → Bytes → Receiver
accept now r seq message_id =
    let (store, _) = AntiReplay.check_and_insert r.store now seq message_id in
    if leb r.next seq
    then record r {
      next = suc seq;
      waiting = newest (r.waiting ++ numbers_from r.next (seq - r.next));
      store = store;
    }
    else record r { waiting = without seq r.waiting; store = store }

-- the receiver behind a call, by what the envelopes held
abbrev pub conclude :
    ℕ → Receiver → ℕ → Bytes → Result ChannelError Bytes → Receiver × Result ChannelError Bytes
conclude now r seq message_id (ok payload) = (accept now r seq message_id, ok payload)
conclude now r seq message_id (err e) = (r, err e)
conclude now r seq message_id panic = (r, panic)

module _ (p : Primitives) (root : RatchetKey) where
  unfoldable pub receive_spec :
      ℕ → Receiver → List Bytes → ℕ → Bytes → Receiver × Result ChannelError Bytes
  receive_spec now r envelopes seq message_id =
      if ltb max_message_id_len (length message_id)
      then (r, err ChannelError.invalid_message_id)
      else if ltb (length envelopes) r.n_paths
      then (r, err ChannelError.decoy_failure)
      else elim (admit r seq message_id) [
        | ok _ ↦
            conclude now r seq message_id
              (authenticate p (derive_n p seq root) envelopes r.n_paths seq message_id)
        | err e ↦ (r, err e)
        | panic ↦ (r, panic)
      ]
