-- ===== src/AntiReplay.antt =====
-- src/anti_replay.rs: the sliding window of processed messages. An `Instant` is a count of
-- nanoseconds; `duration_since` gives zero for a later instant, as the subtraction of ℕ does.
-- `Instant::now()` is the argument `now`.
pub mod Entries
pub mod Invariant
pub mod Live
pub mod Window
pub mod Recorded
pub mod Loops
use null_path.Base.{
  ℕ, ◌-◌, ◌*◌, Bool, true, false, some, none, List, [], ◌∷◌, ◌++◌, length, ltb, leb, if◌then◌else◌,
  ℕ_discrete,
}
use null_path.Collections.HashMap

abbrev pub anti_replay_capacity : ℕ
anti_replay_capacity = 10_000

abbrev from_secs : ℕ → ℕ
from_secs secs = secs * 1_000_000_000

abbrev pub anti_replay_time_window : ℕ
anti_replay_time_window = from_secs 300

-- a sequence number and a message ID
abbrev pub Key : Type 0
Key = ℕ × List ℕ

unfoldable pub Key-discrete : Discrete Key
unfolding ℕ_discrete
Key-discrete = hlevel ℕ_discrete

pub record AntiReplayStore : Type 0 where
  pub entries : List (Key × ℕ)
  pub queue : List (Key × ℕ)
  pub capacity : ℕ
  pub time_window : ℕ

unfoldable pub new : AntiReplayStore
new = record {
  entries = [];
  queue = [];
  capacity = anti_replay_capacity;
  time_window = anti_replay_time_window;
}

unfoldable pub with_capacity_and_window : ℕ → ℕ → AntiReplayStore
with_capacity_and_window capacity window_secs = record {
  entries = [];
  queue = [];
  capacity = capacity;
  time_window = from_secs window_secs;
}

unfoldable pub contains : AntiReplayStore → ℕ → List ℕ → Bool
contains s seq message_id = HashMap.contains_key Key-discrete (seq, message_id) s.entries

unfoldable pub default : AntiReplayStore
unfolding new
default = new

-- the loop of `prune`, over the map and the queue
pub prune_loop : ℕ → ℕ → List (Key × ℕ) → List (Key × ℕ) → List (Key × ℕ) × List (Key × ℕ)
prune_loop now window entries [] = (entries, [])
prune_loop now window entries ((old_key, timestamp) ∷ queue) =
    if ltb window (now - timestamp)
    then prune_loop now window (HashMap.remove Key-discrete old_key entries).1 queue
    else (entries, (old_key, timestamp) ∷ queue)

unfoldable pub prune : AntiReplayStore → ℕ → AntiReplayStore
unfolding prune_loop
prune s now =
    let (entries, queue) = prune_loop now s.time_window s.entries s.queue in
    record s { entries = entries; queue = queue }

-- the loop of `evict_oldest`: it ends at the first key that the map held
pub evict_loop : List (Key × ℕ) → List (Key × ℕ) → List (Key × ℕ) × List (Key × ℕ)
evict_loop entries [] = (entries, [])
evict_loop entries ((oldest_key, _) ∷ queue) =
    let (removed, rest) = HashMap.remove Key-discrete oldest_key entries in
    elim removed [ some _ ↦ (rest, queue) | none ↦ evict_loop rest queue ]

unfoldable pub evict_oldest : AntiReplayStore → AntiReplayStore
unfolding evict_loop
evict_oldest s =
    let (entries, queue) = evict_loop s.entries s.queue in
    record s { entries = entries; queue = queue }

-- the test of the capacity
unfoldable pub make_room : AntiReplayStore → AntiReplayStore
make_room s = if leb s.capacity (length s.entries) then evict_oldest s else s

-- the insertion into the map and the queue
unfoldable pub push : AntiReplayStore → Key → ℕ → AntiReplayStore
push s key now = record s {
  entries = HashMap.insert Key-discrete key now s.entries;
  queue = s.queue ++ (key, now) ∷ [];
}

unfoldable pub check_and_insert : AntiReplayStore → ℕ → ℕ → List ℕ → AntiReplayStore × Bool
check_and_insert s now seq message_id =
    let pruned = prune s now in
    if contains pruned seq message_id
    then (pruned, false)
    else (push (make_room pruned) (seq, message_id) now, true)

unfoldable pub len : AntiReplayStore → ℕ
len s = length s.entries

unfoldable pub is_empty : AntiReplayStore → Bool
is_empty s = elim s.entries [ [] ↦ true | e ∷ es ↦ false ]
