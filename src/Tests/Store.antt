-- ===== src/Tests/Store.antt =====
-- The anti-replay store at a capacity of two and a window of ten seconds, as
-- tests/test_anti_replay.rs has it.
use null_path.AntiReplay.Invariant.{drop_old, tail, IsValid, new-IsValid, check_and_insert-IsValid}
use null_path.AntiReplay.Window.{Tracks, is_fresh, note, new-Tracks, check_and_insert-Tracks}
use null_path.AntiReplay.{
  AntiReplayStore, Key-discrete, new, with_capacity_and_window, check_and_insert, prune, make_room,
  evict_oldest, push, contains, anti_replay_capacity, anti_replay_time_window,
}
use null_path.AntiReplay.Loops.{prune_turn, evict_turn, loops_end}
use null_path.Base.Loop.{while_loop}
use null_path.Base.{ℕ, ◌*◌, ◌<◌, length, some, ◌≡◌, refl, true, false, List, [], ◌∷◌, arith}
use null_path.Collections.HashMap

program : Unit {0}
unfolding HashMap.contains_key HashMap.insert HashMap.remove Key-discrete new
    with_capacity_and_window check_and_insert prune make_room evict_oldest push contains
program = tt

abbrev id : List ℕ
id = 7 ∷ []

abbrev small : AntiReplayStore
small = with_capacity_and_window 2 10

-- one second
abbrev second : ℕ
second = 1_000_000_000

abbrev one : AntiReplayStore
one = (check_and_insert small 0 1 id).0

abbrev two : AntiReplayStore
two = (check_and_insert one second 2 id).0

abbrev three : AntiReplayStore
three = (check_and_insert two (2 * second) 3 id).0

-- a duplicate is refused, the third entry pushes the first out, and the window passes the second
duplicate : (check_and_insert two (2 * second) 2 id).1 ≡ false
unfolding program
duplicate = refl

pushed_out : (check_and_insert three (3 * second) 1 id).1 ≡ true
unfolding program
pushed_out = refl

expired : (check_and_insert three (12 * second) 2 id).1 ≡ true
unfolding program
expired = refl

still_there : (check_and_insert three (11 * second) 2 id).1 ≡ false
unfolding program
still_there = refl

check_and_insert-IsValid_example : IsValid (check_and_insert new 5 1 id).0
check_and_insert-IsValid_example = check_and_insert-IsValid new 5 1 id new-IsValid

check_and_insert-Tracks_example :
    ((check_and_insert new 5 1 id).1
      ≡ is_fresh anti_replay_capacity anti_replay_time_window 5 (1, id) [])
    × Tracks anti_replay_capacity anti_replay_time_window 5
        (note anti_replay_capacity anti_replay_time_window 5 (1, id) [])
        (check_and_insert new 5 1 id).0
check_and_insert-Tracks_example =
    check_and_insert-Tracks anti_replay_capacity anti_replay_time_window 0 5 1 id [] new
      (new-Tracks 0) (omega arith)

small-IsValid : IsValid small
unfolding program
small-IsValid = record {
  synced = refl;
  distinct = tt;
  bounded = omega arith;
  positive = omega arith;
}

three-IsValid : IsValid three
three-IsValid =
    check_and_insert-IsValid two (2 * second) 3 id (
      check_and_insert-IsValid one second 2 id
        (check_and_insert-IsValid small 0 1 id small-IsValid))

-- the queue of `three` has two entries
three-short : length three.queue < 3
unfolding program
three-short = omega arith

loops_end_example :
    (while_loop 3 (prune_turn (12 * second) three.time_window) (three.entries, three.queue)
      ≡ some (
        drop_old (12 * second) three.time_window three.queue,
        drop_old (12 * second) three.time_window three.queue,
      ))
    × (while_loop 3 evict_turn (three.entries, three.queue)
        ≡ some (tail three.queue, tail three.queue))
    × ((prune three (12 * second)).entries ≡ drop_old (12 * second) three.time_window three.queue)
    × ((prune three (12 * second)).queue ≡ drop_old (12 * second) three.time_window three.queue)
    × ((evict_oldest three).entries ≡ tail three.queue)
    × ((evict_oldest three).queue ≡ tail three.queue)
loops_end_example = loops_end three (12 * second) 3 three-IsValid three-short
