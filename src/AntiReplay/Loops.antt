-- ===== src/AntiReplay/Loops.antt =====
-- The `while` loops of src/anti_replay.rs, turn by turn.
use null_path.AntiReplay.{
  AntiReplayStore, Key, Key-discrete, prune, prune_loop, evict_oldest, evict_loop,
}
use null_path.AntiReplay.Invariant.{IsValid, drop_old, tail, prune_loop-synced, evict_loop-synced}
use null_path.Base.Loop.{Pass, again, done, while_loop, while_loop-again, while_loop-done}
use null_path.Base.{
  ℕ, zero, suc, ◌-◌, ◌<◌, ◌≡◌, refl, ap, ◌∙◌, some, none, inl, inr, List, [], ◌∷◌, arith, length,
  ltb, if◌then◌else◌, Bool-cases, Option-cases,
}
use null_path.Collections.HashMap

-- the map and the queue
abbrev pub Tables : Type 0
Tables = List (Key × ℕ) × List (Key × ℕ)

-- one turn of the loop of `prune`
unfoldable pub prune_turn : ℕ → ℕ → Tables → Pass Tables
prune_turn now window (entries, []) = done (entries, [])
prune_turn now window (entries, (old_key, timestamp) ∷ queue) =
    if ltb window (now - timestamp)
    then again ((HashMap.remove Key-discrete old_key entries).1, queue)
    else done (entries, (old_key, timestamp) ∷ queue)

-- one turn of the loop of `evict_oldest`
unfoldable pub evict_turn : Tables → Pass Tables
evict_turn (entries, []) = done (entries, [])
evict_turn (entries, (oldest_key, _) ∷ queue) =
    let (removed, rest) = HashMap.remove Key-discrete oldest_key entries in
    elim removed [ some _ ↦ done (rest, queue) | none ↦ again (rest, queue) ]

prune_loop-ends :
    (now window n : ℕ) (entries queue : List (Key × ℕ))
    → length queue < n
    → while_loop n (prune_turn now window) (entries, queue)
      ≡ some (prune_loop now window entries queue)
unfolding while_loop prune_turn prune_loop
prune_loop-ends now window zero entries queue h = elim h [ ]
prune_loop-ends now window (suc n) entries [] h = refl
prune_loop-ends now window (suc n) entries ((old_key, timestamp) ∷ queue) h =
    elim (Bool-cases (ltb window (now - timestamp))) [
      | inr kept ↦
          let state : Tables = (entries, (old_key, timestamp) ∷ queue) in
          while_loop-done n (prune_turn now window) state state (rw kept refl)
          ∙ rw (kept, prune_loop) refl
      | inl old ↦
          let rest = (HashMap.remove Key-discrete old_key entries).1 in
          while_loop-again n (prune_turn now window) (entries, (old_key, timestamp) ∷ queue)
            (rest, queue) (rw old refl)
          ∙ prune_loop-ends now window n rest queue (omega arith)
          ∙ rw (old, prune_loop) refl
    ]

evict_loop-ends :
    (n : ℕ) (entries queue : List (Key × ℕ))
    → length queue < n
    → while_loop n evict_turn (entries, queue) ≡ some (evict_loop entries queue)
unfolding while_loop evict_turn evict_loop
evict_loop-ends zero entries queue h = elim h [ ]
evict_loop-ends (suc n) entries [] h = refl
evict_loop-ends (suc n) entries ((oldest_key, timestamp) ∷ queue) h =
    let rest = (HashMap.remove Key-discrete oldest_key entries).1 in
    elim (Option-cases (HashMap.remove Key-discrete oldest_key entries).0) [
      | inr (time, held) ↦
          while_loop-done n evict_turn (entries, (oldest_key, timestamp) ∷ queue) (rest, queue)
            (rw (held, evict_turn) refl)
          ∙ rw (held, evict_loop) refl
      | inl missing ↦
          while_loop-again n evict_turn (entries, (oldest_key, timestamp) ∷ queue) (rest, queue)
            (rw (missing, evict_turn) refl)
          ∙ evict_loop-ends n rest queue (omega arith)
          ∙ rw (missing, evict_loop) refl
    ]

-- On a valid store both loops end, after at most one turn more than the queue is long, and leave the
-- map equal to the queue: that of `prune` takes from the head exactly the run of entries whose age is
-- over the window, and that of `evict_oldest` exactly the first entry. These are what `prune` and
-- `evict_oldest` leave.
pub loops_end :
    (s : AntiReplayStore) (now n : ℕ)
    → IsValid s
    → length s.queue < n
    → (while_loop n (prune_turn now s.time_window) (s.entries, s.queue)
        ≡ some (drop_old now s.time_window s.queue, drop_old now s.time_window s.queue))
      × (while_loop n evict_turn (s.entries, s.queue) ≡ some (tail s.queue, tail s.queue))
      × ((prune s now).entries ≡ drop_old now s.time_window s.queue)
      × ((prune s now).queue ≡ drop_old now s.time_window s.queue)
      × ((evict_oldest s).entries ≡ tail s.queue)
      × ((evict_oldest s).queue ≡ tail s.queue)
unfolding prune evict_oldest
loops_end s now n v h =
    let pruned =
      ap (λ entries. prune_loop now s.time_window entries s.queue) v.synced
      ∙ prune_loop-synced now s.time_window s.queue in
    let evicted = ap (λ entries. evict_loop entries s.queue) v.synced ∙ evict_loop-synced s.queue in
    (
      prune_loop-ends now s.time_window n s.entries s.queue h ∙ ap some pruned,
      evict_loop-ends n s.entries s.queue h ∙ ap some evicted,
      ap (λ t. t.0) pruned,
      ap (λ t. t.1) pruned,
      ap (λ t. t.0) evicted,
      ap (λ t. t.1) evicted,
    )
