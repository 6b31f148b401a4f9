-- ===== src/AntiReplay/Window.antt =====
-- The store of src/anti_replay.rs against an ideal one that forgets nothing.
use null_path.AntiReplay.Invariant.{
  IsValid, new-IsValid, next_entries, store_of, check_and_insert-view, check_and_insert-IsValid,
}
use null_path.AntiReplay.Live.{
  live, last_n, Rises, IsPast, live-append, Rises-snoc, IsPast-weaken, cut-last_n, drop_old-last_n,
}
use null_path.AntiReplay.{
  Key, Key-discrete, AntiReplayStore, check_and_insert, new, anti_replay_capacity,
  anti_replay_time_window,
}
use null_path.Base.{
  ℕ, ◌-◌, ◌≤◌, ◌<◌, ◌≡◌, refl, ap, sym, Bool, not, List, [], ◌∷◌, ◌++◌, arith, drop_all, Bool-cases,
  inl, inr, if◌then◌else◌,
}
use null_path.Collections.HashMap

-- what the store remembers of a history at the time `now`
unfoldable pub remembered : ℕ → ℕ → ℕ → List (Key × ℕ) → List (Key × ℕ)
remembered cap window now history = last_n cap (live now window history)

-- the history holds every entry ever accepted, oldest first
pub record Tracks (cap window now : ℕ) (history : List (Key × ℕ)) (s : AntiReplayStore)
    : Type 0 where
  pub valid : IsValid s
  pub capacity_is : s.capacity ≡ cap
  pub window_is : s.time_window ≡ window
  pub rises : Rises 0 history
  pub past : IsPast now history
  pub holds : s.queue ≡ remembered cap window now history

-- one call on the history: is the key fresh, and what is the history then
unfoldable pub is_fresh : ℕ → ℕ → ℕ → Key → List (Key × ℕ) → Bool
is_fresh cap window now k history =
    not (HashMap.contains_key Key-discrete k (remembered cap window now history))

unfoldable pub note : ℕ → ℕ → ℕ → Key → List (Key × ℕ) → List (Key × ℕ)
note cap window now k history =
    if is_fresh cap window now k history then history ++ (k, now) ∷ [] else history

live_now : (now window : ℕ) (k : Key) → live now window ((k, now) ∷ []) ≡ (k, now) ∷ []
unfolding live
live_now now window k = ground arith

next_entries-note :
    (cap window now now' : ℕ) (k : Key) (history : List (Key × ℕ))
    → 0 < cap
    → now ≤ now'
    → Rises 0 history
    → next_entries cap window now' k (remembered cap window now history)
      ≡ remembered cap window now' (note cap window now' k history)
unfolding next_entries note is_fresh remembered
next_entries-note cap window now now' k history pos later r =
    let kept = last_n cap (live now' window history) in
    rw (drop_old-last_n cap window now now' history later r)
      (elim (Bool-cases (HashMap.contains_key Key-discrete k kept)) [
        | inl old ↦ rw old
        | inr new ↦
            rw (new, live-append, live_now)
              (cut-last_n cap (live now' window history) (k, now') pos)
      ])

note-Rises :
    (cap window now now' : ℕ) (k : Key) (history : List (Key × ℕ))
    → now ≤ now'
    → Rises 0 history
    → IsPast now history
    → Rises 0 (note cap window now' k history) × IsPast now' (note cap window now' k history)
unfolding note
note-Rises cap window now now' k history later r p =
    let past = IsPast-weaken now now' history later p in
    elim (Bool-cases (is_fresh cap window now' k history)) [
      | inl fresh ↦ rw fresh (Rises-snoc now' 0 k history (omega arith) past r)
      | inr old ↦ rw old (r, past)
    ]

-- A new store tracks the empty history, with a capacity of 10,000 and a window of 300 seconds.
pub new-Tracks : (now : ℕ) → Tracks anti_replay_capacity anti_replay_time_window now [] new
unfolding new remembered live last_n
new-Tracks now = record {
  valid = new-IsValid;
  capacity_is = refl;
  window_is = refl;
  rises = tt;
  past = tt;
  holds = sym (drop_all (0 - anti_replay_capacity) [] (omega arith));
}

check_and_insert-note :
    (cap window now now' seq : ℕ) (message_id : List ℕ) (history : List (Key × ℕ))
    (s : AntiReplayStore)
    → Tracks cap window now history s
    → now ≤ now'
    → check_and_insert s now' seq message_id ≡ (
      store_of cap window
          (remembered cap window now' (note cap window now' (seq, message_id) history)),
      is_fresh cap window now' (seq, message_id) history,
    )
unfolding is_fresh remembered
check_and_insert-note cap window now now' seq message_id history s t later =
    let pos : 0 < cap = omega (arith, t.valid.positive, t.capacity_is) in
    rw (
      check_and_insert-view s now' seq message_id t.valid,
      t.capacity_is,
      t.window_is,
      t.holds,
      drop_old-last_n cap window now now' history later t.rises,
      next_entries-note cap window now now' (seq, message_id) history pos later t.rises,
    )

-- At a time that is not earlier, `check_and_insert` answers `true` exactly if the key is not among
-- the last `capacity` accepted entries younger than the window, and the store goes on tracking the
-- history with the key added if it was.
pub check_and_insert-Tracks :
    (cap window now now' seq : ℕ) (message_id : List ℕ) (history : List (Key × ℕ))
    (s : AntiReplayStore)
    → Tracks cap window now history s
    → now ≤ now'
    → ((check_and_insert s now' seq message_id).1
        ≡ is_fresh cap window now' (seq, message_id) history)
      × Tracks cap window now'
          (note cap window now' (seq, message_id) history)
          (check_and_insert s now' seq message_id).0
check_and_insert-Tracks cap window now now' seq message_id history s t later =
    let e = check_and_insert-note cap window now now' seq message_id history s t later in
    let (rises, past) =
      note-Rises cap window now now' (seq, message_id) history later t.rises t.past in
    (
      ap (λ r. r.1) e,
      record {
        valid = check_and_insert-IsValid s now' seq message_id t.valid;
        capacity_is = ap (λ r. r.0.capacity) e;
        window_is = ap (λ r. r.0.time_window) e;
        rises = rises;
        past = past;
        holds = ap (λ r. r.0.queue) e;
      },
    )
