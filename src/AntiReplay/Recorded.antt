-- ===== src/AntiReplay/Recorded.antt =====
-- What is on record after `check_and_insert` of src/anti_replay.rs.
use null_path.AntiReplay.Invariant.{IsValid, drop_old, cut, next_entries, check_and_insert-view}
use null_path.AntiReplay.{AntiReplayStore, Key, Key-discrete, contains, check_and_insert}
use null_path.Base.{ℕ, ◌≡◌, ap, ◌∙◌, inl, inr, true, List, [], ◌∷◌, Bool-cases, arith}
use null_path.Collections.HashMap

contains_key-next_entries :
    (cap window now : ℕ) (k : Key) (q : List (Key × ℕ))
    → HashMap.contains_key Key-discrete k (next_entries cap window now k q) ≡ true
unfolding next_entries
contains_key-next_entries cap window now k q =
    let q' = drop_old now window q in
    elim (Bool-cases (HashMap.contains_key Key-discrete k q')) [
      | inl old ↦ ground (arith, old)
      | inr new ↦ ground (
        arith,
        new,
        HashMap.contains_key-append Key-discrete k (cut cap q') ((k, now) ∷ []),
        HashMap.contains_key_self Key-discrete k now [],
      )
    ]

-- whatever the clock says, a store that has been asked for a message contains it
pub contains-check_and_insert :
    (s : AntiReplayStore) (now seq : ℕ) (message_id : List ℕ)
    → IsValid s
    → contains (check_and_insert s now seq message_id).0 seq message_id ≡ true
unfolding contains
contains-check_and_insert s now seq message_id v =
    ap (λ r. contains r.0 seq message_id) (check_and_insert-view s now seq message_id v)
    ∙ contains_key-next_entries s.capacity s.time_window now (seq, message_id) s.queue
