-- ===== src/AntiReplay/Entries.antt =====
-- Predicates of every key that the store of src/anti_replay.rs has on record.
use null_path.AntiReplay.{
  Key, Key-discrete, AntiReplayStore, contains, prune_loop, prune, evict_loop, evict_oldest,
  make_room, push, check_and_insert,
}
use null_path.Base.{
  ℕ, ◌-◌, ◌≡◌, true, false, List, [], ◌∷◌, arith, length, ltb, leb, Bool-cases, inl, inr,
  Option-cases,
}
use null_path.Collections.HashMap

-- `P` holds of every key of the list
abbrev pub AllKeys : (Key → Type 0) → List (Key × ℕ) → Type 0
AllKeys P [] = Unit
AllKeys P ((k, _) ∷ es) = P k × AllKeys P es

pub AllKeys-map :
    (P Q : Key → Type 0) (es : List (Key × ℕ))
    → ((k : Key) → P k → Q k)
    → AllKeys P es
    → AllKeys Q es
AllKeys-map P Q [] f a = tt
AllKeys-map P Q ((k, t) ∷ es) f a = (f k a.0, AllKeys-map P Q es f a.1)

module _ (P : Key → Type 0) where
  contains_key-AllKeys :
      (k : Key) (es : List (Key × ℕ))
      → AllKeys P es
      → HashMap.contains_key Key-discrete k es ≡ true
      → P k
  unfolding HashMap.contains_key
  contains_key-AllKeys k [] a h = cc
  contains_key-AllKeys k ((j, t) ∷ es) a h = elim (Key-discrete j k) [
    | yes p ↦ rw (← p) a.0
    | no p ↦ contains_key-AllKeys k es a.1 (ground arith)
  ]

  remove-AllKeys :
      (k : Key) (es : List (Key × ℕ))
      → AllKeys P es
      → AllKeys P (HashMap.remove Key-discrete k es).1
  unfolding HashMap.remove
  remove-AllKeys k [] a = tt
  remove-AllKeys k ((j, t) ∷ es) a = ground (arith, remove-AllKeys k es)

  insert-AllKeys :
      (k : Key) (t : ℕ) (es : List (Key × ℕ))
      → AllKeys P es
      → P k
      → AllKeys P (HashMap.insert Key-discrete k t es)
  unfolding HashMap.insert
  insert-AllKeys k t [] a h = (h, tt)
  insert-AllKeys k t ((j, u) ∷ es) a h = ground (arith, insert-AllKeys k t es)

  prune_loop-AllKeys :
      (now window : ℕ) (es queue : List (Key × ℕ))
      → AllKeys P es
      → AllKeys P (prune_loop now window es queue).0
  unfolding prune_loop
  prune_loop-AllKeys now window es [] a = a
  prune_loop-AllKeys now window es ((k, t) ∷ queue) a = elim (Bool-cases (ltb window (now - t))) [
    | inl old ↦ rw old (
        prune_loop-AllKeys now window (HashMap.remove Key-discrete k es).1 queue
          (remove-AllKeys k es a))
    | inr young ↦ rw young a
  ]

  evict_loop-AllKeys :
      (es queue : List (Key × ℕ)) → AllKeys P es → AllKeys P (evict_loop es queue).0
  unfolding evict_loop
  evict_loop-AllKeys es [] a = a
  evict_loop-AllKeys es ((k, t) ∷ queue) a =
      elim (Option-cases (HashMap.remove Key-discrete k es).0) [
        | inl gone ↦
            rw (gone, evict_loop)
              (evict_loop-AllKeys (HashMap.remove Key-discrete k es).1 queue
                (remove-AllKeys k es a))
        | inr (v, found) ↦ rw (found, evict_loop) (remove-AllKeys k es a)
      ]

  pub prune-AllKeys :
      (s : AntiReplayStore) (now : ℕ) → AllKeys P s.entries → AllKeys P (prune s now).entries
  unfolding prune
  prune-AllKeys s now a = prune_loop-AllKeys now s.time_window s.entries s.queue a

  pub contains-AllKeys :
      (s : AntiReplayStore) (seq : ℕ) (message_id : List ℕ)
      → AllKeys P s.entries
      → contains s seq message_id ≡ true
      → P (seq, message_id)
  unfolding contains
  contains-AllKeys s seq message_id a h = contains_key-AllKeys (seq, message_id) s.entries a h

  make_room-AllKeys : (s : AntiReplayStore) → AllKeys P s.entries → AllKeys P (make_room s).entries
  unfolding make_room evict_oldest
  make_room-AllKeys s a = elim (Bool-cases (leb s.capacity (length s.entries))) [
    | inl full ↦ rw full (evict_loop-AllKeys s.entries s.queue a)
    | inr spare ↦ rw spare a
  ]

  push-AllKeys :
      (s : AntiReplayStore) (k : Key) (now : ℕ)
      → AllKeys P s.entries
      → P k
      → AllKeys P (push s k now).entries
  unfolding push
  push-AllKeys s k now a h = insert-AllKeys k now s.entries a h

  pub check_and_insert-AllKeys :
      (s : AntiReplayStore) (now seq : ℕ) (message_id : List ℕ)
      → AllKeys P s.entries
      → P (seq, message_id)
      → AllKeys P (check_and_insert s now seq message_id).0.entries
  unfolding check_and_insert
  check_and_insert-AllKeys s now seq message_id a h =
      let pruned = prune s now in
      elim (Bool-cases (contains pruned seq message_id)) [
        | inl old ↦ rw old (prune-AllKeys s now a)
        | inr new ↦ rw new (
            push-AllKeys (make_room pruned) (seq, message_id) now
              (make_room-AllKeys pruned (prune-AllKeys s now a)) h)
      ]

  -- a refusal is of a key on record
  pub check_and_insert-refused :
      (s : AntiReplayStore) (now seq : ℕ) (message_id : List ℕ)
      → AllKeys P s.entries
      → (check_and_insert s now seq message_id).1 ≡ false
      → P (seq, message_id)
  unfolding check_and_insert
  check_and_insert-refused s now seq message_id a h =
      contains-AllKeys (prune s now) seq message_id (prune-AllKeys s now a) (ground arith)
