-- ===== src/AntiReplay/Invariant.antt =====
-- The invariant of the map and the queue of src/anti_replay.rs.
use mathlib.Core.Path.{subst}
use null_path.AntiReplay.{
  Key, Key-discrete, AntiReplayStore, new, contains, prune_loop, prune, evict_loop, evict_oldest,
  make_room, push, check_and_insert,
}
use null_path.Base.{
  ℕ, ◌-◌, ◌≤◌, ◌<◌, ◌≡◌, refl, ap, ◌∙◌, false, not, List, [], ◌∷◌, ◌++◌, arith, length, ltb, leb,
  Bool-cases, inl, inr, if◌then◌else◌, length-append,
}
use null_path.Collections.HashMap
use null_path.Collections.HashMap.{IsDistinct}

pub record IsValid (s : AntiReplayStore) : Type 0 where
  pub synced : s.entries ≡ s.queue
  pub distinct : IsDistinct Key-discrete s.entries
  pub bounded : length s.entries ≤ s.capacity
  pub positive : 0 < s.capacity

-- the entries without the run of expired ones at the head
unfoldable pub drop_old : ℕ → ℕ → List (Key × ℕ) → List (Key × ℕ)
drop_old now window [] = []
drop_old now window ((k, t) ∷ q) =
    if ltb window (now - t) then drop_old now window q else (k, t) ∷ q

unfoldable pub tail {ℓ} : {A : Type ℓ} → List A → List A
tail [] = []
tail (x ∷ xs) = xs

pub prune_loop-synced :
    (now window : ℕ) (q : List (Key × ℕ))
    → prune_loop now window q q ≡ (drop_old now window q, drop_old now window q)
unfolding prune_loop drop_old
prune_loop-synced now window [] = refl
prune_loop-synced now window ((k, t) ∷ q) = elim (Bool-cases (ltb window (now - t))) [
  | inl old ↦
      rw (old, HashMap.remove_first Key-discrete k t q, if◌then◌else◌)
        (prune_loop-synced now window q)
  | inr young ↦ rw young
]

pub evict_loop-synced : (q : List (Key × ℕ)) → evict_loop q q ≡ (tail q, tail q)
unfolding evict_loop tail
evict_loop-synced [] = refl
evict_loop-synced ((k, t) ∷ q) = ground (arith, HashMap.remove_first Key-discrete k t q)

drop_old-IsDistinct :
    (now window : ℕ) (q : List (Key × ℕ))
    → IsDistinct Key-discrete q
    → IsDistinct Key-discrete (drop_old now window q)
unfolding drop_old
drop_old-IsDistinct now window [] d = tt
drop_old-IsDistinct now window ((k, t) ∷ q) d = ground (arith, drop_old-IsDistinct now window q)

length-drop_old-le :
    (now window : ℕ) (q : List (Key × ℕ)) → length (drop_old now window q) ≤ length q
unfolding drop_old
length-drop_old-le now window [] = omega arith
length-drop_old-le now window ((k, t) ∷ q) = ground (arith, length-drop_old-le now window q)

-- a store both of whose containers are `q`
abbrev pub store_of : ℕ → ℕ → List (Key × ℕ) → AntiReplayStore
store_of capacity window q = record {
  entries = q;
  queue = q;
  capacity = capacity;
  time_window = window;
}

pub prune-store_of :
    (cap window now : ℕ) (q : List (Key × ℕ))
    → prune (store_of cap window q) now ≡ store_of cap window (drop_old now window q)
unfolding prune
prune-store_of cap window now q = rw (prune_loop-synced now window q)

-- the entries that stay when one more is to come
unfoldable pub cut : ℕ → List (Key × ℕ) → List (Key × ℕ)
cut cap q = if leb cap (length q) then tail q else q

pub make_room-store_of :
    (cap window : ℕ) (q : List (Key × ℕ))
    → make_room (store_of cap window q) ≡ store_of cap window (cut cap q)
unfolding make_room evict_oldest cut
make_room-store_of cap window q = elim (Bool-cases (leb cap (length q))) [
  | inl full ↦ rw (full, evict_loop-synced q)
  | inr spare ↦ rw spare
]

pub push-store_of :
    (cap window now : ℕ) (k : Key) (q : List (Key × ℕ))
    → HashMap.contains_key Key-discrete k q ≡ false
    → push (store_of cap window q) k now ≡ store_of cap window (q ++ (k, now) ∷ [])
unfolding push
push-store_of cap window now k q h = rw (HashMap.insert_fresh Key-discrete k now q h)

contains_key-cut :
    (cap : ℕ) (k : Key) (q : List (Key × ℕ))
    → HashMap.contains_key Key-discrete k q ≡ false
    → HashMap.contains_key Key-discrete k (cut cap q) ≡ false
unfolding cut tail HashMap.contains_key
contains_key-cut cap k [] h = ground arith
contains_key-cut cap k ((j, t) ∷ q) h = ground arith

cut-IsDistinct :
    (cap : ℕ) (q : List (Key × ℕ)) → IsDistinct Key-discrete q → IsDistinct Key-discrete (cut cap q)
unfolding cut tail
cut-IsDistinct cap [] d = ground arith
cut-IsDistinct cap ((j, t) ∷ q) d = ground arith

length-cut : (cap : ℕ) (q : List (Key × ℕ)) → 0 < cap → length q ≤ cap → length (cut cap q) < cap
unfolding cut tail
length-cut cap [] p h = ground arith
length-cut cap ((j, t) ∷ q) p h = ground arith

-- what `check_and_insert` leaves in both containers
unfoldable pub next_entries : ℕ → ℕ → ℕ → Key → List (Key × ℕ) → List (Key × ℕ)
next_entries cap window now k q =
    let q' = drop_old now window q in
    if HashMap.contains_key Key-discrete k q' then q' else cut cap q' ++ (k, now) ∷ []

pub check_and_insert-store_of :
    (cap window now seq : ℕ) (message_id : List ℕ) (q : List (Key × ℕ))
    → check_and_insert (store_of cap window q) now seq message_id ≡ (
      store_of cap window (next_entries cap window now (seq, message_id) q),
      not (HashMap.contains_key Key-discrete (seq, message_id) (drop_old now window q)),
    )
unfolding check_and_insert next_entries contains
check_and_insert-store_of cap window now seq message_id q =
    let k : Key = (seq, message_id) in
    let q' = drop_old now window q in
    rw (prune-store_of cap window now q, make_room-store_of cap window q')
      (elim (Bool-cases (HashMap.contains_key Key-discrete k q')) [
        | inl old ↦ rw old
        | inr new ↦
            rw (new, push-store_of cap window now k (cut cap q') (contains_key-cut cap k q' new))
      ])

IsValid-store_of : (s : AntiReplayStore) → IsValid s → s ≡ store_of s.capacity s.time_window s.queue
IsValid-store_of s v = λ i. record {
  entries = v.synced i;
  queue = s.queue;
  capacity = s.capacity;
  time_window = s.time_window;
}

pub new-IsValid : IsValid new
unfolding new
new-IsValid = record { synced = refl; distinct = tt; bounded = omega arith; positive = omega arith }

next_entries-IsValid :
    (cap window now : ℕ) (k : Key) (q : List (Key × ℕ))
    → IsValid (store_of cap window q)
    → IsValid (store_of cap window (next_entries cap window now k q))
unfolding next_entries
next_entries-IsValid cap window now k q v =
    let q' = drop_old now window q in
    let d = drop_old-IsDistinct now window q v.distinct in
    let l = length-drop_old-le now window q in
    elim (Bool-cases (HashMap.contains_key Key-discrete k q')) [
      | inl old ↦
          rw old
            (record { synced = refl; distinct = d; bounded = omega arith; positive = v.positive })
      | inr fresh ↦ rw fresh (record {
        synced = refl;
        distinct =
            HashMap.IsDistinct-snoc Key-discrete k now (cut cap q') (cut-IsDistinct cap q' d)
              (contains_key-cut cap k q' fresh);
        bounded = omega (
          arith,
          length-append (cut cap q') ((k, now) ∷ []),
          length-cut cap q' v.positive (omega arith),
        );
        positive = v.positive;
      })
    ]

-- a valid store after a call, and the answer
pub check_and_insert-view :
    (s : AntiReplayStore) (now seq : ℕ) (message_id : List ℕ)
    → IsValid s
    → check_and_insert s now seq message_id ≡ (
      store_of s.capacity s.time_window
          (next_entries s.capacity s.time_window now (seq, message_id) s.queue),
      not (
          HashMap.contains_key Key-discrete (seq, message_id) (drop_old now s.time_window s.queue)),
    )
check_and_insert-view s now seq message_id v =
    ap (λ t. check_and_insert t now seq message_id) (IsValid-store_of s v)
    ∙ check_and_insert-store_of s.capacity s.time_window now seq message_id s.queue

-- Whatever the clock says, `check_and_insert` keeps the map and the queue equal, their keys
-- distinct, and their number within the capacity.
pub check_and_insert-IsValid :
    (s : AntiReplayStore) (now seq : ℕ) (message_id : List ℕ)
    → IsValid s
    → IsValid (check_and_insert s now seq message_id).0
check_and_insert-IsValid s now seq message_id v =
    rw (check_and_insert-view s now seq message_id v) (
      next_entries-IsValid s.capacity s.time_window now (seq, message_id) s.queue
        (subst IsValid (IsValid-store_of s v) v))
