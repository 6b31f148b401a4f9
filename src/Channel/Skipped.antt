-- ===== src/Channel/Skipped.antt =====
-- The table of skipped keys of src/channel.rs: the keys that a forward step sets aside, their
-- insertion, and the eviction of the oldest.
pub mod Kept
pub mod Numbers
pub mod Loop
use mathlib.Core.Option.{or_else}
use null_path.Base.{
  ℕ, zero, suc, ◌+◌, ◌-◌, ◌≤◌, ◌<◌, ◌≡◌, refl, ap, ◌∙◌, ◌&&◌, none, some, List, [], ◌∷◌, arith,
  length, drop, length-drop, ltb, leb, if◌then◌else◌, Bool-cases, inl, inr, ◌⊎◌, ltb→lt, ltb→le,
}
use null_path.Channel.{max_skipped_keys, evict_oldest_skipped_keys, insert_all, run_ahead}
use null_path.Collections.BTreeMap
use null_path.Collections.BTreeMap.{Ascends}
use null_path.PathEngine.Chain.{derive_n, derive_n-derive_next}
use null_path.PathEngine.{RatchetKey, derive_next, duplicate_for_target_use}
use null_path.Primitives.{Primitives}

abbrev pub Skipped : Type 0
Skipped = List (ℕ × RatchetKey)

module _ (p : Primitives) where
  pub run_ahead-runner :
      (left s : ℕ) (runner : RatchetKey) (m : Skipped)
      → (run_ahead p left s runner m).1 ≡ derive_n p left runner
  unfolding run_ahead derive_n
  run_ahead-runner zero s runner m = refl
  run_ahead-runner (suc left) s runner m =
      run_ahead-runner left (s + 1) (derive_next p runner) _ ∙ derive_n-derive_next p left runner

  pub run_ahead-Ascends :
      (lo left s : ℕ) (runner : RatchetKey) (m : Skipped)
      → lo ≤ s
      → Ascends lo m
      → Ascends lo (run_ahead p left s runner m).0
  unfolding run_ahead duplicate_for_target_use
  run_ahead-Ascends lo zero s runner m h a = a
  run_ahead-Ascends lo (suc left) s runner m h a =
      run_ahead-Ascends lo left (s + 1) (derive_next p runner) _ (omega arith)
        (BTreeMap.insert-Ascends s runner lo m h a)

  derive_n-sub :
      (j s : ℕ) (runner : RatchetKey)
      → suc s ≤ j
      → derive_n p (j - (s + 1)) (derive_next p runner) ≡ derive_n p (j - s) runner
  derive_n-sub j s runner h =
      derive_n-derive_next p (j - (s + 1)) runner ∙ ap (λ n. derive_n p n runner) (omega arith)

  derive_n-at : (j s : ℕ) (runner : RatchetKey) → j ≡ s → derive_n p (j - s) runner ≡ runner
  unfolding derive_n
  derive_n-at j s runner h = ap (λ n. derive_n p n runner) {y = 0} (omega arith)

  -- the key set aside for `j` is the ratchet at `j`
  get-run_ahead :
      (j left s : ℕ) (runner : RatchetKey) (m : Skipped)
      → BTreeMap.get j (run_ahead p left s runner m).0 ≡ (
          if leb s j && ltb j (s + left)
          then some (derive_n p (j - s) runner)
          else BTreeMap.get j m)
  unfolding run_ahead duplicate_for_target_use
  get-run_ahead j zero s runner m = ground arith
  get-run_ahead j (suc left) s runner m =
      rw
        (
          get-run_ahead j left (s + 1) (derive_next p runner) (BTreeMap.insert s runner m),
          BTreeMap.get-insert s runner j m,
        )
        (ground (arith, derive_n-sub j s runner, derive_n-at j s runner))

-- keys that ascend are inserted beside the old ones
get-insert_all :
    (j lo : ℕ) (m skipped : Skipped)
    → Ascends lo m
    → BTreeMap.get j (insert_all m skipped) ≡ or_else (BTreeMap.get j m) (BTreeMap.get j skipped)
unfolding insert_all or_else BTreeMap.get
get-insert_all j lo [] skipped a = refl
get-insert_all j lo ((s, k) ∷ m) skipped a =
    rw
      (
        get-insert_all j (suc s) m (BTreeMap.insert s k skipped) a.1,
        BTreeMap.get-insert s k j skipped,
      )
      (ground (arith, BTreeMap.get-below j (suc s) m))

insert_all-Ascends :
    (lo : ℕ) (m skipped : Skipped)
    → Ascends lo m
    → Ascends lo skipped
    → Ascends lo (insert_all m skipped)
unfolding insert_all
insert_all-Ascends lo [] skipped b a = a
insert_all-Ascends lo ((s, k) ∷ m) skipped b a =
    insert_all-Ascends lo m (BTreeMap.insert s k skipped)
      (BTreeMap.Ascends-weaken (suc s) lo m (omega (arith, b.0)) b.1)
      (BTreeMap.insert-Ascends s k lo skipped b.0 a)

-- Eviction removes from the front, the smallest sequence numbers, what is over the limit.
pub evict-drop : (m : Skipped) → evict_oldest_skipped_keys m ≡ drop (length m - max_skipped_keys) m
unfolding evict_oldest_skipped_keys drop
evict-drop [] = refl
evict-drop (e ∷ m) = elim (Bool-cases (ltb max_skipped_keys (length (e ∷ m)))) [
  | inl over ↦
      let more = ltb→lt max_skipped_keys (length (e ∷ m)) over in
      rw over (
        evict-drop m
        ∙ ap (λ n. drop n (e ∷ m)) {x = suc (length m - max_skipped_keys)} (omega arith))
  | inr fits ↦
      let less = ltb→le max_skipped_keys (length (e ∷ m)) fits in
      rw fits (ap (λ n. drop n (e ∷ m)) {x = 0} (omega arith))
]

length-evict-le : (m : Skipped) → length (evict_oldest_skipped_keys m) ≤ max_skipped_keys
length-evict-le m = rw evict-drop (omega (arith, length-drop (length m - max_skipped_keys) m))

drop-Ascends : (n lo : ℕ) (m : Skipped) → Ascends lo m → Ascends lo (drop n m)
unfolding drop
drop-Ascends zero lo m a = a
drop-Ascends (suc n) lo [] a = tt
drop-Ascends (suc n) lo ((i, w) ∷ m) a =
    BTreeMap.Ascends-weaken (suc i) lo (drop n m) (omega (arith, a.0))
      (drop-Ascends n (suc i) m a.1)

get-drop :
    (n j lo : ℕ) (k : RatchetKey) (m : Skipped)
    → Ascends lo m
    → BTreeMap.get j (drop n m) ≡ some k
    → BTreeMap.get j m ≡ some k
unfolding drop BTreeMap.get
get-drop zero j lo k m a h = h
get-drop (suc n) j lo k [] a h = cc
get-drop (suc n) j lo k ((i, w) ∷ m) a h =
    let later = get-drop n j (suc i) k m a.1 h in
    ground (arith, later, BTreeMap.get-below j (suc i) m)

-- the table behind a forward step from `from` to `seq`
unfoldable pub forward_skipped : Primitives → RatchetKey → ℕ → ℕ → Skipped → Skipped
forward_skipped p current from seq skipped =
    evict_oldest_skipped_keys (insert_all (run_ahead p (seq - from) from current []).0 skipped)

module _ (p : Primitives) (current : RatchetKey) (from seq : ℕ) (skipped : Skipped) where
  merged : Skipped
  merged = insert_all (run_ahead p (seq - from) from current []).0 skipped

  merged-Ascends : (lo : ℕ) → lo ≤ from → Ascends lo skipped → Ascends lo merged
  unfolding merged
  merged-Ascends lo h a =
      insert_all-Ascends lo _ skipped (run_ahead-Ascends p lo (seq - from) from current [] h tt) a

  pub length-forward_skipped-le :
      length (forward_skipped p current from seq skipped) ≤ max_skipped_keys
  unfolding forward_skipped
  length-forward_skipped-le = length-evict-le _

  pub forward_skipped-Ascends :
      (lo : ℕ)
      → lo ≤ from
      → Ascends lo skipped
      → Ascends lo (forward_skipped p current from seq skipped)
  unfolding forward_skipped merged
  forward_skipped-Ascends lo h a =
      rw evict-drop
        (drop-Ascends (length merged - max_skipped_keys) lo merged (merged-Ascends lo h a))

  get-merged :
      (j : ℕ)
      → BTreeMap.get j merged
        ≡ or_else
            (if leb from j && ltb j (from + (seq - from))
              then some (derive_n p (j - from) current)
              else none)
            (BTreeMap.get j skipped)
  unfolding merged BTreeMap.get
  get-merged j =
      get-insert_all j 0 _ skipped
        (run_ahead-Ascends p 0 (seq - from) from current [] (omega arith) tt)
      ∙ ap (λ o. or_else o (BTreeMap.get j skipped))
          (get-run_ahead p j (seq - from) from current [])

  -- a key of the table is an old one, or a new one at its place in the ratchet
  pub get-forward_skipped :
      (j : ℕ) (k : RatchetKey)
      → Ascends 0 skipped
      → BTreeMap.get j (forward_skipped p current from seq skipped) ≡ some k
      → ((from ≤ j) × (j < seq) × (k ≡ derive_n p (j - from) current))
        ⊎ (BTreeMap.get j skipped ≡ some k)
  unfolding forward_skipped merged or_else
  get-forward_skipped j k a h =
      let found =
        get-drop (length merged - max_skipped_keys) j 0 k merged (merged-Ascends 0 (omega arith) a)
          (rw (evict-drop merged) at h) in
      ground (arith, found, get-merged j)
