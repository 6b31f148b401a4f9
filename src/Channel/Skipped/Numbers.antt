-- ===== src/Channel/Skipped/Numbers.antt =====
-- The numbers in the table of skipped keys of src/channel.rs.
use mathlib.Core.List.{append_assoc, append-nil, map-append}
use null_path.Base.{
  ℕ, zero, suc, ◌+◌, ◌-◌, ◌≤◌, ◌<◌, ◌≡◌, refl, sym, ap, ◌∙◌, some, none, Bool, true, false, ◌==◌,
  if◌then◌else◌, List, [], ◌∷◌, ◌++◌, map, arith, length, drop,
}
use null_path.Channel.Skipped.Kept.{Below}
use null_path.Channel.Skipped.{Skipped, evict-drop, forward_skipped, run_ahead-Ascends}
use null_path.Channel.{max_skipped_keys, insert_all, run_ahead}
use null_path.Collections.BTreeMap
use null_path.Collections.BTreeMap.{Ascends}
use null_path.PathEngine.{RatchetKey, derive_next, duplicate_for_target_use}
use null_path.Primitives.{Primitives}

abbrev pub numbers : Skipped → List ℕ
numbers = map (λ (e : ℕ × RatchetKey). e.0)

-- `left` numbers from `s` on
abbrev pub numbers_from : ℕ → ℕ → List ℕ
numbers_from s zero = []
numbers_from s (suc left) = s ∷ numbers_from (s + 1) left

-- the last `max_skipped_keys` of a list
abbrev pub newest : List ℕ → List ℕ
newest xs = drop (length xs - max_skipped_keys) xs

abbrev pub AllBelow : ℕ → Skipped → Type 0
AllBelow hi [] = Unit
AllBelow hi ((s, k) ∷ m) = (s < hi) × AllBelow hi m

pub Below-AllBelow : (lo hi : ℕ) (m : Skipped) → Ascends lo m → Below hi m → AllBelow hi m
unfolding BTreeMap.get
Below-AllBelow lo hi [] a below = tt
Below-AllBelow lo hi ((i, w) ∷ m) a below = (
  below i w (ground arith),
  Below-AllBelow (suc i) hi m a.1
      (λ s k found. below s k (ground (arith, found, BTreeMap.get-below s (suc i) m))),
)

AllBelow-snoc :
    (hi hi' s : ℕ) (k : RatchetKey) (m : Skipped)
    → AllBelow hi m
    → hi ≤ s
    → s < hi'
    → AllBelow hi' (m ++ (s, k) ∷ [])
AllBelow-snoc hi hi' s k [] b h h' = (h', tt)
AllBelow-snoc hi hi' s k ((i, w) ∷ m) b h h' =
    (omega (arith, b.0), AllBelow-snoc hi hi' s k m b.1 h h')

insert_last :
    (hi s : ℕ) (k : RatchetKey) (m : Skipped)
    → AllBelow hi m
    → hi ≤ s
    → BTreeMap.insert s k m ≡ m ++ (s, k) ∷ []
unfolding BTreeMap.insert
insert_last hi s k [] b h = refl
insert_last hi s k ((i, w) ∷ m) b h = ground (arith, insert_last hi s k m)

numbers-run_ahead :
    (p : Primitives) (left s : ℕ) (runner : RatchetKey) (m : Skipped)
    → AllBelow s m
    → numbers (run_ahead p left s runner m).0 ≡ numbers m ++ numbers_from s left
unfolding run_ahead duplicate_for_target_use
numbers-run_ahead p zero s runner m b = sym (append-nil (numbers m))
numbers-run_ahead p (suc left) s runner m b =
    let m' = m ++ (s, runner) ∷ [] in
    ap (λ (t : Skipped). numbers (run_ahead p left (s + 1) (derive_next p runner) t).0)
      (insert_last s s runner m b (omega arith))
    ∙ numbers-run_ahead p left (s + 1) (derive_next p runner) m'
        (AllBelow-snoc s (s + 1) s runner m b (omega arith) (omega arith))
    ∙ ap (λ xs. xs ++ numbers_from (s + 1) left)
        (map-append (λ (e : ℕ × RatchetKey). e.0) m ((s, runner) ∷ []))
    ∙ append_assoc (numbers m) (s ∷ []) (numbers_from (s + 1) left)

insert_all-append :
    (lo : ℕ) (m skipped : Skipped)
    → Ascends lo m
    → AllBelow lo skipped
    → insert_all m skipped ≡ skipped ++ m
unfolding insert_all
insert_all-append lo [] skipped a b = sym (append-nil skipped)
insert_all-append lo ((s, k) ∷ m) skipped a b = rw (insert_last lo s k skipped b a.0) (
    insert_all-append (suc s) m (skipped ++ (s, k) ∷ []) a.1
      (AllBelow-snoc lo (suc s) s k skipped b a.0 (omega arith))
    ∙ append_assoc skipped ((s, k) ∷ []) m)

numbers-drop : (n : ℕ) (m : Skipped) → numbers (drop n m) ≡ drop n (numbers m)
unfolding drop
numbers-drop zero m = refl
numbers-drop (suc n) [] = refl
numbers-drop (suc n) (e ∷ m) = numbers-drop n m

length-numbers : (m : Skipped) → length (numbers m) ≡ length m
length-numbers [] = refl
length-numbers (e ∷ m) = ap suc (length-numbers m)

-- A forward step adds the numbers that it passes over behind the old ones, and keeps the newest.
pub numbers-forward_skipped :
    (p : Primitives) (current : RatchetKey) (from seq : ℕ) (skipped : Skipped)
    → AllBelow from skipped
    → numbers (forward_skipped p current from seq skipped)
      ≡ newest (numbers skipped ++ numbers_from from (seq - from))
unfolding forward_skipped
numbers-forward_skipped p current from seq skipped b =
    let ran = (run_ahead p (seq - from) from current []).0 in
    let ascends = run_ahead-Ascends p from (seq - from) from current [] (omega arith) tt in
    let all = numbers skipped ++ numbers_from from (seq - from) in
    let appended : numbers (insert_all ran skipped) ≡ all =
      ap numbers (insert_all-append from ran skipped ascends b)
      ∙ map-append (λ (e : ℕ × RatchetKey). e.0) skipped ran
      ∙ ap (λ xs. numbers skipped ++ xs) (numbers-run_ahead p (seq - from) from current [] tt) in
    ap numbers (evict-drop (insert_all ran skipped))
    ∙ numbers-drop _ (insert_all ran skipped)
    ∙ ap (λ n. drop (n - max_skipped_keys) (numbers (insert_all ran skipped)))
        (sym (length-numbers (insert_all ran skipped)))
    ∙ ap newest appended

abbrev pub without : ℕ → List ℕ → List ℕ
without s [] = []
without s (i ∷ xs) = if i == s then xs else i ∷ without s xs

pub numbers-remove : (s : ℕ) (m : Skipped) → numbers (BTreeMap.remove s m) ≡ without s (numbers m)
unfolding BTreeMap.remove
numbers-remove s [] = refl
numbers-remove s ((i, w) ∷ m) = ground (arith, numbers-remove s m)

abbrev pub holds : ℕ → List ℕ → Bool
holds s [] = false
holds s (i ∷ xs) = if i == s then true else holds s xs

-- a number is in the table exactly if it has a key there
pub holds-some :
    (s : ℕ) (k : RatchetKey) (m : Skipped) → BTreeMap.get s m ≡ some k → holds s (numbers m) ≡ true
unfolding BTreeMap.get
holds-some s k [] h = cc
holds-some s k ((i, w) ∷ m) h = ground (arith, holds-some s k m)

pub holds-none : (s : ℕ) (m : Skipped) → BTreeMap.get s m ≡ none → holds s (numbers m) ≡ false
unfolding BTreeMap.get
holds-none s [] h = refl
holds-none s ((i, w) ∷ m) h = ground (arith, holds-none s m)
