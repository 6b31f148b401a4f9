-- ===== src/Collections/BTreeMap.antt =====
-- `std::collections::BTreeMap<u64, V>`: the entries in ascending order of their keys.
use null_path.Base.{
  ℕ, suc, ◌≤◌, ◌<◌, ◌≡◌, refl, Option, none, some, List, [], ◌∷◌, arith, length, ltb, ◌==◌,
  if◌then◌else◌,
}

module _ {ℓ} {V : Type ℓ} where
  unfoldable pub get : ℕ → List (ℕ × V) → Option V
  get k [] = none
  get k ((j, v) ∷ m) = if j == k then some v else get k m

  unfoldable pub insert : ℕ → V → List (ℕ × V) → List (ℕ × V)
  insert k v [] = (k, v) ∷ []
  insert k v ((j, w) ∷ m) =
      if ltb k j then (k, v) ∷ (j, w) ∷ m else if j == k then (k, v) ∷ m else (j, w) ∷ insert k v m

  unfoldable pub remove : ℕ → List (ℕ × V) → List (ℕ × V)
  remove k [] = []
  remove k ((j, v) ∷ m) = if j == k then m else (j, v) ∷ remove k m

  -- the keys ascend strictly, from `lo` on
  abbrev pub Ascends : ℕ → List (ℕ × V) → Type 0
  Ascends lo [] = Unit
  Ascends lo ((k, v) ∷ m) = (lo ≤ k) × Ascends (suc k) m

  pub Ascends-weaken : (lo lo' : ℕ) (m : List (ℕ × V)) → lo' ≤ lo → Ascends lo m → Ascends lo' m
  Ascends-weaken lo lo' [] h a = tt
  Ascends-weaken lo lo' ((k, v) ∷ m) h a = (omega arith, a.1)

  pub get-below : (k lo : ℕ) (m : List (ℕ × V)) → Ascends lo m → k < lo → get k m ≡ none
  unfolding get
  get-below k lo [] a h = refl
  get-below k lo ((j, v) ∷ m) a h = ground (arith, get-below k (suc j) m)

  pub get-insert :
      (k : ℕ) (v : V) (j : ℕ) (m : List (ℕ × V))
      → get j (insert k v m) ≡ (if k == j then some v else get j m)
  unfolding get insert
  get-insert k v j [] = refl
  get-insert k v j ((i, w) ∷ m) = ground (arith, get-insert k v j m)

  pub insert-Ascends :
      (k : ℕ) (v : V) (lo : ℕ) (m : List (ℕ × V))
      → lo ≤ k
      → Ascends lo m
      → Ascends lo (insert k v m)
  unfolding insert
  insert-Ascends k v lo [] h a = (h, tt)
  insert-Ascends k v lo ((j, w) ∷ m) h a = ground (arith, insert-Ascends k v (suc j) m)

  pub get-remove :
      (k j lo : ℕ) (m : List (ℕ × V))
      → Ascends lo m
      → get j (remove k m) ≡ (if k == j then none else get j m)
  unfolding get remove
  get-remove k j lo [] a = ground arith
  get-remove k j lo ((i, w) ∷ m) a = ground (arith, get-remove k j (suc i) m, get-below j (suc i) m)

  pub remove-Ascends : (k lo : ℕ) (m : List (ℕ × V)) → Ascends lo m → Ascends lo (remove k m)
  unfolding remove
  remove-Ascends k lo [] a = tt
  remove-Ascends k lo ((j, v) ∷ m) a =
      ground (arith, remove-Ascends k (suc j) m, Ascends-weaken (suc j) lo m)

  pub length-remove-le : (k : ℕ) (m : List (ℕ × V)) → length (remove k m) ≤ length m
  unfolding remove
  length-remove-le k [] = omega arith
  length-remove-le k ((j, v) ∷ m) = ground (arith, length-remove-le k m)

  -- behind the first entry its key is gone, and all others read as before
  pub get-tail :
      (k j lo : ℕ) (v : V) (m : List (ℕ × V))
      → Ascends lo ((k, v) ∷ m)
      → get j m ≡ (if k == j then none else get j ((k, v) ∷ m))
  unfolding get
  get-tail k j lo v m a = ground (arith, get-below j (suc k) m)
