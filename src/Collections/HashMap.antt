-- ===== src/Collections/HashMap.antt =====
-- `std::collections::HashMap<K, V>`. The order in which the map keeps its entries is unspecified;
-- this one is the order of insertion.
use null_path.Base.{
  ◌≡◌, refl, Bool, true, false, ◌||◌, Option, none, some, List, [], ◌∷◌, ◌++◌, arith, ite, if_pos,
}

module _ {ℓ κ} {K : Type ℓ} {V : Type κ} (dec : Discrete K) where
  unfoldable pub contains_key : K → List (K × V) → Bool
  contains_key k [] = false
  contains_key k ((j, v) ∷ m) = ite (dec j k) true (contains_key k m)

  unfoldable pub insert : K → V → List (K × V) → List (K × V)
  insert k v [] = (k, v) ∷ []
  insert k v ((j, w) ∷ m) = ite (dec j k) ((j, v) ∷ m) ((j, w) ∷ insert k v m)

  -- the value removed, if there was one, and the map without it
  unfoldable pub remove : K → List (K × V) → Option V × List (K × V)
  remove k [] = (none, [])
  remove k ((j, v) ∷ m) =
      let (old, rest) = remove k m in ite (dec j k) (some v, m) (old, (j, v) ∷ rest)

  -- no key occurs twice
  abbrev pub IsDistinct : List (K × V) → Type 0
  IsDistinct [] = Unit
  IsDistinct ((k, v) ∷ m) = (contains_key k m ≡ false) × IsDistinct m

  pub contains_key-append :
      (k : K) (m n : List (K × V))
      → contains_key k (m ++ n) ≡ (contains_key k m || contains_key k n)
  unfolding contains_key
  contains_key-append k [] n = refl
  contains_key-append k ((j, v) ∷ m) n = ground (arith, contains_key-append k m n)

  pub contains_key_self : (k : K) (v : V) (m : List (K × V)) → contains_key k ((k, v) ∷ m) ≡ true
  unfolding contains_key
  contains_key_self k v m = if_pos (dec k k) refl true (contains_key k m)

  -- a fresh key goes behind all others
  pub insert_fresh :
      (k : K) (v : V) (m : List (K × V))
      → contains_key k m ≡ false
      → insert k v m ≡ m ++ (k, v) ∷ []
  unfolding insert contains_key
  insert_fresh k v [] h = refl
  insert_fresh k v ((j, w) ∷ m) h = ground (arith, insert_fresh k v m)

  pub IsDistinct-snoc :
      (k : K) (v : V) (m : List (K × V))
      → IsDistinct m
      → contains_key k m ≡ false
      → IsDistinct (m ++ (k, v) ∷ [])
  unfolding contains_key
  IsDistinct-snoc k v [] d h = (refl, tt)
  IsDistinct-snoc k v ((j, w) ∷ m) d h =
      ground (arith, IsDistinct-snoc k v m, contains_key-append j m ((k, v) ∷ []))

  pub remove_first : (k : K) (v : V) (m : List (K × V)) → remove k ((k, v) ∷ m) ≡ (some v, m)
  unfolding remove
  remove_first k v m = if_pos (dec k k) refl (some v, m) ((remove k m).0, (k, v) ∷ (remove k m).1)
