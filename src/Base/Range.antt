-- ===== src/Base/Range.antt =====
-- `a[i..j]` of a byte array, which panics out of range.
use Prim.Native.Nat.{ℕ, ◌≤◌}
use mathlib.Core.Bool.{◌&&◌}
use mathlib.Core.Path.{◌≡◌, refl}
use mathlib.Core.List.{List}
use null_path.Base.Outcome.{Result, ok, panic}
use null_path.Base.Seq.{length}
use null_path.Base.Slice.{slice}
use null_path.Base.Test.{leb, le→leb, if◌then◌else◌}

module _ {ℓ κ} {E : Type κ} {A : Type ℓ} where
  unfoldable pub get_range : ℕ → ℕ → List A → Result E (List A)
  get_range i j xs = if leb i j && leb j (length xs) then ok (slice i j xs) else panic

  pub get_range-slice :
      (i j : ℕ) (xs : List A) → i ≤ j → j ≤ length xs → get_range i j xs ≡ ok (slice i j xs)
  unfolding get_range
  get_range-slice i j xs h k = rw (le→leb i j h, le→leb j (length xs) k) refl
