-- ===== src/Base/BigEndian.antt =====
-- `to_be_bytes` and `from_be_bytes` of an unsigned integer of `n` bytes.
use Prim.Native.Nat.{ℕ, zero, suc, ◌+◌, ◌*◌, ◌/◌, ◌%◌, ◌^◌, ◌<◌}
use mathlib.Core.Path.{◌≡◌, refl, ap, ◌∙◌}
use mathlib.Core.List.{List, [], ◌∷◌, ◌++◌}
use native.Mathlib.Omega.{arith}
use native.Mathlib.Nat.{pow-suc}
use null_path.Base.Seq.{length, length-append}

-- the last byte is the lowest
unfoldable pub to_be_bytes : ℕ → ℕ → List ℕ
to_be_bytes zero x = []
to_be_bytes (suc n) x = to_be_bytes n (x / 256) ++ (x % 256) ∷ []

from_be_from : ℕ → List ℕ → ℕ
from_be_from acc [] = acc
from_be_from acc (b ∷ bs) = from_be_from (acc * 256 + b) bs

unfoldable pub from_be_bytes : List ℕ → ℕ
unfolding from_be_from
from_be_bytes bs = from_be_from 0 bs

from_be_from-append :
    (acc : ℕ) (xs ys : List ℕ) → from_be_from acc (xs ++ ys) ≡ from_be_from (from_be_from acc xs) ys
unfolding from_be_from
from_be_from-append acc [] ys = refl
from_be_from-append acc (x ∷ xs) ys = from_be_from-append (acc * 256 + x) xs ys

pub length-to_be_bytes : (n x : ℕ) → length (to_be_bytes n x) ≡ n
unfolding to_be_bytes
length-to_be_bytes zero x = refl
length-to_be_bytes (suc n) x =
    length-append (to_be_bytes n (x / 256)) ((x % 256) ∷ [])
    ∙ omega (arith, length-to_be_bytes n (x / 256))

-- the integer comes back, if it fits
pub from_be_bytes-to_be_bytes : (n x : ℕ) → x < 256 ^ n → from_be_bytes (to_be_bytes n x) ≡ x
unfolding from_be_bytes to_be_bytes
from_be_bytes-to_be_bytes zero x h = omega arith
from_be_bytes-to_be_bytes (suc n) x h =
    from_be_from-append 0 (to_be_bytes n (x / 256)) ((x % 256) ∷ [])
    ∙ ap (λ (y : ℕ). y * 256 + x % 256)
        (from_be_bytes-to_be_bytes n (x / 256) (omega (arith, pow-suc 256 n)))
    ∙ omega arith
