-- ===== src/Base/Loop.antt =====
-- A `while` loop as a function of one turn, on a count of turns.
use Prim.Native.Nat.{ℕ, zero, suc}
use mathlib.Core.Option.{Option, none, some}
use mathlib.Core.Path.{◌≡◌, refl}

-- after one turn: the loop goes on with a state, or ends in it
pub data Pass {ℓ} (A : Type ℓ) : Type ℓ where
  again : A → Pass A
  done : A → Pass A

-- `none` if the loop has not ended after the given number of turns
unfoldable pub while_loop {ℓ} : {A : Type ℓ} → ℕ → (A → Pass A) → A → Option A
while_loop zero turn a = none
while_loop (suc n) turn a = elim (turn a) [ again b ↦ while_loop n turn b | done b ↦ some b ]

module _ {ℓ} {A : Type ℓ} (n : ℕ) (turn : A → Pass A) where
  pub while_loop-again :
      (a b : A) → turn a ≡ again b → while_loop (suc n) turn a ≡ while_loop n turn b
  unfolding while_loop
  while_loop-again a b h = rw (while_loop, h) refl

  pub while_loop-done : (a b : A) → turn a ≡ done b → while_loop (suc n) turn a ≡ some b
  unfolding while_loop
  while_loop-done a b h = rw (while_loop, h) refl
