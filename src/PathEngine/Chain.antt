-- ===== src/PathEngine/Chain.antt =====
-- The ratchet of src/path_engine.rs, `n` steps on.
use null_path.Base.{ℕ, zero, suc, ◌+◌, ◌≡◌, refl, ap, ◌∙◌, length, arith}
use null_path.PathEngine.{RatchetKey, derive_next}
use null_path.Primitives.{Primitives, IsSound}

module _ (p : Primitives) where
  unfoldable pub derive_n : ℕ → RatchetKey → RatchetKey
  derive_n zero k = k
  derive_n (suc n) k = derive_next p (derive_n n k)

  -- to advance first, and then `n` steps
  pub derive_n-derive_next :
      (n : ℕ) (k : RatchetKey) → derive_n n (derive_next p k) ≡ derive_n (suc n) k
  unfolding derive_n
  derive_n-derive_next zero k = refl
  derive_n-derive_next (suc n) k = ap (derive_next p) (derive_n-derive_next n k)

  pub derive_n-length :
      (n : ℕ) (k : RatchetKey) → IsSound p → length k.bytes ≡ 32 → length (derive_n n k).bytes ≡ 32
  unfolding derive_n derive_next
  derive_n-length zero k sound h = h
  derive_n-length (suc n) k sound h = sound.length-sha256 _

  pub derive_n-derive_n :
      (m n : ℕ) (k : RatchetKey) → derive_n m (derive_n n k) ≡ derive_n (m + n) k
  unfolding derive_n
  derive_n-derive_n zero n k = ap (λ i. derive_n i k) {x = n} (omega arith)
  derive_n-derive_n (suc m) n k =
      ap (derive_next p) (derive_n-derive_n m n k)
      ∙ ap (λ i. derive_n i k) {x = suc (m + n)} (omega arith)
