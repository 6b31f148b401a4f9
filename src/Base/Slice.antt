-- ===== src/Base/Slice.antt =====
-- Slices of byte arrays: `a[i..j]`, and the array after `a[i..].copy_from_slice(b)`.
use Prim.Native.Nat.{ℕ, ◌+◌, ◌-◌, ◌≤◌, min}
use mathlib.Core.Path.{◌≡◌, refl, sym, ap, ◌∙◌}
use mathlib.Core.List.{List, [], ◌++◌, append_assoc, append-nil}
use native.Mathlib.Omega.{arith}
use null_path.Base.Seq.{
  length, take, drop, take_all, length-append, length-take, length-drop, take-append, drop-append,
}

module _ {ℓ} {A : Type ℓ} where
  unfoldable pub slice : ℕ → ℕ → List A → List A
  slice i j xs = take (j - i) (drop i xs)

  unfoldable pub splice : List A → ℕ → List A → List A
  splice dst i src = take i dst ++ (src ++ drop (i + length src) dst)

  pub length-slice : (i j : ℕ) (xs : List A) → length (slice i j xs) ≡ min (j - i) (length xs - i)
  unfolding slice
  length-slice i j xs = omega (arith, length-take (j - i) (drop i xs), length-drop i xs)

  pub length-splice :
      (dst : List A) (i : ℕ) (src : List A)
      → i + length src ≤ length dst
      → length (splice dst i src) ≡ length dst
  unfolding splice
  length-splice dst i src h = omega (
    arith,
    length-append (take i dst) (src ++ drop (i + length src) dst),
    length-append src (drop (i + length src) dst),
    length-take i dst,
    length-drop (i + length src) dst,
  )

  -- what stands up to the end of a write: what stood before it, and the bytes written
  pub take-splice :
      (dst : List A) (i : ℕ) (src : List A) (j : ℕ)
      → i ≤ length dst
      → j ≡ i + length src
      → take j (splice dst i src) ≡ take i dst ++ src
  unfolding splice
  take-splice dst i src j h e =
      ap (take j) (sym (append_assoc (take i dst) src (drop (i + length src) dst)))
      ∙ take-append j (take i dst ++ src) (drop (i + length src) dst)
          (omega (arith, length-append (take i dst) src, length-take i dst))

  -- a segment of three
  pub slice-append :
      (i j : ℕ) (xs ys zs : List A)
      → i ≡ length xs
      → j ≡ i + length ys
      → slice i j (xs ++ (ys ++ zs)) ≡ ys
  unfolding slice
  slice-append i j xs ys zs hi hj =
      ap (take (j - i)) (drop-append i xs (ys ++ zs) hi) ∙ take-append (j - i) ys zs (omega arith)

  -- the last segment
  pub slice-append_last :
      (i j : ℕ) (xs ys : List A) → i ≡ length xs → j ≡ i + length ys → slice i j (xs ++ ys) ≡ ys
  unfolding slice
  slice-append_last i j xs ys hi hj =
      ap (λ ws. slice i j (xs ++ ws)) (sym (append-nil ys)) ∙ slice-append i j xs ys [] hi hj

-- `done` is what has been written, from the start, of an array of `n` elements
pub record Begins {ℓ} {A : Type ℓ} (n : ℕ) (done : List A) (array : List A) : Type ℓ where
  pub size : length array ≡ n
  pub fits : length done ≤ n
  pub starts : take (length done) array ≡ done

module _ {ℓ} {A : Type ℓ} where
  pub Begins-nil : (array : List A) (n : ℕ) → length array ≡ n → Begins n [] array
  unfolding take
  Begins-nil array n h = record { size = h; fits = omega arith; starts = λ i. [] }

  pub splice-Begins :
      (n i : ℕ) (done array src : List A)
      → Begins n done array
      → i ≡ length done
      → i + length src ≤ n
      → Begins n (done ++ src) (splice array i src)
  splice-Begins n i done array src b e h = record {
    size = length-splice array i src (omega (arith, b.size)) ∙ b.size;
    fits = omega (arith, length-append done src);
    starts =
        take-splice array i src (length (done ++ src)) (omega (arith, b.size, b.fits))
          (omega (arith, length-append done src))
        ∙ ap (λ m. take m array ++ src) e
        ∙ ap (λ xs. xs ++ src) b.starts;
  }

  -- an array written to its end
  pub Begins-full :
      (n : ℕ) (done array : List A) → Begins n done array → length done ≡ n → array ≡ done
  Begins-full n done array b h =
      sym (take_all (length done) array (omega (arith, b.size))) ∙ b.starts

  -- the parts of a list behind a common head, and behind heads of one length
  pub drop_head : (xs ys zs : List A) → xs ++ ys ≡ xs ++ zs → ys ≡ zs
  drop_head xs ys zs h =
      sym (drop-append (length xs) xs ys refl)
      ∙ ap (drop (length xs)) h
      ∙ drop-append (length xs) xs zs refl

  pub split_heads :
      (n : ℕ) (xs ys xs' ys' : List A)
      → n ≡ length xs
      → n ≡ length xs'
      → xs ++ ys ≡ xs' ++ ys'
      → (xs ≡ xs') × (ys ≡ ys')
  split_heads n xs ys xs' ys' h h' e = (
    sym (take-append n xs ys h) ∙ ap (take n) e ∙ take-append n xs' ys' h',
    sym (drop-append n xs ys h) ∙ ap (drop n) e ∙ drop-append n xs' ys' h',
  )
