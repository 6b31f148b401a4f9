-- ===== src/Ffi/Buffer.antt =====
-- The two loops of src/ffi.rs over a buffer of envelopes: one writes it, the other cuts it up.
use mathlib.Core.List.{append_assoc}
use null_path.Base.{
  ℕ, ◌+◌, ◌*◌, ◌≤◌, ◌≡◌, refl, sym, ap, ◌∙◌, List, [], ◌∷◌, ◌++◌, arith, length, take, drop, splice,
  take-append, drop-append_more, drop-drop_more, le→leb, get_range-slice, ok, true, length-append,
  slice-append,
}
use null_path.Envelope.Sized.{AllSized}
use null_path.Envelope.{envelope_total_len}
use null_path.Ffi.{copy_envelopes, split_envelopes}
use null_path.Errors.{ChannelError}
use null_path.Primitives.{Bytes}

abbrev pub concat : List Bytes → Bytes
concat [] = []
concat (env ∷ envelopes) = env ++ concat envelopes

length-concat :
    (envelopes : List Bytes)
    → AllSized envelopes
    → length (concat envelopes) ≡ length envelopes * envelope_total_len
length-concat [] sized = refl
length-concat (env ∷ envelopes) (size, sized) =
    omega (arith, length-append env (concat envelopes), length-concat envelopes sized)

-- a write behind the first bytes
splice-append :
    (i : ℕ) (done rest env : Bytes)
    → length done ≡ i
    → splice (done ++ rest) i env ≡ done ++ (env ++ drop (length env) rest)
unfolding splice
splice-append i done rest env at = rw (take-append i done rest (sym at)) (
    ap (λ xs. done ++ (env ++ xs))
      (ap (λ n. drop n (done ++ rest)) (omega arith) ∙ drop-append_more (length env) done rest))

-- The loop of `decoypath_channel_send`, on envelopes of full length and a slice with room for them,
-- comes to its end, and has written them one behind the other; behind them the buffer is as it was.
pub copy_envelopes-concat :
    (len i : ℕ) (envelopes : List Bytes) (done rest : Bytes)
    → AllSized envelopes
    → length done ≡ i * envelope_total_len
    → (i + length envelopes) * envelope_total_len ≤ len
    → copy_envelopes len i envelopes (done ++ rest)
      ≡ (done ++ (concat envelopes ++ drop (length envelopes * envelope_total_len) rest), true)
unfolding copy_envelopes drop
copy_envelopes-concat len i [] done rest sized at fits = refl
copy_envelopes-concat len i (env ∷ envelopes) done rest (size, sized) at fits =
    let after : Bytes = drop (length env) rest in
    let moved =
      splice-append (i * envelope_total_len) done rest env at ∙ sym (append_assoc done env after) in
    let step =
      copy_envelopes-concat len (i + 1) envelopes (done ++ env) after sized
        (omega (arith, length-append done env)) (omega arith) in
    let back =
      append_assoc done env (concat envelopes ++ drop (length envelopes * envelope_total_len) after)
      ∙ ap (λ xs. done ++ xs)
          (sym (
            append_assoc env (concat envelopes)
              (drop (length envelopes * envelope_total_len) after)))
      ∙ ap (λ xs. done ++ ((env ++ concat envelopes) ++ xs))
          (drop-drop_more (length envelopes * envelope_total_len) (length env) rest
            ∙ ap (λ n. drop n rest) (omega arith)) in
    rw
      (
        le→leb (i * envelope_total_len + envelope_total_len) len (omega arith),
        size,
        moved,
        step,
        back,
      )
      refl

split_envelopes-concat :
    (i : ℕ) (envelopes : List Bytes) (done : Bytes)
    → AllSized envelopes
    → length done ≡ i * envelope_total_len
    → split_envelopes (length envelopes) i (done ++ concat envelopes) ≡ ok envelopes
unfolding split_envelopes
split_envelopes-concat i [] done sized at = refl
split_envelopes-concat i (env ∷ envelopes) done (size, sized) at =
    let lo = i * envelope_total_len in
    let hi = i * envelope_total_len + envelope_total_len in
    let whole : Bytes = done ++ (env ++ concat envelopes) in
    let fits : hi ≤ length whole =
      omega (
        arith,
        length-append done (env ++ concat envelopes),
        length-append env (concat envelopes),
      ) in
    let read =
      get_range-slice {E = ChannelError} lo hi whole (omega arith) fits
      ∙ ap ok (slice-append lo hi done env (concat envelopes) (sym at) (omega arith)) in
    let rest =
      ap (split_envelopes (length envelopes) (i + 1))
        (sym (append_assoc done env (concat envelopes)))
      ∙ split_envelopes-concat (i + 1) envelopes (done ++ env) sized
          (omega (arith, length-append done env)) in
    rw (read, rest) refl

-- Envelopes that stand at the start of a buffer, one behind the other, are what the loop of
-- `decoypath_channel_receive` cuts from it, if each is as long as an envelope is.
pub split_envelopes-written :
    (envelopes : List Bytes) (rest : Bytes)
    → AllSized envelopes
    → split_envelopes
        (length envelopes)
        0
        (take (length envelopes * envelope_total_len) (concat envelopes ++ rest))
      ≡ ok envelopes
split_envelopes-written envelopes rest sized =
    let n = length envelopes * envelope_total_len in
    rw (take-append n (concat envelopes) rest (sym (length-concat envelopes sized)))
      (split_envelopes-concat 0 envelopes [] sized refl)
