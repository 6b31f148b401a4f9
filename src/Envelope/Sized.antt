-- ===== src/Envelope/Sized.antt =====
-- Envelopes of full length, and `open` of src/envelope.rs on them.
use null_path.Base.{
  ℕ, zero, suc, ◌+◌, ◌≡◌, ◌≢◌, inl, inr, some, List, [], ◌∷◌, arith, panic, length, get_elem?,
  slice, length-slice, Option-cases, Bool-cases, ltb, ltb→le, from_be_bytes, get_range-slice,
}
use null_path.Envelope.{
  plaintext_len, max_payload_size, envelope_total_len, nonce_len, ciphertext_len, decrypt, parse,
  open_envelope,
}
use null_path.Errors.{EnvelopeError}
use null_path.Primitives.{Bytes, Primitives, IsSound}

-- each envelope has its full length
abbrev pub AllSized : List Bytes → Type 0
AllSized [] = Unit {0}
AllSized (env ∷ envelopes) = (length env ≡ envelope_total_len) × AllSized envelopes

pub AllSized-get_elem? :
    (envelopes : List Bytes) (i : ℕ) (env : Bytes)
    → AllSized envelopes
    → get_elem? envelopes i ≡ some env
    → length env ≡ envelope_total_len
AllSized-get_elem? [] i env sized h = cc
AllSized-get_elem? (e ∷ envelopes) zero env (size, sized) h = ground (arith, size)
AllSized-get_elem? (e ∷ envelopes) (suc i) env (size, sized) h =
    AllSized-get_elem? envelopes i env sized h

-- every index into a decrypted buffer is in range
parse-returns : (buffer : Bytes) → length buffer ≡ plaintext_len → parse buffer ≢ panic
unfolding parse
parse-returns [] h = λ e. omega arith
parse-returns (b ∷ buffer) h =
    let field = slice 2 4 (b ∷ buffer) in
    let read = get_range-slice {E = EnvelopeError} 2 4 (b ∷ buffer) (omega arith) (omega arith) in
    elim (Bool-cases (ltb max_payload_size (from_be_bytes field))) [
      | inl large ↦ rw (read, large) (λ e. ground arith)
      | inr small ↦
          let fits = ltb→le max_payload_size (from_be_bytes field) small in
          let payload =
            get_range-slice {E = EnvelopeError} 4 (4 + from_be_bytes field) (b ∷ buffer)
              (omega arith) (omega arith) in
          rw (read, small, payload) (λ e. ground arith)
    ]

-- `open` never panics on an envelope of full length
pub open_envelope-returns :
    (p : Primitives) (key envelope aad : Bytes)
    → IsSound p
    → length envelope ≡ envelope_total_len
    → open_envelope p key envelope aad ≢ panic
unfolding open_envelope decrypt
open_envelope-returns p key envelope aad sound size =
    let nonce = slice 0 nonce_len envelope in
    let ciphertext = slice nonce_len (nonce_len + ciphertext_len) envelope in
    let tag = slice (nonce_len + ciphertext_len) envelope_total_len envelope in
    elim (Option-cases (p.decrypt key nonce aad ciphertext tag)) [
      | inl h ↦ rw (h, open_envelope, decrypt) (λ e. grind arith)
      | inr (buffer, h) ↦
          let same = sound.length-decrypt key nonce aad ciphertext tag buffer h in
          let cut = length-slice nonce_len (nonce_len + ciphertext_len) envelope in
          rw (h, open_envelope, decrypt) (parse-returns buffer (omega arith))
    ]
