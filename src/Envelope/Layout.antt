-- ===== src/Envelope/Layout.antt =====
-- The bytes of the buffers that src/envelope.rs writes.
use mathlib.Core.List.{append_assoc}
use null_path.Base.{
  ◌+◌, ◌%◌, ◌^◌, ◌≤◌, ◌≡◌, refl, sym, ap, ◌∙◌, [], ◌∷◌, ◌++◌, arith, length, replicate, slice,
  splice, to_be_bytes, length-append, length-replicate, length-to_be_bytes, Begins, Begins-nil,
  Begins-full, splice-Begins, slice-append, slice-append_last,
}
use null_path.Envelope.{
  header_and_payload, assemble, plaintext_len, max_payload_size, envelope_total_len, nonce_len,
  ciphertext_len,
}
use null_path.Primitives.{Bytes}

-- version, flags and length
unfoldable pub header : Bytes → Bytes
header payload = 0x01 ∷ 0x00 ∷ to_be_bytes 2 (length payload % 2 ^ 16)

pub length-header : (payload : Bytes) → length (header payload) ≡ 4
unfolding header
length-header payload = omega (arith, length-to_be_bytes 2 (length payload % 2 ^ 16))

pub header_and_payload-Begins :
    (payload : Bytes)
    → length payload ≤ max_payload_size
    → Begins plaintext_len (header payload ++ payload) (header_and_payload payload)
unfolding header_and_payload header
header_and_payload-Begins payload h =
    let n = length payload % 2 ^ 16 in
    let len = to_be_bytes 2 n in
    let b0 =
      Begins-nil (replicate plaintext_len 0) plaintext_len (length-replicate plaintext_len 0) in
    let b1 = splice-Begins plaintext_len 0 [] _ (0x01 ∷ []) b0 refl (omega arith) in
    let b2 = splice-Begins plaintext_len 1 (0x01 ∷ []) _ (0x00 ∷ []) b1 refl (omega arith) in
    let b3 =
      splice-Begins plaintext_len 2 (0x01 ∷ 0x00 ∷ []) _ len b2 refl
        (omega (arith, length-to_be_bytes 2 n)) in
    splice-Begins plaintext_len 4 (0x01 ∷ 0x00 ∷ len) _ payload b3
      (omega (arith, length-to_be_bytes 2 n)) (omega arith)

pub assemble-append :
    (nonce ciphertext tag : Bytes)
    → length nonce ≡ 12
    → length ciphertext ≡ 996
    → length tag ≡ 16
    → assemble nonce ciphertext tag ≡ nonce ++ (ciphertext ++ tag)
unfolding assemble
assemble-append nonce ciphertext tag hn hc ht =
    let size = length-append nonce ciphertext in
    let zeros = replicate envelope_total_len 0 in
    let b0 = Begins-nil zeros envelope_total_len (length-replicate envelope_total_len 0) in
    let b1 = splice-Begins envelope_total_len 0 [] zeros nonce b0 refl (omega arith) in
    let b2 =
      splice-Begins envelope_total_len nonce_len nonce (splice zeros 0 nonce) ciphertext b1
        (omega arith) (omega arith) in
    let b3 =
      splice-Begins envelope_total_len (nonce_len + ciphertext_len) (nonce ++ ciphertext) _ tag b2
        (omega arith) (omega arith) in
    Begins-full envelope_total_len ((nonce ++ ciphertext) ++ tag) _ b3
      (omega (arith, length-append (nonce ++ ciphertext) tag))
    ∙ append_assoc nonce ciphertext tag

-- the three parts that `open` cuts are those that `seal` joined
pub assemble-parts :
    (nonce ciphertext tag : Bytes)
    → length nonce ≡ 12
    → length ciphertext ≡ 996
    → length tag ≡ 16
    → (slice 0 nonce_len (assemble nonce ciphertext tag) ≡ nonce)
      × (slice nonce_len (nonce_len + ciphertext_len) (assemble nonce ciphertext tag) ≡ ciphertext)
      × (slice (nonce_len + ciphertext_len) envelope_total_len (assemble nonce ciphertext tag)
          ≡ tag)
      × (length (assemble nonce ciphertext tag) ≡ envelope_total_len)
assemble-parts nonce ciphertext tag hn hc ht =
    let size = length-append nonce (ciphertext ++ tag) in
    let size' = length-append ciphertext tag in
    let size'' = length-append nonce ciphertext in
    rw (assemble-append nonce ciphertext tag hn hc ht) (
      slice-append 0 nonce_len [] nonce (ciphertext ++ tag) refl (omega arith),
      slice-append nonce_len (nonce_len + ciphertext_len) nonce ciphertext tag (omega arith)
          (omega arith),
      ap (slice (nonce_len + ciphertext_len) envelope_total_len)
            (sym (append_assoc nonce ciphertext tag))
          ∙ slice-append_last (nonce_len + ciphertext_len) envelope_total_len (nonce ++ ciphertext)
              tag (omega arith) (omega arith),
      omega arith,
    )
