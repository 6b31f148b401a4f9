-- ===== src/Envelope/RoundTrip.antt =====
-- `open` of src/envelope.rs on what `seal` makes.
use mathlib.Core.List.{append-nil, append_assoc}
use null_path.Base.{
  ℕ, ◌+◌, ◌-◌, ◌%◌, ◌^◌, ◌≤◌, ◌<◌, ◌≡◌, refl, sym, ap, ◌∙◌, [], ◌∷◌, ◌++◌, arith, ok, err, length,
  slice, splice, ltb, lt→ltb, le→ltb, Bool-cases, inl, inr, ltb→lt, ltb→le, to_be_bytes,
  from_be_bytes, length-append, length-to_be_bytes, from_be_bytes-to_be_bytes, Begins-full,
  splice-Begins, slice-append, get_range-slice, some,
}
use null_path.Envelope.Layout.{header, length-header, header_and_payload-Begins, assemble-parts}
use null_path.Envelope.{
  header_and_payload, assemble, plaintext_len, max_payload_size, envelope_total_len, nonce_len,
  plaintext_of, encrypt, seal, decrypt, parse, open_envelope,
}
use null_path.Errors.{EnvelopeError}
use null_path.Primitives.{Bytes, Primitives, IsSound, Encrypts, draw_bytes, feed}

-- the plaintext of a payload, with some padding
pub record IsPlaintext (payload plaintext : Bytes) : Type 0 where
  pub padding : Bytes
  pub layout : plaintext ≡ header payload ++ (payload ++ padding)
  pub size : length plaintext ≡ plaintext_len

pub plaintext_of_total :
    (p : Primitives) (payload : Bytes) (draw : ℕ)
    → IsSound p
    → length payload ≤ max_payload_size
    → (plaintext : Bytes) × (draw' : ℕ) × (plaintext_of p payload draw ≡ (ok plaintext, draw'))
      × IsPlaintext payload plaintext
      × (draw ≤ draw')
unfolding plaintext_of draw_bytes
plaintext_of_total p payload draw sound h =
    let start : ℕ = 4 + length payload in
    let buffer = header_and_payload payload in
    let begins = header_and_payload-Begins payload h in
    let head = length-append (header payload) payload in
    let four = length-header payload in
    elim (Bool-cases (ltb start plaintext_len)) [
      | inl room ↦
          let padding = p.fill_bytes draw (plaintext_len - start) in
          let pad = sound.length-fill_bytes draw (plaintext_len - start) in
          let short = ltb→lt start plaintext_len room in
          let full =
            splice-Begins plaintext_len start (header payload ++ payload) buffer padding begins
              (omega arith) (omega arith) in
          (
            splice buffer start padding,
            draw + 1,
            rw room,
            record {
              padding = padding;
              layout =
                  Begins-full plaintext_len ((header payload ++ payload) ++ padding) _ full
                    (omega (arith, length-append (header payload ++ payload) padding))
                  ∙ append_assoc (header payload) payload padding;
              size = full.size;
            },
            omega arith,
          )
      | inr none_left ↦ (
        buffer,
        draw,
        rw none_left,
        record {
          padding = [];
          layout =
              Begins-full plaintext_len (header payload ++ payload) buffer begins
                (omega (arith, ltb→le start plaintext_len none_left))
              ∙ ap (λ xs. header payload ++ xs) (sym (append-nil payload));
          size = begins.size;
        },
        omega arith,
      )
    ]

pub parse-layout :
    (payload padding : Bytes)
    → length payload ≤ max_payload_size
    → parse (header payload ++ (payload ++ padding)) ≡ ok payload
unfolding parse header
parse-layout payload padding h =
    let n = length payload % 2 ^ 16 in
    let len = to_be_bytes 2 n in
    let two = length-to_be_bytes 2 n in
    let field : slice 2 4 ((0x01 ∷ 0x00 ∷ []) ++ (len ++ (payload ++ padding))) ≡ len =
      slice-append 2 4 (0x01 ∷ 0x00 ∷ []) len (payload ++ padding) refl (omega arith) in
    let value : from_be_bytes len ≡ length payload =
      from_be_bytes-to_be_bytes 2 n (omega arith) ∙ omega arith in
    let whole : Bytes = header payload ++ (payload ++ padding) in
    let size = length-append (header payload) (payload ++ padding) in
    let rest = length-append payload padding in
    let read = get_range-slice {E = EnvelopeError} 2 4 whole (omega arith) (omega arith) in
    let text =
      get_range-slice {E = EnvelopeError} 4 (4 + length payload) whole (omega arith)
        (omega (arith, length-header payload)) in
    rw (read, field, value, le→ltb max_payload_size (length payload) h)
      (text
        ∙ ap ok (
            slice-append 4 (4 + length payload) (0x01 ∷ 0x00 ∷ len) payload padding (omega arith)
              refl))

encrypt_some :
    (p : Primitives) (key nonce aad plaintext : Bytes) (sealed : Bytes × Bytes)
    → p.encrypt key nonce aad plaintext ≡ some sealed
    → encrypt p key nonce aad plaintext ≡ ok sealed
unfolding encrypt
encrypt_some p key nonce aad plaintext sealed h = rw (h, encrypt)

decrypt_some :
    (p : Primitives) (key nonce aad ciphertext tag buffer : Bytes)
    → p.decrypt key nonce aad ciphertext tag ≡ some buffer
    → decrypt p key nonce aad ciphertext tag ≡ ok buffer
unfolding decrypt
decrypt_some p key nonce aad ciphertext tag buffer h = rw (h, decrypt)

-- A payload of more than 992 bytes is refused, and nothing is drawn.
pub seal-payload_too_large :
    (p : Primitives) (key payload aad : Bytes) (draw : ℕ)
    → max_payload_size < length payload
    → seal p key payload aad draw ≡ (err EnvelopeError.payload_too_large, draw)
unfolding seal
seal-payload_too_large p key payload aad draw h = rw (lt→ltb max_payload_size (length payload) h)

open_envelope-assemble :
    (p : Primitives) (key payload aad nonce plaintext ciphertext tag : Bytes)
    → length payload ≤ max_payload_size
    → length nonce ≡ nonce_len
    → IsPlaintext payload plaintext
    → Encrypts p key nonce aad plaintext ciphertext tag
    → (length (assemble nonce ciphertext tag) ≡ envelope_total_len)
      × (open_envelope p key (assemble nonce ciphertext tag) aad ≡ ok payload)
unfolding open_envelope
open_envelope-assemble p key payload aad nonce plaintext ciphertext tag h hn frame e =
    let (cut_nonce, cut_ciphertext, cut_tag, size) =
      assemble-parts nonce ciphertext tag hn (e.length-ciphertext ∙ frame.size) e.length-tag in
    (
      size,
      rw
          (
            cut_nonce,
            cut_ciphertext,
            cut_tag,
            decrypt_some p key nonce aad ciphertext tag plaintext e.decrypts,
            frame.layout,
          )
          (parse-layout payload frame.padding h),
    )

-- what `seal` makes, the draws that it takes, and what `open` finds in it
pub seal_total :
    (p : Primitives) (key payload aad : Bytes) (draw : ℕ)
    → IsSound p
    → length key ≡ 32
    → length payload ≤ max_payload_size
    → (envelope : Bytes) × (draw' : ℕ) × (seal p key payload aad draw ≡ (ok envelope, draw'))
      × (draw < draw')
      × (length envelope ≡ envelope_total_len)
      × (open_envelope p key envelope aad ≡ ok payload)
unfolding seal draw_bytes
seal_total p key payload aad draw sound hk h =
    let nonce = p.fill_bytes draw nonce_len in
    let hn = sound.length-fill_bytes draw nonce_len in
    let (plaintext, draw', made, frame, drawn) = plaintext_of_total p payload (draw + 1) sound h in
    let (ciphertext, tag, e) =
      sound.encrypt_total key nonce aad plaintext hk hn (omega (arith, frame.size)) in
    let (size, opened) =
      open_envelope-assemble p key payload aad nonce plaintext ciphertext tag h hn frame e in
    (
      assemble nonce ciphertext tag,
      draw',
      rw (
        le→ltb max_payload_size (length payload) h,
        made,
        feed,
        encrypt_some p key nonce aad plaintext (ciphertext, tag) e.returns,
      ),
      omega arith,
      size,
      opened,
    )

-- A payload of at most 992 bytes is sealed into exactly 1024 bytes, whatever is drawn, and `open`
-- with the same key and associated data gives it back.
pub open_envelope-seal :
    (p : Primitives) (key payload aad : Bytes) (draw : ℕ)
    → IsSound p
    → length key ≡ 32
    → length payload ≤ max_payload_size
    → (envelope : Bytes) × (draw' : ℕ) × (seal p key payload aad draw ≡ (ok envelope, draw'))
      × (length envelope ≡ envelope_total_len)
      × (open_envelope p key envelope aad ≡ ok payload)
open_envelope-seal p key payload aad draw sound hk h =
    let (envelope, draw', made, _, size, opened) = seal_total p key payload aad draw sound hk h in
    (envelope, draw', made, size, opened)
