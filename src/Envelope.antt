-- ===== src/Envelope.antt =====
-- src/envelope.rs: a payload in a sealed envelope of 1024 bytes. `open` is a reserved word, and the
-- function is `open_envelope` here.
pub mod Layout
pub mod RoundTrip
pub mod Sized
use null_path.Base.{
  ℕ, ◌+◌, ◌-◌, ◌%◌, ◌^◌, some, none, [], ◌∷◌, Result, ok, err, panic, length, get_elem?, replicate,
  slice, get_range, splice, to_be_bytes, from_be_bytes, ◌>>=◌ as bind, ltb, ◌==◌, if◌then◌else◌,
}
use null_path.Errors.{EnvelopeError}
use null_path.Primitives.{Bytes, Primitives, Random, ◌>>=◌, lift, feed, draw_bytes}

abbrev pub envelope_total_len : ℕ
envelope_total_len = 1024

abbrev pub max_payload_size : ℕ
max_payload_size = 992

abbrev pub nonce_len : ℕ
nonce_len = 12

abbrev pub tag_len : ℕ
tag_len = 16

abbrev pub ciphertext_len : ℕ
ciphertext_len = 996

abbrev pub plaintext_len : ℕ
plaintext_len = 996

-- version, flags, `payload.len() as u16` and payload, over a buffer of zeros
unfoldable pub header_and_payload : Bytes → Bytes
header_and_payload payload =
    let buffer = replicate plaintext_len 0 in
    let buffer = splice buffer 0 (0x01 ∷ []) in
    let buffer = splice buffer 1 (0x00 ∷ []) in
    let buffer = splice buffer 2 (to_be_bytes 2 (length payload % 2 ^ 16)) in
    splice buffer 4 payload

-- nonce, ciphertext and tag, over an array of zeros
unfoldable pub assemble : Bytes → Bytes → Bytes → Bytes
assemble nonce ciphertext tag =
    let envelope = replicate envelope_total_len 0 in
    let envelope = splice envelope 0 nonce in
    let envelope = splice envelope nonce_len ciphertext in
    splice envelope (nonce_len + ciphertext_len) tag

module _ (p : Primitives) where
  -- the plaintext, with random padding if there is room for any
  unfoldable pub plaintext_of : Bytes → Random EnvelopeError Bytes
  plaintext_of payload =
      let buffer = header_and_payload payload in
      let start = 4 + length payload in
      if ltb start plaintext_len
      then (do
        padding ← draw_bytes p (plaintext_len - start)
        lift (ok (splice buffer start padding)))
      else lift (ok buffer)

  -- `encrypt_in_place_detached`
  unfoldable pub encrypt : Bytes → Bytes → Bytes → Bytes → Result EnvelopeError (Bytes × Bytes)
  encrypt key nonce aad plaintext = elim (p.encrypt key nonce aad plaintext) [
    | some sealed ↦ ok sealed
    | none ↦ err EnvelopeError.encryption_failure
  ]

  unfoldable pub seal : Bytes → Bytes → Bytes → Random EnvelopeError Bytes
  seal key payload aad =
      if ltb max_payload_size (length payload)
      then lift (err EnvelopeError.payload_too_large)
      else do
        nonce ← draw_bytes p nonce_len
        plaintext ← plaintext_of payload
        (ciphertext, tag) ← lift (encrypt key nonce aad plaintext)
        lift (ok (assemble nonce ciphertext tag))

  -- `decrypt_in_place_detached`
  unfoldable pub decrypt : Bytes → Bytes → Bytes → Bytes → Bytes → Result EnvelopeError Bytes
  decrypt key nonce aad ciphertext tag = elim (p.decrypt key nonce aad ciphertext tag) [
    | some buffer ↦ ok buffer
    | none ↦ err EnvelopeError.decryption_failure
  ]

-- the checks of `open` on the decrypted buffer, and the payload; each index is checked
unfoldable pub parse : Bytes → Result EnvelopeError Bytes
parse buffer = elim (get_elem? buffer 0) [
  | none ↦ panic
  | some version ↦
      if version == 0x01
      then bind (get_range 2 4 buffer) (λ (field : Bytes).
        let payload_len = from_be_bytes field in
        if ltb max_payload_size payload_len
        then err EnvelopeError.invalid_format
        else get_range 4 (4 + payload_len) buffer)
      else err EnvelopeError.invalid_format
]

module _ (p : Primitives) where
  unfoldable pub open_envelope : Bytes → Bytes → Bytes → Result EnvelopeError Bytes
  open_envelope key envelope aad =
      let nonce = slice 0 nonce_len envelope in
      let ciphertext = slice nonce_len (nonce_len + ciphertext_len) envelope in
      let tag = slice (nonce_len + ciphertext_len) envelope_total_len envelope in
      bind (decrypt p key nonce aad ciphertext tag) parse
