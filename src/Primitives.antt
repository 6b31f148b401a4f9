-- ===== src/Primitives.antt =====
-- What the crate takes from other crates: SHA-256 (`sha2`), HMAC-SHA256 (`hmac`), ChaCha20-Poly1305
-- (`chacha20poly1305`) and the random bytes of the operating system (`rand_core::OsRng`). The
-- functions are parameters of the model, and `IsSound` is what their documentation says of them.
-- A byte is a number below 256; an array or slice of bytes is a list.
use null_path.Base.{ℕ, ◌+◌, ◌<◌, ◌≡◌, Option, some, List, Result, ok, err, panic, length}

abbrev pub Bytes : Type 0
Bytes = List ℕ

pub record Primitives : Type 0 where
  pub sha256 : Bytes → Bytes
  -- key and message; `none` if the key's length is not accepted
  pub hmac_sha256 : Bytes → Bytes → Option Bytes
  -- key, nonce, associated data and plaintext, to the ciphertext and the tag
  pub encrypt : Bytes → Bytes → Bytes → Bytes → Option (Bytes × Bytes)
  -- key, nonce, associated data, ciphertext and tag, to the plaintext
  pub decrypt : Bytes → Bytes → Bytes → Bytes → Bytes → Option Bytes
  -- what the n-th call of `fill_bytes` writes into a buffer of the given length
  pub fill_bytes : ℕ → ℕ → Bytes

-- the longest message of ChaCha20-Poly1305, in bytes
abbrev pub max_plaintext : ℕ
max_plaintext = 274_877_906_880

-- `encrypt` took the plaintext, and `decrypt` gives it back
pub record Encrypts (p : Primitives) (key nonce aad plaintext ciphertext tag : Bytes) : Type 0 where
  pub returns : p.encrypt key nonce aad plaintext ≡ some (ciphertext, tag)
  pub length-ciphertext : length ciphertext ≡ length plaintext
  pub length-tag : length tag ≡ 16
  pub decrypts : p.decrypt key nonce aad ciphertext tag ≡ some plaintext

pub record IsSound (p : Primitives) : Type 0 where
  pub length-sha256 : (message : Bytes) → length (p.sha256 message) ≡ 32
  -- HMAC takes a key of any length
  pub hmac_total :
      (key message : Bytes)
      → (code : Bytes) × (p.hmac_sha256 key message ≡ some code) × (length code ≡ 32)
  pub length-fill_bytes : (draw n : ℕ) → length (p.fill_bytes draw n) ≡ n
  pub encrypt_total :
      (key nonce aad plaintext : Bytes)
      → length key ≡ 32
      → length nonce ≡ 12
      → length plaintext < max_plaintext
      → (ciphertext tag : Bytes) × Encrypts p key nonce aad plaintext ciphertext tag
  pub length-decrypt :
      (key nonce aad ciphertext tag plaintext : Bytes)
      → p.decrypt key nonce aad ciphertext tag ≡ some plaintext
      → length plaintext ≡ length ciphertext

-- Code that draws random bytes, and may fail: from the number of calls of `fill_bytes` so far, to
-- the result and the number of calls then.
abbrev pub Random {ℓ} : Type 0 → Type ℓ → Type ℓ
Random E A = ℕ → Result E A × ℕ

abbrev pub feed {ℓ κ} :
    {E : Type 0} {A : Type ℓ} {B : Type κ} → Result E A × ℕ → (A → Random E B) → Result E B × ℕ
feed (ok a, draw) f = f a draw
feed (err e, draw) f = (err e, draw)
feed (panic, draw) f = (panic, draw)

infixl 5 ◌>>=◌
abbrev pub ◌>>=◌ {ℓ κ} :
    {E : Type 0} {A : Type ℓ} {B : Type κ} → Random E A → (A → Random E B) → Random E B
◌>>=◌ m f draw = feed (m draw) f

abbrev pub lift {ℓ} : {E : Type 0} {A : Type ℓ} → Result E A → Random E A
lift r draw = (r, draw)

-- `OsRng.fill_bytes` into a buffer of `n` bytes
unfoldable pub draw_bytes : {E : Type 0} → Primitives → ℕ → Random E Bytes
draw_bytes p n draw = (ok (p.fill_bytes draw n), draw + 1)
