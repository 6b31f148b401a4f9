-- ===== src/Curves.antt =====
-- What the handshake takes from other crates: Ed25519 (`ed25519-dalek`), X25519 (`x25519-dalek`),
-- HKDF-SHA256 (`hkdf`) and `rand_core::OsRng`. The types and functions are parameters of the model,
-- and `IsSound` is what their documentation says of them.
use null_path.Base.{ℕ, ◌≡◌, Bool, true, Option, some, ◌↔◌, length}
use null_path.Primitives.{Bytes}

pub record Curves : Type 1 where
  pub SigningKey : Type 0
  pub VerifyingKey : Type 0
  pub Signature : Type 0
  pub EphemeralSecret : Type 0
  pub DhPublicKey : Type 0
  pub signing_from_bytes : Bytes → SigningKey
  pub signing_to_bytes : SigningKey → Bytes
  pub verifying_key : SigningKey → VerifyingKey
  pub verifying_from_bytes : Bytes → Option VerifyingKey
  pub verifying_as_bytes : VerifyingKey → Bytes
  pub verifying_eq : VerifyingKey → VerifyingKey → Bool
  pub sign : SigningKey → Bytes → Signature
  -- is the signature of this message valid under the key
  pub verify : VerifyingKey → Bytes → Signature → Bool
  pub signature_from_bytes : Bytes → Signature
  pub signature_to_bytes : Signature → Bytes
  pub dh_public : EphemeralSecret → DhPublicKey
  pub dh_from_bytes : Bytes → DhPublicKey
  pub dh_as_bytes : DhPublicKey → Bytes
  pub diffie_hellman : EphemeralSecret → DhPublicKey → Bytes
  -- salt, input key, info and length of the output
  pub hkdf_expand : Bytes → Bytes → Bytes → ℕ → Option Bytes
  -- what the n-th draw of random bytes gives: keys, and the bytes of a buffer
  pub random_signing_key : ℕ → SigningKey
  pub random_secret : ℕ → EphemeralSecret
  pub fill_bytes : ℕ → ℕ → Bytes

pub record IsSound (k : Curves) : Type 0 where
  -- a signing key is its seed of 32 bytes
  pub length-signing_to_bytes : (s : k.SigningKey) → length (k.signing_to_bytes s) ≡ 32
  pub signing_from-to : (s : k.SigningKey) → k.signing_from_bytes (k.signing_to_bytes s) ≡ s
  pub signing_to-from :
      (b : Bytes) → length b ≡ 32 → k.signing_to_bytes (k.signing_from_bytes b) ≡ b
  pub length-verifying_as_bytes : (v : k.VerifyingKey) → length (k.verifying_as_bytes v) ≡ 32
  pub verifying_from-as :
      (v : k.VerifyingKey) → k.verifying_from_bytes (k.verifying_as_bytes v) ≡ some v
  pub verifying_as-from :
      (b : Bytes) (v : k.VerifyingKey)
      → k.verifying_from_bytes b ≡ some v
      → k.verifying_as_bytes v ≡ b
  pub verifying_eq_iff : (v w : k.VerifyingKey) → (k.verifying_eq v w ≡ true) ↔ (v ≡ w)
  pub verify-sign :
      (s : k.SigningKey) (message : Bytes)
      → k.verify (k.verifying_key s) message (k.sign s message) ≡ true
  pub length-signature_to_bytes : (s : k.Signature) → length (k.signature_to_bytes s) ≡ 64
  pub signature_from-to : (s : k.Signature) → k.signature_from_bytes (k.signature_to_bytes s) ≡ s
  pub signature_to-from :
      (b : Bytes) → length b ≡ 64 → k.signature_to_bytes (k.signature_from_bytes b) ≡ b
  pub length-dh_as_bytes : (d : k.DhPublicKey) → length (k.dh_as_bytes d) ≡ 32
  pub dh_from-as : (d : k.DhPublicKey) → k.dh_from_bytes (k.dh_as_bytes d) ≡ d
  pub dh_as-from : (b : Bytes) → length b ≡ 32 → k.dh_as_bytes (k.dh_from_bytes b) ≡ b
  pub diffie_hellman_comm :
      (a b : k.EphemeralSecret)
      → k.diffie_hellman a (k.dh_public b) ≡ k.diffie_hellman b (k.dh_public a)
  -- HKDF-SHA256 gives up to 255 blocks of 32 bytes
  pub hkdf_total :
      (salt ikm info : Bytes)
      → (okm : Bytes) × (k.hkdf_expand salt ikm info 32 ≡ some okm) × (length okm ≡ 32)
  pub length-fill_bytes : (draw n : ℕ) → length (k.fill_bytes draw n) ≡ n
