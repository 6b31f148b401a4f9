-- ===== src/Tests/Toy.antt =====
-- An instance of the primitives that meets `IsSound`. It hides nothing: a cipher that leaves the
-- text as it is, with a tag of one significant byte.
use null_path.Base.{
  ℕ, ◌+◌, ◌*◌, ◌%◌, ◌≡◌, refl, Bool, false, none, some, [], ◌∷◌, ◌++◌, arith, length, replicate,
  length-replicate, ◌==◌, if◌then◌else◌,
}
use null_path.Primitives.{Bytes, Primitives, IsSound}

unfoldable pub sum : Bytes → ℕ
sum [] = 1
sum (b ∷ bs) = 3 * sum bs + b

-- a digest of `n` bytes
unfoldable pub digest : ℕ → Bytes → Bytes
unfolding sum replicate
digest n bs = (sum bs % 256) ∷ replicate n 7

unfoldable pub starts_with : ℕ → Bytes → Bool
starts_with n [] = false
starts_with n (b ∷ bs) = b == n

abbrev pub toy : Primitives
toy = record {
  sha256 = λ message. digest 31 message;
  hmac_sha256 = λ key message. some (digest 31 (message ++ key));
  encrypt = λ key nonce aad plaintext. some (plaintext, digest 15 (key ++ aad));
  decrypt = λ key nonce aad ciphertext tag.
      if starts_with (sum (key ++ aad) % 256) tag then some ciphertext else none;
  fill_bytes = λ draw n. replicate n (draw % 256);
}

length-digest : (n : ℕ) (bs : Bytes) → length (digest n bs) ≡ n + 1
unfolding digest
length-digest n bs = omega (arith, length-replicate {A = ℕ} n 7)

pub toy-IsSound : IsSound toy
unfolding starts_with digest
toy-IsSound = record {
  length-sha256 = λ message. length-digest 31 message;
  hmac_total = λ key message. (digest 31 (message ++ key), refl, length-digest 31 (message ++ key));
  length-fill_bytes = λ draw n. length-replicate {A = ℕ} n (draw % 256);
  encrypt_total = λ key nonce aad plaintext hk hn hp. (
    plaintext,
    digest 15 (key ++ aad),
    record {
      returns = refl;
      length-ciphertext = refl;
      length-tag = length-digest 15 (key ++ aad);
      decrypts = ground arith;
    },
  );
  length-decrypt = λ key nonce aad ciphertext tag plaintext h. ground arith;
}
