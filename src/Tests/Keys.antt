-- ===== src/Tests/Keys.antt =====
-- An instance of the curves that meets `IsSound`. It hides nothing: a key is a number, a signature
-- has one significant byte, and a shared secret is a sum.
use null_path.Base.{
  ℕ, zero, suc, ◌+◌, ◌%◌, ◌≡◌, refl, ap, Option, none, some, [], ◌∷◌, ◌++◌, arith, length,
  replicate, length-replicate, ◌==◌, ==_iff, ℕ_discrete,
}
use null_path.Curves.{Curves, IsSound}
use null_path.Primitives.{Bytes}
use null_path.Tests.Toy.{sum, digest}

-- arrays of `n` bytes
abbrev pub Array : ℕ → Type 0
Array zero = Unit {0}
Array (suc n) = ℕ × Array n

unfoldable pub to_list : (n : ℕ) → Array n → Bytes
to_list zero a = []
to_list (suc n) (b, a) = b ∷ to_list n a

-- missing bytes are zero
unfoldable pub from_list : (n : ℕ) → Bytes → Array n
from_list zero bs = tt
from_list (suc n) [] = (0, from_list n [])
from_list (suc n) (b ∷ bs) = (b, from_list n bs)

length-to_list : (n : ℕ) (a : Array n) → length (to_list n a) ≡ n
unfolding to_list
length-to_list zero a = refl
length-to_list (suc n) (b, a) = ap suc (length-to_list n a)

from_list-to_list : (n : ℕ) (a : Array n) → from_list n (to_list n a) ≡ a
unfolding to_list from_list
from_list-to_list zero tt = refl
from_list-to_list (suc n) (b, a) = ap (λ x. (b, x)) (from_list-to_list n a)

to_list-from_list : (n : ℕ) (bs : Bytes) → length bs ≡ n → to_list n (from_list n bs) ≡ bs
unfolding to_list from_list
to_list-from_list zero [] h = refl
to_list-from_list zero (b ∷ bs) h = grind arith
to_list-from_list (suc n) [] h = grind arith
to_list-from_list (suc n) (b ∷ bs) h = ap (λ x. b ∷ x) (to_list-from_list n bs (omega arith))

unfoldable pub head : (n : ℕ) → Array (suc n) → ℕ
head n (b, a) = b

-- 32 bytes of which the first is significant
unfoldable pub key_bytes : ℕ → Bytes
key_bytes v = v ∷ replicate 31 0

unfoldable pub Bytes-discrete : Discrete Bytes
unfolding ℕ_discrete
Bytes-discrete = hlevel ℕ_discrete

unfoldable pub key_from_bytes : Bytes → Option ℕ
key_from_bytes [] = none
key_from_bytes (v ∷ bs) = elim (Bytes-discrete bs (replicate 31 0)) [ yes _ ↦ some v | no _ ↦ none ]

abbrev pub toy_curves : Curves
toy_curves = record {
  SigningKey = Array 32;
  VerifyingKey = ℕ;
  Signature = Array 64;
  EphemeralSecret = ℕ;
  DhPublicKey = Array 32;
  signing_from_bytes = λ bs. from_list 32 bs;
  signing_to_bytes = λ s. to_list 32 s;
  verifying_key = λ s. head 31 s + 1;
  verifying_from_bytes = λ bs. key_from_bytes bs;
  verifying_as_bytes = λ v. key_bytes v;
  verifying_eq = λ v w. v == w;
  sign = λ s message. from_list 64 (digest 63 ((head 31 s + 1) ∷ message));
  verify = λ v message signature. head 63 signature == sum (v ∷ message) % 256;
  signature_from_bytes = λ bs. from_list 64 bs;
  signature_to_bytes = λ s. to_list 64 s;
  dh_public = λ s. from_list 32 (key_bytes (s % 256));
  dh_from_bytes = λ bs. from_list 32 bs;
  dh_as_bytes = λ d. to_list 32 d;
  diffie_hellman = λ s d. key_bytes ((s + head 31 d) % 256);
  hkdf_expand = λ salt ikm info n. some (replicate n (sum (salt ++ (ikm ++ info)) % 256));
  random_signing_key = λ draw. from_list 32 (key_bytes (draw % 256));
  random_secret = λ draw. draw;
  fill_bytes = λ draw n. replicate n (draw % 256);
}

key_from_bytes_lem : (v : ℕ) → key_from_bytes (key_bytes v) ≡ some v
unfolding key_from_bytes key_bytes
key_from_bytes_lem v = ground arith

key_bytes_lem : (bs : Bytes) (v : ℕ) → key_from_bytes bs ≡ some v → key_bytes v ≡ bs
unfolding key_from_bytes key_bytes
key_bytes_lem [] v h = grind arith
key_bytes_lem (w ∷ bs) v h = ground arith

length-digest : (n : ℕ) (bs : Bytes) → length (digest n bs) ≡ n + 1
unfolding digest
length-digest n bs = omega (arith, length-replicate {A = ℕ} n 7)

pub toy_curves-IsSound : IsSound toy_curves
unfolding digest head from_list key_bytes
toy_curves-IsSound = record {
  length-signing_to_bytes = length-to_list 32;
  signing_from-to = from_list-to_list 32;
  signing_to-from = to_list-from_list 32;
  length-verifying_as_bytes = λ v. omega (arith, length-replicate {A = ℕ} 31 0);
  verifying_from-as = key_from_bytes_lem;
  verifying_as-from = key_bytes_lem;
  verifying_eq_iff = ==_iff;
  verify-sign = λ s message. (==_iff _ _).1 refl;
  length-signature_to_bytes = length-to_list 64;
  signature_from-to = from_list-to_list 64;
  signature_to-from = to_list-from_list 64;
  length-dh_as_bytes = length-to_list 32;
  dh_from-as = from_list-to_list 32;
  dh_as-from = to_list-from_list 32;
  diffie_hellman_comm = λ a b. ap key_bytes (omega arith);
  hkdf_total = λ salt ikm info. (
    replicate {A = ℕ} 32 (sum (salt ++ (ikm ++ info)) % 256),
    refl,
    length-replicate {A = ℕ} 32 (sum (salt ++ (ikm ++ info)) % 256),
  );
  length-fill_bytes = λ draw n. length-replicate {A = ℕ} n (draw % 256);
}
