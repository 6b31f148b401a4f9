-- ===== src/Ffi/Boxes/Ownership.antt =====
-- Who owns a box of src/ffi.rs, now and later.
use null_path.Base.{
  ℕ, ◌≤◌, ◌<◌, ◌≡◌, ap, Option, none, some, arith, Bool-cases, ltb, ltb→lt, ltb→le, inl, inr,
}
use null_path.Channel.{SecureChannel}
use null_path.Curves.{Curves}
use null_path.Ffi.Boxes.{Boxes, set, box_state, box_channel}
use null_path.Handshake.{InitiatorState}

pub live-lt {ℓ} :
    {A : Type ℓ} (f : ℕ → Option A) (n a : ℕ) (x : A)
    → ((i : ℕ) → n ≤ i → f i ≡ none)
    → f a ≡ some x
    → a < n
live-lt f n a x beyond live = elim (Bool-cases (ltb a n)) [
  | inl below ↦ ltb→lt a n below
  | inr above ↦ let dead = beyond a (ltb→le a n above) in absurd (cc)
]

module _ {k : Curves} where
  -- no box is beyond the addresses that have been given out
  pub record Fresh (b : Boxes k) : Type 0 where
    pub states : (a : ℕ) → b.next ≤ a → b.states a ≡ none
    pub channels : (a : ℕ) → b.next ≤ a → b.channels a ≡ none

  -- the boxes later on: an address that was given out and has no box gets none
  pub record Evolves (b b' : Boxes k) : Type 0 where
    pub grows : b.next ≤ b'.next
    pub states : (a : ℕ) → a < b.next → b.states a ≡ none → b'.states a ≡ none
    pub channels : (a : ℕ) → a < b.next → b.channels a ≡ none → b'.channels a ≡ none
    pub fresh : Fresh b'

  pub Evolves-refl : (b : Boxes k) → Fresh b → Evolves b b
  Evolves-refl b f = record {
    grows = omega arith;
    states = λ a h e. e;
    channels = λ a h e. e;
    fresh = f;
  }

  pub Evolves-trans : {b c d : Boxes k} → Evolves b c → Evolves c d → Evolves b d
  Evolves-trans e f = record {
    grows = omega (arith, e.grows, f.grows);
    states = λ a h n. f.states a (omega (arith, e.grows)) (e.states a h n);
    channels = λ a h n. f.channels a (omega (arith, e.grows)) (e.channels a h n);
    fresh = f.fresh;
  }

  pub box_state-Evolves :
      (b : Boxes k) (made : Option (Option (InitiatorState k))) (slot : Option (Option ℕ))
      → Fresh b
      → Evolves b (box_state k b made slot).0
  unfolding box_state
  box_state-Evolves b none slot f = Evolves-refl b f
  box_state-Evolves b (some none) slot f = Evolves-refl b f
  box_state-Evolves b (some (some state)) slot f = record {
    grows = omega arith;
    states = λ a h n. ground arith;
    channels = λ a h n. n;
    fresh = record {
      states = λ a h. let g = f.states a (omega arith) in ground arith;
      channels = λ a h. f.channels a (omega arith);
    };
  }

  pub box_channel-Evolves :
      (b : Boxes k) (made : Option (Option SecureChannel)) (slot : Option (Option ℕ))
      → Fresh b
      → Evolves b (box_channel k b made slot).0
  unfolding box_channel
  box_channel-Evolves b none slot f = Evolves-refl b f
  box_channel-Evolves b (some none) slot f = Evolves-refl b f
  box_channel-Evolves b (some (some channel)) slot f = record {
    grows = omega arith;
    states = λ a h n. n;
    channels = λ a h n. ground arith;
    fresh = record {
      states = λ a h. f.states a (omega arith);
      channels = λ a h. let g = f.channels a (omega arith) in ground arith;
    };
  }

  pub take_state-Evolves :
      (b : Boxes k) (a : ℕ) → Fresh b → Evolves b (record b { states = set b.states a none })
  take_state-Evolves b a f = record {
    grows = omega arith;
    states = λ i h n. ground arith;
    channels = λ i h n. n;
    fresh = record { states = λ i h. let g = f.states i h in ground arith; channels = f.channels };
  }

  -- a channel is replaced or taken
  pub set_channel-Evolves :
      (b : Boxes k) (a : ℕ) (c : SecureChannel) (new : Option SecureChannel)
      → Fresh b
      → b.channels a ≡ some c
      → Evolves b (record b { channels = set b.channels a new })
  set_channel-Evolves b a c new f live = record {
    grows = omega arith;
    states = λ i h n. n;
    channels = λ i h n. ground (arith, ap b.channels {x = i} {y = a});
    fresh = record {
      states = f.states;
      channels = λ i h. let g = f.channels i h in ground (arith, ap b.channels {x = i} {y = a});
    };
  }
