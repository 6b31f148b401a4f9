-- ===== src/Decoy.antt =====
-- src/decoy.rs: the real envelope among decoys, one envelope for each path.
pub mod Slots
use null_path.Base.{
  ℕ, zero, suc, ◌+◌, List, [], ◌∷◌, Result, ok, err, map_err, leb, ◌==◌, if◌then◌else◌,
}
use null_path.Envelope.{seal}
use null_path.Errors.{EnvelopeError, DecoyError}
use null_path.Primitives.{Bytes, Primitives, Random, ◌>>=◌, lift, feed, draw_bytes}

-- `.map_err(|_| e)` on the result of code that draws
abbrev pub map_random_err {ℓ} : {D E : Type 0} {A : Type ℓ} → E → Random D A → Random E A
map_random_err e m draw = let (r, draw') = m draw in (map_err e r, draw')

module _ (p : Primitives) where
  unfoldable pub generate_decoy : Bytes → Random DecoyError Bytes
  unfolding draw_bytes
  generate_decoy aad = do
    decoy_key ← draw_bytes p 32
    decoy_payload ← draw_bytes p 128
    map_random_err DecoyError.seal_failure (seal p decoy_key decoy_payload aad)

  -- `for slot_idx in 0..n_paths`, from `slot_idx` on; the slots pushed from there
  pub slot_loop : Bytes → ℕ → Bytes → ℕ → ℕ → Random DecoyError (List Bytes)
  slot_loop real_envelope valid_slot aad zero slot_idx = lift (ok [])
  slot_loop real_envelope valid_slot aad (suc left) slot_idx = do
    slot ← if slot_idx == valid_slot then lift (ok real_envelope) else generate_decoy aad
    slots ← slot_loop real_envelope valid_slot aad left (slot_idx + 1)
    lift (ok (slot ∷ slots))

  unfoldable pub generate_multi_path_slots : Bytes → ℕ → ℕ → Bytes → Random DecoyError (List Bytes)
  unfolding slot_loop
  generate_multi_path_slots real_envelope valid_slot n_paths aad =
      if n_paths == 0
      then lift (err DecoyError.invalid_path_count)
      else if leb n_paths valid_slot
      then lift (err DecoyError.invalid_slot_index)
      else slot_loop real_envelope valid_slot aad n_paths 0
