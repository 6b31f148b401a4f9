-- ===== src/PathEngine.antt =====
-- src/path_engine.rs: the ratchet of keys, and the choice of the slot that carries the message.
-- Zeroization on drop is not observable and is left out.
pub mod Slot
pub mod Chain
use null_path.Base.{
  ℕ, Bool, ◌+◌, ◌%◌, ◌^◌, Option, some, none, List, ◌++◌, Result, ok, err, ◌>>=◌, length, take,
  slice, ◌==◌, if◌then◌else◌, codes, from_be_bytes, zero, suc,
}
use null_path.Errors.{PathEngineError}
use null_path.Primitives.{Bytes, Primitives}

pub record RatchetKey : Type 0 where
  pub bytes : Bytes

unfoldable pub new : Bytes → RatchetKey
new key_bytes = record { bytes = key_bytes }

unfoldable pub duplicate_for_target_use : RatchetKey → RatchetKey
duplicate_for_target_use k = record { bytes = k.bytes }

-- `ct_eq` of the crate `subtle` is the first argument
unfoldable pub ct_eq : (Bytes → Bytes → Bool) → RatchetKey → RatchetKey → Bool
ct_eq subtle_ct_eq k other = subtle_ct_eq k.bytes other.bytes

-- the comparison that tests use
unfoldable pub eq : (Bytes → Bytes → Bool) → RatchetKey → RatchetKey → Bool
eq subtle_ct_eq k other = ct_eq subtle_ct_eq k other

unfoldable pub debug_ratchet_key : RatchetKey → Bytes
debug_ratchet_key k = codes "RatchetKey([REDACTED])"

abbrev ratchet_label : Bytes
ratchet_label = codes "decoypath-v1-ratchet-advance:"

module _ (p : Primitives) where
  unfoldable pub derive_next : RatchetKey → RatchetKey
  derive_next k = record { bytes = p.sha256 (ratchet_label ++ k.bytes) }

  -- `HmacSha256::new_from_slice(key)`, `update(message_id)`, `finalize`
  unfoldable pub hmac : Bytes → Bytes → Result PathEngineError Bytes
  hmac key message_id = elim (p.hmac_sha256 key message_id) [
    | some code ↦ ok code
    | none ↦ err PathEngineError.hmac_failure
  ]

  -- `code_bytes[0..8].try_into()`
  unfoldable pub first_eight : Bytes → Result PathEngineError Bytes
  first_eight code =
      let value = slice 0 8 code in
      if length value == 8 then ok value else err PathEngineError.hmac_failure

  unfoldable pub select_slot : Bytes → Bytes → ℕ → Result PathEngineError ℕ
  unfolding hmac first_eight
  select_slot key message_id n_paths =
      if n_paths == 0 then err PathEngineError.invalid_path_count else do
        code_bytes ← hmac key message_id
        value_bytes ← first_eight code_bytes
        ok (from_be_bytes value_bytes % n_paths)
