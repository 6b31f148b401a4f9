-- ===== src/PathEngine/Slot.antt =====
-- The slot that src/path_engine.rs chooses.
use null_path.Base.{
  ℕ, ◌%◌, ◌<◌, ◌≡◌, refl, some, ok, err, slice, length-slice, arith, from_be_bytes,
}
use null_path.Errors.{PathEngineError}
use null_path.PathEngine.{select_slot}
use null_path.Primitives.{Bytes, Primitives, IsSound}

pub select_slot-zero :
    (p : Primitives) (key message_id : Bytes)
    → select_slot p key message_id 0 ≡ err PathEngineError.invalid_path_count
unfolding select_slot
select_slot-zero p key message_id = refl

-- With at least one path `select_slot` never fails: its result is below the path count, and is the
-- first eight bytes of the code, in big-endian order, modulo the path count.
pub select_slot-lt :
    (p : Primitives) (key message_id : Bytes) (n_paths : ℕ)
    → IsSound p
    → 0 < n_paths
    → (code : Bytes) × (p.hmac_sha256 key message_id ≡ some code)
      × (select_slot p key message_id n_paths ≡ ok (from_be_bytes (slice 0 8 code) % n_paths))
      × (from_be_bytes (slice 0 8 code) % n_paths < n_paths)
unfolding select_slot
select_slot-lt p key message_id n_paths sound pos =
    let (code, e, size) = sound.hmac_total key message_id in
    (code, e, ground (arith, length-slice 0 8 code), omega arith)

-- the slot by itself
pub select_slot_total :
    (p : Primitives) (key message_id : Bytes) (n_paths : ℕ)
    → IsSound p
    → 0 < n_paths
    → (slot : ℕ) × (select_slot p key message_id n_paths ≡ ok slot) × (slot < n_paths)
select_slot_total p key message_id n_paths sound pos =
    let (code, _, chosen, bound) = select_slot-lt p key message_id n_paths sound pos in
    (from_be_bytes (slice 0 8 code) % n_paths, chosen, bound)
