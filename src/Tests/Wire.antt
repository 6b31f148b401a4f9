-- ===== src/Tests/Wire.antt =====
-- Slots and envelopes over the toy primitives.
use null_path.Base.{
  ℕ, ◌%◌, ◌<◌, ◌≡◌, some, ok, List, [], ◌∷◌, arith, length, get_elem?, replicate, length-replicate,
  slice, from_be_bytes,
}
use null_path.Decoy.Slots.{AreSlots, generate_multi_path_slots_total}
use null_path.Decoy.{generate_multi_path_slots}
use null_path.Envelope.RoundTrip.{open_envelope-seal}
use null_path.Envelope.{seal, open_envelope, envelope_total_len}
use null_path.PathEngine.Slot.{select_slot-lt}
use null_path.PathEngine.{select_slot}
use null_path.Primitives.{Bytes}
use null_path.Tests.Toy.{toy, toy-IsSound}

abbrev key : Bytes
key = replicate 32 5

abbrev payload : Bytes
payload = 10 ∷ 20 ∷ []

select_slot-lt_example :
    (code : Bytes) × (toy.hmac_sha256 key payload ≡ some code)
    × (select_slot toy key payload 3 ≡ ok (from_be_bytes (slice 0 8 code) % 3))
    × (from_be_bytes (slice 0 8 code) % 3 < 3)
select_slot-lt_example = select_slot-lt toy key payload 3 toy-IsSound (omega arith)

open_envelope-seal_example :
    (envelope : Bytes) × (draw' : ℕ) × (seal toy key payload (9 ∷ []) 4 ≡ (ok envelope, draw'))
    × (length envelope ≡ envelope_total_len)
    × (open_envelope toy key envelope (9 ∷ []) ≡ ok payload)
open_envelope-seal_example =
    open_envelope-seal toy key payload (9 ∷ []) 4 toy-IsSound (length-replicate {A = ℕ} 32 5)
      (omega arith)

generate_multi_path_slots_total_example :
    (slots : List Bytes) × (draw' : ℕ) × (generate_multi_path_slots toy key 1 3 (9 ∷ []) 4
      ≡ (ok slots, draw'))
    × (length slots ≡ 3)
    × (get_elem? slots 1 ≡ some key)
    × AreSlots toy key (9 ∷ []) 1 0 4 slots draw'
generate_multi_path_slots_total_example =
    generate_multi_path_slots_total toy toy-IsSound key (9 ∷ []) 1 3 4 (omega arith)
