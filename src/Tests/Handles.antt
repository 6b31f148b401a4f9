-- ===== src/Tests/Handles.antt =====
-- Boxes, keys and texts at concrete values.
use null_path.Base.{
  ℕ, ◌≤◌, ◌≡◌, refl, none, some, arith, length, replicate, length-replicate, ◌==◌, if◌then◌else◌,
}
use null_path.Ffi.Boxes.Calls.{here, finalize_boxed-once}
use null_path.Ffi.Boxes.Ownership.{Fresh}
use null_path.Ffi.Boxes.{Boxes, set, box_channel, finalize_boxed, state_free}
use null_path.Ffi.Session.{initiator_finalize, finalize_owned}
use null_path.Ffi.{ReturnCode}
use null_path.Handshake.{initiate}
use null_path.Primitives.{Bytes}
use null_path.Tests.Agreement.{signing, bob}
use null_path.Tests.Exchange.{start, payload, message_id}
use null_path.Tests.Keys.{toy_curves}
use null_path.Tests.Toy.{toy}

-- a state at 0 and a channel at 1
abbrev pub boxes : Boxes toy_curves
boxes = record {
  next = 2;
  states = λ a. if a == 0 then some (initiate toy_curves (signing 3) bob 10).0 else none;
  channels = λ a. if a == 1 then some start else none;
}

boxes-Fresh : Fresh boxes
boxes-Fresh = record { states = λ a h. ground arith; channels = λ a h. ground arith }

abbrev pub finalized : Boxes toy_curves
finalized = record boxes { states = set boxes.states 0 none }

-- a response that is too short
finalize_boxed-once_example :
    (state_free toy_curves finalized (some 0) ≡ none)
    × (finalize_boxed toy_curves finalized (some 0) (some message_id) 144 (some none) 3 ≡ none)
unfolding finalize_boxed initiator_finalize finalize_owned box_channel
finalize_boxed-once_example =
    finalize_boxed-once toy boxes finalized finalized 0 payload message_id 3 144 none none
      (some none) 3 3 ReturnCode.decoypath_err_invalid_payload boxes-Fresh refl here

abbrev pub room : Bytes
room = replicate 150 0

room-enough : 32 ≤ length room
room-enough = omega (arith, length-replicate {A = ℕ} 150 0)
