-- ===== src/Tests/Session.antt =====
-- A handshake through the C boundary at concrete keys and buffers.
use null_path.Base.{splice, length, ℕ, ◌≡◌, some, none, arith, take, replicate, length-replicate}
use null_path.Channel
use null_path.Ffi.Session.Opening.{opened, HasRoom, key_bytes, handshake_opens}
use null_path.Ffi.Session.{initiator_initiate, responder_respond, initiator_finalize}
use null_path.Ffi.{ReturnCode}
use null_path.Ffi.Boxes.Exchange.{Buffers, exchange, exchange-delivers}
use null_path.Ffi.Boxes.{Boxes}
use null_path.Tests.Exchange.{payload, message_id}
use null_path.Tests.Toy.{toy, toy-IsSound}
use null_path.Handshake.Agreement.{any}
use null_path.Handshake.{InitiatorState}
use null_path.Primitives.{Bytes}
use null_path.Tests.Keys.{toy_curves, toy_curves-IsSound}
use null_path.Types.{RootKey}

abbrev pub init_priv : Bytes
init_priv = replicate 32 4

abbrev pub resp_priv : Bytes
resp_priv = replicate 32 6

abbrev pub room : Bytes
room = replicate 150 0

room-HasRoom : HasRoom room 145
room-HasRoom = record {
  enough = omega arith;
  within = omega (arith, length-replicate {A = ℕ} 150 0);
}

handshake_opens_example :
    (state : InitiatorState toy_curves) × (sent : Bytes) × (received : Bytes) × (root : RootKey)
    × ((initiator_initiate toy_curves
          (some init_priv)
          (some (
            toy_curves.verifying_as_bytes
              (toy_curves.verifying_key (toy_curves.signing_from_bytes (take 32 resp_priv)))))
          (some none)
          (some room)
          (some 145)
          2).0
        ≡ opened state sent)
    × ((responder_respond toy_curves
          (some resp_priv)
          (key_bytes toy_curves none)
          (some sent)
          144
          (some room)
          (some 145)
          (some none)
          3
          9).0
        ≡ opened (Channel.new root.bytes 3) received)
    × (initiator_finalize toy_curves (some state) (some received) 144 (some none) 3
        ≡ (none, some (some (Channel.new root.bytes 3)), ReturnCode.decoypath_ok))
    × (length root.bytes ≡ 32)
handshake_opens_example =
    handshake_opens toy_curves toy_curves-IsSound init_priv resp_priv none 2 9 3 3 none none none
      room room 145 145 any room-HasRoom room-HasRoom (omega arith) (omega arith) (omega arith)
      (omega arith)

abbrev pub buffers : Buffers
buffers = record {
  init_payload = room;
  resp_payload = room;
  envelopes = replicate 3072 1;
  decrypted = replicate 992 0;
}

abbrev pub no_boxes : Boxes toy_curves
no_boxes = record { next = 0; states = λ a. none; channels = λ a. none }

exchange-delivers_example :
    exchange toy_curves toy no_boxes no_boxes init_priv resp_priv
      (toy_curves.verifying_as_bytes
        (toy_curves.verifying_key (toy_curves.signing_from_bytes (take 32 resp_priv))))
      (key_bytes toy_curves none)
      3
      buffers
      payload
      message_id
      2
      9
      4
      900
    ≡ some (
      record {
        handle = none;
        out = some (splice buffers.decrypted 0 payload);
        out_len = some (length payload);
        code = ReturnCode.decoypath_ok;
      },
      record {
        handle = none;
        out = some (splice buffers.decrypted 0 payload);
        out_len = some (length payload);
        code = ReturnCode.decoypath_err_replayed_sequence;
      },
    )
exchange-delivers_example =
    let size = length-replicate {A = ℕ} 150 0 in
    exchange-delivers toy_curves toy toy_curves-IsSound toy-IsSound no_boxes no_boxes init_priv
      resp_priv none 3 buffers payload message_id 2 9 4 900 any (omega arith) (omega arith)
      (omega (arith, size)) (omega (arith, size)) (omega (arith, length-replicate {A = ℕ} 3072 1))
      (omega (arith, length-replicate {A = ℕ} 992 0)) (omega arith) (omega arith)
