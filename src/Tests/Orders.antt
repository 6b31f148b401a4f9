-- ===== src/Tests/Orders.antt =====
-- Messages in several orders, and both ways, at concrete payloads.
use mathlib.Core.List.{reverse}
use mathlib.Core.List.Permᴰ
use null_path.Base.{
  ◌≤◌, err, ap, ℕ, ◌*◌, ◌≡◌, refl, true, false, some, List, [], ◌∷◌, map, arith, ok, length, take,
  splice, replicate, length-replicate,
}
use null_path.Channel.Arrivals.{Arrival, receive_all}
use null_path.Channel.Turns.{Turn}
use null_path.Channel.Conversation.{converse, converse-delivers}
use null_path.Channel.Dispatch.{dispatch, dispatch-delivers}
use null_path.Channel.Exchange.{new-SendsAt}
use null_path.Channel.Ratchet.{new-Follows}
use null_path.Channel.Sending.{advance}
use null_path.Channel.Judgement.Cases.{receive-Judgement}
use null_path.Channel.Judgement.Again.{receive-again}
use null_path.Errors.{ChannelError}
use null_path.Channel.Judgement.{Judgement}
use null_path.Channel.{SecureChannel, new, receive}
use null_path.Handshake.Agreement.{expected}
use null_path.Session.{hold_session, hold_session-delivers}
use null_path.Tests.Agreement.{signing, alice, bob}
use null_path.Tests.Keys.{toy_curves, toy_curves-IsSound}
use null_path.Envelope.{envelope_total_len}
use null_path.Ffi.Exchange.{channel_receive-channel_send}
use null_path.Ffi.{ReturnCode, outcome, channel_send, channel_receive}
use null_path.Primitives.{Bytes}
use null_path.Tests.Exchange.{
  second, took_second, took_second-ok, envelopes_of, start, payload, message_id, root, root_key,
  root_size, new_root_size, start-n_paths, start-IsValid, start-CanAccept_zero,
}
use null_path.Tests.Toy.{toy, toy-IsSound}

-- three messages, the last to arrive first
abbrev pub requests : List (Bytes × Bytes)
requests = (payload, message_id) ∷ (message_id, payload) ∷ ([], payload) ∷ []

abbrev pub sent : List Arrival
sent = dispatch toy (λ n. 1000 * n) (new root_key 3) requests 5

dispatch-delivers_example :
    (map (λ m. m.payload) sent ≡ map (λ r. r.0) requests)
    × ((receive_all toy (new root_key 3) (reverse sent)).1 ≡ map (λ m. ok m.payload) (reverse sent))
dispatch-delivers_example =
    dispatch-delivers toy root_key 3 5 (λ n. 1000 * n) requests (reverse sent) toy-IsSound root_size
      (omega arith)
      ((omega arith, omega arith), ((omega arith, omega arith), ((omega arith, omega arith), tt)))
      (omega arith) (Permᴰ.reverse sent)

abbrev pub turns : List Turn
turns =
    record { by_first = true; now = 3; message_id = message_id; payload = payload }
    ∷ record { by_first = false; now = 9; message_id = payload; payload = [] }
    ∷ record { by_first = true; now = 2; message_id = []; payload = message_id }
    ∷ []

converse-delivers_example :
    converse toy (new root_key 3) (new root_key 3) turns 0 ≡ map (λ t. ok t.payload) turns
converse-delivers_example =
    converse-delivers toy toy-IsSound root_key 3 0 turns root_size (omega arith) (omega arith)
      ((omega arith, omega arith), ((omega arith, omega arith), ((omega arith, omega arith), tt)))

-- envelopes of zeros
abbrev pub blank : List Bytes
blank = replicate 1024 0 ∷ replicate 1024 0 ∷ replicate 1024 0 ∷ []

blank-enough : start.n_paths ≤ length blank
unfolding new
blank-enough = omega arith

channel_receive-channel_send_example :
    (written : Bytes) × (draw' : ℕ) × (d' : SecureChannel) × (channel_send toy
        (some start)
        (some payload)
        3
        (some message_id)
        2
        (some (replicate 4000 0))
        (some 3500)
        7
      ≡ (
        outcome
            (advance toy start)
            (written, start.n_paths * envelope_total_len, ReturnCode.decoypath_ok),
        draw',
      ))
    × (channel_receive toy 4
          (some start)
          (some written)
          (start.n_paths * envelope_total_len)
          0
          (some message_id)
          2
          (some (replicate 100 0))
          (some 90)
        ≡ outcome d' (
          splice (replicate 100 0) 0 (take 3 payload),
          length (take 3 payload),
          ReturnCode.decoypath_ok,
        ))
unfolding new
channel_receive-channel_send_example =
    channel_receive-channel_send toy root start start 0 7 4 payload 3 message_id 2
      (replicate 4000 0) 3500 (replicate 100 0) 90 toy-IsSound new_root_size
      (new-SendsAt toy root_key 3) start-IsValid (new-Follows toy root_key 3) refl
      start-CanAccept_zero start-n_paths (omega arith) (omega arith) (omega arith) (omega arith)
      (omega (arith, length-replicate {A = ℕ} 4000 0)) (omega arith)

-- the envelopes do not open
receive-Judgement_example :
    Judgement toy 5 start blank 0 message_id (receive toy 5 start blank 0 message_id)
receive-Judgement_example =
    let size = length-replicate {A = ℕ} 1024 0 in
    receive-Judgement toy start blank 0 message_id toy-IsSound 5 start-IsValid
      (size, (size, (size, tt)))

hold_session-delivers_example :
    hold_session toy_curves toy (signing 3) bob (signing 8) (some alice) 3 10 50 turns 7
    ≡ ok (map (λ t. ok t.payload) turns)
hold_session-delivers_example =
    hold_session-delivers toy_curves toy_curves-IsSound toy (signing 3) (signing 8) (some alice) 3
      10 50 turns 7 toy-IsSound expected (omega arith) (omega arith)
      ((omega arith, omega arith), ((omega arith, omega arith), ((omega arith, omega arith), tt)))

receive-again_example :
    receive toy 900 took_second.0 blank 1 payload
    ≡ (took_second.0, err ChannelError.replayed_sequence)
receive-again_example =
    receive-again toy start-IsValid took_second.0 0 900 1 (envelopes_of second.1) blank payload
      message_id (ap (λ r. (took_second.0, r)) took_second-ok) blank-enough
