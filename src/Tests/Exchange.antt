-- ===== src/Tests/Exchange.antt =====
-- Two channels over the toy primitives.
use null_path.AntiReplay
use null_path.AntiReplay.{Key-discrete}
use null_path.Base.{
  ◌-◌, ◌<◌, ◌≢◌, ◌⊎◌, inl, inr, length-replicate, ℕ, ◌≡◌, refl, List, [], ◌∷◌, arith, Result, ok,
  err, length, some, take, drop, replicate, slice, get_range, splice, codes, to_be_bytes,
  from_be_bytes, map,
}
use null_path.Base.Loop.{while_loop}
use null_path.Channel.Crossing.{first_messages_cross}
use null_path.Channel.Accept.{Carries}
use null_path.Channel.Delivery.{CanAccept}
use null_path.Channel.Exchange.{receive-send, new-SendsAt}
use null_path.Channel.Invariant.{IsValid, new-IsValid, receive_lem}
use null_path.Channel.Ratchet.{Follows, new-Follows, receive-Follows}
use null_path.Channel.Receive.{Accepted, Refused}
use null_path.Channel.Refusal.{send-refused, send_error}
use null_path.Channel.Replay.{receive_once, received, here, next, Reach-IsValid}
use null_path.Channel.Sending.{advance}
use null_path.Channel.Skipped.Loop.{evict_skipped_turn, evict_loop-drop}
use null_path.Channel.Step.{next_seq, max_seq}
use null_path.Channel.{
  max_skipped_keys, SecureChannel, Target, new, construct_aad, evict_oldest_skipped_keys,
  next_send_seq, insert_all, commit, insert_and_commit, run_ahead, forward_target, bounded_target,
  skipped_target, find_target, index, authenticate, examine, receive, distribute, send,
}
use null_path.Collections.BTreeMap
use null_path.Collections.HashMap
use null_path.Decoy.{generate_decoy, generate_multi_path_slots}
use null_path.Envelope.{
  header_and_payload, assemble, plaintext_of, encrypt, seal, decrypt, parse, open_envelope,
}
use null_path.Errors.{ChannelError}
use null_path.PathEngine
use null_path.PathEngine.{RatchetKey, select_slot, derive_next}
use null_path.Primitives.{Bytes, draw_bytes}
use null_path.Tests.Toy.{toy, toy-IsSound, sum, digest, starts_with}

unfoldable pub program : Unit {0}
unfolding take drop replicate slice splice codes to_be_bytes from_be_bytes sum digest starts_with
    draw_bytes header_and_payload assemble plaintext_of encrypt seal decrypt parse open_envelope
    get_range generate_decoy generate_multi_path_slots PathEngine.new
    PathEngine.duplicate_for_target_use PathEngine.derive_next select_slot AntiReplay.new
    AntiReplay.contains AntiReplay.prune AntiReplay.evict_oldest AntiReplay.make_room
    AntiReplay.push AntiReplay.check_and_insert Key-discrete HashMap.contains_key HashMap.insert
    HashMap.remove BTreeMap.get BTreeMap.insert BTreeMap.remove new construct_aad
    evict_oldest_skipped_keys next_send_seq insert_all commit insert_and_commit run_ahead
    forward_target bounded_target skipped_target find_target index authenticate examine receive
    distribute send
program = tt

abbrev pub root_key : Bytes
root_key = replicate 32 5

abbrev pub start : SecureChannel
start = new root_key 3

abbrev pub payload : Bytes
payload = 10 ∷ 20 ∷ 30 ∷ []

abbrev pub message_id : Bytes
message_id = 1 ∷ 2 ∷ []

abbrev pub envelopes_of : Result ChannelError (List Bytes) → List Bytes
envelopes_of (ok es) = es
envelopes_of _ = []

-- messages 0 and 1 of one channel
abbrev pub first : SecureChannel × Result ChannelError (List Bytes) × ℕ
first = send toy start payload message_id 0

abbrev pub second : SecureChannel × Result ChannelError (List Bytes) × ℕ
second = send toy first.0 message_id payload first.2

sizes : map length (envelopes_of first.1) ≡ 1024 ∷ 1024 ∷ 1024 ∷ []
unfolding program
sizes = refl

-- the second message first, then the first, and the first again
abbrev pub took_second : SecureChannel × Result ChannelError Bytes
took_second = receive toy 0 start (envelopes_of second.1) 1 payload

abbrev took_first : SecureChannel × Result ChannelError Bytes
took_first = receive toy 5 took_second.0 (envelopes_of first.1) 0 message_id

pub took_second-ok : took_second.1 ≡ ok message_id
unfolding program
took_second-ok = refl

took_first-ok : took_first.1 ≡ ok payload
unfolding program
took_first-ok = refl

replayed :
    (receive toy 6 took_first.0 (envelopes_of first.1) 0 message_id).1
    ≡ err ChannelError.replayed_sequence
unfolding program
replayed = refl

pub root_size : length root_key ≡ 32
root_size = length-replicate {A = ℕ} 32 5

pub start-IsValid : IsValid start
start-IsValid = new-IsValid root_key 3

abbrev pub root : RatchetKey
root = PathEngine.new root_key

pub new_root_size : length root.bytes ≡ 32
unfolding PathEngine.new
new_root_size = root_size

pub start-n_paths : 0 < start.n_paths
unfolding new
start-n_paths = omega arith

start-CanAccept : CanAccept start 7
unfolding new next_seq max_seq
start-CanAccept = inl (omega arith, omega arith)

pub start-CanAccept_zero : CanAccept start 0
unfolding new next_seq max_seq
start-CanAccept_zero = inl (omega arith, omega arith)

-- what the theorems say here

receive_once_example :
    (receive toy 900 took_first.0 (envelopes_of first.1) 1 message_id).1 ≢ ok payload
receive_once_example =
    receive_once toy 0 900 (envelopes_of second.1) (envelopes_of first.1) 1 payload message_id
      message_id payload start-IsValid took_second-ok
      (next here (received 5 (envelopes_of first.1) 0 message_id refl))

receive_lem_example :
    Accepted toy 0 start took_second.0 (envelopes_of second.1) 1 payload took_second.1
    ⊎ Refused toy start took_second.0 took_second.1
receive_lem_example = receive_lem toy start-IsValid 0 (envelopes_of second.1) 1 payload

Reach-IsValid_example : IsValid took_second.0
Reach-IsValid_example =
    Reach-IsValid toy (next here (received 0 (envelopes_of second.1) 1 payload refl)) start-IsValid

receive-Follows_example : Follows toy root took_second.0
receive-Follows_example =
    receive-Follows toy root 0 (envelopes_of second.1) 1 payload start-IsValid
      (new-Follows toy root_key 3)

receive-send_example :
    (envelopes : List Bytes) × (draw' : ℕ) × (send toy start payload message_id 0
      ≡ (advance toy start, ok envelopes, draw'))
    × ((receive toy 4 start envelopes 0 message_id).1 ≡ ok payload)
receive-send_example =
    receive-send toy root start start 0 0 4 payload message_id toy-IsSound new_root_size
      (new-SendsAt toy root_key 3) start-n_paths (omega arith) (omega arith) start-IsValid
      (new-Follows toy root_key 3) refl start-CanAccept_zero

send-refused_example :
    send toy (new root_key 0) payload message_id 3
    ≡ (new root_key 0, err (send_error (new root_key 0) message_id), 3)
unfolding new
send-refused_example =
    send-refused toy toy-IsSound (new root_key 0) payload message_id 3 (inr (inl refl))

abbrev find_first : Target
find_first = forward_target toy (advance toy start).current_key 0 0

find_first-found : find_target toy (advance toy start) 0 payload ≡ ok find_first
unfolding program advance
find_first-found = refl

first_messages_cross_example :
    (envelopes : List Bytes) × (draw' : ℕ) × (send toy start payload message_id 0
      ≡ (advance toy start, ok envelopes, draw'))
    × Carries toy root 0 3 message_id payload envelopes
    × ((find_first).target_key ≡ derive_next toy root)
first_messages_cross_example =
    first_messages_cross toy root_key 3 payload message_id payload 0 find_first toy-IsSound
      root_size (omega arith) (omega arith) (omega arith) find_first-found

abbrev table : List (ℕ × RatchetKey)
table = (4, root) ∷ (9, root) ∷ []

evict_loop-drop_example :
    (while_loop 1 evict_skipped_turn table ≡ some (evict_oldest_skipped_keys table))
    × (evict_oldest_skipped_keys table ≡ drop (length table - max_skipped_keys) table)
evict_loop-drop_example = evict_loop-drop 1 table (omega arith)
