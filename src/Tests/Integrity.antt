-- ===== src/Tests/Integrity.antt =====
-- What a channel over the toy primitives takes in, next to what was sent.
use mathlib.Core.List.{Memᴰ}
use mathlib.Core.List.Memᴰ
use mathlib.Core.Option.{some_inj}
use mathlib.Core.Path.{subst}
use null_path.Base.{
  length, take, splice, replicate, ℕ, zero, suc, ◌≡◌, refl, get_range, none, some, List, [], ◌∷◌,
  arith, Result, ok, err, panic, get_elem?,
}
use null_path.Channel.Integrity.{Sending, Sends, begin, sent, Unforged, sending}
use null_path.Channel.Arrivals.{Arrival}
use null_path.Channel.Integrity.Once.{Call, AllSent, Distinct, deliveries, deliveries-once}
use null_path.Channel.Invariant.{new-IsValid}
use null_path.Channel.Ratchet.{new-Follows}
use null_path.Channel.{SecureChannel, new, construct_aad, send}
use null_path.Envelope.{plaintext_of}
use null_path.Errors.{ChannelError, EnvelopeError}
use null_path.Ffi.Integrity.{cut, channel_receive-Sends}
use null_path.Ffi.{
  ReturnCode, Outcome, split_envelopes, write_payload, channel_receive_checked, channel_receive,
}
use null_path.PathEngine.Chain.{derive_n}
use null_path.Primitives.{Bytes}
use null_path.Tests.Exchange.{program, root, root_key, payload, message_id, envelopes_of}
use null_path.Tests.Toy.{toy, toy-IsSound}

-- a channel with one path
abbrev lone : SecureChannel
lone = new root_key 1

abbrev lone_sent : SecureChannel × Result ChannelError (List Bytes) × ℕ
lone_sent = send toy lone payload message_id 0

abbrev only : Bytes
only = elim (get_elem? (envelopes_of lone_sent.1) 0) [ some e ↦ e | none ↦ [] ]

abbrev bytes_of : Result EnvelopeError Bytes → Bytes
bytes_of r = elim r [ ok b ↦ b | err e ↦ [] | panic ↦ [] ]

lone_sent-ok : lone_sent.1 ≡ ok (only ∷ [])
unfolding program
lone_sent-ok = refl

-- the plaintext with its padding
abbrev padded : Bytes
padded = bytes_of (plaintext_of toy payload 1).0

abbrev entry : Sending
entry = sending toy lone payload message_id 0 padded

lone_log : Sends toy lone (entry ∷ []) lone_sent.0
unfolding program
lone_log = sent payload message_id padded (only ∷ []) 0 2 lone_sent.2 begin refl refl

of_one :
    (e : Bytes) (i : ℕ) (envelope : Bytes) → get_elem? (e ∷ []) i ≡ some envelope → e ≡ envelope
of_one e zero envelope h = some_inj.0 h
of_one e (suc i) envelope h = cc

-- a set of one envelope
one-Unforged :
    (e : Bytes)
    → Unforged toy (entry ∷ []) (derive_n toy 0 root).bytes (construct_aad 0 message_id) e
    → (i : ℕ) (envelope : Bytes) → get_elem? (e ∷ []) i ≡ some envelope
    → Unforged toy (entry ∷ []) (derive_n toy 0 root).bytes (construct_aad 0 message_id) envelope
one-Unforged e h i envelope stands =
    subst (Unforged toy (entry ∷ []) (derive_n toy 0 root).bytes (construct_aad 0 message_id))
      (of_one e i envelope stands) h

only-Unforged :
    Unforged toy (entry ∷ []) (derive_n toy 0 root).bytes (construct_aad 0 message_id) only
unfolding program sending derive_n
only-Unforged buffer h = (entry, Memᴰ.head refl, refl, refl, refl, some_inj.0 h)

-- the message, and a copy of it
abbrev call : Call
call = record { now = 4; envelopes = only ∷ []; seq = 0; message_id = message_id }

abbrev copy : Call
copy = record { now = 9; envelopes = only ∷ []; seq = 0; message_id = message_id }

deliveries_of :
    deliveries toy lone (call ∷ copy ∷ [])
    ≡ record { seq = 0; message_id = message_id; payload = payload } ∷ []
unfolding program deliveries
deliveries_of = refl

deliveries-once_example :
    AllSent toy (entry ∷ []) (deliveries toy lone (call ∷ copy ∷ []))
    × Distinct toy (deliveries toy lone (call ∷ copy ∷ []))
deliveries-once_example = deliveries-once toy root_key 1 (call ∷ copy ∷ []) toy-IsSound lone_log (
  omega arith,
  one-Unforged only only-Unforged,
  (omega arith, one-Unforged only only-Unforged, tt),
)

-- the message through the C function, with a buffer of 16 bytes
abbrev room : Bytes
room = replicate 16 0

abbrev handed : Outcome
handed =
    channel_receive toy 4 (some lone) (some only) 1024 0 (some message_id) 2 (some room) (some 16)

handed-ok : handed.code ≡ ReturnCode.decoypath_ok
unfolding program channel_receive channel_receive_checked split_envelopes get_range write_payload
handed-ok = refl

handed-cut : cut toy lone 4 only 1024 0 message_id 2 room 16 ≡ ok (only ∷ [])
unfolding program split_envelopes get_range
handed-cut = refl

vec_of :
    (xs ys : List Bytes) (r : Result ChannelError (List Bytes)) → r ≡ ok xs → r ≡ ok ys → ys ≡ xs
vec_of xs ys r h h' = cc

handed-vec :
    (vec : List Bytes) → cut toy lone 4 only 1024 0 message_id 2 room 16 ≡ ok vec → vec ≡ only ∷ []
handed-vec vec h = vec_of (only ∷ []) vec _ handed-cut h

handed-id : take 2 message_id ≡ message_id
unfolding take
handed-id = refl

channel_receive-Sends_example :
    (s : Sending) × Memᴰ s (entry ∷ [])
    × (s.seq ≡ 0)
    × (s.message_id ≡ take 2 message_id)
    × (handed.out ≡ some (splice room 0 s.payload))
    × (handed.out_len ≡ some (length s.payload))
channel_receive-Sends_example =
    channel_receive-Sends toy lone 4 only 1024 0 message_id 2 room 16 root toy-IsSound lone_log
      (new-IsValid root_key 1) (new-Follows toy root_key 1) (omega arith)
      (λ vec i envelope parts stands.
        rw handed-id
          (one-Unforged only only-Unforged i envelope (rw (handed-vec vec parts) at stands)))
      handed-ok

-- an envelope of zeros under the number of the message, before it arrives
abbrev zeros : Bytes
zeros = replicate 1024 0

abbrev forged : Call
forged = record { now = 2; envelopes = zeros ∷ []; seq = 0; message_id = message_id }

abbrev arrival : Arrival
arrival = record {
  now = 7;
  seq = 0;
  message_id = message_id;
  payload = payload;
  envelopes = only ∷ [];
}
