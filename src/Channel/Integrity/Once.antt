-- ===== src/Channel/Integrity/Once.antt =====
-- All messages that a channel of src/channel.rs takes in from a network that hands it any envelopes
-- in any order and as often as it likes, next to the log of what was sent.
use mathlib.Core.List.{Memᴰ}
use null_path.Base.{
  ℕ, ◌^◌, ◌<◌, ◌≡◌, ◌≢◌, refl, inl, inr, some, List, [], ◌∷◌, Result, ok, err, panic, get_elem?,
  Result-cases,
}
use null_path.Channel.Integrity.{Sending, Sends, Unforged, receive-Sends}
use null_path.Channel.Invariant.{IsValid, Consumed, new-IsValid, receive-IsValid}
use null_path.Channel.Ratchet.{Follows, receive-Follows, new-Follows}
use null_path.Channel.Replay.{receive-Consumed, Step-Consumed, received}
use null_path.Channel.{SecureChannel, new, construct_aad, receive}
use null_path.Errors.{ChannelError}
use null_path.PathEngine
use null_path.PathEngine.Chain.{derive_n}
use null_path.PathEngine.{RatchetKey}
use null_path.Primitives.{Bytes, Primitives, IsSound}

-- the arguments of a call of `receive`
pub record Call : Type 0 where
  pub now : ℕ
  pub envelopes : List Bytes
  pub seq : ℕ
  pub message_id : Bytes

-- a payload that a call returned, and what it was asked for
pub record Delivery : Type 0 where
  pub seq : ℕ
  pub message_id : Bytes
  pub payload : Bytes

abbrev keep : Call → Result ChannelError Bytes → List Delivery → List Delivery
keep call (ok payload) rest =
    record { seq = call.seq; message_id = call.message_id; payload = payload } ∷ rest
keep call (err e) rest = rest
keep call panic rest = rest

module _ (p : Primitives) where
  -- what the calls return, without the errors
  unfoldable pub deliveries : SecureChannel → List Call → List Delivery
  deliveries c [] = []
  deliveries c (call ∷ calls) =
      let (c', r) = receive p call.now c call.envelopes call.seq call.message_id in
      let rest = deliveries c' calls in keep call r rest

  -- each delivery is an entry of the log
  abbrev pub AllSent : List Sending → List Delivery → Type 0
  AllSent log [] = Unit {0}
  AllSent log (m ∷ ms) =
      ((s : Sending) × Memᴰ s log
        × (s.seq ≡ m.seq)
        × (s.message_id ≡ m.message_id)
        × (s.payload ≡ m.payload))
      × AllSent log ms

  -- no delivery has this number
  abbrev pub Apart : ℕ → List Delivery → Type 0
  Apart seq [] = Unit {0}
  Apart seq (m ∷ ms) = (m.seq ≢ seq) × Apart seq ms

  -- no two deliveries have one number
  abbrev pub Distinct : List Delivery → Type 0
  Distinct [] = Unit {0}
  Distinct (m ∷ ms) = Apart m.seq ms × Distinct ms

  -- every call has a `u64` number, and no envelope that is a forgery
  abbrev pub AllUnforged : RatchetKey → List Sending → List Call → Type 0
  AllUnforged root log [] = Unit {0}
  AllUnforged root log (call ∷ calls) =
      (call.seq < 2 ^ 64)
      × ((i : ℕ) (envelope : Bytes)
          → get_elem? call.envelopes i ≡ some envelope
          → Unforged p log (derive_n p call.seq root).bytes (construct_aad call.seq call.message_id)
              envelope)
      × AllUnforged root log calls

  Apart-Consumed :
      (c : SecureChannel) (calls : List Call) (seq : ℕ)
      → IsValid c
      → Consumed c seq
      → Apart seq (deliveries c calls)
  unfolding deliveries
  Apart-Consumed c [] seq v h = tt
  Apart-Consumed c (call ∷ calls) seq v h =
      let c' = (receive p call.now c call.envelopes call.seq call.message_id).0 in
      let v' = receive-IsValid p v call.now call.envelopes call.seq call.message_id in
      let still =
        Step-Consumed p seq (received call.now call.envelopes call.seq call.message_id refl) v h in
      let later = Apart-Consumed c' calls seq v' still in
      elim (Result-cases (receive p call.now c call.envelopes call.seq call.message_id).1) [
        | inl (payload, r) ↦
            let fresh =
              (receive-Consumed p call.now call.envelopes call.seq call.message_id payload v r).0 in
            rw r (λ same. fresh (rw same h), later)
        | inr (inl (x, r)) ↦ rw r later
        | inr (inr r) ↦ rw r later
      ]

module _ (p : Primitives) (sound : IsSound p) (root : RatchetKey) {d e : SecureChannel}
    {log : List Sending} (sends : Sends p d log e) where
  deliveries-AllSent :
      (c : SecureChannel) (calls : List Call)
      → IsValid c
      → Follows p root c
      → AllUnforged p root log calls
      → AllSent p log (deliveries p c calls) × Distinct p (deliveries p c calls)
  unfolding deliveries
  deliveries-AllSent c [] v f u = (tt, tt)
  deliveries-AllSent c (call ∷ calls) v f u =
      let c' = (receive p call.now c call.envelopes call.seq call.message_id).0 in
      let v' = receive-IsValid p v call.now call.envelopes call.seq call.message_id in
      let f' = receive-Follows p root call.now call.envelopes call.seq call.message_id v f in
      let (rest, distinct) = deliveries-AllSent c' calls v' f' u.2 in
      elim (Result-cases (receive p call.now c call.envelopes call.seq call.message_id).1) [
        | inr (inl (x, r)) ↦ rw r (rest, distinct)
        | inr (inr r) ↦ rw r (rest, distinct)
        | inl (payload, r) ↦
            let (s, listed, number, id, same, _) =
              receive-Sends p sound root call.now call.seq call.message_id payload call.envelopes
                sends v f u.0 u.1 r in
            let gone =
              (receive-Consumed p call.now call.envelopes call.seq call.message_id payload v r).1 in
            rw r (
              ((s, listed, number, id, same), rest),
              (Apart-Consumed p c' calls call.seq v' gone, distinct),
            )
      ]

-- A new channel takes any list of calls of `receive`, with any envelopes, at any times, in any order,
-- copies included, with `u64` numbers. If none of the envelopes is a forgery, each payload that a
-- call returns is that of a call of `send` in the log, under the number and the message ID of that
-- call, and no two calls return a payload for the same number.
pub deliveries-once :
    (p : Primitives) {d e : SecureChannel} {log : List Sending} (root_key : Bytes) (n_paths : ℕ)
    (calls : List Call)
    → IsSound p
    → Sends p d log e
    → AllUnforged p (PathEngine.new root_key) log calls
    → AllSent p log (deliveries p (new root_key n_paths) calls)
      × Distinct p (deliveries p (new root_key n_paths) calls)
deliveries-once p root_key n_paths calls sound sends unforged =
    deliveries-AllSent p sound (PathEngine.new root_key) sends (new root_key n_paths) calls
      (new-IsValid root_key n_paths) (new-Follows p root_key n_paths) unforged
