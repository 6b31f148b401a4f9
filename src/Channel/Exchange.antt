-- ===== src/Channel/Exchange.antt =====
-- A message between two channels of src/channel.rs with the same root key.
use mathlib.Core.Path.{subst₂}
use null_path.Base.{ℕ, suc, ◌^◌, ◌≤◌, ◌<◌, ◌≡◌, refl, ap, List, arith, ok, length, le→ltb}
use null_path.Channel.Accept.{Carries}
use null_path.Channel.Delivery.{CanAccept, receive-Carries}
use null_path.Channel.Invariant.{IsValid}
use null_path.Channel.Ratchet.{Follows}
use null_path.Channel.Sending.{advance}
use null_path.Channel.{
  SecureChannel, new, construct_aad, max_message_id_len, next_send_seq, receive, distribute, send,
}
use null_path.Decoy.Slots.{generate_multi_path_slots_total, AreSlots-AllSized}
use null_path.Envelope.RoundTrip.{open_envelope-seal}
use null_path.Envelope.{max_payload_size}
use null_path.PathEngine
use null_path.PathEngine.Chain.{derive_n, derive_n-length}
use null_path.PathEngine.Slot.{select_slot_total}
use null_path.PathEngine.{RatchetKey, select_slot, derive_next, duplicate_for_target_use}
use null_path.Primitives.{Bytes, Primitives, IsSound}

module _ (p : Primitives) (sound : IsSound p) where
  -- A message within the limits is sent: the channel advances by one step, and the envelopes, one
  -- for each path, carry the payload under the number and the key that the channel had.
  pub send_total :
      (c : SecureChannel) (draw : ℕ) (payload message_id : Bytes)
      → length c.current_key.bytes ≡ 32
      → 0 < c.n_paths
      → length message_id ≤ max_message_id_len
      → length payload ≤ max_payload_size
      → (envelopes : List Bytes) × (draw' : ℕ) × (send p c payload message_id draw
          ≡ (advance p c, ok envelopes, draw'))
        × Carries p c.current_key (next_send_seq c) c.n_paths message_id payload envelopes
  unfolding send distribute advance
  send_total c draw payload message_id key_size paths short small =
      let key = c.current_key in
      let aad = construct_aad (next_send_seq c) message_id in
      let (slot, chosen, below) = select_slot_total p key.bytes message_id c.n_paths sound paths in
      let (envelope, drawn, sealed, size, opened) =
        open_envelope-seal p key.bytes payload aad draw sound key_size small in
      let (slots, draw', made, count, stands, are) =
        generate_multi_path_slots_total p sound envelope aad slot c.n_paths drawn below in
      (
        slots,
        draw',
        rw (le→ltb max_message_id_len (length message_id) short, chosen, sealed, made),
        record {
          slot = slot;
          envelope = envelope;
          chosen = chosen;
          size = count;
          sized = AreSlots-AllSized p envelope aad slot 0 drawn draw' slots size are;
          below = below;
          stands = stands;
          opens = opened;
        },
      )

module _ (p : Primitives) (root : RatchetKey) where
  -- the next message is number `n`, under the root key advanced `n` times
  pub record SendsAt (n : ℕ) (c : SecureChannel) : Type 0 where
    pub number : next_send_seq c ≡ n
    pub current : c.current_key ≡ derive_n p n root

  -- a step leads from message `n` to the next, short of the last number of 64 bits
  pub advance-SendsAt :
      {c : SecureChannel} (n : ℕ) → suc n < 2 ^ 64 → SendsAt n c → SendsAt (suc n) (advance p c)
  unfolding advance next_send_seq derive_n
  advance-SendsAt n small s = record {
    number = rw (s.number) (omega arith);
    current = ap (derive_next p) s.current;
  }

  -- A channel that sends with the key of message `n` carries it under that key.
  pub Carries-SendsAt :
      {c : SecureChannel} {n : ℕ} {message_id payload : Bytes} {envelopes : List Bytes}
      → SendsAt n c
      → Carries p c.current_key (next_send_seq c) c.n_paths message_id payload envelopes
      → Carries p (derive_n p n root) n c.n_paths message_id payload envelopes
  Carries-SendsAt {c} {n} {message_id} {payload} {envelopes} s k =
      subst₂ (λ key i. Carries p key i c.n_paths message_id payload envelopes) s.current s.number k

  -- One channel sends a message within the limits as number `n`, with the root key advanced `n` times
  -- as its current key. Another, valid and with as many paths, whose current key is the root key
  -- advanced once for each number up to its last and whose skipped keys stand at their places in the
  -- same ratchet (a channel that has itself sent is not like this), receives it in order or not, as
  -- long as the number is new and within the window, or skipped and not evicted: the result is the
  -- payload.
  pub receive-send :
      (c d : SecureChannel) (n draw now : ℕ) (payload message_id : Bytes)
      → IsSound p
      → length root.bytes ≡ 32
      → SendsAt n c
      → 0 < c.n_paths
      → length message_id ≤ max_message_id_len
      → length payload ≤ max_payload_size
      → IsValid d
      → Follows p root d
      → d.n_paths ≡ c.n_paths
      → CanAccept d n
      → (envelopes : List Bytes) × (draw' : ℕ) × (send p c payload message_id draw
          ≡ (advance p c, ok envelopes, draw'))
        × ((receive p now d envelopes n message_id).1 ≡ ok payload)
  receive-send c d n draw now payload message_id sound root_size s paths short small v f same can =
      let key_size : length c.current_key.bytes ≡ 32 =
        rw s.current (derive_n-length p n root sound root_size) in
      let (envelopes, draw', sent, carries) =
        send_total p sound c draw payload message_id key_size paths short small in
      (
        envelopes,
        draw',
        sent,
        receive-Carries p root d now n message_id payload envelopes v f can short
            (rw same (Carries-SendsAt s carries)),
      )

-- a new channel sends message 0 under the root key
pub new-SendsAt :
    (p : Primitives) (root_key : Bytes) (n_paths : ℕ)
    → SendsAt p (PathEngine.new root_key) 0 (new root_key n_paths)
unfolding new next_send_seq derive_n
new-SendsAt p root_key n_paths = record { number = refl; current = refl }
