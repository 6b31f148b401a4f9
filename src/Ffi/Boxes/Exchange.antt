-- ===== src/Ffi/Boxes/Exchange.antt =====
-- The calls of tests/ffi_smoke_test.c, for any keys, payload and buffers: two processes run the
-- handshake of src/ffi.rs, and one sends the other a message, which is then delivered twice.
use null_path.Base.{
  ℕ, ◌*◌, ◌≤◌, ◌<◌, ◌≡◌, refl, Option, none, some, arith, length, take, take_all, inl, splice,
}
use null_path.Channel
use null_path.Channel.Exchange.{new-SendsAt}
use null_path.Channel.Invariant.{new-IsValid}
use null_path.Channel.Ratchet.{new-Follows}
use null_path.Channel.{SecureChannel, max_message_id_len}
use null_path.Curves
use null_path.Curves.{Curves}
use null_path.Envelope.{envelope_total_len, max_payload_size}
use null_path.Ffi.Boxes.{Boxes, Reply, set, send_boxed, receive_boxed}
use null_path.Ffi.Again.{channel_receive-again}
use null_path.Ffi.Boxes.Succeeds.{stored, send_boxed-sent, receive_boxed-received}
use null_path.Ffi.Exchange.{channel_receive-channel_send}
use null_path.Ffi.Session.Opening.{key_bytes}
use null_path.Ffi.{ReturnCode, max_n_paths}
use null_path.Handshake.Agreement.{Permits}
use null_path.PathEngine
use null_path.Channel.Sending.{advance}
use null_path.Channel.Step.{next_seq, max_seq}
use null_path.Primitives
use null_path.Primitives.{Bytes, Primitives}
use null_path.Ffi.Boxes.Opens.{◌>>=◌, assert_ok, open_boxed, open_boxed-Opens}

-- the buffers that the two callers allocate
pub record Buffers : Type 0 where
  pub init_payload : Bytes
  pub resp_payload : Bytes
  pub envelopes : Bytes
  pub decrypted : Bytes

module _ (k : Curves) (p : Primitives) where
  -- a payload sent over one channel and received from the other, twice: both replies
  unfoldable pub pass_boxed :
      Boxes k
      → Boxes k
      → Option ℕ
      → Option ℕ
      → Bytes
      → Bytes
      → Bytes
      → Bytes
      → ℕ
      → ℕ
      → ℕ
      → Option (Reply × Reply)
  pass_boxed boxes boxes' init_channel resp_channel payload message_id envelopes decrypted drawn now
        now' =
      do
        (boxes, sent, _) ←
            send_boxed k p boxes init_channel (some payload) (length payload) (some message_id)
              (length message_id) (some envelopes) (some (length envelopes)) drawn
        _ ← assert_ok sent.code
        envelopes_len ← sent.out_len
        (boxes', received) ←
            receive_boxed k p now boxes' resp_channel sent.out envelopes_len 0 (some message_id)
              (length message_id) (some decrypted) (some (length decrypted))
        (boxes', again) ←
            receive_boxed k p now' boxes' resp_channel sent.out envelopes_len 0 (some message_id)
              (length message_id) received.out received.out_len
        some (received, again)

  -- what the receiver's buffer and its length hold at the end, with a code
  abbrev pub reply : Bytes → Bytes → ReturnCode → Reply
  reply decrypted payload code = record {
    handle = none;
    out = some (splice decrypted 0 payload);
    out_len = some (length payload);
    code = code;
  }

  pass_boxed-delivers :
      (boxes boxes' : Boxes k) (a a' : ℕ) (root : Bytes) (n_paths : ℕ)
      (payload message_id envelopes decrypted : Bytes) (drawn now now' : ℕ)
      → Primitives.IsSound p
      → length root ≡ 32
      → boxes.channels a ≡ some (Channel.new root n_paths)
      → boxes'.channels a' ≡ some (Channel.new root n_paths)
      → 0 < n_paths
      → n_paths ≤ max_n_paths
      → n_paths * envelope_total_len ≤ length envelopes
      → length payload ≤ length decrypted
      → length payload ≤ max_payload_size
      → length message_id ≤ max_message_id_len
      → pass_boxed boxes boxes'
          (some a)
          (some a')
          payload
          message_id
          envelopes
          decrypted
          drawn
          now
          now'
        ≡ some (
          reply decrypted payload ReturnCode.decoypath_ok,
          reply decrypted payload ReturnCode.decoypath_err_replayed_sequence,
        )
  unfolding pass_boxed Channel.new next_seq max_seq PathEngine.new
  pass_boxed-delivers boxes boxes' a a' root n_paths payload message_id envelopes decrypted drawn
        now now' sound size held held' lo hi room space fit short =
      let c = Channel.new root n_paths in
      let v = new-IsValid root n_paths in
      let id_len = length message_id in
      let wire_len = n_paths * envelope_total_len in
      let left = splice decrypted 0 payload in
      let (wire, _, d, sends, receives) =
        channel_receive-channel_send p (PathEngine.new root) c c 0 drawn now payload
          (length payload) message_id id_len envelopes (length envelopes) decrypted
          (length decrypted) sound size (new-SendsAt p root n_paths) v (new-Follows p root n_paths)
          refl (inl (omega arith, omega arith)) lo hi fit short room (omega arith) space in
      let sent =
        send_boxed-sent k p boxes a c (advance p c) payload message_id envelopes wire wire_len drawn
          _ ReturnCode.decoypath_ok held sends in
      let received =
        receive_boxed-received k p boxes' a' c d wire wire_len 0 now message_id decrypted
          (length decrypted) _ _ ReturnCode.decoypath_ok held' receives in
      let refuses =
        channel_receive-again p c d now now' 0 n_paths wire message_id id_len decrypted
          (length decrypted) _ _ left (length payload) v lo hi (omega arith) short receives in
      let again =
        receive_boxed-received k p (record boxes' { channels = set boxes'.channels a' (some d) }) a'
          d d wire wire_len 0 now' message_id left (length payload) _ _
          ReturnCode.decoypath_err_replayed_sequence (stored boxes'.channels a' d) refuses in
      let same = take_all (length payload) payload (omega arith) in
      rw (sent, received, same, again) refl

  -- the whole run, with the length of each buffer as the length that the caller states
  unfoldable pub exchange :
      Boxes k
      → Boxes k
      → Bytes
      → Bytes
      → Bytes
      → Option Bytes
      → ℕ
      → Buffers
      → Bytes
      → Bytes
      → ℕ
      → ℕ
      → ℕ
      → ℕ
      → Option (Reply × Reply)
  exchange boxes boxes' init_priv resp_priv resp_pub init_pub n_paths buffers payload message_id
        draw draw' now now' =
      do
        (boxes, boxes', init_channel, resp_channel, drawn) ←
            open_boxed k boxes boxes' init_priv resp_priv resp_pub init_pub n_paths
              buffers.init_payload buffers.resp_payload draw draw'
        pass_boxed boxes boxes' init_channel resp_channel payload message_id buffers.envelopes
            buffers.decrypted drawn now now'

  module _ (sound : Curves.IsSound k) (sound' : Primitives.IsSound p) where
    -- Two processes with any boxes, the responder expecting any initiator or this one, path counts
    -- from 1 to 64, buffers with room, and any payload and message ID within the limits:
    -- `decoypath_initiator_initiate`, `decoypath_responder_respond`, `decoypath_initiator_finalize`,
    -- `decoypath_channel_send` and `decoypath_channel_receive` all return `DECOYPATH_OK`, and the last
    -- leaves the payload and its length. Made again, it returns `DECOYPATH_ERR_REPLAYED_SEQUENCE` and
    -- leaves the buffer and the length as they are.
    pub exchange-delivers :
        (boxes boxes' : Boxes k) (init_priv resp_priv : Bytes) (who : Option k.VerifyingKey)
        (n_paths : ℕ) (buffers : Buffers) (payload message_id : Bytes) (draw draw' now now' : ℕ)
        → Permits k (k.verifying_key (k.signing_from_bytes (take 32 init_priv))) who
        → 0 < n_paths
        → n_paths ≤ max_n_paths
        → 144 ≤ length buffers.init_payload
        → 144 ≤ length buffers.resp_payload
        → n_paths * envelope_total_len ≤ length buffers.envelopes
        → length payload ≤ length buffers.decrypted
        → length payload ≤ max_payload_size
        → length message_id ≤ max_message_id_len
        → exchange boxes boxes' init_priv resp_priv
            (k.verifying_as_bytes (k.verifying_key (k.signing_from_bytes (take 32 resp_priv))))
            (key_bytes k who)
            n_paths
            buffers
            payload
            message_id
            draw
            draw'
            now
            now'
          ≡ some (
            reply buffers.decrypted payload ReturnCode.decoypath_ok,
            reply buffers.decrypted payload ReturnCode.decoypath_err_replayed_sequence,
          )
    unfolding exchange
    exchange-delivers boxes boxes' init_priv resp_priv who n_paths buffers payload message_id draw
          draw' now now' permits lo hi room room' room'' space fit short =
        let o =
          open_boxed-Opens k boxes boxes' init_priv resp_priv who n_paths buffers.init_payload
            buffers.resp_payload draw draw' sound permits lo hi room room' in
        rw (o.returns) (
          pass_boxed-delivers o.boxes o.boxes' o.init_channel o.resp_channel o.root.bytes n_paths
            payload message_id buffers.envelopes buffers.decrypted o.drawn now now' sound' o.size
            o.held o.held' lo hi room'' space fit short)
