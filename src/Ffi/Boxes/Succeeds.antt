-- ===== src/Ffi/Boxes/Succeeds.antt =====
-- What a call of src/ffi.rs leaves among the boxes when the call on values succeeds.
use null_path.Base.{ℕ, suc, ◌≡◌, refl, ==_iff, Option, none, some, length}
use null_path.Channel.{SecureChannel}
use null_path.Curves.{Curves}
use null_path.Ffi.Boxes.{
  Boxes, set, box_state, box_channel, initiate_boxed, respond_boxed, finalize_boxed, send_boxed,
  receive_boxed,
}
use null_path.Ffi.Session.Opening.{opened}
use null_path.Ffi.Session.{initiator_initiate, responder_respond, initiator_finalize}
use null_path.Ffi.{ReturnCode, outcome, channel_send, channel_receive}
use null_path.Handshake.{InitiatorState}
use null_path.Primitives.{Bytes, Primitives}

-- what was written to an address stands there
pub stored {ℓ} : {A : Type ℓ} (f : ℕ → Option A) (a : ℕ) (x : A) → set f a (some x) a ≡ some x
stored f a x = rw ((==_iff a a).1 refl) refl

module _ (k : Curves) where
  pub initiate_boxed-opened :
      (b : Boxes k) (init_priv resp_pub out : Bytes) (out_len draw : ℕ) (state : InitiatorState k)
      (sent : Bytes)
      → (initiator_initiate k
          (some init_priv)
          (some resp_pub)
          (some none)
          (some out)
          (some out_len)
          draw).0
        ≡ opened state sent
      → (draw' : ℕ) × (initiate_boxed k b
            (some init_priv)
            (some resp_pub)
            (some none)
            (some out)
            (some out_len)
            draw
          ≡ (
            record b { next = suc b.next; states = set b.states b.next (some state) },
            record {
              handle = some (some b.next);
              out = some sent;
              out_len = some 144;
              code = ReturnCode.decoypath_ok;
            },
            draw',
          ))
  unfolding initiate_boxed box_state
  initiate_boxed-opened b init_priv resp_pub out out_len draw state sent h = (
    (initiator_initiate k (some init_priv) (some resp_pub) (some none) (some out) (some out_len)
        draw).1,
    rw h refl,
  )

  pub respond_boxed-opened :
      (b : Boxes k) (resp_priv : Bytes) (init_pub : Option Bytes) (sent out : Bytes)
      (out_len n_paths draw : ℕ) (c : SecureChannel) (received : Bytes)
      → (responder_respond k
          (some resp_priv)
          init_pub
          (some sent)
          144
          (some out)
          (some out_len)
          (some none)
          n_paths
          draw).0
        ≡ opened c received
      → (draw' : ℕ) × (respond_boxed k b
            (some resp_priv)
            init_pub
            (some sent)
            144
            (some out)
            (some out_len)
            (some none)
            n_paths
            draw
          ≡ (
            record b { next = suc b.next; channels = set b.channels b.next (some c) },
            record {
              handle = some (some b.next);
              out = some received;
              out_len = some 144;
              code = ReturnCode.decoypath_ok;
            },
            draw',
          ))
  unfolding respond_boxed box_channel
  respond_boxed-opened b resp_priv init_pub sent out out_len n_paths draw c received h = (
    (responder_respond k (some resp_priv) init_pub (some sent) 144 (some out) (some out_len)
        (some none) n_paths draw).1,
    rw h refl,
  )

  pub finalize_boxed-opened :
      (b : Boxes k) (a : ℕ) (state : InitiatorState k) (received : Bytes) (n_paths : ℕ)
      (c : SecureChannel)
      → b.states a ≡ some state
      → initiator_finalize k (some state) (some received) 144 (some none) n_paths
        ≡ (none, some (some c), ReturnCode.decoypath_ok)
      → finalize_boxed k b (some a) (some received) 144 (some none) n_paths
        ≡ some (
          record b {
            next = suc b.next;
            states = set b.states a none;
            channels = set b.channels b.next (some c);
          },
          some (some b.next),
          ReturnCode.decoypath_ok,
        )
  unfolding finalize_boxed box_channel
  finalize_boxed-opened b a state received n_paths c held h = rw (held, finalize_boxed, h) refl

module _ (k : Curves) (p : Primitives) where
  pub send_boxed-sent :
      (b : Boxes k) (a : ℕ) (c c' : SecureChannel) (payload message_id out sent : Bytes)
      (len draw draw' : ℕ) (code : ReturnCode)
      → b.channels a ≡ some c
      → channel_send p
          (some c)
          (some payload)
          (length payload)
          (some message_id)
          (length message_id)
          (some out)
          (some (length out))
          draw
        ≡ (outcome c' (sent, len, code), draw')
      → send_boxed k p b
          (some a)
          (some payload)
          (length payload)
          (some message_id)
          (length message_id)
          (some out)
          (some (length out))
          draw
        ≡ some (
          record b { channels = set b.channels a (some c') },
          record { handle = none; out = some sent; out_len = some len; code = code },
          draw',
        )
  unfolding send_boxed
  send_boxed-sent b a c c' payload message_id out sent len draw draw' code held h =
      rw (held, send_boxed, h) refl

  pub receive_boxed-received :
      (b : Boxes k) (a : ℕ) (c c' : SecureChannel) (sent : Bytes) (sent_len seq now : ℕ)
      (message_id out : Bytes) (out_len : ℕ) (written : Bytes) (len : ℕ) (code : ReturnCode)
      → b.channels a ≡ some c
      → channel_receive p now
          (some c)
          (some sent)
          sent_len
          seq
          (some message_id)
          (length message_id)
          (some out)
          (some out_len)
        ≡ outcome c' (written, len, code)
      → receive_boxed k p now b
          (some a)
          (some sent)
          sent_len
          seq
          (some message_id)
          (length message_id)
          (some out)
          (some out_len)
        ≡ some (
          record b { channels = set b.channels a (some c') },
          record { handle = none; out = some written; out_len = some len; code = code },
        )
  unfolding receive_boxed
  receive_boxed-received b a c c' sent sent_len seq now message_id out out_len written len code held
        h =
      rw (held, receive_boxed, h) refl
