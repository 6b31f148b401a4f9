-- ===== src/Ffi/Boxes.antt =====
-- src/ffi.rs with its opaque pointers: the boxes that `Box::into_raw` gives away and `Box::from_raw`
-- takes back. A pointer is `none` when null. Every function wants a pointer that is not null to point
-- to a box; a call that breaks this is `none`, also where the code would return before it reads the
-- box. A pointer stands for the box that it was made with, and not for the number of its address: the
-- store stands for the allocator, and numbers the boxes in the order in which they are made and uses
-- no number twice, though `Box` may put a new box at the address of a freed one. The functions on values
-- are those of Ffi and Ffi/Session.
pub mod Ownership
pub mod Effects
pub mod Calls
pub mod Made
pub mod Keypair
pub mod Succeeds
pub mod Opens
pub mod Exchange
use null_path.Base.{ℕ, suc, ◌+◌, Option, none, some, ◌==◌, if◌then◌else◌}
use null_path.Channel.{SecureChannel}
use null_path.Curves.{Curves}
use null_path.Ffi.Session.{initiator_initiate, responder_respond, initiator_finalize}
use null_path.Ffi.{ReturnCode, channel_send, channel_receive}
use null_path.Handshake.{InitiatorState}
use null_path.Primitives.{Bytes, Primitives}

-- the boxes that live, behind `DecoypathInitiatorState` and `DecoypathChannel`
pub record Boxes (k : Curves) : Type 0 where
  pub next : ℕ
  pub states : ℕ → Option (InitiatorState k)
  pub channels : ℕ → Option SecureChannel

-- one address overwritten
abbrev pub set {ℓ} : {A : Type ℓ} → (ℕ → Option A) → ℕ → Option A → ℕ → Option A
set f a v b = if a == b then v else f b

-- an opaque pointer behind another pointer, before anything is written to it
abbrev pub vacant {ℓ} : {A : Type ℓ} → Option (Option ℕ) → Option (Option A)
vacant none = none
vacant (some _) = some none

-- what a call leaves in the memory of its caller, and its code
pub record Reply : Type 0 where
  pub handle : Option (Option ℕ)
  pub out : Option Bytes
  pub out_len : Option ℕ
  pub code : ReturnCode

module _ (k : Curves) where
  -- `*out_state = Box::into_raw(Box::new(state))`, if a state was made
  unfoldable pub box_state :
      Boxes k → Option (Option (InitiatorState k)) → Option (Option ℕ) → Boxes k × Option (Option ℕ)
  box_state b (some (some state)) slot = (
    record b { next = suc b.next; states = set b.states b.next (some state) },
    some (some b.next),
  )
  box_state b _ slot = (b, slot)

  -- `*out_channel = Box::into_raw(Box::new(channel))`, if a channel was made
  unfoldable pub box_channel :
      Boxes k → Option (Option SecureChannel) → Option (Option ℕ) → Boxes k × Option (Option ℕ)
  box_channel b (some (some channel)) slot = (
    record b { next = suc b.next; channels = set b.channels b.next (some channel) },
    some (some b.next),
  )
  box_channel b _ slot = (b, slot)

  unfoldable pub initiate_boxed :
      Boxes k
      → Option Bytes
      → Option Bytes
      → Option (Option ℕ)
      → Option Bytes
      → Option ℕ
      → ℕ
      → Boxes k × Reply × ℕ
  initiate_boxed b init_priv resp_pub out_state out out_len draw =
      let (o, draw') =
        initiator_initiate k init_priv resp_pub (vacant out_state) out out_len draw in
      let (b', slot) = box_state b o.handle out_state in
      (b', record { handle = slot; out = o.out; out_len = o.out_len; code = o.code }, draw')

  unfoldable pub respond_boxed :
      Boxes k
      → Option Bytes
      → Option Bytes
      → Option Bytes
      → ℕ
      → Option Bytes
      → Option ℕ
      → Option (Option ℕ)
      → ℕ
      → ℕ
      → Boxes k × Reply × ℕ
  respond_boxed b resp_priv expected_init_pub init_payload init_len out out_len out_channel n_paths
        draw =
      let (o, draw') =
        responder_respond k resp_priv expected_init_pub init_payload init_len out out_len
          (vacant out_channel) n_paths draw in
      let (b', slot) = box_channel b o.handle out_channel in
      (b', record { handle = slot; out = o.out; out_len = o.out_len; code = o.code }, draw')

  -- the box of the state is taken behind the null checks, and freed on every way out
  unfoldable pub finalize_boxed :
      Boxes k
      → Option ℕ
      → Option Bytes
      → ℕ
      → Option (Option ℕ)
      → ℕ
      → Option (Boxes k × Option (Option ℕ) × ReturnCode)
  finalize_boxed b (some a) (some resp_payload) resp_len (some held) n_paths = elim (b.states a) [
    | none ↦ none
    | some state ↦
        let (_, channel, code) =
          initiator_finalize k (some state) (some resp_payload) resp_len (some none) n_paths in
        let (b', slot) =
          box_channel (record b { states = set b.states a none }) channel (some held) in
        some (b', slot, code)
  ]
  finalize_boxed b state resp_payload resp_len out_channel n_paths =
      some (b, out_channel, ReturnCode.decoypath_err_null_pointer)

  unfoldable pub state_free : Boxes k → Option ℕ → Option (Boxes k)
  state_free b none = some b
  state_free b (some a) = elim (b.states a) [
    | none ↦ none
    | some _ ↦ some (record b { states = set b.states a none })
  ]

  unfoldable pub channel_free : Boxes k → Option ℕ → Option (Boxes k)
  channel_free b none = some b
  channel_free b (some a) = elim (b.channels a) [
    | none ↦ none
    | some _ ↦ some (record b { channels = set b.channels a none })
  ]

  module _ (p : Primitives) where
    unfoldable pub send_boxed :
        Boxes k
        → Option ℕ
        → Option Bytes
        → ℕ
        → Option Bytes
        → ℕ
        → Option Bytes
        → Option ℕ
        → ℕ
        → Option (Boxes k × Reply × ℕ)
    send_boxed b (some a) (some payload) payload_len (some message_id) message_id_len (some out)
          (some out_len) draw =
        elim (b.channels a) [
          | none ↦ none
          | some c ↦
              let (o, draw') =
                channel_send p (some c) (some payload) payload_len (some message_id) message_id_len
                  (some out) (some out_len) draw in
              some (
                record b { channels = set b.channels a o.channel },
                record { handle = none; out = o.out; out_len = o.out_len; code = o.code },
                draw',
              )
        ]
    send_boxed b channel payload payload_len message_id message_id_len out out_len draw = some (
      b,
      record {
        handle = none;
        out = out;
        out_len = out_len;
        code = ReturnCode.decoypath_err_null_pointer;
      },
      draw,
    )

    unfoldable pub receive_boxed :
        ℕ
        → Boxes k
        → Option ℕ
        → Option Bytes
        → ℕ
        → ℕ
        → Option Bytes
        → ℕ
        → Option Bytes
        → Option ℕ
        → Option (Boxes k × Reply)
    receive_boxed now b (some a) (some envelopes) envelopes_len seq (some message_id) message_id_len
          (some out) (some out_len) =
        elim (b.channels a) [
          | none ↦ none
          | some c ↦
              let o =
                channel_receive p now (some c) (some envelopes) envelopes_len seq (some message_id)
                  message_id_len (some out) (some out_len) in
              some (
                record b { channels = set b.channels a o.channel },
                record { handle = none; out = o.out; out_len = o.out_len; code = o.code },
              )
        ]
    receive_boxed now b channel envelopes envelopes_len seq message_id message_id_len out out_len =
        some (
          b,
          record {
            handle = none;
            out = out;
            out_len = out_len;
            code = ReturnCode.decoypath_err_null_pointer;
          },
        )
