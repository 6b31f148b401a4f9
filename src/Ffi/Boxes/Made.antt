-- ===== src/Ffi/Boxes/Made.antt =====
-- The boxes that src/ffi.rs makes, and the codes that go with them.
use null_path.Base.{
  ℕ, suc, ◌≡◌, ◌≢◌, ◌⊎◌, inl, inr, refl, ap, ◌∙◌, Option, none, some, arith, Result, ok, err, panic,
  Bool-cases, Option-cases, Result-cases, take, ltb, ◌==◌,
}
use null_path.Channel.{SecureChannel}
use null_path.Curves.{Curves}
use null_path.Errors.{HandshakeError}
use null_path.Ffi.Boxes.{
  Boxes, Reply, set, vacant, box_state, box_channel, initiate_boxed, respond_boxed,
}
use null_path.Ffi.Session.{
  Opened, bad_n_paths, initiate_checked, initiator_initiate, expected_key, write_response,
  respond_keyed, respond_checked, responder_respond,
}
use null_path.Ffi.{ReturnCode}
use null_path.Handshake.{InitiatorState}
use null_path.Primitives.{Bytes}
use null_path.Types.{
  RootKey, HandshakeResponsePayload, init_payload_len, resp_payload_len, init_from_bytes,
}

-- a function on values made something, or left the slot as it was
abbrev Makes : {Handle : Type 0} → Option (Option Handle) → Opened Handle → Type 0
Makes {Handle} slot o =
    ((o.code ≡ ReturnCode.decoypath_ok) × ((x : Handle) × (o.handle ≡ some (some x))))
    ⊎ ((o.code ≢ ReturnCode.decoypath_ok) × (o.handle ≡ slot))

-- what a call leaves that gives away a channel: with `DECOYPATH_OK` one box more, at an address that
-- was not given out, and the pointer to it; otherwise no box, and the pointer that stood there
pub data MakesChannel {k : Curves} (b : Boxes k) (slot : Option (Option ℕ))
    (r : Boxes k × Reply × ℕ) : Type 0 where
  made :
      r.1.code ≡ ReturnCode.decoypath_ok
      → (c : SecureChannel)
      → r.0 ≡ record b { next = suc b.next; channels = set b.channels b.next (some c) }
      → r.1.handle ≡ some (some b.next)
      → MakesChannel b slot r
  refused : r.1.code ≢ ReturnCode.decoypath_ok → r.0 ≡ b → r.1.handle ≡ slot → MakesChannel b slot r

-- the same of an initiator's state
pub data MakesState {k : Curves} (b : Boxes k) (slot : Option (Option ℕ)) (r : Boxes k × Reply × ℕ)
    : Type 0 where
  made :
      r.1.code ≡ ReturnCode.decoypath_ok
      → (state : InitiatorState k)
      → r.0 ≡ record b { next = suc b.next; states = set b.states b.next (some state) }
      → r.1.handle ≡ some (some b.next)
      → MakesState b slot r
  refused : r.1.code ≢ ReturnCode.decoypath_ok → r.0 ≡ b → r.1.handle ≡ slot → MakesState b slot r

module _ (k : Curves) where
  box_channel-vacant :
      (b : Boxes k) (slot : Option (Option ℕ)) → (box_channel k b (vacant slot) slot).0 ≡ b
  unfolding box_channel
  box_channel-vacant b none = refl
  box_channel-vacant b (some held) = refl

  box_channel-slot :
      (b : Boxes k) (slot : Option (Option ℕ)) → (box_channel k b (vacant slot) slot).1 ≡ slot
  unfolding box_channel
  box_channel-slot b none = refl
  box_channel-slot b (some held) = refl

  box_state-vacant :
      (b : Boxes k) (slot : Option (Option ℕ)) → (box_state k b (vacant slot) slot).0 ≡ b
  unfolding box_state
  box_state-vacant b none = refl
  box_state-vacant b (some held) = refl

  box_state-slot :
      (b : Boxes k) (slot : Option (Option ℕ)) → (box_state k b (vacant slot) slot).1 ≡ slot
  unfolding box_state
  box_state-slot b none = refl
  box_state-slot b (some held) = refl

  initiate_checked-Makes :
      (priv peer : Bytes) (held : Option (InitiatorState k)) (out : Bytes) (out_len draw : ℕ)
      → Makes (some held) (initiate_checked k priv peer held out out_len draw).0
  unfolding initiate_checked
  initiate_checked-Makes priv peer held out out_len draw =
      elim (Bool-cases (ltb out_len init_payload_len)) [
        | inl small ↦ rw small (inr ((λ e. grind arith), refl))
        | inr room ↦ elim (Option-cases (k.verifying_from_bytes (take 32 peer))) [
          | inl bad ↦ rw (room, bad) (inr ((λ e. grind arith), refl))
          | inr (v, good) ↦ rw (room, good) (inl (refl, (_, refl)))
        ]
      ]

  initiator_initiate-Makes :
      (priv peer : Option Bytes) (slot : Option (Option (InitiatorState k))) (out : Option Bytes)
      (out_len : Option ℕ) (draw : ℕ)
      → Makes slot (initiator_initiate k priv peer slot out out_len draw).0
  unfolding initiator_initiate
  initiator_initiate-Makes (some priv) (some peer) (some held) (some out) (some len) draw =
      initiate_checked-Makes priv peer held out len draw
  initiator_initiate-Makes none peer slot out len draw = inr ((λ e. grind arith), refl)
  initiator_initiate-Makes (some priv) none slot out len draw = inr ((λ e. grind arith), refl)
  initiator_initiate-Makes (some priv) (some peer) none out len draw =
      inr ((λ e. grind arith), refl)
  initiator_initiate-Makes (some priv) (some peer) (some held) none len draw =
      inr ((λ e. grind arith), refl)
  initiator_initiate-Makes (some priv) (some peer) (some held) (some out) none draw =
      inr ((λ e. grind arith), refl)

  write_response-Makes :
      (r : Result HandshakeError (HandshakeResponsePayload k × RootKey))
      (held : Option SecureChannel) (out : Bytes) (out_len n_paths : ℕ)
      → Makes (some held) (write_response k r held out out_len n_paths)
  unfolding write_response
  write_response-Makes (ok (response, root)) held out out_len n_paths = inl (refl, (_, refl))
  write_response-Makes (err e) held out out_len n_paths = inr ((λ e. grind arith), refl)
  write_response-Makes panic held out out_len n_paths = inr ((λ e. grind arith), refl)

  expected_key-error :
      (who : Option Bytes) (code : ReturnCode)
      → expected_key k who ≡ err code
      → code ≢ ReturnCode.decoypath_ok
  unfolding expected_key
  expected_key-error none code h = λ e. grind arith
  expected_key-error (some bytes) code h = λ e. ground arith

  respond_keyed-Makes :
      (priv : Bytes) (who : Option Bytes) (init out : Bytes) (out_len : ℕ)
      (held : Option SecureChannel) (n_paths draw : ℕ)
      → Makes (some held) (respond_keyed k priv who init out out_len held n_paths draw).0
  unfolding respond_keyed
  respond_keyed-Makes priv who init out out_len held n_paths draw =
      elim (Result-cases (expected_key k who)) [
        | inr (inl (code, h)) ↦ rw (h, respond_keyed) (inr (expected_key-error who code h, refl))
        | inr (inr h) ↦ rw (h, respond_keyed) (inr ((λ e. grind arith), refl))
        | inl (key, h) ↦ elim (Result-cases (init_from_bytes k (take init_payload_len init))) [
          | inr (inl (e, h')) ↦ rw (h, respond_keyed, h') (inr ((λ e. grind arith), refl))
          | inr (inr h') ↦ rw (h, respond_keyed, h') (inr ((λ e. grind arith), refl))
          | inl (initiation, h') ↦
              rw (h, respond_keyed, h') (write_response-Makes _ held out out_len n_paths)
        ]
      ]

  respond_checked-Makes :
      (priv : Bytes) (who : Option Bytes) (init : Bytes) (init_len : ℕ) (out : Bytes) (out_len : ℕ)
      (held : Option SecureChannel) (n_paths draw : ℕ)
      → Makes (some held) (respond_checked k priv who init init_len out out_len held n_paths draw).0
  unfolding respond_checked
  respond_checked-Makes priv who init init_len out out_len held n_paths draw =
      elim (Bool-cases (init_len == init_payload_len)) [
        | inr odd ↦ rw (odd, respond_checked) (inr ((λ e. grind arith), refl))
        | inl fits ↦ elim (Bool-cases (ltb out_len resp_payload_len)) [
          | inl small ↦ rw (fits, small, respond_checked) (inr ((λ e. grind arith), refl))
          | inr room ↦ elim (Bool-cases (bad_n_paths n_paths)) [
            | inl bad ↦ rw (fits, room, bad, respond_checked) (inr ((λ e. grind arith), refl))
            | inr good ↦
                rw (fits, room, good, respond_checked)
                  (respond_keyed-Makes priv who init out out_len held n_paths draw)
          ]
        ]
      ]

  responder_respond-Makes :
      (priv who init : Option Bytes) (init_len : ℕ) (out : Option Bytes) (out_len : Option ℕ)
      (slot : Option (Option SecureChannel)) (n_paths draw : ℕ)
      → Makes slot (responder_respond k priv who init init_len out out_len slot n_paths draw).0
  unfolding responder_respond
  responder_respond-Makes (some priv) who (some init) init_len (some out) (some len) (some held)
        n_paths draw =
      respond_checked-Makes priv who init init_len out len held n_paths draw
  responder_respond-Makes none who init init_len out len slot n_paths draw =
      inr ((λ e. grind arith), refl)
  responder_respond-Makes (some priv) who none init_len out len slot n_paths draw =
      inr ((λ e. grind arith), refl)
  responder_respond-Makes (some priv) who (some init) init_len none len slot n_paths draw =
      inr ((λ e. grind arith), refl)
  responder_respond-Makes (some priv) who (some init) init_len (some out) none slot n_paths draw =
      inr ((λ e. grind arith), refl)
  responder_respond-Makes (some priv) who (some init) init_len (some out) (some len) none n_paths
        draw =
      inr ((λ e. grind arith), refl)

  -- `decoypath_responder_respond` with any arguments, on any boxes: with `DECOYPATH_OK` it has made
  -- one box, of a channel, at an address that was not given out, and left the pointer to it; with any
  -- other code it has made none, and left the pointer that stood there.
  pub respond_boxed-MakesChannel :
      (b : Boxes k) (priv who init : Option Bytes) (init_len : ℕ) (out : Option Bytes)
      (out_len : Option ℕ) (slot : Option (Option ℕ)) (n_paths draw : ℕ)
      → MakesChannel b slot (respond_boxed k b priv who init init_len out out_len slot n_paths draw)
  unfolding respond_boxed box_channel
  respond_boxed-MakesChannel b priv who init init_len out out_len slot n_paths draw =
      elim (responder_respond-Makes priv who init init_len out out_len (vacant slot) n_paths draw) [
        | inl (done, (c, h)) ↦ MakesChannel.made done c (rw h refl) (rw h refl)
        | inr (other, same) ↦
            MakesChannel.refused other
              (ap (λ h. (box_channel k b h slot).0) same ∙ box_channel-vacant b slot)
              (ap (λ h. (box_channel k b h slot).1) same ∙ box_channel-slot b slot)
      ]

  -- `decoypath_initiator_initiate` with any arguments, on any boxes: with `DECOYPATH_OK` it has made
  -- one box, of a state, at an address that was not given out, and left the pointer to it; with any
  -- other code it has made none, and left the pointer that stood there.
  pub initiate_boxed-MakesState :
      (b : Boxes k) (priv peer : Option Bytes) (slot : Option (Option ℕ)) (out : Option Bytes)
      (out_len : Option ℕ) (draw : ℕ)
      → MakesState b slot (initiate_boxed k b priv peer slot out out_len draw)
  unfolding initiate_boxed box_state
  initiate_boxed-MakesState b priv peer slot out out_len draw =
      elim (initiator_initiate-Makes priv peer (vacant slot) out out_len draw) [
        | inl (done, (state, h)) ↦ MakesState.made done state (rw h refl) (rw h refl)
        | inr (other, same) ↦
            MakesState.refused other
              (ap (λ h. (box_state k b h slot).0) same ∙ box_state-vacant b slot)
              (ap (λ h. (box_state k b h slot).1) same ∙ box_state-slot b slot)
      ]
