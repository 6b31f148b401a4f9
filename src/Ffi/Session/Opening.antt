-- ===== src/Ffi/Session/Opening.antt =====
-- A handshake through the C boundary of src/ffi.rs, from buffer to buffer.
use null_path.Base.{
  ℕ, ◌+◌, ◌≤◌, ◌<◌, ◌≡◌, refl, ap, ◌∙◌, false, Option, none, some, arith, ok, length, take, splice,
  take_all, take-splice, le→ltb,
}
use null_path.Channel
use null_path.Channel.{SecureChannel}
use null_path.Crypto.{generate, generate_nonce}
use null_path.Curves.{Curves, IsSound}
use null_path.Ffi.Session.{
  Opened, bad_n_paths, initiate_checked, initiator_initiate, expected_key, write_response,
  respond_keyed, respond_checked, responder_respond, finalize_owned, initiator_finalize,
}
use null_path.Ffi.{ReturnCode, max_n_paths}
use null_path.Handshake.Agreement.{Permits, finalize-length, finalize-respond}
use null_path.Handshake.{InitiatorState, initiate, respond, finalize}
use null_path.Primitives.{Bytes}
use null_path.Types.Wire.{
  length-init_to_bytes, length-response_to_bytes, init_from_bytes-init_to_bytes,
  response_from_bytes-response_to_bytes,
}
use null_path.Types.{
  RootKey, HandshakeInitPayload, HandshakeResponsePayload, init_to_bytes, response_to_bytes,
}

-- the results of a call that succeeds
abbrev pub opened : {Handle : Type 0} → Handle → Bytes → Opened Handle
opened handle out = record {
  handle = some (some handle);
  out = some out;
  out_len = some 144;
  code = ReturnCode.decoypath_ok;
}

-- a buffer with room for a payload, of which the caller states the length
pub record HasRoom (out : Bytes) (out_len : ℕ) : Type 0 where
  pub enough : 144 ≤ out_len
  pub within : out_len ≤ length out

take-written :
    (out : Bytes) (out_len : ℕ) (payload : Bytes)
    → HasRoom out out_len
    → length payload ≡ 144
    → take 144 (splice out 0 payload) ≡ payload
unfolding take
take-written out out_len payload room size =
    take-splice out 0 payload 144 (omega arith) (omega arith)

good_n_paths : (n : ℕ) → 0 < n → n ≤ max_n_paths → bad_n_paths n ≡ false
good_n_paths n h h' = ground arith

module _ (k : Curves) where
  abbrev pub key_bytes : Option k.VerifyingKey → Option Bytes
  key_bytes none = none
  key_bytes (some v) = some (k.verifying_as_bytes v)

  -- the state and the payload of `initiate` with the key of these bytes
  abbrev pub started : Bytes → k.VerifyingKey → ℕ → InitiatorState k × HandshakeInitPayload k × ℕ
  started init_priv v draw = initiate k (k.signing_from_bytes (take 32 init_priv)) v draw

  module _ (sound : IsSound k) where
    take-as_bytes :
        (v : k.VerifyingKey) → k.verifying_from_bytes (take 32 (k.verifying_as_bytes v)) ≡ some v
    take-as_bytes v =
        ap k.verifying_from_bytes
          (take_all 32 (k.verifying_as_bytes v) (omega (arith, sound.length-verifying_as_bytes v)))
        ∙ sound.verifying_from-as v

    expected_key-bytes : (who : Option k.VerifyingKey) → expected_key k (key_bytes who) ≡ ok who
    unfolding expected_key
    expected_key-bytes none = refl
    expected_key-bytes (some v) = rw (take-as_bytes v) refl

    started-nonce :
        (init_priv : Bytes) (v : k.VerifyingKey) (draw : ℕ)
        → length (started init_priv v draw).1.nonce ≡ 16
    unfolding initiate generate generate_nonce
    started-nonce init_priv v draw = sound.length-fill_bytes (draw + 1) 16

    initiate-opens :
        (init_priv : Bytes) (v : k.VerifyingKey) (handle : Option (InitiatorState k)) (out : Bytes)
        (out_len draw : ℕ)
        → HasRoom out out_len
        → (initiator_initiate k
            (some init_priv)
            (some (k.verifying_as_bytes v))
            (some handle)
            (some out)
            (some out_len)
            draw).0
          ≡ opened
              (started init_priv v draw).0
              (splice out 0 (init_to_bytes k (started init_priv v draw).1))
    unfolding initiator_initiate initiate_checked
    initiate-opens init_priv v handle out out_len draw room =
        rw (le→ltb out_len 144 room.enough, take-as_bytes v) refl

    respond_keyed-opens :
        (resp_priv : Bytes) (who : Option k.VerifyingKey) (p : HandshakeInitPayload k)
        (sent : Bytes) (handle : Option SecureChannel) (out : Bytes) (out_len n_paths draw : ℕ)
        (response : HandshakeResponsePayload k) (root : RootKey)
        → take 144 sent ≡ init_to_bytes k p
        → length p.nonce ≡ 16
        → (respond k (k.signing_from_bytes (take 32 resp_priv)) who p draw).0 ≡ ok (response, root)
        → (respond_keyed k resp_priv (key_bytes who) sent out out_len handle n_paths draw).0
          ≡ opened (Channel.new root.bytes n_paths) (splice out 0 (response_to_bytes k response))
    unfolding respond_keyed write_response
    respond_keyed-opens resp_priv who p sent handle out out_len n_paths draw response root same size
          answered =
        rw
          (
            expected_key-bytes who,
            same,
            init_from_bytes-init_to_bytes k sound p size,
            answered,
            respond_keyed,
          )
          refl

    respond-opens :
        (resp_priv : Bytes) (who : Option k.VerifyingKey) (p : HandshakeInitPayload k)
        (sent : Bytes) (handle : Option SecureChannel) (out : Bytes) (out_len n_paths draw : ℕ)
        (response : HandshakeResponsePayload k) (root : RootKey)
        → take 144 sent ≡ init_to_bytes k p
        → length p.nonce ≡ 16
        → (respond k (k.signing_from_bytes (take 32 resp_priv)) who p draw).0 ≡ ok (response, root)
        → HasRoom out out_len
        → 0 < n_paths
        → n_paths ≤ max_n_paths
        → (responder_respond k
            (some resp_priv)
            (key_bytes who)
            (some sent)
            144
            (some out)
            (some out_len)
            (some handle)
            n_paths
            draw).0
          ≡ opened (Channel.new root.bytes n_paths) (splice out 0 (response_to_bytes k response))
    unfolding responder_respond respond_checked
    respond-opens resp_priv who p sent handle out out_len n_paths draw response root same size
          answered room lo hi =
        rw (le→ltb out_len 144 room.enough, good_n_paths n_paths lo hi)
          (respond_keyed-opens resp_priv who p sent handle out out_len n_paths draw response root
            same size answered)

    finalize-opens :
        (state : InitiatorState k) (response : HandshakeResponsePayload k) (received : Bytes)
        (handle : Option SecureChannel) (n_paths : ℕ) (root : RootKey)
        → take 144 received ≡ response_to_bytes k response
        → length response.nonce ≡ 16
        → finalize k state response ≡ ok root
        → 0 < n_paths
        → n_paths ≤ max_n_paths
        → initiator_finalize k (some state) (some received) 144 (some handle) n_paths
          ≡ (none, some (some (Channel.new root.bytes n_paths)), ReturnCode.decoypath_ok)
    unfolding initiator_finalize finalize_owned
    finalize-opens state response received handle n_paths root same size done lo hi =
        rw
          (
            good_n_paths n_paths lo hi,
            same,
            response_from_bytes-response_to_bytes k sound response size,
            done,
          )
          refl

    -- Through the C functions, with buffers that have room, path counts from 1 to 64, the bytes of
    -- the responder's key on one side, and of the initiator's key or a null pointer on the other:
    -- `decoypath_initiator_initiate`, then `decoypath_responder_respond` on the buffer that it wrote,
    -- then `decoypath_initiator_finalize` on the buffer that this wrote, return `DECOYPATH_OK`. Both
    -- channels are new ones from the same root key, of 32 bytes, and the initiator's state has been
    -- freed.
    pub handshake_opens :
        (init_priv resp_priv : Bytes) (who : Option k.VerifyingKey)
        (draw draw' n_paths n_paths' : ℕ) (state_handle : Option (InitiatorState k))
        (handle handle' : Option SecureChannel) (out out' : Bytes) (out_len out_len' : ℕ)
        → Permits k (k.verifying_key (k.signing_from_bytes (take 32 init_priv))) who
        → HasRoom out out_len
        → HasRoom out' out_len'
        → 0 < n_paths
        → n_paths ≤ max_n_paths
        → 0 < n_paths'
        → n_paths' ≤ max_n_paths
        → (state : InitiatorState k) × (sent : Bytes) × (received : Bytes) × (root : RootKey)
          × ((initiator_initiate k
                (some init_priv)
                (some (
                  k.verifying_as_bytes
                    (k.verifying_key (k.signing_from_bytes (take 32 resp_priv)))))
                (some state_handle)
                (some out)
                (some out_len)
                draw).0
              ≡ opened state sent)
          × ((responder_respond k
                (some resp_priv)
                (key_bytes who)
                (some sent)
                144
                (some out')
                (some out_len')
                (some handle)
                n_paths
                draw').0
              ≡ opened (Channel.new root.bytes n_paths) received)
          × (initiator_finalize k (some state) (some received) 144 (some handle') n_paths'
              ≡ (none, some (some (Channel.new root.bytes n_paths')), ReturnCode.decoypath_ok))
          × (length root.bytes ≡ 32)
    handshake_opens init_priv resp_priv who draw draw' n_paths n_paths' state_handle handle handle'
          out out' out_len out_len' permits room room' lo hi lo' hi' =
        let a = k.signing_from_bytes (take 32 init_priv) in
        let b = k.signing_from_bytes (take 32 resp_priv) in
        let v = k.verifying_key b in
        let (state, p, drawn) = started init_priv v draw in
        let nonce = started-nonce init_priv v draw in
        let (response, root, answered, done, size) =
          finalize-respond k sound a b who draw draw' permits in
        let sent = splice out 0 (init_to_bytes k p) in
        let received = splice out' 0 (response_to_bytes k response) in
        (
          state,
          sent,
          received,
          root,
          initiate-opens init_priv v state_handle out out_len draw room,
          respond-opens resp_priv who p sent handle out' out_len' n_paths draw' response root
              (take-written out out_len (init_to_bytes k p) room
                (length-init_to_bytes k sound p nonce))
              nonce answered room' lo hi,
          finalize-opens state response received handle' n_paths' root
              (take-written out' out_len' (response_to_bytes k response) room'
                (length-response_to_bytes k sound response size))
              size done lo' hi',
          finalize-length k sound state response root done,
        )
