-- ===== src/Ffi/Session.antt =====
-- src/ffi.rs: `decoypath_initiator_initiate`, `decoypath_responder_respond` and
-- `decoypath_initiator_finalize`. A pointer to a pointer is `none` when null, and otherwise holds the
-- pointer that it points to. A box that was taken and freed is `none` after the call.
pub mod Opening
use null_path.Base.{
  ℕ, Bool, ◌||◌, Option, none, some, Result, ok, err, panic, length, slice, splice, take, ltb, not,
  ◌==◌, if◌then◌else◌,
}
use null_path.Channel
use null_path.Channel.{SecureChannel}
use null_path.Curves.{Curves}
use null_path.Errors.{HandshakeError}
use null_path.Ffi.{ReturnCode, max_n_paths}
use null_path.Handshake.{InitiatorState, initiate, finalize, respond}
use null_path.Primitives.{Bytes}
use null_path.Types.{
  RootKey, HandshakeInitPayload, HandshakeResponsePayload, init_to_bytes, init_from_bytes,
  response_to_bytes, response_from_bytes, init_payload_len, resp_payload_len,
}

-- what the pointers to the results hold after a call, and the code
pub record Opened (Handle : Type 0) : Type 0 where
  pub handle : Option (Option Handle)
  pub out : Option Bytes
  pub out_len : Option ℕ
  pub code : ReturnCode

-- a return with an error, and nothing but the length written
abbrev pub failed : {Handle : Type 0} → Option Handle → Bytes → ℕ → ReturnCode → Opened Handle
failed handle out out_len code = record {
  handle = some handle;
  out = some out;
  out_len = some out_len;
  code = code;
}

-- `n_paths == 0 || n_paths > MAX_N_PATHS`
abbrev pub bad_n_paths : ℕ → Bool
bad_n_paths n_paths = (n_paths == 0) || ltb max_n_paths n_paths

module _ (k : Curves) where
  -- behind the null checks
  unfoldable pub initiate_checked :
      Bytes → Bytes → Option (InitiatorState k) → Bytes → ℕ → ℕ → Opened (InitiatorState k) × ℕ
  initiate_checked init_priv resp_pub out_state out out_len draw =
      if ltb out_len init_payload_len
      then (failed out_state out init_payload_len ReturnCode.decoypath_err_buffer_too_small, draw)
      else elim (k.verifying_from_bytes (take 32 resp_pub)) [
        | none ↦ (failed out_state out out_len ReturnCode.decoypath_err_invalid_payload, draw)
        | some pub_key ↦
            let priv_key = k.signing_from_bytes (take 32 init_priv) in
            let (state, payload, draw') = initiate k priv_key pub_key draw in
            (
              record {
                handle = some (some state);
                out = some (splice out 0 (init_to_bytes k payload));
                out_len = some init_payload_len;
                code = ReturnCode.decoypath_ok;
              },
              draw',
            )
      ]

  unfoldable pub initiator_initiate :
      Option Bytes
      → Option Bytes
      → Option (Option (InitiatorState k))
      → Option Bytes
      → Option ℕ
      → ℕ
      → Opened (InitiatorState k) × ℕ
  initiator_initiate (some init_priv) (some resp_pub) (some out_state) (some out) (some out_len)
        draw =
      initiate_checked init_priv resp_pub out_state out out_len draw
  initiator_initiate init_priv resp_pub out_state out out_len draw = (
    record {
      handle = out_state;
      out = out;
      out_len = out_len;
      code = ReturnCode.decoypath_err_null_pointer;
    },
    draw,
  )

  -- the key of the initiator, if one is expected
  unfoldable pub expected_key : Option Bytes → Result ReturnCode (Option k.VerifyingKey)
  expected_key none = ok none
  expected_key (some bytes) = elim (k.verifying_from_bytes (take 32 bytes)) [
    | some pub_key ↦ ok (some pub_key)
    | none ↦ err ReturnCode.decoypath_err_invalid_payload
  ]

  -- the end of `decoypath_responder_respond`
  unfoldable pub write_response :
      Result HandshakeError (HandshakeResponsePayload k × RootKey)
      → Option SecureChannel
      → Bytes
      → ℕ
      → ℕ
      → Opened SecureChannel
  write_response (ok (response, root_key)) out_channel out out_len n_paths = record {
    handle = some (some (Channel.new root_key.bytes n_paths));
    out = some (splice out 0 (response_to_bytes k response));
    out_len = some resp_payload_len;
    code = ReturnCode.decoypath_ok;
  }
  write_response (err e) out_channel out out_len n_paths =
      failed out_channel out out_len ReturnCode.decoypath_err_authentication_failed
  write_response panic out_channel out out_len n_paths =
      failed out_channel out out_len ReturnCode.decoypath_err_panic

  -- behind the guards on lengths and paths
  unfoldable pub respond_keyed :
      Bytes
      → Option Bytes
      → Bytes
      → Bytes
      → ℕ
      → Option SecureChannel
      → ℕ
      → ℕ
      → Opened SecureChannel × ℕ
  respond_keyed resp_priv expected_init_pub init_payload out out_len out_channel n_paths draw =
      elim (expected_key expected_init_pub) [
        | err code ↦ (failed out_channel out out_len code, draw)
        | panic ↦ (failed out_channel out out_len ReturnCode.decoypath_err_panic, draw)
        | ok expected_pub ↦ elim (init_from_bytes k (take init_payload_len init_payload)) [
          | err _ ↦ (failed out_channel out out_len ReturnCode.decoypath_err_invalid_payload, draw)
          | panic ↦ (failed out_channel out out_len ReturnCode.decoypath_err_panic, draw)
          | ok initiation ↦
              let priv_key = k.signing_from_bytes (take 32 resp_priv) in
              let (answered, draw') = respond k priv_key expected_pub initiation draw in
              (write_response answered out_channel out out_len n_paths, draw')
        ]
      ]

  -- behind the null checks
  unfoldable pub respond_checked :
      Bytes
      → Option Bytes
      → Bytes
      → ℕ
      → Bytes
      → ℕ
      → Option SecureChannel
      → ℕ
      → ℕ
      → Opened SecureChannel × ℕ
  respond_checked resp_priv expected_init_pub init_payload init_len out out_len out_channel n_paths
        draw =
      if not (init_len == init_payload_len)
      then (failed out_channel out out_len ReturnCode.decoypath_err_invalid_payload, draw)
      else if ltb out_len resp_payload_len
      then (failed out_channel out resp_payload_len ReturnCode.decoypath_err_buffer_too_small, draw)
      else if bad_n_paths n_paths
      then (failed out_channel out out_len ReturnCode.decoypath_err_invalid_payload, draw)
      else respond_keyed resp_priv expected_init_pub init_payload out out_len out_channel n_paths
          draw

  unfoldable pub responder_respond :
      Option Bytes
      → Option Bytes
      → Option Bytes
      → ℕ
      → Option Bytes
      → Option ℕ
      → Option (Option SecureChannel)
      → ℕ
      → ℕ
      → Opened SecureChannel × ℕ
  responder_respond (some resp_priv) expected_init_pub (some init_payload) init_len (some out)
        (some out_len) (some out_channel) n_paths draw =
      respond_checked resp_priv expected_init_pub init_payload init_len out out_len out_channel
        n_paths draw
  responder_respond resp_priv expected_init_pub init_payload init_len out out_len out_channel
        n_paths draw =
      (
        record {
          handle = out_channel;
          out = out;
          out_len = out_len;
          code = ReturnCode.decoypath_err_null_pointer;
        },
        draw,
      )

  -- what `decoypath_initiator_finalize` leaves: the box of the state, the channel, and the code
  unfoldable pub finalize_owned :
      InitiatorState k → Bytes → ℕ → Option SecureChannel → ℕ → Option SecureChannel × ReturnCode
  finalize_owned state resp_payload resp_len out_channel n_paths =
      if not (resp_len == resp_payload_len)
      then (out_channel, ReturnCode.decoypath_err_invalid_payload)
      else if bad_n_paths n_paths
      then (out_channel, ReturnCode.decoypath_err_invalid_payload)
      else elim (response_from_bytes k (take resp_payload_len resp_payload)) [
        | err _ ↦ (out_channel, ReturnCode.decoypath_err_invalid_payload)
        | panic ↦ (out_channel, ReturnCode.decoypath_err_panic)
        | ok response ↦ elim (finalize k state response) [
          | ok root_key ↦ (some (Channel.new root_key.bytes n_paths), ReturnCode.decoypath_ok)
          | err _ ↦ (out_channel, ReturnCode.decoypath_err_authentication_failed)
          | panic ↦ (out_channel, ReturnCode.decoypath_err_panic)
        ]
      ]

  unfoldable pub initiator_finalize :
      Option (InitiatorState k)
      → Option Bytes
      → ℕ
      → Option (Option SecureChannel)
      → ℕ
      → Option (InitiatorState k) × Option (Option SecureChannel) × ReturnCode
  initiator_finalize (some state) (some resp_payload) resp_len (some out_channel) n_paths =
      let (channel, code) = finalize_owned state resp_payload resp_len out_channel n_paths in
      (none, some channel, code)
  initiator_finalize state resp_payload resp_len out_channel n_paths =
      (state, out_channel, ReturnCode.decoypath_err_null_pointer)
