-- ===== src/Ffi/Boxes/Opens.antt =====
-- The handshake of src/ffi.rs between two processes, each with boxes of its own.
use null_path.Base.{ℕ, suc, ◌≤◌, ◌<◌, ◌≡◌, refl, Option, none, some, arith, length, take}
use null_path.Channel
use null_path.Channel.{SecureChannel, max_message_id_len}
use null_path.Curves
use null_path.Curves.{Curves}
use null_path.Ffi.Boxes.{Boxes, set, initiate_boxed, respond_boxed, finalize_boxed}
use null_path.Ffi.Boxes.Succeeds.{
  stored, initiate_boxed-opened, respond_boxed-opened, finalize_boxed-opened,
}
use null_path.Ffi.Session.Opening.{HasRoom, key_bytes, handshake_opens}
use null_path.Ffi.{ReturnCode, max_n_paths}
use null_path.Handshake.Agreement.{Permits}
use null_path.Types.{RootKey}
use null_path.Primitives.{Bytes}

infixl 5 ◌>>=◌
abbrev pub ◌>>=◌ {ℓ κ} : {A : Type ℓ} {B : Type κ} → Option A → (A → Option B) → Option B
none >>= f = none
some a >>= f = f a

-- the calls that follow are made only behind `DECOYPATH_OK`
abbrev pub assert_ok : ReturnCode → Option (Unit {0})
assert_ok ReturnCode.decoypath_ok = some tt
assert_ok _ = none

module _ (k : Curves) where
  -- from any boxes of the initiator and of the responder, both of whose buffers have the length that
  -- the caller states: the boxes then, the pointers to the channels, and the initiator's draws
  unfoldable pub open_boxed :
      Boxes k
      → Boxes k
      → Bytes
      → Bytes
      → Bytes
      → Option Bytes
      → ℕ
      → Bytes
      → Bytes
      → ℕ
      → ℕ
      → Option (Boxes k × Boxes k × Option ℕ × Option ℕ × ℕ)
  open_boxed boxes boxes' init_priv resp_priv resp_pub init_pub n_paths init_payload resp_payload
        draw draw' =
      let (boxes, initiated, drawn) =
        initiate_boxed k boxes (some init_priv) (some resp_pub) (some none) (some init_payload)
          (some (length init_payload)) draw in
      do
        _ ← assert_ok initiated.code
        init_len ← initiated.out_len
        init_state ← initiated.handle
        let (boxes', responded, _) =
            respond_boxed k boxes' (some resp_priv) init_pub initiated.out init_len
              (some resp_payload) (some (length resp_payload)) (some none) n_paths draw'
        _ ← assert_ok responded.code
        resp_len ← responded.out_len
        resp_channel ← responded.handle
        (boxes, made, code) ←
            finalize_boxed k boxes init_state responded.out resp_len (some none) n_paths
        _ ← assert_ok code
        init_channel ← made
        some (boxes, boxes', init_channel, resp_channel, drawn)

  -- a channel on each side, new ones from the same root key
  pub record Opens (n_paths : ℕ) (r : Option (Boxes k × Boxes k × Option ℕ × Option ℕ × ℕ))
      : Type 0 where
    pub root : RootKey
    pub size : length root.bytes ≡ 32
    pub boxes : Boxes k
    pub boxes' : Boxes k
    pub init_channel : ℕ
    pub resp_channel : ℕ
    pub drawn : ℕ
    pub returns : r ≡ some (boxes, boxes', some init_channel, some resp_channel, drawn)
    pub held : boxes.channels init_channel ≡ some (Channel.new root.bytes n_paths)
    pub held' : boxes'.channels resp_channel ≡ some (Channel.new root.bytes n_paths)

  full : (out : Bytes) → 144 ≤ length out → HasRoom out (length out)
  full out h = record { enough = h; within = omega arith }

  pub open_boxed-Opens :
      (boxes boxes' : Boxes k) (init_priv resp_priv : Bytes) (who : Option k.VerifyingKey)
      (n_paths : ℕ) (init_payload resp_payload : Bytes) (draw draw' : ℕ)
      → Curves.IsSound k
      → Permits k (k.verifying_key (k.signing_from_bytes (take 32 init_priv))) who
      → 0 < n_paths
      → n_paths ≤ max_n_paths
      → 144 ≤ length init_payload
      → 144 ≤ length resp_payload
      → Opens n_paths (
          open_boxed boxes boxes' init_priv resp_priv
            (k.verifying_as_bytes (k.verifying_key (k.signing_from_bytes (take 32 resp_priv))))
            (key_bytes k who)
            n_paths
            init_payload
            resp_payload
            draw
            draw')
  unfolding open_boxed
  open_boxed-Opens boxes boxes' init_priv resp_priv who n_paths init_payload resp_payload draw draw'
        sound permits lo hi room room' =
      let peer =
        k.verifying_as_bytes (k.verifying_key (k.signing_from_bytes (take 32 resp_priv))) in
      let (state, sent, received, root, e1, e2, e3, size) =
        handshake_opens k sound init_priv resp_priv who draw draw' n_paths n_paths none none none
          init_payload resp_payload (length init_payload) (length resp_payload) permits
          (full init_payload room) (full resp_payload room') lo hi lo hi in
      let c = Channel.new root.bytes n_paths in
      let (drawn, f1) =
        initiate_boxed-opened k boxes init_priv peer init_payload (length init_payload) draw state
          sent e1 in
      let (_, f2) =
        respond_boxed-opened k boxes' resp_priv (key_bytes k who) sent resp_payload
          (length resp_payload) n_paths draw' c received e2 in
      let boxes1 : Boxes k = record boxes {
        next = suc boxes.next;
        states = set boxes.states boxes.next (some state);
      } in
      let f3 =
        finalize_boxed-opened k boxes1 boxes.next state received n_paths c
          (stored boxes.states boxes.next state) e3 in
      record {
        root = root;
        size = size;
        boxes = record boxes1 {
          next = suc boxes1.next;
          states = set boxes1.states boxes.next none;
          channels = set boxes1.channels boxes1.next (some c);
        };
        boxes' = record boxes' {
          next = suc boxes'.next;
          channels = set boxes'.channels boxes'.next (some c);
        };
        init_channel = boxes1.next;
        resp_channel = boxes'.next;
        drawn = drawn;
        returns = rw (f1, f2, f3) refl;
        held = stored boxes1.channels boxes1.next c;
        held' = stored boxes'.channels boxes'.next c;
      }
