-- ===== src/Ffi/Boxes/Calls.antt =====
-- Any sequence of calls of src/ffi.rs on boxes, and the pointers that it makes invalid.
use mathlib.Core.Path.{subst}
use null_path.Base.{ℕ, ◌≡◌, refl, sym, Option, none, some, arith}
use null_path.Curves.{Curves}
use null_path.Ffi.Boxes.Ownership.{
  Fresh, Evolves, Evolves-refl, Evolves-trans, box_state-Evolves, box_channel-Evolves,
}
use null_path.Ffi.Boxes.Effects.{
  finalize_boxed-dead, finalize_boxed-takes, finalize_boxed-Evolves, state_free-Evolves,
  channel_free-Evolves, send_boxed-Evolves, receive_boxed-Evolves,
}
use null_path.Ffi.Boxes.{
  Boxes, Reply, initiate_boxed, respond_boxed, finalize_boxed, state_free, channel_free, send_boxed,
  receive_boxed,
}
use null_path.Ffi.{ReturnCode}
use null_path.Primitives.{Bytes, Primitives}

module _ {k : Curves} where
  -- a call that is not undefined, with whatever arguments
  pub data Step (p : Primitives) (b b' : Boxes k) : Type 0 where
    initiated :
        (init_priv resp_pub : Option Bytes) (slot : Option (Option ℕ)) (out : Option Bytes)
        (out_len : Option ℕ) (draw : ℕ)
        → b' ≡ (initiate_boxed k b init_priv resp_pub slot out out_len draw).0
        → Step p b b'
    responded :
        (resp_priv expected init_payload : Option Bytes) (init_len : ℕ) (out : Option Bytes)
        (out_len : Option ℕ) (slot : Option (Option ℕ)) (n_paths draw : ℕ)
        → b'
          ≡ (respond_boxed k b resp_priv expected init_payload init_len out out_len slot n_paths
              draw).0
        → Step p b b'
    finalized :
        (state : Option ℕ) (resp_payload : Option Bytes) (resp_len : ℕ)
        (slot slot' : Option (Option ℕ)) (n_paths : ℕ) (code : ReturnCode)
        → finalize_boxed k b state resp_payload resp_len slot n_paths ≡ some (b', slot', code)
        → Step p b b'
    sent :
        (channel : Option ℕ) (payload : Option Bytes) (payload_len : ℕ) (message_id : Option Bytes)
        (message_id_len : ℕ) (out : Option Bytes) (out_len : Option ℕ) (draw draw' : ℕ)
        (reply : Reply)
        → send_boxed k p b channel payload payload_len message_id message_id_len out out_len draw
          ≡ some (b', reply, draw')
        → Step p b b'
    received :
        (now : ℕ) (channel : Option ℕ) (envelopes : Option Bytes) (envelopes_len seq : ℕ)
        (message_id : Option Bytes) (message_id_len : ℕ) (out : Option Bytes) (out_len : Option ℕ)
        (reply : Reply)
        → receive_boxed k p now b channel envelopes envelopes_len seq message_id message_id_len out
            out_len
          ≡ some (b', reply)
        → Step p b b'
    freed_state : (state : Option ℕ) → state_free k b state ≡ some b' → Step p b b'
    freed_channel : (channel : Option ℕ) → channel_free k b channel ≡ some b' → Step p b b'

  pub data Reach (p : Primitives) (b : Boxes k) : Boxes k → Type 0 where
    here : Reach p b b
    next : {c d : Boxes k} → Reach p b c → Step p c d → Reach p b d

  module _ (p : Primitives) where
    Step-Evolves : {b b' : Boxes k} → Fresh b → Step p b b' → Evolves b b'
    unfolding initiate_boxed respond_boxed
    Step-Evolves {b} f (initiated priv peer slot out out_len draw e) =
        subst (Evolves b) (sym e) (box_state-Evolves b _ slot f)
    Step-Evolves {b} f (responded priv who init init_len out out_len slot n_paths draw e) =
        subst (Evolves b) (sym e) (box_channel-Evolves b _ slot f)
    Step-Evolves {b} {b'} f (finalized state resp len slot slot' n_paths code h) =
        finalize_boxed-Evolves b b' state resp len slot slot' n_paths code f h
    Step-Evolves {b} {b'} f (sent c payload len id id_len out out_len draw draw' reply h) =
        send_boxed-Evolves p b b' c payload len id id_len out out_len draw draw' reply f h
    Step-Evolves {b} {b'} f (received now c envelopes len seq id id_len out out_len reply h) =
        receive_boxed-Evolves p now b b' c envelopes len seq id id_len out out_len reply f h
    Step-Evolves {b} {b'} f (freed_state state h) = state_free-Evolves b b' state f h
    Step-Evolves {b} {b'} f (freed_channel channel h) = channel_free-Evolves b b' channel f h

    pub Reach-Evolves : {b b' : Boxes k} → Fresh b → Reach p b b' → Evolves b b'
    Reach-Evolves {b} f here = Evolves-refl b f
    Reach-Evolves f (next r s) =
        let e = Reach-Evolves f r in Evolves-trans e (Step-Evolves e.fresh s)

    -- A state that `decoypath_initiator_finalize` was given, with no other pointer null, is gone
    -- whatever the call returned. After it, and after any further calls on a store that uses no
    -- address twice, a call that frees or finalizes that pointer is undefined.
    pub finalize_boxed-once :
        (b b' b'' : Boxes k) (a : ℕ) (resp_payload resp_payload' : Bytes) (resp_len resp_len' : ℕ)
        (held held' : Option ℕ) (slot : Option (Option ℕ)) (n_paths n_paths' : ℕ)
        (code : ReturnCode)
        → Fresh b
        → finalize_boxed k b (some a) (some resp_payload) resp_len (some held) n_paths
          ≡ some (b', slot, code)
        → Reach p b' b''
        → (state_free k b'' (some a) ≡ none)
          × (finalize_boxed k b'' (some a) (some resp_payload') resp_len' (some held') n_paths'
              ≡ none)
    unfolding state_free
    finalize_boxed-once b b' b'' a resp_payload resp_payload' resp_len resp_len' held held' slot
          n_paths n_paths' code f h r =
        let (e, below, gone) =
          finalize_boxed-takes b a resp_payload resp_len held n_paths b' slot code f h in
        let dead = (Reach-Evolves e.fresh r).states a (omega (arith, e.grows)) gone in
        (
          rw (dead, state_free) refl,
          finalize_boxed-dead b'' a resp_payload' resp_len' held' n_paths' dead,
        )
