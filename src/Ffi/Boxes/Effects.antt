-- ===== src/Ffi/Boxes/Effects.antt =====
-- What each call of src/ffi.rs does to the boxes.
use mathlib.Core.Option
use mathlib.Core.Option.{some_inj}
use mathlib.Core.Path.{subst}
use null_path.Base.{
  ℕ, ◌<◌, ◌≡◌, refl, sym, ap, ◌∙◌, Option, none, some, arith, Option-cases, inl, inr,
}
use null_path.Channel.{SecureChannel}
use null_path.Curves.{Curves}
use null_path.Ffi.Boxes.Ownership.{
  live-lt, Fresh, Evolves, Evolves-refl, Evolves-trans, box_channel-Evolves, take_state-Evolves,
  set_channel-Evolves,
}
use null_path.Ffi.Boxes.{
  Boxes, Reply, set, box_channel, finalize_boxed, state_free, channel_free, send_boxed,
  receive_boxed,
}
use null_path.Ffi.Session.{initiator_finalize}
use null_path.Ffi.{ReturnCode, channel_send, channel_receive}
use null_path.Handshake.{InitiatorState}
use null_path.Primitives.{Bytes, Primitives}

-- a call that reads a box found one
read-some {ℓ κ} :
    {A : Type ℓ} {B : Type κ} (o : Option A) (f : A → B) (y : B)
    → (elim o as (λ _. Option B) [ none ↦ none | some x ↦ some (f x) ]) ≡ some y
    → (x : A) × (o ≡ some x) × (f x ≡ y)
read-some none f y h = absurd (cc)
read-some (some x) f y h = (x, refl, some_inj.0 h)

module _ {k : Curves} where
  unchanged : {b b' : Boxes k} → Fresh b → some b ≡ some b' → Evolves b b'
  unchanged {b} f h = subst (Evolves b) (some_inj.0 h) (Evolves-refl b f)

  box_channel-states :
      (b : Boxes k) (made : Option (Option SecureChannel)) (slot : Option (Option ℕ))
      → (box_channel k b made slot).0.states ≡ b.states
  unfolding box_channel
  box_channel-states b none slot = refl
  box_channel-states b (some none) slot = refl
  box_channel-states b (some (some channel)) slot = refl

  module _ (b : Boxes k) (a : ℕ) (resp_payload : Bytes) (resp_len : ℕ) (held : Option ℕ)
      (n_paths : ℕ) where
    -- a call on a pointer to no box
    pub finalize_boxed-dead :
        b.states a ≡ none
        → finalize_boxed k b (some a) (some resp_payload) resp_len (some held) n_paths ≡ none
    unfolding finalize_boxed
    finalize_boxed-dead dead = rw (dead, finalize_boxed) refl

    abbrev after_finalize : InitiatorState k → Boxes k × Option (Option ℕ)
    after_finalize state =
        box_channel k (record b { states = set b.states a none })
          (initiator_finalize k (some state) (some resp_payload) resp_len (some none) n_paths).1
          (some held)

    finalize_boxed-live :
        (state : InitiatorState k)
        → b.states a ≡ some state
        → finalize_boxed k b (some a) (some resp_payload) resp_len (some held) n_paths
          ≡ some (
            (after_finalize state).0,
            (after_finalize state).1,
            (initiator_finalize k (some state) (some resp_payload) resp_len (some none) n_paths).2,
          )
    unfolding finalize_boxed
    finalize_boxed-live state live = rw (live, finalize_boxed) refl

    after_finalize-takes :
        (state : InitiatorState k) → Fresh b → (after_finalize state).0.states a ≡ none
    unfolding box_channel
    after_finalize-takes state f =
        ap (λ s. s a) (box_channel-states (record b { states = set b.states a none }) _ (some held))
        ∙ ground arith

    -- A taken state is gone, whatever `decoypath_initiator_finalize` returns.
    pub finalize_boxed-takes :
        (b' : Boxes k) (slot' : Option (Option ℕ)) (code : ReturnCode)
        → Fresh b
        → finalize_boxed k b (some a) (some resp_payload) resp_len (some held) n_paths
          ≡ some (b', slot', code)
        → Evolves b b' × (a < b.next) × (b'.states a ≡ none)
    finalize_boxed-takes b' slot' code f h = elim (Option-cases (b.states a)) [
      | inl dead ↦ let e = finalize_boxed-dead dead in cc
      | inr (state, live) ↦
          let e = ap (λ r. r.0) (some_inj.0 (sym (finalize_boxed-live state live) ∙ h)) in
          let taken = take_state-Evolves b a f in
          let made =
            box_channel-Evolves (record b { states = set b.states a none })
              (initiator_finalize k (some state) (some resp_payload) resp_len (some none) n_paths).1
              (some held) taken.fresh in
          (
            subst (Evolves b) e (Evolves-trans taken made),
            live-lt b.states b.next a state f.states live,
            ap (λ c. c.states a) (sym e) ∙ after_finalize-takes state f,
          )
    ]

  pub finalize_boxed-Evolves :
      (b b' : Boxes k) (state : Option ℕ) (resp_payload : Option Bytes) (resp_len : ℕ)
      (slot slot' : Option (Option ℕ)) (n_paths : ℕ) (code : ReturnCode)
      → Fresh b
      → finalize_boxed k b state resp_payload resp_len slot n_paths ≡ some (b', slot', code)
      → Evolves b b'
  unfolding finalize_boxed
  finalize_boxed-Evolves b b' (some a) (some resp) resp_len (some held) slot' n_paths code f h =
      (finalize_boxed-takes b a resp resp_len held n_paths b' slot' code f h).0
  finalize_boxed-Evolves b b' none resp resp_len slot slot' n_paths code f h =
      unchanged f (ap (Option.map (λ r. r.0)) h)
  finalize_boxed-Evolves b b' (some a) none resp_len slot slot' n_paths code f h =
      unchanged f (ap (Option.map (λ r. r.0)) h)
  finalize_boxed-Evolves b b' (some a) (some resp) resp_len none slot' n_paths code f h =
      unchanged f (ap (Option.map (λ r. r.0)) h)

  pub state_free-Evolves :
      (b b' : Boxes k) (state : Option ℕ) → Fresh b → state_free k b state ≡ some b' → Evolves b b'
  unfolding state_free
  state_free-Evolves b b' none f h = unchanged f h
  state_free-Evolves b b' (some a) f h =
      let (state, live, e) =
        read-some (b.states a) (λ _. record b { states = set b.states a none }) b' h in
      subst (Evolves b) e (take_state-Evolves b a f)

  pub channel_free-Evolves :
      (b b' : Boxes k) (channel : Option ℕ)
      → Fresh b
      → channel_free k b channel ≡ some b'
      → Evolves b b'
  unfolding channel_free
  channel_free-Evolves b b' none f h = unchanged f h
  channel_free-Evolves b b' (some a) f h =
      let (c, live, e) =
        read-some (b.channels a) (λ _. record b { channels = set b.channels a none }) b' h in
      subst (Evolves b) e (set_channel-Evolves b a c none f live)

  -- a call that reads a channel, and puts one in its place
  replaced :
      {A : Type 0} (b : Boxes k) (a : ℕ) (new : SecureChannel → Option SecureChannel)
      (build : SecureChannel → A) (boxes : A → Boxes k) (r : A)
      → Fresh b
      → ((c : SecureChannel) → record b { channels = set b.channels a (new c) } ≡ boxes (build c))
      → (elim (b.channels a) as (λ _. Option A) [ none ↦ none | some c ↦ some (build c) ]) ≡ some r
      → Evolves b (boxes r)
  replaced b a new build boxes r f same h =
      let (c, live, e) = read-some (b.channels a) build r h in
      subst (Evolves b) (same c ∙ ap boxes e) (set_channel-Evolves b a c (new c) f live)

  module _ (p : Primitives) where
    pub send_boxed-Evolves :
        (b b' : Boxes k) (channel : Option ℕ) (payload : Option Bytes) (payload_len : ℕ)
        (message_id : Option Bytes) (message_id_len : ℕ) (out : Option Bytes) (out_len : Option ℕ)
        (draw draw' : ℕ) (reply : Reply)
        → Fresh b
        → send_boxed k p b channel payload payload_len message_id message_id_len out out_len draw
          ≡ some (b', reply, draw')
        → Evolves b b'
    unfolding send_boxed
    send_boxed-Evolves b b' (some a) (some payload) payload_len (some id) id_len (some out)
          (some out_len) draw draw' reply f h =
        let o = λ (c : SecureChannel).
          channel_send p (some c) (some payload) payload_len (some id) id_len (some out)
            (some out_len) draw in
        replaced {A = Boxes k × Reply × ℕ} b a (λ c. (o c).0.channel)
          (λ c. (
            record b { channels = set b.channels a (o c).0.channel },
            record {
              handle = none;
              out = (o c).0.out;
              out_len = (o c).0.out_len;
              code = (o c).0.code;
            },
            (o c).1,
          ))
          (λ r. r.0) (b', reply, draw') f (λ c. refl) h
    send_boxed-Evolves b b' none payload payload_len id id_len out out_len draw draw' reply f h =
        unchanged f (ap (Option.map (λ r. r.0)) h)
    send_boxed-Evolves b b' (some a) none payload_len id id_len out out_len draw draw' reply f h =
        unchanged f (ap (Option.map (λ r. r.0)) h)
    send_boxed-Evolves b b' (some a) (some payload) payload_len none id_len out out_len draw draw'
          reply f h =
        unchanged f (ap (Option.map (λ r. r.0)) h)
    send_boxed-Evolves b b' (some a) (some payload) payload_len (some id) id_len none out_len draw
          draw' reply f h =
        unchanged f (ap (Option.map (λ r. r.0)) h)
    send_boxed-Evolves b b' (some a) (some payload) payload_len (some id) id_len (some out) none
          draw draw' reply f h =
        unchanged f (ap (Option.map (λ r. r.0)) h)

    pub receive_boxed-Evolves :
        (now : ℕ) (b b' : Boxes k) (channel : Option ℕ) (envelopes : Option Bytes)
        (envelopes_len seq : ℕ) (message_id : Option Bytes) (message_id_len : ℕ)
        (out : Option Bytes) (out_len : Option ℕ) (reply : Reply)
        → Fresh b
        → receive_boxed k p now b channel envelopes envelopes_len seq message_id message_id_len out
            out_len
          ≡ some (b', reply)
        → Evolves b b'
    unfolding receive_boxed
    receive_boxed-Evolves now b b' (some a) (some envelopes) envelopes_len seq (some id) id_len
          (some out) (some out_len) reply f h =
        let o = λ (c : SecureChannel).
          channel_receive p now (some c) (some envelopes) envelopes_len seq (some id) id_len
            (some out) (some out_len) in
        replaced {A = Boxes k × Reply} b a (λ c. (o c).channel)
          (λ c. (
            record b { channels = set b.channels a (o c).channel },
            record { handle = none; out = (o c).out; out_len = (o c).out_len; code = (o c).code },
          ))
          (λ r. r.0) (b', reply) f (λ c. refl) h
    receive_boxed-Evolves now b b' none envelopes envelopes_len seq id id_len out out_len reply f
          h =
        unchanged f (ap (Option.map (λ r. r.0)) h)
    receive_boxed-Evolves now b b' (some a) none envelopes_len seq id id_len out out_len reply f h =
        unchanged f (ap (Option.map (λ r. r.0)) h)
    receive_boxed-Evolves now b b' (some a) (some envelopes) envelopes_len seq none id_len out
          out_len reply f h =
        unchanged f (ap (Option.map (λ r. r.0)) h)
    receive_boxed-Evolves now b b' (some a) (some envelopes) envelopes_len seq (some id) id_len none
          out_len reply f h =
        unchanged f (ap (Option.map (λ r. r.0)) h)
    receive_boxed-Evolves now b b' (some a) (some envelopes) envelopes_len seq (some id) id_len
          (some out) none reply f h =
        unchanged f (ap (Option.map (λ r. r.0)) h)
