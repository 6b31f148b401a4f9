-- ===== src/Channel/Dispatch.antt =====
-- Messages that one channel of src/channel.rs sends, and that arrive at another in any order.
use mathlib.Core.List.{Permᴰ}
use mathlib.Core.Path.{subst}
use null_path.Base.{
  ℕ, suc, ◌+◌, ◌^◌, ◌≤◌, ◌<◌, ◌≡◌, refl, sym, ap, List, [], ◌∷◌, map, arith, Result, ok, err, panic,
  length,
}
use null_path.Channel.Accept.{Carries}
use null_path.Channel.Arrivals.{
  Arrival, IsCarried, Differ, Distinct, AllCarry, receive_all, receive_all-delivers,
}
use null_path.Channel.Exchange.{SendsAt, advance-SendsAt, Carries-SendsAt, new-SendsAt, send_total}
use null_path.Channel.Invariant.{new-IsValid}
use null_path.Channel.Ratchet.{new-Follows}
use null_path.Channel.Sending.{advance}
use null_path.Channel.Step.{next_seq, max_seq}
use null_path.Channel.{SecureChannel, max_message_id_len, max_skip_window, new, next_send_seq, send}
use null_path.Envelope.{max_payload_size}
use null_path.Errors.{ChannelError}
use null_path.PathEngine
use null_path.PathEngine.Chain.{derive_n, derive_n-length}
use null_path.PathEngine.{RatchetKey}
use null_path.Primitives.{Bytes, Primitives, IsSound}

-- message `seq` arrives, at the time `arrives seq`, if it was sent
abbrev pub add_sent :
    (ℕ → ℕ) → ℕ → Bytes → Bytes → Result ChannelError (List Bytes) → List Arrival → List Arrival
add_sent arrives seq payload message_id (ok envelopes) rest =
    record {
      now = arrives seq;
      seq = seq;
      message_id = message_id;
      payload = payload;
      envelopes = envelopes;
    }
    ∷ rest
add_sent arrives seq payload message_id (err e) rest = rest
add_sent arrives seq payload message_id panic rest = rest

-- the calls of `send` for payloads and message IDs in their order, and the arrivals they lead to
unfoldable pub dispatch :
    Primitives → (ℕ → ℕ) → SecureChannel → List (Bytes × Bytes) → ℕ → List Arrival
dispatch p arrives c [] draw = []
dispatch p arrives c ((payload, message_id) ∷ requests) draw =
    let (c', result, draw') = send p c payload message_id draw in
    add_sent arrives (next_send_seq c) payload message_id result
      (dispatch p arrives c' requests draw')

dispatch-nil :
    (p : Primitives) (arrives : ℕ → ℕ) (c : SecureChannel) (draw : ℕ)
    → dispatch p arrives c [] draw ≡ []
unfolding dispatch
dispatch-nil p arrives c draw = refl

dispatch-ok :
    (p : Primitives) (arrives : ℕ → ℕ) (c c' : SecureChannel) (payload message_id : Bytes)
    (requests : List (Bytes × Bytes)) (draw draw' : ℕ) (envelopes : List Bytes)
    → send p c payload message_id draw ≡ (c', ok envelopes, draw')
    → dispatch p arrives c ((payload, message_id) ∷ requests) draw
      ≡ add_sent arrives
          (next_send_seq c)
          payload
          message_id
          (ok envelopes)
          (dispatch p arrives c' requests draw')
unfolding dispatch
dispatch-ok p arrives c c' payload message_id requests draw draw' envelopes sent =
    ap
      (λ r.
        add_sent arrives (next_send_seq c) payload message_id r.1
          (dispatch p arrives r.0 requests r.2))
      sent

abbrev pub AllWithin : List (Bytes × Bytes) → Type 0
AllWithin [] = Unit
AllWithin ((payload, message_id) ∷ requests) =
    ((length payload ≤ max_payload_size) × (length message_id ≤ max_message_id_len))
    × AllWithin requests

Differ-Perm : (s : ℕ) {xs ys : List Arrival} → Permᴰ xs ys → Differ s ys → Differ s xs
Differ-Perm s Permᴰ.nil d = d
Differ-Perm s (Permᴰ.cons e p) (d, ds) = (rw e d, Differ-Perm s p ds)
Differ-Perm s (Permᴰ.swap e f) (d, (d', ds)) = (rw e d', (rw f d, ds))
Differ-Perm s (Permᴰ.trans p q) d = Differ-Perm s p (Differ-Perm s q d)

Distinct-Perm : {xs ys : List Arrival} → Permᴰ xs ys → Distinct ys → Distinct xs
Distinct-Perm Permᴰ.nil d = d
Distinct-Perm (Permᴰ.cons e p) (d, ds) = (rw e (Differ-Perm _ p d), Distinct-Perm p ds)
Distinct-Perm (Permᴰ.swap {l} e f) ((d, ds), (ds', rest)) = (
  (rw (e, f) (λ h. d (sym h)), subst (λ x. Differ x.seq l) (sym e) ds'),
  (subst (λ x. Differ x.seq l) (sym f) ds, rest),
)
Distinct-Perm (Permᴰ.trans p q) d = Distinct-Perm p (Distinct-Perm q d)

module _ (p : Primitives) (root : RatchetKey) (n_paths lo hi : ℕ) where
  AllCarry-Perm :
      {xs ys : List Arrival}
      → Permᴰ xs ys
      → AllCarry p root n_paths lo hi ys
      → AllCarry p root n_paths lo hi xs
  AllCarry-Perm Permᴰ.nil k = k
  AllCarry-Perm (Permᴰ.cons e q) (k, ks) =
      (subst (IsCarried p root n_paths lo hi) (sym e) k, AllCarry-Perm q ks)
  AllCarry-Perm (Permᴰ.swap e f) (k, (k', ks)) = (
    subst (IsCarried p root n_paths lo hi) (sym e) k',
    (subst (IsCarried p root n_paths lo hi) (sym f) k, ks),
  )
  AllCarry-Perm (Permᴰ.trans q r) k = AllCarry-Perm q (AllCarry-Perm r k)

  -- a smaller lower bound
  AllCarry-Differ :
      (s : ℕ) (ms : List Arrival) → s < lo → AllCarry p root n_paths lo hi ms → Differ s ms
  AllCarry-Differ s [] h k = tt
  AllCarry-Differ s (m ∷ ms) h (k, ks) = (λ e. omega (arith, k.from), AllCarry-Differ s ms h ks)

module _ (p : Primitives) (root : RatchetKey) (sound : IsSound p)
    (root_size : length root.bytes ≡ 32) (arrives : ℕ → ℕ) where
  -- what `dispatch` gives from message `n` on
  record Dispatched (n n_paths hi : ℕ) (requests : List (Bytes × Bytes)) (ms : List Arrival)
      : Type 0 where
    carried : AllCarry p root n_paths n hi ms
    distinct : Distinct ms
    all : map (λ m. m.payload) ms ≡ map (λ r. r.0) requests

  AllCarry-weaken :
      (n_paths lo hi : ℕ) (ms : List Arrival)
      → AllCarry p root n_paths (suc lo) hi ms
      → AllCarry p root n_paths lo hi ms
  AllCarry-weaken n_paths lo hi [] k = tt
  AllCarry-weaken n_paths lo hi (m ∷ ms) (k, ks) = (
    record { from = omega (arith, k.from); to = k.to; short = k.short; carries = k.carries },
    AllCarry-weaken n_paths lo hi ms ks,
  )

  dispatch-Dispatched :
      (c : SecureChannel) (n hi draw : ℕ) (requests : List (Bytes × Bytes))
      → SendsAt p root n c
      → 0 < c.n_paths
      → AllWithin requests
      → n + length requests ≤ suc hi
      → suc hi < 2 ^ 64
      → Dispatched n c.n_paths hi requests (dispatch p arrives c requests draw)
  unfolding advance
  dispatch-Dispatched c n hi draw [] s paths within fits small =
      rw dispatch-nil (record { carried = tt; distinct = tt; all = refl })
  dispatch-Dispatched c n hi draw ((payload, message_id) ∷ requests) s paths ((fit, short), within)
        fits small =
      let key_size : length c.current_key.bytes ≡ 32 =
        rw (s.current) (derive_n-length p n root sound root_size) in
      let (envelopes, draw', sent, carries) =
        send_total p sound c draw payload message_id key_size paths short fit in
      let rest =
        dispatch-Dispatched (advance p c) (suc n) hi draw' requests
          (advance-SendsAt p root n (omega arith) s) paths within (omega arith) small in
      let carried : Carries p (derive_n p (next_send_seq c) root) (next_send_seq c) c.n_paths
          message_id payload envelopes =
        subst (λ i. Carries p (derive_n p i root) i c.n_paths message_id payload envelopes)
          (sym s.number) (Carries-SendsAt p root s carries) in
      let later = dispatch p arrives (advance p c) requests draw' in
      rw
        (dispatch-ok p arrives c (advance p c) payload message_id requests draw draw' envelopes
          sent)
        (record {
          carried = (
            record {
              from = omega (arith, s.number);
              to = omega (arith, s.number);
              short = short;
              carries = carried;
            },
            AllCarry-weaken c.n_paths n hi later rest.carried,
          );
          distinct = (
            AllCarry-Differ p root c.n_paths (suc n) hi (next_send_seq c) later
                (omega (arith, s.number)) rest.carried,
            rest.distinct,
          );
          all = ap (λ payloads. payload ∷ payloads) rest.all;
        })

-- Up to 1001 messages within the limits, sent by a new channel, arrive at a new channel with the same
-- root key and path count in any order and at any times: every one is sent, and the calls of
-- `receive` return the payloads, each in its turn.
pub dispatch-delivers :
    (p : Primitives) (root_key : Bytes) (n_paths draw : ℕ) (arrives : ℕ → ℕ)
    (requests : List (Bytes × Bytes)) (ms : List Arrival)
    → IsSound p
    → length root_key ≡ 32
    → 0 < n_paths
    → AllWithin requests
    → length requests ≤ suc max_skip_window
    → Permᴰ ms (dispatch p arrives (new root_key n_paths) requests draw)
    → (map (λ m. m.payload) (dispatch p arrives (new root_key n_paths) requests draw)
        ≡ map (λ r. r.0) requests)
      × ((receive_all p (new root_key n_paths) ms).1 ≡ map (λ m. ok m.payload) ms)
unfolding new PathEngine.new next_seq max_seq
dispatch-delivers p root_key n_paths draw arrives requests ms sound size paths within few perm =
    let root = PathEngine.new root_key in
    let c = new root_key n_paths in
    let sent =
      dispatch-Dispatched p root sound size arrives c 0 max_skip_window draw requests
        (new-SendsAt p root_key n_paths) paths within (omega arith) (omega arith) in
    (
      sent.all,
      receive_all-delivers p root c ms (new-IsValid root_key n_paths)
          (new-Follows p root_key n_paths) refl
          (AllCarry-Perm p root n_paths 0 max_skip_window perm sent.carried)
          (Distinct-Perm perm sent.distinct),
    )
