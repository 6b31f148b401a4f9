-- ===== src/Channel/Turns.antt =====
-- One message from one channel of src/channel.rs to another, which receives it before anything else
-- is sent.
use mathlib.Core.Path.{subst₂}
use null_path.Base.{
  ℕ, suc, ◌+◌, ◌^◌, ◌≤◌, ◌<◌, ◌≡◌, refl, sym, ap, ◌∙◌, Bool, List, arith, Result, ok, err, panic,
  length,
}
use null_path.Channel.Accept.{Carries, Carries-Accepts}
use null_path.Channel.Exchange.{send_total}
use null_path.Channel.Invariant.{IsValid, Accepts-IsValid}
use null_path.Channel.Receive.{Finds-forward_key}
use null_path.Channel.Sending.{advance, advance-IsValid}
use null_path.Channel.Step.{
  next_seq, max_seq, after_forward, Accepts, forward, behind, find_target_lem,
}
use null_path.Channel.{
  SecureChannel, Target, max_message_id_len, next_send_seq, find_target, forward_target, receive,
  send,
}
use null_path.Envelope.{max_payload_size}
use null_path.Errors.{ChannelError}
use null_path.PathEngine.Chain.{derive_n}
use null_path.PathEngine.{RatchetKey, derive_next}
use null_path.Primitives.{Bytes, Primitives, IsSound}

-- one message: from which side, and when it is received
pub record Turn : Type 0 where
  pub by_first : Bool
  pub now : ℕ
  pub message_id : Bytes
  pub payload : Bytes

-- `d` receives what was sent as message `seq`: both states, the result, and the draws
abbrev pub deliver :
    Primitives
    → SecureChannel
    → Turn
    → ℕ
    → SecureChannel × Result ChannelError (List Bytes) × ℕ
    → SecureChannel × SecureChannel × Result ChannelError Bytes × ℕ
deliver p d t seq (c', ok envelopes, draw') =
    let (d', received) = receive p t.now d envelopes seq t.message_id in (c', d', received, draw')
deliver p d t seq (c', err e, draw') = (c', d, err e, draw')
deliver p d t seq (c', panic, draw') = (c', d, panic, draw')

-- `c` sends the message of the turn and `d` receives it
unfoldable pub convey :
    Primitives
    → SecureChannel
    → SecureChannel
    → Turn
    → ℕ
    → SecureChannel × SecureChannel × Result ChannelError Bytes × ℕ
convey p c d t draw = deliver p d t (next_send_seq c) (send p c t.payload t.message_id draw)

-- both sides stand at the same key, and each expects what the other sends next
pub record Linked (c d : SecureChannel) : Type 0 where
  pub valid : IsValid c
  pub valid' : IsValid d
  pub key : c.current_key ≡ d.current_key
  pub key_size : length c.current_key.bytes ≡ 32
  pub paths : 0 < c.n_paths
  pub same_paths : d.n_paths ≡ c.n_paths
  pub there : next_send_seq c ≡ next_seq d
  pub back : next_send_seq d ≡ next_seq c

pub Linked-sym : {c d : SecureChannel} → Linked c d → Linked d c
Linked-sym l = record {
  valid = l.valid';
  valid' = l.valid;
  key = sym l.key;
  key_size = rw (sym l.key) l.key_size;
  paths = rw l.same_paths l.paths;
  same_paths = sym l.same_paths;
  there = l.back;
  back = l.there;
}

le-max_seq : (c : SecureChannel) → next_seq c ≤ max_seq c
unfolding next_seq max_seq
le-max_seq c = ground arith

module _ (p : Primitives) (sound : IsSound p) where
  -- the message after the last is taken in with the current key
  Accepts-next :
      {c c' : SecureChannel} {now seq : ℕ} {message_id : Bytes} {key : RatchetKey}
      → seq ≡ next_seq c
      → Accepts p now c c' seq message_id key
      → (c'.current_key ≡ derive_next p c.current_key)
        × (next_seq c' ≡ suc seq)
        × (c'.n_paths ≡ c.n_paths)
        × (next_send_seq c' ≡ next_send_seq c)
  unfolding next_seq next_send_seq after_forward derive_n
  Accepts-next {c} {seq} at (forward first last made e) =
      rw e (
        ap (λ n. derive_next p (derive_n p n c.current_key)) {y = 0} (omega arith),
        refl,
        refl,
        refl,
      )
  Accepts-next {c} {seq} at (behind first found e) = absurd (omega arith)

  next_seq-advance : (c : SecureChannel) → next_seq (advance p c) ≡ next_seq c
  unfolding next_seq advance
  next_seq-advance c = refl

  target-next :
      (c : SecureChannel) (seq : ℕ) (message_id : Bytes)
      → seq ≡ next_seq c
      → (t : Target) × (find_target p c seq message_id ≡ ok t) × (t.target_key ≡ c.current_key)
  unfolding derive_n
  target-next c seq message_id at =
      let window = le-max_seq c in
      (
        forward_target p c.current_key (next_seq c) seq,
        find_target_lem p c seq message_id ∙ ground arith,
        Finds-forward_key p c.current_key (next_seq c) seq
            ∙ ap (λ n. derive_n p n c.current_key) {y = 0} (omega arith),
      )

  advance-Linked :
      {c d d' : SecureChannel}
      → Linked c d
      → suc (next_seq d) < 2 ^ 64
      → IsValid d'
      → d'.current_key ≡ derive_next p d.current_key
      → next_seq d' ≡ suc (next_seq d)
      → d'.n_paths ≡ d.n_paths
      → next_send_seq d' ≡ next_send_seq d
      → Linked (advance p c) d'
  unfolding advance next_send_seq next_seq derive_next
  advance-Linked {c} {d} {d'} l small v key seq paths number = record {
    valid = advance-IsValid p c l.valid;
    valid' = v;
    key = ap (derive_next p) l.key ∙ sym key;
    key_size = sound.length-sha256 _;
    paths = l.paths;
    same_paths = paths ∙ l.same_paths;
    there = rw (l.there, seq) (omega arith);
    back = number ∙ l.back;
  }

  -- what a turn from `c` to `d` leads to
  pub record Conveyed (c d : SecureChannel) (t : Turn) (draw : ℕ) : Type 0 where
    pub c' : SecureChannel
    pub d' : SecureChannel
    pub draw' : ℕ
    pub run : convey p c d t draw ≡ (c', d', ok t.payload, draw')
    pub linked : Linked c' d'
    pub sum : next_seq c' + next_seq d' ≡ suc (next_seq c + next_seq d)

  pub convey_total :
      (c d : SecureChannel) (t : Turn) (draw : ℕ)
      → Linked c d
      → suc (next_seq d) < 2 ^ 64
      → length t.payload ≤ max_payload_size
      → length t.message_id ≤ max_message_id_len
      → Conveyed c d t draw
  unfolding convey
  convey_total c d t draw l small fit short =
      let seq = next_send_seq c in
      let (envelopes, draw', sent, carries) =
        send_total p sound c draw t.payload t.message_id l.key_size l.paths short fit in
      let (target, found, same) = target-next d seq t.message_id l.there in
      let carried : Carries p d.current_key seq d.n_paths t.message_id t.payload envelopes =
        subst₂ (λ key n. Carries p key seq n t.message_id t.payload envelopes) l.key
          (sym l.same_paths) carries in
      let (d', got, step) =
        Carries-Accepts p l.valid' t.now seq t.message_id envelopes target d.current_key t.payload
          found same short carried in
      let (key, next, paths, number) = Accepts-next l.there step in
      record {
        c' = advance p c;
        d' = d';
        draw' = draw';
        run = ap (deliver p d t seq) sent ∙ ap (λ r. (advance p c, r.0, r.1, draw')) got;
        linked =
            advance-Linked l small (Accepts-IsValid p l.valid' step) key (next ∙ ap suc l.there)
              paths number;
        sum = omega (arith, next, l.there, next_seq-advance c);
      }
