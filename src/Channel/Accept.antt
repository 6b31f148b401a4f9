-- ===== src/Channel/Accept.antt =====
-- When `receive` of src/channel.rs takes a message in: its read-only part found a key and a payload.
use null_path.AntiReplay
use null_path.Base.{
  ℕ, ◌≤◌, ◌<◌, ◌≡◌, ◌≢◌, inl, inr, refl, some, List, arith, Result, ok, err, panic, map_err, length,
  get_elem?, leb, le→ltb, leb→lt, get_elem?_is_some, Bool-cases, Result-cases,
}
use null_path.Channel.Invariant.{IsValid, Late-impossible}
use null_path.Channel.Receive.{insert_and_commit-Accepts}
use null_path.Channel.Step.{Accepts, find_target_ok, examine_ok}
use null_path.Channel.{
  SecureChannel, Target, construct_aad, max_message_id_len, skipped_target, bounded_target,
  find_target, index, authenticate, examine, receive,
}
use null_path.Envelope.Sized.{AllSized, AllSized-get_elem?, open_envelope-returns}
use null_path.Envelope.{open_envelope}
use null_path.Errors.{ChannelError}
use null_path.PathEngine.{RatchetKey, select_slot}
use null_path.Primitives.{Bytes, Primitives, IsSound}

-- a set of envelopes that holds the payload as message `n`, sealed under `key` at the slot of the key
pub record Carries (p : Primitives) (key : RatchetKey) (n n_paths : ℕ) (message_id payload : Bytes)
    (envelopes : List Bytes) : Type 0 where
  pub slot : ℕ
  pub envelope : Bytes
  pub chosen : select_slot p key.bytes message_id n_paths ≡ ok slot
  pub size : length envelopes ≡ n_paths
  pub sized : AllSized envelopes
  pub below : slot < n_paths
  pub stands : get_elem? envelopes slot ≡ some envelope
  pub opens : open_envelope p key.bytes envelope (construct_aad n message_id) ≡ ok payload

authenticate-Carries :
    (p : Primitives) (key : RatchetKey) (n n_paths : ℕ) (message_id payload : Bytes)
    (envelopes : List Bytes)
    → Carries p key n n_paths message_id payload envelopes
    → authenticate p key envelopes n_paths n message_id ≡ ok payload
unfolding authenticate index
authenticate-Carries p key n n_paths message_id payload envelopes k = ground arith

module _ (p : Primitives) {c : SecureChannel} (v : IsValid c) (now seq : ℕ)
    (message_id : Bytes) where
  -- On a valid channel a message that passes the read-only part is taken in.
  pub examine-Accepts :
      (envelopes : List Bytes) (t : Target) (payload : Bytes)
      → examine p c envelopes seq message_id ≡ ok (t, payload)
      → (c' : SecureChannel) × (receive p now c envelopes seq message_id ≡ (c', ok payload))
        × Accepts p now c c' seq message_id t.target_key
  unfolding receive
  examine-Accepts envelopes t payload examined =
      let (found, _) = examine_ok p c envelopes seq message_id t payload examined in
      let finds = find_target_ok p c seq message_id t found in
      elim (Bool-cases (AntiReplay.check_and_insert c.anti_replay now seq message_id).1) [
        | inl fresh ↦
            let (c', run, step) =
              insert_and_commit-Accepts p now c t seq message_id payload finds fresh in
            (c', rw (examined, receive, run) refl, step)
        | inr old ↦ absurd (
            Late-impossible p v now seq message_id
              (record { target = t; finds = finds; refused = old }))
      ]

  -- A set of envelopes that carries a message under the key that Step 1 finds is received.
  pub Carries-Accepts :
      (envelopes : List Bytes) (t : Target) (key : RatchetKey) (payload : Bytes)
      → find_target p c seq message_id ≡ ok t
      → t.target_key ≡ key
      → length message_id ≤ max_message_id_len
      → Carries p key seq c.n_paths message_id payload envelopes
      → (c' : SecureChannel) × (receive p now c envelopes seq message_id ≡ (c', ok payload))
        × Accepts p now c c' seq message_id t.target_key
  unfolding examine
  Carries-Accepts envelopes t key payload found same short k =
      let authentic : authenticate p t.target_key envelopes c.n_paths seq message_id ≡ ok payload =
        rw same (authenticate-Carries p key seq c.n_paths message_id payload envelopes k) in
      examine-Accepts envelopes t payload (
        rw (
          le→ltb max_message_id_len (length message_id) short,
          le→ltb (length envelopes) c.n_paths (omega (arith, k.size)),
          found,
          authentic,
        ))

module _ (p : Primitives) (sound : IsSound p) where
  find_target-returns :
      (c : SecureChannel) (seq : ℕ) (message_id : Bytes) → find_target p c seq message_id ≢ panic
  unfolding find_target bounded_target skipped_target
  find_target-returns c seq message_id = λ e. ground arith

  select_slot-returns :
      (key message_id : Bytes) (n_paths : ℕ) → select_slot p key message_id n_paths ≢ panic
  unfolding select_slot
  select_slot-returns key message_id n_paths = λ e. ground arith

  map_err-returns :
      {D E : Type 0} {A : Type 0} (x : E) (r : Result D A) → r ≢ panic → map_err x r ≢ panic
  map_err-returns x (ok a) h = λ e. grind arith
  map_err-returns x (err d) h = λ e. grind arith
  map_err-returns x panic h = λ e. h refl

  authenticate-returns :
      (key : RatchetKey) (envelopes : List Bytes) (n_paths seq : ℕ) (message_id : Bytes)
      → AllSized envelopes
      → authenticate p key envelopes n_paths seq message_id ≢ panic
  unfolding authenticate index
  authenticate-returns key envelopes n_paths seq message_id sized =
      elim (Result-cases (select_slot p key.bytes message_id n_paths)) [
        | inr (inr h) ↦ absurd (select_slot-returns key.bytes message_id n_paths h)
        | inr (inl (x, h)) ↦ λ e. ground (arith, h)
        | inl (slot, h) ↦ elim (Bool-cases (leb (length envelopes) slot)) [
          | inl beyond ↦ λ e. ground (arith, h)
          | inr below ↦
              let (envelope, stands) =
                get_elem?_is_some envelopes slot (leb→lt (length envelopes) slot below) in
              let opens = map_err-returns ChannelError.authentication_failed _ (
                open_envelope-returns p key.bytes envelope (construct_aad seq message_id) sound
                  (AllSized-get_elem? envelopes slot envelope sized stands)) in
              rw (h, authenticate, below, index, stands) opens
        ]
      ]

  examine-returns :
      (c : SecureChannel) (envelopes : List Bytes) (seq : ℕ) (message_id : Bytes)
      → AllSized envelopes
      → examine p c envelopes seq message_id ≢ panic
  unfolding examine
  examine-returns c envelopes seq message_id sized = λ e.
      elim (Result-cases (find_target p c seq message_id)) [
        | inr (inr h) ↦ find_target-returns c seq message_id h
        | inr (inl (x, h)) ↦ ground (arith, h)
        | inl (t, h) ↦
            let returns =
              authenticate-returns t.target_key envelopes c.n_paths seq message_id sized in
            ground (arith, h, returns)
      ]

  -- On a valid channel and envelopes of full length, `receive` never panics: neither the index into
  -- the envelopes nor the `unwrap` of the next key nor an index into the decrypted buffer fails.
  pub receive-returns :
      {c : SecureChannel} (now seq : ℕ) (envelopes : List Bytes) (message_id : Bytes)
      → IsValid c
      → AllSized envelopes
      → (receive p now c envelopes seq message_id).1 ≢ panic
  unfolding receive
  receive-returns {c} now seq envelopes message_id v sized =
      elim (Result-cases (examine p c envelopes seq message_id)) [
        | inl ((t, payload), h) ↦
            let (c', run, step) = examine-Accepts p v now seq message_id envelopes t payload h in
            rw run (λ e. grind arith)
        | inr (inl (x, h)) ↦ rw (h, receive) (λ e. grind arith)
        | inr (inr h) ↦ absurd (examine-returns c envelopes seq message_id sized h)
      ]
