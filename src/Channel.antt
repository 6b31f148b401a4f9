-- ===== src/Channel.antt =====
-- src/channel.rs: the channel that sends and receives sets of envelopes. `Instant::now()` in the
-- anti-replay store is the argument `now` of `receive`, and `send` carries the number of draws.
-- The addition `s + 1` wraps, as in a build without overflow checks.
pub mod Skipped
pub mod Step
pub mod Receive
pub mod Invariant
pub mod Sending
pub mod Replay
pub mod Ratchet
pub mod Accept
pub mod Delivery
pub mod Exchange
pub mod Arrivals
pub mod Dispatch
pub mod Turns
pub mod Conversation
pub mod Aad
pub mod Judgement
pub mod Receiver
pub mod Refusal
pub mod Integrity
pub mod Crossing
use null_path.AntiReplay
use null_path.AntiReplay.{AntiReplayStore}
use null_path.Base.{
  ℕ, zero, suc, ◌+◌, ◌-◌, ◌%◌, ◌^◌, Bool, true, false, Option, none, some, List, [], ◌∷◌, ◌++◌,
  Result, ok, err, panic, map_err, ◌>>=◌, length, get_elem?, to_be_bytes, codes, ltb, leb, ◌==◌,
  if◌then◌else◌,
}
use null_path.Collections.BTreeMap
use null_path.Decoy.{generate_multi_path_slots}
use null_path.Envelope.{seal, open_envelope}
use null_path.Errors.{ChannelError}
use null_path.PathEngine
use null_path.PathEngine.{RatchetKey, duplicate_for_target_use, derive_next, select_slot}
use null_path.Primitives.{Bytes, Primitives}

abbrev pub max_skip_window : ℕ
max_skip_window = 1000

abbrev pub max_skipped_keys : ℕ
max_skipped_keys = 1000

abbrev pub max_message_id_len : ℕ
max_message_id_len = 256

pub record SecureChannel : Type 0 where
  pub last_seq : Option ℕ
  pub send_seq : Option ℕ
  pub current_key : RatchetKey
  pub skipped_keys : List (ℕ × RatchetKey)
  pub anti_replay : AntiReplayStore
  pub n_paths : ℕ

-- from the bytes of a `RootKey`
unfoldable pub new : Bytes → ℕ → SecureChannel
new root_key n_paths = record {
  last_seq = none;
  send_seq = none;
  current_key = PathEngine.new root_key;
  skipped_keys = [];
  anti_replay = AntiReplay.new;
  n_paths = n_paths;
}

abbrev aad_label : Bytes
aad_label = codes "decoypath-v1-msg-aad:"

unfoldable pub construct_aad : ℕ → Bytes → Bytes
construct_aad seq message_id = aad_label ++ (to_be_bytes 8 seq ++ message_id)

-- `while skipped_keys.len() > MAX_SKIPPED_KEYS { skipped_keys.pop_first() }`
unfoldable pub evict_oldest_skipped_keys : List (ℕ × RatchetKey) → List (ℕ × RatchetKey)
evict_oldest_skipped_keys [] = []
evict_oldest_skipped_keys (e ∷ m) =
    if ltb max_skipped_keys (length (e ∷ m)) then evict_oldest_skipped_keys m else e ∷ m

-- the sequence number of the next message
unfoldable pub next_send_seq : SecureChannel → ℕ
next_send_seq c = elim c.send_seq [ none ↦ 0 | some s ↦ (s + 1) % 2 ^ 64 ]

-- what Step 1 of `receive` computes
pub record Target : Type 0 where
  pub target_key : RatchetKey
  pub next_ratchet_key : Option RatchetKey
  pub is_forward : Bool
  pub local_skipped : List (ℕ × RatchetKey)

-- `for (s, k) in local_skipped { skipped_keys.insert(s, k) }`
unfoldable pub insert_all : List (ℕ × RatchetKey) → List (ℕ × RatchetKey) → List (ℕ × RatchetKey)
insert_all [] skipped = skipped
insert_all ((s, k) ∷ m) skipped = insert_all m (BTreeMap.insert s k skipped)

-- Step 5 of `receive`; `unwrap` panics on `None`
unfoldable pub commit :
    SecureChannel → Target → ℕ → Bytes → SecureChannel × Result ChannelError Bytes
commit c t seq payload =
    if t.is_forward
    then (let skipped = evict_oldest_skipped_keys (insert_all t.local_skipped c.skipped_keys) in
        let c' = record c { skipped_keys = skipped; last_seq = some seq } in
        elim t.next_ratchet_key [
          | some key ↦ (record c' { current_key = key }, ok payload)
          | none ↦ (c', panic)
        ])
    else (record c { skipped_keys = BTreeMap.remove seq c.skipped_keys }, ok payload)

-- Step 4 of `receive`, at the time `now`, and the rest
unfoldable pub insert_and_commit :
    ℕ → SecureChannel → Target → ℕ → Bytes → Bytes → SecureChannel × Result ChannelError Bytes
insert_and_commit now c t seq message_id payload =
    let (store, inserted) = AntiReplay.check_and_insert c.anti_replay now seq message_id in
    let c' = record c { anti_replay = store } in
    if inserted then commit c' t seq payload else (c', err ChannelError.replayed_sequence)

-- the envelope at an index that was checked
unfoldable pub index : List Bytes → ℕ → Result ChannelError Bytes
index envelopes i = elim (get_elem? envelopes i) [ some e ↦ ok e | none ↦ panic ]

module _ (p : Primitives) where
  -- `for s in from..from + left`, with the keys skipped so far
  unfoldable pub run_ahead :
      ℕ → ℕ → RatchetKey → List (ℕ × RatchetKey) → List (ℕ × RatchetKey) × RatchetKey
  run_ahead zero s runner skipped = (skipped, runner)
  run_ahead (suc left) s runner skipped =
      run_ahead left (s + 1) (derive_next p runner)
        (BTreeMap.insert s (duplicate_for_target_use runner) skipped)

  -- the target behind the keys of `from..seq`
  unfoldable pub forward_target : RatchetKey → ℕ → ℕ → Target
  forward_target current from seq =
      let (skipped, runner) = run_ahead (seq - from) from (duplicate_for_target_use current) [] in
      record {
        target_key = duplicate_for_target_use runner;
        next_ratchet_key = some (derive_next p runner);
        is_forward = true;
        local_skipped = skipped;
      }

  -- the branch `seq > last`, and the branch of a first message with `seq > 0`
  unfoldable pub bounded_target : RatchetKey → ℕ → ℕ → ℕ → Result ChannelError Target
  bounded_target current skip_count from seq =
      if ltb max_skip_window skip_count
      then err ChannelError.invalid_sequence
      else ok (forward_target current from seq)

  -- the branch `seq <= last`: a key that was skipped
  unfoldable pub skipped_target : SecureChannel → ℕ → Bytes → Result ChannelError Target
  skipped_target c seq message_id = elim (BTreeMap.get seq c.skipped_keys) [
    | some key ↦ ok (record {
      target_key = duplicate_for_target_use key;
      next_ratchet_key = none;
      is_forward = false;
      local_skipped = [];
    })
    | none ↦
        if AntiReplay.contains c.anti_replay seq message_id
        then err ChannelError.replayed_sequence
        else err ChannelError.skipped_key_expired
  ]

  -- Step 1 of `receive`
  unfoldable pub find_target : SecureChannel → ℕ → Bytes → Result ChannelError Target
  find_target c seq message_id = elim c.last_seq [
    | none ↦
        if seq == 0
        then ok (record {
          target_key = duplicate_for_target_use c.current_key;
          next_ratchet_key = some (derive_next p c.current_key);
          is_forward = true;
          local_skipped = [];
        })
        else bounded_target c.current_key seq 0 seq
    | some last ↦
        if ltb last seq
        then bounded_target c.current_key (seq - last) (last + 1) seq
        else skipped_target c seq message_id
  ]

  -- Steps 2 and 3 of `receive`
  unfoldable pub authenticate : RatchetKey → List Bytes → ℕ → ℕ → Bytes → Result ChannelError Bytes
  authenticate key envelopes n_paths seq message_id = do
    slot_idx ← map_err ChannelError.decoy_failure (select_slot p key.bytes message_id n_paths)
    envelope ←
        if leb (length envelopes) slot_idx
        then err ChannelError.decoy_failure
        else index envelopes slot_idx
    map_err ChannelError.authentication_failed
        (open_envelope p key.bytes envelope (construct_aad seq message_id))

  -- the read-only part of `receive`: the target and the payload
  unfoldable pub examine :
      SecureChannel → List Bytes → ℕ → Bytes → Result ChannelError (Target × Bytes)
  examine c envelopes seq message_id =
      if ltb max_message_id_len (length message_id)
      then err ChannelError.invalid_message_id
      else if ltb (length envelopes) c.n_paths
      then err ChannelError.decoy_failure
      else do
        t ← find_target c seq message_id
        payload ← authenticate t.target_key envelopes c.n_paths seq message_id
        ok (t, payload)

  unfoldable pub receive :
      ℕ → SecureChannel → List Bytes → ℕ → Bytes → SecureChannel × Result ChannelError Bytes
  receive now c envelopes seq message_id = elim (examine c envelopes seq message_id) [
    | ok (t, payload) ↦ insert_and_commit now c t seq message_id payload
    | err e ↦ (c, err e)
    | panic ↦ (c, panic)
  ]

  -- the part of `send` behind the sealing: the state is advanced before the slots are made
  unfoldable pub distribute :
      SecureChannel
      → ℕ
      → ℕ
      → Bytes
      → Result ChannelError Bytes × ℕ
      → SecureChannel × Result ChannelError (List Bytes) × ℕ
  distribute c seq valid_slot aad (ok real_envelope, draw) =
      let c' = record c { current_key = derive_next p c.current_key; send_seq = some seq } in
      let (slots, draw') =
        generate_multi_path_slots p real_envelope valid_slot c.n_paths aad draw in
      (c', map_err ChannelError.decoy_failure slots, draw')
  distribute c seq valid_slot aad (err e, draw) = (c, err e, draw)
  distribute c seq valid_slot aad (panic, draw) = (c, panic, draw)

  unfoldable pub send :
      SecureChannel → Bytes → Bytes → ℕ → SecureChannel × Result ChannelError (List Bytes) × ℕ
  send c payload message_id draw =
      if ltb max_message_id_len (length message_id)
      then (c, err ChannelError.invalid_message_id, draw)
      else (let seq = next_send_seq c in
          elim (map_err ChannelError.decoy_failure
            (select_slot p c.current_key.bytes message_id c.n_paths)) [
              | ok valid_slot ↦
                  let aad = construct_aad seq message_id in
                  let (sealed, draw') = seal p c.current_key.bytes payload aad draw in
                  distribute c seq valid_slot aad
                    (map_err ChannelError.authentication_failed sealed, draw')
              | err e ↦ (c, err e, draw)
              | panic ↦ (c, panic, draw)
            ])

pub last_seq : SecureChannel → Option ℕ
last_seq c = c.last_seq
