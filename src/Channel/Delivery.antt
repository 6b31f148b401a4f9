-- ===== src/Channel/Delivery.antt =====
-- A message at a channel of src/channel.rs that has, or can derive, its key.
use null_path.Base.{
  ℕ, ◌-◌, ◌≤◌, ◌<◌, ◌≡◌, sym, ap, ◌∙◌, ◌⊎◌, inl, inr, some, List, arith, ok, length,
}
use null_path.Channel.Accept.{Carries, Carries-Accepts}
use null_path.Channel.Invariant.{IsValid}
use null_path.Channel.Ratchet.{Follows, ahead_key}
use null_path.Channel.Receive.{Finds-forward_key}
use null_path.Channel.Step.{
  next_seq, max_seq, Accepts, Finds, ahead, back, skipped_key_target, find_target_lem,
  find_target_ok,
}
use null_path.Channel.{
  SecureChannel, Target, max_message_id_len, forward_target, skipped_target, find_target, receive,
}
use null_path.Collections.BTreeMap
use null_path.PathEngine.Chain.{derive_n}
use null_path.PathEngine.{RatchetKey, duplicate_for_target_use}
use null_path.Primitives.{Bytes, Primitives}

-- the state has, or can derive, the key of the message
abbrev pub CanAccept : SecureChannel → ℕ → Type 0
CanAccept c seq =
    ((next_seq c ≤ seq) × (seq ≤ max_seq c))
    ⊎ ((seq < next_seq c) × ((key : RatchetKey) × (BTreeMap.get seq c.skipped_keys ≡ some key)))

module _ (p : Primitives) (root : RatchetKey) where
  skipped_target-some :
      (c : SecureChannel) (seq : ℕ) (message_id : Bytes) (key : RatchetKey)
      → BTreeMap.get seq c.skipped_keys ≡ some key
      → (t : Target) × (skipped_target p c seq message_id ≡ ok t)
  unfolding skipped_target skipped_key_target duplicate_for_target_use
  skipped_target-some c seq message_id key h = (skipped_key_target p key, rw (h, skipped_target))

  pub find_target_total :
      (c : SecureChannel) (seq : ℕ) (message_id : Bytes)
      → CanAccept c seq
      → (t : Target) × (find_target p c seq message_id ≡ ok t)
  find_target_total c seq message_id (inl (lo, hi)) = (
    forward_target p c.current_key (next_seq c) seq,
    find_target_lem p c seq message_id ∙ ground arith,
  )
  find_target_total c seq message_id (inr (lo, (key, found))) =
      let (t, made) = skipped_target-some c seq message_id key found in
      (t, find_target_lem p c seq message_id ∙ ground (arith, made))

  Finds-key :
      {c : SecureChannel} (seq : ℕ) (t : Target)
      → Follows p root c
      → Finds p c seq t
      → t.target_key ≡ derive_n p seq root
  unfolding skipped_key_target
  Finds-key {c} seq t f (ahead lo hi made) =
      ap (λ u. u.target_key) made
      ∙ Finds-forward_key p c.current_key (next_seq c) seq
      ∙ ahead_key p root (seq - next_seq c) seq f (omega arith)
  Finds-key seq t f (back key lo found made) = ap (λ u. u.target_key) made ∙ f.skipped seq key found

  -- the same with the state that the call leaves
  pub receive-Accepts :
      (c : SecureChannel) (now seq : ℕ) (message_id payload : Bytes) (envelopes : List Bytes)
      → IsValid c
      → Follows p root c
      → CanAccept c seq
      → length message_id ≤ max_message_id_len
      → Carries p (derive_n p seq root) seq c.n_paths message_id payload envelopes
      → (c' : SecureChannel) × (receive p now c envelopes seq message_id ≡ (c', ok payload))
        × Accepts p now c c' seq message_id (derive_n p seq root)
  receive-Accepts c now seq message_id payload envelopes v f can short k =
      let (t, found) = find_target_total c seq message_id can in
      let same = Finds-key seq t f (find_target_ok p c seq message_id t found) in
      let (c', run, step) =
        Carries-Accepts p v now seq message_id envelopes t (derive_n p seq root) payload found same
          short k in
      (c', run, rw (sym same) step)

  -- On a valid channel that follows the root key, a set of envelopes that carries a message whose
  -- number is new and within the window, or skipped with its key not evicted, is received, and gives
  -- the payload.
  pub receive-Carries :
      (c : SecureChannel) (now seq : ℕ) (message_id payload : Bytes) (envelopes : List Bytes)
      → IsValid c
      → Follows p root c
      → CanAccept c seq
      → length message_id ≤ max_message_id_len
      → Carries p (derive_n p seq root) seq c.n_paths message_id payload envelopes
      → (receive p now c envelopes seq message_id).1 ≡ ok payload
  receive-Carries c now seq message_id payload envelopes v f can short k =
      ap (λ r. r.1) (receive-Accepts c now seq message_id payload envelopes v f can short k).1
