-- ===== src/Channel/Invariant.antt =====
-- The invariant of `SecureChannel` of src/channel.rs, and what a call of `receive` does to a state
-- that has it.
use mathlib.Core.Path.{subst}
use null_path.AntiReplay
use null_path.AntiReplay.Entries.{
  AllKeys, AllKeys-map, check_and_insert-AllKeys, check_and_insert-refused,
}
use null_path.AntiReplay.Invariant.{
  IsValid as StoreIsValid, new-IsValid as store_new-IsValid, check_and_insert-IsValid,
}
use null_path.AntiReplay.{Key}
use null_path.Base.{
  ℕ, ◌≤◌, ◌<◌, ◌≡◌, refl, sym, ap, ◌∙◌, ◌⊎◌, inl, inr, Option, none, some, List, arith, length,
}
use null_path.Channel.Receive.{Refused, Accepted, Late, receive-cases}
use null_path.Channel.Skipped.{
  get-forward_skipped, length-forward_skipped-le, forward_skipped-Ascends,
}
use null_path.Channel.Step.{
  next_seq, recorded, after_skipped, after_forward, Accepts, forward, behind, Finds, ahead, back,
}
use null_path.Channel.{SecureChannel, Target, new, max_skipped_keys, receive}
use null_path.Collections.BTreeMap
use null_path.Collections.BTreeMap.{Ascends}
use null_path.PathEngine.{RatchetKey}
use null_path.Primitives.{Bytes, Primitives}

-- a forward step has passed the number, and its key is gone
abbrev pub Consumed : SecureChannel → ℕ → Type 0
Consumed c s = (s < next_seq c) × (BTreeMap.get s c.skipped_keys ≡ none)

pub record IsValid (c : SecureChannel) : Type 0 where
  pub ordered : Ascends 0 c.skipped_keys
  pub bounded : length c.skipped_keys ≤ max_skipped_keys
  pub below : (s : ℕ) (key : RatchetKey) → BTreeMap.get s c.skipped_keys ≡ some key → s < next_seq c
  pub store : StoreIsValid c.anti_replay
  pub seen : AllKeys (λ k. Consumed c k.0) c.anti_replay.entries

pub new-IsValid : (root_key : Bytes) (n_paths : ℕ) → IsValid (new root_key n_paths)
unfolding new BTreeMap.get AntiReplay.new
new-IsValid root_key n_paths = record {
  ordered = tt;
  bounded = omega arith;
  below = λ s key h. cc;
  store = store_new-IsValid;
  seen = tt;
}

none_of_not-some {ℓ} : {A : Type ℓ} (o : Option A) → ((a : A) → ¬ (o ≡ some a)) → o ≡ none
none_of_not-some none h = refl
none_of_not-some (some a) h = absurd (h a refl)

module _ (p : Primitives) {c : SecureChannel} (v : IsValid c) (now seq : ℕ)
    (message_id : Bytes) where
  forward-below :
      (s : ℕ) (k : RatchetKey)
      → next_seq c ≤ seq
      → BTreeMap.get s (after_forward p now c seq message_id).skipped_keys ≡ some k
      → s < next_seq (after_forward p now c seq message_id)
  unfolding next_seq after_forward
  forward-below s k lo h =
      elim (get-forward_skipped p c.current_key (next_seq c) seq c.skipped_keys s k v.ordered h) [
        | inl fresh ↦ omega arith
        | inr old ↦ let b = v.below s k old in omega arith
      ]

  skipped-below :
      (s : ℕ) (k : RatchetKey)
      → BTreeMap.get s (after_skipped now c seq message_id).skipped_keys ≡ some k
      → s < next_seq (after_skipped now c seq message_id)
  unfolding next_seq after_skipped
  skipped-below s k h =
      v.below s k (ground (arith, BTreeMap.get-remove seq s 0 c.skipped_keys v.ordered))

module _ (p : Primitives) {c c' : SecureChannel} (v : IsValid c) where
  module _ {now seq : ℕ} {message_id : Bytes} {key : RatchetKey} where
    -- What is consumed stays so.
    pub Accepts-Consumed :
        (s : ℕ) → Accepts p now c c' seq message_id key → Consumed c s → Consumed c' s
    unfolding next_seq after_forward after_skipped
    Accepts-Consumed s (forward lo hi made e) h = rw e (
      omega arith,
      none_of_not-some _ (λ k found.
          elim (get-forward_skipped p c.current_key (next_seq c) seq c.skipped_keys s k v.ordered
            found) [ inl fresh ↦ omega arith | inr old ↦ cc ]),
    )
    Accepts-Consumed s (behind lo found e) h =
        rw e (h.0, BTreeMap.get-remove seq s 0 c.skipped_keys v.ordered ∙ ground arith)

    -- The message that is accepted was not consumed, and is then.
    pub Accepts-Consumed_self :
        Accepts p now c c' seq message_id key → (¬ Consumed c seq) × Consumed c' seq
    unfolding next_seq after_forward after_skipped
    Accepts-Consumed_self (forward lo hi made e) = (
      λ h. omega arith,
      rw e (
        omega arith,
        none_of_not-some _ (λ k found.
            elim (get-forward_skipped p c.current_key (next_seq c) seq c.skipped_keys seq k
              v.ordered found) [
                | inl fresh ↦ omega arith
                | inr old ↦ let b = v.below seq k old in omega arith
              ]),
      ),
    )
    Accepts-Consumed_self (behind lo found e) =
        (λ h. cc, rw e (lo, BTreeMap.get-remove seq seq 0 c.skipped_keys v.ordered ∙ ground arith))

    seen_after :
        Accepts p now c c' seq message_id key
        → AllKeys (λ k. Consumed c' k.0) (recorded now c seq message_id).entries
    unfolding recorded
    seen_after a =
        check_and_insert-AllKeys (λ k. Consumed c' k.0) c.anti_replay now seq message_id
          (AllKeys-map (λ k. Consumed c k.0) (λ k. Consumed c' k.0) c.anti_replay.entries
            (λ k. Accepts-Consumed k.0 a) v.seen)
          (Accepts-Consumed_self a).1

    pub Accepts-IsValid : Accepts p now c c' seq message_id key → IsValid c'
    unfolding recorded after_forward after_skipped
    Accepts-IsValid (forward lo hi made e) =
        let store = check_and_insert-IsValid c.anti_replay now seq message_id v.store in
        let skipped = c.skipped_keys in
        record {
          ordered = rw e (
              forward_skipped-Ascends p c.current_key (next_seq c) seq skipped 0 (omega arith)
                v.ordered);
          bounded = rw e (length-forward_skipped-le p c.current_key (next_seq c) seq skipped);
          below = rw e (λ s k h. forward-below p v now seq message_id s k lo h);
          store = rw e store;
          seen =
              subst (AllKeys (λ k. Consumed c' k.0)) (ap (λ d. d.anti_replay.entries) (sym e))
                (seen_after (forward lo hi made e));
        }
    Accepts-IsValid (behind lo found e) =
        let store = check_and_insert-IsValid c.anti_replay now seq message_id v.store in
        record {
          ordered = rw e (BTreeMap.remove-Ascends seq 0 c.skipped_keys v.ordered);
          bounded = rw e (omega (arith, BTreeMap.length-remove-le seq c.skipped_keys, v.bounded));
          below = rw e (skipped-below p v now seq message_id);
          store = rw e store;
          seen =
              subst (AllKeys (λ k. Consumed c' k.0)) (ap (λ d. d.anti_replay.entries) (sym e))
                (seen_after (behind lo found e));
        }

module _ (p : Primitives) {c : SecureChannel} (v : IsValid c) where
  -- Step 4 never refuses what the state could take in.
  pub Late-impossible : (now seq : ℕ) (message_id : Bytes) → ¬ Late p now c seq message_id
  Late-impossible now seq message_id l = go l.target l.finds
    where
      consumed : Consumed c seq
      consumed =
          check_and_insert-refused (λ k. Consumed c k.0) c.anti_replay now seq message_id v.seen
            l.refused

      go : (t : Target) → Finds p c seq t → ⊥
      go t (ahead lo hi made) = omega (arith, consumed.0)
      go t (back key lo found made) = cc (consumed.1)

  -- On a valid channel `receive` either returns a payload that authenticated under the channel's key
  -- for the message, and takes the step for it, or returns none and changes nothing: not the ratchet,
  -- not the skipped keys, not the anti-replay store.
  pub receive_lem :
      (now : ℕ) (envelopes : List Bytes) (seq : ℕ) (message_id : Bytes)
      → Accepted p now c
          (receive p now c envelopes seq message_id).0
          envelopes
          seq
          message_id
          (receive p now c envelopes seq message_id).1
        ⊎ Refused p c
            (receive p now c envelopes seq message_id).0
            (receive p now c envelopes seq message_id).1
  receive_lem now envelopes seq message_id = elim (receive-cases p now c envelopes seq message_id) [
    | inl a ↦ inl a
    | inr (inl r) ↦ inr r
    | inr (inr l) ↦ absurd (Late-impossible now seq message_id l)
  ]

  -- Whatever arrives, and whenever, the invariant is kept.
  pub receive-IsValid :
      (now : ℕ) (envelopes : List Bytes) (seq : ℕ) (message_id : Bytes)
      → IsValid (receive p now c envelopes seq message_id).0
  receive-IsValid now envelopes seq message_id = elim (receive_lem now envelopes seq message_id) [
    | inl a ↦ Accepts-IsValid p v a.step
    | inr r ↦ subst IsValid (sym r.0) v
  ]
