-- ===== src/Channel/Arrivals.antt =====
-- Messages that arrive at a channel of src/channel.rs in any order.
use mathlib.Core.Option.{or_else}
use null_path.Base.{
  ℕ, ◌+◌, ◌-◌, ◌≤◌, ◌<◌, ◌≡◌, ◌≢◌, inl, inr, refl, ap, ◌∙◌, List, [], ◌∷◌, map, arith, Result, ok,
  length, Bool-cases, ltb, ltb→lt, ltb→le,
}
use null_path.Channel.Accept.{Carries}
use null_path.Channel.Delivery.{CanAccept, receive-Accepts}
use null_path.Channel.Invariant.{IsValid, Accepts-IsValid}
use null_path.Channel.Ratchet.{Follows, Accepts-Follows}
use null_path.Channel.Skipped.Kept.{get-forward_skipped_kept}
use null_path.Channel.Skipped.{forward_skipped-Ascends}
use null_path.Channel.Step.{
  next_seq, max_seq, after_skipped, after_forward, Accepts, forward, behind,
}
use null_path.Channel.{SecureChannel, max_message_id_len, max_skipped_keys, receive}
use null_path.Collections.BTreeMap
use null_path.Collections.BTreeMap.{Ascends}
use null_path.Errors.{ChannelError}
use null_path.PathEngine.Chain.{derive_n}
use null_path.PathEngine.{RatchetKey}
use null_path.Primitives.{Bytes, Primitives}

-- envelopes that arrive at a time, with the number and the ID of their message, and its payload
pub record Arrival : Type 0 where
  pub now : ℕ
  pub seq : ℕ
  pub message_id : Bytes
  pub payload : Bytes
  pub envelopes : List Bytes

-- the calls of `receive` for arrivals in their order
unfoldable pub receive_all :
    Primitives → SecureChannel → List Arrival → SecureChannel × List (Result ChannelError Bytes)
receive_all p c [] = (c, [])
receive_all p c (m ∷ ms) =
    let (c', r) = receive p m.now c m.envelopes m.seq m.message_id in
    let (c'', rs) = receive_all p c' ms in (c'', r ∷ rs)

-- all numbers are other than this one
abbrev pub Differ : ℕ → List Arrival → Type 0
Differ s [] = Unit
Differ s (m ∷ ms) = (m.seq ≢ s) × Differ s ms

abbrev pub Distinct : List Arrival → Type 0
Distinct [] = Unit
Distinct (m ∷ ms) = Differ m.seq ms × Distinct ms

abbrev Pending : SecureChannel → List Arrival → Type 0
Pending c [] = Unit
Pending c (m ∷ ms) = CanAccept c m.seq × Pending c ms

-- every skipped key is at `lo` or later
pub record Ready (lo : ℕ) (c : SecureChannel) : Type 0 where
  pub rises : Ascends lo c.skipped_keys
  pub passed : lo ≤ next_seq c

max_seq-le : (c : SecureChannel) → max_seq c ≤ next_seq c + max_skipped_keys
unfolding max_seq next_seq
max_seq-le c = ground arith

module _ (p : Primitives) (root : RatchetKey) where
  -- the envelopes of the arrival carry it, and its number lies between the two
  pub record IsCarried (n_paths lo hi : ℕ) (m : Arrival) : Type 0 where
    pub from : lo ≤ m.seq
    pub to : m.seq ≤ hi
    pub short : length m.message_id ≤ max_message_id_len
    pub carries : Carries p (derive_n p m.seq root) m.seq n_paths m.message_id m.payload m.envelopes

  abbrev pub AllCarry : ℕ → ℕ → ℕ → List Arrival → Type 0
  AllCarry n_paths lo hi [] = Unit
  AllCarry n_paths lo hi (m ∷ ms) = IsCarried n_paths lo hi m × AllCarry n_paths lo hi ms

  module _ {c : SecureChannel} (v : IsValid c) (lo : ℕ) (ready : Ready lo c) (now seq : ℕ)
      (message_id : Bytes) where
    forward-CanAccept :
        (s : ℕ)
        → next_seq c ≤ seq
        → seq ≤ lo + max_skipped_keys
        → s ≢ seq
        → CanAccept c s
        → CanAccept (after_forward p now c seq message_id) s
    unfolding after_forward next_seq max_seq or_else
    forward-CanAccept s first near other (inl (from, within)) =
        let kept =
          get-forward_skipped_kept p c.current_key lo (next_seq c) seq c.skipped_keys s ready.passed
            first near ready.rises v.below in
        let window = max_seq-le c in
        elim (Bool-cases (ltb seq s)) [
          | inl later ↦ inl (ltb→lt seq s later, omega arith)
          | inr earlier ↦
              let before : s < seq = omega (arith, ltb→le seq s earlier) in
              inr (omega arith, (derive_n p (s - next_seq c) c.current_key, kept ∙ ground arith))
        ]
    forward-CanAccept s first near other (inr (below, (k, found))) =
        let kept =
          get-forward_skipped_kept p c.current_key lo (next_seq c) seq c.skipped_keys s ready.passed
            first near ready.rises v.below in
        inr (omega arith, (k, kept ∙ ground arith))

    behind-CanAccept :
        (s : ℕ) → s ≢ seq → CanAccept c s → CanAccept (after_skipped now c seq message_id) s
    unfolding after_skipped next_seq max_seq
    behind-CanAccept s other (inl can) = inl can
    behind-CanAccept s other (inr (below, (k, found))) =
        let gone = BTreeMap.get-remove seq s 0 c.skipped_keys v.ordered in
        inr (below, (k, gone ∙ ground arith))

  module _ {c c' : SecureChannel} (v : IsValid c) (lo : ℕ) (ready : Ready lo c) {now seq : ℕ}
      {message_id : Bytes} {key : RatchetKey} where
    pub Accepts-n_paths : Accepts p now c c' seq message_id key → c'.n_paths ≡ c.n_paths
    unfolding after_forward after_skipped
    Accepts-n_paths (forward _ _ _ e) = ap (λ d. d.n_paths) e
    Accepts-n_paths (behind _ _ e) = ap (λ d. d.n_paths) e

    pub Accepts-Ready : Accepts p now c c' seq message_id key → Ready lo c'
    unfolding after_forward after_skipped next_seq
    Accepts-Ready (forward first last made e) = rw e (record {
      rises =
          forward_skipped-Ascends p c.current_key (next_seq c) seq c.skipped_keys lo ready.passed
            ready.rises;
      passed = omega (arith, ready.passed);
    })
    Accepts-Ready (behind first found e) = rw e (record {
      rises = BTreeMap.remove-Ascends seq lo c.skipped_keys ready.rises;
      passed = ready.passed;
    })

    -- Another message that could be taken in still can be.
    pub Accepts-CanAccept :
        (s : ℕ)
        → seq ≤ lo + max_skipped_keys
        → s ≢ seq
        → Accepts p now c c' seq message_id key
        → CanAccept c s
        → CanAccept c' s
    Accepts-CanAccept s near other (forward first last made e) can =
        rw e (forward-CanAccept v lo ready now seq message_id s first near other can)
    Accepts-CanAccept s near other (behind first found e) can =
        rw e (behind-CanAccept v lo ready now seq message_id s other can)

    Accepts-Pending :
        (ms : List Arrival)
        → seq ≤ lo + max_skipped_keys
        → Differ seq ms
        → Accepts p now c c' seq message_id key
        → Pending c ms
        → Pending c' ms
    Accepts-Pending [] near other a pending = tt
    Accepts-Pending (m ∷ ms) near (differs, other) a (can, pending) =
        (Accepts-CanAccept m.seq near differs a can, Accepts-Pending ms near other a pending)

  receive_all-Pending :
      (c : SecureChannel) (n_paths lo hi : ℕ) (ms : List Arrival)
      → IsValid c
      → Follows p root c
      → Ready lo c
      → c.n_paths ≡ n_paths
      → hi ≤ lo + max_skipped_keys
      → AllCarry n_paths lo hi ms
      → Distinct ms
      → Pending c ms
      → (receive_all p c ms).1 ≡ map (λ m. ok m.payload) ms
  unfolding receive_all
  receive_all-Pending c n_paths lo hi [] v f ready same near carry distinct pending = refl
  receive_all-Pending c n_paths lo hi (m ∷ ms) v f ready same near (is, carry) (differs, distinct)
        (can, pending) =
      let (c', run, step) =
        receive-Accepts p root c m.now m.seq m.message_id m.payload m.envelopes v f can is.short
          (rw same (is.carries)) in
      let rest =
        receive_all-Pending c' n_paths lo hi ms (Accepts-IsValid p v step)
          (Accepts-Follows p root v f step) (Accepts-Ready v lo ready step)
          (Accepts-n_paths v lo ready step ∙ same) near carry distinct
          (Accepts-Pending v lo ready ms (omega (arith, is.to)) differs step pending) in
      rw run (ap (λ rs. ok m.payload ∷ rs) rest)

  AllCarry-Pending :
      (c : SecureChannel) (n_paths : ℕ) (ms : List Arrival)
      → AllCarry n_paths (next_seq c) (max_seq c) ms
      → Pending c ms
  AllCarry-Pending c n_paths [] carry = tt
  AllCarry-Pending c n_paths (m ∷ ms) (is, carry) =
      (inl (is.from, is.to), AllCarry-Pending c n_paths ms carry)

  -- A valid channel that follows the root key and holds no skipped keys delivers every message of
  -- its window, in whatever order and at whatever times they arrive: if the numbers are distinct,
  -- from the next expected one to the last one that the window admits, and the envelopes of each
  -- carry it, the calls of `receive` return the payloads, each in its turn.
  pub receive_all-delivers :
      (c : SecureChannel) (ms : List Arrival)
      → IsValid c
      → Follows p root c
      → c.skipped_keys ≡ []
      → AllCarry c.n_paths (next_seq c) (max_seq c) ms
      → Distinct ms
      → (receive_all p c ms).1 ≡ map (λ m. ok m.payload) ms
  receive_all-delivers c ms v f empty carry distinct =
      receive_all-Pending c c.n_paths (next_seq c) (max_seq c) ms v f
        (record { rises = rw empty tt; passed = omega arith }) refl (max_seq-le c) carry distinct
        (AllCarry-Pending c c.n_paths ms carry)
