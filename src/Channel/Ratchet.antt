-- ===== src/Channel/Ratchet.antt =====
-- The keys of a receiving channel of src/channel.rs, by their places in the ratchet from the root key.
use mathlib.Core.Path.{subst}
use null_path.Base.{ℕ, suc, ◌+◌, ◌-◌, ◌≡◌, refl, sym, ap, ◌∙◌, inl, inr, some, List, arith}
use null_path.Channel.Invariant.{IsValid, receive_lem}
use null_path.Channel.Skipped.{get-forward_skipped}
use null_path.Channel.Step.{next_seq, after_skipped, after_forward, Accepts, forward, behind}
use null_path.Channel.{SecureChannel, new, receive}
use null_path.Collections.BTreeMap
use null_path.PathEngine
use null_path.PathEngine.Chain.{derive_n, derive_n-derive_n}
use null_path.PathEngine.{RatchetKey}
use null_path.Primitives.{Bytes, Primitives}

module _ (p : Primitives) (root : RatchetKey) where
  -- the current key and every skipped key stand at their places in the ratchet from `root`
  pub record Follows (c : SecureChannel) : Type 0 where
    pub current : c.current_key ≡ derive_n p (next_seq c) root
    pub skipped :
        (s : ℕ) (key : RatchetKey)
        → BTreeMap.get s c.skipped_keys ≡ some key
        → key ≡ derive_n p s root

  pub ahead_key :
      {c : SecureChannel} (i seq : ℕ)
      → Follows c
      → i + next_seq c ≡ seq
      → derive_n p i c.current_key ≡ derive_n p seq root
  ahead_key {c} i seq f h =
      ap (derive_n p i) f.current
      ∙ derive_n-derive_n p i (next_seq c) root
      ∙ ap (λ n. derive_n p n root) h

  -- The key under which a message is accepted is the root key advanced as often as its number says.
  pub Accepts-key :
      {c c' : SecureChannel} {now seq : ℕ} {message_id : Bytes} {key : RatchetKey}
      → Follows c
      → Accepts p now c c' seq message_id key
      → key ≡ derive_n p seq root
  Accepts-key {c} {seq} f (forward lo hi made e) =
      made ∙ ahead_key (seq - next_seq c) seq f (omega arith)
  Accepts-key {seq} {key} f (behind lo found e) = f.skipped seq key found

  pub Accepts-Follows :
      {c c' : SecureChannel} {now seq : ℕ} {message_id : Bytes} {key : RatchetKey}
      → IsValid c
      → Follows c
      → Accepts p now c c' seq message_id key
      → Follows c'
  unfolding after_forward after_skipped next_seq
  Accepts-Follows {c} {seq} v f (forward lo hi made e) =
      let current = ahead_key (suc (seq - next_seq c)) (suc seq) f (omega arith) in
      rw e (record {
        current = current;
        skipped = λ s key h.
            elim (get-forward_skipped p c.current_key (next_seq c) seq c.skipped_keys s key
              v.ordered h) [
                | inl fresh ↦ fresh.2 ∙ ahead_key (s - next_seq c) s f (omega arith)
                | inr old ↦ f.skipped s key old
              ];
      })
  Accepts-Follows {c} {seq} v f (behind lo found e) = rw e (record {
    current = f.current;
    skipped = λ s key h.
        f.skipped s key (ground (arith, BTreeMap.get-remove seq s 0 c.skipped_keys v.ordered));
  })

  -- On a valid channel whose keys stand at their places in the ratchet from the root key, a call of
  -- `receive` with any arguments leaves the current key and every skipped key at their places.
  pub receive-Follows :
      {c : SecureChannel} (now : ℕ) (envelopes : List Bytes) (seq : ℕ) (message_id : Bytes)
      → IsValid c
      → Follows c
      → Follows (receive p now c envelopes seq message_id).0
  receive-Follows now envelopes seq message_id v f =
      elim (receive_lem p v now envelopes seq message_id) [
        | inl a ↦ Accepts-Follows v f a.step
        | inr r ↦ subst Follows (sym r.0) f
      ]

pub new-Follows :
    (p : Primitives) (root_key : Bytes) (n_paths : ℕ)
    → Follows p (PathEngine.new root_key) (new root_key n_paths)
unfolding new next_seq derive_n BTreeMap.get
new-Follows p root_key n_paths = record { current = refl; skipped = λ s key h. cc }
