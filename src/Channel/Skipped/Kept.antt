-- ===== src/Channel/Skipped/Kept.antt =====
-- The table of skipped keys of src/channel.rs while it has room.
use mathlib.Core.Option.{or_else}
use null_path.Base.{
  ℕ, suc, ◌+◌, ◌-◌, ◌≤◌, ◌<◌, ◌≡◌, ap, ◌∙◌, ◌&&◌, some, none, [], ◌∷◌, arith, length, drop, ltb,
  leb, if◌then◌else◌,
}
use null_path.Channel.Skipped.{
  Skipped, evict-drop, forward_skipped, merged, merged-Ascends, get-merged,
}
use null_path.Channel.{max_skipped_keys}
use null_path.Collections.BTreeMap
use null_path.Collections.BTreeMap.{Ascends}
use null_path.PathEngine.Chain.{derive_n}
use null_path.PathEngine.{RatchetKey}
use null_path.Primitives.{Primitives}

abbrev pub Below : ℕ → Skipped → Type 0
Below hi m = (s : ℕ) (k : RatchetKey) → BTreeMap.get s m ≡ some k → s < hi

-- a table of keys from `lo` to `hi` has as many entries at most
length-Below : (lo hi : ℕ) (m : Skipped) → lo ≤ hi → Ascends lo m → Below hi m → length m + lo ≤ hi
unfolding BTreeMap.get
length-Below lo hi [] h a below = omega arith
length-Below lo hi ((i, w) ∷ m) h a below =
    let here = below i w (ground arith) in
    let rest =
      length-Below (suc i) hi m here a.1
        (λ s k found. below s k (ground (arith, found, BTreeMap.get-below s (suc i) m))) in
    omega (arith, a.0)

module _ (p : Primitives) (current : RatchetKey) (lo from seq : ℕ) (skipped : Skipped) where
  merged-Below : from ≤ seq → Below from skipped → Below seq (merged p current from seq skipped)
  unfolding or_else
  merged-Below h below s k found =
      ground (arith, get-merged p current from seq skipped s, below s k)

  -- With the keys from `lo` on and a step of no further than the limit from there, nothing is evicted.
  pub get-forward_skipped_kept :
      (j : ℕ)
      → lo ≤ from
      → from ≤ seq
      → seq ≤ lo + max_skipped_keys
      → Ascends lo skipped
      → Below from skipped
      → BTreeMap.get j (forward_skipped p current from seq skipped)
        ≡ or_else
            (if leb from j && ltb j seq then some (derive_n p (j - from) current) else none)
            (BTreeMap.get j skipped)
  unfolding forward_skipped merged drop
  get-forward_skipped_kept j lo_from from_seq near a below =
      let m = merged p current from seq skipped in
      let fits =
        length-Below lo seq m (omega arith) (merged-Ascends p current from seq skipped lo lo_from a)
          (merged-Below from_seq below) in
      ap (BTreeMap.get j) (evict-drop m ∙ ap (λ n. drop n m) {y = 0} (omega arith))
      ∙ get-merged p current from seq skipped j
      ∙ ap
          (λ n.
            or_else (if leb from j && ltb j n then some (derive_n p (j - from) current) else none)
              (BTreeMap.get j skipped))
          (omega arith)
