-- ===== src/Decoy/Slots.antt =====
-- The slots of src/decoy.rs.
use native.Mathlib.Nat.{add-zero}
use null_path.Base.{
  ap, ◌∙◌, ℕ, zero, suc, ◌+◌, ◌≤◌, ◌<◌, ◌≡◌, ◌≢◌, ◌⊎◌, inl, inr, refl, List, [], ◌∷◌, some, arith,
  ok, err, length, get_elem?, ◌==◌, ==_iff, Bool-cases, if◌then◌else◌,
}
use null_path.Decoy.{generate_decoy, slot_loop, generate_multi_path_slots}
use null_path.Envelope.RoundTrip.{seal_total}
use null_path.Envelope.Sized.{AllSized}
use null_path.Envelope.{envelope_total_len, open_envelope}
use null_path.Errors.{DecoyError}
use null_path.Primitives.{Bytes, Primitives, IsSound}

module _ (p : Primitives) where
  -- the envelope that `generate_decoy` made from `draw` on: 1024 bytes, sealed under a key that no
  -- earlier draw gave, and `draw'` is the next draw after it
  pub record IsDrawn (aad : Bytes) (draw : ℕ) (envelope : Bytes) (draw' : ℕ) : Type 0 where
    pub made : generate_decoy p aad draw ≡ (ok envelope, draw')
    pub drawn : draw + 2 < draw'
    pub size : length envelope ≡ envelope_total_len
    pub opens :
        open_envelope p (p.fill_bytes draw 32) envelope aad ≡ ok (p.fill_bytes (draw + 1) 128)

  module _ (real aad : Bytes) (valid : ℕ) where
    -- the real envelope at the valid slot, for which nothing is drawn, and a decoy at any other
    abbrev pub IsSlot : ℕ → ℕ → Bytes → ℕ → Type 0
    IsSlot idx draw envelope draw' =
        ((idx ≡ valid) × (envelope ≡ real) × (draw' ≡ draw))
        ⊎ ((idx ≢ valid) × IsDrawn aad draw envelope draw')

    -- from the slot `idx` and the draw `draw` on, each slot takes its draws behind those of the slot
    -- before it, and the last one ends at `draw'`
    abbrev pub AreSlots : ℕ → ℕ → List Bytes → ℕ → Type 0
    AreSlots idx draw [] draw' = draw ≡ draw'
    AreSlots idx draw (e ∷ es) draw' =
        (next : ℕ) × IsSlot idx draw e next × AreSlots (idx + 1) next es draw'

  module _ (sound : IsSound p) where
    generate_decoy-IsDrawn :
        (aad : Bytes) (draw : ℕ)
        → (envelope : Bytes) × (draw' : ℕ) × IsDrawn aad draw envelope draw'
    unfolding generate_decoy
    generate_decoy-IsDrawn aad draw =
        let key = p.fill_bytes draw 32 in
        let payload = p.fill_bytes (draw + 1) 128 in
        let (envelope, draw', made, drawn, size, opened) =
          seal_total p key payload aad (draw + 1 + 1) sound (sound.length-fill_bytes draw 32)
            (omega (arith, sound.length-fill_bytes (draw + 1) 128)) in
        (
          envelope,
          draw',
          record { made = rw made; drawn = omega arith; size = size; opens = opened },
        )

    module _ (real aad : Bytes) (valid : ℕ) where
      slot_loop_total :
          (left idx draw : ℕ)
          → (slots : List Bytes) × (draw' : ℕ) × (slot_loop p real valid aad left idx draw
              ≡ (ok slots, draw'))
            × (length slots ≡ left)
            × AreSlots real aad valid idx draw slots draw'
      unfolding slot_loop
      slot_loop_total zero idx draw = ([], draw, refl, refl, refl)
      slot_loop_total (suc left) idx draw = elim (Bool-cases (idx == valid)) [
        | inl here ↦
            let (slots, draw', run, size, are) = slot_loop_total left (idx + 1) draw in
            (
              real ∷ slots,
              draw',
              rw (here, run),
              omega arith,
              (draw, inl ((==_iff idx valid).0 here, refl, refl), are),
            )
        | inr there ↦
            let (decoy, next, is) = generate_decoy-IsDrawn aad draw in
            let (slots, draw', run, size, are) = slot_loop_total left (idx + 1) next in
            (
              decoy ∷ slots,
              draw',
              rw (there, is.made, run),
              omega arith,
              (next, inr (ground arith, is), are),
            )
      ]

      AreSlots-get_elem? :
          (idx draw draw' j : ℕ) (slots : List Bytes)
          → AreSlots real aad valid idx draw slots draw'
          → j < length slots
          → (e : Bytes) × (from next : ℕ) × (get_elem? slots j ≡ some e)
            × IsSlot real aad valid (idx + j) from e next
      AreSlots-get_elem? idx draw draw' j [] a h = absurd (omega arith)
      AreSlots-get_elem? idx draw draw' zero (e ∷ slots) a h = (e, draw, a.0, refl, rw add-zero a.1)
      AreSlots-get_elem? idx draw draw' (suc j) (e ∷ slots) a h =
          let (f, from, next, found, is) =
            AreSlots-get_elem? (idx + 1) a.0 draw' j slots a.2 (omega arith) in
          let index : idx + suc j ≡ idx + 1 + j = omega arith in (f, from, next, found, rw index is)

      get_elem?-valid :
          (draw draw' : ℕ) (slots : List Bytes)
          → AreSlots real aad valid 0 draw slots draw'
          → valid < length slots
          → get_elem? slots valid ≡ some real
      get_elem?-valid draw draw' slots a h =
          let (e, _, _, found, is) = AreSlots-get_elem? 0 draw draw' valid slots a h in
          elim is [
            | inl (_, same, _) ↦ found ∙ ap some same
            | inr (other, _) ↦ absurd (other (omega arith))
          ]

      -- With a valid slot below the path count there is one envelope for each path: the real one at
      -- the valid slot, and at any other a decoy of 1024 bytes. Each decoy is what `generate_decoy`
      -- makes with the draws that follow those of the decoy before it, so no draw serves two of
      -- them, and it opens under the key drawn for it.
      pub generate_multi_path_slots_total :
          (n_paths draw : ℕ)
          → valid < n_paths
          → (slots : List Bytes) × (draw' : ℕ) × (generate_multi_path_slots p real valid n_paths aad
                draw
              ≡ (ok slots, draw'))
            × (length slots ≡ n_paths)
            × (get_elem? slots valid ≡ some real)
            × AreSlots real aad valid 0 draw slots draw'
      unfolding generate_multi_path_slots
      generate_multi_path_slots_total n_paths draw h =
          let (slots, draw', run, size, are) = slot_loop_total n_paths 0 draw in
          (
            slots,
            draw',
            ground (arith, run),
            size,
            get_elem?-valid draw draw' slots are (omega arith),
            are,
          )

  -- with a real envelope of full length, all have it
  pub AreSlots-AllSized :
      (real aad : Bytes) (valid idx draw draw' : ℕ) (slots : List Bytes)
      → length real ≡ envelope_total_len
      → AreSlots real aad valid idx draw slots draw'
      → AllSized slots
  AreSlots-AllSized real aad valid idx draw draw' [] size are = tt
  AreSlots-AllSized real aad valid idx draw draw' (e ∷ slots) size (next, inl (_, same, _), are) =
      (ap length same ∙ size, AreSlots-AllSized real aad valid (idx + 1) next draw' slots size are)
  AreSlots-AllSized real aad valid idx draw draw' (e ∷ slots) size (next, inr (_, is), are) =
      (is.size, AreSlots-AllSized real aad valid (idx + 1) next draw' slots size are)

  -- No path, or a valid slot beyond the paths, is an error, and nothing is drawn.
  pub generate_multi_path_slots-error :
      (real aad : Bytes) (valid n_paths draw : ℕ)
      → n_paths ≤ valid
      → generate_multi_path_slots p real valid n_paths aad draw ≡ (
        err (if n_paths == 0 then DecoyError.invalid_path_count else DecoyError.invalid_slot_index),
        draw,
      )
  unfolding generate_multi_path_slots
  generate_multi_path_slots-error real aad valid n_paths draw h = ground arith
