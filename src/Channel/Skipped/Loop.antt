-- ===== src/Channel/Skipped/Loop.antt =====
-- The `while` loop of `evict_oldest_skipped_keys` of src/channel.rs, turn by turn.
use null_path.Base.Loop.{Pass, again, done, while_loop, while_loop-again, while_loop-done}
use null_path.Base.{
  ℕ, zero, suc, ◌-◌, ◌<◌, ◌≡◌, refl, ◌∙◌, some, inl, inr, [], ◌∷◌, arith, length, drop, ltb, ltb→lt,
  if◌then◌else◌, Bool-cases,
}
use null_path.Channel.Skipped.{Skipped, evict-drop}
use null_path.Channel.{max_skipped_keys, evict_oldest_skipped_keys}

-- one turn: `pop_first` while there are too many
unfoldable pub evict_skipped_turn : Skipped → Pass Skipped
evict_skipped_turn [] = done []
evict_skipped_turn (e ∷ m) = if ltb max_skipped_keys (length (e ∷ m)) then again m else done (e ∷ m)

evict-ends :
    (n : ℕ) (m : Skipped)
    → length m - max_skipped_keys < n
    → while_loop n evict_skipped_turn m ≡ some (evict_oldest_skipped_keys m)
unfolding while_loop evict_skipped_turn evict_oldest_skipped_keys
evict-ends zero m h = elim h [ ]
evict-ends (suc n) [] h = refl
evict-ends (suc n) (e ∷ m) h = elim (Bool-cases (ltb max_skipped_keys (length (e ∷ m)))) [
  | inr fits ↦
      while_loop-done n evict_skipped_turn (e ∷ m) (e ∷ m) (rw fits refl)
      ∙ rw (fits, evict_oldest_skipped_keys) refl
  | inl over ↦
      let more = ltb→lt max_skipped_keys (length (e ∷ m)) over in
      while_loop-again n evict_skipped_turn (e ∷ m) m (rw over refl)
      ∙ evict-ends n m (omega arith)
      ∙ rw (over, evict_oldest_skipped_keys) refl
]

-- The loop ends after one turn more than there are keys over the limit of 1000, in what
-- `evict_oldest_skipped_keys` leaves: the table without as many of its smallest sequence numbers.
pub evict_loop-drop :
    (n : ℕ) (m : Skipped)
    → length m - max_skipped_keys < n
    → (while_loop n evict_skipped_turn m ≡ some (evict_oldest_skipped_keys m))
      × (evict_oldest_skipped_keys m ≡ drop (length m - max_skipped_keys) m)
evict_loop-drop n m h = (evict-ends n m h, evict-drop m)
