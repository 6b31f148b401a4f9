-- ===== src/Channel/Conversation.antt =====
-- Two channels of src/channel.rs that take turns: each message is received before the next is sent.
use null_path.Base.{
  ℕ, ◌+◌, ◌^◌, ◌≤◌, ◌<◌, ◌≡◌, refl, ap, ◌∙◌, inl, inr, true, false, List, [], ◌∷◌, map, arith,
  Result, ok, length, Bool-cases,
}
use null_path.Channel.Invariant.{new-IsValid}
use null_path.Channel.Step.{next_seq}
use null_path.Channel.{SecureChannel, max_message_id_len, new, next_send_seq}
use null_path.Envelope.{max_payload_size}
use null_path.Errors.{ChannelError}
use null_path.PathEngine
use null_path.PathEngine.{RatchetKey, derive_next}
use null_path.Primitives.{Bytes, Primitives, IsSound}
use null_path.Channel.Turns.{Turn, convey, Linked, Linked-sym, convey_total}

-- the results of all turns, between `c` and `d`
unfoldable pub converse :
    Primitives → SecureChannel → SecureChannel → List Turn → ℕ → List (Result ChannelError Bytes)
converse p c d [] draw = []
converse p c d (t ∷ ts) draw = elim t.by_first [
  | true ↦ let (c', d', result, draw') = convey p c d t draw in result ∷ converse p c' d' ts draw'
  | false ↦ let (d', c', result, draw') = convey p d c t draw in result ∷ converse p c' d' ts draw'
]

abbrev pub AllTurnsWithin : List Turn → Type 0
AllTurnsWithin [] = Unit
AllTurnsWithin (t ∷ ts) =
    ((length t.payload ≤ max_payload_size) × (length t.message_id ≤ max_message_id_len))
    × AllTurnsWithin ts

module _ (p : Primitives) (sound : IsSound p) where
  converse-true :
      (c d c' d' : SecureChannel) (t : Turn) (ts : List Turn) (draw draw' : ℕ)
      (result : Result ChannelError Bytes)
      → t.by_first ≡ true
      → convey p c d t draw ≡ (c', d', result, draw')
      → converse p c d (t ∷ ts) draw ≡ result ∷ converse p c' d' ts draw'
  unfolding converse
  converse-true c d c' d' t ts draw draw' result side run =
      rw side (ap (λ r. r.2 ∷ converse p r.0 r.1 ts r.3) run)

  converse-false :
      (c d c' d' : SecureChannel) (t : Turn) (ts : List Turn) (draw draw' : ℕ)
      (result : Result ChannelError Bytes)
      → t.by_first ≡ false
      → convey p d c t draw ≡ (d', c', result, draw')
      → converse p c d (t ∷ ts) draw ≡ result ∷ converse p c' d' ts draw'
  unfolding converse
  converse-false c d c' d' t ts draw draw' result side run =
      rw side (ap (λ r. r.2 ∷ converse p r.1 r.0 ts r.3) run)

  converse-Linked :
      (c d : SecureChannel) (ts : List Turn) (draw : ℕ)
      → Linked c d
      → next_seq c + next_seq d + length ts < 2 ^ 64
      → AllTurnsWithin ts
      → converse p c d ts draw ≡ map (λ t. ok t.payload) ts
  unfolding converse
  converse-Linked c d [] draw l small within = refl
  converse-Linked c d (t ∷ ts) draw l small ((fit, short), within) = elim (Bool-cases t.by_first) [
    | inl first ↦
        let k = convey_total p sound c d t draw l (omega arith) fit short in
        converse-true c d k.c' k.d' t ts draw k.draw' (ok t.payload) first k.run
        ∙ ap (λ rs. ok t.payload ∷ rs)
            (converse-Linked k.c' k.d' ts k.draw' k.linked (omega (arith, k.sum)) within)
    | inr second ↦
        let k = convey_total p sound d c t draw (Linked-sym l) (omega arith) fit short in
        converse-false c d k.d' k.c' t ts draw k.draw' (ok t.payload) second k.run
        ∙ ap (λ rs. ok t.payload ∷ rs)
            (converse-Linked k.d' k.c' ts k.draw' (Linked-sym k.linked) (omega (arith, k.sum))
              within)
  ]

  new-Linked :
      (root_key : Bytes) (n_paths : ℕ)
      → length root_key ≡ 32
      → 0 < n_paths
      → Linked (new root_key n_paths) (new root_key n_paths)
  unfolding new PathEngine.new next_seq next_send_seq
  new-Linked root_key n_paths size paths = record {
    valid = new-IsValid root_key n_paths;
    valid' = new-IsValid root_key n_paths;
    key = refl;
    key_size = size;
    paths = paths;
    same_paths = refl;
    there = refl;
    back = refl;
  }

  -- Two new channels with the same root key and path count, of which at any time either sends a
  -- message within the limits and the other receives it before the next is sent, are a lossless
  -- conduit both ways: for any list of fewer than 2 ^ 64 turns, the results are the payloads, in
  -- order.
  pub converse-delivers :
      (root_key : Bytes) (n_paths draw : ℕ) (ts : List Turn)
      → length root_key ≡ 32
      → 0 < n_paths
      → length ts < 2 ^ 64
      → AllTurnsWithin ts
      → converse p (new root_key n_paths) (new root_key n_paths) ts draw
        ≡ map (λ t. ok t.payload) ts
  unfolding new next_seq
  converse-delivers root_key n_paths draw ts size paths few within =
      let c = new root_key n_paths in
      converse-Linked c c ts draw (new-Linked root_key n_paths size paths) (omega arith) within
