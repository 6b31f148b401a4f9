-- ===== src/Channel/Crossing.antt =====
-- One ratchet of src/channel.rs serves both directions: what follows when both sides of a handshake
-- send before they receive.
use null_path.Base.{ℕ, ◌≤◌, ◌<◌, ◌≡◌, refl, ap, ◌∙◌, List, arith, ok, length}
use null_path.Channel.Accept.{Carries}
use null_path.Channel.Exchange.{send_total}
use null_path.Channel.Receive.{Finds-forward_key}
use null_path.Channel.Sending.{advance}
use null_path.Channel.Step.{next_seq, Finds, ahead, back, find_target_ok}
use null_path.Channel.{
  SecureChannel, Target, new, find_target, send, next_send_seq, max_message_id_len,
}
use null_path.Collections.BTreeMap
use null_path.Envelope.{max_payload_size}
use null_path.PathEngine
use null_path.PathEngine.Chain.{derive_n}
use null_path.PathEngine.{RatchetKey, derive_next}
use null_path.Primitives.{Bytes, Primitives, IsSound}

module _ (p : Primitives) (root_key : Bytes) (n_paths : ℕ) where
  -- the state of either side behind its first `send`
  abbrev sent_one : SecureChannel
  sent_one = advance p (new root_key n_paths)

  key_for_first :
      (seq : ℕ) (t : Target)
      → seq ≡ 0
      → Finds p sent_one seq t
      → t.target_key ≡ derive_next p (PathEngine.new root_key)
  unfolding advance new next_seq derive_n BTreeMap.get
  key_for_first seq t first (ahead lo hi made) =
      ap (λ u. u.target_key) made
      ∙ Finds-forward_key p (derive_next p (PathEngine.new root_key)) 0 seq
      ∙ ap (λ n. derive_n p n (derive_next p (PathEngine.new root_key))) {y = 0} (omega arith)
  key_for_first seq t first (back key lo found made) = absurd (cc)

  -- Both sides of a handshake seal their first message under the root key itself, if each sends
  -- before it receives; but a side that has sent looks for the other's first message under the next
  -- key of the ratchet.
  pub first_messages_cross :
      (payload message_id message_id' : Bytes) (draw : ℕ) (t : Target)
      → IsSound p
      → length root_key ≡ 32
      → 0 < n_paths
      → length message_id ≤ max_message_id_len
      → length payload ≤ max_payload_size
      → find_target p sent_one 0 message_id' ≡ ok t
      → (envelopes : List Bytes) × (draw' : ℕ) × (send p
            (new root_key n_paths)
            payload
            message_id
            draw
          ≡ (sent_one, ok envelopes, draw'))
        × Carries p (PathEngine.new root_key) 0 n_paths message_id payload envelopes
        × (t.target_key ≡ derive_next p (PathEngine.new root_key))
  unfolding new next_send_seq PathEngine.new
  first_messages_cross payload message_id message_id' draw t sound size paths short small found =
      let (envelopes, draw', sent, carries) =
        send_total p sound (new root_key n_paths) draw payload message_id size paths short small in
      (
        envelopes,
        draw',
        sent,
        carries,
        key_for_first 0 t refl (find_target_ok p sent_one 0 message_id' t found),
      )
