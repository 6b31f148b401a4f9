-- ===== src/Channel/Aad.antt =====
-- The associated data of src/channel.rs.
use null_path.Base.{
  drop_head, split_heads, ℕ, ◌^◌, ◌<◌, ◌≡◌, sym, ap, ◌∙◌, to_be_bytes, from_be_bytes,
  length-to_be_bytes, from_be_bytes-to_be_bytes,
}
use null_path.Channel.{construct_aad, aad_label}
use null_path.Primitives.{Bytes}

-- Two messages have the same associated data only if they have the same sequence number, of 64
-- bits, and the same message ID.
pub construct_aad-injective :
    (seq seq' : ℕ) (message_id message_id' : Bytes)
    → seq < 2 ^ 64
    → seq' < 2 ^ 64
    → construct_aad seq message_id ≡ construct_aad seq' message_id'
    → (seq ≡ seq') × (message_id ≡ message_id')
unfolding construct_aad
construct_aad-injective seq seq' message_id message_id' h h' e =
    let (numbers, ids) =
      split_heads 8 (to_be_bytes 8 seq) message_id (to_be_bytes 8 seq') message_id'
        (sym (length-to_be_bytes 8 seq)) (sym (length-to_be_bytes 8 seq'))
        (drop_head aad_label _ _ e) in
    (
      sym (from_be_bytes-to_be_bytes 8 seq h)
          ∙ ap from_be_bytes numbers
          ∙ from_be_bytes-to_be_bytes 8 seq' h',
      ids,
    )
