-- ===== src/Crypto/Messages.antt =====
-- The messages that src/crypto.rs signs: what they determine.
use mathlib.Core.Option.{some_inj}
use null_path.Base.{
  ◌≡◌, ◌≢◌, sym, ap, ◌∙◌, ◌++◌, arith, length, get_elem?, codes, drop_head, split_heads,
}
use null_path.Crypto.{init_label, resp_label, initiation_message, response_message}
use null_path.Curves.{Curves, IsSound}
use null_path.Primitives.{Bytes}

module _ (k : Curves) (sound : IsSound k) where
  verifying_as_bytes-injective :
      (v w : k.VerifyingKey) → k.verifying_as_bytes v ≡ k.verifying_as_bytes w → v ≡ w
  verifying_as_bytes-injective v w h =
      some_inj.0
        (sym (sound.verifying_from-as v) ∙ ap k.verifying_from_bytes h ∙ sound.verifying_from-as w)

  dh_as_bytes-injective : (d e : k.DhPublicKey) → k.dh_as_bytes d ≡ k.dh_as_bytes e → d ≡ e
  dh_as_bytes-injective d e h = sym (sound.dh_from-as d) ∙ ap k.dh_from_bytes h ∙ sound.dh_from-as e

  split_verifying :
      (v w : k.VerifyingKey) (xs ys : Bytes)
      → k.verifying_as_bytes v ++ xs ≡ k.verifying_as_bytes w ++ ys
      → (v ≡ w) × (xs ≡ ys)
  split_verifying v w xs ys h =
      let (heads, rest) =
        split_heads 32 (k.verifying_as_bytes v) xs (k.verifying_as_bytes w) ys
          (sym (sound.length-verifying_as_bytes v)) (sym (sound.length-verifying_as_bytes w)) h in
      (verifying_as_bytes-injective v w heads, rest)

  split_dh :
      (d e : k.DhPublicKey) (xs ys : Bytes)
      → k.dh_as_bytes d ++ xs ≡ k.dh_as_bytes e ++ ys
      → (d ≡ e) × (xs ≡ ys)
  split_dh d e xs ys h =
      let (heads, rest) =
        split_heads 32 (k.dh_as_bytes d) xs (k.dh_as_bytes e) ys (sym (sound.length-dh_as_bytes d))
          (sym (sound.length-dh_as_bytes e)) h in
      (dh_as_bytes-injective d e heads, rest)

  -- Two initiations have the same message only if they agree in every field.
  pub initiation_message-injective :
      (a a' v v' : k.VerifyingKey) (d d' : k.DhPublicKey) (nonce nonce' : Bytes)
      → initiation_message k a v d nonce ≡ initiation_message k a' v' d' nonce'
      → (a ≡ a') × (v ≡ v') × (d ≡ d') × (nonce ≡ nonce')
  unfolding initiation_message
  initiation_message-injective a a' v v' d d' nonce nonce' h =
      let (initiators, rest) = split_verifying a a' _ _ (drop_head init_label _ _ h) in
      let (vs, rest) = split_verifying v v' _ _ rest in
      let (ds, nonces) = split_dh d d' _ _ rest in (initiators, vs, ds, nonces)

  -- Two responses have the same message only if they agree in every field.
  pub response_message-injective :
      (b b' a a' : k.VerifyingKey) (d d' e e' : k.DhPublicKey) (nonce nonce' other other' : Bytes)
      → length nonce ≡ 16
      → length nonce' ≡ 16
      → response_message k b a d e nonce other ≡ response_message k b' a' d' e' nonce' other'
      → (b ≡ b') × (a ≡ a') × (d ≡ d') × (e ≡ e') × (nonce ≡ nonce') × (other ≡ other')
  unfolding response_message
  response_message-injective b b' a a' d d' e e' nonce nonce' other other' size size' h =
      let (bs, rest) = split_verifying b b' _ _ (drop_head resp_label _ _ h) in
      let (initiators, rest) = split_verifying a a' _ _ rest in
      let (ds, rest) = split_dh d d' _ _ rest in
      let (es, rest) = split_dh e e' _ _ rest in
      let (nonces, others) = split_heads 16 nonce other nonce' other' (sym size) (sym size') rest in
      (bs, initiators, ds, es, nonces, others)

  -- An initiation and a response never have the same message.
  pub initiation_message-response_message :
      (a v b w : k.VerifyingKey) (d e f : k.DhPublicKey) (nonce other another : Bytes)
      → initiation_message k a v d nonce ≢ response_message k b w e f other another
  unfolding initiation_message response_message codes
  initiation_message-response_message a v b w d e f nonce other another h =
      let letter = ap (λ l. get_elem? l 13) h in grind arith
