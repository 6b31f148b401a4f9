-- ===== src/Handshake/Matching/Finalize.antt =====
-- What an initiator of src/handshake.rs knows of the responder when `finalize` accepts.
use mathlib.Core.List.{Memᴰ}
use mathlib.Core.Path.{subst}
use null_path.Base.{
  ℕ, ◌≡◌, refl, sym, ap, ◌∙◌, inl, inr, true, Option, List, ok, ◌>>=◌, length, arith, Result-cases,
}
use null_path.Crypto.Messages.{response_message-injective, initiation_message-response_message}
use null_path.Crypto.{
  generate, diffie_hellman, response_message, verify_initiation, verify_response, derive_root_key,
}
use null_path.Curves.{Curves, IsSound}
use null_path.Handshake.Agreement.{answered}
use null_path.Handshake.{InitiatorState, initiate, finalize, check_expected, answer, respond}
use null_path.Primitives.{Bytes}
use null_path.Types.{RootKey, HandshakeInitPayload, HandshakeResponsePayload}
use null_path.Handshake.Matching.{Run, initiated, responded, message_of, Unforged, Matched}

module _ (k : Curves) (sound : IsSound k) where
  -- what a call of `respond` that gave a response did
  respond-answered :
      (b : k.SigningKey) (who : Option k.VerifyingKey) (p : HandshakeInitPayload k) (draw : ℕ)
      (made : HandshakeResponsePayload k) (root : RootKey)
      → (respond k b who p draw).0 ≡ ok (made, root)
      → (answer k b p draw).0 ≡ ok (made, root)
  unfolding respond
  respond-answered b who p draw made root h =
      elim (Result-cases (
        check_expected k who p >>= λ _.
        verify_initiation k p.initiator_identity_pub (k.verifying_key b) p.initiator_ephemeral_pub
          p.nonce p.signature)) [
            | inl (u, e) ↦ ground (arith, e)
            | inr (inl (x, e)) ↦ absurd (ground (arith, e))
            | inr (inr e) ↦ absurd (ground (arith, e))
          ]

  -- `finalize` accepted, so the signature is valid and the root key derived
  finalize_ok :
      (s : InitiatorState k) (response : HandshakeResponsePayload k) (root : RootKey)
      → finalize k s response ≡ ok root
      → (k.verify s.expected_responder_pub
            (response_message k s.expected_responder_pub s.identity_pub
              response.responder_ephemeral_pub s.ephemeral_pub response.nonce s.nonce)
            response.signature
          ≡ true)
        × (derive_root_key k
              (diffie_hellman k s.ephemeral response.responder_ephemeral_pub)
              s.identity_pub
              s.expected_responder_pub
              s.ephemeral_pub
              response.responder_ephemeral_pub
              s.nonce
              response.nonce
            ≡ ok root)
  unfolding finalize verify_response
  finalize_ok s response root h = ground arith

  derive_root_key-cong :
      {x y : Bytes} {v v' : k.VerifyingKey} (w : k.VerifyingKey) {d d' e e' : k.DhPublicKey}
      {n n' m m' : Bytes}
      → x ≡ y
      → v ≡ v'
      → d ≡ d'
      → e ≡ e'
      → n ≡ n'
      → m ≡ m'
      → derive_root_key k (record { bytes = x }) v w d e n m
        ≡ derive_root_key k (record { bytes = y }) v' w d' e' n' m'
  derive_root_key-cong w xs vs ds es ns ms = rw (xs, vs, ds, es, ns, ms) refl

  -- the initiator `a` with the state behind `initiate`, for the responder `b`
  module _ (a b : k.SigningKey) (start : ℕ) (response : HandshakeResponsePayload k)
      (root : RootKey) where
    abbrev state : InitiatorState k
    state = (initiate k a (k.verifying_key b) start).0

    roots_agree :
        (who : Option k.VerifyingKey) (p : HandshakeInitPayload k) (draw : ℕ)
        (made : HandshakeResponsePayload k) (root' : RootKey)
        → (respond k b who p draw).0 ≡ ok (made, root')
        → finalize k state response ≡ ok root
        → p.initiator_identity_pub ≡ state.identity_pub
        → p.initiator_ephemeral_pub ≡ state.ephemeral_pub
        → p.nonce ≡ state.nonce
        → made.responder_ephemeral_pub ≡ response.responder_ephemeral_pub
        → made.nonce ≡ response.nonce
        → root' ≡ root
    unfolding initiate generate diffie_hellman
    roots_agree who p draw made root' run accepted identity ephemeral nonce theirs their_nonce =
        let (resp, root₀, done, _, _, derived, eph, _) = answered k sound b p draw in
        let pair = sym done ∙ respond-answered b who p draw made root' run in
        let same_resp : resp ≡ made = ground arith in
        let same_root : root₀ ≡ root' = ground arith in
        let (valid, derived') = finalize_ok state response root accepted in
        let comm = sound.diffie_hellman_comm (k.random_secret start) (k.random_secret draw) in
        let ephs = ap (λ r. r.responder_ephemeral_pub) same_resp in
        let nonces = ap (λ r. r.nonce) same_resp in
        let eph' = sym theirs ∙ sym ephs ∙ eph in
        let shared =
          ap (k.diffie_hellman (k.random_secret draw)) ephemeral
          ∙ sym comm
          ∙ ap (k.diffie_hellman (k.random_secret start)) (sym eph') in
        let same =
          sym derived
          ∙ derive_root_key-cong (k.verifying_key b) shared identity ephemeral (ephs ∙ theirs) nonce
              (nonces ∙ their_nonce)
          ∙ derived' in
        ground arith

    match_Run :
        (log : List (Run k b)) (r : Run k b)
        → length response.nonce ≡ 16
        → finalize k state response ≡ ok root
        → Memᴰ r log
        → message_of k r
          ≡ response_message k
              (k.verifying_key b)
              state.identity_pub
              response.responder_ephemeral_pub
              state.ephemeral_pub
              response.nonce
              state.nonce
        → Matched k b log state response root
    unfolding message_of
    match_Run log (initiated v draw) size accepted listed same =
        absurd (initiation_message-response_message k sound _ _ _ _ _ _ _ _ _ _ same)
    match_Run log (responded who p draw made root' run) size accepted listed same =
        let (resp, root₀, done, _, _, _, _, made_size) = answered k sound b p draw in
        let pair = sym done ∙ respond-answered b who p draw made root' run in
        let same_resp : resp ≡ made = ground arith in
        let (_, identity, theirs, ephemeral, their_nonce, nonce) =
          response_message-injective k sound _ _ _ _ _ _ _ _ _ _ _ _
            (ap (λ r. length r.nonce) (sym same_resp) ∙ made_size) size same in
        let agreed =
          roots_agree who p draw made root' run accepted identity ephemeral nonce theirs
            their_nonce in
        subst (Matched k b log state response) agreed (record {
          who = who;
          initiation = p;
          draw = draw;
          made = made;
          run = run;
          listed = listed;
          same_identity = identity;
          same_ephemeral = ephemeral;
          same_nonce = nonce;
          made_ephemeral = theirs;
          made_nonce = their_nonce;
        })

    -- Suppose that the signature in a response is valid under the expected key only if a call in the
    -- log of that key's owner signed the message that `finalize` checks. Then if `finalize` accepts
    -- the response, the owner has answered with `respond` an initiation with this initiator's
    -- identity, ephemeral key and nonce, the response had this ephemeral key and this nonce, and
    -- `respond` returned the same root key. A signature that the owner made as an initiator does not
    -- serve.
    pub finalize-Matched :
        (log : List (Run k b))
        → length response.nonce ≡ 16
        → Unforged k b log
            (response_message k
              (k.verifying_key b)
              (k.verifying_key a)
              response.responder_ephemeral_pub
              (initiate k a (k.verifying_key b) start).0.ephemeral_pub
              response.nonce
              (initiate k a (k.verifying_key b) start).0.nonce)
            response.signature
        → finalize k (initiate k a (k.verifying_key b) start).0 response ≡ ok root
        → Matched k b log (initiate k a (k.verifying_key b) start).0 response root
    unfolding initiate
    finalize-Matched log size unforged accepted =
        let (r, listed, same) = unforged ((finalize_ok state response root accepted).0) in
        match_Run log r size accepted listed same
