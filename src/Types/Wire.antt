-- ===== src/Types/Wire.antt =====
-- The wire format of src/types.rs: the four parts of a payload.
use mathlib.Core.List.{append_assoc}
use null_path.Base.{
  ◌≡◌, refl, sym, ap, ◌∙◌, [], ◌++◌, ok, arith, length, replicate, slice, splice, length-append,
  length-replicate, Begins-nil, Begins-full, splice-Begins, slice-append, slice-append_last,
}
use null_path.Curves.{Curves, IsSound}
use null_path.Primitives.{Bytes}
use null_path.Types.{
  HandshakeInitPayload, HandshakeResponsePayload, init_to_bytes, init_from_bytes, response_to_bytes,
  response_from_bytes, init_payload_len,
}

-- the four writes of `to_bytes`
abbrev pub written : Bytes → Bytes → Bytes → Bytes → Bytes
written a b c d =
    splice (splice (splice (splice (replicate init_payload_len 0) 0 a) 32 b) 64 c) 80 d

pub written-append :
    (a b c d : Bytes)
    → length a ≡ 32
    → length b ≡ 32
    → length c ≡ 16
    → length d ≡ 64
    → written a b c d ≡ a ++ (b ++ (c ++ d))
written-append a b c d ha hb hc hd =
    let zeros : Bytes = replicate init_payload_len 0 in
    let s2 = length-append a b in
    let s3 = length-append (a ++ b) c in
    let s4 = length-append ((a ++ b) ++ c) d in
    let b0 = Begins-nil zeros 144 (length-replicate 144 0) in
    let b1 = splice-Begins 144 0 [] zeros a b0 refl (omega arith) in
    let b2 = splice-Begins 144 32 a (splice zeros 0 a) b b1 (omega arith) (omega arith) in
    let b3 =
      splice-Begins 144 64 (a ++ b) (splice (splice zeros 0 a) 32 b) c b2 (omega arith)
        (omega arith) in
    let b4 =
      splice-Begins 144 80 ((a ++ b) ++ c) (splice (splice (splice zeros 0 a) 32 b) 64 c) d b3
        (omega arith) (omega arith) in
    Begins-full 144 (((a ++ b) ++ c) ++ d) (written a b c d) b4 (omega arith)
    ∙ append_assoc (a ++ b) c d
    ∙ append_assoc a b (c ++ d)

-- the slices of `from_bytes`
pub record Parts (a b c d bytes : Bytes) : Type 0 where
  pub size : length bytes ≡ 144
  pub first : slice 0 32 bytes ≡ a
  pub second : slice 32 64 bytes ≡ b
  pub third : slice 64 80 bytes ≡ c
  pub fourth : slice 80 144 bytes ≡ d

pub append-Parts :
    (a b c d : Bytes)
    → length a ≡ 32
    → length b ≡ 32
    → length c ≡ 16
    → length d ≡ 64
    → Parts a b c d (a ++ (b ++ (c ++ d)))
append-Parts a b c d ha hb hc hd =
    let s1 = length-append a (b ++ (c ++ d)) in
    let s2 = length-append b (c ++ d) in
    let s3 = length-append c d in
    let t2 = length-append a b in
    let t3 = length-append (a ++ b) c in
    let left = append_assoc a b (c ++ d) in
    let left' = append_assoc (a ++ b) c d in
    record {
      size = omega arith;
      first = slice-append 0 32 [] a (b ++ (c ++ d)) refl (omega arith);
      second = slice-append 32 64 a b (c ++ d) (omega arith) (omega arith);
      third =
          ap (slice 64 80) (sym left) ∙ slice-append 64 80 (a ++ b) c d (omega arith) (omega arith);
      fourth =
          ap (slice 80 144) (sym left)
          ∙ ap (slice 80 144) (sym left')
          ∙ slice-append_last 80 144 ((a ++ b) ++ c) d (omega arith) (omega arith);
    }

pub written-Parts :
    (a b c d : Bytes)
    → length a ≡ 32
    → length b ≡ 32
    → length c ≡ 16
    → length d ≡ 64
    → Parts a b c d (written a b c d)
written-Parts a b c d ha hb hc hd =
    rw (written-append a b c d ha hb hc hd) (append-Parts a b c d ha hb hc hd)

module _ (k : Curves) (sound : IsSound k) where
  pub length-init_to_bytes :
      (p : HandshakeInitPayload k) → length p.nonce ≡ 16 → length (init_to_bytes k p) ≡ 144
  unfolding init_to_bytes
  length-init_to_bytes p h =
      let parts =
        written-Parts (k.verifying_as_bytes p.initiator_identity_pub)
          (k.dh_as_bytes p.initiator_ephemeral_pub) p.nonce (k.signature_to_bytes p.signature)
          (sound.length-verifying_as_bytes p.initiator_identity_pub)
          (sound.length-dh_as_bytes p.initiator_ephemeral_pub) h
          (sound.length-signature_to_bytes p.signature) in
      parts.size

  -- What `HandshakeInitPayload::to_bytes` writes of a payload with a nonce of 16 bytes,
  -- `from_bytes` reads back.
  pub init_from_bytes-init_to_bytes :
      (p : HandshakeInitPayload k)
      → length p.nonce ≡ 16
      → init_from_bytes k (init_to_bytes k p) ≡ ok p
  unfolding init_from_bytes init_to_bytes
  init_from_bytes-init_to_bytes p h =
      let a = k.verifying_as_bytes p.initiator_identity_pub in
      let b = k.dh_as_bytes p.initiator_ephemeral_pub in
      let d = k.signature_to_bytes p.signature in
      let parts =
        written-Parts a b p.nonce d (sound.length-verifying_as_bytes p.initiator_identity_pub)
          (sound.length-dh_as_bytes p.initiator_ephemeral_pub) h
          (sound.length-signature_to_bytes p.signature) in
      rw
        (
          parts.size,
          parts.first,
          sound.verifying_from-as p.initiator_identity_pub,
          parts.second,
          parts.third,
          parts.fourth,
          sound.dh_from-as p.initiator_ephemeral_pub,
          sound.signature_from-to p.signature,
        )
        refl

  pub length-response_to_bytes :
      (p : HandshakeResponsePayload k) → length p.nonce ≡ 16 → length (response_to_bytes k p) ≡ 144
  unfolding response_to_bytes
  length-response_to_bytes p h =
      let parts =
        written-Parts (k.verifying_as_bytes p.responder_identity_pub)
          (k.dh_as_bytes p.responder_ephemeral_pub) p.nonce (k.signature_to_bytes p.signature)
          (sound.length-verifying_as_bytes p.responder_identity_pub)
          (sound.length-dh_as_bytes p.responder_ephemeral_pub) h
          (sound.length-signature_to_bytes p.signature) in
      parts.size

  -- What `HandshakeResponsePayload::to_bytes` writes of a payload with a nonce of 16 bytes,
  -- `from_bytes` reads back.
  pub response_from_bytes-response_to_bytes :
      (p : HandshakeResponsePayload k)
      → length p.nonce ≡ 16
      → response_from_bytes k (response_to_bytes k p) ≡ ok p
  unfolding response_from_bytes response_to_bytes
  response_from_bytes-response_to_bytes p h =
      let a = k.verifying_as_bytes p.responder_identity_pub in
      let b = k.dh_as_bytes p.responder_ephemeral_pub in
      let d = k.signature_to_bytes p.signature in
      let parts =
        written-Parts a b p.nonce d (sound.length-verifying_as_bytes p.responder_identity_pub)
          (sound.length-dh_as_bytes p.responder_ephemeral_pub) h
          (sound.length-signature_to_bytes p.signature) in
      rw
        (
          parts.size,
          parts.first,
          sound.verifying_from-as p.responder_identity_pub,
          parts.second,
          parts.third,
          parts.fourth,
          sound.dh_from-as p.responder_ephemeral_pub,
          sound.signature_from-to p.signature,
        )
        refl

  -- What `to_bytes` writes of an initiation and of a response, each with a nonce of 16 bytes, the two
  -- `from_bytes` read back.
  pub payloads_round_trip :
      (p : HandshakeInitPayload k) (q : HandshakeResponsePayload k)
      → length p.nonce ≡ 16
      → length q.nonce ≡ 16
      → (init_from_bytes k (init_to_bytes k p) ≡ ok p)
        × (response_from_bytes k (response_to_bytes k q) ≡ ok q)
  payloads_round_trip p q h h' =
      (init_from_bytes-init_to_bytes p h, response_from_bytes-response_to_bytes q h')
