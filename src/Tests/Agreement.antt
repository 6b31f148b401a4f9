-- ===== src/Tests/Agreement.antt =====
-- The handshake at concrete keys and draws.
use null_path.Base.{ℕ, length, ◌≡◌, some, [], ◌∷◌, replicate, length-replicate, ok, codes}
use null_path.Crypto.{generate, generate_nonce}
use null_path.Handshake.{initiate, finalize, respond}
use null_path.Handshake.Agreement.{finalize-respond, Permits, expected}
use null_path.Handshake.Authentication.{Verdict, joined, finalize-Verdict, respond-Verdict}
use null_path.Tests.Keys.{toy_curves, toy_curves-IsSound, from_list}
use null_path.Types.{
  RootKey, HandshakeInitPayload, HandshakeResponsePayload, init_to_bytes, init_from_bytes,
  response_to_bytes, response_from_bytes,
}
use null_path.Types.Wire.{payloads_round_trip}

-- a signing key with one significant byte
abbrev pub signing : ℕ → toy_curves.SigningKey
signing n = from_list 32 (n ∷ [])

abbrev pub alice : toy_curves.VerifyingKey
alice = toy_curves.verifying_key (signing 3)

abbrev pub bob : toy_curves.VerifyingKey
bob = toy_curves.verifying_key (signing 8)

-- the first message of the initiator with the key 3, to the responder with the key 8
abbrev pub initiation : HandshakeInitPayload toy_curves
initiation = (initiate toy_curves (signing 3) bob 10).1

abbrev pub response : HandshakeResponsePayload toy_curves
response = record {
  responder_identity_pub = bob;
  responder_ephemeral_pub = from_list 32 (50 ∷ []);
  nonce = replicate 16 7;
  signature = from_list 64 (7 ∷ []);
}

finalize-respond_example :
    (response : HandshakeResponsePayload toy_curves) × (root : RootKey) × ((respond toy_curves
        (signing 8)
        (some alice)
        (initiate toy_curves (signing 3) bob 10).1
        50).0
      ≡ ok (response, root))
    × (finalize toy_curves (initiate toy_curves (signing 3) bob 10).0 response ≡ ok root)
    × (length response.nonce ≡ 16)
finalize-respond_example =
    finalize-respond toy_curves toy_curves-IsSound (signing 3) (signing 8) (some alice) 10 50
      expected

finalize-Verdict_example :
    Verdict
      (response.responder_identity_pub
        ≡ (initiate toy_curves (signing 3) bob 10).0.expected_responder_pub)
      (toy_curves.verify
        (initiate toy_curves (signing 3) bob 10).0.expected_responder_pub
        (joined (
          codes "decoypath-v1-resp-sig:"
          ∷ toy_curves.verifying_as_bytes
              (initiate toy_curves (signing 3) bob 10).0.expected_responder_pub
          ∷ toy_curves.verifying_as_bytes (initiate toy_curves (signing 3) bob 10).0.identity_pub
          ∷ toy_curves.dh_as_bytes response.responder_ephemeral_pub
          ∷ toy_curves.dh_as_bytes (initiate toy_curves (signing 3) bob 10).0.ephemeral_pub
          ∷ response.nonce
          ∷ (initiate toy_curves (signing 3) bob 10).0.nonce
          ∷ []))
        response.signature)
      (finalize toy_curves (initiate toy_curves (signing 3) bob 10).0 response)
finalize-Verdict_example =
    finalize-Verdict toy_curves toy_curves-IsSound (initiate toy_curves (signing 3) bob 10).0
      response

respond-Verdict_example :
    Verdict
      (Permits toy_curves initiation.initiator_identity_pub (some 6))
      (toy_curves.verify initiation.initiator_identity_pub
        (joined (
          codes "decoypath-v1-init-sig:"
          ∷ toy_curves.verifying_as_bytes initiation.initiator_identity_pub
          ∷ toy_curves.verifying_as_bytes bob
          ∷ toy_curves.dh_as_bytes initiation.initiator_ephemeral_pub
          ∷ initiation.nonce
          ∷ []))
        initiation.signature)
      (respond toy_curves (signing 8) (some 6) initiation 50).0
respond-Verdict_example =
    respond-Verdict toy_curves toy_curves-IsSound (signing 8) (some 6) initiation 50

payloads_round_trip_example :
    (init_from_bytes toy_curves (init_to_bytes toy_curves initiation) ≡ ok initiation)
    × (response_from_bytes toy_curves (response_to_bytes toy_curves response) ≡ ok response)
unfolding initiate generate_nonce generate
payloads_round_trip_example =
    payloads_round_trip toy_curves toy_curves-IsSound initiation response
      (length-replicate {A = ℕ} 16 11) (length-replicate {A = ℕ} 16 7)
