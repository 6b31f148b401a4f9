-- ===== src/Tests/Matching.antt =====
-- A handshake between two parties, each with the log of the other.
use mathlib.Core.List.{Memᴰ}
use null_path.Base.{
  ℕ, ◌≡◌, refl, ok, err, panic, some, [], ◌∷◌, List, replicate, codes, length, length-replicate,
}
use null_path.Crypto.{
  generate, diffie_hellman, generate_nonce, initiation_message, sign_initiation, verify_initiation,
  response_message, sign_response, verify_response, transcript_binding, derive_root_key,
}
use null_path.Handshake.Matching.{Run, initiated, responded, message_of, Matched}
use null_path.Handshake.Matching.Finalize.{finalize-Matched}
use null_path.Handshake.Matching.Respond.{respond-initiated}
use null_path.Handshake.{initiate, finalize, check_expected, answer, respond}
use null_path.Tests.Agreement.{signing, alice, bob, initiation, response as fallback}
use null_path.Tests.Keys.{toy_curves, toy_curves-IsSound, to_list, from_list, head, key_bytes}
use null_path.Tests.Toy.{sum, digest}
use null_path.Types.{RootKey, HandshakeResponsePayload}

unfoldable pub program : Unit {0}
unfolding replicate codes generate diffie_hellman generate_nonce initiation_message sign_initiation
    verify_initiation response_message sign_response verify_response transcript_binding
    derive_root_key initiate finalize check_expected answer respond to_list from_list head key_bytes
    sum digest message_of
program = tt

-- the parts of a result
abbrev pub made : HandshakeResponsePayload toy_curves
made = elim (respond toy_curves (signing 8) (some alice) initiation 50).0 [
  | ok (response, root) ↦ response
  | err e ↦ fallback
  | panic ↦ fallback
]

abbrev pub root_key : RootKey
root_key = elim (respond toy_curves (signing 8) (some alice) initiation 50).0 [
  | ok (response, root) ↦ root
  | err e ↦ record { bytes = [] }
  | panic ↦ record { bytes = [] }
]

pub ran : (respond toy_curves (signing 8) (some alice) initiation 50).0 ≡ ok (made, root_key)
unfolding program
ran = refl

pub accepted : finalize toy_curves (initiate toy_curves (signing 3) bob 10).0 made ≡ ok root_key
unfolding program
accepted = refl

-- the responder's log, and the initiator's
abbrev pub answers : List (Run toy_curves (signing 8))
answers = responded (some alice) initiation 50 made root_key ran ∷ []

abbrev openings : List (Run toy_curves (signing 3))
openings = initiated bob 10 ∷ []

made-nonce : length made.nonce ≡ 16
unfolding program
made-nonce = length-replicate {A = ℕ} 16 51

initiation-identity : initiation.initiator_identity_pub ≡ alice
unfolding initiate
initiation-identity = refl

finalize-Matched_example :
    Matched toy_curves (signing 8) answers (initiate toy_curves (signing 3) bob 10).0 made root_key
unfolding program
finalize-Matched_example =
    finalize-Matched toy_curves toy_curves-IsSound (signing 3) (signing 8) 10 made root_key answers
      made-nonce
      (λ valid. (responded (some alice) initiation 50 made root_key ran, Memᴰ.head refl, refl))
      accepted

respond-initiated_example :
    (start : ℕ) × Memᴰ (initiated bob start) openings
    × (initiation.initiator_ephemeral_pub
        ≡ (initiate toy_curves (signing 3) bob start).1.initiator_ephemeral_pub)
    × (initiation.nonce ≡ (initiate toy_curves (signing 3) bob start).1.nonce)
unfolding program
respond-initiated_example =
    respond-initiated toy_curves toy_curves-IsSound (signing 3) (signing 8) (some alice) initiation
      50 made root_key openings initiation-identity
      (λ valid. (initiated bob 10, Memᴰ.head refl, refl)) ran
