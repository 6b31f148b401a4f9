-- ===== src/Crypto/Transcript.antt =====
-- The signatures and the root key of src/crypto.rs between two honest parties.
use null_path.Base.{◌≡◌, refl, ◌++◌, ok, arith, length}
use null_path.Crypto.{
  sign_initiation, verify_initiation, sign_response, verify_response, derive_root_key,
  transcript_binding,
}
use null_path.Curves.{Curves, IsSound}
use null_path.Primitives.{Bytes}
use null_path.Types.{RootKey, RawDhSecret}

module _ (k : Curves) (sound : IsSound k) where
  pub verify_initiation-sign_initiation :
      (s : k.SigningKey) (responder : k.VerifyingKey) (ephemeral : k.DhPublicKey) (nonce : Bytes)
      → verify_initiation k
          (k.verifying_key s)
          responder
          ephemeral
          nonce
          (sign_initiation k s responder ephemeral nonce)
        ≡ ok tt
  unfolding verify_initiation sign_initiation
  verify_initiation-sign_initiation s responder ephemeral nonce = rw (sound.verify-sign s _) refl

  pub verify_response-sign_response :
      (s : k.SigningKey) (initiator : k.VerifyingKey) (ours theirs : k.DhPublicKey)
      (nonce nonce' : Bytes)
      → verify_response k
          (k.verifying_key s)
          initiator
          ours
          theirs
          nonce
          nonce'
          (sign_response k s initiator ours theirs nonce nonce')
        ≡ ok tt
  unfolding verify_response sign_response
  verify_response-sign_response s initiator ours theirs nonce nonce' =
      rw (sound.verify-sign s _) refl

  pub derive_root_key_total :
      (dh : RawDhSecret) (v w : k.VerifyingKey) (a b : k.DhPublicKey) (nonce nonce' : Bytes)
      → (root : RootKey) × (derive_root_key k dh v w a b nonce nonce' ≡ ok root)
  unfolding derive_root_key
  derive_root_key_total dh v w a b nonce nonce' =
      let (okm, h, size) =
        sound.hkdf_total (nonce ++ nonce') dh.bytes (transcript_binding k v w a b) in
      (record { bytes = okm }, rw (h, derive_root_key) refl)

  pub derive_root_key-length :
      (dh : RawDhSecret) (v w : k.VerifyingKey) (a b : k.DhPublicKey) (nonce nonce' : Bytes)
      (root : RootKey)
      → derive_root_key k dh v w a b nonce nonce' ≡ ok root
      → length root.bytes ≡ 32
  unfolding derive_root_key
  derive_root_key-length dh v w a b nonce nonce' root h =
      let (okm, made, size) =
        sound.hkdf_total (nonce ++ nonce') dh.bytes (transcript_binding k v w a b) in
      ground (arith, made, size)
