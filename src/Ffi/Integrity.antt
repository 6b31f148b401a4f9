-- ===== src/Ffi/Integrity.antt =====
-- What `decoypath_channel_receive` of src/ffi.rs hands to its caller, next to what was sent.
use mathlib.Core.List.{Memᴰ}
use null_path.Base.{
  ℕ, ◌/◌, ◌^◌, ◌<◌, ◌≡◌, refl, inl, inr, some, List, arith, ok, length, get_elem?, take, splice,
  ltb, Bool-cases, Result-cases, Result,
}
use null_path.Channel.Integrity.{Sending, Sends, Unforged, receive-Sends}
use null_path.Channel.Invariant.{IsValid}
use null_path.Channel.Ratchet.{Follows}
use null_path.Channel.{SecureChannel, max_message_id_len, construct_aad, receive}
use null_path.Envelope.{envelope_total_len}
use null_path.Errors.{ChannelError}
use null_path.Ffi.Codes.{is_invalid, receive_code-error}
use null_path.Ffi.{
  ReturnCode, Outcome, write_payload, split_envelopes, channel_receive_checked, channel_receive,
}
use null_path.PathEngine.Chain.{derive_n}
use null_path.PathEngine.{RatchetKey}
use null_path.Primitives.{Bytes, Primitives, IsSound}

module _ (p : Primitives) (c : SecureChannel) (now : ℕ) (envelopes : Bytes) (envelopes_len seq : ℕ)
    (message_id : Bytes) (message_id_len : ℕ) (out : Bytes) (out_len : ℕ) where
  -- the call
  abbrev called : Outcome
  called =
      channel_receive p now (some c) (some envelopes) envelopes_len seq (some message_id)
        message_id_len (some out) (some out_len)

  -- the envelopes that the call cuts the buffer into, or the panic of a range beyond it
  abbrev pub cut : Result ChannelError (List Bytes)
  cut = split_envelopes (envelopes_len / envelope_total_len) 0 (take envelopes_len envelopes)

  -- a call that returned `DECOYPATH_OK` has cut up the buffer, and has written the payload that
  -- `receive` returned
  pub called_ok :
      called.code ≡ ReturnCode.decoypath_ok
      → (envelope_vec : List Bytes) × (cut ≡ ok envelope_vec)
        × (payload : Bytes) × ((receive p now c envelope_vec seq (take message_id_len message_id)).1
            ≡ ok payload)
        × (called.out ≡ some (splice out 0 payload))
        × (called.out_len ≡ some (length payload))
  unfolding channel_receive channel_receive_checked write_payload
  called_ok h = elim (Bool-cases (ltb max_message_id_len message_id_len)) [
    | inl long ↦ absurd (ground (arith, long))
    | inr short ↦ elim (Bool-cases (is_invalid envelopes_len)) [
      | inl odd ↦ absurd (ground (arith, short, odd))
      | inr even ↦ elim (Result-cases cut) [
        | inr (inl (e, r)) ↦ absurd ((receive_code-error e).0 (ground (arith, short, even, r)))
        | inr (inr r) ↦ absurd (ground (arith, short, even, r))
        | inl (vec, v) ↦
            elim (Result-cases (receive p now c vec seq (take message_id_len message_id)).1) [
              | inr (inl (e, r)) ↦
                  absurd ((receive_code-error e).0 (ground (arith, short, even, v, r)))
              | inr (inr r) ↦ absurd (ground (arith, short, even, v, r))
              | inl (payload, r) ↦ elim (Bool-cases (ltb out_len (length payload))) [
                | inl little ↦ absurd (ground (arith, short, even, v, r, little))
                | inr room ↦ (
                  vec,
                  v,
                  payload,
                  r,
                  rw (short, even, v, r, room) refl,
                  rw (short, even, v, r, room) refl,
                )
              ]
            ]
      ]
    ]
  ]

  -- Suppose that none of the envelopes in the buffer is a forgery, that is, that an envelope decrypts
  -- under the key that the ratchet has for the number, and with the associated data of the call, only
  -- if a call of `send` in the log sealed its plaintext so. Then if `decoypath_channel_receive` on a
  -- valid channel returns `DECOYPATH_OK` for a `u64` number, the start of the caller's buffer and the
  -- length behind `out_len` are a payload that was sent, under that number and message ID.
  pub channel_receive-Sends :
      {d e : SecureChannel} {log : List Sending} (root : RatchetKey)
      → IsSound p
      → Sends p d log e
      → IsValid c
      → Follows p root c
      → seq < 2 ^ 64
      → ((envelope_vec : List Bytes) (i : ℕ) (envelope : Bytes)
          → cut ≡ ok envelope_vec
          → get_elem? envelope_vec i ≡ some envelope
          → Unforged p log
              (derive_n p seq root).bytes
              (construct_aad seq (take message_id_len message_id))
              envelope)
      → (channel_receive p now
          (some c)
          (some envelopes)
          envelopes_len
          seq
          (some message_id)
          message_id_len
          (some out)
          (some out_len)).code
        ≡ ReturnCode.decoypath_ok
      → (s : Sending) × Memᴰ s log
        × (s.seq ≡ seq)
        × (s.message_id ≡ take message_id_len message_id)
        × ((channel_receive p now
              (some c)
              (some envelopes)
              envelopes_len
              seq
              (some message_id)
              message_id_len
              (some out)
              (some out_len)).out
            ≡ some (splice out 0 s.payload))
        × ((channel_receive p now
              (some c)
              (some envelopes)
              envelopes_len
              seq
              (some message_id)
              message_id_len
              (some out)
              (some out_len)).out_len
            ≡ some (length s.payload))
  channel_receive-Sends root sound sends v f small unforged h =
      let (vec, v', payload, got, written, len) = called_ok h in
      let (s, listed, number, id, same, _) =
        receive-Sends p sound root now seq (take message_id_len message_id) payload vec sends v f
          small (λ i envelope stands. unforged vec i envelope v' stands) got in
      (s, listed, number, id, rw same written, rw same len)
