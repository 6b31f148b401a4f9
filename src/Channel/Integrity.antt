-- ===== src/Channel/Integrity.antt =====
-- What comes out of `receive` of src/channel.rs, next to what the calls of `send` put in. The calls of
-- a sender are a log, and an envelope that ChaCha20-Poly1305 decrypts without an entry in it is a
-- forgery.
pub mod Once
pub mod Despite
use mathlib.Core.List.{Memᴰ}
use mathlib.Core.List.Memᴰ
use mathlib.Core.Path.{subst}
use null_path.Base.{
  ℕ, ◌+◌, ◌^◌, ◌≤◌, ◌<◌, ◌≡◌, sym, ap, ◌∙◌, inl, inr, some, List, [], ◌∷◌, arith, ok, err, length,
  slice, get_elem?, leb, Bool-cases, Option-cases, Result-cases,
}
use null_path.Channel.Aad.{construct_aad-injective}
use null_path.Channel.Invariant.{IsValid, receive_lem}
use null_path.Channel.Ratchet.{Follows, Accepts-key}
use null_path.Channel.Refusal.{send-within}
use null_path.Channel.Sending.{next_send_seq-lt}
use null_path.Channel.{
  SecureChannel, construct_aad, next_send_seq, index, authenticate, receive, send,
}
use null_path.Envelope.RoundTrip.{IsPlaintext, plaintext_of_total, parse-layout}
use null_path.Envelope.{
  max_payload_size, nonce_len, ciphertext_len, envelope_total_len, plaintext_of, decrypt, parse,
  open_envelope,
}
use null_path.Errors.{ChannelError}
use null_path.PathEngine.Chain.{derive_n}
use null_path.PathEngine.{RatchetKey, select_slot}
use null_path.Primitives.{Bytes, Primitives, IsSound}

-- a message that was sent, with the key, nonce and plaintext of its real envelope
pub record Sending : Type 0 where
  pub seq : ℕ
  pub message_id : Bytes
  pub payload : Bytes
  pub key : Bytes
  pub nonce : Bytes
  pub plaintext : Bytes

module _ (p : Primitives) where
  unfoldable pub sending : SecureChannel → Bytes → Bytes → ℕ → Bytes → Sending
  sending c payload message_id draw plaintext = record {
    seq = next_send_seq c;
    message_id = message_id;
    payload = payload;
    key = c.current_key.bytes;
    nonce = p.fill_bytes draw nonce_len;
    plaintext = plaintext;
  }

  -- the log of the calls that lead from the channel `c`, the latest first
  pub data Sends (c : SecureChannel) : List Sending → SecureChannel → Type 0 where
    begin : Sends c [] c
    sent :
        {log : List Sending} {d e : SecureChannel} (payload message_id plaintext : Bytes)
        (envelopes : List Bytes) (draw drawn draw' : ℕ)
        → Sends c log d
        → send p d payload message_id draw ≡ (e, ok envelopes, draw')
        → plaintext_of p payload (draw + 1) ≡ (ok plaintext, drawn)
        → Sends c (sending d payload message_id draw plaintext ∷ log) e
    unsent :
        {log : List Sending} {d e : SecureChannel} (payload message_id : Bytes) (x : ChannelError)
        (draw draw' : ℕ)
        → Sends c log d
        → send p d payload message_id draw ≡ (e, err x, draw')
        → Sends c log e
    received :
        {log : List Sending} {d : SecureChannel} (now : ℕ) (envelopes : List Bytes) (seq : ℕ)
        (message_id : Bytes)
        → Sends c log d
        → Sends c log (receive p now d envelopes seq message_id).0

  -- an envelope that decrypts is that of an entry of the log
  abbrev pub Unforged : List Sending → Bytes → Bytes → Bytes → Type 0
  Unforged log key aad envelope =
      (buffer : Bytes)
      → p.decrypt key (slice 0 nonce_len envelope) aad
          (slice nonce_len (nonce_len + ciphertext_len) envelope)
          (slice (nonce_len + ciphertext_len) envelope_total_len envelope)
        ≡ some buffer
      → (s : Sending) × Memᴰ s log
        × (s.key ≡ key)
        × (s.nonce ≡ slice 0 nonce_len envelope)
        × (construct_aad s.seq s.message_id ≡ aad)
        × (s.plaintext ≡ buffer)

  open_envelope_ok :
      (key envelope aad payload : Bytes)
      → open_envelope p key envelope aad ≡ ok payload
      → (buffer : Bytes) × (p.decrypt key
            (slice 0 nonce_len envelope)
            aad
            (slice nonce_len (nonce_len + ciphertext_len) envelope)
            (slice (nonce_len + ciphertext_len) envelope_total_len envelope)
          ≡ some buffer)
        × (parse buffer ≡ ok payload)
  unfolding open_envelope decrypt
  open_envelope_ok key envelope aad payload h = ground arith

  pub authenticate_ok :
      (key : RatchetKey) (envelopes : List Bytes) (n_paths seq : ℕ) (message_id payload : Bytes)
      → authenticate p key envelopes n_paths seq message_id ≡ ok payload
      → (slot : ℕ) × (envelope : Bytes) × (get_elem? envelopes slot ≡ some envelope)
        × (open_envelope p key.bytes envelope (construct_aad seq message_id) ≡ ok payload)
  unfolding authenticate index
  authenticate_ok key envelopes n_paths seq message_id payload h =
      elim (Result-cases (select_slot p key.bytes message_id n_paths)) [
        | inr (inr e) ↦ ground (arith, e)
        | inr (inl (x, e)) ↦ ground (arith, e)
        | inl (slot, e) ↦ elim (Bool-cases (leb (length envelopes) slot)) [
          | inl beyond ↦ ground (arith, e, beyond)
          | inr within ↦ elim (Option-cases (get_elem? envelopes slot)) [
            | inl none_there ↦ absurd (ground (arith, e, within, none_there))
            | inr (envelope, stands) ↦ (slot, envelope, stands, ground arith)
          ]
        ]
      ]

module _ (p : Primitives) (sound : IsSound p) where
  -- what `send` sees to for an entry
  record IsSealed (s : Sending) : Type 0 where
    pub number : s.seq < 2 ^ 64
    pub small : length s.payload ≤ max_payload_size
    pub frame : IsPlaintext s.payload s.plaintext

  plaintext_of-IsPlaintext :
      (payload plaintext : Bytes) (draw drawn : ℕ)
      → length payload ≤ max_payload_size
      → plaintext_of p payload draw ≡ (ok plaintext, drawn)
      → IsPlaintext payload plaintext
  plaintext_of-IsPlaintext payload plaintext draw drawn small made =
      let (made_of, drawn', run, frame, _) = plaintext_of_total p payload draw sound small in
      let same = ap (λ r. r.0) (sym run ∙ made) in
      let eq : made_of ≡ plaintext = ground arith in subst (IsPlaintext payload) eq frame

  Sends-IsSealed :
      {c d : SecureChannel} {log : List Sending} (s : Sending)
      → Sends p c log d
      → Memᴰ s log
      → IsSealed s
  unfolding sending
  Sends-IsSealed s begin m = absurd (Memᴰ.not-nil m)
  Sends-IsSealed s (sent payload message_id plaintext envelopes draw drawn draw' sends run made) m =
      elim (Memᴰ.cases_cons m) [
        | inr earlier ↦ Sends-IsSealed s sends earlier
        | inl this ↦
            let small =
              (send-within p sound _ payload message_id draw envelopes (ap (λ r. r.1) run)).2 in
            rw this (record {
              number = next_send_seq-lt _;
              small = small;
              frame = plaintext_of-IsPlaintext payload plaintext (draw + 1) drawn small made;
            })
      ]
  Sends-IsSealed s (unsent payload message_id x draw draw' sends run) m = Sends-IsSealed s sends m
  Sends-IsSealed s (received now envelopes seq message_id sends) m = Sends-IsSealed s sends m

  -- Suppose that an envelope given to `receive` decrypts, under the key that the ratchet has for the
  -- number and with the associated data of the call, only if a call of `send` in the log sealed that
  -- plaintext with that key, nonce and associated data. Then a payload that `receive` returns for a
  -- number below 2 ^ 64 is the payload of a call of `send` in the log, with that number and message
  -- ID: no envelope is attributed to another number, ID or payload, whatever calls came before.
  pub receive-Sends :
      {c d e : SecureChannel} {log : List Sending} (root : RatchetKey) (now seq : ℕ)
      (message_id payload : Bytes) (envelopes : List Bytes)
      → Sends p c log d
      → IsValid e
      → Follows p root e
      → seq < 2 ^ 64
      → ((i : ℕ) (envelope : Bytes)
          → get_elem? envelopes i ≡ some envelope
          → Unforged p log (derive_n p seq root).bytes (construct_aad seq message_id) envelope)
      → (receive p now e envelopes seq message_id).1 ≡ ok payload
      → (s : Sending) × Memᴰ s log
        × (s.seq ≡ seq)
        × (s.message_id ≡ message_id)
        × (s.payload ≡ payload)
        × (s.key ≡ (derive_n p seq root).bytes)
  receive-Sends {e} root now seq message_id payload envelopes sends v f small unforged h =
      elim (receive_lem p v now envelopes seq message_id) [
        | inr (_, inl (x, r)) ↦ absurd (cc)
        | inr (_, inr r) ↦ absurd (cc)
        | inl a ↦
            let same = Accepts-key p root f a.step in
            let (i, envelope, stands, opened) =
              authenticate_ok p a.key envelopes e.n_paths seq message_id a.payload a.authentic in
            let (buffer, decrypted, parsed) =
              open_envelope_ok p a.key.bytes envelope (construct_aad seq message_id) a.payload
                opened in
            let (s, listed, key, nonce, aad, plain) =
              unforged i envelope stands buffer (rw same at decrypted) in
            let sealed = Sends-IsSealed s sends listed in
            let (number, id) =
              construct_aad-injective s.seq seq s.message_id message_id sealed.number small aad in
            let read = ap parse (sym sealed.frame.layout ∙ plain) ∙ parsed in
            let meant = parse-layout s.payload sealed.frame.padding sealed.small in
            (s, listed, number, id, ground arith, key)
      ]
