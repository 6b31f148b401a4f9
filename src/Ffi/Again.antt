-- ===== src/Ffi/Again.antt =====
-- A second call of `decoypath_channel_receive` of src/ffi.rs for a message that was just received.
use mathlib.Core.Option.{some_inj}
use null_path.Base.{
  ℕ, zero, suc, ◌+◌, ◌*◌, ◌/◌, ◌≤◌, ◌<◌, ◌≡◌, sym, ap, ◌∙◌, inl, inr, some, arith, length, take,
  length-take, le→ltb, err, ok, List, Result-cases, get_range,
}
use null_path.Channel.Invariant.{IsValid, Accepts-Consumed_self}
use null_path.Channel.Judgement.Again.{Accepts-recorded, Accepts-n_paths}
use null_path.Channel.Judgement.Cases.{receive_on_record}
use null_path.Channel.Step.{Accepts}
use null_path.Channel.{SecureChannel, max_message_id_len, receive}
use null_path.Envelope.{envelope_total_len}
use null_path.Errors.{ChannelError}
use null_path.Ffi.Codes.{channel_receive_lem}
use null_path.Ffi.Exchange.{envelopes_len-passes}
use null_path.Ffi.Integrity.{called_ok}
use null_path.Ffi.{
  ReturnCode, outcome, max_n_paths, receive_code, split_envelopes, write_payload, channel_receive,
  channel_receive_checked,
}
use null_path.Primitives.{Bytes, Primitives}

-- the loop gives an envelope for each of its turns
pub length-split_envelopes :
    (n i : ℕ) (raw : Bytes) (envelopes : List Bytes)
    → split_envelopes n i raw ≡ ok envelopes
    → length envelopes ≡ n
unfolding split_envelopes
length-split_envelopes zero i raw envelopes h = ground (arith, h)
length-split_envelopes (suc n) i raw envelopes h =
    let start = i * envelope_total_len in
    elim (Result-cases (get_range {E = ChannelError} start (start + envelope_total_len) raw)) [
      | inr (inl (e, r)) ↦ absurd (ground (arith, r, h))
      | inr (inr r) ↦ absurd (ground (arith, r, h))
      | inl (env, first) ↦ elim (Result-cases (split_envelopes n (i + 1) raw)) [
        | inr (inl (e, r)) ↦ absurd (ground (arith, first, r, h))
        | inr (inr r) ↦ absurd (ground (arith, first, r, h))
        | inl (rest, r) ↦
            let size = length-split_envelopes n (i + 1) raw rest r in
            ground (arith, first, r, h, size)
      ]
    ]

module _ (p : Primitives) where
  channel_receive-replayed :
      (c' : SecureChannel) (now seq n : ℕ) (raw message_id : Bytes) (message_id_len : ℕ)
      (buffer : Bytes) (buffer_len : ℕ) (envelopes : List Bytes)
      → 0 < n
      → n ≤ max_n_paths
      → message_id_len ≤ max_message_id_len
      → split_envelopes n 0 (take (n * envelope_total_len) raw) ≡ ok envelopes
      → receive p now c' envelopes seq (take message_id_len message_id)
        ≡ (c', err ChannelError.replayed_sequence)
      → channel_receive p now
          (some c')
          (some raw)
          (n * envelope_total_len)
          seq
          (some message_id)
          message_id_len
          (some buffer)
          (some buffer_len)
        ≡ outcome c' (buffer, buffer_len, ReturnCode.decoypath_err_replayed_sequence)
  unfolding channel_receive channel_receive_checked write_payload receive_code
  channel_receive-replayed c' now seq n raw message_id message_id_len buffer buffer_len envelopes lo
        hi short cut got =
      let whole : n * envelope_total_len / envelope_total_len ≡ n = omega arith in
      rw (le→ltb max_message_id_len message_id_len short, envelopes_len-passes n lo hi, whole, cut)
        (ap (λ r. outcome r.0 (write_payload r.1 buffer buffer_len)) got)

  -- After a call that returned `DECOYPATH_OK`, the same call on the channel that it left, at any time
  -- and with any buffer, changes nothing and returns `DECOYPATH_ERR_REPLAYED_SEQUENCE`.
  pub channel_receive-again :
      (c c' : SecureChannel) (now now' seq n : ℕ) (raw message_id : Bytes) (message_id_len : ℕ)
      (buffer : Bytes) (buffer_len : ℕ) (written : Bytes) (len : ℕ) (buffer' : Bytes)
      (buffer_len' : ℕ)
      → IsValid c
      → 0 < n
      → n ≤ max_n_paths
      → c.n_paths ≤ n
      → message_id_len ≤ max_message_id_len
      → channel_receive p now
          (some c)
          (some raw)
          (n * envelope_total_len)
          seq
          (some message_id)
          message_id_len
          (some buffer)
          (some buffer_len)
        ≡ outcome c' (written, len, ReturnCode.decoypath_ok)
      → channel_receive p now'
          (some c')
          (some raw)
          (n * envelope_total_len)
          seq
          (some message_id)
          message_id_len
          (some buffer')
          (some buffer_len')
        ≡ outcome c' (buffer', buffer_len', ReturnCode.decoypath_err_replayed_sequence)
  channel_receive-again c c' now now' seq n raw message_id message_id_len buffer buffer_len written
        len buffer' buffer_len' v lo hi paths short run =
      let whole : n * envelope_total_len / envelope_total_len ≡ n = omega arith in
      let (envelopes, parts, _, _, _, _) =
        called_ok p c now raw (n * envelope_total_len) seq message_id message_id_len buffer
          buffer_len (ap (λ o. o.code) run) in
      let parts = rw whole at parts in
      let id = take message_id_len message_id in
      elim (channel_receive_lem p c v now raw (n * envelope_total_len) seq message_id message_id_len
        buffer buffer_len) [
          | inl u ↦ absurd (u.not_ok (ap (λ o. o.code) (sym u.same ∙ run)))
          | inr a ↦
              let same : a.after ≡ c' = some_inj.0 (ap (λ o. o.channel) (sym a.leaves ∙ run)) in
              let step : Accepts p now c c' seq id a.key = rw same at a.step in
              channel_receive-replayed c' now' seq n raw message_id message_id_len buffer'
                buffer_len' envelopes lo hi short parts
                (receive_on_record p c' envelopes seq id now'
                  (record {
                    short = omega (arith, length-take message_id_len message_id);
                    enough = omega (
                      arith,
                      length-split_envelopes n 0 (take (n * envelope_total_len) raw) envelopes
                          parts,
                      Accepts-n_paths p v step,
                    );
                  })
                  (Accepts-Consumed_self p v step).1 (Accepts-recorded p v step))
        ]
