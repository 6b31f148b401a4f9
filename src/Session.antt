-- ===== src/Session.antt =====
-- A whole session: the handshake of src/handshake.rs, a channel of src/channel.rs on each side from
-- the root key of that side, and the messages that the two exchange.
use null_path.Base.{ℕ, ◌^◌, ◌<◌, ◌≡◌, ap, Option, List, map, ok, Result, ◌>>=◌, length}
use null_path.Channel.Turns.{Turn}
use null_path.Channel.Conversation.{AllTurnsWithin, converse, converse-delivers}
use null_path.Channel.{SecureChannel, new}
use null_path.Curves
use null_path.Curves.{Curves}
use null_path.Errors.{HandshakeError, ChannelError}
use null_path.Handshake.Agreement.{Permits, finalize-length, finalize-respond}
use null_path.Handshake.{initiate, respond, finalize}
use null_path.Primitives
use null_path.Primitives.{Bytes, Primitives}

module _ (k : Curves) where
  -- the initiator `a` expects the responder `v`, and the responder `b` expects `who`
  unfoldable pub open_session :
      k.SigningKey
      → k.VerifyingKey
      → k.SigningKey
      → Option k.VerifyingKey
      → ℕ
      → ℕ
      → ℕ
      → Result HandshakeError (SecureChannel × SecureChannel)
  open_session a v b who n_paths draw draw' =
      let (state, initiation, _) = initiate k a v draw in
      do
        (response, root) ← (respond k b who initiation draw').0
        root' ← finalize k state response
        ok (new root'.bytes n_paths, new root.bytes n_paths)

  unfoldable pub hold_session :
      Primitives
      → k.SigningKey
      → k.VerifyingKey
      → k.SigningKey
      → Option k.VerifyingKey
      → ℕ
      → ℕ
      → ℕ
      → List Turn
      → ℕ
      → Result HandshakeError (List (Result ChannelError Bytes))
  hold_session p a v b who n_paths draw draw' turns drawn = do
    (c, d) ← open_session a v b who n_paths draw draw'
    ok (converse p c d turns drawn)

  module _ (sound : Curves.IsSound k) where
    -- Two honest parties that name each other's identity keys, the responder any initiator or this
    -- one, with the same count of paths: the handshake opens a channel on each side, and then every
    -- message within the limits that either sends, and the other receives before the next is sent,
    -- arrives with its payload, for any list of fewer than 2 ^ 64 of them.
    pub hold_session-delivers :
        (p : Primitives) (a b : k.SigningKey) (who : Option k.VerifyingKey) (n_paths draw draw' : ℕ)
        (turns : List Turn) (drawn : ℕ)
        → Primitives.IsSound p
        → Permits k (k.verifying_key a) who
        → 0 < n_paths
        → length turns < 2 ^ 64
        → AllTurnsWithin turns
        → hold_session p a (k.verifying_key b) b who n_paths draw draw' turns drawn
          ≡ ok (map (λ t. ok t.payload) turns)
    unfolding hold_session open_session
    hold_session-delivers p a b who n_paths draw draw' turns drawn sound' permits paths few within =
        let (response, root, answered, done, _) =
          finalize-respond k sound a b who draw draw' permits in
        let size =
          finalize-length k sound (initiate k a (k.verifying_key b) draw).0 response root done in
        rw (answered, done)
          (ap ok (converse-delivers p sound' root.bytes n_paths drawn turns size paths few within))
