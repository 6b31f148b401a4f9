-- ===== src/Channel/Integrity/Despite.antt =====
-- A message that arrives at a channel of src/channel.rs after any calls that the network has made.
use mathlib.Core.List.{Memᴰ}
use null_path.Base.{◌≡◌, ◌⊎◌, List, [], ◌∷◌, ok}
use null_path.Channel.Arrivals.{Arrival}
use null_path.Channel.Integrity.Once.{Call, Delivery, deliveries}
use null_path.Channel.{SecureChannel, receive}
use null_path.PathEngine
use null_path.Primitives.{Primitives}

module _ (p : Primitives) where
  -- the channel behind the calls
  unfoldable pub after : SecureChannel → List Call → SecureChannel
  after c [] = c
  after c (call ∷ calls) =
      after (receive p call.now c call.envelopes call.seq call.message_id).0 calls

  -- the message is taken in now, or one with its number has been
  abbrev pub Served : SecureChannel → List Call → Arrival → Type 0
  Served c calls m =
      ((receive p m.now (after c calls) m.envelopes m.seq m.message_id).1 ≡ ok m.payload)
      ⊎ ((r : Delivery) × Memᴰ r (deliveries p c calls) × (r.seq ≡ m.seq))
