-- ===== src/Tests/Receiver.antt =====
-- The receiver without keys, at concrete calls.
use null_path.Base.{◌≡◌}
use null_path.Channel.Receiver.Refines.{seen, receive-receive_spec}
use null_path.Channel.Receiver.{receiver_of, receive_spec}
use null_path.Channel.Ratchet.{new-Follows}
use null_path.Channel.{receive}
use null_path.Tests.Exchange.{second, envelopes_of, root, root_key, start, start-IsValid, payload}
use null_path.Tests.Toy.{toy}

receive-receive_spec_example :
    seen (receive toy 0 start (envelopes_of second.1) 1 payload)
    ≡ receive_spec toy root 0 (receiver_of start) (envelopes_of second.1) 1 payload
receive-receive_spec_example =
    receive-receive_spec toy root start-IsValid (new-Follows toy root_key 3) 0 1 payload
      (envelopes_of second.1)
