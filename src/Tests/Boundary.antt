-- ===== src/Tests/Boundary.antt =====
-- The C boundary at concrete channels, messages and buffers.
use null_path.Base.{◌≢◌, ℕ, ◌≡◌, ◌⊎◌, some, List, arith, take, replicate, length-replicate}
use null_path.Channel.Accept.{Carries}
use null_path.Channel.Sending.{advance}
use null_path.Channel.{new, next_send_seq}
use null_path.Ffi.Codes.{Unchanged, Consumed, channel_receive_lem}
use null_path.Ffi.Panics.{channel_receive-returns}
use null_path.Ffi.Sent.{written, channel_send_total}
use null_path.Ffi.{ReturnCode, copy_envelopes, channel_send, channel_receive, outcome}
use null_path.PathEngine
use null_path.Primitives.{Bytes}
use null_path.Tests.Exchange.{
  start, first, envelopes_of, payload, message_id, new_root_size, start-n_paths, start-IsValid,
}
use null_path.Tests.Toy.{toy, toy-IsSound}

abbrev pub buffer : Bytes
buffer = replicate 2000 0

-- a buffer with room for three envelopes, and bytes behind them
abbrev spacious : Bytes
spacious = replicate 4000 1

channel_send_total_example :
    (envelopes : List Bytes) × (draw' : ℕ) × Carries toy start.current_key
      (next_send_seq start)
      start.n_paths
      (take 2 message_id)
      (take 3 payload)
      envelopes
    × (channel_send toy
          (some start)
          (some payload)
          3
          (some message_id)
          2
          (some spacious)
          (some 4000)
          0
        ≡ (outcome (advance toy start) (written start.n_paths envelopes spacious 4000), draw'))
unfolding new PathEngine.new
channel_send_total_example =
    channel_send_total toy toy-IsSound start 0 payload 3 message_id 2 spacious 4000 new_root_size
      start-n_paths (omega arith) (omega arith)

-- message 0, for three paths
abbrev pub wire : Bytes
wire = (copy_envelopes 3072 0 (envelopes_of first.1) (replicate 3072 0)).0

channel_receive_lem_example :
    Unchanged start buffer 2 (
      channel_receive toy 7
        (some start)
        (some wire)
        3072
        0
        (some message_id)
        2
        (some buffer)
        (some 2))
    ⊎ Consumed toy 7 start 0 (take 2 message_id) buffer 2 (
        channel_receive toy 7
          (some start)
          (some wire)
          3072
          0
          (some message_id)
          2
          (some buffer)
          (some 2))
channel_receive_lem_example =
    channel_receive_lem toy start start-IsValid 7 wire 3072 0 message_id 2 buffer 2

abbrev pub envelope : Bytes
envelope = replicate 1024 9

-- envelopes of zeros
channel_receive-returns_example :
    (channel_receive toy 7
      (some start)
      (some (replicate 3072 0))
      3072
      0
      (some message_id)
      2
      (some buffer)
      (some 2)).code
    ≢ ReturnCode.decoypath_err_panic
channel_receive-returns_example =
    channel_receive-returns toy toy-IsSound start start-IsValid 7 (replicate 3072 0) 3072 0
      message_id 2 buffer 2 (omega (arith, length-replicate {A = ℕ} 3072 0))
