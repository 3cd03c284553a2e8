-- ===== src/Connection/Chunks.antt =====
-- connection.hpp: a stream of bytes that reaches `receive_packet` in pieces of any sizes.
pub mod Cut
pub mod Handling
pub mod Rounds
pub mod Delivery
use asyncmsg.Base.{ℕ, min, true, false, List, [], ◌∷◌, take, drop}
use asyncmsg.ByteOrder.{ByteOrder}
use asyncmsg.IoBuffer.{prepare}
use asyncmsg.Connection.{
  Receiver, Outcome, finished, read_past, no_fuel, received, size_to_read, receive_round,
}

-- How many bytes a read gets when so many have come: as many as the slab takes.
abbrev pub read_size : Receiver → ℕ → ℕ
read_size s come = min come (prepare s.recv_buffer (size_to_read s.recv_buffer)).1.size

-- After a round: the next ones, or the end, with the bytes that were not read.
abbrev pub and_then : Outcome → List ℕ → (Receiver → Outcome × List ℕ) → Outcome × List ℕ
and_then (finished s true) rest next = next s
and_then (finished s false) rest next = (finished s false, rest)
and_then read_past rest next = (read_past, rest)
and_then no_fuel rest next = (no_fuel, rest)

-- `receive_packet` on a stream, of which so many bytes have come for each of its reads: the outcome, and the
-- bytes that were not read.
unfoldable pub receive_stream : ByteOrder → (ℕ → ℕ) → Receiver → List ℕ → List ℕ → Outcome × List ℕ
receive_stream o clock s stream [] = (finished s true, stream)
receive_stream o clock s stream (come ∷ comes) =
    let n = read_size s come in
    and_then (receive_round o clock s (received (take n stream))) (drop n stream)
      (λ s'. receive_stream o clock s' (drop n stream) comes)
