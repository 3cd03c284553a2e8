-- ===== src/Connection/Reads.antt =====
-- connection.hpp: what is left of the tests for room in the receiving coroutine.
use asyncmsg.Base.{ℕ, ◌<◌, ◌+◌, ◌≡◌, refl, true, false, List, [], ◌∷◌, length}
use asyncmsg.ByteOrder.{ByteOrder}
use asyncmsg.IoBuffer.Contents.{contents}
use asyncmsg.Packet.{header_length, max_body_length}
use asyncmsg.Connection.{
  Receiver, Outcome, finished, read_past, no_fuel, Read, read_round, receive_packet,
}
use asyncmsg.Connection.Total.{
  IsReady, Settled, read_round-Settled, receive_round-read, receive_packet-Settled,
}

-- The loop without its tests for room: it does nothing but read.
unfoldable pub read_all : ByteOrder → (ℕ → ℕ) → Receiver → List Read → Outcome
read_all o clock s [] = finished s true
read_all o clock s (read ∷ reads) = elim (read_round o clock s read) [
  | finished s' true ↦ read_all o clock s' reads
  | finished s' false ↦ finished s' false
  | read_past ↦ read_past
  | no_fuel ↦ no_fuel
]

receive_packet_lem :
    (o : ByteOrder) (clock : ℕ → ℕ) (s : Receiver) (reads : List Read)
    → IsReady s
    → length (contents s.recv_buffer) < header_length + max_body_length
    → receive_packet o clock s reads ≡ read_all o clock s reads
unfolding receive_packet read_all
receive_packet_lem o clock s [] ready short = refl
receive_packet_lem o clock s (read ∷ reads) ready short =
    rw (receive_round-read o clock s ready short read, receive_packet)
      (go (λ s' ready' short'. receive_packet_lem o clock s' reads ready' short')
        (read_round o clock s read) (read_round-Settled o clock s ready short read))
  where
    go :
        ((s' : Receiver)
          → IsReady s'
          → length (contents s'.recv_buffer) < header_length + max_body_length
          → receive_packet o clock s' reads ≡ read_all o clock s' reads)
        → (r : Outcome) → Settled r
        → ◌≡◌ {A = Outcome}
            (elim r [
              | finished s' true ↦ receive_packet o clock s' reads
              | finished s' false ↦ finished s' false
              | read_past ↦ read_past
              | no_fuel ↦ no_fuel
            ])
            (elim r [
              | finished s' true ↦ read_all o clock s' reads
              | finished s' false ↦ finished s' false
              | read_past ↦ read_past
              | no_fuel ↦ no_fuel
            ])
    go next (finished s' true) h = next s' h.0 h.1
    go next (finished s' false) h = refl
    go next read_past h = refl
    go next no_fuel h = refl

-- From an empty buffer, or with less than one largest frame in it, whatever the reads are: the receiving
-- coroutine does what the same loop without its tests for room does, so that it never processes before a read
-- and never stops for lack of room; and unless the decoder reads past the end of the memory, each call of
-- `process_packet` ends, the buffer stays valid, and if the coroutine goes on, less than one largest frame is
-- left in it.
pub receive_packet-read_all :
    (o : ByteOrder) (clock : ℕ → ℕ) (s : Receiver) (reads : List Read)
    → IsReady s
    → length (contents s.recv_buffer) < header_length + max_body_length
    → (receive_packet o clock s reads ≡ read_all o clock s reads)
      × Settled (receive_packet o clock s reads)
receive_packet-read_all o clock s reads ready short = (
  receive_packet_lem o clock s reads ready short,
  receive_packet-Settled o clock s reads ready short,
)
