-- ===== src/Connection/Total.antt =====
-- connection.hpp: the receiving coroutine on any input: each call of `process_packet` ends, and a read
-- always has room.
use asyncmsg.Base.{
  ◌++◌, ℕ, zero, suc, ◌+◌, ◌-◌, ◌≤◌, ◌<◌, ◌≡◌, refl, ap, ◌∙◌, arith, true, false, List, [], ◌∷◌,
  length, drop, take, inl, inr, Bool-cases, ltb, ◌==◌, ne→==, length-drop,
}
use asyncmsg.ByteOrder.{ByteOrder}
use asyncmsg.IoBuffer.{IoBuffer, consume, size, prepare, read_head}
use asyncmsg.IoBuffer.Inv.{IsValid, sizes, consume-IsValid, prepare-IsValid}
use asyncmsg.IoBuffer.Queue.{read_in, read_in-IsValid, length_-read_in, length_-prepare}
use asyncmsg.IoBuffer.Contents.{contents-prepare, contents, length-contents, contents-consume}
use asyncmsg.Packet.{
  Decoded, none_yet, packet, overread, out_of_fuel, decode_packet, header_length, max_body_length,
}
use asyncmsg.Packet.Decode.Total.{Within, decode_packet-Within}
use asyncmsg.Connection.{
  Receiver, Outcome, finished, read_past, no_fuel, handled, refused, Handled, handle_packet,
  process_round, process_loop, process_packet, decode_buffer, recv_buf_size, Read, gone, failed,
  received, receive_round, read_round, room_or_disconnect, or_disconnect, disconnect, size_to_read,
  receive_packet,
}

-- The receive buffer is as `receive_packet` makes it, and used by the rules.
pub record IsReady (s : Receiver) : Type 0 where
  pub valid : IsValid s.recv_buffer
  pub full_size : s.recv_buffer.length_ ≡ recv_buf_size

-- After a round that goes on, less than one largest frame is left over. A read past the buffer is the one
-- other way to end.
abbrev pub Settled : Outcome → Type 0
Settled (finished s true) =
    IsReady s × (length (contents s.recv_buffer) < header_length + max_body_length)
Settled (finished s false) = IsReady s
Settled read_past = Unit
Settled no_fuel = ⊥

length_-consume : (b : IoBuffer) (n : ℕ) → (consume b n).length_ ≡ b.length_
unfolding consume
length_-consume b n = ground arith

-- The decoder is given what the buffer holds.
pub decode_buffer-contents :
    (o : ByteOrder) (generator : ℕ) (b : IoBuffer)
    → IsValid b
    → decode_buffer o generator b
      ≡ decode_packet o generator (contents b) (drop (b.tail_ - b.head_) (drop b.head_ b.buffer))
unfolding decode_buffer read_head
decode_buffer-contents o generator b v = rw (sizes v).0 refl

module _ {s : Receiver} (n : ℕ) (ready : IsReady s) (h : n ≤ length (contents s.recv_buffer)) where
  in_memory : length (contents s.recv_buffer) ≤ recv_buf_size
  in_memory = omega (arith, length-contents ready.valid, ready.valid.inside, ready.full_size)

  pub consumed-IsValid : IsValid (consume s.recv_buffer n)
  consumed-IsValid = consume-IsValid n ready.valid (omega (arith, in_memory))

  pub consumed-full_size : (consume s.recv_buffer n).length_ ≡ recv_buf_size
  consumed-full_size = length_-consume s.recv_buffer n ∙ ready.full_size

  pub length-consumed :
      length (contents (consume s.recv_buffer n)) ≡ length (contents s.recv_buffer) - n
  length-consumed =
      ap length (contents-consume n ready.valid (omega (arith, in_memory)))
      ∙ length-drop n (contents s.recv_buffer)

module _ (clock : ℕ → ℕ) (s : Receiver) (ready : IsReady s) (again : Receiver → Outcome)
    (rest : (s' : Receiver)
      → IsReady s'
      → length (contents s'.recv_buffer) + header_length ≤ length (contents s.recv_buffer)
      → Settled (again s')) where
  process_round-Settled :
      (d : Decoded)
      → Within 0 (length (contents s.recv_buffer)) d
      → Settled (process_round clock s d again)
  unfolding process_round
  process_round-Settled (none_yet n) w = (
    record { valid = consumed-IsValid n ready w.1; full_size = consumed-full_size n ready w.1 },
    omega (arith, length-consumed n ready w.1),
  )
  process_round-Settled (packet n p generator) w = go (handle_packet (clock s.round) s.conn p)
    where
      go :
          (h : Handled)
          → Settled (elim h [
            | handled conn events ↦ again (record s {
              recv_buffer = consume s.recv_buffer n;
              generator = generator;
              round = suc s.round;
              conn = conn;
              events = s.events ++ events;
            })
            | refused ↦
                finished
                  (record s {
                    recv_buffer = consume s.recv_buffer n;
                    generator = generator;
                    round = suc s.round;
                  })
                  false
          ])
      go (handled conn events) =
          rest _
            (record {
              valid = consumed-IsValid n ready w.1;
              full_size = consumed-full_size n ready w.1;
            })
            (omega (arith, length-consumed n ready w.1))
      go refused = record {
        valid = consumed-IsValid n ready w.1;
        full_size = consumed-full_size n ready w.1;
      }
  process_round-Settled overread w = tt
  process_round-Settled out_of_fuel w = w

process_loop-Settled :
    (fuel : ℕ) (o : ByteOrder) (clock : ℕ → ℕ) (s : Receiver)
    → IsReady s
    → length (contents s.recv_buffer) < fuel
    → Settled (process_loop fuel o clock s)
unfolding process_loop
process_loop-Settled zero o clock s ready h = absurd (omega arith)
process_loop-Settled (suc fuel) o clock s ready h =
    rw (decode_buffer-contents o s.generator s.recv_buffer ready.valid) (
      process_round-Settled clock s ready (process_loop fuel o clock)
        (λ s' ready' shorter. process_loop-Settled fuel o clock s' ready' (omega arith))
        (decode_packet o s.generator (contents s.recv_buffer) _)
        (decode_packet-Within o s.generator (contents s.recv_buffer) _))

-- On any bytes `process_packet` ends, unless the decoder reads past the buffer. If it returns true, less
-- than one largest frame is left in the buffer.
pub process_packet-Settled :
    (o : ByteOrder) (clock : ℕ → ℕ) (s : Receiver) → IsReady s → Settled (process_packet o clock s)
unfolding process_packet
process_packet-Settled o clock s ready =
    process_loop-Settled (suc (size s.recv_buffer)) o clock s ready
      (omega (arith, length-contents ready.valid, sizes ready.valid))

-- There is room for a read when less than one largest frame is stored: the buffer holds several.
pub size_to_read-positive :
    (b : IoBuffer)
    → IsValid b
    → b.length_ ≡ recv_buf_size
    → length (contents b) < header_length + max_body_length
    → (0 < size_to_read b) × (size_to_read b ≤ recv_buf_size)
unfolding size_to_read
size_to_read-positive b v e h = ground (arith, sizes v, length-contents v)

pub or_disconnect-Settled : (r : Outcome) → Settled r → Settled (or_disconnect r)
unfolding or_disconnect disconnect
or_disconnect-Settled (finished s true) h = h
or_disconnect-Settled (finished s false) h = omega arith
or_disconnect-Settled read_past h = h
or_disconnect-Settled no_fuel h = h

module _ (o : ByteOrder) (clock : ℕ → ℕ) (s : Receiver) (ready : IsReady s)
    (short : length (contents s.recv_buffer) < header_length + max_body_length) where
  -- The bytes of one read are stored behind the others, so that `process_packet` can take over.
  pub filled-IsReady :
      (bytes : List ℕ)
      → IsReady
          (record s { recv_buffer = read_in s.recv_buffer (size_to_read s.recv_buffer) bytes })
  filled-IsReady bytes = record {
    valid = read_in-IsValid (size_to_read s.recv_buffer) bytes ready.valid;
    full_size = length_-read_in (size_to_read s.recv_buffer) bytes ready.valid ∙ ready.full_size;
  }

  pub prepared-IsReady :
      IsReady (record s { recv_buffer = (prepare s.recv_buffer (size_to_read s.recv_buffer)).0 })
  prepared-IsReady = record {
    valid = prepare-IsValid (size_to_read s.recv_buffer) ready.valid;
    full_size = length_-prepare s.recv_buffer (size_to_read s.recv_buffer) ∙ ready.full_size;
  }

  pub read_round-Settled : (read : Read) → Settled (read_round o clock s read)
  unfolding read_round disconnect read_in
  read_round-Settled gone = prepared-IsReady
  read_round-Settled failed = omega (arith, prepared-IsReady)
  read_round-Settled (received bytes) =
      elim (Bool-cases
        (ltb 0 (length (take (prepare s.recv_buffer (size_to_read s.recv_buffer)).1.size bytes)))) [
          | inr nothing ↦ rw nothing (
            prepared-IsReady,
            rw (contents-prepare (size_to_read s.recv_buffer) ready.valid) short,
          )
          | inl some_bytes ↦
              rw some_bytes (or_disconnect-Settled _ (process_packet-Settled o clock _ into))
        ]
    where
      into :
          IsReady
            (record s { recv_buffer = read_in s.recv_buffer (size_to_read s.recv_buffer) bytes })
      into = filled-IsReady bytes

  room :
      (read : Read)
      → (size_to_read s.recv_buffer == 0) ≡ false
      → room_or_disconnect o clock read (finished s true) ≡ read_round o clock s read
  unfolding room_or_disconnect
  room read e = rw e refl

  -- Neither test before the read ends the loop: there is always room.
  pub receive_round-read : (read : Read) → receive_round o clock s read ≡ read_round o clock s read
  unfolding receive_round
  receive_round-read read =
      let positive = size_to_read-positive s.recv_buffer ready.valid ready.full_size short in
      let e = ne→== (size_to_read s.recv_buffer) 0 (omega (arith, positive)) in rw e (room read e)

  pub receive_round-Settled : (read : Read) → Settled (receive_round o clock s read)
  receive_round-Settled read = rw (receive_round-read read) (read_round-Settled read)

pub receive_packet-Settled :
    (o : ByteOrder) (clock : ℕ → ℕ) (s : Receiver) (reads : List Read)
    → IsReady s
    → length (contents s.recv_buffer) < header_length + max_body_length
    → Settled (receive_packet o clock s reads)
unfolding receive_packet
receive_packet-Settled o clock s [] ready short = (ready, short)
receive_packet-Settled o clock s (read ∷ reads) ready short =
    go (λ s' ready' short'. receive_packet-Settled o clock s' reads ready' short')
      (receive_round o clock s read) (receive_round-Settled o clock s ready short read)
  where
    go :
        ((s' : Receiver)
          → IsReady s'
          → length (contents s'.recv_buffer) < header_length + max_body_length
          → Settled (receive_packet o clock s' reads))
        → (r : Outcome) → Settled r
        → Settled (elim r [
          | finished s' true ↦ receive_packet o clock s' reads
          | finished s' false ↦ finished s' false
          | read_past ↦ read_past
          | no_fuel ↦ no_fuel
        ])
    go next (finished s' true) h = next s' h.0 h.1
    go next (finished s' false) h = h
    go next read_past h = h
    go next no_fuel h = h
