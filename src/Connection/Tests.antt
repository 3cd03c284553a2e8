-- ===== src/Connection/Tests.antt =====
-- A connection at concrete inputs.
use asyncmsg.Base.{
  List, All, All-replicate, replicate, ℕ, ◌+◌, ◌*◌, ◌≡◌, ◌<◌, ◌≤◌, refl, arith, true, false, none,
  [], ◌∷◌, length, length-append, Bool,
}
use asyncmsg.ByteOrder.{big_endian}
use asyncmsg.Packet.Frame.{wire}
use asyncmsg.Packet.Decode.Wire.{IsSendable}
use asyncmsg.Connection.Room.{receive_packet-room}
use asyncmsg.IoBuffer.{size, prepare, make_room, free_size, capacity}
use asyncmsg.Connection.{
  finished, Read, size_to_read, receive_round, room_or_disconnect, read_round,
}
use asyncmsg.Connection.Chunks.{receive_stream}
use asyncmsg.Connection.Chunks.Delivery.{
  IsReceived, SameOutcome, receive_stream-IsReceived, receive_stream-SameOutcome,
}
use asyncmsg.Connection.Stream.{IsGood, frames, handle_packets, progress}
use asyncmsg.IoBuffer.{io_buffer}
use asyncmsg.IoBuffer.Inv.{io_buffer-IsValid}
use asyncmsg.IoBuffer.Contents.{contents, length-contents}
use asyncmsg.Packet.{c_string, Packet, header_length, max_body_length}
use asyncmsg.Connection.{Connection, Receiver, received, failed, receive_packet, recv_buf_size}
use asyncmsg.Connection.Total.{IsReady, Settled}
use asyncmsg.Connection.Reads.{read_all, receive_packet-read_all}
use asyncmsg.Connection.Life.{read_ended, timer_ended}
use asyncmsg.Connection.Life

abbrev clock : ℕ → ℕ
clock n = 1000 * n

-- A new connection and its receiver.
abbrev start : Receiver
start = record {
  conn = record { device_id = []; last_recv_time = 0; requests = λ id. none };
  recv_buffer = io_buffer recv_buf_size;
  generator = 0;
  events = [];
  round = 0;
}

start-IsReady : IsReady start
unfolding io_buffer
start-IsReady = record { valid = io_buffer-IsValid recv_buf_size (omega arith); full_size = refl }

start_short : length (contents start.recv_buffer) < header_length + max_body_length
unfolding io_buffer
start_short = omega (arith, length-contents start-IsReady.valid)

abbrev arriving : List Read
arriving = received (0x55 ∷ 1 ∷ []) ∷ failed ∷ []

receive_packet-read_all_example :
    (receive_packet big_endian clock start arriving ≡ read_all big_endian clock start arriving)
    × Settled (receive_packet big_endian clock start arriving)
receive_packet-read_all_example =
    receive_packet-read_all big_endian clock start arriving start-IsReady start_short

-- A connection of the device "dev", a request on it, and its response.
abbrev known : Connection
known = record { device_id = 100 ∷ 101 ∷ 118 ∷ []; last_recv_time = 5; requests = λ id. none }

abbrev request : Packet
request = record {
  cmd = 2;
  seq = 7;
  rsp = false;
  ec = 0;
  device_id = 100 ∷ 101 ∷ 118 ∷ [];
  body = [];
}

abbrev response : Packet
response = record request { rsp = true; body = 1 ∷ [] }

request-IsSendable : (r : Bool) → IsSendable (record request { rsp = r })
request-IsSendable r = record {
  encodable = record {
    cmd_fits = omega arith;
    seq_fits = omega arith;
    ec_fits = omega arith;
    id_fits = omega arith;
    body_fits = omega arith;
  };
  body_small = omega arith;
}

request-IsGood : IsGood request
request-IsGood = (request-IsSendable false, record { numbered = omega arith; no_nul = omega arith })

-- The device sends a request, is idle, and a second request has come in when the check ends.
abbrev idle : List Life.Turn
idle =
    read_ended (received (wire request)) none
    ∷ timer_ended true 90000 (received (wire request))
    ∷ []

-- Reads of one size.
abbrev positive : (n : ℕ) → All (λ come. 0 < come) (replicate 200 (1 + n))
positive n = All-replicate (λ come. 0 < come) 200 (1 + n) (omega arith)

request-IsGood_all : All IsGood (request ∷ [])
request-IsGood_all = (request-IsGood, tt)

start_empty : contents start.recv_buffer ≡ []
unfolding io_buffer
start_empty = refl

enough : (n : ℕ) → length (frames (request ∷ [])) ≤ length (replicate 200 n)
unfolding frames c_string
enough n = omega (arith, length-append (wire request) (frames []))

receive_stream-IsReceived_example :
    IsReceived
      (handle_packets clock (progress start) (request ∷ []))
      (receive_stream big_endian clock start (frames (request ∷ [])) (replicate 200 1)).0
receive_stream-IsReceived_example =
    receive_stream-IsReceived big_endian clock start (request ∷ []) start-IsReady start_empty
      request-IsGood_all (replicate 200 1) (positive 0) (enough 1)

receive_stream-SameOutcome_example :
    SameOutcome
      (receive_stream big_endian clock start (frames (request ∷ [])) (replicate 200 1)).0
      (receive_stream big_endian clock start (frames (request ∷ [])) (replicate 200 7)).0
receive_stream-SameOutcome_example =
    receive_stream-SameOutcome big_endian clock start (request ∷ []) start-IsReady start_empty
      request-IsGood_all (replicate 200 1) (replicate 200 7) (positive 0) (positive 6) (enough 1)
      (enough 7)

-- Reads that bring nothing.
abbrev quiet : List Read
quiet = received [] ∷ received [] ∷ []

abbrev still : Receiver
still = record start {
  recv_buffer = (prepare (prepare start.recv_buffer recv_buf_size).0 recv_buf_size).0;
}

quiet_lem : receive_packet big_endian clock start quiet ≡ finished still true
unfolding receive_packet receive_round room_or_disconnect read_round io_buffer prepare make_room
    size_to_read free_size capacity size
quiet_lem = refl

receive_packet-room_example :
    let (b, slab) = prepare still.recv_buffer (size_to_read still.recv_buffer) in
    (0 < slab.size)
    × (slab.start + slab.size ≤ recv_buf_size)
    × (length (contents still.recv_buffer) + slab.size ≤ recv_buf_size)
    × (slab.start ≡ b.tail_)
receive_packet-room_example =
    receive_packet-room big_endian clock start still quiet start-IsReady start_short quiet_lem
