-- ===== src/Connection.antt =====
-- asyncmsg/asyncmsg/detail/connection.hpp: one connection, and what it does with the bytes that arrive.
-- The callbacks and the sends on channels are the events that it makes; a channel is a number.
pub mod Total
pub mod Room
pub mod Device
pub mod Reads
pub mod Request
pub mod Stream
pub mod Life
pub mod Chunks
pub mod Session
mod Tests
use asyncmsg.Base.{
  ℕ, zero, suc, ◌-◌, ◌*◌, ◌/◌, ◌==◌, Bool, true, false, Option, none, some, List, [], ◌∷◌, ◌++◌,
  length, take, drop, ltb, if◌then◌else◌, same, is_empty, set, unset,
}
use asyncmsg.ByteOrder.{ByteOrder}
use asyncmsg.Error.{timeout_error, invalid_state_error, Result, returned, thrown}
use asyncmsg.IoBuffer.{
  IoBuffer, read_head, size, capacity, free_size, prepare, commit, consume, fill,
}
use asyncmsg.Packet.{
  Packet, Encoded, Decoded, none_yet, packet, overread, out_of_fuel, packet_id, encode_packet,
  decode_packet,
}

abbrev pub recv_buf_size : ℕ
recv_buf_size = 128 * 1024

abbrev pub active_connection_lifetime_seconds : ℕ
active_connection_lifetime_seconds = 60

-- `requests` maps the ids of the requests that wait to their channels. The clock counts ticks.
pub record Connection : Type 0 where
  pub device_id : List ℕ
  pub last_recv_time : ℕ
  pub requests : ℕ → Option ℕ

-- `on_got_device_id`, `on_receive_request`, `on_disconnected`, and `try_send` on a channel.
pub data Event : Type 0 where
  got_device_id : List ℕ → Event
  receive_request : List ℕ → Packet → Event
  disconnected : List ℕ → Event
  try_send : ℕ → Packet → Event

-- The constructor. The member `device_id_` is initialised from itself, not from the argument
-- `device_id__`; `left` is what it then holds.
unfoldable pub connection : List ℕ → ℕ → List ℕ → Connection
connection left now device_id__ = record {
  device_id = left;
  last_recv_time = now;
  requests = λ id. none;
}

-- The end of a round of `process_packet`: a response goes to the request that waits for it.
unfoldable pub deliver : Connection → Packet → List Event
deliver c p =
    if p.rsp
    then elim (c.requests (packet_id p)) [ none ↦ [] | some channel ↦ try_send channel p ∷ [] ]
    else receive_request c.device_id p ∷ []

-- What a round makes of a packet: the connection afterwards with the events, or the end of
-- `process_packet` with `false`.
pub data Handled : Type 0 where
  handled : Connection → List Event → Handled
  refused : Handled

unfoldable pub handle_packet : ℕ → Connection → Packet → Handled
handle_packet now c p =
    if is_empty p.device_id
    then handled c []
    else if is_empty c.device_id
    then handled (record c { device_id = p.device_id; last_recv_time = now })
        (got_device_id p.device_id ∷ deliver (record c { device_id = p.device_id }) p)
    else if same c.device_id p.device_id
    then handled (record c { last_recv_time = now }) (deliver c p)
    else refused

-- What the receiving coroutine works on: the connection, `recv_buffer`, the sequence generator of the
-- process, the events so far, and how many packets were decoded.
pub record Receiver : Type 0 where
  pub conn : Connection
  pub recv_buffer : IoBuffer
  pub generator : ℕ
  pub events : List Event
  pub round : ℕ

-- `finished s b`: `process_packet` returns `b`. `read_past` is a read past the end of the buffer;
-- `no_fuel` is not the code's.
pub data Outcome : Type 0 where
  finished : Receiver → Bool → Outcome
  read_past no_fuel : Outcome

-- One round on what `decode_packet` returned; `again` is the rest of the loop.
unfoldable pub process_round : (ℕ → ℕ) → Receiver → Decoded → (Receiver → Outcome) → Outcome
process_round clock s (none_yet n) again =
    finished (record s { recv_buffer = consume s.recv_buffer n }) true
process_round clock s (packet n p generator) again =
    let s' = record s {
      recv_buffer = consume s.recv_buffer n;
      generator = generator;
      round = suc s.round;
    } in
    elim (handle_packet (clock s.round) s.conn p) [
      | handled conn events ↦ again (record s' { conn = conn; events = s.events ++ events })
      | refused ↦ finished s' false
    ]
process_round clock s overread again = read_past
process_round clock s out_of_fuel again = no_fuel

-- The call of `decode_packet` on the buffer.
unfoldable pub decode_buffer : ByteOrder → ℕ → IoBuffer → Decoded
decode_buffer o generator b =
    decode_packet o generator (take (size b) (drop (read_head b) b.buffer))
      (drop (size b) (drop (read_head b) b.buffer))

unfoldable pub process_loop : ℕ → ByteOrder → (ℕ → ℕ) → Receiver → Outcome
process_loop zero o clock s = no_fuel
process_loop (suc fuel) o clock s =
    process_round clock s (decode_buffer o s.generator s.recv_buffer) (process_loop fuel o clock)

-- `process_packet(recv_buffer)`; `clock n` is the time when the packet number `n` is handled.
unfoldable pub process_packet : ByteOrder → (ℕ → ℕ) → Receiver → Outcome
process_packet o clock s = process_loop (suc (size s.recv_buffer)) o clock s

-- What `async_read_some` comes back with: an error, no connection any more, or bytes: of those that have
-- arrived, as many as there is room for.
pub data Read : Type 0 where
  failed gone : Read
  received : List ℕ → Read

unfoldable pub size_to_read : IoBuffer → ℕ
size_to_read b = if ltb 0 (free_size b) then free_size b else capacity b

-- `on_disconnected(this, device_id_)`.
unfoldable pub disconnect : Receiver → Receiver
disconnect s = record s { events = s.events ++ disconnected s.conn.device_id ∷ [] }

-- The end of a round after `process_packet`: `finished s true` starts the next one.
unfoldable pub or_disconnect : Outcome → Outcome
or_disconnect (finished s true) = finished s true
or_disconnect (finished s false) = finished (disconnect s) false
or_disconnect read_past = read_past
or_disconnect no_fuel = no_fuel

-- A round from `prepare` on.
unfoldable pub read_round : ByteOrder → (ℕ → ℕ) → Receiver → Read → Outcome
read_round o clock s read =
    let prepared = prepare s.recv_buffer (size_to_read s.recv_buffer) in
    let s' = record s { recv_buffer = prepared.0 } in
    elim read [
      | gone ↦ finished s' false
      | failed ↦ finished (disconnect s') false
      | received bytes ↦
          (let new = take prepared.1.size bytes in
            if ltb 0 (length new)
            then or_disconnect (
                process_packet o clock (record s {
                  recv_buffer = commit (fill prepared.0 prepared.1.start new) (length new);
                }))
            else finished s' true)
    ]

-- Between the two tests of a round and its read.
unfoldable pub room_or_disconnect : ByteOrder → (ℕ → ℕ) → Read → Outcome → Outcome
room_or_disconnect o clock read (finished s true) =
    if size_to_read s.recv_buffer == 0
    then finished (disconnect s) false
    else read_round o clock s read
room_or_disconnect o clock read (finished s false) = finished (disconnect s) false
room_or_disconnect o clock read read_past = read_past
room_or_disconnect o clock read no_fuel = no_fuel

-- A round of `receive_packet`.
unfoldable pub receive_round : ByteOrder → (ℕ → ℕ) → Receiver → Read → Outcome
receive_round o clock s read =
    room_or_disconnect o clock read
      (if size_to_read s.recv_buffer == 0 then process_packet o clock s else finished s true)

-- `receive_packet` on the results of its reads, as far as they go.
unfoldable pub receive_packet : ByteOrder → (ℕ → ℕ) → Receiver → List Read → Outcome
receive_packet o clock s [] = finished s true
receive_packet o clock s (read ∷ reads) = elim (receive_round o clock s read) [
  | finished s' true ↦ receive_packet o clock s' reads
  | finished s' false ↦ finished s' false
  | read_past ↦ read_past
  | no_fuel ↦ no_fuel
]

-- A round of `check`, when its timer has run out; `second` is a second in ticks. The Boolean tells
-- whether it goes on.
unfoldable pub check_round : ℕ → ℕ → Connection → Bool × List Event
check_round second now c =
    if ltb active_connection_lifetime_seconds ((now - c.last_recv_time) / second)
    then (false, disconnected c.device_id ∷ [])
    else (true, [])

-- `send_packet` writes this to the socket.
unfoldable pub send_packet : ByteOrder → Packet → Encoded
send_packet o p = encode_packet o p

-- `send_packet_and_wait_rsp` after its write, `alive` unless the connection is gone: the request's
-- channel is made and waited for.
unfoldable pub register_request : Connection → Bool → Packet → ℕ → Result Connection
register_request c alive p channel =
    if alive
    then returned (record c { requests = set ◌==◌ c.requests (packet_id p) channel })
    else thrown invalid_state_error

-- Its end: the response came, or first the timer.
unfoldable pub finish_request : Connection → Packet → Option Packet → Connection × Result Packet
finish_request c p none = (c, thrown timeout_error)
finish_request c p (some response) =
    (record c { requests = unset ◌==◌ c.requests (packet_id p) }, returned response)
