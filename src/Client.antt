-- ===== src/Client.antt =====
-- asyncmsg/asyncmsg/tcp/tcp_client.hpp: the client, its one connection, and the requests it receives.
-- A connection and a channel are numbers, the identities of the objects that the pointers are to.
pub mod Sending
pub mod Requests
pub mod Life
pub mod Inbox
mod Tests
use asyncmsg.Base.{
  ℕ, zero, suc, ◌+◌, ◌-◌, ◌/◌, ◌%◌, ◌^◌, ◌==◌, Bool, true, false, Option, none, some, List, [], ltb,
  leb, if◌then◌else◌, same, is_empty, set,
}
use asyncmsg.Error.{
  invalid_state_error, invalid_device_id_error, connection_error, timeout_error, Result, returned,
  thrown,
}
use asyncmsg.Lru.{Lru, lru, exist, put}
use asyncmsg.Packet.{Packet, packet_id, build_req_packet, build_rsp_packet}

abbrev pub recently_received_request_cap : ℕ
recently_received_request_cap = 1000

pub record Client : Type 0 where
  pub device_id : List ℕ
  pub recently_received_request : Lru
  pub stopped : Bool
  pub conn : Option ℕ
  pub received_request_channels : ℕ → Option ℕ

-- The constructor.
unfoldable pub tcp_client : List ℕ → Client
tcp_client device_id = record {
  device_id = device_id;
  recently_received_request = lru recently_received_request_cap;
  stopped = false;
  conn = none;
  received_request_channels = λ cmd. none;
}

unfoldable pub on_disconnected : Client → Client
on_disconnected c = record c { conn = none }

-- The packet afterwards, and whether it may be sent.
unfoldable pub reset_device_id_if_needed : Client → Packet → Packet × Bool
reset_device_id_if_needed c p =
    if is_empty p.device_id
    then (record p { device_id = c.device_id }, true)
    else (p, same p.device_id c.device_id)

-- `send_packet`: the packet afterwards, and the connection that it is written to.
unfoldable pub send_packet : Client → Packet → Packet × Option ℕ
send_packet c p =
    let reset = reset_device_id_if_needed c p in (reset.0, if reset.1 then c.conn else none)

-- The waiting loop of `send_packet_and_wait_rsp`: in its round `i` the connection is `conns i`, and
-- `elapsed i` is how many milliseconds have gone by, for the test or after the loop. `left` bounds the
-- rounds; `none` is a loop that goes on.
unfoldable pub wait_loop : ℕ → ℕ → (ℕ → Option ℕ) → (ℕ → ℕ) → ℕ → Option (Option ℕ × ℕ)
wait_loop zero i conns elapsed timeout = none
wait_loop (suc left) i conns elapsed timeout =
    let rest = wait_loop left (suc i) conns elapsed timeout in
    elim (conns i) [
      | some conn ↦ some (some conn, elapsed i)
      | none ↦ if ltb (timeout / 2) (elapsed i) then some (none, elapsed i) else rest
    ]

-- After the loop: the connection to use, and the time that is left for the response. The elapsed time
-- is cast to uint32_t.
unfoldable pub after_wait : ℕ → Option ℕ × ℕ → Result (ℕ × ℕ)
after_wait timeout (none, elapsed) = thrown connection_error
after_wait timeout (some conn, elapsed) =
    if leb timeout (elapsed % 2 ^ 32)
    then thrown timeout_error
    else returned (conn, timeout - elapsed % 2 ^ 32)

-- `send_packet_and_wait_rsp` up to the call on the connection: the packet, and the connection and
-- the time for it; `none` is a loop that goes on. A round waits 100 milliseconds, so that
-- `timeout / 200 + 2` rounds are enough.
unfoldable pub send_packet_and_wait_rsp :
    Client → Packet → ℕ → (ℕ → Option ℕ) → (ℕ → ℕ) → Packet × Option (Result (ℕ × ℕ))
send_packet_and_wait_rsp c p timeout conns elapsed =
    let reset = reset_device_id_if_needed c p in
    if c.stopped
    then (p, some (thrown invalid_state_error))
    else if reset.1
    then (
      reset.0,
      elim (wait_loop (timeout / 200 + 2) 0 conns elapsed timeout) [
        | none ↦ none
        | some found ↦ some (after_wait timeout found)
      ],
    )
    else (reset.0, some (thrown invalid_device_id_error))

-- `wait_request`: the client afterwards, and the channel that it waits on; `fresh` is a new one.
unfoldable pub wait_request : Client → ℕ → ℕ → Client × ℕ
wait_request c cmd fresh = elim (c.received_request_channels cmd) [
  | some channel ↦ (c, channel)
  | none ↦ (
    record c { received_request_channels = set ◌==◌ c.received_request_channels cmd fresh },
    fresh,
  )
]

-- What `on_receive_request` ends with: the client afterwards, and the packet for a channel if there
-- is one; or a call through the null pointer that `received_request_channels[cmd]` makes.
pub data Received : Type 0 where
  received : Client → Option (ℕ × Packet) → Received
  null_dereference : Received

-- The part behind the reply.
unfoldable pub pass_on : Client → Packet → Received
pass_on c p =
    let seen = exist c.recently_received_request (packet_id p) in
    if seen.1
    then received (record c { recently_received_request = seen.0 }) none
    else elim (c.received_request_channels p.cmd) [
      | none ↦ null_dereference
      | some channel ↦
          received (record c { recently_received_request = put seen.0 (packet_id p) })
            (some (channel, p))
    ]

-- `on_receive_request`: the reply, sent detached, with the generator afterwards; and the rest.
unfoldable pub on_receive_request : Client → ℕ → List ℕ → Packet → (Packet × ℕ) × Received
on_receive_request c generator device_id p =
    (build_rsp_packet generator p.cmd p.seq 0 device_id [], pass_on c p)

-- A round of `connect`: `made` is the connection, or an exception on the way to it. The Boolean tells
-- whether the loop runs at all.
unfoldable pub connect_round : Client → Option ℕ → Client × Bool
connect_round c made =
    if c.stopped
    then (c, false)
    else (elim c.conn [ some conn ↦ c | none ↦ record c { conn = made } ], true)

-- A round of `heartbeat`: what is sent, and the generator afterwards.
unfoldable pub heartbeat_round : Client → ℕ → Option (ℕ × Packet) × ℕ
heartbeat_round c generator = if c.stopped then (none, generator) else elim c.conn [
  | none ↦ (none, generator)
  | some conn ↦
      (let beat = build_req_packet generator 0 [] c.device_id in (some (conn, beat.0), beat.1))
]

-- `stop`, and the handler that it posts, which also cancels the channels and the loops.
unfoldable pub stop : Client → Client × Bool
stop c = if c.stopped then (c, false) else (record c { stopped = true }, true)

unfoldable pub stop_handler : Client → Client
stop_handler c = record c { conn = none }
