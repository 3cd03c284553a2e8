-- ===== src/Server.antt =====
-- asyncmsg/asyncmsg/tcp/tcp_server.hpp: the server, its connections and what its callbacks do to them.
-- A connection and a channel are numbers, the identities of the objects that the pointers are to.
pub mod Connections
pub mod Tries
pub mod Life
pub mod Traffic
mod Tests
use asyncmsg.Base.{
  ℕ, zero, suc, ◌==◌, Bool, true, false, Option, none, some, List, [], ◌∷◌, ◌++◌, if◌then◌else◌,
  same, set, unset,
}
use asyncmsg.Error.{invalid_state_error, connection_error, timeout_error, Result, returned, thrown}
use asyncmsg.Packet.{Packet, build_rsp_packet}

abbrev pub heartbeat_cmd : ℕ
heartbeat_cmd = 0

-- A pointer of the list `connections` can be null.
pub record Server : Type 0 where
  pub stopped : Bool
  pub received_request_channels : ℕ → Option ℕ
  pub connection_map : List ℕ → Option ℕ
  pub connections : List (Option ℕ)

-- What a callback makes others do: `send_packet_detach` on a connection, `try_send` on a channel.
pub data Action : Type 0 where
  send_packet_detach : ℕ → Packet → Action
  try_send : ℕ → Packet → Action

unfoldable pub tcp_server : Server
tcp_server = record {
  stopped = false;
  received_request_channels = λ cmd. none;
  connection_map = λ device_id. none;
  connections = [];
}

-- A round of `accept`, with the connection made for the socket.
unfoldable pub accept : Server → ℕ → Server
accept s conn = record s { connections = s.connections ++ some conn ∷ [] }

-- `it.get() == conn`.
unfoldable pub points_to : ℕ → Option ℕ → Bool
points_to conn none = false
points_to conn (some c) = c == conn

-- `std::remove_if`, without an `erase`: what it keeps is moved to the front, and the list stays as long
-- as it was. `gap` is the places between the end of what is kept and the next element; a pointer
-- that was moved from is null.
unfoldable pub remove_if : ℕ → List (Option ℕ) → List (Option ℕ) → List (Option ℕ)
remove_if conn gap [] = gap
remove_if conn [] (x ∷ xs) =
    let found = remove_if conn (x ∷ []) xs in
    let kept = remove_if conn [] xs in if points_to conn x then found else x ∷ kept
remove_if conn (g ∷ gap) (x ∷ xs) =
    let found = remove_if conn (g ∷ (gap ++ x ∷ [])) xs in
    let kept = remove_if conn (gap ++ none ∷ []) xs in if points_to conn x then found else x ∷ kept

unfoldable pub on_disconnected : Server → ℕ → List ℕ → Server
on_disconnected s conn device_id = record s {
  connection_map = unset same s.connection_map device_id;
  connections = remove_if conn [] s.connections;
}

-- The search of `on_got_device_id`: whether there is such a pointer, and the list without the first.
unfoldable pub holds : ℕ → List (Option ℕ) → Bool
holds conn [] = false
holds conn (x ∷ xs) = if points_to conn x then true else holds conn xs

unfoldable pub erase_first : ℕ → List (Option ℕ) → List (Option ℕ)
erase_first conn [] = []
erase_first conn (x ∷ xs) = if points_to conn x then xs else x ∷ erase_first conn xs

unfoldable pub on_got_device_id : Server → ℕ → List ℕ → Server
on_got_device_id s conn device_id =
    if holds conn s.connections
    then record s {
      connection_map = set same s.connection_map device_id conn;
      connections = erase_first conn s.connections;
    }
    else s

-- `on_receive_request`, with the sequence generator of the process, which the reply can use.
unfoldable pub on_receive_request : Server → ℕ → ℕ → Packet → ℕ × List Action
on_receive_request s generator conn p =
    if p.cmd == heartbeat_cmd
    then (let reply = build_rsp_packet generator p.cmd p.seq 0 p.device_id [] in
        (reply.1, send_packet_detach conn reply.0 ∷ []))
    else (
      generator,
      elim (s.received_request_channels p.cmd) [
        | none ↦ []
        | some channel ↦ try_send channel p ∷ []
      ],
    )

-- `send_packet`: the connection that the packet is written to, if there is one.
unfoldable pub send_packet : Server → Packet → Result (Option ℕ)
send_packet s p =
    if s.stopped then thrown invalid_state_error else returned (s.connection_map p.device_id)

-- The loop of `send_packet_and_wait_rsp` with so many rounds left. `server i` is the server in round
-- `i`, `answer i conn` how the connection's own `send_packet_and_wait_rsp` ends: with a response, or
-- with an exception.
unfoldable pub try_loop : ℕ → ℕ → (ℕ → Server) → (ℕ → ℕ → Option Packet) → Packet → Result Packet
try_loop zero i server answer p = thrown timeout_error
try_loop (suc left) i server answer p =
    let rest = try_loop left (suc i) server answer p in
    if (server i).stopped
    then thrown invalid_state_error
    else elim ((server i).connection_map p.device_id) [
      | none ↦ thrown connection_error
      | some conn ↦ elim (answer i conn) [ some response ↦ returned response | none ↦ rest ]
    ]

-- `send_packet_and_wait_rsp`; its counter is an `int`, so `max_tries` is below 2^31.
unfoldable pub send_packet_and_wait_rsp :
    ℕ → (ℕ → Server) → (ℕ → ℕ → Option Packet) → Packet → Result Packet
send_packet_and_wait_rsp max_tries server answer p = try_loop (suc max_tries) 0 server answer p

-- The connections to which these rounds write the packet, one for each copy. `writes i conn` tells whether the write
-- in round `i` succeeds; a response comes to a packet that was written.
unfoldable pub copies_loop :
    ℕ → ℕ → (ℕ → Server) → (ℕ → ℕ → Bool) → (ℕ → ℕ → Option Packet) → Packet → List ℕ
copies_loop zero i server writes answer p = []
copies_loop (suc left) i server writes answer p =
    let rest = copies_loop left (suc i) server writes answer p in
    if (server i).stopped then [] else elim ((server i).connection_map p.device_id) [
      | none ↦ []
      | some conn ↦ elim (answer i conn) [
        | some response ↦ conn ∷ []
        | none ↦ if writes i conn then conn ∷ rest else rest
      ]
    ]

unfoldable pub copies :
    ℕ → (ℕ → Server) → (ℕ → ℕ → Bool) → (ℕ → ℕ → Option Packet) → Packet → List ℕ
copies max_tries server writes answer p = copies_loop (suc max_tries) 0 server writes answer p

-- `wait_request`: the server afterwards, and the channel that it waits on; `fresh` is a new one.
unfoldable pub wait_request : Server → ℕ → ℕ → Server × Result ℕ
wait_request s cmd fresh =
    if s.stopped then (s, thrown invalid_state_error) else elim (s.received_request_channels cmd) [
      | some channel ↦ (s, returned channel)
      | none ↦ (
        record s { received_request_channels = set ◌==◌ s.received_request_channels cmd fresh },
        returned fresh,
      )
    ]

-- `stop`: the server afterwards, and whether the handler below is posted.
unfoldable pub stop : Server → Server × Bool
stop s = if s.stopped then (s, false) else (record s { stopped = true }, true)

-- The posted handler: the server afterwards. It cancels the acceptor and the channels, and ends the
-- work of the context, at once if forced.
unfoldable pub stop_handler : Server → Server
stop_handler s = record s { connection_map = λ device_id. none; connections = [] }
