-- ===== src/Server/Traffic/Tests.antt =====
-- A server and its connections at concrete inputs.
use asyncmsg.Base.{
  arith, true, ◌<◌, ◌≤◌, ◌≢◌, ◌^◌, ◌*◌, ◌++◌, All, All-replicate, replicate, length, length-append,
  ℕ, ◌≡◌, refl, false, none, some, List, [], ◌∷◌,
}
use asyncmsg.Packet.{Packet, packet_id}
use asyncmsg.Connection.{Connection, connection, handle_packet, deliver, check_round}
use asyncmsg.Server.{
  tcp_server, accept, points_to, holds, erase_first, on_got_device_id, on_receive_request,
  on_disconnected, remove_if,
}
use asyncmsg.Server.Life.{start, accept_ends}
use asyncmsg.Server.Traffic.{
  running, Traffic, start_traffic, call_back, accepted, packet_comes, Turn, accept_turn,
  packet_turn, read_fails_turn, take_turn, take_turns, while_alive, alive, packet_read, ended,
  timer_turn, wait_throws_turn, dropped, timer_ends, wait_throws,
}
use asyncmsg.ByteOrder.{big_endian}
use asyncmsg.IoBuffer.{io_buffer}
use asyncmsg.IoBuffer.Inv.{io_buffer-IsValid}
use asyncmsg.IoBuffer.Contents.{contents}
use asyncmsg.Packet.{c_string}
use asyncmsg.Packet.Frame.{wire}
use asyncmsg.Connection.{Receiver, finished, recv_buf_size}
use asyncmsg.Connection.Total.{IsReady}
use asyncmsg.Connection.Stream.{IsGood, frames}
use asyncmsg.Connection.Chunks.{receive_stream}
use asyncmsg.Server.Traffic.Stream.{reactions, receive_stream-reactions}
use asyncmsg.Server.Traffic.{call_backs}
use asyncmsg.Server.Traffic.Joined.{Serves}
use asyncmsg.Server.Traffic.Joined.Turns.{routes-Serves}
use asyncmsg.Server.Traffic.Named.Routes.{Routed, first_packet-Routed, late_end_unroutes}

-- A request of the device "dev".
abbrev request : Packet
request = record {
  cmd = 2;
  seq = 7;
  rsp = false;
  ec = 0;
  device_id = 100 ∷ 101 ∷ 118 ∷ [];
  body = [];
}

-- The device connects, and then once more.
abbrev twice : List Turn
twice =
    accept_turn [] 3
    ∷ packet_turn 0 4 request false
    ∷ accept_turn [] 5
    ∷ packet_turn 1 6 request false
    ∷ []

abbrev joined : Traffic
joined = take_turns start_traffic twice

abbrev named_at : ℕ → Connection
named_at now = record {
  device_id = 100 ∷ 101 ∷ 118 ∷ [];
  last_recv_time = now;
  requests = λ id. none;
}

joined_lem :
    (joined.host.server.connection_map request.device_id ≡ some 1)
    × (joined.loops 0 ≡ running (named_at 4))
    × (joined.loops 1 ≡ running (named_at 6))
unfolding start_traffic start tcp_server take_turn accepted accept_ends accept connection
    packet_comes while_alive alive packet_read handle_packet deliver packet_id call_back
    on_got_device_id holds points_to erase_first on_receive_request
joined_lem = (refl, refl, refl)

routes-Serves_example : Serves joined.loops request.device_id 1
routes-Serves_example = routes-Serves twice request.device_id 1 joined_lem.0

-- It has connected once, and the second connection has not received anything.
abbrev once : List Turn
once = accept_turn [] 3 ∷ packet_turn 0 4 request false ∷ accept_turn [] 5 ∷ []

once_lem :
    (take_turns start_traffic once).loops 1
    ≡ running (record { device_id = []; last_recv_time = 5; requests = λ id. none })
unfolding start_traffic start tcp_server take_turn accepted accept_ends accept connection
    packet_comes while_alive alive packet_read handle_packet deliver packet_id call_back
    on_got_device_id holds points_to erase_first on_receive_request
once_lem = refl

first_packet-Routed_example :
    Routed
      (take_turn (take_turns start_traffic once) (packet_turn 1 6 request true))
      request.device_id
      1
first_packet-Routed_example =
    first_packet-Routed once 1 6 request true
      (record { device_id = []; last_recv_time = 5; requests = λ id. none }) (tt, (tt, (tt, tt)))
      once_lem refl refl

joined_unlisted : holds 0 joined.host.server.connections ≡ false
unfolding start_traffic start tcp_server take_turn accepted accept_ends accept connection
    packet_comes while_alive alive packet_read handle_packet deliver packet_id call_back
    on_got_device_id holds points_to erase_first on_receive_request
joined_unlisted = refl

late_end_unroutes_example :
    let held = take_turn joined (read_fails_turn 0 true) in
    let gone = take_turn joined (read_fails_turn 0 false) in
    (held.host.server.connection_map request.device_id ≡ none)
    × (held.loops 1 ≡ running (named_at 6))
    × (gone.host ≡ joined.host)
    × (gone.loops 0 ≡ ended)
    × (gone.loops 1 ≡ running (named_at 6))
late_end_unroutes_example =
    late_end_unroutes joined 0 1 (named_at 4) (named_at 6) refl joined_lem.1 joined_lem.2
      joined_lem.0 joined_unlisted

-- A connection is idle, a read of it has completed when its check ends, and its packet names the device.
abbrev idle : List Turn
idle =
    accept_turn [] 3
    ∷ timer_turn 0 1 90 false
    ∷ packet_turn 0 90 request false
    ∷ wait_throws_turn 0
    ∷ []

-- Its device is routed to it, and none of its loops is left.
idle_lem :
    let t = take_turns start_traffic idle in
    (t.host.server.connection_map request.device_id ≡ some 0) × (t.loops 0 ≡ dropped (named_at 90))
unfolding start_traffic start tcp_server take_turn accepted accept_ends accept connection timer_ends
    packet_comes wait_throws while_alive alive packet_read handle_packet deliver packet_id call_back
    on_got_device_id on_disconnected remove_if check_round holds points_to erase_first
    on_receive_request
idle_lem = (refl, refl)

-- A connection of the device with an empty buffer, and a stream of a request and a heartbeat, byte by byte.
abbrev heartbeat : Packet
heartbeat = record request { cmd = 0; seq = 8 }

abbrev receiver : Receiver
receiver = record {
  conn = named_at 4;
  recv_buffer = io_buffer recv_buf_size;
  generator = 0;
  events = [];
  round = 0;
}

receiver-IsReady : IsReady receiver × (contents receiver.recv_buffer ≡ [])
unfolding io_buffer
receiver-IsReady =
    (record { valid = io_buffer-IsValid recv_buf_size (omega arith); full_size = refl }, refl)

packets-IsGood : All IsGood (request ∷ heartbeat ∷ [])
packets-IsGood = (
  good 2 7 (omega arith) (omega arith) (λ e. ground arith),
  (good 0 8 (omega arith) (omega arith) (λ e. ground arith), tt),
)
  where
    good :
        (cmd seq : ℕ)
        → cmd < 2 ^ 32
        → seq < 2 ^ 32
        → seq ≢ 0
        → IsGood (record request { cmd = cmd; seq = seq })
    good cmd seq c s n = (
      record {
        encodable = record {
          cmd_fits = c;
          seq_fits = s;
          ec_fits = omega arith;
          id_fits = omega arith;
          body_fits = omega arith;
        };
        body_small = omega arith;
      },
      record { numbered = n; no_nul = omega arith },
    )

packets_fit : length (frames (request ∷ heartbeat ∷ [])) ≤ length {A = ℕ} (replicate 300 1)
unfolding frames c_string
packets_fit = omega (
  arith,
  length-append (wire request) (frames (heartbeat ∷ [])),
  length-append (wire heartbeat) (frames []),
)

receive_stream-reactions_example :
    (s' : Receiver) × ((receive_stream big_endian
        (λ n. 1000 * n)
        receiver
        (frames (request ∷ heartbeat ∷ []))
        (replicate 300 1)).0
      ≡ finished s' true)
    × (call_backs 0 joined s'.events ≡ record joined {
      actions =
          joined.actions
          ++ reactions receiver.conn.requests joined.host.server 0 (request ∷ heartbeat ∷ []);
    })
receive_stream-reactions_example =
    receive_stream-reactions big_endian (λ n. 1000 * n) receiver (request ∷ heartbeat ∷ [])
      (replicate 300 1) 0 joined receiver-IsReady.0 receiver-IsReady.1 refl refl (refl, (refl, tt))
      packets-IsGood (All-replicate (λ come. 0 < come) 300 1 (omega arith)) packets_fit
