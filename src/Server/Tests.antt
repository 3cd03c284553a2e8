-- ===== src/Server/Tests.antt =====
-- The server at concrete inputs.
use asyncmsg.Base.{
  if◌then◌else◌, ◌==◌, ℕ, ◌≡◌, refl, arith, true, false, Option, none, some, List, [], ◌∷◌,
}
use asyncmsg.Error.{returned}
use asyncmsg.Packet.{Packet}
use asyncmsg.Server.{holds, points_to, Server, on_disconnected, send_packet_and_wait_rsp}
use asyncmsg.Server.Connections.{on_disconnected-connections}
use asyncmsg.Server.Life.{
  start, stop_called, take_steps, destroy, stop_step, accept_step, handler_step,
}
use asyncmsg.Server.Life.Stops.{HostStops, start-HostRuns, stop_called-first}
use asyncmsg.Server.Tries.{IsConnected, send_packet_and_wait_rsp_answered}

abbrev dev : List ℕ
dev = 100 ∷ 101 ∷ 118 ∷ []

abbrev ask : Packet
ask = record { cmd = 2; seq = 7; rsp = false; ec = 0; device_id = dev; body = [] }

abbrev reply : Packet
reply = record ask { rsp = true }

-- Three connections without a name, and one of the device "dev".
abbrev busy : Server
busy = record {
  stopped = false;
  received_request_channels = λ cmd. none;
  connection_map = λ id. some 4;
  connections = some 1 ∷ some 2 ∷ some 3 ∷ [];
}

on_disconnected-connections_example :
    (on_disconnected busy 2 []).connections ≡ some 1 ∷ some 3 ∷ none ∷ []
unfolding holds points_to
on_disconnected-connections_example =
    on_disconnected-connections busy 2 [] (some 1 ∷ []) (some 3 ∷ []) refl refl refl

busy-IsConnected : IsConnected busy ask 4
busy-IsConnected = record { running = refl; connected = refl }

-- The second try is answered.
abbrev second_try : ℕ → ℕ → Option Packet
second_try i conn = if i == 1 then some reply else none

send_packet_and_wait_rsp_answered_example :
    send_packet_and_wait_rsp 3 (λ i. busy) second_try ask ≡ returned reply
send_packet_and_wait_rsp_answered_example =
    send_packet_and_wait_rsp_answered (λ i. busy) second_try ask (λ i. 4) 3 1 reply (omega arith)
      (λ j h. busy-IsConnected) (λ j h. ground arith) refl

stop_called-first_example :
    HostStops false (
      take_steps
        (stop_called start false)
        (stop_step true ∷ accept_step (some 4) ∷ handler_step ∷ stop_step true ∷ []))
    × HostStops false (
        destroy (
          take_steps
            (stop_called start false)
            (stop_step true ∷ accept_step (some 4) ∷ handler_step ∷ stop_step true ∷ [])))
stop_called-first_example =
    stop_called-first start false
      (stop_step true ∷ accept_step (some 4) ∷ handler_step ∷ stop_step true ∷ []) start-HostRuns
