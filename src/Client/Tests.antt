-- ===== src/Client/Tests.antt =====
-- The client at concrete inputs.
use asyncmsg.Base.{
  ◌++◌, true, ℕ, ◌*◌, ◌≡◌, refl, arith, false, none, some, List, [], ◌∷◌, if◌then◌else◌, ◌==◌,
}
use asyncmsg.Error.{Result}
use asyncmsg.Lru.{assign, lru, exist, find, put}
use asyncmsg.Lru.Exist.{lru-IsValid}
use asyncmsg.Packet.{Packet, packet_id}
use asyncmsg.Client.{
  Client, send_packet_and_wait_rsp, pass_on, received, recently_received_request_cap,
}
use asyncmsg.Context.{new_context, IsRunning}
use asyncmsg.Client.{tcp_client}
use asyncmsg.Client.Life.{
  disconnected_step, connect_ends, Step, unless_forced, Host, start, take_step, take_steps,
  connect_begins, stop_step, handler_step, connect_begins_step, connect_ends_step, heartbeat_step,
}
use asyncmsg.Client.Life.Stops.{IsQuiet, take_steps-IsQuiet, IsIdle}
use asyncmsg.Client.Sending.{send_packet_and_wait_rsp-ends}
use asyncmsg.Client.Requests.{IsKept, pass_on_all, pass_on_duplicate}

abbrev dev : List ℕ
dev = 100 ∷ 101 ∷ 118 ∷ []

-- A client with a connection, on which command 2 is waited for.
abbrev online : Client
online = record {
  device_id = dev;
  recently_received_request = lru recently_received_request_cap;
  stopped = false;
  conn = some 4;
  received_request_channels = λ cmd. if cmd == 2 then some 6 else none;
}

online-IsKept : IsKept online
unfolding lru
online-IsKept = (lru-IsValid recently_received_request_cap, refl)

abbrev ask : Packet
ask = record { cmd = 2; seq = 7; rsp = false; ec = 0; device_id = []; body = [] }

-- Another request with another number.
abbrev other : Packet
other = record ask { seq = 8 }

send_packet_and_wait_rsp-ends_example :
    (result : Result (ℕ × ℕ)) × ((send_packet_and_wait_rsp online ask 5000
        (λ i. none)
        (λ i. 100 * i)).1
      ≡ some result)
send_packet_and_wait_rsp-ends_example =
    send_packet_and_wait_rsp-ends online ask 5000 (λ i. none) (λ i. 100 * i) (λ j. omega arith)

-- The client after the first request, and after the other.
abbrev asked : Client
asked = record online {
  recently_received_request =
      put (exist online.recently_received_request (packet_id ask)).0 (packet_id ask);
}

abbrev asked_twice : Client
asked_twice = record asked {
  recently_received_request =
      put (exist asked.recently_received_request (packet_id other)).0 (packet_id other);
}

pass_on_duplicate_example : (last : Client) × (pass_on asked_twice ask ≡ received last none)
unfolding pass_on pass_on_all packet_id lru find exist put assign
pass_on_duplicate_example =
    pass_on_duplicate online asked asked_twice ask ask (other ∷ []) (some (6, ask)) online-IsKept
      refl refl (omega arith) refl

-- A client that has a connection is stopped, and meanwhile its loops and its connection go on.
abbrev online_host : Host
online_host = take_steps (start dev 7) (connect_begins_step ∷ connect_ends_step (some 3) ∷ [])

abbrev meanwhile : List Step
meanwhile = heartbeat_step ∷ stop_step true ∷ connect_begins_step ∷ []

abbrev later : List Step
later = connect_begins_step ∷ connect_ends_step (some 4) ∷ heartbeat_step ∷ disconnected_step ∷ []

online_host-IsRunning : IsRunning online_host.client.stopped online_host.context
unfolding take_step unless_forced connect_begins connect_ends start tcp_client new_context
online_host-IsRunning = (refl, refl, refl, refl)

take_steps-IsQuiet_example :
    IsIdle (take_steps online_host (stop_step false ∷ meanwhile)) online_host.sent
    × IsQuiet
        (take_steps online_host (stop_step false ∷ meanwhile ++ handler_step ∷ later))
        online_host.sent
unfolding take_step unless_forced connect_begins connect_ends start tcp_client new_context
take_steps-IsQuiet_example =
    take_steps-IsQuiet online_host false meanwhile later online_host-IsRunning refl
      ((λ h. h), ((λ h. h), ((λ h. h), tt)))
