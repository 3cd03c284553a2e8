-- ===== src/Server/Traffic.antt =====
-- tcp_server.hpp and connection.hpp together: a server with all its connections, whose events are its
-- callbacks. A connection is a number, the identity of the object; the next one is made with the number
-- `made`.
pub mod Joined
pub mod Named
pub mod Stream
mod Tests
use asyncmsg.Base.{some, none, ℕ, suc, ◌==◌, Bool, true, false, List, [], ◌∷◌, ◌++◌, if◌then◌else◌}
use asyncmsg.Packet.{Packet}
use asyncmsg.Connection.{
  Connection, connection, Event, got_device_id, receive_request, disconnected, Handled, handled,
  refused, handle_packet, check_round,
}
use asyncmsg.Connection
use asyncmsg.Server.{
  Server, points_to, holds, Action, try_send, on_receive_request, on_got_device_id, on_disconnected,
}
use asyncmsg.Server.Life.{Host, start, stop_called, handler_runs, accept_ends}

-- The coroutines of a connection. Both run; or the check has ended and cancels the read; or a last read that had
-- completed by then is processed; or the wait after that has thrown, as it is cancelled; or the receiving has
-- ended, and the check looks at its timer once more if that had run out by then; or none is left.
pub data Loops : Type 0 where
  running : Connection → Loops
  cancelled : Connection → Loops
  draining : Connection → Loops
  dropped : Connection → Loops
  closing : Connection → Loops
  ended : Loops

-- The server, its connections, the sequence generator of the process, and what the callbacks made others do.
pub record Traffic : Type 0 where
  pub host : Host
  pub loops : ℕ → Loops
  pub made : ℕ
  pub generator : ℕ
  pub actions : List Action

unfoldable pub start_traffic : Traffic
start_traffic = record {
  host = start;
  loops = λ conn. ended;
  made = 0;
  generator = 0;
  actions = [];
}

abbrev pub set_loops : (ℕ → Loops) → ℕ → Loops → ℕ → Loops
set_loops loops conn l k = if conn == k then l else loops k

-- An event of a connection: the callback that `accept` has bound, or a send on the channel of a request.
unfoldable pub call_back : ℕ → Traffic → Event → Traffic
call_back conn t (got_device_id id) = record t {
  host = record t.host { server = on_got_device_id t.host.server conn id };
}
call_back conn t (receive_request id p) =
    let called = on_receive_request t.host.server t.generator conn p in
    record t { generator = called.0; actions = t.actions ++ called.1 }
call_back conn t (disconnected id) = record t {
  host = record t.host { server = on_disconnected t.host.server conn id };
}
call_back conn t (Connection.try_send channel p) = record t {
  actions = t.actions ++ try_send channel p ∷ [];
}

abbrev pub call_backs : ℕ → Traffic → List Event → Traffic
call_backs conn t [] = t
call_backs conn t (e ∷ es) = call_backs conn (call_back conn t e) es

-- A wait of `accept` ends with a socket, and a connection is made for it.
unfoldable pub accepted : Traffic → List ℕ → ℕ → Traffic
accepted t left now =
    if t.host.accepting
    then record t {
      host = accept_ends t.host (some t.made);
      loops = set_loops t.loops t.made (running (connection left now []));
      made = suc t.made;
    }
    else t

-- The receiving ends with a report, and this is left of the loops.
unfoldable pub end_loops : Traffic → ℕ → Connection → Loops → Traffic
end_loops t conn c l =
    call_back conn (record t { loops = set_loops t.loops conn l }) (disconnected c.device_id)

-- `weak_this.lock()`: the server still has the connection, or something else holds it, as a pending request does.
unfoldable pub alive : Server → ℕ → Connection → Bool → Bool
alive s conn c held =
    if holds conn s.connections
    then true
    else (if points_to conn (s.connection_map c.device_id) then true else held)

-- A loop after its wait: it breaks without a report if the connection is gone.
unfoldable pub while_alive : Traffic → ℕ → Connection → Bool → Traffic → Traffic
while_alive t conn c held next =
    if alive t.host.server conn c held
    then next
    else record t { loops = set_loops t.loops conn ended }

-- A round of `process_packet` with a packet, after which the loops go on in this way, or this is left of them.
unfoldable pub packet_read :
    Traffic → ℕ → ℕ → Packet → (Connection → Loops) → Loops → Connection → Traffic
packet_read t conn now p goes_on over c = elim (handle_packet now c p) [
  | handled c' events ↦
      call_backs conn (record t { loops = set_loops t.loops conn (goes_on c') }) events
  | refused ↦ end_loops t conn c over
]

-- A read that has completed brings a packet, also when the check has ended meanwhile.
unfoldable pub packet_comes : Traffic → ℕ → ℕ → Packet → Bool → Loops → Traffic
packet_comes t conn now p held (running c) =
    while_alive t conn c held (packet_read t conn now p running (closing c) c)
packet_comes t conn now p held (cancelled c) =
    while_alive t conn c held (packet_read t conn now p draining ended c)
packet_comes t conn now p held (draining c) =
    while_alive t conn c held (packet_read t conn now p draining ended c)
packet_comes t conn now p held (dropped c) = t
packet_comes t conn now p held (closing c) = t
packet_comes t conn now p held ended = t

-- A read fails, as one that is cancelled before it has completed does.
unfoldable pub read_fails : Traffic → ℕ → Bool → Loops → Traffic
read_fails t conn held (running c) = while_alive t conn c held (end_loops t conn c (closing c))
read_fails t conn held (cancelled c) = while_alive t conn c held (end_loops t conn c ended)
read_fails t conn held (draining c) = t
read_fails t conn held (dropped c) = t
read_fails t conn held (closing c) = t
read_fails t conn held ended = t

-- The next wait after the last read throws, and so does the wait for the timer.
unfoldable pub wait_throws : Traffic → ℕ → Loops → Traffic
wait_throws t conn (running c) = t
wait_throws t conn (cancelled c) = record t { loops = set_loops t.loops conn (dropped c) }
wait_throws t conn (draining c) = record t { loops = set_loops t.loops conn (dropped c) }
wait_throws t conn (dropped c) = t
wait_throws t conn (closing c) = record t { loops = set_loops t.loops conn ended }
wait_throws t conn ended = t

-- A round of `check`.
unfoldable pub timer_ends : Traffic → ℕ → ℕ → ℕ → Bool → Loops → Traffic
timer_ends t conn second now held (running c) =
    let checked = check_round second now c in
    while_alive t conn c held (
      if checked.0
      then t
      else call_backs conn (record t { loops = set_loops t.loops conn (cancelled c) }) checked.1)
timer_ends t conn second now held (cancelled c) = t
timer_ends t conn second now held (draining c) = t
timer_ends t conn second now held (dropped c) = t
timer_ends t conn second now held (closing c) = while_alive t conn c held (
    call_backs conn (record t { loops = set_loops t.loops conn ended })
      (check_round second now c).1)
timer_ends t conn second now held ended = t

-- What can happen to a server and its connections; `held` tells whether something else than the server holds the
-- connection then.
pub data Turn : Type 0 where
  stop_turn : Bool → Turn
  handler_turn : Turn
  accept_turn : (left : List ℕ) (now : ℕ) → Turn
  accept_fails_turn : Turn
  packet_turn : (conn now : ℕ) → Packet → (held : Bool) → Turn
  read_fails_turn : (conn : ℕ) (held : Bool) → Turn
  wait_throws_turn : (conn : ℕ) → Turn
  timer_turn : (conn second now : ℕ) (held : Bool) → Turn

unfoldable pub take_turn : Traffic → Turn → Traffic
take_turn t (stop_turn force) = record t { host = stop_called t.host force }
take_turn t handler_turn = record t { host = handler_runs t.host t.host.context.posted }
take_turn t (accept_turn left now) = accepted t left now
take_turn t accept_fails_turn = record t { host = accept_ends t.host none }
take_turn t (packet_turn conn now p held) = packet_comes t conn now p held (t.loops conn)
take_turn t (read_fails_turn conn held) = read_fails t conn held (t.loops conn)
take_turn t (wait_throws_turn conn) = wait_throws t conn (t.loops conn)
take_turn t (timer_turn conn second now held) = timer_ends t conn second now held (t.loops conn)

abbrev pub take_turns : Traffic → List Turn → Traffic
take_turns t [] = t
take_turns t (turn ∷ turns) = take_turns (take_turn t turn) turns
