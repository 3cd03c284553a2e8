-- ===== src/Client/Life.antt =====
-- tcp_client.hpp: a client from its constructor to its destructor, with its loops, the stops and the
-- end of its connection in any order.
pub mod Stops
use asyncmsg.Base.{ℕ, Bool, true, false, Option, none, some, List, [], ◌∷◌, if◌then◌else◌}
use asyncmsg.Context.{Context, new_context, post, finish}
use asyncmsg.Packet.{Packet}
use asyncmsg.Client.{Client, tcp_client, on_disconnected, stop, stop_handler, heartbeat_round}

-- The client, its context, and whether `connect` waits for the resolver or the socket. `sent` is what
-- the heartbeat sent, the last first, and `generator` that of the process.
pub record Host : Type 0 where
  pub client : Client
  pub context : Context
  pub connecting : Bool
  pub sent : List (ℕ × Packet)
  pub generator : ℕ

-- The constructor with `start`, which spawns `connect` and `heartbeat`.
unfoldable pub start : List ℕ → ℕ → Host
start device_id generator = record {
  client = tcp_client device_id;
  context = new_context;
  connecting = false;
  sent = [];
  generator = generator;
}

-- `stop(force)`.
unfoldable pub stop_called : Host → Bool → Host
stop_called h force =
    let stopped = stop h.client in
    if stopped.1 then record h { client = stopped.0; context = post h.context force } else h

-- The first posted handler runs. Its cancels of the stop signal and of the channels show in how the
-- waits on them end.
unfoldable pub handler_runs : Host → List Bool → Host
handler_runs h [] = h
handler_runs h (force ∷ later) = record h {
  client = stop_handler h.client;
  context = finish h.context force later;
}

-- A round of `connect` up to its first wait, and from there on, with the connection made or an exception.
unfoldable pub connect_begins : Host → Host
connect_begins h =
    if h.client.stopped
    then h
    else elim h.client.conn [ none ↦ record h { connecting = true } | some conn ↦ h ]

unfoldable pub connect_ends : Host → Option ℕ → Host
connect_ends h none = record h { connecting = false }
connect_ends h (some conn) =
    if h.connecting
    then record h { connecting = false; client = record h.client { conn = some conn } }
    else h

unfoldable pub heartbeat : Host → Host
heartbeat h =
    let beat = heartbeat_round h.client h.generator in
    record h {
      generator = beat.1;
      sent = elim beat.0 [ none ↦ h.sent | some pack ↦ pack ∷ h.sent ];
    }

-- What can happen to a client; `disconnected_step` is the callback of its connection.
pub data Step : Type 0 where
  stop_step : Bool → Step
  handler_step connect_begins_step heartbeat_step disconnected_step : Step
  connect_ends_step : Option ℕ → Step

-- After `io_context.stop()` no handler runs any more, and no coroutine goes on.
unfoldable pub unless_forced : Host → Host → Host
unless_forced h next = if h.context.forced then h else next

unfoldable pub take_step : Host → Step → Host
take_step h (stop_step force) = stop_called h force
take_step h handler_step = unless_forced h (handler_runs h h.context.posted)
take_step h connect_begins_step = unless_forced h (connect_begins h)
take_step h (connect_ends_step made) = unless_forced h (connect_ends h made)
take_step h heartbeat_step = unless_forced h (heartbeat h)
take_step h disconnected_step = unless_forced h (record h { client = on_disconnected h.client })

abbrev pub take_steps : Host → List Step → Host
take_steps h [] = h
take_steps h (step ∷ steps) = take_steps (take_step h step) steps

-- The destructor: `stop(true)`, and the handlers; the thread can be joined at once if the context was
-- forced to stop.
unfoldable pub destroy : Host → Host
destroy h = let stopped = stop_called h true in handler_runs stopped stopped.context.posted
