-- ===== src/Server/Life.antt =====
-- tcp_server.hpp: a server from its constructor to its destructor, with the stops, the accepts and the
-- callbacks in any order.
pub mod Stops
pub mod Routing
use asyncmsg.Base.{ℕ, Bool, true, false, Option, none, some, List, [], ◌∷◌, ◌++◌, if◌then◌else◌}
use asyncmsg.Context.{Context, new_context, post, finish}
use asyncmsg.Server.{
  Server, tcp_server, accept, on_got_device_id, on_disconnected, stop, stop_handler,
}

-- The server, its context, and whether the loop of `accept` goes on.
pub record Host : Type 0 where
  pub server : Server
  pub context : Context
  pub accepting : Bool

-- The constructor with `start`, which spawns `accept`.
unfoldable pub start : Host
start = record { server = tcp_server; context = new_context; accepting = true }

-- `stop(force)`.
unfoldable pub stop_called : Host → Bool → Host
stop_called h force =
    let stopped = stop h.server in
    if stopped.1 then record h { server = stopped.0; context = post h.context force } else h

-- The first posted handler runs. Its cancels of the acceptor and of the channels show in how the waits
-- on them end.
unfoldable pub handler_runs : Host → List Bool → Host
handler_runs h [] = h
handler_runs h (force ∷ later) = record h {
  server = stop_handler h.server;
  context = finish h.context force later;
}

-- A wait of `accept` ends, with a connection, or with an exception, which ends the loop.
unfoldable pub accept_ends : Host → Option ℕ → Host
accept_ends h none = record h { accepting = false }
accept_ends h (some conn) = if h.accepting then record h { server = accept h.server conn } else h

-- What can happen to a server; the last two are the callbacks of its connections.
pub data Step : Type 0 where
  stop_step : Bool → Step
  handler_step : Step
  accept_step : Option ℕ → Step
  got_device_id_step : ℕ → List ℕ → Step
  disconnected_step : ℕ → List ℕ → Step

unfoldable pub take_step : Host → Step → Host
take_step h (stop_step force) = stop_called h force
take_step h handler_step = handler_runs h h.context.posted
take_step h (accept_step made) = accept_ends h made
take_step h (got_device_id_step conn device_id) = record h {
  server = on_got_device_id h.server conn device_id;
}
take_step h (disconnected_step conn device_id) = record h {
  server = on_disconnected h.server conn device_id;
}

abbrev pub take_steps : Host → List Step → Host
take_steps h [] = h
take_steps h (step ∷ steps) = take_steps (take_step h step) steps

-- The destructor: `stop(true)`, and the handlers; the thread can be joined at once if the context was
-- forced to stop.
unfoldable pub destroy : Host → Host
destroy h = let stopped = stop_called h true in handler_runs stopped stopped.context.posted
