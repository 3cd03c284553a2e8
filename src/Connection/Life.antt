-- ===== src/Connection/Life.antt =====
-- connection.hpp: `start`, the receiving and the lifetime check of a connection side by side, and the
-- sends with all their steps.
pub mod Late
pub mod End
use asyncmsg.Base.{ℕ, Bool, true, false, Option, none, some, List, [], ◌∷◌, ◌++◌, if◌then◌else◌}
use asyncmsg.ByteOrder.{ByteOrder}
use asyncmsg.Error.{Result, returned, thrown}
use asyncmsg.Packet.{Packet, Encoded, encode_packet}
use asyncmsg.Connection.{
  Connection, Receiver, Read, Outcome, finished, read_past, no_fuel, read_round, receive_round,
  check_round, register_request, finish_request, send_packet,
}

-- What goes on in a connection: a read of `receive_packet` ends, or the timer of `check` runs out at this
-- time. `alive` tells whether the object still exists then. Each comes with what becomes of the other side if this
-- one ends. The wait for the timer is cancelled and nothing more is seen of it (`none`), or it had run out
-- already, and is looked at at this time. The read is cancelled (`failed`), or finds the object gone, or had
-- completed already.
pub data Turn : Type 0 where
  read_ended : Read → (last : Option ℕ) → Turn
  timer_ended : (alive : Bool) (now : ℕ) (last : Read) → Turn

-- The end of a read that is cancelled, as the check has ended. The tests for room were made before it. If it goes
-- on after the read, the next wait throws.
unfoldable pub cancel_read : ByteOrder → (ℕ → ℕ) → Receiver → Read → Outcome
cancel_read o clock s last = elim (read_round o clock s last) [
  | finished s' again ↦ finished s' false
  | read_past ↦ read_past
  | no_fuel ↦ no_fuel
]

-- The end of the wait of `check` when it is cancelled, as the receiving has ended.
unfoldable pub cancel_check : ℕ → Receiver → Option ℕ → Receiver
cancel_check second s none = s
cancel_check second s (some now) = record s {
  events = s.events ++ (check_round second now s.conn).1;
}

-- `start`, on what goes on: `receive_packet() || check()`, of which the first that ends cancels the other, and
-- waits for it.
unfoldable pub start : ByteOrder → (ℕ → ℕ) → ℕ → Receiver → List Turn → Outcome
start o clock second s [] = finished s true
start o clock second s (read_ended read last ∷ turns) = elim (receive_round o clock s read) [
  | finished s' true ↦ start o clock second s' turns
  | finished s' false ↦ finished (cancel_check second s' last) false
  | read_past ↦ read_past
  | no_fuel ↦ no_fuel
]
start o clock second s (timer_ended alive now last ∷ turns) =
    let rest = start o clock second s turns in
    let checked = check_round second now s.conn in
    if alive
    then (if checked.0
        then rest
        else cancel_read o clock (record s { events = s.events ++ checked.1 }) last)
    else finished s false

-- `send_packet_detach`: what is written, if the object still exists when its coroutine runs.
unfoldable pub send_packet_detach : ByteOrder → Bool → Packet → Option Encoded
send_packet_detach o alive p = if alive then some (send_packet o p) else none

-- `send_packet_and_wait_rsp`: what is written, and then the connection and the result. `meanwhile` is
-- what happens to the connection during the wait, and the response, or `none` if the timer runs out
-- first.
unfoldable pub send_packet_and_wait_rsp :
    ByteOrder
    → Connection
    → Bool
    → Packet
    → ℕ
    → (Connection → Connection × Option Packet)
    → Encoded × (Connection × Result Packet)
send_packet_and_wait_rsp o c alive p channel meanwhile = (
  encode_packet o p,
  elim (register_request c alive p channel) [
    | thrown e ↦ (c, thrown e)
    | returned c' ↦ (let waited = meanwhile c' in finish_request waited.0 p waited.1)
  ],
)
