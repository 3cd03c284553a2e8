-- ===== src/Connection/Life/End.antt =====
-- connection.hpp: how the life of a connection ends, and what its requests leave behind.
use asyncmsg.Base.{
  ℕ, ◌≡◌, refl, sym, subst, true, false, Option, none, some, List, [], ◌∷◌, ◌++◌, ◌⊎◌, ==_refl,
}
use asyncmsg.ByteOrder.{ByteOrder}
use asyncmsg.Error.{returned, thrown, invalid_state_error}
use asyncmsg.Packet.{Packet, packet_id}
use asyncmsg.Connection.{
  Connection, Outcome, Event, disconnected, finished, read_past, no_fuel, register_request,
  finish_request,
}
use asyncmsg.Connection.Device.{OneDevice, Heard}
use asyncmsg.Connection.Life.{send_packet_and_wait_rsp}

-- The events before the end, those of a last read after it, and at most two reports. The first names the device,
-- or nothing if nothing was heard of the device before it; the second is last.
abbrev pub ReportedTwice : Outcome → Type 0
ReportedTwice (finished s true) = Heard s
ReportedTwice (finished s false) =
    (before : List Event) × (more : List Event) × (first : List Event) × (second : List Event)
    × (s.events ≡ (before ++ first) ++ (more ++ second))
    × OneDevice s.conn.device_id (before ++ more)
    × ((first ≡ [])
        ⊎ ((first ≡ disconnected s.conn.device_id ∷ [])
            ⊎ ((first ≡ disconnected [] ∷ []) × (before ≡ []))))
    × ((second ≡ []) ⊎ (second ≡ disconnected s.conn.device_id ∷ []))
ReportedTwice read_past = Unit
ReportedTwice no_fuel = ⊥

-- `send_packet_and_wait_rsp` returns the response that comes before its timer runs out, and then its
-- request is no longer in the map, whatever happened to the connection meanwhile; on a connection that
-- is gone after the write it throws, and the map stays.
pub send_packet_and_wait_rsp_forgets :
    (o : ByteOrder) (c waited : Connection) (p response : Packet) (channel : ℕ)
    (meanwhile : Connection → Connection × Option Packet)
    → ((c' : Connection)
        → register_request c true p channel ≡ returned c'
        → meanwhile c' ≡ (waited, some response))
    → let answered = (send_packet_and_wait_rsp o c true p channel meanwhile).1 in
      (answered.1 ≡ returned response)
      × (answered.0.requests (packet_id p) ≡ none)
      × ((send_packet_and_wait_rsp o c false p channel meanwhile).1
          ≡ (c, thrown invalid_state_error))
unfolding send_packet_and_wait_rsp register_request finish_request
send_packet_and_wait_rsp_forgets o c waited p response channel meanwhile came =
    let e = came _ refl in
    let ended =
      subst
        (λ (r : Connection × Option Packet).
          ((finish_request r.0 p r.1).1 ≡ returned response)
          × ((finish_request r.0 p r.1).0.requests (packet_id p) ≡ none))
        (sym e) (refl, rw (==_refl (packet_id p)) refl) in
    (ended.0, ended.1, refl)
