-- ===== src/Server/Traffic/Named/Routes.antt =====
-- tcp_server.hpp and connection.hpp together: how a device gets its route, and how it loses it.
use asyncmsg.Base.{
  ==_refl, same_refl, Bool, Bool-cases, inl, inr, arith, ℕ, ◌≡◌, refl, sym, subst, ◌∙◌, true, false,
  none, some, List, All, ◌==◌, is_empty,
}
use asyncmsg.Packet.{Packet}
use asyncmsg.Connection.{Connection, got_device_id, handle_packet, deliver}
use asyncmsg.Server.{Server, holds, points_to, on_got_device_id}
use asyncmsg.Server.Connections.{on_disconnected_routes}
use asyncmsg.Server.Traffic.{
  packet_turn, read_fails_turn, running, ended, closing, Traffic, start_traffic, set_loops,
  call_back, end_loops, packet_comes, read_fails, Turn, packet_turn, read_fails_turn, take_turn,
  take_turns, while_alive, alive, packet_read,
}
use asyncmsg.Server.Traffic.Joined.{call_backs_quiet, deliver-IsQuiet}
use asyncmsg.Server.Traffic.Named.{set_loops-there, set_loops-here}
use asyncmsg.Server.Traffic.Named.Turns.{IsUp, take_turns-Listed, start_traffic-Listed}

-- A route, and the connection that it leads to.
abbrev pub Routed : Traffic → List ℕ → ℕ → Type 0
Routed t id conn =
    (t.host.server.connection_map id ≡ some conn)
    × ((c : Connection) × (t.loops conn ≡ running c) × (c.device_id ≡ id))

on_got_device_id-listed :
    (s : Server) (conn : ℕ) (id : List ℕ)
    → holds conn s.connections ≡ true
    → (on_got_device_id s conn id).connection_map id ≡ some conn
unfolding on_got_device_id
on_got_device_id-listed s conn id found = rw found (rw (same_refl id) refl)

packet_comes-Routed :
    (t : Traffic) (conn now : ℕ) (p : Packet) (held : Bool) (c : Connection)
    → holds conn t.host.server.connections ≡ true
    → is_empty c.device_id ≡ true
    → is_empty p.device_id ≡ false
    → Routed (packet_comes t conn now p held (running c)) p.device_id conn
unfolding packet_comes while_alive alive packet_read handle_packet call_back
packet_comes-Routed t conn now p held c found fresh named =
    let c' = record c { device_id = p.device_id; last_recv_time = now } in
    let goes_on =
      call_back conn (record t { loops = set_loops t.loops conn (running c') })
        (got_device_id p.device_id) in
    let quiet =
      call_backs_quiet conn goes_on (deliver (record c { device_id = p.device_id }) p)
        (deliver-IsQuiet (record c { device_id = p.device_id }) p) in
    rw (found, named, fresh, packet_comes, while_alive, alive, packet_read, handle_packet)
      (rw (quiet.0, quiet.1)
        (
          on_got_device_id-listed t.host.server conn p.device_id found,
          (c', set_loops-here t.loops conn conn (running c') (==_refl conn), refl),
        ))

-- Wherever a server has come to before the handler of a stop runs: when a connection that has not named its
-- device receives its first packet with a device id, the packets for this device are sent to this connection
-- then, also if they went to another one before.
pub first_packet-Routed :
    (turns : List Turn) (conn now : ℕ) (p : Packet) (held : Bool) (c : Connection)
    → All IsUp turns
    → (take_turns start_traffic turns).loops conn ≡ running c
    → is_empty c.device_id ≡ true
    → is_empty p.device_id ≡ false
    → Routed
        (take_turn (take_turns start_traffic turns) (packet_turn conn now p held))
        p.device_id
        conn
unfolding take_turn
first_packet-Routed turns conn now p held c up runs fresh named =
    let t = take_turns start_traffic turns in
    let listed = take_turns-Listed start_traffic turns up start_traffic-Listed in
    subst (λ l. Routed (packet_comes t conn now p held l) p.device_id conn) (sym runs)
      (packet_comes-Routed t conn now p held c (listed conn c runs fresh) fresh named)

alive-held : (s : Server) (conn : ℕ) (c : Connection) → alive s conn c true ≡ true
unfolding alive
alive-held s conn c = elim (Bool-cases (holds conn s.connections)) [
  | inl listed ↦ rw (listed, alive) refl
  | inr unlisted ↦ elim (Bool-cases (points_to conn (s.connection_map c.device_id))) [
    | inl routed ↦ rw (unlisted, routed, alive) refl
    | inr unrouted ↦ rw (unlisted, unrouted, alive) refl
  ]
]

alive_gone :
    (s : Server) (old new : ℕ) (c : Connection)
    → (old == new) ≡ false
    → s.connection_map c.device_id ≡ some new
    → holds old s.connections ≡ false
    → alive s old c false ≡ false
unfolding alive points_to
alive_gone s old new c other routed unlisted = rw (unlisted, routed, alive) (ground arith)

-- A device has connected again, so that the packets for it are sent to its new connection, and the old one is no
-- longer in the list of connections. If a read of the old one fails while something else, such as a pending
-- request, still holds it, the packets for the device are sent to none afterwards, although the new connection
-- still receives. If nothing holds it, its loops end without a callback, and the route stays.
pub late_end_unroutes :
    (t : Traffic) (old new : ℕ) (c c' : Connection)
    → (old == new) ≡ false
    → t.loops old ≡ running c
    → t.loops new ≡ running c'
    → t.host.server.connection_map c.device_id ≡ some new
    → holds old t.host.server.connections ≡ false
    → let held = take_turn t (read_fails_turn old true) in
      let gone = take_turn t (read_fails_turn old false) in
      (held.host.server.connection_map c.device_id ≡ none)
      × (held.loops new ≡ running c')
      × (gone.host ≡ t.host)
      × (gone.loops old ≡ ended)
      × (gone.loops new ≡ running c')
unfolding take_turn read_fails while_alive end_loops call_back
late_end_unroutes t old new c c' other runs runs' routed unlisted =
    rw (runs, take_turn, read_fails)
      (rw
        (
          alive-held t.host.server old c,
          alive_gone t.host.server old new c other routed unlisted,
          while_alive,
        )
        (
          (on_disconnected_routes t.host.server old c.device_id).0,
          set_loops-there t.loops old new (closing c) other ∙ runs',
          refl,
          set_loops-here t.loops old old ended (==_refl old),
          set_loops-there t.loops old new ended other ∙ runs',
        ))
