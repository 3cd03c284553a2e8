-- ===== src/Server/Traffic/Named/Turns.antt =====
-- tcp_server.hpp and connection.hpp together: the list of unnamed connections, turn by turn.
use asyncmsg.Base.{
  ℕ, ◌≡◌, refl, sym, subst, arith, Bool, true, false, some, List, [], ◌∷◌, ◌++◌, All, inl, inr,
  Bool-cases, same, is_empty, ltb, ◌-◌, ◌/◌,
}
use asyncmsg.Packet.{Packet}
use asyncmsg.Connection.{
  Connection, connection, got_device_id, handle_packet, check_round, deliver,
  active_connection_lifetime_seconds,
}
use asyncmsg.Server.{accept, holds}
use asyncmsg.Server.Connections.{holds_last}
use asyncmsg.Server.Life.{Host, accept_ends}
use asyncmsg.Server.Life.Stops.{stop_called-cases}
use asyncmsg.Server.Traffic.{
  stop_turn, handler_turn, accept_turn, accept_fails_turn, packet_turn, read_fails_turn, timer_turn,
  Loops, running, cancelled, ended, Traffic, start_traffic, set_loops, call_back, call_backs,
  accepted, end_loops, packet_comes, read_fails, timer_ends, Turn, stop_turn, handler_turn,
  accept_turn, accept_fails_turn, packet_turn, read_fails_turn, timer_turn, take_turn, take_turns,
  draining, dropped, closing, while_alive, alive, packet_read, wait_throws, wait_throws_turn,
}
use asyncmsg.Server.Traffic.Joined.{call_backs_quiet, deliver-IsQuiet}
use asyncmsg.Server.Traffic.Named.{
  IsListed, disconnected-IsListed, got_device_id-IsListed, goes_on-IsListed, holds-append,
  others-IsListed,
}

-- Turn by turn.
abbrev pub Listed : Traffic → Type 0
Listed t = IsListed t.host.server.connections t.loops

deliver-Listed :
    (t : Traffic) (conn : ℕ) (c : Connection) (p : Packet)
    → Listed t
    → Listed (call_backs conn t (deliver c p))
deliver-Listed t conn c p v =
    let e = call_backs_quiet conn t (deliver c p) (deliver-IsQuiet c p) in rw (e.0, e.1) v

end_loops-Listed :
    (t : Traffic) (conn : ℕ) (c : Connection) (l : Loops)
    → ((c1 : Connection) → l ≡ running c1 → ⊥)
    → Listed t
    → Listed (end_loops t conn c l)
unfolding end_loops call_back
end_loops-Listed t conn c l over v =
    disconnected-IsListed t.host.server t.loops conn v c.device_id l over

while_alive-Listed :
    (t next : Traffic) (conn : ℕ) (c : Connection) (held : Bool)
    → Listed t
    → Listed next
    → Listed (while_alive t conn c held next)
unfolding while_alive
while_alive-Listed t next conn c held v w = elim (Bool-cases (alive t.host.server conn c held)) [
  | inl lives ↦ rw (lives, while_alive) w
  | inr gone ↦
      rw (gone, while_alive)
        (goes_on-IsListed t.host.server t.loops conn v ended (λ c1 e fresh. absurd (ground arith)))
]

-- `goes_on` is how the loops go on, which are in the list as long as they run without a name.
module _ (t : Traffic) (conn now : ℕ) (p : Packet) (goes_on : Connection → Loops) (over : Loops)
    (c : Connection) (is_over : (c1 : Connection) → over ≡ running c1 → ⊥)
    (one : (c' c1 : Connection) → goes_on c' ≡ running c1 → c1 ≡ c')
    (listed : (c' : Connection)
      → goes_on c ≡ running c'
      → is_empty c.device_id ≡ true
      → holds conn t.host.server.connections ≡ true)
    (v : Listed t) where
  named_goes_on :
      (c' : Connection)
      → is_empty c'.device_id ≡ false
      → (c1 : Connection) → goes_on c' ≡ running c1
      → is_empty c1.device_id ≡ false
  named_goes_on c' named c1 e =
      subst (λ (c2 : Connection). is_empty c2.device_id ≡ false) (sym (one c' c1 e)) named

  packet_read-Listed : Listed (packet_read t conn now p goes_on over c)
  unfolding packet_read handle_packet call_back
  packet_read-Listed = elim (Bool-cases (is_empty p.device_id)) [
    | inl unnamed ↦
        rw (unnamed, packet_read, handle_packet)
          (goes_on-IsListed t.host.server t.loops conn v (goes_on c) (λ c1 e fresh.
            listed c1 e
              (subst (λ (c2 : Connection). is_empty c2.device_id ≡ true) (one c c1 e) fresh)))
    | inr named ↦
        rw (named, packet_read, handle_packet)
          (elim (Bool-cases (is_empty c.device_id)) [
            | inl fresh ↦
                (let c' = record c { device_id = p.device_id; last_recv_time = now } in
                  let t' = record t { loops = set_loops t.loops conn (goes_on c') } in
                  rw (fresh, packet_read, handle_packet)
                    (deliver-Listed (call_back conn t' (got_device_id p.device_id)) conn
                      (record c { device_id = p.device_id }) p
                      (got_device_id-IsListed t.host.server t.loops conn v p.device_id (goes_on c')
                        (named_goes_on c' named))))
            | inr known ↦
                rw (known, packet_read, handle_packet)
                  (elim (Bool-cases (same c.device_id p.device_id)) [
                    | inl own ↦
                        (let c' = record c { last_recv_time = now } in
                          rw (own, packet_read, handle_packet)
                            (deliver-Listed
                              (record t { loops = set_loops t.loops conn (goes_on c') }) conn c p
                              (goes_on-IsListed t.host.server t.loops conn v (goes_on c')
                                (λ c1 e fresh.
                                  absurd (let e1 = named_goes_on c' known c1 e in ground arith)))))
                    | inr other ↦
                        rw (other, packet_read, handle_packet)
                          (end_loops-Listed t conn c over is_over v)
                  ])
          ])
  ]

drains-Listed :
    (t : Traffic) (conn now : ℕ) (p : Packet) (held : Bool) (c : Connection)
    → Listed t
    → Listed (while_alive t conn c held (packet_read t conn now p draining ended c))
drains-Listed t conn now p held c v = while_alive-Listed t _ conn c held v (
    packet_read-Listed t conn now p draining ended c (λ c1 e. ground arith)
      (λ c' c1 e. absurd (ground arith)) (λ c' e. absurd (ground arith)) v)

packet_comes-Listed :
    (t : Traffic) (conn now : ℕ) (p : Packet) (held : Bool) (l : Loops)
    → t.loops conn ≡ l
    → Listed t
    → Listed (packet_comes t conn now p held l)
unfolding packet_comes
packet_comes-Listed t conn now p held (running c) e v = while_alive-Listed t _ conn c held v (
    packet_read-Listed t conn now p running (closing c) c (λ c1 e1. ground arith)
      (λ c' c1 e1. ground arith) (λ c' e1 fresh. v conn c e fresh) v)
packet_comes-Listed t conn now p held (cancelled c) e v = drains-Listed t conn now p held c v
packet_comes-Listed t conn now p held (draining c) e v = drains-Listed t conn now p held c v
packet_comes-Listed t conn now p held (dropped c) e v = v
packet_comes-Listed t conn now p held (closing c) e v = v
packet_comes-Listed t conn now p held ended e v = v

read_fails-Listed :
    (t : Traffic) (conn : ℕ) (held : Bool) (l : Loops)
    → Listed t
    → Listed (read_fails t conn held l)
unfolding read_fails
read_fails-Listed t conn held (running c) v =
    while_alive-Listed t _ conn c held v
      (end_loops-Listed t conn c (closing c) (λ c1 e. ground arith) v)
read_fails-Listed t conn held (cancelled c) v =
    while_alive-Listed t _ conn c held v (end_loops-Listed t conn c ended (λ c1 e. ground arith) v)
read_fails-Listed t conn held (draining c) v = v
read_fails-Listed t conn held (dropped c) v = v
read_fails-Listed t conn held (closing c) v = v
read_fails-Listed t conn held ended v = v

wait_throws-Listed : (t : Traffic) (conn : ℕ) (l : Loops) → Listed t → Listed (wait_throws t conn l)
unfolding wait_throws
wait_throws-Listed t conn (running c) v = v
wait_throws-Listed t conn (cancelled c) v =
    goes_on-IsListed t.host.server t.loops conn v (dropped c) (λ c1 e fresh. absurd (ground arith))
wait_throws-Listed t conn (draining c) v =
    goes_on-IsListed t.host.server t.loops conn v (dropped c) (λ c1 e fresh. absurd (ground arith))
wait_throws-Listed t conn (dropped c) v = v
wait_throws-Listed t conn (closing c) v =
    goes_on-IsListed t.host.server t.loops conn v ended (λ c1 e fresh. absurd (ground arith))
wait_throws-Listed t conn ended v = v

timer_ends-Listed :
    (t : Traffic) (conn second now : ℕ) (held : Bool) (l : Loops)
    → Listed t
    → Listed (timer_ends t conn second now held l)
unfolding timer_ends check_round call_back
timer_ends-Listed t conn second now held (running c) v =
    while_alive-Listed t _ conn c held v
      (elim (Bool-cases
        (ltb active_connection_lifetime_seconds ((now - c.last_recv_time) / second))) [
          | inr lives ↦ rw lives v
          | inl idle ↦ rw idle (
              disconnected-IsListed t.host.server t.loops conn v c.device_id (cancelled c)
                (λ c1 e. ground arith))
        ])
timer_ends-Listed t conn second now held (cancelled c) v = v
timer_ends-Listed t conn second now held (draining c) v = v
timer_ends-Listed t conn second now held (dropped c) v = v
timer_ends-Listed t conn second now held (closing c) v =
    while_alive-Listed t _ conn c held v
      (elim (Bool-cases
        (ltb active_connection_lifetime_seconds ((now - c.last_recv_time) / second))) [
          | inr lives ↦ rw lives (
              goes_on-IsListed t.host.server t.loops conn v ended
                (λ c1 e fresh. absurd (ground arith)))
          | inl idle ↦ rw idle (
              disconnected-IsListed t.host.server t.loops conn v c.device_id ended
                (λ c1 e. ground arith))
        ])
timer_ends-Listed t conn second now held ended v = v

accepted-Listed : (t : Traffic) (left : List ℕ) (now : ℕ) → Listed t → Listed (accepted t left now)
unfolding accepted accept_ends accept
accepted-Listed t left now v = elim (Bool-cases t.host.accepting) [
  | inr off ↦ simp off v
  | inl on ↦ rw on (
      others-IsListed t.host.server.connections (t.host.server.connections ++ some t.made ∷ [])
        t.loops t.made (running (connection left now [])) v
        (λ k other h. holds-append k t.host.server.connections (some t.made ∷ []) h)
        (λ c e fresh. holds_last t.made t.host.server.connections))
]

-- The handler of a stop does not run.
abbrev pub IsUp : Turn → Type 0
IsUp handler_turn = ⊥
IsUp (stop_turn force) = Unit
IsUp (accept_turn left now) = Unit
IsUp accept_fails_turn = Unit
IsUp (packet_turn conn now p held) = Unit
IsUp (read_fails_turn conn held) = Unit
IsUp (wait_throws_turn conn) = Unit
IsUp (timer_turn conn second now held) = Unit

take_turn-Listed : (t : Traffic) (turn : Turn) → IsUp turn → Listed t → Listed (take_turn t turn)
unfolding take_turn accept_ends
take_turn-Listed t (stop_turn force) up v = elim (stop_called-cases t.host force) [
  | inl none_ ↦ subst (λ (h : Host). IsListed h.server.connections t.loops) (sym none_) v
  | inr first ↦ subst (λ (h : Host). IsListed h.server.connections t.loops) (sym first) v
]
take_turn-Listed t handler_turn up v = absurd up
take_turn-Listed t (accept_turn left now) up v = accepted-Listed t left now v
take_turn-Listed t accept_fails_turn up v = v
take_turn-Listed t (packet_turn conn now p held) up v =
    packet_comes-Listed t conn now p held (t.loops conn) refl v
take_turn-Listed t (read_fails_turn conn held) up v = read_fails-Listed t conn held (t.loops conn) v
take_turn-Listed t (wait_throws_turn conn) up v = wait_throws-Listed t conn (t.loops conn) v
take_turn-Listed t (timer_turn conn second now held) up v =
    timer_ends-Listed t conn second now held (t.loops conn) v

pub take_turns-Listed :
    (t : Traffic) (turns : List Turn) → All IsUp turns → Listed t → Listed (take_turns t turns)
take_turns-Listed t [] up v = v
take_turns-Listed t (turn ∷ turns) up v =
    take_turns-Listed (take_turn t turn) turns up.1 (take_turn-Listed t turn up.0 v)

pub start_traffic-Listed : Listed start_traffic
unfolding start_traffic
start_traffic-Listed conn c e fresh = absurd (ground arith)
