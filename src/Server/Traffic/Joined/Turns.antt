-- ===== src/Server/Traffic/Joined/Turns.antt =====
-- tcp_server.hpp and connection.hpp together: the map of the server, turn by turn.
use asyncmsg.Server.Life.{Host, start, stop_called, handler_runs, accept_ends}
use asyncmsg.Server.Life.Stops.{stop_called-cases}
use asyncmsg.Server.{accept, tcp_server, stop_handler}
use asyncmsg.Base.{
  ap, ◌∙◌, ◌≤◌, suc, ltb, ◌-◌, ◌/◌, ◌/◌, ◌-◌, ltb, Bool, same, arith, ℕ, ◌≡◌, refl, sym, subst,
  some, List, [], ◌∷◌, inl, inr, Bool-cases, is_empty,
}
use asyncmsg.Packet.{Packet}
use asyncmsg.Connection.{
  Connection, active_connection_lifetime_seconds, connection, handle_packet, check_round, deliver,
}
use asyncmsg.Server.Traffic.{
  stop_turn, handler_turn, accept_turn, accept_fails_turn, packet_turn, read_fails_turn, timer_turn,
  timer_turn, read_fails_turn, packet_turn, accept_turn, stop_turn, Host, stop_called, take_turns,
  accept_ends, start, cancelled, Turn, start_traffic, take_turn, accepted, handler_runs, timer_ends,
  read_fails, packet_comes, Loops, running, ended, Traffic, draining, closing, dropped, wait_throws,
  wait_throws_turn, packet_read,
}
use asyncmsg.Server.Traffic.Joined.{
  unreached-IsJoined, call_backs_quiet, deliver-IsQuiet, Same-IsJoined, disconnected-IsJoined,
  reached, while_alive-IsJoined, goes_on-IsJoined, got_device_id-IsJoined, end_loops-IsJoined,
  Serves-set_loops, unmade-set_loops, IsJoined, Serves,
}

-- What the invariant knows of loops that are not over.
module _ (t : Traffic) (conn : ℕ) (v : IsJoined t) (l : Loops) (e : t.loops conn ≡ l) where
  own_id :
      (c : Connection)
      → ((c1 : Connection) → reached l ≡ some c1 → c1 ≡ c)
      → (c1 : Connection) → reached (t.loops conn) ≡ some c1
      → c1.device_id ≡ c.device_id
  own_id c same_one c1 e1 =
      ap (λ (c2 : Connection). c2.device_id) (same_one c1 (ap reached (sym e) ∙ e1))

  was_made : (l ≡ ended → ⊥) → t.made ≤ conn → ⊥
  was_made going le = going (sym e ∙ v.unmade conn le)

module _ (t : Traffic) (conn now : ℕ) (p : Packet) (goes_on : Connection → Loops) (over : Loops)
    (reaches : (c : Connection) → reached (goes_on c) ≡ some c) (v : IsJoined t) (c : Connection)
    (own : (c1 : Connection) → reached (t.loops conn) ≡ some c1 → c1.device_id ≡ c.device_id)
    (made : t.made ≤ conn → ⊥) where
  packet_read-IsJoined : IsJoined (packet_read t conn now p goes_on over c)
  unfolding packet_read handle_packet
  packet_read-IsJoined = elim (Bool-cases (is_empty p.device_id)) [
    | inl unnamed ↦
        rw (unnamed, packet_read, handle_packet)
          (goes_on-IsJoined t conn v c own made c (goes_on c) (reaches c) refl)
    | inr named ↦
        rw (named, packet_read, handle_packet)
          (elim (Bool-cases (is_empty c.device_id)) [
            | inl fresh ↦
                (let c' = record c { device_id = p.device_id; last_recv_time = now } in
                  rw (fresh, packet_read, handle_packet)
                    (Same-IsJoined _ _
                      (call_backs_quiet conn _ (deliver (record c { device_id = p.device_id }) p)
                        (deliver-IsQuiet (record c { device_id = p.device_id }) p))
                      (got_device_id-IsJoined t conn v c own made c' (goes_on c') p.device_id
                        (reaches c') fresh named refl)))
            | inr known ↦
                rw (known, packet_read, handle_packet)
                  (elim (Bool-cases (same c.device_id p.device_id)) [
                    | inl this ↦
                        (let c' = record c { last_recv_time = now } in
                          rw this (
                            Same-IsJoined _ _
                              (call_backs_quiet conn _ (deliver c p) (deliver-IsQuiet c p))
                              (goes_on-IsJoined t conn v c own made c' (goes_on c') (reaches c')
                                refl)))
                    | inr other ↦
                        rw (other, packet_read, handle_packet)
                          (end_loops-IsJoined t conn v c own made over)
                  ])
          ])
  ]

packet_comes-IsJoined :
    (t : Traffic) (conn now : ℕ) (p : Packet) (held : Bool) (l : Loops)
    → t.loops conn ≡ l
    → IsJoined t
    → IsJoined (packet_comes t conn now p held l)
unfolding packet_comes
packet_comes-IsJoined t conn now p held (running c) e v =
    let own = own_id t conn v (running c) e c (λ c1 e1. ground arith) in
    let made = was_made t conn v (running c) e (λ over. ground arith) in
    while_alive-IsJoined t conn v c own made held _
      (packet_read-IsJoined t conn now p running (closing c) (λ c'. refl) v c own made)
packet_comes-IsJoined t conn now p held (cancelled c) e v =
    let own = own_id t conn v (cancelled c) e c (λ c1 e1. ground arith) in
    let made = was_made t conn v (cancelled c) e (λ over. ground arith) in
    while_alive-IsJoined t conn v c own made held _
      (packet_read-IsJoined t conn now p draining ended (λ c'. refl) v c own made)
packet_comes-IsJoined t conn now p held (draining c) e v =
    let own = own_id t conn v (draining c) e c (λ c1 e1. ground arith) in
    let made = was_made t conn v (draining c) e (λ over. ground arith) in
    while_alive-IsJoined t conn v c own made held _
      (packet_read-IsJoined t conn now p draining ended (λ c'. refl) v c own made)
packet_comes-IsJoined t conn now p held (dropped c) e v = v
packet_comes-IsJoined t conn now p held (closing c) e v = v
packet_comes-IsJoined t conn now p held ended e v = v

read_fails-IsJoined :
    (t : Traffic) (conn : ℕ) (held : Bool) (l : Loops)
    → t.loops conn ≡ l
    → IsJoined t
    → IsJoined (read_fails t conn held l)
unfolding read_fails
read_fails-IsJoined t conn held (running c) e v =
    let own = own_id t conn v (running c) e c (λ c1 e1. ground arith) in
    let made = was_made t conn v (running c) e (λ over. ground arith) in
    while_alive-IsJoined t conn v c own made held _
      (end_loops-IsJoined t conn v c own made (closing c))
read_fails-IsJoined t conn held (cancelled c) e v =
    let own = own_id t conn v (cancelled c) e c (λ c1 e1. ground arith) in
    let made = was_made t conn v (cancelled c) e (λ over. ground arith) in
    while_alive-IsJoined t conn v c own made held _ (end_loops-IsJoined t conn v c own made ended)
read_fails-IsJoined t conn held (draining c) e v = v
read_fails-IsJoined t conn held (dropped c) e v = v
read_fails-IsJoined t conn held (closing c) e v = v
read_fails-IsJoined t conn held ended e v = v

wait_throws-IsJoined :
    (t : Traffic) (conn : ℕ) (l : Loops)
    → t.loops conn ≡ l
    → IsJoined t
    → IsJoined (wait_throws t conn l)
unfolding wait_throws
wait_throws-IsJoined t conn (running c) e v = v
wait_throws-IsJoined t conn (cancelled c) e v =
    goes_on-IsJoined t conn v c (own_id t conn v (cancelled c) e c (λ c1 e1. ground arith))
      (was_made t conn v (cancelled c) e (λ over. ground arith)) c (dropped c) refl refl
wait_throws-IsJoined t conn (draining c) e v =
    goes_on-IsJoined t conn v c (own_id t conn v (draining c) e c (λ c1 e1. ground arith))
      (was_made t conn v (draining c) e (λ over. ground arith)) c (dropped c) refl refl
wait_throws-IsJoined t conn (dropped c) e v = v
wait_throws-IsJoined t conn (closing c) e v =
    unreached-IsJoined t conn v c (own_id t conn v (closing c) e c (λ c1 e1. ground arith))
      (was_made t conn v (closing c) e (λ over. ground arith)) (ap reached e)
wait_throws-IsJoined t conn ended e v = v

timer_ends-IsJoined :
    (t : Traffic) (conn second now : ℕ) (held : Bool) (l : Loops)
    → t.loops conn ≡ l
    → IsJoined t
    → IsJoined (timer_ends t conn second now held l)
unfolding timer_ends check_round
timer_ends-IsJoined t conn second now held (running c) e v =
    let own = own_id t conn v (running c) e c (λ c1 e1. ground arith) in
    let made = was_made t conn v (running c) e (λ over. ground arith) in
    while_alive-IsJoined t conn v c own made held _
      (elim (Bool-cases
        (ltb active_connection_lifetime_seconds ((now - c.last_recv_time) / second))) [
          | inr lives ↦ rw lives v
          | inl idle ↦ rw idle (
              disconnected-IsJoined t conn v c.device_id (cancelled c) own (λ le. absurd (made le)))
        ])
timer_ends-IsJoined t conn second now held (cancelled c) e v = v
timer_ends-IsJoined t conn second now held (draining c) e v = v
timer_ends-IsJoined t conn second now held (dropped c) e v = v
timer_ends-IsJoined t conn second now held (closing c) e v =
    let own = own_id t conn v (closing c) e c (λ c1 e1. ground arith) in
    let made = was_made t conn v (closing c) e (λ over. ground arith) in
    while_alive-IsJoined t conn v c own made held _
      (elim (Bool-cases
        (ltb active_connection_lifetime_seconds ((now - c.last_recv_time) / second))) [
          | inr lives ↦ rw lives (unreached-IsJoined t conn v c own made (ap reached e))
          | inl idle ↦
              rw idle
                (disconnected-IsJoined t conn v c.device_id ended own (λ le. absurd (made le)))
        ])
timer_ends-IsJoined t conn second now held ended e v = v

accepted-IsJoined :
    (t : Traffic) (left : List ℕ) (now : ℕ) → IsJoined t → IsJoined (accepted t left now)
unfolding accepted accept_ends accept
accepted-IsJoined t left now v = elim (Bool-cases t.host.accepting) [
  | inr off ↦ simp off v
  | inl on ↦ rw on (record {
    mapped = λ d k e.
        Serves-set_loops t.loops t.made k (running (connection left now [])) d (v.mapped d k e)
          (λ this serves.
            absurd (let gone = v.unmade t.made (omega arith) in ground (arith, serves.1.1)));
    unmade =
        unmade-set_loops t.loops (suc t.made) t.made (running (connection left now []))
          (λ k le. v.unmade k (omega arith)) (λ k le e. absurd (omega arith));
  })
]

stop_called-IsJoined :
    (t : Traffic) (force : Bool)
    → IsJoined t
    → IsJoined (record t { host = stop_called t.host force })
stop_called-IsJoined t force v = elim (stop_called-cases t.host force) [
  | inl none_ ↦ subst (λ (h : Host). IsJoined (record t { host = h })) (sym none_) v
  | inr first ↦
      subst (λ (h : Host). IsJoined (record t { host = h })) (sym first)
        (record { mapped = v.mapped; unmade = v.unmade })
]

handler_runs-IsJoined :
    (t : Traffic) (posted : List Bool)
    → IsJoined t
    → IsJoined (record t { host = handler_runs t.host posted })
unfolding handler_runs stop_handler
handler_runs-IsJoined t [] v = v
handler_runs-IsJoined t (force ∷ later) v = record {
  mapped = λ d k e. absurd (ground arith);
  unmade = v.unmade;
}

take_turn-IsJoined : (t : Traffic) (turn : Turn) → IsJoined t → IsJoined (take_turn t turn)
unfolding take_turn accept_ends
take_turn-IsJoined t (stop_turn force) v = stop_called-IsJoined t force v
take_turn-IsJoined t handler_turn v = handler_runs-IsJoined t t.host.context.posted v
take_turn-IsJoined t (accept_turn left now) v = accepted-IsJoined t left now v
take_turn-IsJoined t accept_fails_turn v = record { mapped = v.mapped; unmade = v.unmade }
take_turn-IsJoined t (packet_turn conn now p held) v =
    packet_comes-IsJoined t conn now p held (t.loops conn) refl v
take_turn-IsJoined t (read_fails_turn conn held) v =
    read_fails-IsJoined t conn held (t.loops conn) refl v
take_turn-IsJoined t (wait_throws_turn conn) v = wait_throws-IsJoined t conn (t.loops conn) refl v
take_turn-IsJoined t (timer_turn conn second now held) v =
    timer_ends-IsJoined t conn second now held (t.loops conn) refl v

start_traffic-IsJoined : IsJoined start_traffic
unfolding start_traffic start tcp_server
start_traffic-IsJoined = record { mapped = λ d k e. absurd (ground arith); unmade = λ k le. refl }

pub take_turns-IsJoined :
    (t : Traffic) (turns : List Turn) → IsJoined t → IsJoined (take_turns t turns)
take_turns-IsJoined t [] v = v
take_turns-IsJoined t (turn ∷ turns) v =
    take_turns-IsJoined (take_turn t turn) turns (take_turn-IsJoined t turn v)

-- Wherever a server has come to, with connections that are accepted, receive, time out and end, with reads that
-- had completed when a check ended, and stops that are called, in whatever order: the connection to which it sends
-- the packets for a device knows itself as a connection of this very device, whose id is not empty, and its
-- loops have not ended with a report or as it was gone. Either it still receives, or a last read of it that had
-- completed when its check ended is processed, or has been.
pub routes-Serves :
    (turns : List Turn) (id : List ℕ) (conn : ℕ)
    → (take_turns start_traffic turns).host.server.connection_map id ≡ some conn
    → Serves (take_turns start_traffic turns).loops id conn
routes-Serves turns id conn e =
    (take_turns-IsJoined start_traffic turns start_traffic-IsJoined).mapped id conn e
