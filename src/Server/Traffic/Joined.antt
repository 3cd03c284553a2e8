-- ===== src/Server/Traffic/Joined.antt =====
-- tcp_server.hpp and connection.hpp together: the connections that the map of the server leads to.
pub mod Turns
use asyncmsg.Server.Life.{Host, start, stop_called, handler_runs, accept_ends}
use asyncmsg.Server.Life.Stops.{stop_called-cases}
use asyncmsg.Server.{Server, holds, points_to}
use asyncmsg.Server.Connections.{set-mapped, unset-mapped}
use asyncmsg.Base.{
  suc, if◌then◌else◌, ltb, ◌-◌, ◌/◌, ◌/◌, ◌-◌, ltb, Bool, ==_refl, same_refl, ap, same, true, ◌∙◌,
  arith, ℕ, ◌≤◌, ◌≡◌, refl, sym, subst, false, some, List, [], ◌∷◌, All, inl, inr, Bool-cases, ◌==◌,
  ==_iff, is_empty, Option-cases, Option, none,
}
use asyncmsg.Packet.{Packet, packet_id}
use asyncmsg.Connection.{
  active_connection_lifetime_seconds, Connection, connection, Event, got_device_id, receive_request,
  disconnected, Handled, handled, refused, handle_packet, check_round, deliver,
}
use asyncmsg.Connection
use asyncmsg.Server.Traffic.{
  stop_turn, handler_turn, accept_turn, accept_fails_turn, packet_turn, read_fails_turn, timer_turn,
  timer_turn, read_fails_turn, packet_turn, accept_turn, stop_turn, Host, stop_called, take_turns,
  accept_ends, start, cancelled, Turn, start_traffic, take_turn, accepted, handler_runs, timer_ends,
  read_fails, packet_comes, on_got_device_id, end_loops, on_disconnected, Loops, running, ended,
  Traffic, set_loops, call_back, call_backs, while_alive, alive, draining, dropped, closing,
}

-- The connection behind loops that can be routed to.
abbrev pub reached : Loops → Option Connection
reached (running c) = some c
reached (cancelled c) = none
reached (draining c) = some c
reached (dropped c) = some c
reached (closing c) = none
reached ended = none

-- A connection of the device with this id: it receives; or a last read of it that had completed when its check
-- ended is processed, or has been.
abbrev pub Serves : (ℕ → Loops) → List ℕ → ℕ → Type 0
Serves loops id conn =
    (is_empty id ≡ false)
    × ((c : Connection) × (reached (loops conn) ≡ some c) × (c.device_id ≡ id))

-- The map leads to what serves; and no connection is there before it is made.
pub record IsJoined (t : Traffic) : Type 0 where
  pub mapped :
      (id : List ℕ) (conn : ℕ)
      → t.host.server.connection_map id ≡ some conn
      → Serves t.loops id conn
  pub unmade : (conn : ℕ) → t.made ≤ conn → t.loops conn ≡ ended

-- One connection changes, and the others serve as before.
pub Serves-set_loops :
    (loops : ℕ → Loops) (conn k : ℕ) (l : Loops) (id : List ℕ)
    → Serves loops id k
    → (conn ≡ k
        → Serves loops id conn
        → (c : Connection) × (reached l ≡ some c) × (c.device_id ≡ id))
    → Serves (set_loops loops conn l) id k
Serves-set_loops loops conn k l id h new = elim (Bool-cases (conn == k)) [
  | inr other ↦ rw other h
  | inl this ↦
      (let e : conn ≡ k = (==_iff conn k).0 this in
        rw this (h.0, new e (subst (Serves loops id) (sym e) h)))
]

pub unmade-set_loops :
    (loops : ℕ → Loops) (made conn : ℕ) (l : Loops)
    → ((k : ℕ) → made ≤ k → loops k ≡ ended)
    → ((k : ℕ) → made ≤ k → conn ≡ k → l ≡ ended)
    → (k : ℕ) → made ≤ k
    → set_loops loops conn l k ≡ ended
unmade-set_loops loops made conn l h new k le = elim (Bool-cases (conn == k)) [
  | inr other ↦ rw other (h k le)
  | inl this ↦ rw this (new k le ((==_iff conn k).0 this))
]

-- The server holds what it has a route to.
alive-routed :
    (s : Server) (conn : ℕ) (c : Connection) (held : Bool)
    → s.connection_map c.device_id ≡ some conn
    → alive s conn c held ≡ false
    → ⊥
unfolding alive points_to
alive-routed s conn c held routed gone =
    let yes : alive s conn c held ≡ true = elim (Bool-cases (holds conn s.connections)) [
      | inl listed ↦ rw (listed, alive) refl
      | inr unlisted ↦ rw (unlisted, routed, alive) (rw (==_refl conn) refl)
    ] in
    ground (arith, yes)

-- Only the callbacks change the map, and they change no connection.
abbrev pub IsQuiet : Event → Type 0
IsQuiet (got_device_id id) = ⊥
IsQuiet (receive_request id p) = Unit
IsQuiet (disconnected id) = ⊥
IsQuiet (Connection.try_send channel p) = Unit

-- What the invariant reads.
abbrev pub Same : Traffic → Traffic → Type 0
Same t t' = (t'.host ≡ t.host) × (t'.loops ≡ t.loops) × (t'.made ≡ t.made)

pub call_backs_quiet :
    (conn : ℕ) (t : Traffic) (es : List Event) → All IsQuiet es → Same t (call_backs conn t es)
unfolding call_back
call_backs_quiet conn t [] h = (refl, refl, refl)
call_backs_quiet conn t (got_device_id id ∷ es) h = absurd h.0
call_backs_quiet conn t (receive_request id p ∷ es) h =
    call_backs_quiet conn (call_back conn t (receive_request id p)) es h.1
call_backs_quiet conn t (disconnected id ∷ es) h = absurd h.0
call_backs_quiet conn t (Connection.try_send channel p ∷ es) h =
    call_backs_quiet conn (call_back conn t (Connection.try_send channel p)) es h.1

pub deliver-IsQuiet : (c : Connection) (p : Packet) → All IsQuiet (deliver c p)
unfolding deliver packet_id
deliver-IsQuiet c p = elim (Bool-cases p.rsp) [
  | inr request ↦ rw request (tt, tt)
  | inl response ↦ rw response (elim (Option-cases (c.requests (packet_id p))) [
    | inl unknown ↦ rw unknown tt
    | inr (channel, known) ↦ rw known (tt, tt)
  ])
]

pub Same-IsJoined : (t t' : Traffic) → Same t t' → IsJoined t → IsJoined t'
Same-IsJoined t t' e v = record { mapped = rw (e.0, e.1) v.mapped; unmade = rw (e.1, e.2) v.unmade }

module _ (t : Traffic) (conn : ℕ) (v : IsJoined t) where
  -- The end of a connection takes its device off the map.
  pub disconnected-IsJoined :
      (id : List ℕ) (l : Loops)
      → ((c : Connection) → reached (t.loops conn) ≡ some c → c.device_id ≡ id)
      → (t.made ≤ conn → l ≡ ended)
      → IsJoined (call_back conn (record t { loops = set_loops t.loops conn l }) (disconnected id))
  unfolding call_back on_disconnected
  disconnected-IsJoined id l own made = record {
    mapped = λ d k e.
        (let u = unset-mapped t.host.server.connection_map id d k e in
          Serves-set_loops t.loops conn k l d (v.mapped d k u.1) (λ this serves. absurd (
            let same_id : same id d ≡ true =
              subst (λ i. same id i ≡ true) (sym (own serves.1.0 serves.1.1) ∙ serves.1.2)
                (same_refl id) in
            ground (arith, u.0))));
    unmade =
        unmade-set_loops t.loops t.made conn l v.unmade
          (λ k le e. made (subst (λ j. t.made ≤ j) (sym e) le));
  }

  -- The loops of a connection that is there, and knows its id if it can be routed to.
  module _ (c : Connection)
      (own : (c1 : Connection) → reached (t.loops conn) ≡ some c1 → c1.device_id ≡ c.device_id)
      (was_made : t.made ≤ conn → ⊥) where
    there-unmade : (l : Loops) (k : ℕ) → t.made ≤ k → set_loops t.loops conn l k ≡ ended
    there-unmade l =
        unmade-set_loops t.loops t.made conn l v.unmade
          (λ k le e. absurd (was_made (subst (λ j. t.made ≤ j) (sym e) le)))

    -- The connection goes on under the same id.
    pub goes_on-IsJoined :
        (c' : Connection) (l : Loops)
        → reached l ≡ some c'
        → c'.device_id ≡ c.device_id
        → IsJoined (record t { loops = set_loops t.loops conn l })
    goes_on-IsJoined c' l reaches same_id = record {
      mapped = λ d k e.
          Serves-set_loops t.loops conn k l d (v.mapped d k e) (λ this serves.
            (c', reaches, same_id ∙ (sym (own serves.1.0 serves.1.1) ∙ serves.1.2)));
      unmade = there-unmade l;
    }

    -- It gets its id, and is entered in the map if the server still has it.
    pub got_device_id-IsJoined :
        (c' : Connection) (l : Loops) (id : List ℕ)
        → reached l ≡ some c'
        → is_empty c.device_id ≡ true
        → is_empty id ≡ false
        → c'.device_id ≡ id
        → IsJoined
            (call_back conn (record t { loops = set_loops t.loops conn l }) (got_device_id id))
    unfolding call_back on_got_device_id
    got_device_id-IsJoined c' l id reaches fresh named is_own =
        let others : (d : List ℕ) (k : ℕ)
            → t.host.server.connection_map d ≡ some k
            → Serves (set_loops t.loops conn l) d k =
          λ d k e. Serves-set_loops t.loops conn k l d (v.mapped d k e) (λ this serves. absurd (
            let e1 = ap is_empty (sym (own serves.1.0 serves.1.1) ∙ serves.1.2) in
            ground (arith, e1, serves.0))) in
        elim (Bool-cases (holds conn t.host.server.connections)) [
          | inr missing ↦ rw missing (record { mapped = others; unmade = there-unmade l })
          | inl found ↦ rw found (record {
            mapped = λ d k e. elim (set-mapped t.host.server.connection_map id d conn k e) [
              | inr old ↦ others d k old
              | inl (this, new) ↦ (
                subst (λ i. is_empty i ≡ false) this named,
                (
                  c',
                  subst (λ j. reached (set_loops t.loops conn l j) ≡ some c') new
                      (rw (==_refl conn) reaches),
                  is_own ∙ this,
                ),
              )
            ];
            unmade = there-unmade l;
          })
        ]

    pub end_loops-IsJoined : (l : Loops) → IsJoined (end_loops t conn c l)
    unfolding end_loops
    end_loops-IsJoined l = disconnected-IsJoined c.device_id l own (λ le. absurd (was_made le))

    -- Loops that cannot be routed to end.
    pub unreached-IsJoined :
        reached (t.loops conn) ≡ none → IsJoined (record t { loops = set_loops t.loops conn ended })
    unreached-IsJoined unreached = record {
      mapped = λ d k e.
          Serves-set_loops t.loops conn k ended d (v.mapped d k e)
            (λ this serves. absurd (let e1 = serves.1.1 in ground (arith, e1)));
      unmade = there-unmade ended;
    }

    -- A connection that is gone has no route.
    pub while_alive-IsJoined :
        (held : Bool) (next : Traffic) → IsJoined next → IsJoined (while_alive t conn c held next)
    unfolding while_alive alive points_to
    while_alive-IsJoined held next w = elim (Bool-cases (alive t.host.server conn c held)) [
      | inl lives ↦ rw (lives, while_alive) w
      | inr gone ↦
          rw (gone, while_alive)
            (record {
              mapped = λ d k e.
                  Serves-set_loops t.loops conn k ended d (v.mapped d k e) (λ this serves. absurd (
                    let id : c.device_id ≡ d = sym (own serves.1.0 serves.1.1) ∙ serves.1.2 in
                    let routed : t.host.server.connection_map c.device_id ≡ some conn =
                      ap t.host.server.connection_map id ∙ (e ∙ ap some (sym this)) in
                    alive-routed t.host.server conn c held routed gone));
              unmade = there-unmade ended;
            })
    ]
