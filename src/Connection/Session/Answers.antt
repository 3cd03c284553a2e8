-- ===== src/Connection/Session/Answers.antt =====
-- connection.hpp: which response ends the wait of a request.
use asyncmsg.Base.{
  ne→==, ==_refl, ==_iff, if◌then◌else◌, ◌==◌, ◌∙◌, ap, All-append, Bool, false, sym, arith, ◌++◌,
  ℕ, ◌≡◌, refl, subst, true, Option, none, some, List, [], ◌∷◌, All, inl, inr, Bool-cases,
}
use mathlib.Core.Option.{some-injective}
use asyncmsg.Error.{invalid_state_error, thrown}
use asyncmsg.Packet.{Packet, packet_id}
use asyncmsg.Connection.{
  register_request, finish_request, Connection, Handled, handled, refused, handle_packet,
}
use asyncmsg.Connection.Session.{
  while_waiting, exception_turn, timeout_turn, response_turn, packet_turn, ask_turn, take_turns,
  wait_over, session, Turn, begin_wait, take_turn, packet_comes, give_response, Session, sends,
}
use asyncmsg.Connection.Session.Tracked.{
  IsAnswer, Answered, IsSent, IsTracked, IsMeant, ToRegistered, Routes, All-IsSent, All-map_over,
  handle_packet-Routes,
}

-- A new channel takes no other request's place.
asked_still :
    (s : Session) (p q : Packet) (channel : ℕ)
    → IsTracked s
    → s.asked channel ≡ some q
    → (if s.made == channel then some p else s.asked channel) ≡ some q
asked_still s p q channel v e = elim (Bool-cases (s.made == channel)) [
  | inr other ↦ rw other e
  | inl this ↦ absurd (
      let here = (==_iff s.made channel).0 this in
      let gone = v.unmade channel (omega (arith, here)) in ground (arith, gone))
]

begin_wait-IsTracked :
    (s : Session) (alive : Bool) (p : Packet) → IsTracked s → IsTracked (begin_wait s alive p)
unfolding begin_wait register_request
begin_wait-IsTracked s false p v = record {
  registered = v.registered;
  delivered = v.delivered;
  unmade = v.unmade;
  answered =
      All-append Answered s.results ((p, thrown invalid_state_error) ∷ []) v.answered (tt, tt);
}
begin_wait-IsTracked s true p v = record {
  registered = λ id channel e. elim (Bool-cases (packet_id p == id)) [
    | inl this ↦
        (let here : s.made ≡ channel = ground arith in
          (
            p,
            subst (λ k. (if s.made == k then some p else s.asked k) ≡ some p) here
                (rw (==_refl s.made) refl),
            (==_iff (packet_id p) id).0 this,
          ))
    | inr other ↦
        (let old = v.registered id channel (ground arith) in
          (old.0, asked_still s p old.0 channel v old.1, old.2))
  ];
  delivered =
      All-map_over (IsMeant s.asked) _ s.sent (λ (c, q) (r, e, a). (r, asked_still s p r c v e, a))
        v.delivered;
  unmade = λ channel le.
      (let other : (s.made == channel) ≡ false = ne→== s.made channel (omega (arith, le)) in
        rw other (v.unmade channel (omega arith)));
  answered = v.answered;
}

packet_comes-IsTracked :
    (s : Session) (now : ℕ) (p : Packet) → IsTracked s → IsTracked (packet_comes s now p)
unfolding packet_comes
packet_comes-IsTracked s now p v = elim (Bool-cases s.is_open) [
  | inr closed ↦ simp closed v
  | inl opened ↦ simp opened (go (handle_packet now s.conn p) (handle_packet-Routes now s.conn p))
]
  where
    go :
        (h : Handled)
        → Routes s.conn h
        → IsTracked (elim h [
          | handled c events ↦ record s { conn = c; sent = s.sent ++ sends events }
          | refused ↦ record s { is_open = false }
        ])
    go (handled c events) r = record {
      registered = λ id channel e. v.registered id channel (ap (λ f. f id) (sym r.0) ∙ e);
      delivered = All-append (IsMeant s.asked) s.sent (sends events) v.delivered (
          All-map_over (ToRegistered s.conn.requests) (IsMeant s.asked) (sends events)
            (λ (channel, q) (known, response).
              let owner = v.registered (packet_id q) channel known in
              (owner.0, owner.1, (sym owner.2, response)))
            r.1);
      unmade = v.unmade;
      answered = v.answered;
    }
    go refused r = record {
      registered = v.registered;
      delivered = v.delivered;
      unmade = v.unmade;
      answered = v.answered;
    }

-- The results stay right when a wait ends rightly.
wait_over-IsTracked :
    (s : Session) (channel : ℕ) (p : Packet) (response : Option Packet)
    → Answered (p, (finish_request s.conn p response).1)
    → IsTracked s
    → IsTracked (wait_over s channel p response)
unfolding wait_over finish_request
wait_over-IsTracked s channel p none right v = record {
  registered = v.registered;
  delivered = v.delivered;
  unmade = v.unmade;
  answered = All-append Answered s.results _ v.answered (right, tt);
}
wait_over-IsTracked s channel p (some q) right v = record {
  registered = λ id k e. v.registered id k (elim (Bool-cases (packet_id p == id)) [
    | inl this ↦ absurd (ground arith)
    | inr other ↦ ground arith
  ]);
  delivered = v.delivered;
  unmade = v.unmade;
  answered = All-append Answered s.results _ v.answered (right, tt);
}

while_waiting-IsTracked :
    (s : Session) (asks : Option Packet) (is_over : Bool) (next : Packet → Session)
    → ((p : Packet) → asks ≡ some p → IsTracked (next p))
    → IsTracked s
    → IsTracked (while_waiting s asks is_over next)
while_waiting-IsTracked s (some p) false next h v = h p refl
while_waiting-IsTracked s (some p) true next h v = v
while_waiting-IsTracked s none is_over next h v = v

module _ (receive : ℕ → List (ℕ × Packet) → Option Packet)
    (receives_sent : (channel : ℕ) (xs : List (ℕ × Packet)) (q : Packet)
      → receive channel xs ≡ some q
      → IsSent channel q xs) where
  give_response-IsTracked :
      (s : Session) (channel : ℕ) (p : Packet) (came : Option Packet)
      → receive channel s.sent ≡ came
      → s.asked channel ≡ some p
      → IsTracked s
      → IsTracked (give_response s channel p came)
  unfolding finish_request
  give_response-IsTracked s channel p none e asks v = v
  give_response-IsTracked s channel p (some q) e asks v =
      let meant =
        All-IsSent s.asked channel q s.sent v.delivered (receives_sent channel s.sent q e) in
      let this : meant.0 ≡ p = some-injective meant.0 p (sym meant.1 ∙ asks) in
      wait_over-IsTracked s channel p (some q) (subst (λ r. IsAnswer r q) this meant.2) v

  take_turn-IsTracked :
      (s : Session) (turn : Turn) → IsTracked s → IsTracked (take_turn receive s turn)
  unfolding take_turn finish_request
  take_turn-IsTracked s (ask_turn alive p) v = begin_wait-IsTracked s alive p v
  take_turn-IsTracked s (packet_turn now p) v = packet_comes-IsTracked s now p v
  take_turn-IsTracked s (response_turn channel) v =
      while_waiting-IsTracked s (s.asked channel) (s.over channel)
        (λ p. give_response s channel p (receive channel s.sent))
        (λ p asks. give_response-IsTracked s channel p (receive channel s.sent) refl asks v) v
  take_turn-IsTracked s (timeout_turn channel) v =
      while_waiting-IsTracked s (s.asked channel) (s.over channel) (λ p. wait_over s channel p none)
        (λ p asks. wait_over-IsTracked s channel p none tt v) v
  take_turn-IsTracked s (exception_turn channel) v = record {
    registered = v.registered;
    delivered = v.delivered;
    unmade = v.unmade;
    answered = v.answered;
  }

  take_turns-IsTracked :
      (s : Session) (turns : List Turn) → IsTracked s → IsTracked (take_turns receive s turns)
  take_turns-IsTracked s [] v = v
  take_turns-IsTracked s (turn ∷ turns) v =
      take_turns-IsTracked (take_turn receive s turn) turns (take_turn-IsTracked s turn v)

  -- Many requests wait on one connection, on which none waited before, and a channel gives out only
  -- what was sent on it. Whatever calls, packets, timeouts and ends of waits come in whatever order: a
  -- request that gets a response gets one with its own id.
  pub take_turns-Answered :
      (c : Connection) (turns : List Turn)
      → ((id : ℕ) → c.requests id ≡ none)
      → All Answered (take_turns receive (session c) turns).results
  unfolding session
  take_turns-Answered c turns empty =
      (take_turns-IsTracked (session c) turns (record {
        registered = λ id channel e. absurd (let gone = empty id in ground arith);
        delivered = tt;
        unmade = λ channel le. refl;
        answered = tt;
      })).answered
