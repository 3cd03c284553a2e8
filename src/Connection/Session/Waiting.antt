-- ===== src/Connection/Session/Waiting.antt =====
-- connection.hpp: a request that waits while other things happen on its connection.
use asyncmsg.Base.{
  ◌<◌, ℕ, ◌≡◌, ◌≢◌, refl, sym, ap, ◌∙◌, arith, Bool, true, false, Option, none, some, List, [], ◌∷◌,
  ◌++◌, All, inl, inr, Bool-cases, ◌==◌, ne→==, if◌then◌else◌,
}
use mathlib.Core.Option.{some-injective}
use asyncmsg.Packet.{Packet, packet_id}
use asyncmsg.Connection.{Handled, handled, refused, handle_packet, register_request, finish_request}
use asyncmsg.Connection.Session.{
  Session, sends, begin_wait, packet_comes, wait_over, give_response, while_waiting, Turn, ask_turn,
  packet_turn, response_turn, timeout_turn, exception_turn, take_turn, take_turns,
}
use asyncmsg.Connection.Session.Tracked.{Routes, handle_packet-Routes}

-- The request `p` waits on the channel, and no other request with its id does.
pub record IsWaiting (p : Packet) (channel : ℕ) (s : Session) : Type 0 where
  pub asks : s.asked channel ≡ some p
  pub goes_on : s.over channel ≡ false
  pub registered : s.conn.requests (packet_id p) ≡ some channel
  pub alone :
      (k : ℕ) (q : Packet)
      → (channel == k) ≡ false
      → s.asked k ≡ some q
      → packet_id q ≡ packet_id p
      → s.over k ≡ true
  pub was_made : channel < s.made

-- A turn that is not an end of this wait, and no call with the same id.
abbrev pub IsOther : Packet → ℕ → Turn → Type 0
IsOther p channel (ask_turn alive q) = packet_id q ≢ packet_id p
IsOther p channel (packet_turn now q) = Unit
IsOther p channel (response_turn k) = channel ≢ k
IsOther p channel (timeout_turn k) = channel ≢ k
IsOther p channel (exception_turn k) = channel ≢ k

pub if_true : {A : Type 0} {b : Bool} {x : A} (y : A) → b ≡ true → (if b then x else y) ≡ x
if_true y e = rw e refl

pub if_false : {A : Type 0} {b : Bool} (x : A) {y : A} → b ≡ false → (if b then x else y) ≡ y
if_false x e = rw e refl

module _ (p : Packet) (channel : ℕ) where
  -- A call with another id.
  begin_wait-IsWaiting :
      (s : Session) (alive : Bool) (q : Packet)
      → packet_id q ≢ packet_id p
      → IsWaiting p channel s
      → IsWaiting p channel (begin_wait s alive q)
  unfolding begin_wait register_request
  begin_wait-IsWaiting s false q other w = record {
    asks = w.asks;
    goes_on = w.goes_on;
    registered = w.registered;
    alone = w.alone;
    was_made = w.was_made;
  }
  begin_wait-IsWaiting s true q other w =
      let here = ne→== s.made channel (omega (arith, w.was_made)) in
      record {
        asks = rw here w.asks;
        goes_on = rw here w.goes_on;
        registered = rw (ne→== (packet_id q) (packet_id p) other) w.registered;
        alone = λ k r diff asks same_id. elim (Bool-cases (s.made == k)) [
          | inl this ↦ absurd (
              let e : q ≡ r = some-injective q r (sym (if_true (s.asked k) this) ∙ asks) in
              other (ap packet_id e ∙ same_id))
          | inr old ↦ rw old (w.alone k r diff (sym (if_false (some q) old) ∙ asks) same_id)
        ];
        was_made = omega (arith, w.was_made);
      }

  -- The end of another wait.
  wait_over-IsWaiting :
      (s : Session) (k : ℕ) (q : Packet) (response : Option Packet)
      → channel ≢ k
      → s.asked k ≡ some q
      → s.over k ≡ false
      → IsWaiting p channel s
      → IsWaiting p channel (wait_over s k q response)
  unfolding wait_over finish_request
  wait_over-IsWaiting s k q response other asks goes_on w =
      let apart : (channel == k) ≡ false = ne→== channel k other in
      let here : (k == channel) ≡ false = ne→== k channel (λ e. other (sym e)) in
      let other_id : packet_id q ≡ packet_id p → ⊥ =
        λ e. absurd (let ended = w.alone k q apart asks e in ground (arith, ended, goes_on)) in
      let alone : (j : ℕ) (r : Packet)
          → (channel == j) ≡ false
          → s.asked j ≡ some r
          → packet_id r ≡ packet_id p
          → (if k == j then true else s.over j) ≡ true =
        λ j r diff asks_r same_id. elim (Bool-cases (k == j)) [
          | inl this ↦ rw this refl
          | inr old ↦ rw old (w.alone j r diff asks_r same_id)
        ] in
      go response (ne→== (packet_id q) (packet_id p) other_id) here alone
    where
      go :
          (response : Option Packet)
          → (packet_id q == packet_id p) ≡ false
          → (k == channel) ≡ false
          → ((j : ℕ) (r : Packet)
              → (channel == j) ≡ false
              → s.asked j ≡ some r
              → packet_id r ≡ packet_id p
              → (if k == j then true else s.over j) ≡ true)
          → IsWaiting p channel (record s {
            conn = (finish_request s.conn q response).0;
            over = λ j. if k == j then true else s.over j;
            results = s.results ++ (q, (finish_request s.conn q response).1) ∷ [];
          })
      go none ids here alone = record {
        asks = w.asks;
        goes_on = rw here w.goes_on;
        registered = w.registered;
        alone = alone;
        was_made = w.was_made;
      }
      go (some r) ids here alone = record {
        asks = w.asks;
        goes_on = rw here w.goes_on;
        registered = rw ids w.registered;
        alone = alone;
        was_made = w.was_made;
      }

  packet_comes-IsWaiting :
      (s : Session) (now : ℕ) (q : Packet)
      → IsWaiting p channel s
      → IsWaiting p channel (packet_comes s now q)
  unfolding packet_comes
  packet_comes-IsWaiting s now q w = elim (Bool-cases s.is_open) [
    | inr closed ↦ simp closed w
    | inl opened ↦ simp opened (go (handle_packet now s.conn q) (handle_packet-Routes now s.conn q))
  ]
    where
      go :
          (h : Handled)
          → Routes s.conn h
          → IsWaiting p channel (elim h [
            | handled c events ↦ record s { conn = c; sent = s.sent ++ sends events }
            | refused ↦ record s { is_open = false }
          ])
      go (handled c events) r = record {
        asks = w.asks;
        goes_on = w.goes_on;
        registered = ap (λ f. f (packet_id p)) r.0 ∙ w.registered;
        alone = w.alone;
        was_made = w.was_made;
      }
      go refused r = record {
        asks = w.asks;
        goes_on = w.goes_on;
        registered = w.registered;
        alone = w.alone;
        was_made = w.was_made;
      }

  while_waiting-IsWaiting :
      (s : Session) (k : ℕ) (asks : Option Packet) (is_over : Bool) (next : Packet → Session)
      → ((q : Packet) → asks ≡ some q → is_over ≡ false → IsWaiting p channel (next q))
      → IsWaiting p channel s
      → IsWaiting p channel (while_waiting s asks is_over next)
  while_waiting-IsWaiting s k (some q) false next h w = h q refl refl
  while_waiting-IsWaiting s k (some q) true next h w = w
  while_waiting-IsWaiting s k none is_over next h w = w

  give_response-IsWaiting :
      (s : Session) (k : ℕ) (q : Packet) (came : Option Packet)
      → channel ≢ k
      → s.asked k ≡ some q
      → s.over k ≡ false
      → IsWaiting p channel s
      → IsWaiting p channel (give_response s k q came)
  give_response-IsWaiting s k q none other asks goes_on w = w
  give_response-IsWaiting s k q (some r) other asks goes_on w =
      wait_over-IsWaiting s k q (some r) other asks goes_on w

module _ (receive : ℕ → List (ℕ × Packet) → Option Packet) (p : Packet) (channel : ℕ) where
  take_turn-IsWaiting :
      (s : Session) (turn : Turn)
      → IsOther p channel turn
      → IsWaiting p channel s
      → IsWaiting p channel (take_turn receive s turn)
  unfolding take_turn
  take_turn-IsWaiting s (ask_turn alive q) other w =
      begin_wait-IsWaiting p channel s alive q other w
  take_turn-IsWaiting s (packet_turn now q) other w = packet_comes-IsWaiting p channel s now q w
  take_turn-IsWaiting s (response_turn k) other w =
      while_waiting-IsWaiting p channel s k (s.asked k) (s.over k)
        (λ q. give_response s k q (receive k s.sent))
        (λ q asks goes_on.
          give_response-IsWaiting p channel s k q (receive k s.sent) other asks goes_on w)
        w
  take_turn-IsWaiting s (timeout_turn k) other w =
      while_waiting-IsWaiting p channel s k (s.asked k) (s.over k) (λ q. wait_over s k q none)
        (λ q asks goes_on. wait_over-IsWaiting p channel s k q none other asks goes_on w) w
  take_turn-IsWaiting s (exception_turn k) other w = record {
    asks = w.asks;
    goes_on = rw (ne→== k channel (λ e. other (sym e))) w.goes_on;
    registered = w.registered;
    alone = λ j r diff asks same_id. elim (Bool-cases (k == j)) [
      | inl this ↦ rw this refl
      | inr old ↦ rw old (w.alone j r diff asks same_id)
    ];
    was_made = w.was_made;
  }

  pub take_turns-IsWaiting :
      (s : Session) (turns : List Turn)
      → All (IsOther p channel) turns
      → IsWaiting p channel s
      → IsWaiting p channel (take_turns receive s turns)
  take_turns-IsWaiting s [] other w = w
  take_turns-IsWaiting s (turn ∷ turns) other w =
      take_turns-IsWaiting (take_turn receive s turn) turns other.1
        (take_turn-IsWaiting s turn other.0 w)
