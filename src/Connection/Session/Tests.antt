-- ===== src/Connection/Session/Tests.antt =====
-- Requests on a connection at concrete inputs.
use asyncmsg.Base.{
  ℕ, ◌≡◌, ◌≢◌, refl, arith, true, false, Option, none, some, List, [], ◌∷◌, ◌++◌, All, inl, inr,
  ◌==◌, ==_iff, Bool-cases, if◌then◌else◌,
}
use asyncmsg.Error.{returned}
use asyncmsg.Packet.{Packet, packet_id}
use asyncmsg.Connection.{Connection, register_request, finish_request}
use asyncmsg.Connection.Session.{
  Session, session, begin_wait, wait_over, Turn, ask_turn, packet_turn, response_turn, timeout_turn,
  take_turn, take_turns,
}
use asyncmsg.Connection.Session.Tracked.{Answered, IsSent}
use asyncmsg.Connection.Session.Answers.{take_turns-Answered}
use asyncmsg.Connection.Session.Delivery.{begin_wait-returned}

-- A channel that gives out the message that was sent first.
abbrev first_sent : ℕ → List (ℕ × Packet) → Option Packet
first_sent channel [] = none
first_sent channel ((c, q) ∷ xs) = if c == channel then some q else first_sent channel xs

first_sent-IsSent :
    (channel : ℕ) (xs : List (ℕ × Packet)) (q : Packet)
    → first_sent channel xs ≡ some q
    → IsSent channel q xs
first_sent-IsSent channel [] q e = absurd (ground arith)
first_sent-IsSent channel ((c, r) ∷ xs) q e = elim (Bool-cases (c == channel)) [
  | inl this ↦ inl ((==_iff c channel).0 this, ground arith)
  | inr other ↦ inr (first_sent-IsSent channel xs q (ground arith))
]

-- A connection of the device "dev", two requests on it, and the response to the first.
abbrev known : Connection
known = record { device_id = 100 ∷ 101 ∷ 118 ∷ []; last_recv_time = 5; requests = λ id. none }

abbrev request : Packet
request = record {
  cmd = 2;
  seq = 7;
  rsp = false;
  ec = 0;
  device_id = 100 ∷ 101 ∷ 118 ∷ [];
  body = [];
}

abbrev other_request : Packet
other_request = record request { seq = 8 }

abbrev response : Packet
response = record request { rsp = true; body = 1 ∷ [] }

take_turns-Answered_example :
    All Answered
      (take_turns first_sent (session known) (
        ask_turn true request
        ∷ ask_turn true other_request
        ∷ packet_turn 9 response
        ∷ timeout_turn 1
        ∷ response_turn 0
        ∷ [])).results
take_turns-Answered_example =
    take_turns-Answered first_sent first_sent-IsSent known
      (ask_turn true request
        ∷ ask_turn true other_request
        ∷ packet_turn 9 response
        ∷ timeout_turn 1
        ∷ response_turn 0
        ∷ [])
      (λ id. refl)

other_id : packet_id other_request ≢ packet_id request
unfolding packet_id
other_id e = ground arith

-- The first request waits, while the second is asked and runs out of time.
abbrev meanwhile : List Turn
meanwhile = ask_turn true other_request ∷ timeout_turn 1 ∷ []

abbrev before : Session
before = take_turns first_sent (begin_wait (session known) true request) meanwhile

before_open :
    (before.is_open ≡ true)
    × (response.device_id ≡ before.conn.device_id)
    × (first_sent 0 (before.sent ++ (0, response) ∷ []) ≡ some response)
unfolding session begin_wait register_request take_turn wait_over finish_request
before_open = (refl, refl, refl)

begin_wait-returned_example :
    let after = take_turns first_sent before (packet_turn 9 response ∷ response_turn 0 ∷ []) in
    (after.results ≡ before.results ++ (request, returned response) ∷ [])
    × (after.conn.requests (packet_id request) ≡ none)
unfolding session packet_id
begin_wait-returned_example =
    begin_wait-returned first_sent (session known) request response meanwhile 9
      (λ k r e same_id. absurd (ground arith)) (other_id, ((λ e. ground arith), tt)) before_open.0
      refl refl refl before_open.1 before_open.2
