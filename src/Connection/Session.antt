-- ===== src/Connection/Session.antt =====
-- connection.hpp: the life of a connection on which many requests wait at the same time. A channel is a
-- number; a new one is made with the number `made`. What a channel gives to the coroutine that waits on
-- it is asio's: `receive` is this for a channel, given all that was sent so far.
pub mod Tracked
pub mod Answers
pub mod Waiting
pub mod Delivery
mod Tests
use asyncmsg.Base.{
  ℕ, suc, ◌==◌, Bool, true, false, Option, none, some, List, [], ◌∷◌, ◌++◌, if◌then◌else◌,
}
use asyncmsg.Error.{Error, Result, returned, thrown}
use asyncmsg.Packet.{Packet}
use asyncmsg.Connection.{
  Connection, Event, got_device_id, receive_request, disconnected, try_send, handled, refused,
  handle_packet, register_request, finish_request,
}

-- A connection, whether it still receives, and its calls of `send_packet_and_wait_rsp`: for each
-- channel the request and whether its wait is over, what was sent on the channels, and the results so
-- far.
pub record Session : Type 0 where
  pub conn : Connection
  pub is_open : Bool
  pub made : ℕ
  pub asked : ℕ → Option Packet
  pub over : ℕ → Bool
  pub sent : List (ℕ × Packet)
  pub results : List (Packet × Result Packet)

unfoldable pub session : Connection → Session
session conn = record {
  conn = conn;
  is_open = true;
  made = 0;
  asked = λ channel. none;
  over = λ channel. false;
  sent = [];
  results = [];
}

-- What of the events goes to channels.
abbrev pub sends : List Event → List (ℕ × Packet)
sends [] = []
sends (got_device_id id ∷ es) = sends es
sends (receive_request id p ∷ es) = sends es
sends (disconnected id ∷ es) = sends es
sends (try_send channel p ∷ es) = (channel, p) ∷ sends es

-- A request has been written.
unfoldable pub begin_wait : Session → Bool → Packet → Session
begin_wait s alive p = elim (register_request s.conn alive p s.made) [
  | returned c ↦ record s {
    conn = c;
    made = suc s.made;
    asked = λ k. if s.made == k then some p else s.asked k;
    over = λ k. if s.made == k then false else s.over k;
  }
  | thrown e ↦ record s { results = s.results ++ (p, thrown e) ∷ [] }
]

-- A packet is received.
unfoldable pub packet_comes : Session → ℕ → Packet → Session
packet_comes s now p =
    if s.is_open
    then elim (handle_packet now s.conn p) [
      | handled c events ↦ record s { conn = c; sent = s.sent ++ sends events }
      | refused ↦ record s { is_open = false }
    ]
    else s

-- The wait of a request is over, with what `finish_request` makes of it.
unfoldable pub wait_over : Session → ℕ → Packet → Option Packet → Session
wait_over s channel p response =
    let finished = finish_request s.conn p response in
    record s {
      conn = finished.0;
      over = λ k. if channel == k then true else s.over k;
      results = s.results ++ (p, finished.1) ∷ [];
    }

-- What can happen: a call, a packet, and the three ends of a wait: a message from the channel, the
-- timer, and an exception of the channel, which is not recorded.
pub data Turn : Type 0 where
  ask_turn : (alive : Bool) → Packet → Turn
  packet_turn : (now : ℕ) → Packet → Turn
  response_turn : (channel : ℕ) → Turn
  timeout_turn : (channel : ℕ) → Turn
  exception_turn : (channel : ℕ) → Turn

-- The turns of a request that waits; the others have none.
abbrev pub while_waiting : Session → Option Packet → Bool → (Packet → Session) → Session
while_waiting s (some p) false next = next p
while_waiting s (some p) true next = s
while_waiting s none is_over next = s

abbrev pub give_response : Session → ℕ → Packet → Option Packet → Session
give_response s channel p (some q) = wait_over s channel p (some q)
give_response s channel p none = s

module _ (receive : ℕ → List (ℕ × Packet) → Option Packet) where
  unfoldable pub take_turn : Session → Turn → Session
  take_turn s (ask_turn alive p) = begin_wait s alive p
  take_turn s (packet_turn now p) = packet_comes s now p
  take_turn s (response_turn channel) =
      while_waiting s (s.asked channel) (s.over channel)
        (λ p. give_response s channel p (receive channel s.sent))
  take_turn s (timeout_turn channel) =
      while_waiting s (s.asked channel) (s.over channel) (λ p. wait_over s channel p none)
  take_turn s (exception_turn channel) = record s {
    over = λ k. if channel == k then true else s.over k;
  }

  abbrev pub take_turns : Session → List Turn → Session
  take_turns s [] = s
  take_turns s (turn ∷ turns) = take_turns (take_turn s turn) turns
