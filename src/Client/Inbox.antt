-- ===== src/Client/Inbox.antt =====
-- tcp_client.hpp: a client over its whole life with the requests that it receives and the waits for
-- them, in any order.
pub mod Memory
pub mod Firsts
pub mod Delivery
mod Tests
use asyncmsg.Base.{ℕ, Option, none, some, List, [], ◌∷◌, ◌++◌}
use asyncmsg.Packet.{Packet}
use asyncmsg.Client.{Received, received, null_dereference, on_receive_request, wait_request}
use asyncmsg.Client.Life.{Host, Step, take_step}

-- The client, the replies that it has sent, and the channels and packets that it has passed on.
pub record Inbox : Type 0 where
  pub host : Host
  pub replies : List Packet
  pub passed : List (ℕ × Packet)

-- What can happen: a step of the life, `on_receive_request` with the device id of the connection, and a
-- call of `wait_request` with a new channel.
pub data Turn : Type 0 where
  life_turn : Step → Turn
  request_turn : List ℕ → Packet → Turn
  wait_turn : (cmd fresh : ℕ) → Turn

-- The end of `on_receive_request`; `none` is the call through the null pointer.
unfoldable pub receive_ends : Inbox → Packet → ℕ → Received → Option Inbox
receive_ends b reply generator (received c none) = some (record b {
  host = record b.host { client = c; generator = generator };
  replies = b.replies ++ reply ∷ [];
})
receive_ends b reply generator (received c (some sent)) = some (record b {
  host = record b.host { client = c; generator = generator };
  replies = b.replies ++ reply ∷ [];
  passed = b.passed ++ sent ∷ [];
})
receive_ends b reply generator null_dereference = none

unfoldable pub take_turn : Inbox → Turn → Option Inbox
take_turn b (life_turn step) = some (record b { host = take_step b.host step })
take_turn b (request_turn device_id p) =
    let (replied, ending) = on_receive_request b.host.client b.host.generator device_id p in
    receive_ends b replied.0 replied.1 ending
take_turn b (wait_turn cmd fresh) =
    some (record b { host = record b.host { client = (wait_request b.host.client cmd fresh).0 } })

unfoldable pub take_turns : Inbox → List Turn → Option Inbox
take_turns b [] = some b
take_turns b (turn ∷ turns) = elim (take_turn b turn) [
  | none ↦ none
  | some b' ↦ take_turns b' turns
]
