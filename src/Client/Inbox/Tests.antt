-- ===== src/Client/Inbox/Tests.antt =====
-- A client with its requests at concrete inputs.
use asyncmsg.Base.{ℕ, ◌≡◌, refl, arith, false, some, List, [], ◌∷◌, All}
use asyncmsg.Lru.Exist.{contains}
use asyncmsg.Packet.{Packet}
use asyncmsg.Client.Life.{connect_begins_step, connect_ends_step}
use asyncmsg.Client.Inbox.{Inbox, Turn, life_turn, request_turn, wait_turn, take_turns}
use asyncmsg.Client.Inbox.Firsts.{firsts, requests, IsAwaited, packets, ToOwn}
use asyncmsg.Client.Inbox.Delivery.{new_inbox, take_turns-firsts}

abbrev dev : List ℕ
dev = 100 ∷ 101 ∷ 118 ∷ []

abbrev hello_push : Packet
hello_push = record { cmd = 2; seq = 7; rsp = false; ec = 0; device_id = dev; body = [] }

-- A push that comes twice, with another one between.
abbrev turns : List Turn
turns =
    life_turn connect_begins_step
    ∷ life_turn (connect_ends_step (some 4))
    ∷ wait_turn 2 6
    ∷ request_turn dev hello_push
    ∷ request_turn dev (record hello_push { seq = 8 })
    ∷ request_turn dev hello_push
    ∷ []

turns-IsAwaited : IsAwaited [] turns
unfolding contains
turns-IsAwaited = (refl, (refl, (refl, tt)))

take_turns-firsts_example :
    (b : Inbox) × (take_turns (new_inbox dev 1) turns ≡ some b)
    × (packets b.passed ≡ firsts [] (requests turns))
    × All (ToOwn b.host.client) b.passed
unfolding requests
take_turns-firsts_example = take_turns-firsts dev 1 turns turns-IsAwaited (omega arith)
