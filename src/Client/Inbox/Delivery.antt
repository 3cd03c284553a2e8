-- ===== src/Client/Inbox/Delivery.antt =====
-- tcp_client.hpp: the requests that a client passes on over its life, against the list of those that
-- were received.
use asyncmsg.Client.Life.{start}
use asyncmsg.Base.{
  append_assoc, append-nil, ◌+◌, ◌≤◌, length, ◌∙◌, sym, ℕ, ◌≡◌, refl, ap, subst, arith, Option,
  none, some, List, [], ◌∷◌, ◌++◌, All,
}
use asyncmsg.Lru.{lru}
use asyncmsg.Lru.Exist.{lru-IsValid, contains}
use asyncmsg.Packet.{Packet, packet_id}
use asyncmsg.Client.{tcp_client, recently_received_request_cap, wait_request}
use asyncmsg.Client.Inbox.{
  take_turns, take_step, Step, take_turn, Inbox, Turn, life_turn, request_turn, wait_turn,
}
use asyncmsg.Client.Inbox.Firsts.{
  firsts, requests, IsAwaited, packets, ToOwn, IsAfter, alone_if_new, firsts-alone_if_new,
  life_turn-IsAfter, wait_turn-IsAfter, request_turn-IsAfter,
}

-- The end, after such turns.
abbrev PassesOn : List ℕ → Inbox → List Packet → Option Inbox → Type 0
PassesOn seen b ps none = ⊥
PassesOn seen b ps (some b') =
    (packets b'.passed ≡ packets b.passed ++ firsts seen ps) × All (ToOwn b'.host.client) b'.passed

-- One turn, and the others.
take_turns-next :
    (seen : List ℕ) (b b1 : Inbox) (turn : Turn) (turns : List Turn) (ps : List Packet)
    → take_turn b turn ≡ some b1
    → PassesOn seen b ps (take_turns b1 turns)
    → PassesOn seen b ps (take_turns b (turn ∷ turns))
unfolding take_turns
take_turns-next seen b b1 turn turns ps e h =
    subst (λ r. PassesOn seen b ps (elim r [ none ↦ none | some b' ↦ take_turns b' turns ])) (sym e)
      h

more-PassesOn :
    (seen : List ℕ) (b b1 : Inbox) (p : Packet) (ps : List Packet)
    → packets b1.passed ≡ packets b.passed ++ alone_if_new seen p
    → (r : Option Inbox) → PassesOn (packet_id p ∷ seen) b1 ps r
    → PassesOn seen b (p ∷ ps) r
more-PassesOn seen b b1 p ps e none h = h
more-PassesOn seen b b1 p ps e (some b') h = (
  h.0
      ∙ (ap (λ t. t ++ firsts (packet_id p ∷ seen) ps) e
          ∙ (append_assoc (packets b.passed) (alone_if_new seen p) (firsts (packet_id p ∷ seen) ps)
              ∙ ap (λ t. packets b.passed ++ t) (sym (firsts-alone_if_new seen p ps)))),
  h.1,
)

nothing-PassesOn :
    (seen : List ℕ) (b : Inbox)
    → All (ToOwn b.host.client) b.passed
    → PassesOn seen b [] (take_turns b [])
unfolding take_turns firsts
nothing-PassesOn seen b own = (sym (append-nil (packets b.passed)), own)

life_turn_lem :
    (b : Inbox) (step : Step)
    → take_turn b (life_turn step) ≡ some (record b { host = take_step b.host step })
unfolding take_turn
life_turn_lem b step = refl

wait_turn_lem :
    (b : Inbox) (cmd fresh : ℕ)
    → take_turn b (wait_turn cmd fresh)
      ≡ some
          (record b { host = record b.host { client = (wait_request b.host.client cmd fresh).0 } })
unfolding take_turn
wait_turn_lem b cmd fresh = refl

take_turns-PassesOn :
    (seen cmds : List ℕ) (b : Inbox) (turns : List Turn)
    → IsAfter seen cmds b
    → IsAwaited cmds turns
    → length seen + length (requests turns) ≤ recently_received_request_cap
    → PassesOn seen b (requests turns) (take_turns b turns)
unfolding requests
take_turns-PassesOn seen cmds b [] v awaited few = nothing-PassesOn seen b v.own
take_turns-PassesOn seen cmds b (life_turn step ∷ turns) v awaited few =
    let b1 = record b { host = take_step b.host step } in
    take_turns-next seen b b1 (life_turn step) turns (requests turns) (life_turn_lem b step)
      (take_turns-PassesOn seen cmds b1 turns (life_turn-IsAfter seen cmds b v step) awaited few)
take_turns-PassesOn seen cmds b (wait_turn cmd fresh ∷ turns) v awaited few =
    let b1 = record b {
      host = record b.host { client = (wait_request b.host.client cmd fresh).0 };
    } in
    take_turns-next seen b b1 (wait_turn cmd fresh) turns (requests turns)
      (wait_turn_lem b cmd fresh)
      (take_turns-PassesOn seen (cmd ∷ cmds) b1 turns (wait_turn-IsAfter seen cmds b v cmd fresh)
        awaited few)
take_turns-PassesOn seen cmds b (request_turn device_id p ∷ turns) v awaited few =
    let next = request_turn-IsAfter seen cmds b v device_id p awaited.0 (omega (arith, few)) in
    take_turns-next seen b next.0 (request_turn device_id p) turns (p ∷ requests turns) next.1 (
      more-PassesOn seen b next.0 p (requests turns) next.3 (take_turns next.0 turns) (
        take_turns-PassesOn (packet_id p ∷ seen) cmds next.0 turns next.2 awaited.1
          (omega (arith, few))))

-- A new client, and what has happened to it since.
abbrev pub new_inbox : List ℕ → ℕ → Inbox
new_inbox device_id generator = record {
  host = start device_id generator;
  replies = [];
  passed = [];
}

new_inbox-IsAfter :
    (device_id : List ℕ) (generator : ℕ) → IsAfter [] [] (new_inbox device_id generator)
unfolding start tcp_client lru contains
new_inbox-IsAfter device_id generator = record {
  remembers = record {
    kept = (lru-IsValid recently_received_request_cap, refl);
    same_ids = λ v. refl;
    few = omega arith;
  };
  knows = λ cmd h. absurd (ground arith);
  own = tt;
}

ended :
    (b : Inbox) (turns : List Turn)
    → PassesOn [] b (requests turns) (take_turns b turns)
    → b.passed ≡ []
    → (b' : Inbox) × (take_turns b turns ≡ some b')
      × (packets b'.passed ≡ firsts [] (requests turns))
      × All (ToOwn b'.host.client) b'.passed
ended b turns h empty = go (take_turns b turns) h
  where
    go :
        (r : Option Inbox)
        → PassesOn [] b (requests turns) r
        → (b' : Inbox) × (r ≡ some b')
          × (packets b'.passed ≡ firsts [] (requests turns))
          × All (ToOwn b'.host.client) b'.passed
    go none h = absurd h
    go (some b') h = (b', refl, h.0 ∙ ap (λ t. packets t ++ firsts [] (requests turns)) empty, h.1)

-- Over the life of a new client that receives at most 1000 requests, each after a wait for its command, with
-- connections, their ends, heartbeats and stops in whatever order: no null pointer is called; the requests that
-- are passed on are those that came, in their order, without those that have the id of an earlier one; and each
-- was sent to the channel of its command.
pub take_turns-firsts :
    (device_id : List ℕ) (generator : ℕ) (turns : List Turn)
    → IsAwaited [] turns
    → length (requests turns) ≤ recently_received_request_cap
    → (b : Inbox) × (take_turns (new_inbox device_id generator) turns ≡ some b)
      × (packets b.passed ≡ firsts [] (requests turns))
      × All (ToOwn b.host.client) b.passed
take_turns-firsts device_id generator turns awaited few =
    ended (new_inbox device_id generator) turns
      (take_turns-PassesOn [] [] (new_inbox device_id generator) turns
        (new_inbox-IsAfter device_id generator) awaited (omega (arith, few)))
      refl
