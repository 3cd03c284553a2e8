-- ===== src/Client/Inbox/Firsts.antt =====
-- tcp_client.hpp: what a client passes on in one turn.
use asyncmsg.Base.{
  append-nil, ◌<◌, length, ◌∙◌, All-append, sym, ℕ, ◌≡◌, refl, ap, subst, arith, true, some, List,
  [], ◌∷◌, ◌++◌, All, Bool-cases, Option-cases, inl, inr, ◌==◌, ==_iff, if◌then◌else◌,
}
use asyncmsg.Lru.Exist.{contains}
use asyncmsg.Packet.{build_rsp_packet, Packet, packet_id}
use asyncmsg.Client.{recently_received_request_cap, on_receive_request, Client, wait_request}
use asyncmsg.Client.Requests.{wait_request_waits}
use asyncmsg.Client.Inbox.{
  receive_ends, take_step, Step, take_turn, Inbox, Turn, life_turn, request_turn, wait_turn,
}
use asyncmsg.Client.Inbox.Memory.{
  pass_on_again, pass_on_first, pass_on_again, take_step-SameMemory, same-Remembers, Remembers,
}

-- The packets with an id that is neither among these ids nor that of an earlier packet.
unfoldable pub firsts : List ℕ → List Packet → List Packet
firsts seen [] = []
firsts seen (p ∷ ps) =
    let rest = firsts (packet_id p ∷ seen) ps in
    if contains seen (packet_id p) then rest else p ∷ rest

-- The requests that are received.
unfoldable pub requests : List Turn → List Packet
requests [] = []
requests (life_turn step ∷ turns) = requests turns
requests (request_turn device_id p ∷ turns) = p ∷ requests turns
requests (wait_turn cmd fresh ∷ turns) = requests turns

-- Each request comes after a wait for its command.
abbrev pub IsAwaited : List ℕ → List Turn → Type 0
IsAwaited cmds [] = Unit
IsAwaited cmds (life_turn step ∷ turns) = IsAwaited cmds turns
IsAwaited cmds (request_turn device_id p ∷ turns) =
    (contains cmds p.cmd ≡ true) × IsAwaited cmds turns
IsAwaited cmds (wait_turn cmd fresh ∷ turns) = IsAwaited (cmd ∷ cmds) turns

abbrev pub packets : List (ℕ × Packet) → List Packet
packets [] = []
packets ((channel, p) ∷ xs) = p ∷ packets xs

packets-append : (xs ys : List (ℕ × Packet)) → packets (xs ++ ys) ≡ packets xs ++ packets ys
packets-append [] ys = refl
packets-append ((channel, p) ∷ xs) ys = ap (λ t. p ∷ t) (packets-append xs ys)

-- Waited for, and a channel for each command stays.
abbrev pub Knows : List ℕ → Client → Type 0
Knows cmds c =
    (cmd : ℕ)
    → contains cmds cmd ≡ true
    → (channel : ℕ) × (c.received_request_channels cmd ≡ some channel)

abbrev pub ToOwn : Client → ℕ × Packet → Type 0
ToOwn c (channel, p) = c.received_request_channels p.cmd ≡ some channel

wait_request-channels :
    (c : Client) (cmd fresh k channel : ℕ)
    → c.received_request_channels k ≡ some channel
    → (wait_request c cmd fresh).0.received_request_channels k ≡ some channel
unfolding wait_request
wait_request-channels c cmd fresh k channel e =
    elim (Option-cases (c.received_request_channels cmd)) [
      | inr (known, has) ↦ rw (has, wait_request) e
      | inl unknown ↦
          rw (unknown, wait_request)
            (elim (Bool-cases (cmd == k)) [
              | inr other ↦ rw other e
              | inl this ↦ absurd (
                  let here = ap c.received_request_channels ((==_iff cmd k).0 this) in
                  ground (arith, here))
            ])
    ]

wait_request-Knows :
    (c : Client) (cmds : List ℕ) (cmd fresh : ℕ)
    → Knows cmds c
    → Knows (cmd ∷ cmds) (wait_request c cmd fresh).0
unfolding contains
wait_request-Knows c cmds cmd fresh knows k h = elim (Bool-cases (cmd == k)) [
  | inl this ↦ (
    (wait_request c cmd fresh).1,
    subst
        (λ j.
          (wait_request c cmd fresh).0.received_request_channels j
          ≡ some (wait_request c cmd fresh).1)
        ((==_iff cmd k).0 this) (wait_request_waits c cmd fresh).0,
  )
  | inr other ↦
      (let old = knows k (ground arith) in (old.0, wait_request-channels c cmd fresh k old.0 old.1))
]

All-ToOwn :
    (c c' : Client) (xs : List (ℕ × Packet))
    → ((k channel : ℕ)
        → c.received_request_channels k ≡ some channel
        → c'.received_request_channels k ≡ some channel)
    → All (ToOwn c) xs
    → All (ToOwn c') xs
All-ToOwn c c' [] stays h = tt
All-ToOwn c c' ((channel, p) ∷ xs) stays h = (stays p.cmd channel h.0, All-ToOwn c c' xs stays h.1)

-- What has come before, for what is passed on from here.
pub record IsAfter (seen cmds : List ℕ) (b : Inbox) : Type 0 where
  pub remembers : Remembers seen b.host.client
  pub knows : Knows cmds b.host.client
  pub own : All (ToOwn b.host.client) b.passed

abbrev pub alone_if_new : List ℕ → Packet → List Packet
alone_if_new seen p = if contains seen (packet_id p) then [] else p ∷ []

pub firsts-alone_if_new :
    (seen : List ℕ) (p : Packet) (ps : List Packet)
    → firsts seen (p ∷ ps) ≡ alone_if_new seen p ++ firsts (packet_id p ∷ seen) ps
unfolding firsts
firsts-alone_if_new seen p ps = elim (Bool-cases (contains seen (packet_id p))) [
  | inl old ↦ rw old refl
  | inr new ↦ rw new refl
]

module _ (seen cmds : List ℕ) (b : Inbox) (v : IsAfter seen cmds b) where
  pub life_turn-IsAfter :
      (step : Step) → IsAfter seen cmds (record b { host = take_step b.host step })
  life_turn-IsAfter step =
      let e = take_step-SameMemory b.host step in
      record {
        remembers =
            same-Remembers seen b.host.client (take_step b.host step).client e.0 v.remembers;
        knows =
            subst
              (λ channels.
                (cmd : ℕ)
                → contains cmds cmd ≡ true
                → (channel : ℕ) × (channels cmd ≡ some channel))
              (sym e.1) v.knows;
        own =
            All-ToOwn b.host.client (take_step b.host step).client b.passed
              (λ k channel h. ap (λ f. f k) e.1 ∙ h) v.own;
      }

  pub wait_turn-IsAfter :
      (cmd fresh : ℕ)
      → IsAfter seen
          (cmd ∷ cmds)
          (record b { host = record b.host { client = (wait_request b.host.client cmd fresh).0 } })
  wait_turn-IsAfter cmd fresh = record {
    remembers =
        same-Remembers seen b.host.client (wait_request b.host.client cmd fresh).0
          (wait_request_waits b.host.client cmd fresh).1 v.remembers;
    knows = wait_request-Knows b.host.client cmds cmd fresh v.knows;
    own =
        All-ToOwn b.host.client (wait_request b.host.client cmd fresh).0 b.passed
          (λ k channel h. wait_request-channels b.host.client cmd fresh k channel h) v.own;
  }

  -- What is after `pass_on` has kept the channels.
  received-IsAfter :
      (c : Client) (w : ℕ) (generator : ℕ) (replies : List Packet) (more : List (ℕ × Packet))
      → Remembers (w ∷ seen) c
      → c.received_request_channels ≡ b.host.client.received_request_channels
      → All (ToOwn c) more
      → IsAfter (w ∷ seen) cmds (record b {
        host = record b.host { client = c; generator = generator };
        replies = replies;
        passed = b.passed ++ more;
      })
  received-IsAfter c w generator replies more m e own = record {
    remembers = m;
    knows =
        subst
          (λ channels.
            (cmd : ℕ) → contains cmds cmd ≡ true → (channel : ℕ) × (channels cmd ≡ some channel))
          (sym e) v.knows;
    own =
        All-append (ToOwn c) b.passed more
          (All-ToOwn b.host.client c b.passed (λ k channel h. ap (λ f. f k) e ∙ h) v.own) own;
  }

  pub request_turn-IsAfter :
      (device_id : List ℕ) (p : Packet)
      → contains cmds p.cmd ≡ true
      → length seen < recently_received_request_cap
      → (b1 : Inbox) × (take_turn b (request_turn device_id p) ≡ some b1)
        × IsAfter (packet_id p ∷ seen) cmds b1
        × (packets b1.passed ≡ packets b.passed ++ alone_if_new seen p)
  unfolding take_turn on_receive_request receive_ends
  request_turn-IsAfter device_id p awaited few =
      let waits = v.knows p.cmd awaited in
      let replied = build_rsp_packet b.host.generator p.cmd p.seq 0 device_id [] in
      elim (Bool-cases (contains seen (packet_id p))) [
        | inl old ↦
            (let again = pass_on_again seen b.host.client p v.remembers old in
              (
                record b {
                  host = record b.host { client = again.0; generator = replied.1 };
                  replies = b.replies ++ replied.0 ∷ [];
                },
                ap (receive_ends b replied.0 replied.1) again.1,
                subst
                    (λ passed. IsAfter (packet_id p ∷ seen) cmds (record b {
                      host = record b.host { client = again.0; generator = replied.1 };
                      replies = b.replies ++ replied.0 ∷ [];
                      passed = passed;
                    }))
                    (append-nil b.passed)
                    (received-IsAfter again.0 (packet_id p) replied.1 (b.replies ++ replied.0 ∷ [])
                      [] again.2 again.3 tt),
                rw old (sym (append-nil (packets b.passed))),
              ))
        | inr new ↦
            (let once = pass_on_first seen b.host.client p v.remembers waits.0 new waits.1 few in
              (
                record b {
                  host = record b.host { client = once.0; generator = replied.1 };
                  replies = b.replies ++ replied.0 ∷ [];
                  passed = b.passed ++ (waits.0, p) ∷ [];
                },
                ap (receive_ends b replied.0 replied.1) once.1,
                received-IsAfter once.0 (packet_id p) replied.1 (b.replies ++ replied.0 ∷ [])
                    ((waits.0, p) ∷ []) once.2 once.3 (ap (λ f. f p.cmd) once.3 ∙ waits.1, tt),
                rw new (packets-append b.passed ((waits.0, p) ∷ [])),
              ))
      ]
