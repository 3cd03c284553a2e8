-- ===== src/Client/Inbox/Memory.antt =====
-- tcp_client.hpp: what a client knows of the requests that it has received, while they are at most as
-- many as it remembers.
use asyncmsg.Base.{
  ℕ, ◌≤◌, ◌<◌, ◌≡◌, refl, ap, ap₂, ◌∙◌, arith, Bool, true, false, Option, none, some, List, [], ◌∷◌,
  length, take, take_of_length-le, Bool-cases, Option-cases, inl, inr, ◌==◌, if◌then◌else◌,
}
use asyncmsg.Lru.{exist, put}
use asyncmsg.Lru.Nodes.{remove}
use asyncmsg.Lru.Exist.{contains, exist-values}
use asyncmsg.Lru.Put.{put-values}
use asyncmsg.Packet.{Packet, packet_id}
use asyncmsg.Client.{
  Client, received, pass_on, stop, stop_handler, on_disconnected, recently_received_request_cap,
}
use asyncmsg.Client.Requests.{IsKept, recent, seen-IsKept, put-IsKept, seen-values, unseen-values}
use asyncmsg.Client.Life.{
  Host, Step, stop_step, handler_step, connect_begins_step, connect_ends_step, heartbeat_step,
  disconnected_step, take_step, stop_called, handler_runs, connect_begins, connect_ends, heartbeat,
  unless_forced,
}

contains-remove_other :
    (v w : ℕ) (vs : List ℕ) → (w == v) ≡ false → contains (remove w vs) v ≡ contains vs v
unfolding contains remove
contains-remove_other v w [] ne = refl
contains-remove_other v w (u ∷ vs) ne = ground (arith, contains-remove_other v w vs ne)

-- The id that came last moves to the front.
contains-moved : (v w : ℕ) (vs : List ℕ) → contains (w ∷ remove w vs) v ≡ contains (w ∷ vs) v
unfolding contains
contains-moved v w vs = elim (Bool-cases (w == v)) [
  | inl this ↦ rw this refl
  | inr other ↦ rw other (contains-remove_other v w vs other)
]

length-remove : (w : ℕ) (vs : List ℕ) → length (remove w vs) ≤ length vs
unfolding remove
length-remove w [] = omega arith
length-remove w (u ∷ vs) = ground (arith, length-remove w vs)

-- The client remembers just the ids `seen`, and no more than so many.
pub record Remembers (seen : List ℕ) (c : Client) : Type 0 where
  pub kept : IsKept c
  pub same_ids : (v : ℕ) → contains (recent c) v ≡ contains seen v
  pub few : length (recent c) ≤ length seen

-- One more id is remembered.
more-Remembers :
    (seen : List ℕ) (c c' : Client) (w : ℕ)
    → Remembers seen c
    → IsKept c'
    → recent c' ≡ w ∷ remove w (recent c)
    → Remembers (w ∷ seen) c'
unfolding contains
more-Remembers seen c c' w m kept e = record {
  kept = kept;
  same_ids = λ v.
      ap (λ t. contains t v) e
      ∙ (contains-moved v w (recent c) ∙ ap (λ b. if w == v then true else b) (m.same_ids v));
  few = omega (arith, ap length e, length-remove w (recent c), m.few);
}

-- What `on_receive_request` passes on: a request that was seen, nothing; and one that is new and waited
-- for, itself.
module _ (seen : List ℕ) (c : Client) (p : Packet) (m : Remembers seen c) where
  pub pass_on_again :
      contains seen (packet_id p) ≡ true
      → (c' : Client) × (pass_on c p ≡ received c' none)
        × Remembers (packet_id p ∷ seen) c'
        × (c'.received_request_channels ≡ c.received_request_channels)
  unfolding pass_on
  pass_on_again old =
      let was_seen =
        (exist-values c.recently_received_request (packet_id p) m.kept.0).0
        ∙ (m.same_ids (packet_id p) ∙ old) in
      let c' = record c {
        recently_received_request = (exist c.recently_received_request (packet_id p)).0;
      } in
      (
        c',
        rw was_seen refl,
        more-Remembers seen c c' (packet_id p) m (seen-IsKept c (packet_id p) m.kept)
            (seen-values c (packet_id p) m.kept was_seen),
        refl,
      )

  pub pass_on_first :
      (channel : ℕ)
      → contains seen (packet_id p) ≡ false
      → c.received_request_channels p.cmd ≡ some channel
      → length seen < recently_received_request_cap
      → (c' : Client) × (pass_on c p ≡ received c' (some (channel, p)))
        × Remembers (packet_id p ∷ seen) c'
        × (c'.received_request_channels ≡ c.received_request_channels)
  unfolding pass_on
  pass_on_first channel new waits few =
      let w = packet_id p in
      let unseen = (exist-values c.recently_received_request w m.kept.0).0 ∙ (m.same_ids w ∙ new) in
      let c' = record c {
        recently_received_request = put (exist c.recently_received_request w).0 w;
      } in
      let kept = seen-IsKept c w m.kept in
      let ids =
        put-values (exist c.recently_received_request w).0 w kept.0
        ∙ (ap₂ (λ k vs. take k (w ∷ remove w vs)) kept.1 (unseen-values c w m.kept unseen)
            ∙ take_of_length-le recently_received_request_cap (w ∷ remove w (recent c))
                (omega (arith, length-remove w (recent c), m.few, few))) in
      (
        c',
        simp (unseen, waits) refl,
        more-Remembers seen c c' w m (put-IsKept c w m.kept) ids,
        refl,
      )

-- The other operations of a client keep this.
abbrev pub SameMemory : Client → Client → Type 0
SameMemory c c' =
    (c'.recently_received_request ≡ c.recently_received_request)
    × (c'.received_request_channels ≡ c.received_request_channels)

pub same-Remembers :
    (seen : List ℕ) (c c' : Client)
    → c'.recently_received_request ≡ c.recently_received_request
    → Remembers seen c
    → Remembers seen c'
same-Remembers seen c c' e m = record {
  kept = rw e m.kept;
  same_ids = rw e m.same_ids;
  few = rw e m.few;
}

stop-SameMemory : (c : Client) → SameMemory c (stop c).0
unfolding stop
stop-SameMemory c = elim (Bool-cases c.stopped) [
  | inl was ↦ rw (was, stop) (refl, refl)
  | inr running ↦ rw (running, stop) (refl, refl)
]

stop_called-SameMemory :
    (h : Host) (force : Bool) → SameMemory h.client (stop_called h force).client
unfolding stop_called
stop_called-SameMemory h force = elim (Bool-cases (stop h.client).1) [
  | inl posts ↦ rw (posts, stop_called) (stop-SameMemory h.client)
  | inr nothing ↦ rw (nothing, stop_called) (refl, refl)
]

connect_begins-SameMemory : (h : Host) → SameMemory h.client (connect_begins h).client
unfolding connect_begins
connect_begins-SameMemory h = elim (Bool-cases h.client.stopped) [
  | inl was ↦ rw (was, connect_begins) (refl, refl)
  | inr running ↦ elim (Option-cases h.client.conn) [
    | inl free ↦ rw (running, free, connect_begins) (refl, refl)
    | inr (conn, has) ↦ rw (running, has, connect_begins) (refl, refl)
  ]
]

handler_runs-SameMemory :
    (h : Host) (posted : List Bool) → SameMemory h.client (handler_runs h posted).client
unfolding handler_runs stop_handler
handler_runs-SameMemory h [] = (refl, refl)
handler_runs-SameMemory h (force ∷ later) = (refl, refl)

unless_forced-SameMemory :
    (h next : Host)
    → SameMemory h.client next.client
    → SameMemory h.client (unless_forced h next).client
unfolding unless_forced
unless_forced-SameMemory h next v =
    elim h.context.forced as (λ b. SameMemory h.client (if b then h else next).client) [
      | true ↦ (refl, refl)
      | false ↦ v
    ]

connect_ends-SameMemory :
    (h : Host) (made : Option ℕ) → SameMemory h.client (connect_ends h made).client
unfolding connect_ends
connect_ends-SameMemory h none = (refl, refl)
connect_ends-SameMemory h (some conn) = elim (Bool-cases h.connecting) [
  | inl on ↦ rw (on, connect_ends) (refl, refl)
  | inr off ↦ rw (off, connect_ends) (refl, refl)
]

pub take_step-SameMemory : (h : Host) (step : Step) → SameMemory h.client (take_step h step).client
unfolding take_step heartbeat on_disconnected
take_step-SameMemory h (stop_step force) = stop_called-SameMemory h force
take_step-SameMemory h handler_step =
    unless_forced-SameMemory h _ (handler_runs-SameMemory h h.context.posted)
take_step-SameMemory h connect_begins_step =
    unless_forced-SameMemory h _ (connect_begins-SameMemory h)
take_step-SameMemory h (connect_ends_step made) =
    unless_forced-SameMemory h _ (connect_ends-SameMemory h made)
take_step-SameMemory h heartbeat_step = unless_forced-SameMemory h _ (refl, refl)
take_step-SameMemory h disconnected_step = unless_forced-SameMemory h _ (refl, refl)
