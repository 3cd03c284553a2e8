-- ===== src/Connection/Session/Tracked.antt =====
-- connection.hpp: to which requests the channels and the messages of a connection belong.
use asyncmsg.Base.{
  ℕ, ◌≤◌, ◌≡◌, refl, subst, true, Option, none, some, List, [], ◌∷◌, All, inl, inr, ◌⊎◌, Bool-cases,
  Option-cases, same, is_empty,
}
use asyncmsg.Error.{Result, returned, thrown}
use asyncmsg.Packet.{Packet, packet_id}
use asyncmsg.Connection.{Connection, Handled, handled, refused, handle_packet, deliver}
use asyncmsg.Connection.Session.{Session, sends}

-- A response with the id of the request.
abbrev pub IsAnswer : Packet → Packet → Type 0
IsAnswer p q = (packet_id q ≡ packet_id p) × (q.rsp ≡ true)

abbrev pub Answered : Packet × Result Packet → Type 0
Answered (p, returned q) = IsAnswer p q
Answered (p, thrown e) = Unit

-- A message is among those that were sent on a channel.
abbrev pub IsSent : ℕ → Packet → List (ℕ × Packet) → Type 0
IsSent channel q [] = ⊥
IsSent channel q ((c, r) ∷ xs) = ((c ≡ channel) × (r ≡ q)) ⊎ IsSent channel q xs

abbrev pub ToRegistered : (ℕ → Option ℕ) → ℕ × Packet → Type 0
ToRegistered requests (channel, q) = (requests (packet_id q) ≡ some channel) × (q.rsp ≡ true)

abbrev pub IsMeant : (ℕ → Option Packet) → ℕ × Packet → Type 0
IsMeant asked (channel, q) = (p : Packet) × (asked channel ≡ some p) × IsAnswer p q

-- Each channel in the map and each message belong to a request with this id.
pub record IsTracked (s : Session) : Type 0 where
  pub registered :
      (id channel : ℕ)
      → s.conn.requests id ≡ some channel
      → (p : Packet) × (s.asked channel ≡ some p) × (packet_id p ≡ id)
  pub delivered : All (IsMeant s.asked) s.sent
  pub unmade : (channel : ℕ) → s.made ≤ channel → s.asked channel ≡ none
  pub answered : All Answered s.results

pub All-IsSent :
    (asked : ℕ → Option Packet) (channel : ℕ) (q : Packet) (xs : List (ℕ × Packet))
    → All (IsMeant asked) xs
    → IsSent channel q xs
    → IsMeant asked (channel, q)
All-IsSent asked channel q [] h sent = absurd sent
All-IsSent asked channel q ((c, r) ∷ xs) h (inl (this, same_q)) =
    subst (λ (m : ℕ × Packet). IsMeant asked m) (λ i. (this i, same_q i)) h.0
All-IsSent asked channel q ((c, r) ∷ xs) h (inr later) = All-IsSent asked channel q xs h.1 later

pub All-map_over :
    (P Q : ℕ × Packet → Type 0) (xs : List (ℕ × Packet))
    → ((x : ℕ × Packet) → P x → Q x)
    → All P xs
    → All Q xs
All-map_over P Q [] f h = tt
All-map_over P Q (x ∷ xs) f h = (f x h.0, All-map_over P Q xs f h.1)

-- What a packet changes in the map and sends on channels.
abbrev pub Routes : Connection → Handled → Type 0
Routes c (handled c' events) =
    (c'.requests ≡ c.requests) × All (ToRegistered c.requests) (sends events)
Routes c refused = Unit

deliver-registered :
    (c : Connection) (p : Packet) → All (ToRegistered c.requests) (sends (deliver c p))
unfolding deliver packet_id
deliver-registered c p = elim (Bool-cases p.rsp) [
  | inr request ↦ rw request tt
  | inl response ↦ rw response (elim (Option-cases (c.requests (packet_id p))) [
    | inl unknown ↦ rw unknown tt
    | inr (channel, known) ↦ rw known ((known, response), tt)
  ])
]

pub handle_packet-Routes :
    (now : ℕ) (c : Connection) (p : Packet) → Routes c (handle_packet now c p)
unfolding handle_packet
handle_packet-Routes now c p = elim (Bool-cases (is_empty p.device_id)) [
  | inl unnamed ↦ rw unnamed (refl, tt)
  | inr named ↦ rw named (elim (Bool-cases (is_empty c.device_id)) [
    | inl fresh ↦ rw fresh (refl, deliver-registered (record c { device_id = p.device_id }) p)
    | inr known ↦ rw known (elim (Bool-cases (same c.device_id p.device_id)) [
      | inl own ↦ rw own (refl, deliver-registered c p)
      | inr other ↦ rw other tt
    ])
  ])
]
