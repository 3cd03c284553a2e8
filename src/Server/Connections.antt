-- ===== src/Server/Connections.antt =====
-- tcp_server.hpp: which connection a packet for a device is sent to.
use asyncmsg.Base.{
  set, unset, same→eq, ◌⊎◌, ℕ, ◌+◌, ◌≡◌, refl, ap, ◌∙◌, arith, true, false, Option, none, some,
  List, [], ◌∷◌, ◌++◌, length, ==_refl, Bool-cases, inl, inr, same, same_refl, length-append,
}
use asyncmsg.Error.{thrown, invalid_state_error}
use asyncmsg.Packet.{Packet}
use asyncmsg.Server.{
  Server, accept, points_to, remove_if, on_disconnected, holds, erase_first, on_got_device_id,
  send_packet, stop, wait_request,
}

-- What the map holds after a store, and after an erase.
pub set-mapped :
    (map : List ℕ → Option ℕ) (device_id id : List ℕ) (conn c : ℕ)
    → set same map device_id conn id ≡ some c
    → ((device_id ≡ id) × (conn ≡ c)) ⊎ (map id ≡ some c)
set-mapped map device_id id conn c e = elim (Bool-cases (same device_id id)) [
  | inl this ↦ inl (same→eq device_id id this, ground arith)
  | inr other ↦ inr (ground arith)
]

pub unset-mapped :
    (map : List ℕ → Option ℕ) (device_id id : List ℕ) (c : ℕ)
    → unset same map device_id id ≡ some c
    → (same device_id id ≡ false) × (map id ≡ some c)
unset-mapped map device_id id c e = elim (Bool-cases (same device_id id)) [
  | inl this ↦ absurd (ground arith)
  | inr other ↦ (other, ground arith)
]

points_to_self : (conn : ℕ) → points_to conn (some conn) ≡ true
unfolding points_to
points_to_self conn = ==_refl conn

pub holds_last : (conn : ℕ) (xs : List (Option ℕ)) → holds conn (xs ++ some conn ∷ []) ≡ true
unfolding holds
holds_last conn [] = rw (points_to_self conn) refl
holds_last conn (x ∷ xs) = elim (Bool-cases (points_to conn x)) [
  | inl here ↦ rw here refl
  | inr not_here ↦ rw not_here (holds_last conn xs)
]

length-erase_first :
    (conn : ℕ) (xs : List (Option ℕ))
    → holds conn xs ≡ true
    → length (erase_first conn xs) + 1 ≡ length xs
unfolding holds erase_first
length-erase_first conn [] h = absurd (ground arith)
length-erase_first conn (x ∷ xs) h = elim (Bool-cases (points_to conn x)) [
  | inl here ↦ rw here (omega arith)
  | inr not_here ↦
      (let there : holds conn xs ≡ true = ground arith in
        rw not_here (omega (arith, length-erase_first conn xs there)))
]

-- Once an accepted connection has reported its device id, packets for this device are sent to it, those for
-- other devices go where they went before, and the list of unnamed connections is as long as it was.
pub on_got_device_id_routes :
    (s : Server) (conn : ℕ) (id other : List ℕ)
    → same id other ≡ false
    → let s' = on_got_device_id (accept s conn) conn id in
      (s'.connection_map id ≡ some conn)
      × (s'.connection_map other ≡ s.connection_map other)
      × (length s'.connections ≡ length s.connections)
unfolding on_got_device_id accept
on_got_device_id_routes s conn id other differ = rw (holds_last conn s.connections) (
  rw (same_refl id) refl,
  rw differ refl,
  omega (
    arith,
    length-erase_first conn (s.connections ++ some conn ∷ []) (holds_last conn s.connections),
    length-append s.connections (some conn ∷ []),
  ),
)

before_first :
    (conn : ℕ) (before ys : List (Option ℕ))
    → holds conn before ≡ false
    → remove_if conn [] (before ++ ys) ≡ before ++ remove_if conn [] ys
unfolding holds remove_if
before_first conn [] ys h = refl
before_first conn (x ∷ before) ys h = elim (Bool-cases (points_to conn x)) [
  | inl here ↦ absurd (ground arith)
  | inr not_here ↦ rw not_here (ap (◌∷◌ x) (before_first conn before ys (ground arith)))
]

-- What stands in the last place afterwards, if `g` was in the gap.
abbrev pub vacated : Option ℕ → List (Option ℕ) → Option ℕ
vacated g [] = g
vacated g (x ∷ xs) = none

vacated-none : (after : List (Option ℕ)) → vacated none after ≡ none
vacated-none [] = refl
vacated-none (x ∷ after) = refl

behind_first :
    (conn : ℕ) (g : Option ℕ) (after : List (Option ℕ))
    → holds conn after ≡ false
    → remove_if conn (g ∷ []) after ≡ after ++ vacated g after ∷ []
unfolding holds remove_if
behind_first conn g [] h = refl
behind_first conn g (x ∷ after) h = elim (Bool-cases (points_to conn x)) [
  | inl here ↦ absurd (ground arith)
  | inr not_here ↦ rw not_here (
      ap (◌∷◌ x) (
        behind_first conn none after (ground arith)
        ∙ ap (λ g. after ++ g ∷ []) (vacated-none after)))
]

remove_if_self :
    (conn : ℕ) (after : List (Option ℕ))
    → remove_if conn [] (some conn ∷ after) ≡ remove_if conn (some conn ∷ []) after
unfolding remove_if
remove_if_self conn after = rw (points_to_self conn) refl

-- The end of a connection that is in the list does not shorten the list: those behind it move up, and the last
-- place holds a null pointer, or, if the connection was the last, still the connection.
pub on_disconnected-connections :
    (s : Server) (conn : ℕ) (id : List ℕ) (before after : List (Option ℕ))
    → s.connections ≡ before ++ some conn ∷ after
    → holds conn before ≡ false
    → holds conn after ≡ false
    → (on_disconnected s conn id).connections ≡ before ++ (after ++ vacated (some conn) after ∷ [])
unfolding on_disconnected
on_disconnected-connections s conn id before after e h h' =
    rw (e, before_first conn before (some conn ∷ after) h)
      (ap (λ t. before ++ t) (remove_if_self conn after ∙ behind_first conn (some conn) after h'))

-- After the end of a connection no packet is sent to its device, and all other devices are served as before.
pub on_disconnected_routes :
    (s : Server) (conn : ℕ) (id : List ℕ)
    → let s' = on_disconnected s conn id in
      (s'.connection_map id ≡ none)
      × ((other : List ℕ)
          → same id other ≡ false
          → s'.connection_map other ≡ s.connection_map other)
unfolding on_disconnected
on_disconnected_routes s conn id = (rw (same_refl id) refl, λ other e. rw e refl)

-- After `stop`, sending and waiting throw, and a second `stop` does nothing more.
pub stop_refuses :
    (s : Server) (p : Packet) (cmd fresh : ℕ)
    → let s' = (stop s).0 in
      (send_packet s' p ≡ thrown invalid_state_error)
      × (wait_request s' cmd fresh ≡ (s', thrown invalid_state_error))
      × (stop s' ≡ (s', false))
unfolding stop send_packet wait_request
stop_refuses s p cmd fresh = elim (Bool-cases s.stopped) [
  | inl was ↦ simp was (refl, refl, refl)
  | inr running ↦ simp running (refl, refl, refl)
]
