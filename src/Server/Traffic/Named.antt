-- ===== src/Server/Traffic/Named.antt =====
-- tcp_server.hpp and connection.hpp together: the connections that have not named their device yet.
pub mod Turns
pub mod Routes
use asyncmsg.Base.{
  ℕ, ◌≡◌, refl, sym, subst, ◌∙◌, arith, Bool, true, false, Option, none, some, List, [], ◌∷◌, ◌++◌,
  All, inl, inr, Bool-cases, ◌==◌, ==_iff, same, is_empty, if◌then◌else◌, ltb, ◌-◌, ◌/◌,
}
use asyncmsg.Packet.{Packet}
use asyncmsg.Connection.{
  Connection, connection, got_device_id, handle_packet, check_round, deliver,
  active_connection_lifetime_seconds,
}
use asyncmsg.Server.{
  Server, accept, points_to, holds, erase_first, remove_if, on_got_device_id, on_disconnected,
}
use asyncmsg.Server.Connections.{holds_last}
use asyncmsg.Server.Life.{Host, accept_ends}
use asyncmsg.Server.Life.Stops.{stop_called-cases}
use asyncmsg.Server.Traffic.{
  stop_turn, handler_turn, accept_turn, accept_fails_turn, packet_turn, read_fails_turn, timer_turn,
  Loops, running, cancelled, ended, Traffic, start_traffic, set_loops, call_back, call_backs,
  accepted, end_loops, packet_comes, read_fails, timer_ends, Turn, stop_turn, handler_turn,
  accept_turn, accept_fails_turn, packet_turn, read_fails_turn, timer_turn, take_turn, take_turns,
}
use asyncmsg.Server.Traffic.Joined.{call_backs_quiet, deliver-IsQuiet}

-- A connection that has not named its device is in the list.
abbrev pub IsListed : List (Option ℕ) → (ℕ → Loops) → Type 0
IsListed xs loops =
    (conn : ℕ) (c : Connection)
    → loops conn ≡ running c
    → is_empty c.device_id ≡ true
    → holds conn xs ≡ true

-- A pointer to the one object is none to the other.
points_to-one :
    (a b : ℕ) (x : Option ℕ) → (a == b) ≡ false → points_to a x ≡ true → points_to b x ≡ false
unfolding points_to
points_to-one a b none ne h = refl
points_to-one a b (some c) ne h = ground arith

holds-erase_first :
    (a b : ℕ) (xs : List (Option ℕ))
    → (a == b) ≡ false
    → holds b xs ≡ true
    → holds b (erase_first a xs) ≡ true
unfolding holds erase_first
holds-erase_first a b [] ne h = h
holds-erase_first a b (x ∷ xs) ne h = elim (Bool-cases (points_to a x)) [
  | inl this ↦ rw this (ground (arith, points_to-one a b x ne this))
  | inr other ↦ rw other (elim (Bool-cases (points_to b x)) [
    | inl here ↦ rw here refl
    | inr not_here ↦ rw not_here (holds-erase_first a b xs ne (ground arith))
  ])
]

holds-remove_if :
    (a b : ℕ) (gap xs : List (Option ℕ))
    → (a == b) ≡ false
    → holds b xs ≡ true
    → holds b (remove_if a gap xs) ≡ true
unfolding holds remove_if
holds-remove_if a b gap [] ne h = absurd (ground arith)
holds-remove_if a b [] (x ∷ xs) ne h = elim (Bool-cases (points_to a x)) [
  | inl this ↦
      rw this (holds-remove_if a b (x ∷ []) xs ne (ground (arith, points_to-one a b x ne this)))
  | inr other ↦ rw other (elim (Bool-cases (points_to b x)) [
    | inl here ↦ rw here refl
    | inr not_here ↦ rw not_here (holds-remove_if a b [] xs ne (ground arith))
  ])
]
holds-remove_if a b (g ∷ gap) (x ∷ xs) ne h = elim (Bool-cases (points_to a x)) [
  | inl this ↦ rw this (
      holds-remove_if a b (g ∷ (gap ++ x ∷ [])) xs ne (ground (arith, points_to-one a b x ne this)))
  | inr other ↦ rw other (elim (Bool-cases (points_to b x)) [
    | inl here ↦ rw here refl
    | inr not_here ↦ rw not_here (holds-remove_if a b (gap ++ none ∷ []) xs ne (ground arith))
  ])
]

pub holds-append : (b : ℕ) (xs ys : List (Option ℕ)) → holds b xs ≡ true → holds b (xs ++ ys) ≡ true
unfolding holds
holds-append b [] ys h = absurd (ground arith)
holds-append b (x ∷ xs) ys h = elim (Bool-cases (points_to b x)) [
  | inl here ↦ rw here refl
  | inr not_here ↦ rw not_here (holds-append b xs ys (ground arith))
]

pub set_loops-here :
    (loops : ℕ → Loops) (conn k : ℕ) (l : Loops) → (conn == k) ≡ true → set_loops loops conn l k ≡ l
set_loops-here loops conn k l e = rw e refl

pub set_loops-there :
    (loops : ℕ → Loops) (conn k : ℕ) (l : Loops)
    → (conn == k) ≡ false
    → set_loops loops conn l k ≡ loops k
set_loops-there loops conn k l e = rw e refl

-- One connection changes, and the server with it.
pub others-IsListed :
    (xs ys : List (Option ℕ)) (loops : ℕ → Loops) (conn : ℕ) (l : Loops)
    → IsListed xs loops
    → ((k : ℕ) → (conn == k) ≡ false → holds k xs ≡ true → holds k ys ≡ true)
    → ((c : Connection) → l ≡ running c → is_empty c.device_id ≡ true → holds conn ys ≡ true)
    → IsListed ys (set_loops loops conn l)
others-IsListed xs ys loops conn l v kept new k c e fresh = elim (Bool-cases (conn == k)) [
  | inr other ↦ kept k other (v k c (sym (set_loops-there loops conn k l other) ∙ e) fresh)
  | inl this ↦
      subst (λ j. holds j ys ≡ true) ((==_iff conn k).0 this)
        (new c (sym (set_loops-here loops conn k l this) ∙ e) fresh)
]

-- On the callbacks.
module _ (s : Server) (loops : ℕ → Loops) (conn : ℕ) (v : IsListed s.connections loops) where
  pub disconnected-IsListed :
      (id : List ℕ) (l : Loops)
      → ((c : Connection) → l ≡ running c → ⊥)
      → IsListed (on_disconnected s conn id).connections (set_loops loops conn l)
  unfolding on_disconnected
  disconnected-IsListed id l none_left =
      others-IsListed s.connections (remove_if conn [] s.connections) loops conn l v
        (λ k other h. holds-remove_if conn k [] s.connections other h)
        (λ c e fresh. absurd (none_left c e))

  pub got_device_id-IsListed :
      (id : List ℕ) (l : Loops)
      → ((c : Connection) → l ≡ running c → is_empty c.device_id ≡ false)
      → IsListed (on_got_device_id s conn id).connections (set_loops loops conn l)
  unfolding on_got_device_id
  got_device_id-IsListed id l named = elim (Bool-cases (holds conn s.connections)) [
    | inr missing ↦ rw missing (
        others-IsListed s.connections s.connections loops conn l v (λ k other h. h)
          (λ c e fresh. absurd (let e1 = named c e in ground arith)))
    | inl found ↦ rw found (
        others-IsListed s.connections (erase_first conn s.connections) loops conn l v
          (λ k other h. holds-erase_first conn k s.connections other h)
          (λ c e fresh. absurd (let e1 = named c e in ground arith)))
  ]

  pub goes_on-IsListed :
      (l : Loops)
      → ((c : Connection)
          → l ≡ running c
          → is_empty c.device_id ≡ true
          → holds conn s.connections ≡ true)
      → IsListed s.connections (set_loops loops conn l)
  goes_on-IsListed l listed =
      others-IsListed s.connections s.connections loops conn l v (λ k other h. h) listed
