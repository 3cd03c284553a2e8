-- ===== src/Server/Life/Routing.antt =====
-- tcp_server.hpp: to which connection a packet is routed, over the whole life of a server.
use asyncmsg.Base.{
  ℕ, Bool, true, Option, none, some, List, [], ◌∷◌, ◌++◌, ◌≡◌, refl, sym, subst, ◌⊎◌, inl, inr,
  arith, Bool-cases, All, All-append, ==_iff,
}
use asyncmsg.Server.{
  Server, tcp_server, accept, points_to, remove_if, holds, erase_first, on_got_device_id,
  on_disconnected, stop_handler,
}
use asyncmsg.Server.Connections.{set-mapped, unset-mapped}
use asyncmsg.Server.Life.Stops.{stop_called-cases}
use asyncmsg.Server.Life.{
  Host, start, stop_called, handler_runs, accept_ends, Step, stop_step, handler_step, accept_step,
  got_device_id_step, disconnected_step, take_step, take_steps,
}

-- A step is among these.
abbrev pub Happens : Step → List Step → Type 0
Happens step [] = ⊥
Happens step (s ∷ steps) = (step ≡ s) ⊎ Happens step steps

module _ (past : List Step) where
  abbrev WasAccepted : Option ℕ → Type 0
  WasAccepted none = Unit
  WasAccepted (some conn) = Happens (accept_step (some conn)) past

  -- Only what was accepted is in the list, and only what was accepted and told its device id is in the
  -- map, under this id.
  record IsRouted (s : Server) : Type 0 where
    listed : All WasAccepted s.connections
    mapped :
        (device_id : List ℕ) (conn : ℕ)
        → s.connection_map device_id ≡ some conn
        → Happens (got_device_id_step conn device_id) past × Happens (accept_step (some conn)) past

  All-remove_if :
      (conn : ℕ) (gap xs : List (Option ℕ))
      → All WasAccepted gap
      → All WasAccepted xs
      → All WasAccepted (remove_if conn gap xs)
  unfolding remove_if
  All-remove_if conn gap [] g h = g
  All-remove_if conn [] (x ∷ xs) g h = elim (Bool-cases (points_to conn x)) [
    | inl this ↦ rw this (All-remove_if conn (x ∷ []) xs (h.0, tt) h.1)
    | inr other ↦ rw other (h.0, All-remove_if conn [] xs tt h.1)
  ]
  All-remove_if conn (y ∷ gap) (x ∷ xs) g h = elim (Bool-cases (points_to conn x)) [
    | inl this ↦ rw this (
        All-remove_if conn (y ∷ (gap ++ x ∷ [])) xs
          (g.0, All-append WasAccepted gap (x ∷ []) g.1 (h.0, tt)) h.1)
    | inr other ↦ rw other (
      h.0,
      All-remove_if conn (gap ++ none ∷ []) xs (All-append WasAccepted gap (none ∷ []) g.1 (tt, tt))
          h.1,
    )
  ]

  All-erase_first :
      (conn : ℕ) (xs : List (Option ℕ)) → All WasAccepted xs → All WasAccepted (erase_first conn xs)
  unfolding erase_first
  All-erase_first conn [] h = tt
  All-erase_first conn (x ∷ xs) h = elim (Bool-cases (points_to conn x)) [
    | inl this ↦ rw this h.1
    | inr other ↦ rw other (h.0, All-erase_first conn xs h.1)
  ]

  pointed :
      (conn : ℕ) (x : Option ℕ)
      → points_to conn x ≡ true
      → WasAccepted x
      → Happens (accept_step (some conn)) past
  unfolding points_to
  pointed conn none e h = absurd (ground arith)
  pointed conn (some c) e h =
      subst (λ c. Happens (accept_step (some c)) past) ((==_iff c conn).0 e) h

  holds-accepted :
      (conn : ℕ) (xs : List (Option ℕ))
      → holds conn xs ≡ true
      → All WasAccepted xs
      → Happens (accept_step (some conn)) past
  unfolding holds
  holds-accepted conn [] e h = absurd (ground arith)
  holds-accepted conn (x ∷ xs) e h = elim (Bool-cases (points_to conn x)) [
    | inl this ↦ pointed conn x this h.0
    | inr other ↦ holds-accepted conn xs (ground arith) h.1
  ]

  handler_runs-IsRouted :
      (h : Host) (posted : List Bool) → IsRouted h.server → IsRouted (handler_runs h posted).server
  unfolding handler_runs stop_handler
  handler_runs-IsRouted h [] v = v
  handler_runs-IsRouted h (force ∷ later) v = record {
    listed = tt;
    mapped = λ device_id conn e. absurd (ground arith);
  }

  accept-IsRouted :
      (s : Server) (conn : ℕ)
      → Happens (accept_step (some conn)) past
      → IsRouted s
      → IsRouted (accept s conn)
  unfolding accept
  accept-IsRouted s conn happens v = record {
    listed = All-append WasAccepted s.connections (some conn ∷ []) v.listed (happens, tt);
    mapped = v.mapped;
  }

  on_got_device_id-IsRouted :
      (s : Server) (conn : ℕ) (device_id : List ℕ)
      → Happens (got_device_id_step conn device_id) past
      → IsRouted s
      → IsRouted (on_got_device_id s conn device_id)
  unfolding on_got_device_id
  on_got_device_id-IsRouted s conn device_id happens v =
      elim (Bool-cases (holds conn s.connections)) [
        | inr missing ↦ rw missing v
        | inl found ↦ rw found (record {
          listed = All-erase_first conn s.connections v.listed;
          mapped = λ id c e. elim (set-mapped s.connection_map device_id id conn c e) [
            | inr old ↦ v.mapped id c old
            | inl (this, new) ↦
                subst
                  (λ (k : List ℕ × ℕ).
                    Happens (got_device_id_step k.1 k.0) past
                    × Happens (accept_step (some k.1)) past)
                  (λ i. (this i, new i)) (happens, holds-accepted conn s.connections found v.listed)
          ];
        })
      ]

  on_disconnected-IsRouted :
      (s : Server) (conn : ℕ) (device_id : List ℕ)
      → IsRouted s
      → IsRouted (on_disconnected s conn device_id)
  unfolding on_disconnected
  on_disconnected-IsRouted s conn device_id v = record {
    listed = All-remove_if conn [] s.connections tt v.listed;
    mapped = λ id c e. v.mapped id c (unset-mapped s.connection_map device_id id c e).1;
  }

  stop_called-IsRouted :
      (h : Host) (force : Bool) → IsRouted h.server → IsRouted (stop_called h force).server
  stop_called-IsRouted h force v = elim (stop_called-cases h force) [
    | inl none_ ↦ subst (λ (h' : Host). IsRouted h'.server) (sym none_) v
    | inr first ↦
        subst (λ (h' : Host). IsRouted h'.server) (sym first)
          (record { listed = v.listed; mapped = v.mapped })
  ]

  take_step-IsRouted :
      (h : Host) (step : Step)
      → Happens step past
      → IsRouted h.server
      → IsRouted (take_step h step).server
  unfolding take_step accept_ends
  take_step-IsRouted h (stop_step force) happens v = stop_called-IsRouted h force v
  take_step-IsRouted h handler_step happens v = handler_runs-IsRouted h h.context.posted v
  take_step-IsRouted h (accept_step none) happens v = v
  take_step-IsRouted h (accept_step (some conn)) happens v = elim (Bool-cases h.accepting) [
    | inl on ↦ rw on (accept-IsRouted h.server conn happens v)
    | inr off ↦ rw off v
  ]
  take_step-IsRouted h (got_device_id_step conn device_id) happens v =
      on_got_device_id-IsRouted h.server conn device_id happens v
  take_step-IsRouted h (disconnected_step conn device_id) happens v =
      on_disconnected-IsRouted h.server conn device_id v

  take_steps-IsRouted :
      (h : Host) (steps : List Step)
      → All (λ step. Happens step past) steps
      → IsRouted h.server
      → IsRouted (take_steps h steps).server
  take_steps-IsRouted h [] happen v = v
  take_steps-IsRouted h (step ∷ steps) happen v =
      take_steps-IsRouted (take_step h step) steps happen.1 (take_step-IsRouted h step happen.0 v)

  start-IsRouted : IsRouted start.server
  unfolding start tcp_server
  start-IsRouted = record { listed = tt; mapped = λ device_id conn e. absurd (ground arith) }

-- The steps that happen are the steps.
All-Happens :
    (before steps : List Step)
    → ((s : Step) → Happens s steps → Happens s before)
    → All (λ s. Happens s before) steps
All-Happens before [] h = tt
All-Happens before (step ∷ steps) h =
    (h step (inl refl), All-Happens before steps (λ s later. h s (inr later)))

-- Over the whole life of a server, a device's packets go only to a connection that was accepted and that
-- reported this very device id, whatever accepts, reports, disconnects and stops came in whatever order.
pub take_steps-routes :
    (steps : List Step) (device_id : List ℕ) (conn : ℕ)
    → (take_steps start steps).server.connection_map device_id ≡ some conn
    → Happens (got_device_id_step conn device_id) steps × Happens (accept_step (some conn)) steps
take_steps-routes steps device_id conn e =
    (take_steps-IsRouted steps start steps (All-Happens steps steps (λ s h. h))
        (start-IsRouted steps)).mapped
      device_id conn e
