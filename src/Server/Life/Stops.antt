-- ===== src/Server/Life/Stops.antt =====
-- tcp_server.hpp: what becomes of a `stop`.
use asyncmsg.Base.{
  ◌⊎◌, ℕ, Bool, true, false, none, some, List, [], ◌∷◌, ◌≡◌, refl, sym, ap, subst, ◌∙◌, inl, inr,
  Bool-cases, if◌then◌else◌,
}
use asyncmsg.Context.{Context, new_context, post, IsRunning, Stops, post-Stops, finish-IsStopped}
use asyncmsg.Server.{
  Server, tcp_server, accept, on_got_device_id, on_disconnected, stop, stop_handler, holds,
}
use asyncmsg.Server.Life.{
  Host, start, stop_called, handler_runs, accept_ends, Step, stop_step, handler_step, accept_step,
  got_device_id_step, disconnected_step, take_step, take_steps, destroy,
}

abbrev pub HostRuns : Host → Type 0
HostRuns h = IsRunning h.server.stopped h.context

abbrev pub HostStops : Bool → Host → Type 0
HostStops force h = Stops force h.server.stopped h.context

Stops-stopped : (force stopped : Bool) (c : Context) → Stops force stopped c → stopped ≡ true
Stops-stopped force stopped c (inl h) = h.0
Stops-stopped force stopped c (inr h) = h.0

stop_if : Host → Bool → Bool → Host
stop_if h again true = h
stop_if h again false = record h {
  server = record h.server { stopped = true };
  context = post h.context again;
}

stop_called_lem :
    (h : Host) (again b : Bool) → h.server.stopped ≡ b → stop_called h again ≡ stop_if h again b
unfolding stop_called stop stop_if
stop_called_lem h again b e =
    ap
      (λ b.
        let stopped : Server × Bool =
          if b then (h.server, false) else (record h.server { stopped = true }, true) in
        if stopped.1 then record h { server = stopped.0; context = post h.context again } else h)
      e
    ∙ go b
  where
    go :
        (b : Bool)
        → ◌≡◌ {A = Host}
            (let stopped : Server × Bool =
                if b then (h.server, false) else (record h.server { stopped = true }, true) in
              if stopped.1
              then record h { server = stopped.0; context = post h.context again }
              else h)
            (stop_if h again b)
    go true = refl
    go false = refl

-- `stop` changes nothing, or sets the flag and posts the handler.
pub stop_called-cases :
    (h : Host) (force : Bool)
    → (stop_called h force ≡ h)
      ⊎ (stop_called h force ≡ record h {
        server = record h.server { stopped = true };
        context = post h.context force;
      })
unfolding stop_if
stop_called-cases h force = elim (Bool-cases h.server.stopped) [
  | inl e ↦ inl (stop_called_lem h force true e)
  | inr e ↦ inr (stop_called_lem h force false e)
]

stop_called-HostStops :
    (h : Host) (force again : Bool) → HostStops force h → HostStops force (stop_called h again)
unfolding stop_if
stop_called-HostStops h force again v =
    subst (HostStops force)
      (sym (stop_called_lem h again true (Stops-stopped force h.server.stopped h.context v))) v

handler_runs-HostStops :
    (h : Host) (force : Bool)
    → HostStops force h
    → HostStops force (handler_runs h h.context.posted)
unfolding handler_runs stop_handler
handler_runs-HostStops h force (inl v) =
    subst (λ posted. HostStops force (handler_runs h posted)) (sym v.1)
      (inr (finish-IsStopped force h.server.stopped h.context v))
handler_runs-HostStops h force (inr v) =
    subst (λ posted. HostStops force (handler_runs h posted)) (sym v.1) (inr v)

stopped-on_got_device_id :
    (s : Server) (conn : ℕ) (device_id : List ℕ)
    → (on_got_device_id s conn device_id).stopped ≡ s.stopped
unfolding on_got_device_id
stopped-on_got_device_id s conn device_id = elim (Bool-cases (holds conn s.connections)) [
  | inl found ↦ rw found refl
  | inr missing ↦ rw missing refl
]

take_step-HostStops :
    (h : Host) (force : Bool) (step : Step) → HostStops force h → HostStops force (take_step h step)
unfolding take_step accept_ends accept on_disconnected
take_step-HostStops h force (stop_step again) v = stop_called-HostStops h force again v
take_step-HostStops h force handler_step v = handler_runs-HostStops h force v
take_step-HostStops h force (accept_step none) v = v
take_step-HostStops h force (accept_step (some conn)) v = elim (Bool-cases h.accepting) [
  | inl on ↦ rw on v
  | inr off ↦ rw off v
]
take_step-HostStops h force (got_device_id_step conn device_id) v =
    subst (λ stopped. Stops force stopped h.context)
      (sym (stopped-on_got_device_id h.server conn device_id)) v
take_step-HostStops h force (disconnected_step conn device_id) v = v

take_steps-HostStops :
    (h : Host) (force : Bool) (steps : List Step)
    → HostStops force h
    → HostStops force (take_steps h steps)
take_steps-HostStops h force [] v = v
take_steps-HostStops h force (step ∷ steps) v =
    take_steps-HostStops (take_step h step) force steps (take_step-HostStops h force step v)

first : (h : Host) (force : Bool) → HostRuns h → HostStops force (stop_called h force)
unfolding stop_if
first h force v =
    subst (HostStops force) (sym (stop_called_lem h force false v.0))
      (post-Stops h.context force (refl, v.1, v.2, v.3))

-- Only the first `stop` counts: whatever happens after it, later stops and the destructor included,
-- exactly one handler is posted, which runs at most once, and the context is forced to end if and only
-- if the first `stop` was forced, once the handler has run.
pub stop_called-first :
    (h : Host) (force : Bool) (steps : List Step)
    → HostRuns h
    → HostStops force (take_steps (stop_called h force) steps)
      × HostStops force (destroy (take_steps (stop_called h force) steps))
unfolding destroy
stop_called-first h force steps v =
    let stops = take_steps-HostStops (stop_called h force) force steps (first h force v) in
    (stops, handler_runs-HostStops _ force (stop_called-HostStops _ force true stops))

pub start-HostRuns : HostRuns start
unfolding start tcp_server new_context
start-HostRuns = (refl, refl, refl, refl)
