-- ===== src/Client/Life/Stops.antt =====
-- tcp_client.hpp: what becomes of a client after `stop`.
use asyncmsg.Base.{
  ℕ, Bool, true, false, Option, none, some, List, [], ◌∷◌, ◌++◌, ◌≡◌, refl, sym, ap, subst,
  if◌then◌else◌, All,
}
use asyncmsg.Context.{Context, post, IsRunning, IsStopping}
use asyncmsg.Packet.{Packet}
use asyncmsg.Client.{Client, on_disconnected, stop, stop_handler, heartbeat_round}
use asyncmsg.Client.Life.{
  Host, stop_called, handler_runs, connect_begins, connect_ends, heartbeat, Step, stop_step,
  handler_step, connect_begins_step, heartbeat_step, disconnected_step, connect_ends_step,
  take_step, take_steps, unless_forced,
}

-- A stopped client without a connection and without an attempt at one, that has sent this.
abbrev pub IsQuiet : Host → List (ℕ × Packet) → Type 0
IsQuiet h sent =
    (h.client.stopped ≡ true) × (h.connecting ≡ false) × (h.client.conn ≡ none) × (h.sent ≡ sent)

-- The step that runs a handler of `stop`.
abbrev pub IsHandler : Step → Type 0
IsHandler handler_step = Unit
IsHandler (stop_step force) = ⊥
IsHandler connect_begins_step = ⊥
IsHandler heartbeat_step = ⊥
IsHandler disconnected_step = ⊥
IsHandler (connect_ends_step made) = ⊥

stop_stopped : (c : Client) → c.stopped ≡ true → stop c ≡ (c, false)
unfolding stop
stop_stopped c e = ap (λ b. if b then (c, false) else (record c { stopped = true }, true)) e

stop_called_stopped : (h : Host) (force : Bool) → h.client.stopped ≡ true → stop_called h force ≡ h
unfolding stop_called
stop_called_stopped h force e =
    ap
      (λ (stopped : Client × Bool).
        if stopped.1 then record h { client = stopped.0; context = post h.context force } else h)
      (stop_stopped h.client e)

heartbeat_stopped :
    (c : Client) (generator : ℕ)
    → c.stopped ≡ true
    → heartbeat_round c generator ≡ (none, generator)
unfolding heartbeat_round
heartbeat_stopped c generator e = rw (e, heartbeat_round) refl

-- A stopped client that makes no attempt to connect, and has sent this.
abbrev pub IsIdle : Host → List (ℕ × Packet) → Type 0
IsIdle h sent = (h.client.stopped ≡ true) × (h.connecting ≡ false) × (h.sent ≡ sent)

-- What a step of a stopped client keeps: that it is idle, and a property `P` of its connection and context that
-- the loss of the connection keeps.
module _ (P : Option ℕ → Context → Type 0)
    (lost : (c : Context) (conn : Option ℕ) → P conn c → P none c) (sent : List (ℕ × Packet)) where
  abbrev Keeps : Host → Type 0
  Keeps h = IsIdle h sent × P h.client.conn h.context

  unless_forced-Keeps : (h next : Host) → Keeps h → Keeps next → Keeps (unless_forced h next)
  unfolding unless_forced
  unless_forced-Keeps h next v w = elim h.context.forced as (λ b. Keeps (if b then h else next)) [
    | true ↦ v
    | false ↦ w
  ]

  take_step-Keeps :
      (h : Host) (step : Step)
      → ((h' : Host) (posted : List Bool)
          → Keeps h'
          → IsHandler step
          → Keeps (handler_runs h' posted))
      → Keeps h
      → Keeps (take_step h step)
  unfolding take_step connect_begins connect_ends heartbeat on_disconnected
  take_step-Keeps h (stop_step force) handler v =
      subst Keeps (sym (stop_called_stopped h force v.0.0)) v
  take_step-Keeps h handler_step handler v =
      unless_forced-Keeps h _ v (handler h h.context.posted v tt)
  take_step-Keeps h connect_begins_step handler v = unless_forced-Keeps h _ v (
      subst
        (λ b. Keeps (
          if b
          then h
          else elim h.client.conn [ none ↦ record h { connecting = true } | some conn ↦ h ]))
        (sym v.0.0) v)
  take_step-Keeps h (connect_ends_step none) handler v =
      unless_forced-Keeps h _ v ((v.0.0, refl, v.0.2), v.1)
  take_step-Keeps h (connect_ends_step (some made)) handler v = unless_forced-Keeps h _ v (
      subst
        (λ b. Keeps (
          if b
          then record h { connecting = false; client = record h.client { conn = some made } }
          else h))
        (sym v.0.1) v)
  take_step-Keeps h heartbeat_step handler v = unless_forced-Keeps h _ v (
      subst
        (λ (beat : Option (ℕ × Packet) × ℕ). Keeps (record h {
          generator = beat.1;
          sent = elim beat.0 [ none ↦ h.sent | some pack ↦ pack ∷ h.sent ];
        }))
        (sym (heartbeat_stopped h.client h.generator v.0.0)) v)
  take_step-Keeps h disconnected_step handler v =
      unless_forced-Keeps h _ v (v.0, lost h.context h.client.conn v.1)

stop_running :
    (h : Host) (force : Bool)
    → h.client.stopped ≡ false
    → stop_called h force
      ≡ record h { client = record h.client { stopped = true }; context = post h.context force }
unfolding stop_called stop
stop_running h force e =
    ap
      (λ b.
        let stopped : Client × Bool =
          if b then (h.client, false) else (record h.client { stopped = true }, true) in
        if stopped.1 then record h { client = stopped.0; context = post h.context force } else h)
      e

posted-IsStopping :
    (c : Context) (force stopped : Bool)
    → IsRunning stopped c
    → IsStopping force true (post c force)
unfolding post
posted-IsStopping c force stopped v = (refl, ap (λ l. l ++ force ∷ []) v.1, v.2, v.3)

-- Until the handler of the stop runs, it is the one that is posted.
steps-IsStopping :
    (h : Host) (force : Bool) (between : List Step) (sent : List (ℕ × Packet))
    → All (λ step. ¬ IsHandler step) between
    → IsIdle h sent × IsStopping force true h.context
    → let waiting = take_steps h between in
      IsIdle waiting sent × IsStopping force true waiting.context
steps-IsStopping h force [] sent none_ v = v
steps-IsStopping h force (step ∷ between) sent none_ v =
    steps-IsStopping (take_step h step) force between sent none_.1 (
      take_step-Keeps (λ conn c. IsStopping force true c) (λ c conn s. s) sent h step
        (λ h' posted v' handler. absurd (none_.0 handler)) v)

handler_runs_lem :
    (h : Host) (posted : List Bool) (sent : List (ℕ × Packet))
    → IsIdle h sent × (h.client.conn ≡ none)
    → IsIdle (handler_runs h posted) sent × ((handler_runs h posted).client.conn ≡ none)
unfolding handler_runs stop_handler
handler_runs_lem h [] sent v = v
handler_runs_lem h (force ∷ later) sent v = (v.0, refl)

steps-IsQuiet :
    (h : Host) (steps : List Step) (sent : List (ℕ × Packet))
    → IsIdle h sent × (h.client.conn ≡ none)
    → IsQuiet (take_steps h steps) sent
steps-IsQuiet h [] sent v = (v.0.0, v.0.1, v.1, v.0.2)
steps-IsQuiet h (step ∷ steps) sent v = steps-IsQuiet (take_step h step) steps sent (
    take_step-Keeps (λ conn c. conn ≡ none) (λ c conn e. refl) sent h step
      (λ h' posted v' handler. handler_runs_lem h' posted sent v') v)

-- The handler of the stop takes the connection away.
handler_step_lem :
    (h : Host) (force : Bool) (sent : List (ℕ × Packet))
    → IsIdle h sent × IsStopping force true h.context
    → IsIdle (take_step h handler_step) sent × ((take_step h handler_step).client.conn ≡ none)
unfolding take_step unless_forced handler_runs stop_handler
handler_step_lem h force sent v =
    rw (v.1.3, v.1.1, take_step, unless_forced, handler_runs) (v.0, refl)

take_steps-append :
    (h : Host) (steps more : List Step)
    → take_steps h (steps ++ more) ≡ take_steps (take_steps h steps) more
take_steps-append h [] more = refl
take_steps-append h (step ∷ steps) more = take_steps-append (take_step h step) steps more

-- `stop` is called on a running client while no attempt to connect is under way. Whatever else happens before the
-- posted handler of the stop runs, the client is stopped, makes no attempt and has sent no heartbeat since; and
-- once the handler has run, it has no connection either and never gets one, and it makes no attempt and sends no
-- heartbeat, whatever happens later.
pub take_steps-IsQuiet :
    (h : Host) (force : Bool) (between steps : List Step)
    → IsRunning h.client.stopped h.context
    → h.connecting ≡ false
    → All (λ step. ¬ IsHandler step) between
    → IsIdle (take_steps h (stop_step force ∷ between)) h.sent
      × IsQuiet (take_steps h (stop_step force ∷ between ++ handler_step ∷ steps)) h.sent
unfolding take_step
take_steps-IsQuiet h force between steps v idle none_ =
    let stopping : IsIdle (stop_called h force) h.sent
        × IsStopping force true (stop_called h force).context =
      subst (λ (h' : Host). IsIdle h' h.sent × IsStopping force true h'.context)
        (sym (stop_running h force v.0))
        ((refl, idle, refl), posted-IsStopping h.context force h.client.stopped v) in
    let waiting = steps-IsStopping (stop_called h force) force between h.sent none_ stopping in
    (
      waiting.0,
      subst (λ h'. IsQuiet h' h.sent)
          (sym (take_steps-append (stop_called h force) between (handler_step ∷ steps)))
          (steps-IsQuiet _ steps h.sent
            (handler_step_lem (take_steps (stop_called h force) between) force h.sent waiting)),
    )
