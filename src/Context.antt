-- ===== src/Context.antt =====
-- The part of asio that tcp_server.hpp and tcp_client.hpp stop with: an io_context, its work guard, and
-- the handlers of `stop` that are posted to it.
use asyncmsg.Base.{Bool, true, false, List, [], ◌∷◌, ◌++◌, ◌≡◌, refl, if◌then◌else◌, ◌⊎◌, inl, ap}

-- `posted` is the handlers of `stop` that have not run yet, each with its `force`; `forced` tells whether
-- `io_context.stop()` was called.
pub record Context : Type 0 where
  pub posted : List Bool
  pub guarded : Bool
  pub forced : Bool

unfoldable pub new_context : Context
new_context = record { posted = []; guarded = true; forced = false }

-- `asio::post` of the handler.
unfoldable pub post : Context → Bool → Context
post c force = record c { posted = c.posted ++ force ∷ [] }

-- The end of the handler: `work_guard.reset()`, and `io_context.stop()` if forced.
unfoldable pub finish : Context → Bool → List Bool → Context
finish c force later = record {
  posted = later;
  guarded = false;
  forced = if force then true else c.forced;
}

-- Before `stop`; after it, until its handler has run; and after that.
abbrev pub IsRunning : Bool → Context → Type 0
IsRunning stopped c = (stopped ≡ false) × (c.posted ≡ []) × (c.guarded ≡ true) × (c.forced ≡ false)

abbrev pub IsStopping : Bool → Bool → Context → Type 0
IsStopping force stopped c =
    (stopped ≡ true) × (c.posted ≡ force ∷ []) × (c.guarded ≡ true) × (c.forced ≡ false)

abbrev pub IsStopped : Bool → Bool → Context → Type 0
IsStopped force stopped c =
    (stopped ≡ true) × (c.posted ≡ []) × (c.guarded ≡ false) × (c.forced ≡ force)

-- The handler of a `stop` with this `force` is to run, or has.
abbrev pub Stops : Bool → Bool → Context → Type 0
Stops force stopped c = IsStopping force stopped c ⊎ IsStopped force stopped c

pub post-Stops : (c : Context) (force : Bool) → IsRunning false c → Stops force true (post c force)
unfolding post
post-Stops c force h = inl (refl, ap (λ l. l ++ force ∷ []) h.1, h.2, h.3)

pub finish-IsStopped :
    (force stopped : Bool) (c : Context)
    → IsStopping force stopped c
    → IsStopped force stopped (finish c force [])
unfolding finish
finish-IsStopped true stopped c h = (h.0, refl, refl, refl)
finish-IsStopped false stopped c h = (h.0, refl, refl, h.3)
