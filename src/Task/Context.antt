-- ===== src/Task/Context.antt =====
-- coroutine_util.hpp: where a task runs, and what its caller gets.
use asyncmsg.Base.{ℕ, ◌≡◌, refl, ◌∙◌}
use asyncmsg.Error.{Result, returned, thrown}
use asyncmsg.Task.{Awaitable, CoSpawn, go_back, do_context_aware_task}

module _ {ℓ κ} {S : Type ℓ} {A : Type κ} (asio : CoSpawn S A) where
  go_back_lem : (caller : ℕ) (r : S × Result A) → go_back asio caller r ≡ r
  unfolding go_back
  go_back_lem caller (s, thrown e) = refl
  go_back_lem caller (s, returned result) =
      asio.co_spawn_lem caller (λ ex t. (t, returned result)) caller s

  -- A task runs wholly on the executor it is given for, whichever executor its caller runs on; the
  -- caller gets the state that it leaves, and its result or its exception.
  pub do_context_aware_task_lem :
      (task : Awaitable S A) (executor caller : ℕ) (s : S)
      → do_context_aware_task asio task executor caller s ≡ task executor s
  unfolding do_context_aware_task
  do_context_aware_task_lem task executor caller s =
      go_back_lem caller (asio.co_spawn executor task caller s)
      ∙ asio.co_spawn_lem executor task caller s
