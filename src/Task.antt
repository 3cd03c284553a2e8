-- ===== src/Task.antt =====
-- asyncmsg/asyncmsg/detail/coroutine_util.hpp: a task that runs on the executor of the object that it
-- works on. A coroutine is a function of the executor that it runs on, and of the state, here of any
-- type.
pub mod Context
use asyncmsg.Base.{◌≡◌, ℕ}
use asyncmsg.Error.{Result, returned, thrown}

abbrev pub Awaitable {ℓ κ} : Type ℓ → Type κ → Type (ℓ ⊔ κ)
Awaitable S A = ℕ → S → S × Result A

-- `co_spawn` with `use_awaitable`: the coroutine runs on the executor given, and the one that waits
-- goes on with its result, or its exception.
pub record CoSpawn {ℓ κ} (S : Type ℓ) (A : Type κ) : Type (ℓ ⊔ κ) where
  pub co_spawn : ℕ → Awaitable S A → Awaitable S A
  pub co_spawn_lem :
      (executor : ℕ) (task : Awaitable S A) (caller : ℕ) (s : S)
      → co_spawn executor task caller s ≡ task executor s

module _ {ℓ κ} {S : Type ℓ} {A : Type κ} (asio : CoSpawn S A) where
  -- The second half of `do_context_aware_task`: back to the caller's executor with a result.
  unfoldable pub go_back : ℕ → S × Result A → S × Result A
  go_back caller_ex (s, thrown e) = (s, thrown e)
  go_back caller_ex (s, returned result0) =
      asio.co_spawn caller_ex (λ ex t. (t, returned result0)) caller_ex s

  unfoldable pub do_context_aware_task : Awaitable S A → ℕ → Awaitable S A
  do_context_aware_task task executor caller_ex s =
      go_back caller_ex (asio.co_spawn executor task caller_ex s)
