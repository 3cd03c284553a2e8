-- ===== src/Ibuffer/Objects.antt =====
-- ibuffer.hpp: a program with many buffers, each at an address of its own.
pub mod Pointers
pub mod Leak
use asyncmsg.Base.{
  ℕ, Bool, true, false, Option, none, some, List, [], ◌∷◌, ◌==◌, if◌then◌else◌, set, unset,
}
use asyncmsg.Ibuffer.{Heap, Ibuffer, ibuffer, copy, move, assign_copy, assign_move, destroy}

pub record Memory : Type 0 where
  pub heap : Heap
  pub objects : ℕ → Option Ibuffer

-- The operations, with the address of the object first, and that of the source second.
pub data Operation : Type 0 where
  construct_op : ℕ → ℕ → Option (List ℕ) → Operation
  copy_op move_op assign_copy_op assign_move_op : ℕ → ℕ → Operation
  destroy_op : ℕ → Operation

-- `misused` is an operation on an object that is not there, or the construction of one that is;
-- `deleted_twice` a second `delete` of a block.
pub data Ran : Type 0 where
  done : Memory → Ran
  misused deleted_twice : Ran

unfoldable pub found : Option Ibuffer → (Ibuffer → Ran) → Ran
found none next = misused
found (some b) next = next b

unfoldable pub absent : Option Ibuffer → Ran → Ran
absent none next = next
absent (some b) next = misused

-- The object at `x` after an operation; and the one at `y` too, after a move.
abbrev pub put : Memory → ℕ → Heap × Ibuffer → Memory
put m x (h, b) = record { heap = h; objects = set ◌==◌ m.objects x b }

abbrev pub put_both : Memory → ℕ → ℕ → Heap × Ibuffer × Ibuffer → Memory
put_both m x y (h, b, other) = record {
  heap = h;
  objects = set ◌==◌ (set ◌==◌ m.objects x b) y other;
}

abbrev pub take_away : Memory → ℕ → Heap → Memory
take_away m x h = record { heap = h; objects = unset ◌==◌ m.objects x }

unfoldable pub or_twice {ℓ} : {A : Type ℓ} → (A → Memory) → Option A → Ran
or_twice f none = deleted_twice
or_twice f (some a) = done (f a)

unfoldable pub execute : (ℕ → List ℕ) → Memory → Operation → Ran
execute left m (construct_op x len buf) =
    absent (m.objects x) (done (put m x (ibuffer left m.heap len buf)))
execute left m (copy_op x y) =
    absent (m.objects x) (found (m.objects y) (λ other. done (put m x (copy left m.heap other))))
execute left m (move_op x y) =
    absent (m.objects x) (
      found (m.objects y) (λ other. done (put_both m x y (m.heap, (move other).0, (move other).1))))
execute left m (assign_copy_op x y) = found (m.objects x) (λ this.
    found (m.objects y)
      (λ other. if x == y then done m else or_twice (put m x) (assign_copy left m.heap this other)))
execute left m (assign_move_op x y) = found (m.objects x) (λ this.
    found (m.objects y) (λ other.
      if x == y then done m else or_twice (put_both m x y) (assign_move m.heap this other)))
execute left m (destroy_op x) =
    found (m.objects x) (λ this. or_twice (take_away m x) (destroy m.heap this))

unfoldable pub run : (ℕ → List ℕ) → Memory → List Operation → Ran
run left m [] = done m
run left m (op ∷ ops) = elim (execute left m op) [
  | done m' ↦ run left m' ops
  | misused ↦ misused
  | deleted_twice ↦ deleted_twice
]
