-- ===== src/Ibuffer/Tests.antt =====
-- Byte buffers at concrete inputs.
use asyncmsg.Base.{List, refl, arith, none, some, [], ◌∷◌, replicate, if◌then◌else◌, ◌==◌}
use asyncmsg.Ibuffer.{Heap}
use asyncmsg.Ibuffer.Objects.{
  Memory, Operation, construct_op, copy_op, move_op, assign_copy_op, assign_move_op, destroy_op,
  run,
}
use asyncmsg.Ibuffer.Objects.Pointers.{IsOwned}
use asyncmsg.Ibuffer.Objects.Leak.{IsFine, run-IsFine}

-- A heap with one block, and the buffer that owns it.
abbrev heap : Heap
heap = record { blocks = λ i. if i == 2 then some (7 ∷ 8 ∷ []) else none; unused = 3 }

-- No buffers yet.
abbrev bare : Memory
bare = record { heap = record { blocks = λ i. none; unused = 0 }; objects = λ x. none }

bare-IsOwned : IsOwned bare
bare-IsOwned = record {
  held = λ x i e. absurd (ground arith);
  alone = λ x y i e f. absurd (ground arith);
  kept = λ i given. absurd (given refl);
  unused_ = λ i le. refl;
}

-- Two buffers, a copy, both assignments and a move, and the end of one of them.
abbrev program : List Operation
program =
    construct_op 0 2 (some (7 ∷ 8 ∷ []))
    ∷ (copy_op 1 0
        ∷ (assign_move_op 0 1
            ∷ (assign_copy_op 1 0 ∷ (assign_copy_op 1 1 ∷ (move_op 2 1 ∷ (destroy_op 0 ∷ []))))))

run-IsFine_example : IsFine (run (λ n. replicate n 0) bare program)
run-IsFine_example = run-IsFine (λ n. replicate n 0) bare program bare-IsOwned
