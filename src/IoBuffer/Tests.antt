-- ===== src/IoBuffer/Tests.antt =====
-- The buffer at concrete inputs.
use asyncmsg.Base.{◌≡◌, refl, arith, List, [], ◌∷◌}
use asyncmsg.IoBuffer.{
  IoBuffer, io_buffer, size, capacity, free_size, make_room, prepare, commit, consume, clear, fill,
}
use asyncmsg.IoBuffer.Inv.{IsValid}
use asyncmsg.IoBuffer.Contents.{contents}
use asyncmsg.IoBuffer.Queue.{
  Op, read, use_up, run, apply, read_in, queue_run, queue_apply, run_refines,
}

-- Eight bytes of memory, 3, 4 and 5 stored from index 4 on.
abbrev half_full : IoBuffer
half_full = record {
  buffer = 9 ∷ 9 ∷ 9 ∷ 9 ∷ 3 ∷ 4 ∷ 5 ∷ 9 ∷ [];
  length_ = 8;
  head_ = 4;
  tail_ = 7;
}

half_full-IsValid : IsValid half_full
half_full-IsValid = omega arith

abbrev script : List Op
script = use_up 1 ∷ read 4 (6 ∷ 7 ∷ 8 ∷ []) ∷ []

machine : Unit {0}
unfolding io_buffer size capacity free_size make_room prepare commit consume clear fill read_in
    apply run queue_apply queue_run
machine = tt

-- The read does not fit behind the bytes, so they are moved to the front.
script_runs : contents (run half_full script) ≡ 4 ∷ 5 ∷ 6 ∷ 7 ∷ 8 ∷ []
unfolding machine
script_runs = refl

run_refines_example :
    IsValid (run half_full script)
    × (contents (run half_full script) ≡ queue_run 8 (3 ∷ 4 ∷ 5 ∷ []) script)
run_refines_example = run_refines half_full script half_full-IsValid (omega arith)
