-- ===== src/IoBuffer/Inv.antt =====
-- The representation invariant: the positions are ordered and lie in the memory.
use asyncmsg.Base.{
  ℕ, ◌+◌, ◌-◌, ◌^◌, ◌≤◌, ◌<◌, ◌≡◌, refl, arith, min, List, ◌++◌, length, take, drop, length-append,
  length-take, length-drop, length-replicate, Bool-cases, ltb, inl, inr,
}
use asyncmsg.IoBuffer.{
  IoBuffer, io_buffer, size, capacity, free_size, make_room, prepare, commit, consume, fill,
}

pub record IsValid (b : IoBuffer) : Type 0 where
  pub memory : length b.buffer ≡ b.length_
  pub ordered : b.head_ ≤ b.tail_
  pub inside : b.tail_ ≤ b.length_
  pub small : b.length_ ≤ 2 ^ 63

-- A new buffer is valid and empty.
pub io_buffer-IsValid : (n : ℕ) → n ≤ 2 ^ 63 → IsValid (io_buffer n)
unfolding io_buffer
io_buffer-IsValid n h = record {
  memory = length-replicate n 0;
  ordered = omega arith;
  inside = omega arith;
  small = h;
}

-- No subtraction of `size`, `capacity` and `free_size` wraps.
pub sizes :
    {b : IoBuffer}
    → IsValid b
    → (size b ≡ b.tail_ - b.head_)
      × (capacity b ≡ b.length_ - (b.tail_ - b.head_))
      × (free_size b ≡ b.length_ - b.tail_)
unfolding size capacity free_size
sizes v = omega arith

pub make_room-IsValid : {b : IoBuffer} (n : ℕ) → IsValid b → IsValid (make_room b n)
unfolding make_room
make_room-IsValid {b} n v = elim (Bool-cases (ltb (free_size b) n)) [
  | inl tight ↦ rw tight (record {
    memory = omega (
      arith,
      length-append (take (size b) (drop b.head_ b.buffer)) (drop (size b) b.buffer),
      length-take (size b) (drop b.head_ b.buffer),
      length-drop b.head_ b.buffer,
      length-drop (size b) b.buffer,
      sizes v,
      v.memory,
      v.ordered,
      v.inside,
    );
    ordered = omega arith;
    inside = omega (arith, sizes v, v.inside);
    small = v.small;
  })
  | inr wide ↦ rw wide v
]

-- `prepare` keeps the invariant.
pub prepare-IsValid : {b : IoBuffer} (n : ℕ) → IsValid b → IsValid (prepare b n).0
unfolding prepare
prepare-IsValid n v = make_room-IsValid n v

-- The slab lies in the memory behind the stored bytes, and has the size asked for or, if that is too
-- much, all that is not stored bytes.
pub prepare_slab :
    {b : IoBuffer} (n : ℕ)
    → IsValid b
    → let (b', slab) = prepare b n in
      (slab.start ≡ b'.tail_)
      × (slab.start + slab.size ≤ b.length_)
      × (slab.size ≡ min n (b.length_ - size b))
unfolding prepare make_room
prepare_slab {b} n v = (
  refl,
  ground (arith, sizes v, sizes (make_room-IsValid n v)),
  ground (arith, sizes v, sizes (make_room-IsValid n v)),
)

-- `commit` of no more than fits keeps the invariant.
pub commit-IsValid :
    {b : IoBuffer} (n : ℕ) → IsValid b → n ≤ b.length_ - b.tail_ → IsValid (commit b n)
unfolding commit
commit-IsValid n v h = omega arith

-- `consume` keeps the invariant, also of more than is stored.
pub consume-IsValid : {b : IoBuffer} (n : ℕ) → IsValid b → n < 2 ^ 63 → IsValid (consume b n)
unfolding consume
consume-IsValid n v h = ground arith

pub fill-IsValid :
    {b : IoBuffer} (start : ℕ) (new : List ℕ)
    → IsValid b
    → start + length new ≤ b.length_
    → IsValid (fill b start new)
unfolding fill
fill-IsValid {b} start new v h = record {
  memory = omega (
    arith,
    length-append (take start b.buffer) (new ++ drop (start + length new) b.buffer),
    length-append new (drop (start + length new) b.buffer),
    length-take start b.buffer,
    length-drop (start + length new) b.buffer,
    v.memory,
  );
  ordered = v.ordered;
  inside = v.inside;
  small = v.small;
}
