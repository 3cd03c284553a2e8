-- ===== src/IoBuffer.antt =====
-- asyncmsg/asyncmsg/detail/io_buffer.hpp: the buffer between the socket and the decoder. `IoBuffer`
-- is `io_buffer_view` together with the memory that `io_buffer` owns; a pointer is an offset.
pub mod Inv
pub mod Contents
pub mod Queue
mod Tests
use asyncmsg.Base.{
  ℕ, ◌+◌, ◌-◌, ◌%◌, ◌^◌, List, [], ◌∷◌, ◌++◌, length, take, drop, replicate, ltb, leb,
  if◌then◌else◌,
}

pub record IoBuffer : Type 0 where
  pub buffer : List ℕ
  pub length_ : ℕ
  pub head_ : ℕ
  pub tail_ : ℕ

-- `slab`: where to write, and how much.
pub record Slab : Type 0 where
  pub start : ℕ
  pub size : ℕ

-- `size_t` addition and subtraction.
abbrev pub add64 : ℕ → ℕ → ℕ
add64 a b = (a + b) % 2 ^ 64

abbrev pub sub64 : ℕ → ℕ → ℕ
sub64 a b = (a + 2 ^ 64 - b) % 2 ^ 64

-- `io_buffer(size)`: `make_unique` zeroes the memory.
unfoldable pub io_buffer : ℕ → IoBuffer
io_buffer size = record { buffer = replicate size 0; length_ = size; head_ = 0; tail_ = 0 }

-- `assign(data, size)`.
unfoldable pub assign : List ℕ → ℕ → IoBuffer
assign bytes size = record { buffer = bytes; length_ = size; head_ = 0; tail_ = 0 }

unfoldable pub read_head : IoBuffer → ℕ
read_head b = b.head_

unfoldable pub write_head : IoBuffer → ℕ
write_head b = b.tail_

unfoldable pub size : IoBuffer → ℕ
size b = sub64 b.tail_ b.head_

unfoldable pub capacity : IoBuffer → ℕ
capacity b = sub64 b.length_ (size b)

unfoldable pub free_size : IoBuffer → ℕ
free_size b = sub64 b.length_ b.tail_

-- `memmove(buffer, buffer + from, n)`.
abbrev pub memmove_front : List ℕ → ℕ → ℕ → List ℕ
memmove_front bytes from n = take n (drop from bytes) ++ drop n bytes

-- The first half of `prepare`: make as much room as possible.
unfoldable pub make_room : IoBuffer → ℕ → IoBuffer
make_room b n =
    if ltb (free_size b) n
    then record b { buffer = memmove_front b.buffer b.head_ (size b); tail_ = size b; head_ = 0 }
    else b

-- `prepare(n)`: the buffer afterwards and the slab.
unfoldable pub prepare : IoBuffer → ℕ → IoBuffer × Slab
prepare b n =
    let roomy = make_room b n in
    (
      roomy,
      record { start = roomy.tail_; size = if ltb (capacity roomy) n then capacity roomy else n },
    )

unfoldable pub commit : IoBuffer → ℕ → IoBuffer
commit b n = record b { tail_ = add64 b.tail_ n }

unfoldable pub consume : IoBuffer → ℕ → IoBuffer
consume b n =
    if leb b.tail_ (add64 b.head_ n)
    then record b { head_ = 0; tail_ = 0 }
    else record b { head_ = add64 b.head_ n }

unfoldable pub clear : IoBuffer → IoBuffer
clear b = record b { head_ = 0; tail_ = 0 }

-- What a reader of the socket does with a slab: the bytes are written from its start on.
abbrev pub overwrite : List ℕ → ℕ → List ℕ → List ℕ
overwrite bytes start new = take start bytes ++ (new ++ drop (start + length new) bytes)

unfoldable pub fill : IoBuffer → ℕ → List ℕ → IoBuffer
fill b start new = record b { buffer = overwrite b.buffer start new }
