-- ===== src/Ibuffer.antt =====
-- asyncmsg/asyncmsg/base/ibuffer.hpp: byte buffers that own their memory, on an explicit heap.
pub mod Copies
pub mod Owned
pub mod Objects
mod Tests
use asyncmsg.Base.{
  ℕ, zero, suc, ◌==◌, Bool, true, false, Option, none, some, List, [], ◌∷◌, take, ltb,
  if◌then◌else◌, set, unset,
}

-- The blocks that `new` gave out and `delete` did not take back; `unused` is the next address.
pub record Heap : Type 0 where
  pub blocks : ℕ → Option (List ℕ)
  pub unused : ℕ

-- `buf` is `buf_`, null or the address of a block.
pub record Ibuffer : Type 0 where
  pub buf : Option ℕ
  pub len : ℕ

-- The object after `destruct`, and the source of a move.
abbrev pub nothing : Ibuffer
nothing = record { buf = none; len = 0 }

-- The bytes that a pointer is to.
unfoldable pub at : Heap → Option ℕ → Option (List ℕ)
at h none = none
at h (some i) = h.blocks i

-- `construct(buf, len)`, with the bytes at `buf`, `none` for a null pointer; `left n` is what `n` new
-- bytes hold.
unfoldable pub construct : (ℕ → List ℕ) → Heap → Option (List ℕ) → ℕ → Heap × Ibuffer
construct left h source len =
    if ltb 0 len
    then (
      record {
        blocks =
            set ◌==◌ h.blocks h.unused
              (elim source [ none ↦ left len | some bytes ↦ take len bytes ]);
        unused = suc h.unused;
      },
      record { buf = some h.unused; len = len },
    )
    else (h, record { buf = none; len = len })

-- `destruct()`; `none` is a second `delete` of a block.
unfoldable pub destruct : Heap → Ibuffer → Option Heap
destruct h b = elim b.buf [
  | none ↦ some h
  | some i ↦ elim (h.blocks i) [
    | none ↦ none
    | some bytes ↦ some (record h { blocks = unset ◌==◌ h.blocks i })
  ]
]

-- The copy constructor, and the move constructor with the source afterwards.
unfoldable pub copy : (ℕ → List ℕ) → Heap → Ibuffer → Heap × Ibuffer
copy left h other = construct left h (at h other.buf) other.len

unfoldable pub move : Ibuffer → Ibuffer × Ibuffer
move other = (other, nothing)

-- The assignments from another object: the heap and the object afterwards, and for a move the source.
unfoldable pub assign_copy : (ℕ → List ℕ) → Heap → Ibuffer → Ibuffer → Option (Heap × Ibuffer)
assign_copy left h this other = elim (destruct h this) [
  | none ↦ none
  | some h' ↦ some (construct left h' (at h' other.buf) other.len)
]

unfoldable pub assign_move : Heap → Ibuffer → Ibuffer → Option (Heap × Ibuffer × Ibuffer)
assign_move h this other = elim (destruct h this) [
  | none ↦ none
  | some h' ↦ some (h', other, nothing)
]

-- The constructor, and the destructor.
unfoldable pub ibuffer : (ℕ → List ℕ) → Heap → ℕ → Option (List ℕ) → Heap × Ibuffer
ibuffer left h len buf = construct left h buf len

unfoldable pub destroy : Heap → Ibuffer → Option Heap
destroy h b = destruct h b

unfoldable pub empty : Ibuffer → Bool
empty b = b.len == 0

unfoldable pub data_ : Ibuffer → Option ℕ
data_ b = b.buf

unfoldable pub size : Ibuffer → ℕ
size b = b.len
