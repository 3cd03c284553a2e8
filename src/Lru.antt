-- ===== src/Lru.antt =====
-- asyncmsg/asyncmsg/detail/lru.hpp, at uint64_t, the type at which the client uses it. An iterator of the
-- `std::list` is the number of its node; the map is an association list.
pub mod Table
pub mod Nodes
pub mod Exist
pub mod Put
mod Tests
use asyncmsg.Base.{
  ℕ, zero, suc, ◌+◌, Bool, true, false, Option, none, some, List, [], ◌∷◌, length, ltb, ◌==◌,
  if◌then◌else◌,
}

-- `l`, front first, as nodes with their values; `m`, from values to nodes; `unused` is the number of
-- the next node.
pub record Lru : Type 0 where
  pub cap : ℕ
  pub l : List (ℕ × ℕ)
  pub m : List (ℕ × ℕ)
  pub unused : ℕ

unfoldable pub lru : ℕ → Lru
lru cap = record { cap = cap; l = []; m = []; unused = 0 }

-- `m.find(v)`, `m[v] = node` and `m.erase(v)`.
unfoldable pub find : List (ℕ × ℕ) → ℕ → Option ℕ
find [] v = none
find ((k, node) ∷ m) v = if k == v then some node else find m v

unfoldable pub assign : List (ℕ × ℕ) → ℕ → ℕ → List (ℕ × ℕ)
assign [] v node = (v, node) ∷ []
assign ((k, old) ∷ m) v node = if k == v then (k, node) ∷ m else (k, old) ∷ assign m v node

unfoldable pub erase : List (ℕ × ℕ) → ℕ → List (ℕ × ℕ)
erase [] v = []
erase ((k, node) ∷ m) v = if k == v then m else (k, node) ∷ erase m v

-- `l.erase(it)`, `l.splice(l.begin(), l, it)`, `l.back()` and `l.pop_back()`. An iterator that is in
-- the list no more changes nothing here; `Put` and `Exist` show that none is used.
unfoldable pub erase_node : ℕ → List (ℕ × ℕ) → List (ℕ × ℕ)
erase_node i [] = []
erase_node i ((j, v) ∷ l) = if j == i then l else (j, v) ∷ erase_node i l

unfoldable pub value_of : ℕ → List (ℕ × ℕ) → Option ℕ
value_of i [] = none
value_of i ((j, v) ∷ l) = if j == i then some v else value_of i l

unfoldable pub splice_front : ℕ → List (ℕ × ℕ) → List (ℕ × ℕ)
splice_front i l = elim (value_of i l) [ none ↦ l | some v ↦ (i, v) ∷ erase_node i l ]

unfoldable pub back : ℕ × ℕ → List (ℕ × ℕ) → ℕ
back x [] = x.1
back x (y ∷ l) = back y l

unfoldable pub pop_back : ℕ × ℕ → List (ℕ × ℕ) → List (ℕ × ℕ)
pop_back x [] = []
pop_back x (y ∷ l) = x ∷ pop_back y l

-- `exist(v)`.
unfoldable pub exist : Lru → ℕ → Lru × Bool
exist c v = elim (find c.m v) [
  | none ↦ (c, false)
  | some node ↦ (record c { l = splice_front node c.l }, true)
]

-- The list after the first `if` of `put`.
unfoldable pub without_old : Lru → ℕ → List (ℕ × ℕ)
without_old c v = elim (find c.m v) [ none ↦ c.l | some node ↦ erase_node node c.l ]

-- `put(v)`; the list is not empty when its back is taken.
unfoldable pub put : Lru → ℕ → Lru
put c v =
    let rest = without_old c v in
    let m' = assign c.m v c.unused in
    if ltb c.cap (length m')
    then record c {
      l = pop_back (c.unused, v) rest;
      m = erase m' (back (c.unused, v) rest);
      unused = suc c.unused;
    }
    else record c { l = (c.unused, v) ∷ rest; m = m'; unused = suc c.unused }
