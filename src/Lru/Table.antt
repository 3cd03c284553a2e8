-- ===== src/Lru/Table.antt =====
-- The laws of the map.
use asyncmsg.Base.{ℕ, ◌+◌, ◌≡◌, refl, arith, none, some, List, [], ◌∷◌, length, ◌==◌, if◌then◌else◌}
use asyncmsg.Lru.{find, assign, erase}

-- No key stands twice.
abbrev pub KeysDistinct : List (ℕ × ℕ) → Type 0
KeysDistinct [] = Unit
KeysDistinct ((k, node) ∷ m) = (find m k ≡ none) × KeysDistinct m

pub find-assign :
    (m : List (ℕ × ℕ)) (v node w : ℕ)
    → find (assign m v node) w ≡ (if v == w then some node else find m w)
unfolding find assign
find-assign [] v node w = refl
find-assign ((k, old) ∷ m) v node w = ground (arith, find-assign m v node w)

pub find-erase :
    (m : List (ℕ × ℕ)) (v w : ℕ)
    → KeysDistinct m
    → find (erase m v) w ≡ (if v == w then none else find m w)
unfolding find erase
find-erase [] v w h = ground arith
find-erase ((k, node) ∷ m) v w h = ground (arith, find-erase m v w h.1)

pub assign-KeysDistinct :
    (m : List (ℕ × ℕ)) (v node : ℕ) → KeysDistinct m → KeysDistinct (assign m v node)
unfolding find assign
assign-KeysDistinct [] v node h = (refl, tt)
assign-KeysDistinct ((k, old) ∷ m) v node h =
    ground (arith, assign-KeysDistinct m v node h.1, find-assign m v node k)

pub erase-KeysDistinct : (m : List (ℕ × ℕ)) (v : ℕ) → KeysDistinct m → KeysDistinct (erase m v)
unfolding find erase
erase-KeysDistinct [] v h = tt
erase-KeysDistinct ((k, node) ∷ m) v h =
    ground (arith, erase-KeysDistinct m v h.1, find-erase m v k h.1)

pub length-assign_new :
    (m : List (ℕ × ℕ)) (v node : ℕ) → find m v ≡ none → length (assign m v node) ≡ length m + 1
unfolding find assign
length-assign_new [] v node h = omega arith
length-assign_new ((k, old) ∷ m) v node h = ground (arith, length-assign_new m v node)

pub length-assign_old :
    (m : List (ℕ × ℕ)) (v node old : ℕ) → find m v ≡ some old → length (assign m v node) ≡ length m
unfolding find assign
length-assign_old [] v node old h = ground arith
length-assign_old ((k, other) ∷ m) v node old h = ground (arith, length-assign_old m v node old)

pub length-erase :
    (m : List (ℕ × ℕ)) (v node : ℕ) → find m v ≡ some node → length (erase m v) + 1 ≡ length m
unfolding find erase
length-erase [] v node h = ground arith
length-erase ((k, other) ∷ m) v node h = ground (arith, length-erase m v node)
