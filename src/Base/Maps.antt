-- ===== src/Base/Maps.antt =====
-- Maps as functions, and the comparison of strings.
use Prim.Native.Nat.{ℕ}
use mathlib.Core.Path.{◌≡◌, refl, ap₂}
use mathlib.Core.Bool.{Bool, true, false, ◌&&◌}
use mathlib.Core.Option.{Option, none, some}
use mathlib.Core.List.{List, [], ◌∷◌}
use native.Mathlib.Omega.{arith}
use asyncmsg.Base.Tests.{◌==◌, if◌then◌else◌}

-- Equality of strings.
abbrev pub same : List ℕ → List ℕ → Bool
same [] [] = true
same [] (y ∷ ys) = false
same (x ∷ xs) [] = false
same (x ∷ xs) (y ∷ ys) = (x == y) && same xs ys

pub same→eq : (xs ys : List ℕ) → same xs ys ≡ true → xs ≡ ys
same→eq [] [] h = refl
same→eq [] (y ∷ ys) h = ground arith
same→eq (x ∷ xs) [] h = ground arith
same→eq (x ∷ xs) (y ∷ ys) h = ap₂ ◌∷◌ (ground arith) (same→eq xs ys (ground arith))

pub same_refl : (xs : List ℕ) → same xs xs ≡ true
same_refl [] = refl
same_refl (x ∷ xs) = ground (arith, same_refl xs)

abbrev pub is_empty : List ℕ → Bool
is_empty [] = true
is_empty (x ∷ xs) = false

-- `m[k] = v`, `m.erase(k)`, with the comparison of the keys.
abbrev pub set {ℓ κ} :
    {K : Type ℓ} {V : Type κ} → (K → K → Bool) → (K → Option V) → K → V → K → Option V
set same_key m k v key = if same_key k key then some v else m key

abbrev pub unset {ℓ κ} :
    {K : Type ℓ} {V : Type κ} → (K → K → Bool) → (K → Option V) → K → K → Option V
unset same_key m k key = if same_key k key then none else m key
