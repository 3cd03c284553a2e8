-- ===== src/Ibuffer/Objects/Pointers.antt =====
-- ibuffer.hpp: what construction and destruction do to the pointers of the objects.
use asyncmsg.Base.{
  arith, ◌≢◌, unset, ℕ, ◌≡◌, refl, ◌∙◌, ap, subst, Option, none, some, List, ◌==◌, ==_iff, ltb,
  Bool-cases, Option-cases, inl, inr, set,
}
use asyncmsg.Ibuffer.{nothing, Heap, Ibuffer, construct, destruct}
use asyncmsg.Ibuffer.Owned.{
  Owned, with_pointer, without_block, Owned-with_block, Owned-without_block, Owned-same,
}
use asyncmsg.Ibuffer.Objects.{Memory, put}

-- The pointer of an object; no object, no pointer.
abbrev pub buf_of : Option Ibuffer → Option ℕ
buf_of none = none
buf_of (some b) = b.buf

abbrev pub pointers : Memory → ℕ → Option ℕ
pointers m x = buf_of (m.objects x)

-- Every block is some object's own.
abbrev pub IsOwned : Memory → Type 0
IsOwned m = Owned (pointers m) m.heap

no_pointer : (p : ℕ → Option ℕ) (x y : ℕ) → p x ≡ none → p y ≡ with_pointer p x none y
no_pointer p x y e = elim (Bool-cases (x == y)) [
  | inl same ↦ rw same (subst (λ z. p z ≡ none) ((==_iff x y).0 same) e)
  | inr other ↦ rw other refl
]

pub construct-Owned :
    (left : ℕ → List ℕ) (p : ℕ → Option ℕ) (h : Heap) (x : ℕ) (source : Option (List ℕ)) (len : ℕ)
    → Owned p h
    → p x ≡ none
    → let r = construct left h source len in Owned (with_pointer p x r.1.buf) r.0
unfolding construct
construct-Owned left p h x source len v free = elim (Bool-cases (ltb 0 len)) [
  | inl some_ ↦ rw some_ (Owned-with_block p h x _ v free)
  | inr zero_ ↦ rw zero_ (Owned-same p (with_pointer p x none) h v (λ y. no_pointer p x y free))
]

destruct-Owned :
    (p : ℕ → Option ℕ) (h : Heap) (x : ℕ) (b : Ibuffer)
    → Owned p h
    → p x ≡ b.buf
    → (h' : Heap) × (destruct h b ≡ some h') × Owned (with_pointer p x none) h'
unfolding destruct
destruct-Owned p h x b v e = elim (Option-cases b.buf) [
  | inl null ↦ (
    h,
    rw (null, destruct) refl,
    Owned-same p (with_pointer p x none) h v (λ y. no_pointer p x y (e ∙ null)),
  )
  | inr (i, points) ↦ elim (Option-cases (h.blocks i)) [
    | inl gone ↦ absurd (v.held x i (e ∙ points) gone)
    | inr (bytes, there) ↦ (
      without_block h i,
      rw (points, destruct, there) refl,
      Owned-without_block p h x i v (e ∙ points),
    )
  ]
]

pointers-set :
    (objects : ℕ → Option Ibuffer) (x y : ℕ) (b : Ibuffer)
    → with_pointer (λ z. buf_of (objects z)) x b.buf y ≡ buf_of (set ◌==◌ objects x b y)
pointers-set objects x y b = elim (Bool-cases (x == y)) [
  | inl same ↦ rw same refl
  | inr other ↦ rw other refl
]

pub put-IsOwned :
    (m : Memory) (x : ℕ) (r : Heap × Ibuffer)
    → Owned (with_pointer (pointers m) x r.1.buf) r.0
    → IsOwned (put m x r)
put-IsOwned m x (h, b) v = Owned-same _ _ h v (λ y. pointers-set m.objects x y b)

pub no_object : (m : Memory) (x : ℕ) → m.objects x ≡ none → pointers m x ≡ none
no_object m x e = ap buf_of e

-- After the destructor of the object at `x`, its pointer is no more.
pub ended :
    (m : Memory) (x : ℕ) (this : Ibuffer)
    → IsOwned m
    → m.objects x ≡ some this
    → (h' : Heap) × (destruct m.heap this ≡ some h') × Owned (with_pointer (pointers m) x none) h'
ended m x this v e = destruct-Owned (pointers m) m.heap x this v (ap buf_of e)

pub twice_pointer :
    (p : ℕ → Option ℕ) (x y : ℕ) (a b : Option ℕ)
    → with_pointer (with_pointer p x a) x b y ≡ with_pointer p x b y
twice_pointer p x y a b = elim (Bool-cases (x == y)) [
  | inl same ↦ rw same refl
  | inr other ↦ rw other refl
]

pub pointers-set_both :
    (objects : ℕ → Option Ibuffer) (x y z : ℕ) (b : Ibuffer) (q : ℕ → Option ℕ)
    → ((w : ℕ) → with_pointer q x b.buf w ≡ with_pointer (λ w. buf_of (objects w)) x b.buf w)
    → q y ≡ b.buf
    → with_pointer (with_pointer q x (q y)) y none z
      ≡ buf_of (set ◌==◌ (set ◌==◌ objects x b) y nothing z)
pointers-set_both objects x y z b q agree e =
    ap (λ p. with_pointer (with_pointer q x p) y none z) e ∙ elim (Bool-cases (y == z)) [
      | inl same ↦ rw same refl
      | inr other ↦ rw other (agree z ∙ pointers-set objects x z b)
    ]

pub two_objects :
    (m : Memory) (x y : ℕ) (other : Ibuffer) → m.objects x ≡ none → m.objects y ≡ some other → x ≢ y
two_objects m x y other e f same =
    let g : m.objects y ≡ none = subst (λ z. m.objects z ≡ none) same e in absurd (ground arith)

pub pointers-unset :
    (objects : ℕ → Option Ibuffer) (x y : ℕ)
    → with_pointer (λ z. buf_of (objects z)) x none y ≡ buf_of (unset ◌==◌ objects x y)
pointers-unset objects x y = elim (Bool-cases (x == y)) [
  | inl same ↦ rw same refl
  | inr other ↦ rw other refl
]
