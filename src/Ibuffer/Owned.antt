-- ===== src/Ibuffer/Owned.antt =====
-- ibuffer.hpp: who holds which block of the heap.
use asyncmsg.Base.{
  fun_ext, ◌⊎◌, ℕ, suc, ◌≤◌, ◌<◌, ◌≡◌, ◌≢◌, refl, sym, ◌∙◌, ap, subst, arith, Option, none, some,
  List, ◌==◌, ==_iff, ==_refl, ne→==, Bool-cases, inl, inr, if◌then◌else◌, set, unset,
}
use asyncmsg.Ibuffer.{Heap}

-- The pointers of the objects, by the objects' addresses: each is to a block that was given out and not taken
-- back, no two are to the same, and every such block has one.
pub record Owned (pointer : ℕ → Option ℕ) (h : Heap) : Type 0 where
  pub held : (x i : ℕ) → pointer x ≡ some i → h.blocks i ≢ none
  pub alone : (x y i : ℕ) → pointer x ≡ some i → pointer y ≡ some i → x ≡ y
  pub kept : (i : ℕ) → h.blocks i ≢ none → (x : ℕ) × (pointer x ≡ some i)
  pub unused_ : (i : ℕ) → h.unused ≤ i → h.blocks i ≡ none

-- A pointer of one object is replaced.
abbrev pub with_pointer : (ℕ → Option ℕ) → ℕ → Option ℕ → ℕ → Option ℕ
with_pointer pointer x p y = if x == y then p else pointer y

abbrev pub with_block : Heap → List ℕ → Heap
with_block h bytes = record { blocks = set ◌==◌ h.blocks h.unused bytes; unused = suc h.unused }

lt_or : (a b : ℕ) → (a < b) ⊎ (b ≤ a)
lt_or a b = ground arith

pointer-cases :
    (pointer : ℕ → Option ℕ) (x y i : ℕ) (p : Option ℕ)
    → with_pointer pointer x p y ≡ some i
    → ((x ≡ y) × (p ≡ some i)) ⊎ ((x ≢ y) × (pointer y ≡ some i))
pointer-cases pointer x y i p e = elim (Bool-cases (x == y)) [
  | inl this ↦ inl ((==_iff x y).0 this, ground arith)
  | inr other ↦ inr (ground arith, ground arith)
]

pub pointer_here : (pointer : ℕ → Option ℕ) (x : ℕ) (p : Option ℕ) → with_pointer pointer x p x ≡ p
pointer_here pointer x p = rw (==_refl x) refl

pub pointer_there :
    (pointer : ℕ → Option ℕ) (x y : ℕ) (p : Option ℕ)
    → x ≢ y
    → with_pointer pointer x p y ≡ pointer y
pointer_there pointer x y p other = rw (ne→== x y other) refl

block_there :
    (h : Heap) (i : ℕ) (bytes : List ℕ) → h.unused ≢ i → (with_block h bytes).blocks i ≡ h.blocks i
block_there h i bytes other = rw (ne→== h.unused i other) refl

held-lt :
    (pointer : ℕ → Option ℕ) (h : Heap) (i : ℕ) → Owned pointer h → h.blocks i ≢ none → i < h.unused
held-lt pointer h i v given = elim (lt_or i h.unused) [
  | inl lt ↦ lt
  | inr le ↦ absurd (given (v.unused_ i le))
]

some_injective : (a b : ℕ) → ◌≡◌ {A = Option ℕ} (some a) (some b) → a ≡ b
some_injective a b e = ap (λ (o : Option ℕ). elim o [ none ↦ a | some c ↦ c ]) e

given_here : (h : Heap) (bytes : List ℕ) → (with_block h bytes).blocks h.unused ≢ none
given_here h bytes n =
    let e : (with_block h bytes).blocks h.unused ≡ some bytes = rw (==_refl h.unused) refl in
    absurd (ground arith)

-- Two objects whose pointers differ are not the same object.
pointers_differ :
    (pointer : ℕ → Option ℕ) (x y i : ℕ) → pointer x ≡ none → pointer y ≡ some i → x ≢ y
pointers_differ pointer x y i free e same =
    let f : pointer y ≡ none = subst (λ z. pointer z ≡ none) same free in absurd (ground arith)

eq_or : (a b : ℕ) → (a ≡ b) ⊎ (a ≢ b)
eq_or a b = elim (Bool-cases (a == b)) [
  | inl e ↦ inl ((==_iff a b).0 e)
  | inr ne ↦ inr (ground arith)
]

-- A new block and its pointer.
pub Owned-with_block :
    (pointer : ℕ → Option ℕ) (h : Heap) (x : ℕ) (bytes : List ℕ)
    → Owned pointer h
    → pointer x ≡ none
    → Owned (with_pointer pointer x (some h.unused)) (with_block h bytes)
Owned-with_block pointer h x bytes v free = record {
  held = λ y i e. elim (pointer-cases pointer x y i (some h.unused) e) [
    | inl (here, new) ↦
        subst (λ k. (with_block h bytes).blocks k ≢ none) (some_injective h.unused i new)
          (given_here h bytes)
    | inr (other, old) ↦
        (let given = v.held y i old in
          let below = held-lt pointer h i v given in
          subst (λ o. o ≢ none) (sym (block_there h i bytes (omega (arith, below)))) given)
  ];
  alone = λ y z i e f. elim (pointer-cases pointer x y i (some h.unused) e) [
    | inl (here, new) ↦ elim (pointer-cases pointer x z i (some h.unused) f) [
      | inl (there, again) ↦ sym here ∙ there
      | inr (other, old) ↦ absurd (fresh_held z i new old)
    ]
    | inr (other, old) ↦ elim (pointer-cases pointer x z i (some h.unused) f) [
      | inl (there, again) ↦ absurd (fresh_held y i again old)
      | inr (other', old') ↦ v.alone y z i old old'
    ]
  ];
  kept = λ i given. elim (eq_or h.unused i) [
    | inl new ↦ (x, pointer_here pointer x (some h.unused) ∙ ap (λ k. some k) new)
    | inr other ↦
        (let holder = v.kept i (subst (λ o. o ≢ none) (block_there h i bytes other) given) in
          (
            holder.0,
            pointer_there pointer x holder.0 (some h.unused)
                  (pointers_differ pointer x holder.0 i free holder.1)
                ∙ holder.1,
          ))
  ];
  unused_ = λ i le. block_there h i bytes (omega (arith, le)) ∙ v.unused_ i (omega (arith, le));
}
  where
    fresh_held : (z i : ℕ) → ◌≡◌ {A = Option ℕ} (some h.unused) (some i) → pointer z ≡ some i → ⊥
    fresh_held z i new old =
        let below = held-lt pointer h i v (v.held z i old) in
        omega (arith, below, some_injective h.unused i new)

abbrev pub without_block : Heap → ℕ → Heap
without_block h i = record h { blocks = unset ◌==◌ h.blocks i }

-- A block is taken back, with its pointer.
pub Owned-without_block :
    (pointer : ℕ → Option ℕ) (h : Heap) (x i : ℕ)
    → Owned pointer h
    → pointer x ≡ some i
    → Owned (with_pointer pointer x none) (without_block h i)
Owned-without_block pointer h x i v e = record {
  held = λ y k f. elim (pointer-cases pointer x y k none f) [
    | inl (here, nothing) ↦ absurd (ground arith)
    | inr (other, old) ↦
        subst (λ o. o ≢ none)
          (sym (left_there k (λ same. other (v.alone x y k (e ∙ ap (λ j. some j) same) old))))
          (v.held y k old)
  ];
  alone = λ y z k f g. elim (pointer-cases pointer x y k none f) [
    | inl (here, nothing) ↦ absurd (ground arith)
    | inr (other, old) ↦ elim (pointer-cases pointer x z k none g) [
      | inl (here, nothing) ↦ absurd (ground arith)
      | inr (other', old') ↦ v.alone y z k old old'
    ]
  ];
  kept = λ k given. elim (eq_or i k) [
    | inl same ↦ absurd (given (subst (λ j. (without_block h i).blocks j ≡ none) same taken))
    | inr differ ↦
        (let holder = v.kept k (subst (λ o. o ≢ none) (left_there k differ) given) in
          (
            holder.0,
            pointer_there pointer x holder.0 none
                  (λ here. differ (some_injective i k (sym e ∙ (ap pointer here ∙ holder.1))))
                ∙ holder.1,
          ))
  ];
  unused_ = λ k le. gone k (v.unused_ k le);
}
  where
    left_there : (k : ℕ) → i ≢ k → (without_block h i).blocks k ≡ h.blocks k
    left_there k differ = rw (ne→== i k differ) refl

    taken : (without_block h i).blocks i ≡ none
    taken = rw (==_refl i) refl

    gone : (k : ℕ) → h.blocks k ≡ none → (without_block h i).blocks k ≡ none
    gone k n = elim (Bool-cases (i == k)) [ inl same ↦ rw same refl | inr differ ↦ rw differ n ]

moved-cases :
    (pointer : ℕ → Option ℕ) (x y z i : ℕ)
    → with_pointer (with_pointer pointer x (pointer y)) y none z ≡ some i
    → ((x ≡ z) × (pointer y ≡ some i)) ⊎ ((y ≢ z) × (pointer z ≡ some i))
moved-cases pointer x y z i e =
    elim (pointer-cases (with_pointer pointer x (pointer y)) y z i none e) [
      | inl (here, nothing) ↦ absurd (ground arith)
      | inr (other, old) ↦ elim (pointer-cases pointer x z i (pointer y) old) [
        | inl (there, moved) ↦ inl (there, moved)
        | inr (other', old') ↦ inr (other, old')
      ]
    ]

-- A pointer goes from one object to another.
pub Owned-moved :
    (pointer : ℕ → Option ℕ) (h : Heap) (x y : ℕ)
    → Owned pointer h
    → pointer x ≡ none
    → x ≢ y
    → Owned (with_pointer (with_pointer pointer x (pointer y)) y none) h
Owned-moved pointer h x y v free apart = record {
  held = λ z i e. elim (moved-cases pointer x y z i e) [
    | inl (here, old) ↦ v.held y i old
    | inr (other, old) ↦ v.held z i old
  ];
  alone = λ z w i e f. elim (moved-cases pointer x y z i e) [
    | inl (here, old) ↦ elim (moved-cases pointer x y w i f) [
      | inl (there, old') ↦ sym here ∙ there
      | inr (other, old') ↦ absurd (other (v.alone y w i old old'))
    ]
    | inr (other, old) ↦ elim (moved-cases pointer x y w i f) [
      | inl (there, old') ↦ absurd (other (v.alone y z i old' old))
      | inr (other', old') ↦ v.alone z w i old old'
    ]
  ];
  kept = λ i given.
      (let holder = v.kept i given in
        elim (eq_or y holder.0) [
          | inl moved ↦ (
            x,
            pointer_there (with_pointer pointer x (pointer y)) y x none (λ e. apart (sym e))
                ∙ (pointer_here pointer x (pointer y) ∙ (ap pointer moved ∙ holder.1)),
          )
          | inr stays ↦ (
            holder.0,
            pointer_there (with_pointer pointer x (pointer y)) y holder.0 none stays
                ∙ (pointer_there pointer x holder.0 (pointer y)
                      (pointers_differ pointer x holder.0 i free holder.1)
                    ∙ holder.1),
          )
        ]);
  unused_ = v.unused_;
}

-- The same pointers, otherwise computed.
pub Owned-same :
    (pointer pointer' : ℕ → Option ℕ) (h : Heap)
    → Owned pointer h
    → ((x : ℕ) → pointer x ≡ pointer' x)
    → Owned pointer' h
Owned-same pointer pointer' h v same = subst (λ p. Owned p h) (fun_ext same) v
