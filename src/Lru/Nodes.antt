-- ===== src/Lru/Nodes.antt =====
-- The laws of the list of nodes.
use asyncmsg.Base.{
  ◌+◌, suc, length, take, ap, Bool-cases, ==_iff, subst, inl, inr, ℕ, ◌<◌, ◌≡◌, ◌≢◌, refl, arith,
  Option, none, some, List, [], ◌∷◌, ◌==◌, if◌then◌else◌, All, map,
}
use asyncmsg.Lru.{back, pop_back, erase_node, value_of}

-- The node that holds a value.
unfoldable pub node_of : List (ℕ × ℕ) → ℕ → Option ℕ
node_of [] v = none
node_of ((i, w) ∷ l) v = if w == v then some i else node_of l v

-- The values without one of them.
unfoldable pub remove : ℕ → List ℕ → List ℕ
remove v [] = []
remove v (w ∷ vs) = if w == v then vs else w ∷ remove v vs

abbrev pub values : List (ℕ × ℕ) → List ℕ
values l = map (λ x. x.1) l

-- No node and no value stands twice.
abbrev pub NodesDistinct : List (ℕ × ℕ) → Type 0
NodesDistinct [] = Unit
NodesDistinct ((i, v) ∷ l) = (All (λ x. x.0 ≢ i) l) × (node_of l v ≡ none) × NodesDistinct l

abbrev pub Below : ℕ → List (ℕ × ℕ) → Type 0
Below n l = All (λ x. x.0 < n) l

node_of-ne : (l : List (ℕ × ℕ)) (j v i : ℕ) → All (λ x. x.0 ≢ j) l → node_of l v ≡ some i → i ≢ j
unfolding node_of
node_of-ne [] j v i h e = ground arith
node_of-ne ((k, w) ∷ l) j v i h e = ground (arith, node_of-ne l j v i h.1, h.0)

-- The node that the map has for a value leads to that value.
pub value_of-node_of :
    (l : List (ℕ × ℕ)) (v i : ℕ) → NodesDistinct l → node_of l v ≡ some i → value_of i l ≡ some v
unfolding node_of value_of
value_of-node_of [] v i h e = ground arith
value_of-node_of ((j, w) ∷ l) v i h e =
    ground (arith, value_of-node_of l v i h.2, node_of-ne l j v i h.0)

pub values-erase_node :
    (l : List (ℕ × ℕ)) (v i : ℕ)
    → NodesDistinct l
    → node_of l v ≡ some i
    → values (erase_node i l) ≡ remove v (values l)
unfolding node_of erase_node remove
values-erase_node [] v i h e = refl
values-erase_node ((j, w) ∷ l) v i h e =
    ground (arith, values-erase_node l v i h.2, node_of-ne l j v i h.0)

pub node_of-erase_node :
    (l : List (ℕ × ℕ)) (v i w : ℕ)
    → NodesDistinct l
    → node_of l v ≡ some i
    → node_of (erase_node i l) w ≡ (if v == w then none else node_of l w)
unfolding node_of erase_node
node_of-erase_node [] v i w h e = ground arith
node_of-erase_node ((j, u) ∷ l) v i w h e =
    ground (arith, node_of-erase_node l v i w h.2, node_of-ne l j v i h.0, h.1)

pub All-erase_node :
    (P : ℕ × ℕ → Type 0) (i : ℕ) (l : List (ℕ × ℕ)) → All P l → All P (erase_node i l)
unfolding erase_node
All-erase_node P i [] h = tt
All-erase_node P i ((j, v) ∷ l) h = ground (arith, All-erase_node P i l h.1, h.0, h.1)

pub erase_node-NodesDistinct :
    (l : List (ℕ × ℕ)) (v i : ℕ)
    → NodesDistinct l
    → node_of l v ≡ some i
    → NodesDistinct (erase_node i l)
unfolding node_of erase_node
erase_node-NodesDistinct [] v i h e = tt
erase_node-NodesDistinct ((j, w) ∷ l) v i h e =
    let hit = node_of-ne l j v i h.0 in
    ground (
      arith,
      hit,
      erase_node-NodesDistinct l v i h.2,
      node_of-erase_node l v i w h.2,
      All-erase_node (λ x. x.0 ≢ j) i l h.0,
      h.0,
      h.1,
      h.2,
    )

pub length-erase_node :
    (l : List (ℕ × ℕ)) (v i : ℕ)
    → NodesDistinct l
    → node_of l v ≡ some i
    → length (erase_node i l) + 1 ≡ length l
unfolding node_of erase_node
length-erase_node [] v i h e = ground arith
length-erase_node ((j, w) ∷ l) v i h e =
    ground (arith, length-erase_node l v i h.2, node_of-ne l j v i h.0)

-- The list without its last node, and that node's value.
pub values-pop_back :
    (x : ℕ × ℕ) (l : List (ℕ × ℕ)) → values (pop_back x l) ≡ take (length l) (values (x ∷ l))
unfolding pop_back
values-pop_back x [] = refl
values-pop_back x (y ∷ l) = ap (◌∷◌ x.1) (values-pop_back y l)

pub length-pop_back : (x : ℕ × ℕ) (l : List (ℕ × ℕ)) → length (pop_back x l) ≡ length l
unfolding pop_back
length-pop_back x [] = refl
length-pop_back x (y ∷ l) = ap suc (length-pop_back y l)

pub All-pop_back :
    (P : ℕ × ℕ → Type 0) (x : ℕ × ℕ) (l : List (ℕ × ℕ)) → All P (x ∷ l) → All P (pop_back x l)
unfolding pop_back
All-pop_back P x [] h = tt
All-pop_back P x (y ∷ l) h = (h.0, All-pop_back P y l h.1)

pub node_of-back : (x : ℕ × ℕ) (l : List (ℕ × ℕ)) → (i : ℕ) × (node_of (x ∷ l) (back x l) ≡ some i)
unfolding node_of back
node_of-back x [] = (x.0, ground arith)
node_of-back x (y ∷ l) = elim (Bool-cases (x.1 == back y l)) [
  | inl e ↦ (x.0, rw e refl)
  | inr e ↦ let (i, found) = node_of-back y l in (i, rw e found)
]

pub node_of-pop_back :
    (x : ℕ × ℕ) (l : List (ℕ × ℕ)) (w : ℕ)
    → NodesDistinct (x ∷ l)
    → node_of (pop_back x l) w ≡ (if back x l == w then none else node_of (x ∷ l) w)
unfolding node_of back pop_back
node_of-pop_back x [] w h = ground arith
node_of-pop_back x (y ∷ l) w h =
    let (i, found) = node_of-back y l in ground (arith, found, node_of-pop_back y l w h.2, h.1)

pub pop_back-NodesDistinct :
    (x : ℕ × ℕ) (l : List (ℕ × ℕ)) → NodesDistinct (x ∷ l) → NodesDistinct (pop_back x l)
unfolding node_of pop_back
pop_back-NodesDistinct x [] h = tt
pop_back-NodesDistinct x (y ∷ l) h = (
  All-pop_back (λ z. z.0 ≢ x.0) y l h.0,
  ground (arith, node_of-pop_back y l x.1 h.2, h.1),
  pop_back-NodesDistinct y l h.2,
)

-- The node that `splice` moves is in the rest of the list no more, and is one of the list's.
pub erase_node-absent :
    (l : List (ℕ × ℕ)) (i : ℕ) → NodesDistinct l → All (λ x. x.0 ≢ i) (erase_node i l)
unfolding erase_node
erase_node-absent [] i h = tt
erase_node-absent ((j, v) ∷ l) i h = elim (Bool-cases (j == i)) [
  | inl e ↦ rw e (subst (λ k. All (λ x. x.0 ≢ k) l) ((==_iff j i).0 e) h.0)
  | inr e ↦ rw e (ground arith, erase_node-absent l i h.2)
]

pub node_of-Below : (n : ℕ) (l : List (ℕ × ℕ)) (v i : ℕ) → Below n l → node_of l v ≡ some i → i < n
unfolding node_of
node_of-Below n [] v i b e = ground arith
node_of-Below n ((j, w) ∷ l) v i b e = ground (arith, node_of-Below n l v i b.1, b.0)

pub Below-suc : (n : ℕ) (l : List (ℕ × ℕ)) → Below n l → Below (suc n) l
Below-suc n [] b = tt
Below-suc n (x ∷ l) b = (omega arith, Below-suc n l b.1)

pub Below-fresh : (n : ℕ) (l : List (ℕ × ℕ)) → Below n l → All (λ x. x.0 ≢ n) l
Below-fresh n [] b = tt
Below-fresh n (x ∷ l) b = (omega arith, Below-fresh n l b.1)
