-- ===== src/Lru/Exist.antt =====
-- The invariant of the cache, and `exist` on the values that it remembers, most recently used first.
use asyncmsg.Base.{
  ℕ, ◌<◌, ◌≤◌, ◌≡◌, refl, ap, ◌∙◌, arith, Bool, true, false, none, some, List, [], ◌∷◌, length,
  ◌==◌, if◌then◌else◌, Option-cases, inl, inr,
}
use asyncmsg.Lru.{Lru, lru, find, splice_front, exist}
use asyncmsg.Lru.Table.{KeysDistinct}
use asyncmsg.Lru.Nodes.{
  node_of, remove, values, NodesDistinct, Below, value_of-node_of, values-erase_node,
  node_of-erase_node, All-erase_node, erase_node-NodesDistinct, length-erase_node,
  erase_node-absent, node_of-Below,
}

-- The map and the list are about the same nodes, none twice, and no more of them than the capacity.
pub record IsValid (c : Lru) : Type 0 where
  pub agrees : (v : ℕ) → find c.m v ≡ node_of c.l v
  pub keys : KeysDistinct c.m
  pub nodes : NodesDistinct c.l
  pub below : Below c.unused c.l
  pub sized : length c.m ≡ length c.l
  pub bounded : length c.l ≤ c.cap

pub lru-IsValid : (cap : ℕ) → IsValid (lru cap)
unfolding lru find node_of
lru-IsValid cap = record {
  agrees = λ v. refl;
  keys = tt;
  nodes = tt;
  below = tt;
  sized = refl;
  bounded = omega arith;
}

unfoldable pub contains : List ℕ → ℕ → Bool
contains [] v = false
contains (w ∷ vs) v = if w == v then true else contains vs v

contains-node_of-none :
    (l : List (ℕ × ℕ)) (v : ℕ) → node_of l v ≡ none → contains (values l) v ≡ false
unfolding contains node_of
contains-node_of-none [] v h = refl
contains-node_of-none ((i, w) ∷ l) v h = ground (arith, contains-node_of-none l v)

contains-node_of-some :
    (l : List (ℕ × ℕ)) (v i : ℕ) → node_of l v ≡ some i → contains (values l) v ≡ true
unfolding contains node_of
contains-node_of-some [] v i h = ground arith
contains-node_of-some ((j, w) ∷ l) v i h = ground (arith, contains-node_of-some l v i)

-- `exist` reports whether the value is remembered; if so it becomes the most recent, and else nothing
-- changes.
pub exist-values :
    (c : Lru) (v : ℕ)
    → IsValid c
    → ((exist c v).1 ≡ contains (values c.l) v)
      × (values (exist c v).0.l
          ≡ (if contains (values c.l) v then v ∷ remove v (values c.l) else values c.l))
unfolding exist splice_front
exist-values c v h = elim (Option-cases (node_of c.l v)) [
  | inl miss ↦ rw (h.agrees v ∙ miss, exist, contains-node_of-none c.l v miss) (refl, refl)
  | inr (i, hit) ↦
      rw
        (
          h.agrees v ∙ hit,
          exist,
          contains-node_of-some c.l v i hit,
          value_of-node_of c.l v i h.nodes hit,
          splice_front,
        )
        (refl, ap (◌∷◌ v) (values-erase_node c.l v i h.nodes hit))
]

pub exist-IsValid : (c : Lru) (v : ℕ) → IsValid c → IsValid (exist c v).0
unfolding exist splice_front
exist-IsValid c v h = elim (Option-cases (node_of c.l v)) [
  | inl miss ↦ rw (h.agrees v ∙ miss, exist) h
  | inr (i, hit) ↦
      rw (h.agrees v ∙ hit, exist, value_of-node_of c.l v i h.nodes hit, splice_front)
        (record {
          agrees = λ w.
              unfold node_of in
              ground (arith, h.agrees w, h.agrees v, hit, node_of-erase_node c.l v i w h.nodes hit);
          keys = h.keys;
          nodes = (
            erase_node-absent c.l i h.nodes,
            node_of-erase_node c.l v i v h.nodes hit ∙ ground arith,
            erase_node-NodesDistinct c.l v i h.nodes hit,
          );
          below = (
            node_of-Below c.unused c.l v i h.below hit,
            All-erase_node (λ x. x.0 < c.unused) i c.l h.below,
          );
          sized = omega (arith, h.sized, length-erase_node c.l v i h.nodes hit);
          bounded = omega (arith, h.bounded, length-erase_node c.l v i h.nodes hit);
        })
]
