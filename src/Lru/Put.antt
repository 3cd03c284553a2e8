-- ===== src/Lru/Put.antt =====
-- `put` on the values that the cache remembers, most recently used first.
use asyncmsg.Base.{
  ℕ, suc, ◌+◌, ◌<◌, ◌≤◌, ◌≡◌, refl, sym, ap, ◌∙◌, arith, none, some, List, [], ◌∷◌, length, ◌==◌,
  ltb, if◌then◌else◌, take, Option-cases, Bool-cases, inl, inr, take_of_length-le, ==_refl,
}
use asyncmsg.Lru.{Lru, find, assign, erase_node, back, without_old, put}
use asyncmsg.Lru.Table.{
  KeysDistinct, find-assign, find-erase, assign-KeysDistinct, erase-KeysDistinct, length-assign_new,
  length-assign_old, length-erase,
}
use asyncmsg.Lru.Nodes.{
  node_of, remove, values, NodesDistinct, Below, values-erase_node, node_of-erase_node,
  All-erase_node, erase_node-NodesDistinct, length-erase_node, values-pop_back, length-pop_back,
  All-pop_back, node_of-back, node_of-pop_back, pop_back-NodesDistinct, Below-suc, Below-fresh,
}
use asyncmsg.Lru.Exist.{IsValid}

remove_absent : (l : List (ℕ × ℕ)) (v : ℕ) → node_of l v ≡ none → remove v (values l) ≡ values l
unfolding remove node_of
remove_absent [] v h = refl
remove_absent ((i, w) ∷ l) v h = ground (arith, remove_absent l v)

-- What `put` has before it pushes the value to the front.
record IsReady (c : Lru) (v : ℕ) (rest : List (ℕ × ℕ)) : Type 0 where
  gone : (w : ℕ) → node_of rest w ≡ (if v == w then none else node_of c.l w)
  nodes : NodesDistinct rest
  below : Below c.unused rest
  others : values rest ≡ remove v (values c.l)
  counted : length (assign c.m v c.unused) ≡ length rest + 1
  fits : length rest ≤ c.cap

without_old_miss : (c : Lru) (v : ℕ) → find c.m v ≡ none → without_old c v ≡ c.l
unfolding without_old
without_old_miss c v e = rw (e, without_old)

without_old_hit : (c : Lru) (v i : ℕ) → find c.m v ≡ some i → without_old c v ≡ erase_node i c.l
unfolding without_old
without_old_hit c v i e = rw (e, without_old)

without_old-IsReady : (c : Lru) (v : ℕ) → IsValid c → IsReady c v (without_old c v)
without_old-IsReady c v h = elim (Option-cases (node_of c.l v)) [
  | inl miss ↦ rw (without_old_miss c v (h.agrees v ∙ miss)) (record {
    gone = λ w. ground (arith, miss);
    nodes = h.nodes;
    below = h.below;
    others = sym (remove_absent c.l v miss);
    counted = omega (arith, length-assign_new c.m v c.unused (h.agrees v ∙ miss), h.sized);
    fits = h.bounded;
  })
  | inr (i, hit) ↦ rw (without_old_hit c v i (h.agrees v ∙ hit)) (record {
    gone = λ w. node_of-erase_node c.l v i w h.nodes hit;
    nodes = erase_node-NodesDistinct c.l v i h.nodes hit;
    below = All-erase_node (λ x. x.0 < c.unused) i c.l h.below;
    others = values-erase_node c.l v i h.nodes hit;
    counted = omega (
      arith,
      length-assign_old c.m v c.unused i (h.agrees v ∙ hit),
      h.sized,
      length-erase_node c.l v i h.nodes hit,
    );
    fits = omega (arith, length-erase_node c.l v i h.nodes hit, h.bounded);
  })
]

-- The state after `put` before anything is dropped.
pushed-nodes :
    (c : Lru) (v : ℕ) {rest : List (ℕ × ℕ)}
    → IsReady c v rest
    → NodesDistinct ((c.unused, v) ∷ rest)
pushed-nodes c v {rest} r =
    (Below-fresh c.unused rest r.below, r.gone v ∙ ground (arith, ==_refl v), r.nodes)

pushed-agrees :
    (c : Lru) (v : ℕ) {rest : List (ℕ × ℕ)}
    → IsValid c
    → IsReady c v rest
    → (w : ℕ) → find (assign c.m v c.unused) w ≡ node_of ((c.unused, v) ∷ rest) w
unfolding node_of
pushed-agrees c v h r w = ground (arith, find-assign c.m v c.unused w, h.agrees w, r.gone w)

pushed-Below :
    (c : Lru) (v : ℕ) {rest : List (ℕ × ℕ)}
    → IsReady c v rest
    → Below (suc c.unused) ((c.unused, v) ∷ rest)
pushed-Below c v {rest} r = (omega arith, Below-suc c.unused rest r.below)

-- `put` keeps the invariant.
pub put-IsValid : (c : Lru) (v : ℕ) → IsValid c → IsValid (put c v)
unfolding put
put-IsValid c v h = elim (Bool-cases (ltb c.cap (length (assign c.m v c.unused)))) [
  | inr room ↦
      rw (room, put)
        (record {
          agrees = pushed-agrees c v h ready;
          keys = assign-KeysDistinct c.m v c.unused h.keys;
          nodes = pushed-nodes c v ready;
          below = pushed-Below c v ready;
          sized = omega (arith, ready.counted);
          bounded = ground (arith, ready.counted);
        })
  | inl full ↦
      rw (full, put)
        (record {
          agrees = λ w.
              find-erase (assign c.m v c.unused) (back (c.unused, v) rest) w distinct
              ∙ (ap (λ o. if back (c.unused, v) rest == w then none else o)
                    (pushed-agrees c v h ready w)
                  ∙ sym (node_of-pop_back (c.unused, v) rest w (pushed-nodes c v ready)));
          keys = erase-KeysDistinct (assign c.m v c.unused) (back (c.unused, v) rest) distinct;
          nodes = pop_back-NodesDistinct (c.unused, v) rest (pushed-nodes c v ready);
          below =
              All-pop_back (λ x. x.0 < suc c.unused) (c.unused, v) rest (pushed-Below c v ready);
          sized =
              let (i, found) = node_of-back (c.unused, v) rest in
              omega (
                arith,
                length-erase (assign c.m v c.unused) (back (c.unused, v) rest) i
                    (pushed-agrees c v h ready (back (c.unused, v) rest) ∙ found),
                ready.counted,
                length-pop_back (c.unused, v) rest,
              );
          bounded = omega (arith, length-pop_back (c.unused, v) rest, ready.fits);
        })
]
  where
    rest : List (ℕ × ℕ)
    rest = without_old c v

    ready : IsReady c v rest
    ready = without_old-IsReady c v h

    distinct : KeysDistinct (assign c.m v c.unused)
    distinct = assign-KeysDistinct c.m v c.unused h.keys

length-values : (l : List (ℕ × ℕ)) → length (values l) ≡ length l
length-values [] = refl
length-values (x ∷ l) = ap suc (length-values l)

-- `put` makes the value the most recent, and then remembers as many of the most recent values as the
-- capacity allows.
pub put-values :
    (c : Lru) (v : ℕ) → IsValid c → values (put c v).l ≡ take c.cap (v ∷ remove v (values c.l))
unfolding put
put-values c v h = elim (Bool-cases (ltb c.cap (length (assign c.m v c.unused)))) [
  | inr room ↦
      rw (room, put)
        (kept
          ∙ sym (
              take_of_length-le c.cap (v ∷ remove v (values c.l))
                (ground (arith, ready.counted, ap length ready.others, length-values rest))))
  | inl full ↦
      rw (full, put)
        (values-pop_back (c.unused, v) rest
          ∙ (ap (λ t. take (length rest) t) kept
              ∙ ap (λ k. take k (v ∷ remove v (values c.l)))
                  (ground (arith, ready.counted, ready.fits))))
]
  where
    rest : List (ℕ × ℕ)
    rest = without_old c v

    ready : IsReady c v rest
    ready = without_old-IsReady c v h

    kept : values ((c.unused, v) ∷ rest) ≡ v ∷ remove v (values c.l)
    kept = ap (◌∷◌ v) ready.others
