-- ===== src/Ibuffer/Objects/Leak.antt =====
-- ibuffer.hpp: what the operations of a program leave of its buffers and of the blocks of the heap.
use asyncmsg.Base.{
  [], ◌∷◌, ◌∷◌, sym, arith, ◌≢◌, ℕ, ◌≡◌, refl, ◌∙◌, ap, subst, Option, none, some, List, ◌==◌,
  Bool-cases, inl, inr,
}
use asyncmsg.Ibuffer.{
  copy, at, destroy, ibuffer, move, assign_move, assign_copy, nothing, Heap, Ibuffer, construct,
}
use asyncmsg.Ibuffer.Owned.{pointer_there, pointer_here, Owned-moved, with_pointer, Owned-same}
use asyncmsg.Ibuffer.Objects.{
  copy_op, construct_op, take_away, put_both, destroy_op, Operation, run, assign_copy_op,
  assign_move_op, move_op, or_twice, execute, Memory, Ran, done, misused, deleted_twice, found,
  absent, put,
}
use asyncmsg.Ibuffer.Objects.Pointers.{
  buf_of, pointers, IsOwned, construct-Owned, put-IsOwned, no_object, ended, twice_pointer,
  pointers-set_both, two_objects, pointers-unset,
}

abbrev pub IsFine : Ran → Type 0
IsFine (done m) = IsOwned m
IsFine misused = Unit
IsFine deleted_twice = ⊥

absent-IsFine : (o : Option Ibuffer) (r : Ran) → (o ≡ none → IsFine r) → IsFine (absent o r)
unfolding absent
absent-IsFine none r h = h refl
absent-IsFine (some b) r h = tt

found-IsFine :
    (o : Option Ibuffer) (next : Ibuffer → Ran)
    → ((b : Ibuffer) → o ≡ some b → IsFine (next b))
    → IsFine (found o next)
unfolding found
found-IsFine none next h = tt
found-IsFine (some b) next h = h b refl

module _ (left : ℕ → List ℕ) (m : Memory) (v : IsOwned m) where
  move_op-IsFine : (x y : ℕ) → IsFine (execute left m (move_op x y))
  unfolding execute move
  move_op-IsFine x y = absent-IsFine (m.objects x) _ (λ e. found-IsFine (m.objects y) _ (λ other f.
      Owned-same _ _ m.heap
        (Owned-moved (pointers m) m.heap x y v (no_object m x e) (two_objects m x y other e f))
        (λ z. pointers-set_both m.objects x y z other (pointers m) (λ w. refl) (ap buf_of f))))

  assign_copied :
      (x : ℕ) (this other : Ibuffer)
      → m.objects x ≡ some this
      → IsFine (or_twice (put m x) (assign_copy left m.heap this other))
  unfolding assign_copy or_twice
  assign_copied x this other e =
      let d = ended m x this v e in
      let p = with_pointer (pointers m) x none in
      let r = construct left d.0 (at d.0 other.buf) other.len in
      subst
        (λ o. IsFine (
          or_twice (put m x) (elim o as (λ o'. Option (Heap × Ibuffer)) [
            | none ↦ none
            | some h' ↦ some (construct left h' (at h' other.buf) other.len)
          ])))
        (sym d.1)
        (put-IsOwned m x r (
          Owned-same _ _ r.0
            (construct-Owned left p d.0 x (at d.0 other.buf) other.len d.2
              (pointer_here (pointers m) x none))
            (λ y. twice_pointer (pointers m) x y none r.1.buf)))

  assign_moved :
      (x y : ℕ) (this other : Ibuffer)
      → m.objects x ≡ some this
      → m.objects y ≡ some other
      → x ≢ y
      → IsFine (or_twice (put_both m x y) (assign_move m.heap this other))
  unfolding assign_move or_twice
  assign_moved x y this other e f apart =
      let d = ended m x this v e in
      let p = with_pointer (pointers m) x none in
      subst
        (λ o. IsFine (
          or_twice (put_both m x y) (elim o as (λ o'. Option (Heap × Ibuffer × Ibuffer)) [
            | none ↦ none
            | some h' ↦ some (h', other, nothing)
          ])))
        (sym d.1)
        (Owned-same _ _ d.0 (Owned-moved p d.0 x y d.2 (pointer_here (pointers m) x none) apart)
          (λ z.
            pointers-set_both m.objects x y z other p
              (λ w. twice_pointer (pointers m) x w none other.buf)
              (pointer_there (pointers m) x y none apart ∙ ap buf_of f)))

  assign_copy_op-IsFine : (x y : ℕ) → IsFine (execute left m (assign_copy_op x y))
  unfolding execute assign_copy or_twice
  assign_copy_op-IsFine x y = found-IsFine (m.objects x) _ (λ this e.
      found-IsFine (m.objects y) _ (λ other f. elim (Bool-cases (x == y)) [
        | inl same ↦ rw same v
        | inr apart ↦ rw apart (assign_copied x this other e)
      ]))

  assign_move_op-IsFine : (x y : ℕ) → IsFine (execute left m (assign_move_op x y))
  unfolding execute assign_move or_twice
  assign_move_op-IsFine x y = found-IsFine (m.objects x) _ (λ this e.
      found-IsFine (m.objects y) _ (λ other f. elim (Bool-cases (x == y)) [
        | inl same ↦ rw same v
        | inr apart ↦ rw apart (assign_moved x y this other e f (ground arith))
      ]))

  destroy_op-IsFine : (x : ℕ) → IsFine (execute left m (destroy_op x))
  unfolding execute destroy or_twice
  destroy_op-IsFine x = found-IsFine (m.objects x) _ (λ this e.
      let d = ended m x this v e in
      subst (λ o. IsFine (or_twice (take_away m x) o)) (sym d.1)
        (Owned-same _ _ d.0 d.2 (λ y. pointers-unset m.objects x y)))

  execute-IsFine : (op : Operation) → IsFine (execute left m op)
  unfolding execute ibuffer copy
  execute-IsFine (construct_op x len buf) = absent-IsFine (m.objects x) _ (λ e.
      put-IsOwned m x _ (construct-Owned left (pointers m) m.heap x buf len v (no_object m x e)))
  execute-IsFine (copy_op x y) = absent-IsFine (m.objects x) _ (λ e.
      found-IsFine (m.objects y) _ (λ other f. put-IsOwned m x _ (
        construct-Owned left (pointers m) m.heap x (at m.heap other.buf) other.len v
          (no_object m x e))))
  execute-IsFine (move_op x y) = move_op-IsFine x y
  execute-IsFine (assign_copy_op x y) = assign_copy_op-IsFine x y
  execute-IsFine (assign_move_op x y) = assign_move_op-IsFine x y
  execute-IsFine (destroy_op x) = destroy_op-IsFine x

-- However a program constructs, copies, moves, assigns and destroys its buffers, no block is deleted
-- twice; and at every moment the pointers of its objects and the blocks of the heap belong together one
-- to one: no two objects share a block, and no block is lost, so that with the last object the last
-- block is gone.
pub run-IsFine :
    (left : ℕ → List ℕ) (m : Memory) (ops : List Operation) → IsOwned m → IsFine (run left m ops)
unfolding run
run-IsFine left m [] v = v
run-IsFine left m (op ∷ ops) v =
    go (λ m' v'. run-IsFine left m' ops v') (execute left m op) (execute-IsFine left m v op)
  where
    go :
        ((m' : Memory) → IsOwned m' → IsFine (run left m' ops))
        → (r : Ran) → IsFine r
        → IsFine (elim r [
          | done m' ↦ run left m' ops
          | misused ↦ misused
          | deleted_twice ↦ deleted_twice
        ])
    go next (done m') v' = next m' v'
    go next misused v' = tt
    go next deleted_twice v' = v'
