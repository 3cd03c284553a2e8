-- ===== src/IoBuffer/Contents.antt =====
-- What the buffer stores: the bytes between its two positions.
use asyncmsg.Base.{
  drop_of_length-le, drop-take, take-append_of_ge, ℕ, ◌+◌, ◌-◌, ◌^◌, ◌≤◌, ◌<◌, ◌≡◌, refl, sym, ap,
  ◌∙◌, arith, List, ◌++◌, length, take, drop, length-take, length-drop, Bool-cases, ltb, leb, inl,
  inr, take-append, drop-append_of_le, drop-drop,
}
use asyncmsg.IoBuffer.{
  IoBuffer, add64, size, free_size, make_room, prepare, commit, consume, overwrite, fill,
}
use asyncmsg.IoBuffer.Inv.{IsValid, sizes}

abbrev pub contents : IoBuffer → List ℕ
contents b = take (b.tail_ - b.head_) (drop b.head_ b.buffer)

pub length-contents : {b : IoBuffer} → IsValid b → length (contents b) ≡ b.tail_ - b.head_
length-contents {b} v = omega (
  arith,
  length-take (b.tail_ - b.head_) (drop b.head_ b.buffer),
  length-drop b.head_ b.buffer,
  v.memory,
  v.ordered,
  v.inside,
)

-- Making room moves the stored bytes and changes none.
pub contents-make_room : {b : IoBuffer} (n : ℕ) → IsValid b → contents (make_room b n) ≡ contents b
unfolding make_room
contents-make_room {b} n v = elim (Bool-cases (ltb (free_size b) n)) [
  | inr wide ↦ rw wide refl
  | inl tight ↦ rw tight (
      let e : size b - 0 ≡ b.tail_ - b.head_ = omega (arith, sizes v) in
      rw e (
        take-append (b.tail_ - b.head_) (take (size b) (drop b.head_ b.buffer))
          (drop (size b) b.buffer)
          (omega (
            arith,
            sizes v,
            length-take (size b) (drop b.head_ b.buffer),
            length-drop b.head_ b.buffer,
            v.memory,
            v.ordered,
            v.inside,
          ))
        ∙ ap (λ k. take k (drop b.head_ b.buffer)) (omega (arith, sizes v))))
]

-- `prepare` changes no stored byte.
pub contents-prepare : {b : IoBuffer} (n : ℕ) → IsValid b → contents (prepare b n).0 ≡ contents b
unfolding prepare
contents-prepare n v = contents-make_room n v

-- `consume` takes bytes off the front: all of them, if it is told more than there are.
pub contents-consume :
    {b : IoBuffer} (n : ℕ) → IsValid b → n < 2 ^ 63 → contents (consume b n) ≡ drop n (contents b)
unfolding consume
contents-consume {b} n v h = elim (Bool-cases (leb b.tail_ (add64 b.head_ n))) [
  | inl all ↦ rw all (sym (drop_of_length-le n (contents b) (ground (arith, length-contents v))))
  | inr some_left ↦ rw some_left (part (ground arith))
]
  where
    part :
        b.head_ + n < b.tail_
        → take (b.tail_ - add64 b.head_ n) (drop (add64 b.head_ n) b.buffer) ≡ drop n (contents b)
    part lt =
        let e : add64 b.head_ n ≡ b.head_ + n = omega (arith, v.small, v.inside) in
        let left : b.tail_ - (b.head_ + n) ≡ b.tail_ - b.head_ - n = omega arith in
        rw (e, left)
          (ap (take (b.tail_ - b.head_ - n)) (sym (drop-drop n b.head_ b.buffer))
            ∙ sym (drop-take n (b.tail_ - b.head_) (drop b.head_ b.buffer)))

-- Writing behind the stored bytes and committing what was written appends it.
pub contents-commit :
    {b : IoBuffer} (new : List ℕ)
    → IsValid b
    → b.tail_ + length new ≤ b.length_
    → contents (commit (fill b b.tail_ new) (length new)) ≡ contents b ++ new
unfolding commit fill
contents-commit {b} new v h =
    let e : add64 b.tail_ (length new) - b.head_ ≡ length (contents b) + length new =
      omega (arith, length-contents v, v.small, v.ordered) in
    rw (e, cut)
      (take-append_of_ge (length (contents b) + length new) (contents b) (new ++ behind)
          (omega arith)
        ∙ ap (λ t. contents b ++ t)
            (ap (λ k. take k (new ++ behind)) (omega arith)
              ∙ take-append (length new) new behind refl))
  where
    behind : List ℕ
    behind = drop (b.tail_ + length new) b.buffer

    cut : drop b.head_ (overwrite b.buffer b.tail_ new) ≡ contents b ++ (new ++ behind)
    cut =
        drop-append_of_le b.head_ (take b.tail_ b.buffer) (new ++ behind)
          (omega (arith, length-take b.tail_ b.buffer, v.memory, v.ordered, v.inside))
        ∙ ap (λ t. t ++ (new ++ behind)) (drop-take b.head_ b.tail_ b.buffer)
