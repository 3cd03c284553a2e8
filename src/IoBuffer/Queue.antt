-- ===== src/IoBuffer/Queue.antt =====
-- The buffer as its users see it: a first-in first-out queue of bytes with a limit.
use asyncmsg.Base.{
  ℕ, ◌+◌, ◌-◌, ◌^◌, ◌≤◌, ◌<◌, ◌≡◌, refl, ap, ◌∙◌, arith, min, List, [], ◌∷◌, ◌++◌, length, take,
  drop, length-take, All,
}
use asyncmsg.IoBuffer.{IoBuffer, prepare, commit, consume, clear, fill, make_room}
use asyncmsg.IoBuffer.Inv.{
  IsValid, sizes, prepare-IsValid, prepare_slab, commit-IsValid, consume-IsValid, fill-IsValid,
}
use asyncmsg.IoBuffer.Contents.{
  contents, length-contents, contents-prepare, contents-consume, contents-commit,
}

-- What a user does: read up to `n` of the bytes that have come into a prepared slab and commit them,
-- consume bytes, or clear the buffer.
pub data Op : Type 0 where
  read : ℕ → List ℕ → Op
  use_up : ℕ → Op
  reset : Op

-- `prepare(n)`, a read of as many of the bytes as the slab takes, and `commit` of their number.
unfoldable pub read_in : IoBuffer → ℕ → List ℕ → IoBuffer
read_in b n come =
    let prepared = prepare b n in
    let new = take prepared.1.size come in
    commit (fill prepared.0 prepared.1.start new) (length new)

unfoldable pub apply : IoBuffer → Op → IoBuffer
apply b (read n come) = read_in b n come
apply b (use_up n) = consume b n
apply b reset = clear b

unfoldable pub run : IoBuffer → List Op → IoBuffer
run b [] = b
run b (op ∷ ops) = run (apply b op) ops

-- The same on a queue of at most `cap` bytes.
unfoldable pub queue_apply : ℕ → List ℕ → Op → List ℕ
queue_apply cap q (read n come) = q ++ take (min n (cap - length q)) come
queue_apply cap q (use_up n) = drop n q
queue_apply cap q reset = []

unfoldable pub queue_run : ℕ → List ℕ → List Op → List ℕ
queue_run cap q [] = q
queue_run cap q (op ∷ ops) = queue_run cap (queue_apply cap q op) ops

-- Counts are below half the address space.
abbrev pub IsOp : Op → Type 0
IsOp (read n come) = n < 2 ^ 63
IsOp (use_up n) = n < 2 ^ 63
IsOp reset = Unit

pub length_-prepare : (b : IoBuffer) (n : ℕ) → (prepare b n).0.length_ ≡ b.length_
unfolding prepare make_room
length_-prepare b n = ground arith

module _ {b : IoBuffer} (n : ℕ) (come : List ℕ) (v : IsValid b) where
  new : List ℕ
  new = take (prepare b n).1.size come

  fits : (prepare b n).0.tail_ + length new ≤ (prepare b n).0.length_
  unfolding new
  fits = omega (arith, length-take (prepare b n).1.size come, prepare_slab n v, length_-prepare b n)

  pub read_in-IsValid : IsValid (read_in b n come)
  unfolding read_in new fill
  read_in-IsValid =
      let into =
        fill-IsValid (prepare b n).1.start new (prepare-IsValid n v)
          (omega (arith, prepare_slab n v, fits)) in
      commit-IsValid (length new) into (omega (arith, prepare_slab n v, fits))

  pub contents-read_in :
      contents (read_in b n come)
      ≡ contents b ++ take (min n (b.length_ - length (contents b))) come
  unfolding read_in new
  contents-read_in =
      ap (λ s. contents (commit (fill (prepare b n).0 s new) (length new))) (prepare_slab n v).0
      ∙ (contents-commit new (prepare-IsValid n v) fits
          ∙ (ap (λ q. q ++ new) (contents-prepare n v)
              ∙ ap (λ k. contents b ++ take k come)
                  (omega (arith, prepare_slab n v, sizes v, length-contents v))))

  pub length_-read_in : (read_in b n come).length_ ≡ b.length_
  unfolding read_in commit fill
  length_-read_in = length_-prepare b n

apply-IsValid : (b : IoBuffer) (op : Op) → IsValid b → IsOp op → IsValid (apply b op)
unfolding apply clear
apply-IsValid b (read n come) v h = read_in-IsValid n come v
apply-IsValid b (use_up n) v h = consume-IsValid n v h
apply-IsValid b reset v h = omega arith

length_-apply : (b : IoBuffer) (op : Op) → IsValid b → (apply b op).length_ ≡ b.length_
unfolding apply clear consume
length_-apply b (read n come) v = length_-read_in n come v
length_-apply b (use_up n) v = ground arith
length_-apply b reset v = refl

contents-apply :
    (b : IoBuffer) (op : Op)
    → IsValid b
    → IsOp op
    → contents (apply b op) ≡ queue_apply b.length_ (contents b) op
unfolding apply queue_apply clear
contents-apply b (read n come) v h = contents-read_in n come v
contents-apply b (use_up n) v h = contents-consume n v h
contents-apply b reset v h = refl

-- Whatever is read, consumed and cleared, a valid buffer stays valid and stores what a queue of at most
-- `length_` bytes would: nothing is lost, reordered or invented, and no access leaves the memory.
pub run_refines :
    (b : IoBuffer) (ops : List Op)
    → IsValid b
    → All IsOp ops
    → IsValid (run b ops) × (contents (run b ops) ≡ queue_run b.length_ (contents b) ops)
unfolding run queue_run
run_refines b [] v h = (v, refl)
run_refines b (op ∷ ops) v h =
    let rest = run_refines (apply b op) ops (apply-IsValid b op v h.0) h.1 in
    (
      rest.0,
      rest.1
          ∙ (ap (λ c. queue_run c (contents (apply b op)) ops) (length_-apply b op v)
              ∙ ap (λ q. queue_run b.length_ q ops) (contents-apply b op v h.0)),
    )
