-- ===== src/Lru/Tests.antt =====
-- The cache at concrete inputs.
use asyncmsg.Base.{◌≡◌, refl, [], ◌∷◌, take}
use asyncmsg.Lru.{
  Lru, lru, find, assign, erase, erase_node, value_of, splice_front, back, pop_back, exist,
  without_old, put,
}
use asyncmsg.Lru.Nodes.{remove, values}
use asyncmsg.Lru.Exist.{IsValid, lru-IsValid}
use asyncmsg.Lru.Put.{put-values, put-IsValid}

machine : Unit {0}
unfolding lru find assign erase erase_node value_of splice_front back pop_back exist without_old put
machine = tt

-- Capacity 2; 5, then 6.
abbrev two : Lru
two = put (put (lru 2) 5) 6

two-IsValid : IsValid two
two-IsValid = put-IsValid (put (lru 2) 5) 6 (put-IsValid (lru 2) 5 (lru-IsValid 2))

values-two : values two.l ≡ 6 ∷ 5 ∷ []
unfolding machine
values-two = refl

exist_moves : values (exist two 5).0.l ≡ 5 ∷ 6 ∷ []
unfolding machine
exist_moves = refl

oldest_dropped : values (put (exist two 5).0 7).l ≡ 7 ∷ 5 ∷ []
unfolding machine
oldest_dropped = refl

put-values_example : values (put two 7).l ≡ take two.cap (7 ∷ remove 7 (values two.l))
put-values_example = put-values two 7 two-IsValid
