-- ===== src/Packet/Seq.antt =====
-- The sequence numbers that `next_seq` hands out.
use asyncmsg.Base.{ℕ, zero, suc, ◌+◌, ◌-◌, ◌%◌, ◌^◌, ◌≤◌, ◌<◌, ◌≡◌, ◌≢◌, arith}
use asyncmsg.Packet.{next_seq}

-- The generator after `n` more calls of `next_seq`.
pub generated : ℕ → ℕ → ℕ
generated zero g = g
generated (suc n) g = next_seq (generated n g)

-- `next_seq` returns a number from 1 to 2 ^ 32 - 1: never 0, the mark for a missing number.
pub next_seq_bounds : (g : ℕ) → g < 2 ^ 32 → (1 ≤ next_seq g) × (next_seq g < 2 ^ 32)
unfolding next_seq
next_seq_bounds g h = ground arith

-- After `n` calls on a generator at `g` (1 ≤ g), the number handed out is `n` places further round the
-- cycle of the 2 ^ 32 - 1 numbers from 1.
generated-mod : (n g : ℕ) → 1 ≤ g → g < 2 ^ 32 → generated n g ≡ (g - 1 + n) % (2 ^ 32 - 1) + 1
unfolding generated next_seq
generated-mod zero g lo hi = omega arith
generated-mod (suc n) g lo hi = ground (arith, generated-mod n g lo hi)

-- Two numbers handed out by fewer than 2 ^ 32 - 1 calls of one another are different.
pub generated_distinct :
    (n m g : ℕ) → 1 ≤ g → g < 2 ^ 32 → n < m → m - n < 2 ^ 32 - 1 → generated n g ≢ generated m g
generated_distinct n m g lo hi lt window e =
    omega (arith, generated-mod n g lo hi, generated-mod m g lo hi)
