-- ===== src/Base/Bits.antt =====
-- The bit operations at variables: one equation for the lowest digit, and what follows from it.
use Prim.Native.Nat.{
  ℕ, zero, suc, ◌+◌, ◌-◌, ◌*◌, ◌/◌, ◌%◌, ◌^◌, ◌≤◌, ◌<◌, max, bit_or, bit_xor, digits, bitwise,
  differ, bit_or-bitwise, bit_xor-bitwise,
}
use native.Mathlib.Nat.{pow-suc}
use mathlib.Core.Path.{◌≡◌, refl, sym, ap, ◌∙◌}
use native.Mathlib.Omega.{arith}

-- A bitwise operation from what it does on two digits, `f`, and on a number against 0, `z`.
module _ (z : ℕ → ℕ) (f : ℕ → ℕ → ℕ) where
  digits_done : (n b : ℕ) → digits z f n 0 b ≡ z b
  digits_done zero b = refl
  digits_done (suc n) b = refl

  -- Digits beyond those of the first number change nothing.
  spare_digits : (k b a : ℕ) → digits z f (a + k) a b ≡ digits z f a a b
  spare_digits k b a = down (a + k) a a b (omega arith) (omega arith)
    where
      down : (n m a b : ℕ) → a ≤ n → a ≤ m → digits z f n a b ≡ digits z f m a b
      down n m zero b p q = digits_done n b ∙ sym (digits_done m b)
      down (suc n) (suc m) (suc a) b p q =
          ap (λ t. t * 2 + f (suc a % 2) (b % 2))
            (down n m (suc a / 2) (b / 2) (omega arith) (omega arith))
      down n m (suc a) b p q = absurd (omega arith)

  by_halves :
      ((b : ℕ) → z b ≡ z (b / 2) * 2 + f 0 (b % 2))
      → (b a : ℕ) → bitwise z f a b ≡ bitwise z f (a / 2) (b / 2) * 2 + f (a % 2) (b % 2)
  by_halves on_zero b zero = on_zero b
  by_halves on_zero b (suc a) =
      let k : suc a / 2 + (a - suc a / 2) ≡ a = omega arith in
      ap (λ t. t * 2 + f (suc a % 2) (b % 2))
        (ap (λ t. digits z f t (suc a / 2) (b / 2)) (sym k)
          ∙ spare_digits (a - suc a / 2) (b / 2) (suc a / 2))

-- On binary digits the exclusive or is the sum without its carry.
differ_digits : (a b : ℕ) → differ (a % 2) (b % 2) ≡ (a + b) % 2
differ_digits a b = go (a % 2) (b % 2) (omega arith) (omega arith) ∙ omega arith
  where
    go : (x y : ℕ) → x < 2 → y < 2 → differ x y ≡ (x + y) % 2
    go zero y p q = omega arith
    go (suc zero) zero p q = refl
    go (suc zero) (suc zero) p q = refl
    go (suc zero) (suc (suc y)) p q = absurd (omega arith)
    go (suc (suc x)) y p q = absurd (omega arith)

pub bit_or_step : (a b : ℕ) → bit_or a b ≡ bit_or (a / 2) (b / 2) * 2 + max (a % 2) (b % 2)
bit_or_step a b =
    let halves = by_halves (λ y. y) max (λ y. omega arith) b a in
    omega (arith, halves, bit_or-bitwise a b, bit_or-bitwise (a / 2) (b / 2))

pub bit_xor_step : (a b : ℕ) → bit_xor a b ≡ bit_xor (a / 2) (b / 2) * 2 + (a + b) % 2
bit_xor_step a b =
    let halves = by_halves (λ y. y) differ (λ y. omega arith) b a in
    omega (arith, halves, differ_digits a b, bit_xor-bitwise a b, bit_xor-bitwise (a / 2) (b / 2))

-- Both operands below `2 ^ k` keep the result below it.
pub bit_xor-lt : (k a b : ℕ) → a < 2 ^ k → b < 2 ^ k → bit_xor a b < 2 ^ k
bit_xor-lt zero a b p q =
    let ea : a ≡ 0 = omega arith in let eb : b ≡ 0 = omega arith in rw (ea, eb) (omega arith)
bit_xor-lt (suc k) a b p q = omega (
  arith,
  pow-suc 2 k,
  bit_xor_step a b,
  bit_xor-lt k (a / 2) (b / 2) (omega (arith, pow-suc 2 k)) (omega (arith, pow-suc 2 k)),
)

-- Taking the exclusive or with the same number twice gives the first number back.
pub bit_xor_cancel : (k a b : ℕ) → a < 2 ^ k → b < 2 ^ k → bit_xor (bit_xor a b) b ≡ a
bit_xor_cancel zero a b p q =
    let ea : a ≡ 0 = omega arith in let eb : b ≡ 0 = omega arith in rw (ea, eb) refl
bit_xor_cancel (suc k) a b p q =
    let pa : a / 2 < 2 ^ k = omega (arith, pow-suc 2 k) in
    let pb : b / 2 < 2 ^ k = omega (arith, pow-suc 2 k) in
    let half : bit_xor a b / 2 ≡ bit_xor (a / 2) (b / 2) = omega (arith, bit_xor_step a b) in
    bit_xor_step (bit_xor a b) b
    ∙ (rw half (omega (arith, bit_xor_step a b, bit_xor_cancel k (a / 2) (b / 2) pa pb)))

pub bit_xor_comm : (k a b : ℕ) → a < 2 ^ k → b < 2 ^ k → bit_xor a b ≡ bit_xor b a
bit_xor_comm zero a b p q =
    let ea : a ≡ 0 = omega arith in let eb : b ≡ 0 = omega arith in rw (ea, eb) refl
bit_xor_comm (suc k) a b p q =
    let pa : a / 2 < 2 ^ k = omega (arith, pow-suc 2 k) in
    let pb : b / 2 < 2 ^ k = omega (arith, pow-suc 2 k) in
    omega (arith, bit_xor_step a b, bit_xor_step b a, bit_xor_comm k (a / 2) (b / 2) pa pb)

pub bit_or-zero : (k a : ℕ) → a < 2 ^ k → bit_or a 0 ≡ a
bit_or-zero zero a p = let e : a ≡ 0 = omega arith in rw e refl
bit_or-zero (suc k) a p =
    omega (arith, bit_or_step a 0, bit_or-zero k (a / 2) (omega (arith, pow-suc 2 k)))

shift_once : (a k : ℕ) → a * 2 ^ suc k ≡ 2 * (a * 2 ^ k)
shift_once a k = omega (arith, ap (λ (t : ℕ). a * t) (pow-suc 2 k))

-- A number shifted by `k`, or-ed with one that has `k` low bits of its own.
pub bit_or_split :
    (k a b r : ℕ) → r < 2 ^ k → bit_or (a * 2 ^ k) (b * 2 ^ k + r) ≡ bit_or a b * 2 ^ k + r
bit_or_split zero a b r h =
    let ea : a * 2 ^ 0 ≡ a = omega arith in
    let eb : b * 2 ^ 0 + r ≡ b = omega arith in rw (ea, eb) (omega arith)
bit_or_split (suc k) a b r h =
    let ea : a * 2 ^ suc k / 2 ≡ a * 2 ^ k = omega (arith, shift_once a k) in
    let eb : (b * 2 ^ suc k + r) / 2 ≡ b * 2 ^ k + r / 2 = omega (arith, shift_once b k) in
    bit_or_step (a * 2 ^ suc k) (b * 2 ^ suc k + r)
    ∙ rw (ea, eb, bit_or_split k a b (r / 2) (omega (arith, pow-suc 2 k)))
        (omega (arith, shift_once a k, shift_once b k, shift_once (bit_or a b) k))

-- A number below `2 ^ k`, or-ed with one shifted by `k`.
pub bit_or_low : (k lo hi : ℕ) → lo < 2 ^ k → bit_or lo (hi * 2 ^ k) ≡ hi * 2 ^ k + lo
bit_or_low zero lo hi h =
    let e : lo ≡ 0 = omega arith in rw e (bit_or-bitwise 0 (hi * 2 ^ 0) ∙ omega arith)
bit_or_low (suc k) lo hi h =
    let e : hi * 2 ^ suc k / 2 ≡ hi * 2 ^ k = omega (arith, shift_once hi k) in
    bit_or_step lo (hi * 2 ^ suc k)
    ∙ rw (e, bit_or_low k (lo / 2) hi (omega (arith, pow-suc 2 k))) (omega (arith, shift_once hi k))
