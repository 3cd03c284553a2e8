-- ===== src/Crc/Table.antt =====
-- The table against the polynomial that it tabulates.
use asyncmsg.Base.{
  passes, passes-at, ℕ, ◌+◌, ◌*◌, ◌/◌, ◌%◌, bit_xor, ◌≡◌, refl, ◌∙◌, sym, ap, true, arith, get_or,
  List, [], ◌∷◌, All, take, ltb, ltb→lt, ◌==◌, ==_iff, if◌then◌else◌, bit_xor-lt,
}
use asyncmsg.Crc.{crc8_table, IsByte, crc_step, crc_loop, calc_crc8}

-- One bit of the division by x^8 + x^5 + x^4 + 1, lowest bit first.
pub divide_bit : ℕ → ℕ
divide_bit x = if x % 2 == 1 then bit_xor (x / 2) 0x8c else x / 2

-- The remainder of a byte: eight bits of the division.
pub remainder : ℕ → ℕ
unfolding divide_bit
remainder x =
    divide_bit
      (divide_bit (divide_bit (divide_bit (divide_bit (divide_bit (divide_bit (divide_bit x)))))))

-- The division run backwards: the highest bit tells whether the polynomial was taken off.
restore_bit : ℕ → ℕ
restore_bit y = if ltb y 128 then y * 2 else bit_xor y 0x8c * 2 + 1

restore : ℕ → ℕ
unfolding restore_bit
restore y = restore_bit (
    restore_bit
      (restore_bit (restore_bit (restore_bit (restore_bit (restore_bit (restore_bit y)))))))

remainder_checked : passes (λ x. get_or crc8_table x 0 == remainder x) 256 ≡ true
unfolding passes remainder
remainder_checked = refl

restore_checked : passes (λ x. restore (get_or crc8_table x 0) == x) 256 ≡ true
unfolding passes restore
restore_checked = refl

range_checked : passes (λ x. ltb (get_or crc8_table x 0) 256) 256 ≡ true
unfolding passes
range_checked = refl

-- Every entry of the table is the remainder of its index.
pub crc8_table-remainder : (x : ℕ) → IsByte x → get_or crc8_table x 0 ≡ remainder x
crc8_table-remainder x h = (==_iff _ _).0 (passes-at _ x 256 remainder_checked h)

restore-crc8_table : (x : ℕ) → IsByte x → restore (get_or crc8_table x 0) ≡ x
restore-crc8_table x h = (==_iff _ _).0 (passes-at _ x 256 restore_checked h)

pub crc8_table-IsByte : (x : ℕ) → IsByte x → IsByte (get_or crc8_table x 0)
crc8_table-IsByte x h = ltb→lt _ _ (passes-at _ x 256 range_checked h)

-- No two bytes share an entry.
pub crc8_table_injective :
    (x y : ℕ) → IsByte x → IsByte y → get_or crc8_table x 0 ≡ get_or crc8_table y 0 → x ≡ y
crc8_table_injective x y hx hy e =
    sym (restore-crc8_table x hx) ∙ ap restore e ∙ restore-crc8_table y hy

pub crc_step-IsByte : (val b : ℕ) → IsByte val → IsByte b → IsByte (crc_step val b)
unfolding crc_step
crc_step-IsByte val b hv hb = crc8_table-IsByte _ (bit_xor-lt 8 val b hv hb)

-- The checksum without a table: the remainder of each byte in turn.
pub crc_bitwise : ℕ → List ℕ → ℕ
crc_bitwise val [] = val
crc_bitwise val (b ∷ bs) = crc_bitwise (remainder (bit_xor val b)) bs

crc_loop-crc_bitwise :
    (val : ℕ) (bs : List ℕ) → IsByte val → All IsByte bs → crc_loop val bs ≡ crc_bitwise val bs
unfolding crc_loop crc_bitwise crc_step
crc_loop-crc_bitwise val [] hv hs = refl
crc_loop-crc_bitwise val (b ∷ bs) hv hs =
    let hx = bit_xor-lt 8 val b hv hs.0 in
    crc_loop-crc_bitwise (get_or crc8_table (bit_xor val b) 0) bs (crc8_table-IsByte _ hx) hs.1
    ∙ ap (λ v. crc_bitwise v bs) (crc8_table-remainder _ hx)

-- On bytes, `calc_crc8` returns the bitwise checksum of the first `len` of them, from 0x77.
pub calc_crc8-crc_bitwise :
    (bytes : List ℕ) (len : ℕ)
    → All IsByte (take len bytes)
    → calc_crc8 bytes len ≡ crc_bitwise 0x77 (take len bytes)
unfolding calc_crc8
calc_crc8-crc_bitwise bytes len h = crc_loop-crc_bitwise 0x77 (take len bytes) (omega arith) h
