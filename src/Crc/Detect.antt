-- ===== src/Crc/Detect.antt =====
-- What the checksum detects.
use asyncmsg.Base.{
  ℕ, ◌+◌, ◌≤◌, bit_xor, ◌≡◌, ◌≢◌, refl, ◌∙◌, sym, ap, arith, List, [], ◌∷◌, ◌++◌, All, take, length,
  get_or, take_of_length-le, take-append, length-append, bit_xor-lt, bit_xor_cancel, bit_xor_comm,
}
use asyncmsg.Crc.{crc8_table, IsByte, crc_step, crc_loop, calc_crc8}
use asyncmsg.Crc.Table.{crc8_table_injective, crc_step-IsByte}

crc_loop-append :
    (val : ℕ) (xs ys : List ℕ) → crc_loop val (xs ++ ys) ≡ crc_loop (crc_loop val xs) ys
unfolding crc_loop
crc_loop-append val [] ys = refl
crc_loop-append val (x ∷ xs) ys = crc_loop-append (crc_step val x) xs ys

pub crc_loop-IsByte :
    (val : ℕ) (xs : List ℕ) → IsByte val → All IsByte xs → IsByte (crc_loop val xs)
unfolding crc_loop
crc_loop-IsByte val [] hv hs = hv
crc_loop-IsByte val (x ∷ xs) hv hs =
    crc_loop-IsByte (crc_step val x) xs (crc_step-IsByte val x hv hs.0) hs.1

-- A step can be undone from either of its arguments.
crc_step-val : (v w b : ℕ) → IsByte v → IsByte w → IsByte b → crc_step v b ≡ crc_step w b → v ≡ w
unfolding crc_step
crc_step-val v w b hv hw hb e =
    let same =
      crc8_table_injective (bit_xor v b) (bit_xor w b) (bit_xor-lt 8 v b hv hb)
        (bit_xor-lt 8 w b hw hb) e in
    sym (bit_xor_cancel 8 v b hv hb) ∙ ap (λ t. bit_xor t b) same ∙ bit_xor_cancel 8 w b hw hb

crc_step-byte : (v a b : ℕ) → IsByte v → IsByte a → IsByte b → crc_step v a ≡ crc_step v b → a ≡ b
unfolding crc_step
crc_step-byte v a b hv ha hb e = crc_step-val a b v ha hb hv (
    ap (λ t. get_or crc8_table t 0) (bit_xor_comm 8 a v ha hv)
    ∙ e
    ∙ ap (λ t. get_or crc8_table t 0) (bit_xor_comm 8 v b hv hb))

crc_loop-val :
    (v w : ℕ) (bs : List ℕ)
    → IsByte v
    → IsByte w
    → All IsByte bs
    → crc_loop v bs ≡ crc_loop w bs
    → v ≡ w
unfolding crc_loop
crc_loop-val v w [] hv hw hs e = e
crc_loop-val v w (b ∷ bs) hv hw hs e =
    let below =
      crc_loop-val (crc_step v b) (crc_step w b) bs (crc_step-IsByte v b hv hs.0)
        (crc_step-IsByte w b hw hs.0) hs.1 e in
    crc_step-val v w b hv hw hs.0 below

calc_crc8_split :
    (before : List ℕ) (a : ℕ) (after : List ℕ) (len : ℕ)
    → length before + 1 + length after ≡ len
    → calc_crc8 (before ++ a ∷ after) len ≡ crc_loop (crc_step (crc_loop 0x77 before) a) after
unfolding calc_crc8
calc_crc8_split before a after len e =
    let whole : length (before ++ a ∷ after) ≤ len =
      omega (arith, length-append before (a ∷ after)) in
    ap (crc_loop 0x77) (take_of_length-le len (before ++ a ∷ after) whole)
    ∙ (crc_loop-append 0x77 before (a ∷ after) ∙ unfold crc_loop in refl)

-- Two blocks of `len` bytes that differ in exactly one byte have different checksums: every error
-- confined to one byte is detected.
pub calc_crc8_detects :
    (before : List ℕ) (a b : ℕ) (after : List ℕ) (len : ℕ)
    → length before + 1 + length after ≡ len
    → All IsByte before
    → All IsByte after
    → IsByte a
    → IsByte b
    → a ≢ b
    → calc_crc8 (before ++ a ∷ after) len ≢ calc_crc8 (before ++ b ∷ after) len
calc_crc8_detects before a b after len size hbefore hafter ha hb differ e =
    let v = crc_loop 0x77 before in
    let hv = crc_loop-IsByte 0x77 before (omega arith) hbefore in
    let same =
      crc_loop-val (crc_step v a) (crc_step v b) after (crc_step-IsByte v a hv ha)
        (crc_step-IsByte v b hv hb) hafter
        (sym (calc_crc8_split before a after len size)
          ∙ e
          ∙ calc_crc8_split before b after len size) in
    differ (crc_step-byte v a b hv ha hb same)

pub calc_crc8-IsByte :
    (bytes : List ℕ) (len : ℕ) → All IsByte (take len bytes) → IsByte (calc_crc8 bytes len)
unfolding calc_crc8
calc_crc8-IsByte bytes len h = crc_loop-IsByte 0x77 (take len bytes) (omega arith) h

-- The checksum of a prefix does not see what follows.
pub calc_crc8-append :
    (xs ys : List ℕ) (len : ℕ) → length xs ≡ len → calc_crc8 (xs ++ ys) len ≡ calc_crc8 xs len
unfolding calc_crc8
calc_crc8-append xs ys len e =
    ap (crc_loop 0x77) (take-append len xs ys e ∙ sym (take_of_length-le len xs (omega arith)))
