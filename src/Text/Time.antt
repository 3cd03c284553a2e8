-- ===== src/Text/Time.antt =====
-- debug_helper.hpp: what `get_time_string` writes.
use asyncmsg.Base.{
  take_of_length-le, drop-append, drop-drop, take-append, length-append, ap, inr, inl, subst,
  le→ltb, ◌⊎◌, replicate, lt→ltb, ℕ, suc, ◌+◌, ◌-◌, ◌*◌, ◌/◌, ◌%◌, ◌<◌, ◌^◌, ◌≤◌, ◌≡◌, refl, sym,
  ◌∙◌, arith, List, [], ◌∷◌, ◌++◌, length, take, drop,
}
use asyncmsg.Text.{dis_milliseconds, get_time_string, Tm, time_format, digits, decimal, padded}

-- The number that digits stand for, after `n`.
abbrev pub number : ℕ → List ℕ → ℕ
number n [] = n
number n (d ∷ ds) = number (n * 10 + (d - 48)) ds

-- The number in a text, from this place on and of so many digits.
abbrev pub read : List ℕ → ℕ → ℕ → ℕ
read text from width = number 0 (take width (drop from text))

split_at : (k n : ℕ) → (n < k) ⊎ (k ≤ n)
split_at k n = ground arith

digits_last : (fuel n : ℕ) (rest : List ℕ) → n < 10 → digits (suc fuel) n rest ≡ (48 + n) ∷ rest
unfolding digits
digits_last fuel n rest h = rw (lt→ltb n 10 h) refl

digits_more :
    (fuel n : ℕ) (rest : List ℕ)
    → 10 ≤ n
    → digits (suc fuel) n rest ≡ digits fuel (n / 10) ((48 + n % 10) ∷ rest)
unfolding digits
digits_more fuel n rest h = rw (le→ltb n 10 h) refl

decimal_one : (n : ℕ) → n < 10 → decimal n ≡ (48 + n) ∷ []
unfolding decimal
decimal_one n h = digits_last 9 n [] h

decimal_two : (n : ℕ) → 10 ≤ n → n < 100 → decimal n ≡ (48 + n / 10) ∷ (48 + n % 10) ∷ []
unfolding decimal
decimal_two n lo hi =
    digits_more 9 n [] lo ∙ digits_last 8 (n / 10) ((48 + n % 10) ∷ []) (omega arith)

decimal_three :
    (n : ℕ)
    → 100 ≤ n
    → n < 1000
    → decimal n ≡ (48 + n / 10 / 10) ∷ (48 + n / 10 % 10) ∷ (48 + n % 10) ∷ []
unfolding decimal
decimal_three n lo hi =
    digits_more 9 n [] (omega arith)
    ∙ (digits_more 8 (n / 10) _ (omega arith) ∙ digits_last 7 (n / 10 / 10) _ (omega arith))

decimal_four :
    (n : ℕ)
    → 1000 ≤ n
    → n < 10000
    → decimal n
      ≡ (48 + n / 10 / 10 / 10) ∷ (48 + n / 10 / 10 % 10) ∷ (48 + n / 10 % 10) ∷ (48 + n % 10) ∷ []
unfolding decimal
decimal_four n lo hi =
    digits_more 9 n [] (omega arith)
    ∙ (digits_more 8 (n / 10) _ (omega arith)
        ∙ (digits_more 7 (n / 10 / 10) _ (omega arith)
            ∙ digits_last 6 (n / 10 / 10 / 10) _ (omega arith)))

-- The characters of a number in a field of two, three or four.
abbrev Shows : ℕ → ℕ → List ℕ → Type 0
Shows width n text = (length text ≡ width) × (number 0 text ≡ n)

subst-Shows : (width n : ℕ) (a b : List ℕ) → a ≡ b → Shows width n b → Shows width n a
subst-Shows width n a b e = subst (Shows width n) (sym e)

pad :
    (width n : ℕ) (text : List ℕ)
    → decimal n ≡ text
    → padded width n ≡ replicate (width - length text) 48 ++ text
unfolding padded
pad width n text e = rw e refl

Shows-two : (n : ℕ) → n < 100 → Shows 2 n (padded 2 n)
Shows-two n h = elim (split_at 10 n) [
  | inl lo ↦ subst-Shows 2 n _ _ (pad 2 n _ (decimal_one n lo)) (refl, omega arith)
  | inr hi ↦ subst-Shows 2 n _ _ (pad 2 n _ (decimal_two n hi h)) (refl, omega arith)
]

Shows-three : (n : ℕ) → n < 1000 → Shows 3 n (padded 3 n)
Shows-three n h = elim (split_at 10 n) [
  | inl lo ↦ subst-Shows 3 n _ _ (pad 3 n _ (decimal_one n lo)) (refl, omega arith)
  | inr more ↦ (elim (split_at 100 n) [
    | inl lo ↦ subst-Shows 3 n _ _ (pad 3 n _ (decimal_two n more lo)) (refl, omega arith)
    | inr hi ↦ subst-Shows 3 n _ _ (pad 3 n _ (decimal_three n hi h)) (refl, omega arith)
  ])
]

Shows-four : (n : ℕ) → 1000 ≤ n → n < 10000 → Shows 4 n (decimal n)
Shows-four n lo hi = subst-Shows 4 n _ _ (decimal_four n lo hi) (refl, omega arith)

read_here : (width n : ℕ) (a rest : List ℕ) → Shows width n a → read (a ++ rest) 0 width ≡ n
read_here width n a rest v = rw (take-append width a rest v.0) v.1

read_after :
    (width from size c : ℕ) (a rest : List ℕ)
    → length a ≡ width
    → read (a ++ (c ∷ rest)) (width + suc from) size ≡ read rest from size
read_after width from size c a rest e =
    ap (λ t. number 0 (take size t))
      (sym (drop-drop (suc from) width (a ++ (c ∷ rest)))
        ∙ ap (drop (suc from)) (drop-append width a (c ∷ rest) e))

length-after :
    (width : ℕ) (c : ℕ) (a rest : List ℕ)
    → length a ≡ width
    → length (a ++ (c ∷ rest)) ≡ width + suc (length rest)
length-after width c a rest e = length-append a (c ∷ rest) ∙ ap (λ n. n + suc (length rest)) e

read_all : (width n : ℕ) (a : List ℕ) → Shows width n a → read a 0 width ≡ n
read_all width n a v = rw (take_of_length-le width a (omega (arith, v.0))) v.1

length_six :
    (a b c d e f g : List ℕ) (u v w x y z : ℕ)
    → length a ≡ 4
    → length b ≡ 2
    → length c ≡ 2
    → length d ≡ 2
    → length e ≡ 2
    → length f ≡ 2
    → length (a ++ u ∷ (b ++ v ∷ (c ++ w ∷ (d ++ x ∷ (e ++ y ∷ (f ++ z ∷ g)))))) ≡ 20 + length g
length_six a b c d e f g u v w x y z ha hb hc hd he hf = omega (
  arith,
  length-after 4 u a (b ++ v ∷ (c ++ w ∷ (d ++ x ∷ (e ++ y ∷ (f ++ z ∷ g))))) ha,
  length-after 2 v b (c ++ w ∷ (d ++ x ∷ (e ++ y ∷ (f ++ z ∷ g)))) hb,
  length-after 2 w c (d ++ x ∷ (e ++ y ∷ (f ++ z ∷ g))) hc,
  length-after 2 x d (e ++ y ∷ (f ++ z ∷ g)) hd,
  length-after 2 y e (f ++ z ∷ g) he,
  length-after 2 z f g hf,
)

-- The fields as the C standard has them, and a year of four digits.
pub record IsCivil (t : Tm) : Type 0 where
  pub year_to : t.tm_year < 8100
  pub mon : t.tm_mon < 12
  pub mday : t.tm_mday < 32
  pub hour : t.tm_hour < 24
  pub min : t.tm_min < 60
  pub sec : t.tm_sec ≤ 60

-- What is read from each place of a line's time.
abbrev pub Tells : Tm → ℕ → List ℕ → Type 0
Tells t milliseconds text =
    (length text ≡ 23)
    × (read text 0 4 ≡ t.tm_year + 1900)
    × (read text 5 2 ≡ t.tm_mon + 1)
    × (read text 8 2 ≡ t.tm_mday)
    × (read text 11 2 ≡ t.tm_hour)
    × (read text 14 2 ≡ t.tm_min)
    × (read text 17 2 ≡ t.tm_sec)
    × (read text 20 3 ≡ milliseconds)

time_format-Tells :
    (t : Tm) (milliseconds : ℕ)
    → IsCivil t
    → milliseconds < 1000
    → Tells t milliseconds (time_format t milliseconds)
unfolding time_format
time_format-Tells t milliseconds v h =
    let year = Shows-four (t.tm_year + 1900) (omega arith) (omega (arith, v.year_to)) in
    let mon = Shows-two (t.tm_mon + 1) (omega (arith, v.mon)) in
    let mday = Shows-two t.tm_mday (omega (arith, v.mday)) in
    let hour = Shows-two t.tm_hour (omega (arith, v.hour)) in
    let min = Shows-two t.tm_min (omega (arith, v.min)) in
    let sec = Shows-two t.tm_sec (omega (arith, v.sec)) in
    let milli = Shows-three milliseconds h in
    (
      length_six _ _ _ _ _ _ _ 45 45 32 58 58 32 year.0 mon.0 mday.0 hour.0 min.0 sec.0
          ∙ ap (λ n. 20 + n) milli.0,
      read_here 4 _ (decimal (t.tm_year + 1900)) _ year,
      read_after 4 0 2 45 _ _ year.0 ∙ read_here 2 _ (padded 2 (t.tm_mon + 1)) _ mon,
      read_after 4 3 2 45 _ _ year.0
          ∙ (read_after 2 0 2 45 _ _ mon.0 ∙ read_here 2 _ (padded 2 t.tm_mday) _ mday),
      read_after 4 6 2 45 _ _ year.0
          ∙ (read_after 2 3 2 45 _ _ mon.0
              ∙ (read_after 2 0 2 32 _ _ mday.0 ∙ read_here 2 _ (padded 2 t.tm_hour) _ hour)),
      read_after 4 9 2 45 _ _ year.0
          ∙ (read_after 2 6 2 45 _ _ mon.0
              ∙ (read_after 2 3 2 32 _ _ mday.0
                  ∙ (read_after 2 0 2 58 _ _ hour.0 ∙ read_here 2 _ (padded 2 t.tm_min) _ min))),
      read_after 4 12 2 45 _ _ year.0
          ∙ (read_after 2 9 2 45 _ _ mon.0
              ∙ (read_after 2 6 2 32 _ _ mday.0
                  ∙ (read_after 2 3 2 58 _ _ hour.0
                      ∙ (read_after 2 0 2 58 _ _ min.0
                          ∙ read_here 2 _ (padded 2 t.tm_sec) _ sec)))),
      read_after 4 15 3 45 _ _ year.0
          ∙ (read_after 2 12 3 45 _ _ mon.0
              ∙ (read_after 2 9 3 32 _ _ mday.0
                  ∙ (read_after 2 6 3 58 _ _ hour.0
                      ∙ (read_after 2 3 3 58 _ _ min.0
                          ∙ (read_after 2 0 3 32 _ _ sec.0
                              ∙ read_all 3 milliseconds (padded 3 milliseconds) milli))))),
    )

-- `get_time_string` loses nothing: of a time with fields in their ranges and a year from 1900 to 9999, the
-- text has 23 characters, which the buffer holds, and from its columns the six fields of the
-- local time and the milliseconds within the second are read back.
pub get_time_string-Tells :
    (to_time_t : ℕ → ℕ) (localtime : ℕ → Tm) (now : ℕ)
    → IsCivil (localtime (to_time_t now))
    → Tells
        (localtime (to_time_t now))
        (now / 10 ^ 6 % 1000)
        (get_time_string to_time_t localtime now)
unfolding get_time_string dis_milliseconds
get_time_string-Tells to_time_t localtime now v =
    let t = localtime (to_time_t now) in
    let milliseconds = now / 10 ^ 6 - now / 10 ^ 9 * 1000 in
    let e : milliseconds ≡ now / 10 ^ 6 % 1000 = omega arith in
    let told = time_format-Tells t milliseconds v (omega arith) in
    let whole : take 63 (time_format t milliseconds) ≡ time_format t milliseconds =
      take_of_length-le 63 (time_format t milliseconds) (omega (arith, told.0)) in
    subst (λ text. Tells t (now / 10 ^ 6 % 1000) text) (sym whole)
      (subst (λ m. Tells t m (time_format t milliseconds)) e told)
