-- ===== src/Text.antt =====
-- asyncmsg/asyncmsg/base/string_util.hpp and debug_helper.hpp: random strings, and the lines of the
-- log. A string is the list of its characters' codes.
pub mod Random
pub mod Time
use asyncmsg.Base.{
  ℕ, zero, suc, ◌+◌, ◌-◌, ◌*◌, ◌/◌, ◌%◌, ◌^◌, List, [], ◌∷◌, ◌++◌, length, get_or, take, replicate,
  ltb, if◌then◌else◌,
}

-- `CHARACTERS`: the digits, the capital letters and the small letters.
abbrev pub characters : List ℕ
characters =
    48 ∷ 49 ∷ 50 ∷ 51 ∷ 52 ∷ 53 ∷ 54 ∷ 55 ∷ 56 ∷ 57 ∷ 65 ∷ 66 ∷ 67 ∷ 68 ∷ 69 ∷ 70 ∷ 71 ∷ 72 ∷ 73
    ∷ 74 ∷ 75 ∷ 76 ∷ 77 ∷ 78 ∷ 79 ∷ 80 ∷ 81 ∷ 82 ∷ 83 ∷ 84 ∷ 85 ∷ 86 ∷ 87 ∷ 88 ∷ 89 ∷ 90 ∷ 97 ∷ 98
    ∷ 99 ∷ 100 ∷ 101 ∷ 102 ∷ 103 ∷ 104 ∷ 105 ∷ 106 ∷ 107 ∷ 108 ∷ 109 ∷ 110 ∷ 111 ∷ 112 ∷ 113 ∷ 114
    ∷ 115 ∷ 116 ∷ 117 ∷ 118 ∷ 119 ∷ 120 ∷ 121 ∷ 122 ∷ []

-- The loop of `random_string` from `i` on, with so many rounds left; `draw i` is what the distribution
-- gives in round `i`.
unfoldable pub random_loop : ℕ → ℕ → (ℕ → ℕ) → List ℕ → List ℕ
random_loop zero i draw s = s
random_loop (suc left) i draw s =
    random_loop left (suc i) draw (s ++ get_or characters (draw i) 0 ∷ [])

unfoldable pub random_string : ℕ → (ℕ → ℕ) → List ℕ
random_string n draw = random_loop n 0 draw []

-- `struct tm`, as far as it is printed.
pub record Tm : Type 0 where
  pub tm_year : ℕ
  pub tm_mon : ℕ
  pub tm_mday : ℕ
  pub tm_hour : ℕ
  pub tm_min : ℕ
  pub tm_sec : ℕ

-- The digits of an `int` that is not negative, before `rest`; ten are enough.
unfoldable pub digits : ℕ → ℕ → List ℕ → List ℕ
digits zero n rest = rest
digits (suc fuel) n rest =
    let more = digits fuel (n / 10) ((48 + n % 10) ∷ rest) in
    if ltb n 10 then (48 + n) ∷ rest else more

-- `%d`, and `%0<width>d`.
unfoldable pub decimal : ℕ → List ℕ
decimal n = digits 10 n []

unfoldable pub padded : ℕ → ℕ → List ℕ
padded width n = replicate (width - length (decimal n)) 48 ++ decimal n

-- `dis_millseconds`, of a clock that counts nanoseconds since the epoch.
unfoldable pub dis_milliseconds : ℕ → ℕ
dis_milliseconds now = now / 10 ^ 6 - now / 10 ^ 9 * 1000

-- The format "%d-%02d-%02d %02d:%02d:%02d %03d".
unfoldable pub time_format : Tm → ℕ → List ℕ
time_format t milliseconds =
    decimal (t.tm_year + 1900)
    ++ (45
        ∷ (padded 2 (t.tm_mon + 1)
            ++ (45
                ∷ (padded 2 t.tm_mday
                    ++ (32
                        ∷ (padded 2 t.tm_hour
                            ++ (58
                                ∷ (padded 2 t.tm_min
                                    ++ (58
                                        ∷ (padded 2 t.tm_sec
                                            ++ (32 ∷ padded 3 milliseconds)))))))))))

-- `get_time_string`, with the clock, and the system's `to_time_t` and `localtime`. Into 64 characters
-- `snprintf` writes at most 63 and a NUL.
unfoldable pub get_time_string : (ℕ → ℕ) → (ℕ → Tm) → ℕ → List ℕ
get_time_string to_time_t localtime now =
    take 63 (time_format (localtime (to_time_t now)) (dis_milliseconds now))

-- `print_log`: what it writes, with the time and the thread's id as text.
unfoldable pub print_log : List ℕ → List ℕ → List ℕ → List ℕ
print_log time thread log_content =
    91 ∷ (time ++ (93 ∷ (91 ∷ (thread ++ (93 ∷ (log_content ++ 10 ∷ []))))))
