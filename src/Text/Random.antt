-- ===== src/Text/Random.antt =====
-- string_util.hpp: what `random_string` gives.
use asyncmsg.Base.{
  drop, inr, inl, ◌+◌, ◌||◌, ◌&&◌, leb, subst, true, All, ap, arith, Bool, ◌⊎◌, append-nil, ℕ, zero,
  suc, ◌-◌, ◌<◌, ◌≤◌, ◌≡◌, refl, sym, ◌∙◌, List, [], ◌∷◌, ◌++◌, length, get_or, ltb, ◌==◌, ==_iff,
  if◌then◌else◌, passes, passes-at, append_assoc,
}
use asyncmsg.Text.{random_string, characters, random_loop}

-- The places of the characters in their table.
abbrev index : ℕ → ℕ
index c = if ltb c 58 then c - 48 else if ltb c 91 then c - 55 else c - 61

-- The digits and letters.
abbrev pub IsAlphanumeric : ℕ → Type 0
IsAlphanumeric c = ((48 ≤ c) × (c < 58)) ⊎ (((65 ≤ c) × (c < 91)) ⊎ ((97 ≤ c) × (c < 123)))

index-characters : (k : ℕ) → k < length characters → index (get_or characters k 0) ≡ k
index-characters k h =
    (==_iff (index (get_or characters k 0)) k).0
      (passes-at (λ k. index (get_or characters k 0) == k) k 62 (unfold passes in refl) h)

-- The string from a loop: what is there already, and a character for each round.
drawn : ℕ → ℕ → (ℕ → ℕ) → List ℕ
drawn zero i draw = []
drawn (suc left) i draw = get_or characters (draw i) 0 ∷ drawn left (suc i) draw

random_loop-drawn :
    (left i : ℕ) (draw : ℕ → ℕ) (s : List ℕ) → random_loop left i draw s ≡ s ++ drawn left i draw
unfolding random_loop drawn
random_loop-drawn zero i draw s = sym (append-nil s)
random_loop-drawn (suc left) i draw s =
    random_loop-drawn left (suc i) draw (s ++ get_or characters (draw i) 0 ∷ [])
    ∙ append_assoc s (get_or characters (draw i) 0 ∷ []) (drawn left (suc i) draw)

random_string-drawn : (n : ℕ) (draw : ℕ → ℕ) → random_string n draw ≡ drawn n 0 draw
unfolding random_string
random_string-drawn n draw = random_loop-drawn n 0 draw []

length-drawn : (left i : ℕ) (draw : ℕ → ℕ) → length (drawn left i draw) ≡ left
unfolding drawn
length-drawn zero i draw = refl
length-drawn (suc left) i draw = ap suc (length-drawn left (suc i) draw)

is_alphanumeric : ℕ → Bool
is_alphanumeric c = (leb 48 c && ltb c 58) || ((leb 65 c && ltb c 91) || (leb 97 c && ltb c 123))

is_alphanumeric-IsAlphanumeric : (c : ℕ) → is_alphanumeric c ≡ true → IsAlphanumeric c
unfolding is_alphanumeric
is_alphanumeric-IsAlphanumeric c h = ground arith

characters-IsAlphanumeric : (k : ℕ) → k < length characters → IsAlphanumeric (get_or characters k 0)
characters-IsAlphanumeric k h = is_alphanumeric-IsAlphanumeric (get_or characters k 0) (
    passes-at (λ k. is_alphanumeric (get_or characters k 0)) k 62
      (unfold passes in unfold is_alphanumeric in refl) h)

drawn-IsAlphanumeric :
    (left i : ℕ) (draw : ℕ → ℕ)
    → ((k : ℕ) → draw k < length characters)
    → All IsAlphanumeric (drawn left i draw)
unfolding drawn
drawn-IsAlphanumeric zero i draw h = tt
drawn-IsAlphanumeric (suc left) i draw h =
    (characters-IsAlphanumeric (draw i) (h i), drawn-IsAlphanumeric left (suc i) draw h)

-- `random_string` ends with a string of the length asked for, of digits and letters only, if the
-- distribution keeps its bounds.
pub random_string-IsAlphanumeric :
    (n : ℕ) (draw : ℕ → ℕ)
    → ((k : ℕ) → draw k < length characters)
    → (length (random_string n draw) ≡ n) × All IsAlphanumeric (random_string n draw)
random_string-IsAlphanumeric n draw h =
    subst (λ s. (length s ≡ n) × All IsAlphanumeric s) (sym (random_string-drawn n draw))
      (length-drawn n 0 draw, drawn-IsAlphanumeric n 0 draw h)

le_split : (i k : ℕ) → i ≤ k → (i ≡ k) ⊎ (i < k)
le_split i k h = ground arith

drawn_injective :
    (left i : ℕ) (d e : ℕ → ℕ)
    → ((k : ℕ) → d k < length characters)
    → ((k : ℕ) → e k < length characters)
    → drawn left i d ≡ drawn left i e
    → (k : ℕ) → i ≤ k
    → k < i + left
    → d k ≡ e k
unfolding drawn
drawn_injective zero i d e dh eh same k lo hi = absurd (omega arith)
drawn_injective (suc left) i d e dh eh same k lo hi = elim (le_split i k lo) [
  | inl here ↦
      subst (λ k. d k ≡ e k) here
        (sym (index-characters (d i) (dh i))
          ∙ (ap (λ s. index (get_or s 0 0)) same ∙ index-characters (e i) (eh i)))
  | inr later ↦ drawn_injective left (suc i) d e dh eh (ap (drop 1) same) k later (omega arith)
]

-- Two random strings of one length are equal only if the distribution gave the same number in every
-- round: no draw is lost.
pub random_string_injective :
    (n : ℕ) (d e : ℕ → ℕ)
    → ((k : ℕ) → d k < length characters)
    → ((k : ℕ) → e k < length characters)
    → random_string n d ≡ random_string n e
    → (k : ℕ) → k < n
    → d k ≡ e k
random_string_injective n d e dh eh same k h =
    drawn_injective n 0 d e dh eh (sym (random_string-drawn n d) ∙ (same ∙ random_string-drawn n e))
      k (omega arith) (omega arith)
