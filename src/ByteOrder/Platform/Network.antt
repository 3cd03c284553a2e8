-- ===== src/ByteOrder/Platform/Network.antt =====
-- byte_order.hpp: the macros and functions of every platform against the byte order of the network.
use asyncmsg.Base.{
  bit_or_low, ℕ, ◌*◌, ◌/◌, ◌%◌, ◌^◌, ◌<◌, ◌≡◌, refl, subst, arith, Bool, true, false, Option, none,
  some, ◌==◌, Bool-cases, inl, inr,
}
use asyncmsg.ByteOrder.{swap32}
use asyncmsg.ByteOrder.Platform.{
  compile, macros_on, Conversions, conversions, Macros, Provided, System, linux, apple, bsd,
  windows, newlib, unknown, Target, swapping, not_swapping, from_halves, old_little, old_big,
  is_defined_as, is_old, on_linux, on_apple, or_define, on_bsd, on_windows, on_newlib, macros_on,
  macros, macros_on, Conversions, conversions,
}
use asyncmsg.ByteOrder.Platform.Order.{
  swap16, swap64, order, IsRight, Converts, Orders, IsRightIfAny, IsDocumented, TellsOrder,
  swap32-lt,
}

from_halves-swap64 :
    (half : ℕ → ℕ)
    → IsRight true swap32 (2 ^ 32) (some half)
    → IsRight true swap64 (2 ^ 64) (some (from_halves half))
unfolding from_halves swap64
from_halves-swap64 half h x small =
    let hi : half (x / 2 ^ 32 % 2 ^ 32) ≡ swap32 (x / 2 ^ 32 % 2 ^ 32) = h _ (omega arith) in
    let lo : half (x % 2 ^ 32) ≡ swap32 (x % 2 ^ 32) = h _ (omega arith) in
    let fits : swap32 (x % 2 ^ 32) * 2 ^ 32 % 2 ^ 64 ≡ swap32 (x % 2 ^ 32) * 2 ^ 32 =
      omega (arith, swap32-lt (x % 2 ^ 32)) in
    rw (hi, lo, fits, from_halves)
      (bit_or_low 32 (swap32 (x / 2 ^ 32 % 2 ^ 32)) (swap32 (x % 2 ^ 32)) (swap32-lt _))

swapping-Converts : (f : ℕ → ℕ → ℕ) → Orders true f → Converts true (swapping f)
unfolding swapping
swapping-Converts f h = (h.0, h.0, h.1, h.1, h.2, h.2)

not_swapping-Converts : (f : ℕ → ℕ → ℕ) → Converts false (not_swapping f)
unfolding not_swapping
not_swapping-Converts f =
    (λ x h. refl, λ x h. refl, λ x h. refl, λ x h. refl, λ x h. refl, λ x h. refl)

old_big-Converts : Converts false old_big
unfolding old_big
old_big-Converts = (λ x h. refl, λ x h. refl, λ x h. refl, λ x h. refl, λ x h. refl, λ x h. refl)

old_little-Converts :
    (s : System) (p : Provided) → IsDocumented true s p → Converts true (old_little p)
unfolding old_little
old_little-Converts s p d = (
  d.htons_lem,
  d.ntohs_lem,
  d.htonl_lem,
  d.ntohl_lem,
  from_halves-swap64 p.htonl d.htonl_lem,
  from_halves-swap64 p.ntohl d.ntohl_lem,
)

on_apple-Converts :
    (little : Bool) (s : System) (p : Provided)
    → IsDocumented little s p
    → Converts little (on_apple p)
unfolding on_apple
on_apple-Converts little s p d = (
  d.os_swap_host_to_big.0, d.os_swap_big_to_host.0, d.os_swap_host_to_big.1,
  d.os_swap_big_to_host.1, d.os_swap_host_to_big.2, d.os_swap_big_to_host.2,
)

or_define-IsRight :
    (little : Bool) (swap : ℕ → ℕ) (size : ℕ) (o : Option (ℕ → ℕ)) (f : ℕ → ℕ)
    → IsRightIfAny little swap size o
    → IsRight little swap size (some f)
    → IsRight little swap size (or_define o f)
unfolding or_define
or_define-IsRight little swap size none f h k = k
or_define-IsRight little swap size (some g) f h k = h

on_bsd-Converts :
    (little : Bool) (p : Provided) → IsDocumented little bsd p → Converts little (on_bsd p)
unfolding on_bsd
on_bsd-Converts little p d = (
  d.htobe16,
  or_define-IsRight little swap16 (2 ^ 16) p.endian_h.be16toh (p.betoh 16) d.be16toh d.betoh.0,
  d.htobe32,
  or_define-IsRight little swap32 (2 ^ 32) p.endian_h.be32toh (p.betoh 32) d.be32toh d.betoh.1,
  d.htobe64,
  or_define-IsRight little swap64 (2 ^ 64) p.endian_h.be64toh (p.betoh 64) d.be64toh d.betoh.2,
)

-- The macros of an outcome, if the header compiles.
abbrev ConvertsIfAny : Bool → Option Macros → Type 0
ConvertsIfAny little none = Unit
ConvertsIfAny little (some m) = Converts little m

on_linux_old :
    (little : Bool) (p : Provided) (t : Target)
    → IsDocumented little linux p
    → is_old t.glibc ≡ true
    → is_defined_as t.byte_order_ t.little_endian_ ≡ little
    → ConvertsIfAny little (on_linux p t)
unfolding on_linux
on_linux_old true p t d old e = rw (old, e, on_linux) (old_little-Converts linux p d)
on_linux_old false p t d old e = elim (Bool-cases (is_defined_as t.byte_order_ t.big_endian_)) [
  | inl big ↦ rw (old, e, big, on_linux) old_big-Converts
  | inr other ↦ rw (old, e, other, on_linux) tt
]

on_linux-Converts :
    (little : Bool) (p : Provided) (t : Target)
    → IsDocumented little linux p
    → TellsOrder linux little t
    → ConvertsIfAny little (on_linux p t)
unfolding on_linux
on_linux-Converts little p t d tells = elim (Bool-cases (is_old t.glibc)) [
  | inr new ↦ rw (new, on_linux) (d.htobe16, d.be16toh, d.htobe32, d.be32toh, d.htobe64, d.be64toh)
  | inl old ↦ on_linux_old little p t d old (tells old)
]

on_windows-Converts :
    (little : Bool) (p : Provided) (t : Target)
    → IsDocumented little windows p
    → TellsOrder windows little t
    → ConvertsIfAny little (on_windows p t)
unfolding on_windows
on_windows-Converts true p t d e = elim (Bool-cases t.msc_ver) [
  | inl msc ↦ simp (e, msc) (swapping-Converts p.byteswap d.byteswap)
  | inr not_msc ↦ elim (Bool-cases t.gnuc_or_clang) [
    | inl gnuc ↦ simp (e, not_msc, gnuc) (swapping-Converts p.builtin_bswap d.builtin_bswap)
    | inr other ↦ simp (e, not_msc, other) tt
  ]
]
on_windows-Converts false p t d e = elim (Bool-cases (t.byte_order == t.big_endian)) [
  | inl big ↦ simp (e, big) (not_swapping-Converts p.builtin_bswap)
  | inr other ↦ simp (e, other) tt
]

on_newlib-Converts :
    (little : Bool) (p : Provided) (t : Target)
    → IsDocumented little newlib p
    → TellsOrder newlib little t
    → ConvertsIfAny little (on_newlib p t)
unfolding on_newlib
on_newlib-Converts true p t d e = simp e (swapping-Converts p.bswap d.bswap)
on_newlib-Converts false p t d e = elim (Bool-cases (t.byte_order == t.big_endian)) [
  | inl big ↦ simp (e, big) (not_swapping-Converts p.bswap)
  | inr other ↦ simp (e, other) tt
]

macros_on-ConvertsIfAny :
    (s : System) (little : Bool) (p : Provided) (t : Target)
    → IsDocumented little s p
    → TellsOrder s little t
    → ConvertsIfAny little (macros_on s p t)
unfolding macros_on
macros_on-ConvertsIfAny linux little p t d tells = on_linux-Converts little p t d tells
macros_on-ConvertsIfAny apple little p t d tells = on_apple-Converts little apple p d
macros_on-ConvertsIfAny bsd little p t d tells = on_bsd-Converts little p d
macros_on-ConvertsIfAny windows little p t d tells = on_windows-Converts little p t d tells
macros_on-ConvertsIfAny newlib little p t d tells = on_newlib-Converts little p t d tells
macros_on-ConvertsIfAny unknown little p t d tells = tt

-- Wherever the header compiles, its macros between host and network swap the bytes on a little-endian
-- host and change nothing on a big-endian one, at 16, 32 and 64 bits, if the functions and macros that
-- the platform provides do what their documentation says and its byte-order macros tell the truth.
pub macros-Converts :
    (little : Bool) (p : Provided) (t : Target) (m : Macros)
    → IsDocumented little t.system p
    → TellsOrder t.system little t
    → macros p t ≡ some m
    → Converts little m
unfolding macros
macros-Converts little p t m d tells e =
    subst (ConvertsIfAny little) e (macros_on-ConvertsIfAny t.system little p t d tells)

-- Six functions that convert as they should, and back.
pub record IsNetworkOrder (little : Bool) (c : Conversions) : Type 0 where
  pub to_16 : (x : ℕ) → x < 2 ^ 16 → c.host_to_network_16 x ≡ order little swap16 x
  pub from_16 : (x : ℕ) → x < 2 ^ 16 → c.network_to_host_16 x ≡ order little swap16 x
  pub to_32 : (x : ℕ) → x < 2 ^ 32 → c.host_to_network_32 x ≡ order little swap32 x
  pub from_32 : (x : ℕ) → x < 2 ^ 32 → c.network_to_host_32 x ≡ order little swap32 x
  pub to_64 : (x : ℕ) → x < 2 ^ 64 → c.host_to_network_64 x ≡ order little swap64 x
  pub from_64 : (x : ℕ) → x < 2 ^ 64 → c.network_to_host_64 x ≡ order little swap64 x

defined :
    (little : Bool) (swap : ℕ → ℕ) (size : ℕ) (o : Option (ℕ → ℕ))
    → IsRight little swap size o
    → (f : ℕ → ℕ) × (o ≡ some f) × ((x : ℕ) → x < size → f x ≡ order little swap x)
defined little swap size none h = absurd h
defined little swap size (some f) h = (f, refl, h)

compiled :
    (m : Macros) (c : Conversions)
    → m.htobe16 ≡ some c.host_to_network_16
    → m.be16toh ≡ some c.network_to_host_16
    → m.htobe32 ≡ some c.host_to_network_32
    → m.be32toh ≡ some c.network_to_host_32
    → m.htobe64 ≡ some c.host_to_network_64
    → m.be64toh ≡ some c.network_to_host_64
    → conversions m ≡ some c
unfolding conversions compile
compiled m c ea eb ec ed ee ef = λ i. compile (ea i) (eb i) (ec i) (ed i) (ee i) (ef i)

-- The functions of the header are compiled, and convert, whenever its macros do.
pub conversions-IsNetworkOrder :
    (little : Bool) (m : Macros)
    → Converts little m
    → (c : Conversions) × (conversions m ≡ some c) × IsNetworkOrder little c
unfolding conversions
conversions-IsNetworkOrder little m h =
    let (a, ea, ha) = defined little swap16 (2 ^ 16) m.htobe16 h.0 in
    let (b, eb, hb) = defined little swap16 (2 ^ 16) m.be16toh h.1 in
    let (c, ec, hc) = defined little swap32 (2 ^ 32) m.htobe32 h.2 in
    let (d, ed, hd) = defined little swap32 (2 ^ 32) m.be32toh h.3 in
    let (e, ee, he) = defined little swap64 (2 ^ 64) m.htobe64 h.4 in
    let (f, ef, hf) = defined little swap64 (2 ^ 64) m.be64toh h.5 in
    (
      record {
        host_to_network_16 = a;
        network_to_host_16 = b;
        host_to_network_32 = c;
        network_to_host_32 = d;
        host_to_network_64 = e;
        network_to_host_64 = f;
      },
      compiled m _ ea eb ec ed ee ef,
      record { to_16 = ha; from_16 = hb; to_32 = hc; from_32 = hd; to_64 = he; from_64 = hf },
    )
