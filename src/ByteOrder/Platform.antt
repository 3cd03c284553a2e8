-- ===== src/ByteOrder/Platform.antt =====
-- byte_order.hpp: which macros the header defines on each platform, and the conversions made of them.
-- What the platform's own headers and compilers provide is the record `Provided`.
pub mod Order
pub mod Network
pub mod RoundTrip
mod Tests
use asyncmsg.Base.{
  ℕ, ◌+◌, ◌*◌, ◌/◌, ◌%◌, ◌^◌, bit_or, Bool, true, false, ◌&&◌, ◌||◌, Option, none, some, ◌==◌, ltb,
  if◌then◌else◌,
}

-- The twelve macros; `none` is one that is not defined, or whose expansion is no expression.
pub record Macros : Type 0 where
  pub htobe16 : Option (ℕ → ℕ)
  pub htole16 : Option (ℕ → ℕ)
  pub be16toh : Option (ℕ → ℕ)
  pub le16toh : Option (ℕ → ℕ)
  pub htobe32 : Option (ℕ → ℕ)
  pub htole32 : Option (ℕ → ℕ)
  pub be32toh : Option (ℕ → ℕ)
  pub le32toh : Option (ℕ → ℕ)
  pub htobe64 : Option (ℕ → ℕ)
  pub htole64 : Option (ℕ → ℕ)
  pub be64toh : Option (ℕ → ℕ)
  pub le64toh : Option (ℕ → ℕ)

-- What the included headers and the compiler provide: arpa/inet.h, the macros of the system's endian.h
-- (or sys/endian.h), and the families of functions, by the number of bits.
pub record Provided : Type 0 where
  pub htons : ℕ → ℕ
  pub ntohs : ℕ → ℕ
  pub htonl : ℕ → ℕ
  pub ntohl : ℕ → ℕ
  pub endian_h : Macros
  pub os_swap_host_to_big : ℕ → ℕ → ℕ
  pub os_swap_host_to_little : ℕ → ℕ → ℕ
  pub os_swap_big_to_host : ℕ → ℕ → ℕ
  pub os_swap_little_to_host : ℕ → ℕ → ℕ
  pub betoh : ℕ → ℕ → ℕ
  pub letoh : ℕ → ℕ → ℕ
  pub byteswap : ℕ → ℕ → ℕ
  pub builtin_bswap : ℕ → ℕ → ℕ
  pub bswap : ℕ → ℕ → ℕ

-- `linux` also stands for Cygwin and GNU, `bsd` for the four BSDs.
pub data System : Type 0 where
  linux apple bsd windows newlib unknown : System

-- What the preprocessor knows. `glibc` has the major and the minor version; a number that is not
-- defined is 0 in an `#if`, but the header asks whether `__BYTE_ORDER` is.
pub record Target : Type 0 where
  pub system : System
  pub glibc : Option (ℕ × ℕ)
  pub byte_order_ : Option ℕ
  pub little_endian_ : ℕ
  pub big_endian_ : ℕ
  pub byte_order : ℕ
  pub little_endian : ℕ
  pub big_endian : ℕ
  pub msc_ver : Bool
  pub gnuc_or_clang : Bool

-- `(x)`.
abbrev pub unchanged : Option (ℕ → ℕ)
unchanged = some (λ x. x)

-- The macros of a little-endian or a big-endian host, from a function that swaps the bytes.
unfoldable pub swapping : (ℕ → ℕ → ℕ) → Macros
swapping swap = record {
  htobe16 = some (swap 16);
  htole16 = unchanged;
  be16toh = some (swap 16);
  le16toh = unchanged;
  htobe32 = some (swap 32);
  htole32 = unchanged;
  be32toh = some (swap 32);
  le32toh = unchanged;
  htobe64 = some (swap 64);
  htole64 = unchanged;
  be64toh = some (swap 64);
  le64toh = unchanged;
}

unfoldable pub not_swapping : (ℕ → ℕ → ℕ) → Macros
not_swapping swap = record {
  htobe16 = unchanged;
  htole16 = some (swap 16);
  be16toh = unchanged;
  le16toh = some (swap 16);
  htobe32 = unchanged;
  htole32 = some (swap 32);
  be32toh = unchanged;
  le32toh = some (swap 32);
  htobe64 = unchanged;
  htole64 = some (swap 64);
  be64toh = unchanged;
  le64toh = some (swap 64);
}

-- A glibc before 2.9, little-endian: 64 bits are made of two halves.
unfoldable pub from_halves : (ℕ → ℕ) → ℕ → ℕ
from_halves half x = bit_or (half (x / 2 ^ 32 % 2 ^ 32)) (half (x % 2 ^ 32) * 2 ^ 32 % 2 ^ 64)

unfoldable pub old_little : Provided → Macros
old_little p = record {
  htobe16 = some p.htons;
  htole16 = unchanged;
  be16toh = some p.ntohs;
  le16toh = unchanged;
  htobe32 = some p.htonl;
  htole32 = unchanged;
  be32toh = some p.ntohl;
  le32toh = unchanged;
  htobe64 = some (from_halves p.htonl);
  htole64 = unchanged;
  be64toh = some (from_halves p.ntohl);
  le64toh = unchanged;
}

-- The same, big-endian. The expansions of `htole16` and `le16toh` have one parenthesis that is not
-- closed, and those for 32 and 64 bits are made of them.
unfoldable pub old_big : Macros
old_big = record {
  htobe16 = unchanged;
  htole16 = none;
  be16toh = unchanged;
  le16toh = none;
  htobe32 = unchanged;
  htole32 = none;
  be32toh = unchanged;
  le32toh = none;
  htobe64 = unchanged;
  htole64 = none;
  be64toh = unchanged;
  le64toh = none;
}

-- Whether `__BYTE_ORDER` is defined and has this value.
unfoldable pub is_defined_as : Option ℕ → ℕ → Bool
is_defined_as none value = false
is_defined_as (some v) value = v == value

-- No glibc, or one before 2.9.
unfoldable pub is_old : Option (ℕ × ℕ) → Bool
is_old none = true
is_old (some (major, minor)) = ltb major 2 || (major == 2 && ltb minor 9)

unfoldable pub on_linux : Provided → Target → Option Macros
on_linux p t =
    if is_old t.glibc
    then (if is_defined_as t.byte_order_ t.little_endian_
        then some (old_little p)
        else if is_defined_as t.byte_order_ t.big_endian_
        then some old_big
        else none)
    else some p.endian_h

unfoldable pub on_apple : Provided → Macros
on_apple p = record {
  htobe16 = some (p.os_swap_host_to_big 16);
  htole16 = some (p.os_swap_host_to_little 16);
  be16toh = some (p.os_swap_big_to_host 16);
  le16toh = some (p.os_swap_little_to_host 16);
  htobe32 = some (p.os_swap_host_to_big 32);
  htole32 = some (p.os_swap_host_to_little 32);
  be32toh = some (p.os_swap_big_to_host 32);
  le32toh = some (p.os_swap_little_to_host 32);
  htobe64 = some (p.os_swap_host_to_big 64);
  htole64 = some (p.os_swap_host_to_little 64);
  be64toh = some (p.os_swap_big_to_host 64);
  le64toh = some (p.os_swap_little_to_host 64);
}

-- `#ifndef`: the macro if it is defined, else this one.
unfoldable pub or_define : Option (ℕ → ℕ) → (ℕ → ℕ) → Option (ℕ → ℕ)
or_define none f = some f
or_define (some g) f = some g

unfoldable pub on_bsd : Provided → Macros
on_bsd p = record p.endian_h {
  be16toh = or_define p.endian_h.be16toh (p.betoh 16);
  le16toh = or_define p.endian_h.le16toh (p.letoh 16);
  be32toh = or_define p.endian_h.be32toh (p.betoh 32);
  le32toh = or_define p.endian_h.le32toh (p.letoh 32);
  be64toh = or_define p.endian_h.be64toh (p.betoh 64);
  le64toh = or_define p.endian_h.le64toh (p.letoh 64);
}

unfoldable pub on_windows : Provided → Target → Option Macros
on_windows p t =
    if t.byte_order == t.little_endian
    then (if t.msc_ver
        then some (swapping p.byteswap)
        else if t.gnuc_or_clang
        then some (swapping p.builtin_bswap)
        else none)
    else if t.byte_order == t.big_endian
    then some (not_swapping p.builtin_bswap)
    else none

unfoldable pub on_newlib : Provided → Target → Option Macros
on_newlib p t =
    if t.byte_order == t.little_endian
    then some (swapping p.bswap)
    else if t.byte_order == t.big_endian
    then some (not_swapping p.bswap)
    else none

-- The macros after the header, by the first branch that is taken; `none` is `#error`.
unfoldable pub macros_on : System → Provided → Target → Option Macros
macros_on linux p t = on_linux p t
macros_on apple p t = some (on_apple p)
macros_on bsd p t = some (on_bsd p)
macros_on windows p t = on_windows p t
macros_on newlib p t = on_newlib p t
macros_on unknown p t = none

unfoldable pub macros : Provided → Target → Option Macros
macros p t = macros_on t.system p t

-- The six functions of the header.
pub record Conversions : Type 0 where
  pub host_to_network_16 : ℕ → ℕ
  pub network_to_host_16 : ℕ → ℕ
  pub host_to_network_32 : ℕ → ℕ
  pub network_to_host_32 : ℕ → ℕ
  pub host_to_network_64 : ℕ → ℕ
  pub network_to_host_64 : ℕ → ℕ

-- They are compiled if the macros that they use have expansions.
unfoldable pub compile :
    Option (ℕ → ℕ)
    → Option (ℕ → ℕ)
    → Option (ℕ → ℕ)
    → Option (ℕ → ℕ)
    → Option (ℕ → ℕ)
    → Option (ℕ → ℕ)
    → Option Conversions
compile (some a) (some b) (some c) (some d) (some e) (some f) = some (record {
  host_to_network_16 = a;
  network_to_host_16 = b;
  host_to_network_32 = c;
  network_to_host_32 = d;
  host_to_network_64 = e;
  network_to_host_64 = f;
})
compile _ _ _ _ _ _ = none

unfoldable pub conversions : Macros → Option Conversions
conversions m = compile m.htobe16 m.be16toh m.htobe32 m.be32toh m.htobe64 m.be64toh
