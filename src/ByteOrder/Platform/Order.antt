-- ===== src/ByteOrder/Platform/Order.antt =====
-- byte_order.hpp: what the macros and functions of a platform should do, and what the platform is
-- documented to provide.
use asyncmsg.Base.{
  ℕ, ◌+◌, ◌*◌, ◌/◌, ◌%◌, ◌^◌, ◌<◌, ◌≡◌, arith, Bool, true, Option, none, some, ◌==◌, if◌then◌else◌,
}
use asyncmsg.ByteOrder.{swap32}
use asyncmsg.ByteOrder.Platform.{
  Macros, Provided, System, linux, apple, bsd, windows, newlib, unknown, Target, is_defined_as,
  is_old,
}

-- The bytes of a number in the other order.
unfoldable pub swap16 : ℕ → ℕ
swap16 x = x % 256 * 256 + x / 256 % 256

unfoldable pub swap64 : ℕ → ℕ
swap64 x = swap32 (x % 2 ^ 32) * 2 ^ 32 + swap32 (x / 2 ^ 32 % 2 ^ 32)

-- From a host's order to the network's and back: the bytes are swapped on a little-endian host.
abbrev pub order : Bool → (ℕ → ℕ) → ℕ → ℕ
order little swap x = if little then swap x else x

-- A macro that is defined and does this, on numbers of its size.
abbrev pub IsRight : Bool → (ℕ → ℕ) → ℕ → Option (ℕ → ℕ) → Type 0
IsRight little swap size none = ⊥
IsRight little swap size (some f) = (x : ℕ) → x < size → f x ≡ order little swap x

abbrev pub Converts : Bool → Macros → Type 0
Converts little m =
    IsRight little swap16 (2 ^ 16) m.htobe16
    × IsRight little swap16 (2 ^ 16) m.be16toh
    × IsRight little swap32 (2 ^ 32) m.htobe32
    × IsRight little swap32 (2 ^ 32) m.be32toh
    × IsRight little swap64 (2 ^ 64) m.htobe64
    × IsRight little swap64 (2 ^ 64) m.be64toh

-- A family of functions that does this at each size.
abbrev pub Orders : Bool → (ℕ → ℕ → ℕ) → Type 0
Orders little f =
    IsRight little swap16 (2 ^ 16) (some (f 16))
    × IsRight little swap32 (2 ^ 32) (some (f 32))
    × IsRight little swap64 (2 ^ 64) (some (f 64))

-- What the system's own header is documented to define; a BSD's may lack the macros that read.
abbrev pub Writes : System → Bool → (ℕ → ℕ) → ℕ → Option (ℕ → ℕ) → Type 0
Writes linux little swap size o = IsRight little swap size o
Writes bsd little swap size o = IsRight little swap size o
Writes apple little swap size o = Unit
Writes windows little swap size o = Unit
Writes newlib little swap size o = Unit
Writes unknown little swap size o = Unit

abbrev pub IsRightIfAny : Bool → (ℕ → ℕ) → ℕ → Option (ℕ → ℕ) → Type 0
IsRightIfAny little swap size none = Unit
IsRightIfAny little swap size (some f) = IsRight little swap size (some f)

abbrev pub Reads : System → Bool → (ℕ → ℕ) → ℕ → Option (ℕ → ℕ) → Type 0
Reads linux little swap size o = IsRight little swap size o
Reads bsd little swap size o = IsRightIfAny little swap size o
Reads apple little swap size o = Unit
Reads windows little swap size o = Unit
Reads newlib little swap size o = Unit
Reads unknown little swap size o = Unit

-- The documented behaviour of what the platform provides, on a host of this order.
pub record IsDocumented (little : Bool) (s : System) (p : Provided) : Type 0 where
  pub htons_lem : IsRight little swap16 (2 ^ 16) (some p.htons)
  pub ntohs_lem : IsRight little swap16 (2 ^ 16) (some p.ntohs)
  pub htonl_lem : IsRight little swap32 (2 ^ 32) (some p.htonl)
  pub ntohl_lem : IsRight little swap32 (2 ^ 32) (some p.ntohl)
  pub htobe16 : Writes s little swap16 (2 ^ 16) p.endian_h.htobe16
  pub htobe32 : Writes s little swap32 (2 ^ 32) p.endian_h.htobe32
  pub htobe64 : Writes s little swap64 (2 ^ 64) p.endian_h.htobe64
  pub be16toh : Reads s little swap16 (2 ^ 16) p.endian_h.be16toh
  pub be32toh : Reads s little swap32 (2 ^ 32) p.endian_h.be32toh
  pub be64toh : Reads s little swap64 (2 ^ 64) p.endian_h.be64toh
  pub os_swap_host_to_big : Orders little p.os_swap_host_to_big
  pub os_swap_big_to_host : Orders little p.os_swap_big_to_host
  pub betoh : Orders little p.betoh
  pub byteswap : Orders true p.byteswap
  pub builtin_bswap : Orders true p.builtin_bswap
  pub bswap : Orders true p.bswap

-- The macros that the branches test tell the host's order.
abbrev pub TellsOrder : System → Bool → Target → Type 0
TellsOrder linux little t =
    is_old t.glibc ≡ true → is_defined_as t.byte_order_ t.little_endian_ ≡ little
TellsOrder windows little t = (t.byte_order == t.little_endian) ≡ little
TellsOrder newlib little t = (t.byte_order == t.little_endian) ≡ little
TellsOrder apple little t = Unit
TellsOrder bsd little t = Unit
TellsOrder unknown little t = Unit

pub swap32-lt : (x : ℕ) → swap32 x < 2 ^ 32
unfolding swap32
swap32-lt x = omega arith
