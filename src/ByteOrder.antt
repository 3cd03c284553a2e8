-- ===== src/ByteOrder.antt =====
-- asyncmsg/asyncmsg/detail/byte_order.hpp: the conversions between the host's byte order and the
-- network's. `htobe32` and `be32toh` are the platform's (endian.h and its kin), and how the host
-- keeps a uint32_t in memory is the compiler's: both are the fields of `ByteOrder`.
pub mod Platform
use asyncmsg.Base.{ℕ, ◌+◌, ◌*◌, ◌/◌, ◌%◌, ◌^◌, ◌<◌, ◌≡◌, refl, ◌∙◌, List, [], ◌∷◌, arith}
use asyncmsg.Crc.{IsByte}

-- The four bytes of a 32-bit number, the highest first, and the number that four bytes stand for.
abbrev pub be_bytes : ℕ → List ℕ
be_bytes x = x / 2 ^ 24 % 256 ∷ x / 2 ^ 16 % 256 ∷ x / 2 ^ 8 % 256 ∷ x % 256 ∷ []

abbrev pub be_value : List ℕ → ℕ
be_value (a ∷ b ∷ c ∷ d ∷ []) = a * 2 ^ 24 + b * 2 ^ 16 + c * 2 ^ 8 + d
be_value _ = 0

-- `htobe32` is documented to give the number whose bytes in memory are big-endian, and `be32toh`
-- to read such bytes back.
pub record ByteOrder : Type 0 where
  pub htobe32 : ℕ → ℕ
  pub be32toh : ℕ → ℕ
  pub store32 : ℕ → List ℕ
  pub load32 : List ℕ → ℕ
  pub store_htobe32 : (x : ℕ) → x < 2 ^ 32 → store32 (htobe32 x) ≡ be_bytes x
  pub be32toh_load :
      (a b c d : ℕ)
      → IsByte a
      → IsByte b
      → IsByte c
      → IsByte d
      → be32toh (load32 (a ∷ b ∷ c ∷ d ∷ [])) ≡ be_value (a ∷ b ∷ c ∷ d ∷ [])

unfoldable pub host_to_network_32 : ByteOrder → ℕ → ℕ
host_to_network_32 o x = o.htobe32 x

unfoldable pub network_to_host_32 : ByteOrder → ℕ → ℕ
network_to_host_32 o x = o.be32toh x

-- The bytes that a field holds after `field = host_to_network_32(x)`.
unfoldable pub put32 : ByteOrder → ℕ → List ℕ
put32 o x = o.store32 (host_to_network_32 o x)

-- `network_to_host_32(field)` for a field that holds these bytes.
unfoldable pub get32 : ByteOrder → List ℕ → ℕ
get32 o bytes = network_to_host_32 o (o.load32 bytes)

-- What `put32` writes is big-endian on every host, and `get32` reads it back.
pub put32-be_bytes : (o : ByteOrder) (x : ℕ) → x < 2 ^ 32 → put32 o x ≡ be_bytes x
unfolding put32 host_to_network_32
put32-be_bytes o x h = o.store_htobe32 x h

pub get32-be_bytes : (o : ByteOrder) (x : ℕ) → x < 2 ^ 32 → get32 o (be_bytes x) ≡ x
unfolding get32 network_to_host_32
get32-be_bytes o x h =
    o.be32toh_load (x / 2 ^ 24 % 256) (x / 2 ^ 16 % 256) (x / 2 ^ 8 % 256) (x % 256) (omega arith)
      (omega arith) (omega arith) (omega arith)
    ∙ omega arith

pub get32-lt :
    (o : ByteOrder) (a b c d : ℕ)
    → IsByte a
    → IsByte b
    → IsByte c
    → IsByte d
    → get32 o (a ∷ b ∷ c ∷ d ∷ []) < 2 ^ 32
unfolding get32 network_to_host_32
get32-lt o a b c d ha hb hc hd = omega (arith, o.be32toh_load a b c d ha hb hc hd)

-- The two kinds of host.
unfoldable pub le_bytes : ℕ → List ℕ
le_bytes x = x % 256 ∷ x / 2 ^ 8 % 256 ∷ x / 2 ^ 16 % 256 ∷ x / 2 ^ 24 % 256 ∷ []

unfoldable pub le_value : List ℕ → ℕ
le_value (a ∷ b ∷ c ∷ d ∷ []) = a + b * 2 ^ 8 + c * 2 ^ 16 + d * 2 ^ 24
le_value _ = 0

unfoldable pub swap32 : ℕ → ℕ
unfolding le_bytes
swap32 x = be_value (le_bytes x)

pub le_bytes-swap32 : (x : ℕ) → x < 2 ^ 32 → le_bytes (swap32 x) ≡ be_bytes x
unfolding le_bytes swap32
le_bytes-swap32 x h = ground arith

pub swap32-le_value :
    (a b c d : ℕ)
    → IsByte a
    → IsByte b
    → IsByte c
    → IsByte d
    → swap32 (le_value (a ∷ b ∷ c ∷ d ∷ [])) ≡ be_value (a ∷ b ∷ c ∷ d ∷ [])
unfolding swap32 le_value
swap32-le_value a b c d ha hb hc hd = omega arith

abbrev pub little_endian : ByteOrder
little_endian = record {
  htobe32 = swap32;
  be32toh = swap32;
  store32 = le_bytes;
  load32 = le_value;
  store_htobe32 = le_bytes-swap32;
  be32toh_load = swap32-le_value;
}

abbrev pub big_endian : ByteOrder
big_endian = record {
  htobe32 = λ x. x;
  be32toh = λ x. x;
  store32 = be_bytes;
  load32 = be_value;
  store_htobe32 = λ x h. refl;
  be32toh_load = λ a b c d ha hb hc hd. refl;
}
