-- ===== src/ByteOrder/Platform/Tests.antt =====
-- Platforms at concrete inputs.
use asyncmsg.Base.{ℕ, ◌≡◌, refl, arith, true, false, some, none, ◌==◌, if◌then◌else◌}
use asyncmsg.ByteOrder.{swap32}
use asyncmsg.ByteOrder.Platform.{
  is_old, is_defined_as, Provided, Target, windows, linux, swapping, old_little, macros, macros_on,
  on_windows, on_linux, conversions, Conversions,
}
use asyncmsg.ByteOrder.Platform.Order.{swap16, swap64, IsDocumented, Converts}
use asyncmsg.ByteOrder.Platform.Network.{macros-Converts}
use asyncmsg.ByteOrder.Platform.RoundTrip.{network_to_host-host_to_network}

abbrev swap : ℕ → ℕ → ℕ
swap size = if size == 16 then swap16 else if size == 32 then swap32 else swap64

-- What a little-endian machine provides.
abbrev provided : Provided
provided = record {
  htons = swap16;
  ntohs = swap16;
  htonl = swap32;
  ntohl = swap32;
  endian_h = swapping swap;
  os_swap_host_to_big = swap;
  os_swap_host_to_little = λ size x. x;
  os_swap_big_to_host = swap;
  os_swap_little_to_host = λ size x. x;
  betoh = swap;
  letoh = λ size x. x;
  byteswap = swap;
  builtin_bswap = swap;
  bswap = swap;
}

-- Windows, where nothing defines `BYTE_ORDER`, with the compiler of Microsoft.
abbrev pc : Target
pc = record {
  system = windows;
  glibc = none;
  byte_order_ = none;
  little_endian_ = 0;
  big_endian_ = 0;
  byte_order = 0;
  little_endian = 0;
  big_endian = 0;
  msc_ver = true;
  gnuc_or_clang = false;
}

-- Linux with glibc 2.8.
abbrev old_pc : Target
old_pc = record pc {
  system = linux;
  glibc = some (2, 8);
  byte_order_ = some 1234;
  little_endian_ = 1234;
  big_endian_ = 4321;
  msc_ver = false;
  gnuc_or_clang = true;
}

pc-IsDocumented : IsDocumented true windows provided
pc-IsDocumented = record {
  htons_lem = λ x h. refl;
  ntohs_lem = λ x h. refl;
  htonl_lem = λ x h. refl;
  ntohl_lem = λ x h. refl;
  htobe16 = tt;
  htobe32 = tt;
  htobe64 = tt;
  be16toh = tt;
  be32toh = tt;
  be64toh = tt;
  os_swap_host_to_big = (λ x h. refl, λ x h. refl, λ x h. refl);
  os_swap_big_to_host = (λ x h. refl, λ x h. refl, λ x h. refl);
  betoh = (λ x h. refl, λ x h. refl, λ x h. refl);
  byteswap = (λ x h. refl, λ x h. refl, λ x h. refl);
  builtin_bswap = (λ x h. refl, λ x h. refl, λ x h. refl);
  bswap = (λ x h. refl, λ x h. refl, λ x h. refl);
}

old_pc-IsDocumented : IsDocumented true linux provided
unfolding swapping
old_pc-IsDocumented = record {
  htons_lem = λ x h. refl;
  ntohs_lem = λ x h. refl;
  htonl_lem = λ x h. refl;
  ntohl_lem = λ x h. refl;
  htobe16 = λ x h. refl;
  htobe32 = λ x h. refl;
  htobe64 = λ x h. refl;
  be16toh = λ x h. refl;
  be32toh = λ x h. refl;
  be64toh = λ x h. refl;
  os_swap_host_to_big = (λ x h. refl, λ x h. refl, λ x h. refl);
  os_swap_big_to_host = (λ x h. refl, λ x h. refl, λ x h. refl);
  betoh = (λ x h. refl, λ x h. refl, λ x h. refl);
  byteswap = (λ x h. refl, λ x h. refl, λ x h. refl);
  builtin_bswap = (λ x h. refl, λ x h. refl, λ x h. refl);
  bswap = (λ x h. refl, λ x h. refl, λ x h. refl);
}

macros-Converts_example : Converts true (old_little provided)
unfolding macros macros_on on_linux is_old is_defined_as
macros-Converts_example =
    macros-Converts true provided old_pc (old_little provided) old_pc-IsDocumented (λ old. refl)
      refl

network_to_host-host_to_network_example :
    (c : Conversions) × (conversions (swapping swap) ≡ some c)
    × (c.network_to_host_16 (c.host_to_network_16 0x1234) ≡ 0x1234)
    × (c.network_to_host_32 (c.host_to_network_32 0x1234) ≡ 0x1234)
    × (c.network_to_host_64 (c.host_to_network_64 0x1234) ≡ 0x1234)
unfolding macros macros_on on_windows
network_to_host-host_to_network_example =
    network_to_host-host_to_network true provided pc (swapping swap) 0x1234 0x1234 0x1234
      pc-IsDocumented refl refl (omega arith) (omega arith) (omega arith)
