-- ===== src/ByteOrder/Platform/RoundTrip.antt =====
-- byte_order.hpp: the conversions of a platform there and back, and as the byte order of the packets.
use asyncmsg.Base.{
  ℕ, ◌+◌, ◌*◌, ◌/◌, ◌%◌, ◌^◌, ◌<◌, ◌≡◌, refl, ◌∙◌, ap, ap₂, arith, Bool, true, false, [], ◌∷◌, some,
}
use asyncmsg.ByteOrder.{
  ByteOrder, le_bytes, le_value, be_bytes, be_value, swap32, le_bytes-swap32, swap32-le_value,
}
use asyncmsg.ByteOrder.Platform.{Conversions, Macros, Provided, Target, macros, conversions}
use asyncmsg.ByteOrder.Platform.Order.{swap16, swap64, swap32-lt, order, IsDocumented, TellsOrder}
use asyncmsg.ByteOrder.Platform.Network.{
  IsNetworkOrder, macros-Converts, conversions-IsNetworkOrder,
}

order-lt :
    (little : Bool) (swap : ℕ → ℕ) (size : ℕ)
    → ((x : ℕ) → swap x < size)
    → (x : ℕ) → x < size
    → order little swap x < size
order-lt true swap size h x k = h x
order-lt false swap size h x k = k

order-order :
    (little : Bool) (swap : ℕ → ℕ) (size : ℕ)
    → ((x : ℕ) → x < size → swap (swap x) ≡ x)
    → (x : ℕ) → x < size
    → order little swap (order little swap x) ≡ x
order-order true swap size h x k = h x k
order-order false swap size h x k = refl

swap16-lt : (x : ℕ) → swap16 x < 2 ^ 16
unfolding swap16
swap16-lt x = omega arith

swap16-swap16 : (x : ℕ) → x < 2 ^ 16 → swap16 (swap16 x) ≡ x
unfolding swap16
swap16-swap16 x h = omega arith

swap32-swap32 : (x : ℕ) → x < 2 ^ 32 → swap32 (swap32 x) ≡ x
unfolding swap32
swap32-swap32 x h = omega arith

swap64-lt : (x : ℕ) → swap64 x < 2 ^ 64
unfolding swap64
swap64-lt x = omega (arith, swap32-lt (x % 2 ^ 32), swap32-lt (x / 2 ^ 32 % 2 ^ 32))

swap64-swap64 : (x : ℕ) → x < 2 ^ 64 → swap64 (swap64 x) ≡ x
unfolding swap64
swap64-swap64 x h =
    let lo = swap32 (x % 2 ^ 32) in
    let hi = swap32 (x / 2 ^ 32 % 2 ^ 32) in
    let ea : (lo * 2 ^ 32 + hi) % 2 ^ 32 ≡ hi = omega (arith, swap32-lt (x / 2 ^ 32 % 2 ^ 32)) in
    let eb : (lo * 2 ^ 32 + hi) / 2 ^ 32 % 2 ^ 32 ≡ lo =
      omega (arith, swap32-lt (x / 2 ^ 32 % 2 ^ 32), swap32-lt (x % 2 ^ 32)) in
    ap₂ (λ a b. swap32 a * 2 ^ 32 + swap32 b) ea eb
    ∙ omega (
      arith,
      swap32-swap32 (x % 2 ^ 32) (omega arith),
      swap32-swap32 (x / 2 ^ 32 % 2 ^ 32) (omega arith),
    )

-- A conversion to the network's order and one back.
there_and_back :
    (little : Bool) (swap : ℕ → ℕ) (size : ℕ) (to from : ℕ → ℕ)
    → ((x : ℕ) → x < size → to x ≡ order little swap x)
    → ((x : ℕ) → x < size → from x ≡ order little swap x)
    → ((x : ℕ) → swap x < size)
    → ((x : ℕ) → x < size → swap (swap x) ≡ x)
    → (x : ℕ) → x < size
    → from (to x) ≡ x
there_and_back little swap size to from hto hfrom lt twice x k =
    ap from (hto x k)
    ∙ (hfrom (order little swap x) (order-lt little swap size lt x k)
        ∙ order-order little swap size twice x k)

-- On every platform on which the header compiles, its functions are compiled too, and a number of 16, 32 or
-- 64 bits that goes to the network's order comes back unchanged.
pub network_to_host-host_to_network :
    (little : Bool) (p : Provided) (t : Target) (m : Macros) (x y z : ℕ)
    → IsDocumented little t.system p
    → TellsOrder t.system little t
    → macros p t ≡ some m
    → x < 2 ^ 16
    → y < 2 ^ 32
    → z < 2 ^ 64
    → (c : Conversions) × (conversions m ≡ some c)
      × (c.network_to_host_16 (c.host_to_network_16 x) ≡ x)
      × (c.network_to_host_32 (c.host_to_network_32 y) ≡ y)
      × (c.network_to_host_64 (c.host_to_network_64 z) ≡ z)
network_to_host-host_to_network little p t m x y z d tells e hx hy hz =
    let (c, compiled, n) =
      conversions-IsNetworkOrder little m (macros-Converts little p t m d tells e) in
    (
      c,
      compiled,
      there_and_back little swap16 (2 ^ 16) c.host_to_network_16 c.network_to_host_16 n.to_16
          n.from_16 swap16-lt swap16-swap16 x hx,
      there_and_back little swap32 (2 ^ 32) c.host_to_network_32 c.network_to_host_32 n.to_32
          n.from_32 swap32-lt swap32-swap32 y hy,
      there_and_back little swap64 (2 ^ 64) c.host_to_network_64 c.network_to_host_64 n.to_64
          n.from_64 swap64-lt swap64-swap64 z hz,
    )

-- The order of a host's memory and its conversions, as the packets use them.
pub host_order : (little : Bool) (c : Conversions) → IsNetworkOrder little c → ByteOrder
unfolding le_value
host_order true c n = record {
  htobe32 = c.host_to_network_32;
  be32toh = c.network_to_host_32;
  store32 = le_bytes;
  load32 = le_value;
  store_htobe32 = λ x h. ap le_bytes (n.to_32 x h) ∙ le_bytes-swap32 x h;
  be32toh_load = λ a b c d ha hb hc hd.
      n.from_32 (le_value (a ∷ b ∷ c ∷ d ∷ [])) (omega arith) ∙ swap32-le_value a b c d ha hb hc hd;
}
host_order false c n = record {
  htobe32 = c.host_to_network_32;
  be32toh = c.network_to_host_32;
  store32 = be_bytes;
  load32 = be_value;
  store_htobe32 = λ x h. ap be_bytes (n.to_32 x h);
  be32toh_load = λ a b c d ha hb hc hd. n.from_32 (be_value (a ∷ b ∷ c ∷ d ∷ [])) (omega arith);
}
