-- ===== src/Examples/Device.antt =====
-- tcp_client.cpp and rpc_client.cpp: the device id of a client.
use asyncmsg.Base.{[], ◌∷◌, ◌+◌, ℕ, ◌<◌, ◌≡◌, refl, arith, false, some, List, length, All, is_empty}
use asyncmsg.Packet.Decode.RoundTrip.{IsNoNul}
use asyncmsg.Rpc.Remote.{IsDeviceId}
use asyncmsg.Text.{characters, random_string}
use asyncmsg.Text.Random.{IsAlphanumeric, random_string-IsAlphanumeric}
use asyncmsg.Examples.{client_device_id}

All-IsNoNul : (id : List ℕ) → All IsAlphanumeric id → All IsNoNul id
All-IsNoNul [] h = tt
All-IsNoNul (c ∷ cs) h = (ground (arith, h.0), All-IsNoNul cs h.1)

is_given : (id : List ℕ) (n : ℕ) → length id ≡ n + 1 → is_empty id ≡ false
is_given [] n e = absurd (omega (arith, e))
is_given (c ∷ cs) n e = refl

-- A client program that is started without arguments takes an id of 32 digits and letters, which is a
-- nonempty C string shorter than 64, if the distribution keeps its bounds.
pub client_device_id-IsDeviceId :
    (program : List ℕ) (draw : ℕ → ℕ)
    → ((k : ℕ) → draw k < length characters)
    → (id : List ℕ) × (client_device_id (program ∷ []) draw ≡ some id)
      × (length id ≡ 32)
      × All IsAlphanumeric id
      × IsDeviceId id
unfolding client_device_id
client_device_id-IsDeviceId program draw h =
    let made = random_string-IsAlphanumeric 32 draw h in
    let id = random_string 32 draw in
    (
      id,
      refl,
      made.0,
      made.1,
      record {
        is_given = is_given id 31 made.0;
        fits = omega (arith, made.0);
        no_nul = All-IsNoNul id made.1;
      },
    )
