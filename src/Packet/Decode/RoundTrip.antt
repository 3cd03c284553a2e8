-- ===== src/Packet/Decode/RoundTrip.antt =====
-- Encoding on one host and decoding on another.
use native.Mathlib.Nat.{zero-add}
use asyncmsg.Base.{
  ℕ, ◌+◌, ◌≤◌, ◌<◌, ◌≡◌, ◌≢◌, refl, ap, ◌∙◌, arith, List, [], ◌∷◌, ◌++◌, length, take, replicate,
  All, take-append, take-append_of_ge, take-replicate, ◌-◌,
}
use asyncmsg.ByteOrder.{ByteOrder}
use asyncmsg.Packet.{
  Packet, frame, packet, device_id_size, c_string, encode_packet, decode_packet, make_packet,
}
use asyncmsg.Packet.Frame.{length-c_string-le, id_field, wire, encode_packet-wire}
use asyncmsg.Packet.Decode.Wire.{IsSendable, IsNoFlag, arrived, decode_packet-wire}

abbrev pub IsNoNul : ℕ → Type 0
IsNoNul c = c ≢ 0

pub c_string_whole : (id : List ℕ) → All IsNoNul id → c_string id ≡ id
unfolding c_string
c_string_whole [] h = refl
c_string_whole (c ∷ cs) h = ground (arith, c_string_whole cs h.1, h.0)

-- A packet that has its number, and a device id that is a C string.
pub record IsIntact (p : Packet) : Type 0 where
  pub numbered : p.seq ≢ 0
  pub no_nul : All IsNoNul p.device_id

kept_id : (id : List ℕ) → All IsNoNul id → take (length id) (id_field id) ≡ id
kept_id id h =
    ap (λ t. take (length id) (t ++ replicate (device_id_size - length t) 0)) (c_string_whole id h)
    ∙ take-append (length id) id (replicate (device_id_size - length id) 0) refl

cut_id :
    (id : List ℕ)
    → length id < device_id_size
    → take (length id) (id_field id) ≡ c_string id ++ replicate (length id - length (c_string id)) 0
cut_id id h =
    let n = length (c_string id) in
    let short : n ≤ length id = length-c_string-le id in
    take-append_of_ge (length id) (c_string id) (replicate (device_id_size - n) 0) short
    ∙ ap (λ t. c_string id ++ t)
        (take-replicate (length id - n) (device_id_size - n) 0 (omega arith))

made_again :
    (generator : ℕ) (p : Packet) (id : List ℕ)
    → p.seq ≢ 0
    → make_packet generator p.cmd p.rsp p.body id p.seq p.ec
      ≡ (record p { device_id = id }, generator)
unfolding make_packet
made_again generator p id h = ground arith

pub arrived_intact :
    (generator : ℕ) (p : Packet) → IsIntact p → arrived generator p ≡ (p, generator)
arrived_intact generator p v =
    ap (λ id. make_packet generator p.cmd p.rsp p.body id p.seq p.ec) (kept_id p.device_id v.no_nul)
    ∙ made_again generator p p.device_id v.numbered

-- An intact packet with fields in range, a device id shorter than 64 and a body of at most 16 KiB is
-- encoded, and its frame is decoded to the same packet on a host of any byte order, behind any bytes
-- without a begin flag and before any others; just those bytes and the frame are consumed, and the
-- receiver's sequence generator stays.
pub decode_packet-encode_packet :
    (sender receiver : ByteOrder) (generator : ℕ) (p : Packet) (junk rest beyond : List ℕ)
    → IsSendable p
    → IsIntact p
    → All IsNoFlag junk
    → (bytes : List ℕ) × (encode_packet sender p ≡ frame bytes)
      × (decode_packet receiver generator (junk ++ (bytes ++ rest)) beyond
          ≡ packet (length junk + length bytes) p generator)
decode_packet-encode_packet sender receiver generator p junk rest beyond v w clean = (
  wire p,
  encode_packet-wire sender p v.encodable,
  decode_packet-wire receiver generator p junk rest beyond v clean
      ∙ ap (λ t. packet (length junk + length (wire p)) t.0 t.1) (arrived_intact generator p w),
)

-- Of a device id that holds a NUL, what arrives is the part before the first NUL, filled up with NULs to the
-- id's length; all else of a numbered packet arrives as it was.
pub decode_packet-truncated :
    (o : ByteOrder) (generator : ℕ) (p : Packet) (rest beyond : List ℕ)
    → IsSendable p
    → p.seq ≢ 0
    → decode_packet o generator (wire p ++ rest) beyond
      ≡ packet
          (length (wire p))
          (record p {
            device_id =
                c_string p.device_id
                ++ replicate (length p.device_id - length (c_string p.device_id)) 0;
          })
          generator
decode_packet-truncated o generator p rest beyond v h =
    decode_packet-wire o generator p [] rest beyond v tt
    ∙ (ap (λ (n : ℕ). packet n (arrived generator p).0 (arrived generator p).1) none_before
        ∙ ap (λ (t : Packet × ℕ). packet (length (wire p)) t.0 t.1)
            (ap (λ id. make_packet generator p.cmd p.rsp p.body id p.seq p.ec)
                (cut_id p.device_id v.encodable.id_fits)
              ∙ made_again generator p _ h))
  where
    none_before : 0 + length (wire p) ≡ length (wire p)
    none_before = zero-add _
