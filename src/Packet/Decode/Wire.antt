-- ===== src/Packet/Decode/Wire.antt =====
-- A frame at the front of the buffer, or behind bytes that hold no begin flag.
use asyncmsg.Base.{
  ℕ, ◌+◌, ◌-◌, ◌≤◌, ◌<◌, ◌≡◌, ◌≢◌, refl, sym, ap, ◌∙◌, arith, Bool, true, false, List, [], ◌∷◌,
  ◌++◌, length, take, drop, All, append_assoc, length-append, take-append, drop-append, drop-drop,
  le→ltb, le→leb, ◌==◌, ==_refl, if◌then◌else◌, take-append_of_le,
}
use asyncmsg.ByteOrder.{ByteOrder, be_bytes, get32-be_bytes}
use asyncmsg.Crc.{calc_crc8}
use asyncmsg.Packet.{
  Packet, Decoded, packet, header_length, device_id_size, packet_begin_flag, max_body_length,
  make_packet, take_packet, decode_round, decode_loop, decode_packet, find_flag, slice,
}
use asyncmsg.Packet.Frame.{
  IsEncodable, id_field, wire_checked, wire, length-id_field, length-wire_checked,
}
use asyncmsg.Packet.Decode.Header.{
  calc_crc8-wire_then, length-wire_then, wire_then, wire-wire_then, read_header-wire_then,
}

-- The packet that arrives: the device id as the fixed field kept it, and a number for 0.
abbrev pub arrived : ℕ → Packet → Packet × ℕ
arrived generator p =
    make_packet generator p.cmd p.rsp p.body (take (length p.device_id) (id_field p.device_id))
      p.seq p.ec

rsp_flag : (b : Bool) → (if (if b then 1 else 0) == 0 then false else true) ≡ b
rsp_flag true = refl
rsp_flag false = refl

-- A packet that the decoder accepts.
pub record IsSendable (p : Packet) : Type 0 where
  pub encodable : IsEncodable p
  pub body_small : length p.body ≤ max_body_length

module _ (o : ByteOrder) (generator : ℕ) (p : Packet) (rest beyond : List ℕ)
    (v : IsSendable p) where
  id_then : List ℕ
  id_then =
      be_bytes (length p.body)
      ++ (calc_crc8 (wire_checked p) (header_length - 1) ∷ (p.body ++ rest))

  sized : length (id_field p.device_id) ≡ device_id_size
  sized = length-id_field p.device_id v.encodable.id_fits

  body_slice :
      slice header_length (length p.body) (wire_then (length p.device_id) p (p.body ++ rest))
      ≡ p.body
  unfolding wire_then id_then
  body_slice =
      ap (take (length p.body)) (
        sym (drop-drop 5 64 (id_field p.device_id ++ id_then))
        ∙ ap (drop 5) (drop-append 64 (id_field p.device_id) id_then sized))
      ∙ take-append (length p.body) p.body rest refl

  id_slice :
      slice 18 (length p.device_id) (wire_then (length p.device_id) p (p.body ++ rest) ++ beyond)
      ≡ take (length p.device_id) (id_field p.device_id)
  unfolding wire_then id_then
  id_slice =
      ap (take (length p.device_id)) (append_assoc (id_field p.device_id) id_then beyond)
      ∙ take-append_of_le (length p.device_id) (id_field p.device_id) (id_then ++ beyond)
          (omega (arith, sized, v.encodable.id_fits))

  whole :
      length (wire_then (length p.device_id) p (p.body ++ rest))
      ≡ header_length + length p.body + length rest
  whole = omega (
    arith,
    length-wire_then (length p.device_id) p (p.body ++ rest) v.encodable.id_fits,
    length-append p.body rest,
  )

  take_packet-wire :
      (consumed : ℕ)
      → take_packet o generator (wire_then (length p.device_id) p (p.body ++ rest)) beyond consumed
        ≡ packet
            (consumed + header_length + length p.body)
            (arrived generator p).0
            (arrived generator p).1
  unfolding take_packet
  take_packet-wire consumed =
      rw
        (
          read_header-wire_then (length p.device_id) p (p.body ++ rest) v.encodable.id_fits,
          get32-be_bytes o (length p.body) (omega (arith, v.encodable.body_fits)),
          get32-be_bytes o (length p.device_id) (omega (arith, v.encodable.id_fits)),
          get32-be_bytes o p.cmd v.encodable.cmd_fits,
          get32-be_bytes o p.seq v.encodable.seq_fits,
          get32-be_bytes o p.ec v.encodable.ec_fits,
          rsp_flag p.rsp,
          body_slice,
          id_slice,
        )
        (rw
          (le→leb (18 + length p.device_id)
            (length (wire_then (length p.device_id) p (p.body ++ rest) ++ beyond)) in_memory)
          refl)
    where
      in_memory :
          18 + length p.device_id
          ≤ length (wire_then (length p.device_id) p (p.body ++ rest) ++ beyond)
      in_memory = omega (
        arith,
        length-append (wire_then (length p.device_id) p (p.body ++ rest)) beyond,
        whole,
        v.encodable.id_fits,
      )

  decode_round-wire :
      (consumed : ℕ) (again : ℕ → Decoded)
      → decode_round o generator
          (wire_then (length p.device_id) p (p.body ++ rest))
          beyond
          consumed
          again
        ≡ packet
            (consumed + header_length + length p.body)
            (arrived generator p).0
            (arrived generator p).1
  unfolding decode_round
  decode_round-wire consumed again =
      rw
        (
          read_header-wire_then (length p.device_id) p (p.body ++ rest) v.encodable.id_fits,
          get32-be_bytes o (length p.body) (omega (arith, v.encodable.body_fits)),
          le→ltb (length (wire_then (length p.device_id) p (p.body ++ rest))) header_length
              (omega (arith, whole)),
          calc_crc8-wire_then (length p.device_id) p (p.body ++ rest) v.encodable.id_fits,
          ==_refl (calc_crc8 (wire_checked p) (header_length - 1)),
          le→ltb max_body_length (length p.body) v.body_small,
          le→ltb (length (wire_then (length p.device_id) p (p.body ++ rest)))
              (header_length + length p.body) (omega (arith, whole)),
        )
        (take_packet-wire consumed)

-- The scan passes over bytes that are no begin flag, and stops at the first that is.
abbrev pub IsNoFlag : ℕ → Type 0
IsNoFlag b = b ≢ packet_begin_flag

pub find_flag-append :
    (junk bs : List ℕ)
    → All IsNoFlag junk
    → find_flag (junk ++ packet_begin_flag ∷ bs) ≡ length junk
unfolding find_flag
find_flag-append [] bs h = refl
find_flag-append (b ∷ junk) bs h = ground (arith, find_flag-append junk bs h.1, h.0)

pub length-wire :
    (p : Packet)
    → length p.device_id < device_id_size
    → length (wire p) ≡ header_length + length p.body
length-wire p h = omega (
  arith,
  length-append (wire_checked p) (calc_crc8 (wire_checked p) (header_length - 1) ∷ p.body),
  length-wire_checked p h,
)

-- Whatever follows it and whatever lies beyond the buffer, a frame behind bytes with no begin flag is
-- decoded; those bytes and the frame are consumed.
pub decode_packet-wire :
    (o : ByteOrder) (generator : ℕ) (p : Packet) (junk rest beyond : List ℕ)
    → IsSendable p
    → All IsNoFlag junk
    → decode_packet o generator (junk ++ (wire p ++ rest)) beyond
      ≡ packet (length junk + length (wire p)) (arrived generator p).0 (arrived generator p).1
unfolding decode_packet decode_loop
decode_packet-wire o generator p junk rest beyond v clean =
    rw
      (
        wire-wire_then p rest,
        skips,
        drop-append (length junk) junk (wire_then (length p.device_id) p (p.body ++ rest)) refl,
      )
      (decode_round-wire o generator p rest beyond v (0 + length junk) _
        ∙ ap (λ n. packet n (arrived generator p).0 (arrived generator p).1) total)
  where
    total : 0 + length junk + header_length + length p.body ≡ length junk + length (wire p)
    total = omega (arith, length-wire p v.encodable.id_fits)

    skips : find_flag (junk ++ wire_then (length p.device_id) p (p.body ++ rest)) ≡ length junk
    skips = unfold wire_then in find_flag-append junk _ clean
