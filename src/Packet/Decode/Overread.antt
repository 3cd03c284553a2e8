-- ===== src/Packet/Decode/Overread.antt =====
-- The length that a header announces for its device id is not compared with the size of the field.
use asyncmsg.Base.{
  ℕ, ◌+◌, ◌-◌, ◌^◌, ◌<◌, ◌≡◌, ◌∙◌, arith, List, ◌++◌, length, drop, length-append, le→ltb, lt→leb,
  ==_refl,
}
use asyncmsg.ByteOrder.{ByteOrder, get32-be_bytes}
use asyncmsg.Crc.{calc_crc8}
use asyncmsg.Packet.{
  Packet, overread, header_length, max_body_length, take_packet, decode_round, decode_packet,
}
use asyncmsg.Packet.Frame.{wire_checked_as}
use asyncmsg.Packet.Decode.Header.{
  wire_then, read_header-wire_then, calc_crc8-wire_then, length-wire_then,
}
use asyncmsg.Packet.Decode.Wire.{IsSendable}
use asyncmsg.Packet.Decode.Skip.{decode_packet-round, decode_packet-round}

-- A frame of `p` but for the announced length of the device id, which may be any 32-bit number.
pub forged : ℕ → Packet → List ℕ
unfolding wire_then
forged len p = wire_then len p p.body

-- Whenever the announced length reaches past the end of the memory that holds the buffer,
-- `decode_packet` reads past that end: the checksum does not keep such a frame out.
pub decode_packet_overread :
    (o : ByteOrder) (generator : ℕ) (p : Packet) (len : ℕ) (beyond : List ℕ)
    → IsSendable p
    → len < 2 ^ 32
    → header_length + length p.body + length beyond < 18 + len
    → decode_packet o generator (forged len p) beyond ≡ overread
unfolding forged decode_round take_packet
decode_packet_overread o generator p len beyond v fits far =
    decode_packet-round o generator (drop 1 (wire_then len p p.body)) beyond
    ∙ rw (
      read_header-wire_then len p p.body v.encodable.id_fits,
      get32-be_bytes o (length p.body) (omega (arith, v.encodable.body_fits)),
      get32-be_bytes o len fits,
      le→ltb (length (wire_then len p p.body)) header_length
          (omega (arith, length-wire_then len p p.body v.encodable.id_fits)),
      calc_crc8-wire_then len p p.body v.encodable.id_fits,
      ==_refl (calc_crc8 (wire_checked_as len p) (header_length - 1)),
      le→ltb max_body_length (length p.body) v.body_small,
      le→ltb (length (wire_then len p p.body)) (header_length + length p.body)
          (omega (arith, length-wire_then len p p.body v.encodable.id_fits)),
      lt→leb (18 + len) (length (wire_then len p p.body ++ beyond)) (
          omega (
            arith,
            length-append (wire_then len p p.body) beyond,
            length-wire_then len p p.body v.encodable.id_fits,
          )),
    )
