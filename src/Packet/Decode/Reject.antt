-- ===== src/Packet/Decode/Reject.antt =====
-- Frames that the decoder drops: a body that is too large, and a header that was damaged.
use asyncmsg.Base.{
  get_or-append, ne→==, All-split, ℕ, suc, ◌+◌, ◌-◌, ◌≤◌, ◌<◌, ◌≡◌, ◌≢◌, sym, subst, ◌∙◌, ap, arith,
  List, ◌∷◌, ◌++◌, length, drop, length-append, All, lt→ltb, le→ltb, ==_refl, get_or,
}
use asyncmsg.ByteOrder.{ByteOrder, get32-be_bytes}
use asyncmsg.Crc.{calc_crc8, IsByte}
use asyncmsg.Crc.Detect.{calc_crc8-append, calc_crc8_detects}
use asyncmsg.Packet.{
  Packet, Decoded, header_length, max_body_length, packet_begin_flag, read_header, decode_round,
  decode_loop, decode_packet,
}
use asyncmsg.Packet.Frame.{
  wire_checked-IsByte, IsEncodable, wire, wire_checked, length-wire_checked,
}
use asyncmsg.Packet.Decode.Header.{
  wire_then, wire-wire_then, read_header-wire_then, calc_crc8-wire_then, length-wire_then,
  drop-wire_then,
}
use asyncmsg.Packet.Decode.Skip.{decode_packet-round, round_again, further}

-- A frame whose body is over 16 KiB, which `encode_packet` makes, is never taken for a packet: its header
-- is dropped, and its body is scanned as if it were frames.
pub decode_packet_oversized :
    (o : ByteOrder) (generator : ℕ) (p : Packet) (rest beyond : List ℕ)
    → IsEncodable p
    → max_body_length < length p.body
    → decode_packet o generator (wire p ++ rest) beyond
      ≡ further header_length (decode_packet o generator (p.body ++ rest) beyond)
unfolding wire_then decode_round
decode_packet_oversized o generator p rest beyond v big =
    ap (λ t. decode_packet o generator t beyond) (wire-wire_then p rest)
    ∙ (decode_packet-round o generator (drop 1 (wire_then (length p.device_id) p (p.body ++ rest)))
          beyond
        ∙ (skips_header (λ k.
              decode_loop (length (wire_then (length p.device_id) p (p.body ++ rest))) o generator
                (drop k (wire_then (length p.device_id) p (p.body ++ rest))) beyond (0 + k))
            ∙ (round_again o generator (drop 1 (wire_then (length p.device_id) p (p.body ++ rest)))
                  beyond header_length (omega arith)
                ∙ ap (λ t. further header_length (decode_packet o generator t beyond))
                    (drop-wire_then (length p.device_id) p (p.body ++ rest) v.id_fits))))
  where
    skips_header :
        (again : ℕ → Decoded)
        → decode_round o generator
            (wire_then (length p.device_id) p (p.body ++ rest))
            beyond
            0
            again
          ≡ again header_length
    skips_header again = rw (
      read_header-wire_then (length p.device_id) p (p.body ++ rest) v.id_fits,
      get32-be_bytes o (length p.body) (omega (arith, v.body_fits)),
      le→ltb (length (wire_then (length p.device_id) p (p.body ++ rest))) header_length
          (omega (arith, length-wire_then (length p.device_id) p (p.body ++ rest) v.id_fits)),
      calc_crc8-wire_then (length p.device_id) p (p.body ++ rest) v.id_fits,
      ==_refl (calc_crc8 (wire_checked p) (header_length - 1)),
      lt→ltb max_body_length (length p.body) big,
    )

-- A begin flag that does not start a header with the right checksum is dropped alone, and the scan
-- goes on behind it.
pub decode_packet_mismatch :
    (o : ByteOrder) (generator : ℕ) (bs beyond : List ℕ)
    → header_length ≤ suc (length bs)
    → calc_crc8 (packet_begin_flag ∷ bs) (header_length - 1) ≢ get_or bs (header_length - 2) 0
    → decode_packet o generator (packet_begin_flag ∷ bs) beyond
      ≡ further 1 (decode_packet o generator bs beyond)
unfolding decode_round read_header
decode_packet_mismatch o generator bs beyond long bad =
    decode_packet-round o generator bs beyond
    ∙ (rw
        (
          le→ltb (length (packet_begin_flag ∷ bs)) header_length long,
          ne→== (calc_crc8 (packet_begin_flag ∷ bs) (header_length - 1))
              (get_or bs (header_length - 2) 0) bad,
        )
        (round_again o generator bs beyond 1 (omega arith)))

-- A frame with one damaged byte in the checked part of its header, behind the begin flag, is not taken
-- for a packet: the flag is dropped, and the scan goes on with the byte behind it.
pub decode_packet_damaged :
    (o : ByteOrder) (generator : ℕ) (p : Packet) (before : List ℕ) (a b : ℕ)
    (after rest beyond : List ℕ)
    → IsEncodable p
    → All IsByte p.device_id
    → wire_checked p ≡ packet_begin_flag ∷ (before ++ a ∷ after)
    → IsByte b
    → a ≢ b
    → let crc = calc_crc8 (wire_checked p) (header_length - 1) in
      let damaged = (before ++ b ∷ after) ++ crc ∷ (p.body ++ rest) in
      decode_packet o generator (packet_begin_flag ∷ damaged) beyond
      ≡ further 1 (decode_packet o generator damaged beyond)
decode_packet_damaged o generator p before a b after rest beyond v bytes cut hb ne =
    decode_packet_mismatch o generator (hit ++ crc ∷ (p.body ++ rest)) beyond
      (omega (arith, length-append hit (crc ∷ (p.body ++ rest)), size b))
      (λ e.
        calc_crc8_detects (packet_begin_flag ∷ before) a b after (header_length - 1)
          (omega (arith, size b, length-append before (b ∷ after))) (parts.0, front.0) front.1.1
          front.1.0 hb ne
          (ap (λ t. calc_crc8 t (header_length - 1)) (sym cut)
            ∙ (sym (get_or-append 85 hit crc (p.body ++ rest) 0 (size b))
                ∙ (sym e
                    ∙ calc_crc8-append (packet_begin_flag ∷ hit) (crc ∷ (p.body ++ rest))
                        (header_length - 1) (omega (arith, size b))))))
  where
    crc : ℕ
    crc = calc_crc8 (wire_checked p) (header_length - 1)

    hit : List ℕ
    hit = before ++ b ∷ after

    size : (c : ℕ) → length (before ++ c ∷ after) ≡ 85
    size c = omega (
      arith,
      ap length cut,
      length-wire_checked p v.id_fits,
      length-append before (a ∷ after),
      length-append before (c ∷ after),
    )

    parts : All IsByte (packet_begin_flag ∷ (before ++ a ∷ after))
    parts = subst (All IsByte) cut (wire_checked-IsByte p bytes)

    front : All IsByte before × All IsByte (a ∷ after)
    front = All-split IsByte before (a ∷ after) parts.1
