-- ===== src/Packet/Decode/Partial.antt =====
-- A frame of which only the first bytes have arrived.
use native.Mathlib.Decide.{dec_lt}
use native.Mathlib.Nat.{add-zero}
use asyncmsg.Base.{
  ℕ, zero, suc, ◌+◌, ◌-◌, ◌≤◌, ◌<◌, ◌≡◌, refl, sym, ◌∙◌, ap, arith, List, ◌∷◌, ◌++◌, length, drop,
  take, All, lt→ltb, le→ltb, ==_refl, take-append_of_ge, length-take,
}
use asyncmsg.ByteOrder.{ByteOrder, get32-be_bytes}
use asyncmsg.Crc.{calc_crc8}
use asyncmsg.Packet.{
  Packet, Decoded, none_yet, header_length, device_id_size, max_body_length, find_flag,
  decode_round, decode_loop, decode_packet,
}
use asyncmsg.Packet.Frame.{wire, wire_checked, length-wire_checked}
use asyncmsg.Packet.Decode.Header.{
  wire_then, wire_then-wire_checked_as, read_header-wire_then, calc_crc8-wire_then,
  length-wire_then,
}
use asyncmsg.Packet.Decode.Wire.{IsNoFlag, IsSendable, length-wire}
use asyncmsg.Packet.Decode.Skip.{
  from_flag, further, decode_packet-round, decode_packet-round, decode_packet-skip,
}

module _ (o : ByteOrder) (generator : ℕ) (p : Packet) (beyond : List ℕ) (v : IsSendable p) where
  id_fits : length p.device_id < device_id_size
  id_fits = v.encodable.id_fits

  -- The header has arrived, and a part of the body.
  decode_round_part :
      (part : List ℕ) (consumed : ℕ) (again : ℕ → Decoded)
      → length part < length p.body
      → decode_round o generator (wire_then (length p.device_id) p part) beyond consumed again
        ≡ none_yet consumed
  unfolding decode_round
  decode_round_part part consumed again h = rw (
    read_header-wire_then (length p.device_id) p part id_fits,
    get32-be_bytes o (length p.body) (omega (arith, v.encodable.body_fits)),
    le→ltb (length (wire_then (length p.device_id) p part)) header_length
        (omega (arith, length-wire_then (length p.device_id) p part id_fits)),
    calc_crc8-wire_then (length p.device_id) p part id_fits,
    ==_refl (calc_crc8 (wire_checked p) (header_length - 1)),
    le→ltb max_body_length (length p.body) v.body_small,
    lt→ltb (length (wire_then (length p.device_id) p part)) (header_length + length p.body)
        (omega (arith, length-wire_then (length p.device_id) p part id_fits)),
  )

  -- Less than a header has arrived.
  decode_round_short :
      (bytes : List ℕ) (consumed : ℕ) (again : ℕ → Decoded)
      → length bytes < header_length
      → decode_round o generator bytes beyond consumed again ≡ none_yet consumed
  unfolding decode_round
  decode_round_short bytes consumed again h = rw (lt→ltb (length bytes) header_length h)

  take-wire :
      (n : ℕ)
      → header_length ≤ n
      → take n (wire p) ≡ wire_then (length p.device_id) p (take (n - header_length) p.body)
  take-wire n h =
      let crc = calc_crc8 (wire_checked p) (header_length - 1) in
      let e : n - length (wire_checked p) ≡ suc (n - header_length) =
        omega (arith, length-wire_checked p id_fits) in
      take-append_of_ge n (wire_checked p) (crc ∷ p.body)
        (omega (arith, length-wire_checked p id_fits))
      ∙ (ap (λ k. wire_checked p ++ take k (crc ∷ p.body)) e
          ∙ sym
              (wire_then-wire_checked_as (length p.device_id) p (take (n - header_length) p.body)))

  round_part :
      (n : ℕ) (consumed : ℕ) (again : ℕ → Decoded)
      → n < length (wire p)
      → decode_round o generator (take n (wire p)) beyond consumed again ≡ none_yet consumed
  round_part n consumed again h = elim (dec_lt n header_length) [
    | yes q ↦
        decode_round_short (take n (wire p)) consumed again (omega (arith, length-take n (wire p)))
    | no q ↦
        ap (λ t. decode_round o generator t beyond consumed again) (take-wire n (omega arith))
        ∙ decode_round_part (take (n - header_length) p.body) consumed again
            (omega (arith, length-take (n - header_length) p.body, length-wire p id_fits))
  ]

  decode_part :
      (n : ℕ)
      → n < length (wire p)
      → decode_packet o generator (take n (wire p)) beyond ≡ none_yet 0
  unfolding decode_packet decode_loop find_flag decode_round
  decode_part zero h = refl
  decode_part (suc n) h =
      decode_packet-round o generator (take n (drop 1 (wire p))) beyond
      ∙ round_part (suc n) 0 (from_flag o generator (take n (drop 1 (wire p))) beyond) h

-- A sendable frame of which only a part has arrived is left in the buffer whole: there is no packet yet,
-- and just the bytes without a begin flag before it are consumed.
pub decode_packet_partial :
    (o : ByteOrder) (generator : ℕ) (p : Packet) (junk beyond : List ℕ) (n : ℕ)
    → IsSendable p
    → All IsNoFlag junk
    → n < length (wire p)
    → decode_packet o generator (junk ++ take n (wire p)) beyond ≡ none_yet (length junk)
decode_packet_partial o generator p junk beyond n v clean h =
    decode_packet-skip o generator junk (take n (wire p)) beyond clean
    ∙ (ap (further (length junk)) (decode_part o generator p beyond v n h)
        ∙ ap none_yet (add-zero (length junk)))
