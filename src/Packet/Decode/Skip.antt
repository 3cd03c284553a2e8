-- ===== src/Packet/Decode/Skip.antt =====
-- Decoding from further on in the buffer: bytes that hold no frame are skipped, and what follows is
-- decoded as if it stood first.
use native.Mathlib.Nat.{add_assoc}
use asyncmsg.Base.{
  ap₂, ℕ, zero, suc, ◌+◌, ◌-◌, ◌≤◌, ◌<◌, ◌≡◌, refl, sym, ◌∙◌, ap, arith, List, [], ◌∷◌, ◌++◌,
  length, drop, inl, inr, length-drop, length-append, Bool-cases, ltb, leb, ◌==◌, All, drop-drop,
  drop-append,
}
use asyncmsg.ByteOrder.{ByteOrder, get32}
use asyncmsg.Crc.{calc_crc8}
use asyncmsg.Packet.{
  packet_begin_flag, Decoded, none_yet, packet, overread, out_of_fuel, header_length,
  max_body_length, find_flag, read_header, take_packet, decode_round, decode_loop, decode_packet,
}
use asyncmsg.Packet.Decode.Wire.{IsNoFlag}

-- The same outcome with `n` more bytes consumed.
abbrev pub further : ℕ → Decoded → Decoded
further n (none_yet k) = none_yet (n + k)
further n (packet k p generator) = packet (n + k) p generator
further n overread = overread
further n out_of_fuel = out_of_fuel

take_packet-further :
    (o : ByteOrder) (generator : ℕ) (bytes beyond : List ℕ) (n consumed : ℕ)
    → take_packet o generator bytes beyond (n + consumed)
      ≡ further n (take_packet o generator bytes beyond consumed)
unfolding take_packet
take_packet-further o generator bytes beyond n consumed =
    elim (Bool-cases
      (leb (18 + get32 o (read_header bytes).device_id_len) (length (bytes ++ beyond)))) [
        | inl q ↦ rw q (ground arith)
        | inr q ↦ rw q refl
      ]

decode_round-further :
    (o : ByteOrder) (generator : ℕ) (bytes beyond : List ℕ) (n consumed : ℕ)
    (again later : ℕ → Decoded)
    → ((k : ℕ) → 1 ≤ k → k ≤ length bytes → again k ≡ further n (later k))
    → decode_round o generator bytes beyond (n + consumed) again
      ≡ further n (decode_round o generator bytes beyond consumed later)
unfolding decode_round
decode_round-further o generator bytes beyond n consumed again later h =
    elim (Bool-cases (ltb (length bytes) header_length)) [
      | inl short ↦ rw short refl
      | inr long ↦
          rw long
            (elim (Bool-cases (calc_crc8 bytes (header_length - 1) == (read_header bytes).crc)) [
              | inr bad ↦ rw bad (h 1 (omega arith) (ground arith))
              | inl good ↦
                  rw good
                    (elim (Bool-cases
                      (ltb max_body_length (get32 o (read_header bytes).body_len))) [
                        | inl big ↦ rw big (h header_length (omega arith) (ground arith))
                        | inr small ↦
                            rw small
                              (elim (Bool-cases (
                                ltb (length bytes)
                                  (header_length + get32 o (read_header bytes).body_len))) [
                                    | inl part ↦ rw part refl
                                    | inr all ↦
                                        rw all
                                          (take_packet-further o generator bytes beyond n consumed)
                                  ])
                      ])
            ])
    ]

-- With enough fuel the loop's outcome depends on the fuel no more, and on the bytes consumed before
-- only by their number.
pub decode_loop-further :
    (f g : ℕ) (o : ByteOrder) (generator : ℕ) (buf beyond : List ℕ) (n consumed : ℕ)
    → length buf < f
    → length buf < g
    → decode_loop f o generator buf beyond (n + consumed)
      ≡ further n (decode_loop g o generator buf beyond consumed)
unfolding decode_loop
decode_loop-further zero g o generator buf beyond n consumed hf hg = absurd (omega arith)
decode_loop-further (suc f) zero o generator buf beyond n consumed hf hg = absurd (omega arith)
decode_loop-further (suc f) (suc g) o generator buf beyond n consumed hf hg =
    ap
      (λ c.
        decode_round o generator (drop skip buf) beyond c
          (λ k. decode_loop f o generator (drop k (drop skip buf)) beyond (c + k)))
      (add_assoc n consumed skip)
    ∙ decode_round-further o generator (drop skip buf) beyond n (consumed + skip) _ _ (λ k pos le.
      ap (decode_loop f o generator (drop k (drop skip buf)) beyond)
        (add_assoc n (consumed + skip) k)
      ∙ decode_loop-further f g o generator (drop k (drop skip buf)) beyond n (consumed + skip + k)
          (shorter f k pos le hf) (shorter g k pos le hg))
  where
    skip : ℕ
    skip = find_flag buf

    shorter :
        (fuel k : ℕ)
        → 1 ≤ k
        → k ≤ length (drop skip buf)
        → length buf < suc fuel
        → length (drop k (drop skip buf)) < fuel
    shorter fuel k pos le h = omega (arith, length-drop skip buf, length-drop k (drop skip buf))

find_flag-skip :
    (junk buf : List ℕ) → All IsNoFlag junk → find_flag (junk ++ buf) ≡ length junk + find_flag buf
unfolding find_flag
find_flag-skip [] buf h = omega arith
find_flag-skip (b ∷ junk) buf h = ground (arith, find_flag-skip junk buf h.1, h.0)

drop-skip :
    (junk buf : List ℕ)
    → All IsNoFlag junk
    → drop (find_flag (junk ++ buf)) (junk ++ buf) ≡ drop (find_flag buf) buf
drop-skip junk buf clean =
    ap (λ k. drop k (junk ++ buf)) (find_flag-skip junk buf clean)
    ∙ (sym (drop-drop (find_flag buf) (length junk) (junk ++ buf))
        ∙ ap (drop (find_flag buf)) (drop-append (length junk) junk buf refl))

-- Bytes without a begin flag in front of the buffer change nothing but the number of bytes consumed.
pub decode_packet-skip :
    (o : ByteOrder) (generator : ℕ) (junk buf beyond : List ℕ)
    → All IsNoFlag junk
    → decode_packet o generator (junk ++ buf) beyond
      ≡ further (length junk) (decode_packet o generator buf beyond)
unfolding decode_packet
decode_packet-skip o generator junk buf beyond clean =
    unfold decode_loop in
    ap₂
      (λ bytes c.
        decode_round o generator bytes beyond c
          (λ k. decode_loop whole o generator (drop k bytes) beyond (c + k)))
      (drop-skip junk buf clean) (omega (arith, find_flag-skip junk buf clean))
    ∙ decode_loop-further (suc whole) (suc (length buf)) o generator buf beyond (length junk) 0
        (omega (arith, length-append junk buf)) (omega arith)
  where
    whole : ℕ
    whole = length (junk ++ buf)

-- The rest of the loop behind a begin flag, `k` bytes further on.
abbrev pub from_flag : ByteOrder → ℕ → List ℕ → List ℕ → ℕ → Decoded
from_flag o generator bs beyond k =
    decode_loop (suc (length bs)) o generator (drop k (packet_begin_flag ∷ bs)) beyond (0 + k)

-- The decoder at a begin flag: one round of the loop, and from there on the decoder again.
pub decode_packet-round :
    (o : ByteOrder) (generator : ℕ) (bs beyond : List ℕ)
    → decode_packet o generator (packet_begin_flag ∷ bs) beyond
      ≡ decode_round o generator (packet_begin_flag ∷ bs) beyond 0 (from_flag o generator bs beyond)
unfolding decode_packet decode_loop find_flag
decode_packet-round o generator bs beyond = refl

pub round_again :
    (o : ByteOrder) (generator : ℕ) (bs beyond : List ℕ) (k : ℕ)
    → 1 ≤ k
    → decode_loop (suc (length bs)) o generator (drop k (packet_begin_flag ∷ bs)) beyond (0 + k)
      ≡ further k (decode_packet o generator (drop k (packet_begin_flag ∷ bs)) beyond)
unfolding decode_packet
round_again o generator bs beyond k pos =
    let buf : List ℕ = packet_begin_flag ∷ bs in
    ap (decode_loop (suc (length bs)) o generator (drop k buf) beyond) (omega arith)
    ∙ decode_loop-further (suc (length bs)) (suc (length (drop k buf))) o generator (drop k buf)
        beyond k 0 (omega (arith, length-drop k buf)) (omega arith)
