-- ===== src/Packet/Decode/Total.antt =====
-- The loop of `decode_packet` on any input: it ends, it stays inside the buffer, and it makes progress.
use asyncmsg.Base.{
  subst, ℕ, zero, suc, ◌+◌, ◌-◌, ◌≤◌, ◌<◌, ◌≡◌, arith, List, [], ◌∷◌, ◌++◌, length, drop, inl, inr,
  length-drop, Bool-cases, ltb, leb, ◌==◌, ltb→lt,
}
use asyncmsg.ByteOrder.{ByteOrder, get32}
use asyncmsg.Crc.{calc_crc8}
use asyncmsg.Packet.{
  Decoded, none_yet, packet, overread, out_of_fuel, header_length, max_body_length, find_flag,
  read_header, take_packet, decode_round, decode_loop, decode_packet,
}

-- `lo` bytes were consumed before, and the buffer ends at `hi`. A packet takes at least its header;
-- without a packet, less than one largest frame is left unconsumed.
abbrev pub Within : ℕ → ℕ → Decoded → Type 0
Within lo hi (none_yet n) = (lo ≤ n) × (n ≤ hi) × (hi < n + header_length + max_body_length)
Within lo hi (packet n p generator) = (lo + header_length ≤ n) × (n ≤ hi)
Within lo hi overread = Unit
Within lo hi out_of_fuel = ⊥

Within-mono : {l m : ℕ} (hi : ℕ) (d : Decoded) → l ≤ m → Within m hi d → Within l hi d
Within-mono hi (none_yet n) h w = omega arith
Within-mono hi (packet n p generator) h w = omega arith
Within-mono hi overread h w = w
Within-mono hi out_of_fuel h w = w

pub find_flag-le : (buf : List ℕ) → find_flag buf ≤ length buf
unfolding find_flag
find_flag-le [] = omega arith
find_flag-le (b ∷ bs) = ground (arith, find_flag-le bs)

module _ (o : ByteOrder) (generator : ℕ) (bytes beyond : List ℕ) (consumed hi : ℕ) where
  -- The packet fits once its body does.
  take_packet-Within :
      header_length + get32 o (read_header bytes).body_len ≤ length bytes
      → consumed + length bytes ≡ hi
      → Within consumed hi (take_packet o generator bytes beyond consumed)
  unfolding take_packet
  take_packet-Within fits e =
      elim (Bool-cases
        (leb (18 + get32 o (read_header bytes).device_id_len) (length (bytes ++ beyond)))) [
          | inl q ↦ rw q (omega arith)
          | inr q ↦ rw q tt
        ]

  decode_round-Within :
      (again : ℕ → Decoded)
      → consumed + length bytes ≡ hi
      → ((n : ℕ) → 1 ≤ n → n ≤ length bytes → Within (consumed + n) hi (again n))
      → Within consumed hi (decode_round o generator bytes beyond consumed again)
  unfolding decode_round
  decode_round-Within again e rest = elim (Bool-cases (ltb (length bytes) header_length)) [
    | inl short ↦ rw short (omega (arith, ltb→lt (length bytes) header_length short))
    | inr long ↦
        rw long
          (elim (Bool-cases (calc_crc8 bytes (header_length - 1) == (read_header bytes).crc)) [
            | inr bad ↦
                rw bad
                  (Within-mono hi (again 1) (omega arith) (rest 1 (omega arith) (ground arith)))
            | inl good ↦
                rw good
                  (elim (Bool-cases (ltb max_body_length (get32 o (read_header bytes).body_len))) [
                    | inl big ↦ rw big (
                        Within-mono hi (again header_length) (omega arith)
                          (rest header_length (omega arith) (ground arith)))
                    | inr small ↦
                        rw small
                          (elim (Bool-cases (
                            ltb (length bytes)
                              (header_length + get32 o (read_header bytes).body_len))) [
                                | inl part ↦ rw part (ground arith)
                                | inr all ↦ rw all (take_packet-Within (ground arith) e)
                              ])
                  ])
          ])
  ]

decode_loop-Within :
    (fuel : ℕ) (o : ByteOrder) (generator : ℕ) (buf beyond : List ℕ) (consumed : ℕ)
    → length buf < fuel
    → Within consumed (consumed + length buf) (decode_loop fuel o generator buf beyond consumed)
unfolding decode_loop
decode_loop-Within zero o generator buf beyond consumed h = absurd (omega arith)
decode_loop-Within (suc fuel) o generator buf beyond consumed h =
    Within-mono (consumed + length buf) _ (omega arith) (
      decode_round-Within o generator (drop skip buf) beyond (consumed + skip)
        (consumed + length buf)
        (λ n. decode_loop fuel o generator (drop n (drop skip buf)) beyond (consumed + skip + n))
        (omega (arith, left, find_flag-le buf))
        (λ n pos le.
          on n _
            (decode_loop-Within fuel o generator (drop n (drop skip buf)) beyond
              (consumed + skip + n) (omega (arith, left, length-drop n (drop skip buf))))
            le))
  where
    skip : ℕ
    skip = find_flag buf

    left : length (drop skip buf) ≡ length buf - skip
    left = length-drop skip buf

    on :
        (n : ℕ) (d : Decoded)
        → Within (consumed + skip + n) (consumed + skip + n + length (drop n (drop skip buf))) d
        → n ≤ length (drop skip buf)
        → Within (consumed + skip + n) (consumed + length buf) d
    on n d w le =
        subst (λ hi. Within (consumed + skip + n) hi d)
          (omega (arith, left, length-drop n (drop skip buf), find_flag-le buf)) w

-- `decode_packet` ends on every input, and consumes no more than the buffer holds. A packet takes at
-- least a header's bytes; if there is no packet yet, fewer bytes than one largest frame stay behind.
pub decode_packet-Within :
    (o : ByteOrder) (generator : ℕ) (buf beyond : List ℕ)
    → Within 0 (length buf) (decode_packet o generator buf beyond)
unfolding decode_packet
decode_packet-Within o generator buf beyond =
    let e : 0 + length buf ≡ length buf = omega arith in
    subst (λ hi. Within 0 hi (decode_loop (suc (length buf)) o generator buf beyond 0)) e
      (decode_loop-Within (suc (length buf)) o generator buf beyond 0 (omega arith))
