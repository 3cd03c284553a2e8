-- ===== src/Packet/Id.antt =====
-- The ids under which responses are matched to requests.
use asyncmsg.Base.{
  ℕ, ◌+◌, ◌*◌, ◌/◌, ◌%◌, ◌^◌, ◌<◌, ◌≡◌, arith, ◌∙◌, sym, ap, bit_or, bit_or_split, bit_or_step,
  bit_or-zero,
}
use asyncmsg.Packet.{Packet, packet_id}

-- The id is the command above 31 bits of sequence number; bit 31 of the number is or-ed into the
-- command's lowest bit.
pub packet_id_fields :
    (p : Packet)
    → p.cmd < 2 ^ 32
    → packet_id p ≡ bit_or p.cmd (p.seq / 2 ^ 31) * 2 ^ 31 + p.seq % 2 ^ 31
unfolding packet_id
packet_id_fields p h =
    let fits : p.cmd * 2 ^ 31 % 2 ^ 64 ≡ p.cmd * 2 ^ 31 = omega arith in
    let cut : p.seq ≡ p.seq / 2 ^ 31 * 2 ^ 31 + p.seq % 2 ^ 31 = omega arith in
    ap (λ t. bit_or t p.seq) fits
    ∙ (ap (bit_or (p.cmd * 2 ^ 31)) cut
        ∙ bit_or_split 31 p.cmd (p.seq / 2 ^ 31) (p.seq % 2 ^ 31) (omega arith))

pub id_low_seq :
    (p : Packet) → p.cmd < 2 ^ 32 → p.seq < 2 ^ 31 → packet_id p ≡ p.cmd * 2 ^ 31 + p.seq
id_low_seq p hc hs =
    let top : p.seq / 2 ^ 31 ≡ 0 = omega arith in
    packet_id_fields p hc ∙ rw (top, bit_or-zero 32 p.cmd hc) (omega arith)

-- Among sequence numbers below 2 ^ 31 an id determines the command and the number.
pub packet_id_injective :
    (p q : Packet)
    → p.cmd < 2 ^ 32
    → q.cmd < 2 ^ 32
    → p.seq < 2 ^ 31
    → q.seq < 2 ^ 31
    → packet_id p ≡ packet_id q
    → (p.cmd ≡ q.cmd) × (p.seq ≡ q.seq)
packet_id_injective p q hp hq sp sq e = omega (arith, id_low_seq p hp sp, id_low_seq q hq sq)

or_one_of_odd : (c : ℕ) → c < 2 ^ 32 → c % 2 ≡ 1 → bit_or c 1 ≡ c
or_one_of_odd c h odd = omega (arith, bit_or_step c 1, bit_or-zero 32 (c / 2) (omega arith))

-- For every odd command, a sequence number below 2 ^ 31 and that number plus 2 ^ 31 have one id.
pub packet_id_collision :
    (p q : Packet)
    → p.cmd < 2 ^ 32
    → p.cmd % 2 ≡ 1
    → q.cmd ≡ p.cmd
    → p.seq < 2 ^ 31
    → q.seq ≡ p.seq + 2 ^ 31
    → packet_id q ≡ packet_id p
packet_id_collision p q hc odd same hs above =
    let top : q.seq / 2 ^ 31 ≡ 1 = omega arith in
    let low : q.seq % 2 ^ 31 ≡ p.seq = omega arith in
    packet_id_fields q (omega arith)
    ∙ rw (top, low, same, or_one_of_odd p.cmd hc odd) (sym (id_low_seq p hc hs))
