-- ===== src/Packet/Decode/Header.antt =====
-- The header that the decoder reads at the front of a frame.
use asyncmsg.Base.{
  sym, length-append, ℕ, zero, suc, ◌+◌, ◌-◌, ◌<◌, ◌≡◌, refl, ap, ◌∙◌, arith, List, [], ◌∷◌, ◌++◌,
  length, take, drop, get_or, append_assoc, take-append, drop-append, if◌then◌else◌,
}
use asyncmsg.ByteOrder.{be_bytes}
use asyncmsg.Crc.{calc_crc8}
use asyncmsg.Crc.Detect.{calc_crc8-append}
use asyncmsg.Packet.{
  Packet, PacketHeader, header_length, device_id_size, packet_begin_flag, read_header,
}
use asyncmsg.Packet.Frame.{
  id_field, wire_checked, wire_checked_as, wire, length-id_field, length-wire_checked_as,
}

-- The header of a frame and the bytes behind it, bracketed to the right.
unfoldable pub wire_then : ℕ → Packet → List ℕ → List ℕ
wire_then len p rest =
    packet_begin_flag
    ∷ (be_bytes p.cmd
        ++ (be_bytes p.seq
            ++ ((if p.rsp then 1 else 0)
                ∷ (be_bytes p.ec
                    ++ (be_bytes len
                        ++ (id_field p.device_id
                            ++ (be_bytes (length p.body)
                                ++ (calc_crc8 (wire_checked_as len p) (header_length - 1)
                                    ∷ rest))))))))

pub wire_then-wire_checked_as :
    (len : ℕ) (p : Packet) (rest : List ℕ)
    → wire_then len p rest
      ≡ wire_checked_as len p ++ calc_crc8 (wire_checked_as len p) (header_length - 1) ∷ rest
unfolding wire_then
wire_then-wire_checked_as len p rest = simp append_assoc

pub wire-wire_then :
    (p : Packet) (rest : List ℕ)
    → wire p ++ rest ≡ wire_then (length p.device_id) p (p.body ++ rest)
wire-wire_then p rest =
    append_assoc (wire_checked p) (calc_crc8 (wire_checked p) (header_length - 1) ∷ p.body) rest
    ∙ sym (wire_then-wire_checked_as (length p.device_id) p (p.body ++ rest))

pub calc_crc8-wire_then :
    (len : ℕ) (p : Packet) (rest : List ℕ)
    → length p.device_id < device_id_size
    → calc_crc8 (wire_then len p rest) (header_length - 1)
      ≡ calc_crc8 (wire_checked_as len p) (header_length - 1)
calc_crc8-wire_then len p rest h =
    ap (λ t. calc_crc8 t (header_length - 1)) (wire_then-wire_checked_as len p rest)
    ∙ calc_crc8-append (wire_checked_as len p)
        (calc_crc8 (wire_checked_as len p) (header_length - 1) ∷ rest) (header_length - 1)
        (length-wire_checked_as len p h)

pub length-wire_then :
    (len : ℕ) (p : Packet) (rest : List ℕ)
    → length p.device_id < device_id_size
    → length (wire_then len p rest) ≡ header_length + length rest
length-wire_then len p rest h =
    let crc = calc_crc8 (wire_checked_as len p) (header_length - 1) in
    ap length (wire_then-wire_checked_as len p rest)
    ∙ omega
        (arith, length-append (wire_checked_as len p) (crc ∷ rest), length-wire_checked_as len p h)

-- The header that the frame of `p` begins with.
abbrev pub wire_header : ℕ → Packet → PacketHeader
wire_header len p = record {
  flag = packet_begin_flag;
  cmd = be_bytes p.cmd;
  seq = be_bytes p.seq;
  rsp = if p.rsp then 1 else 0;
  ec = be_bytes p.ec;
  device_id_len = be_bytes len;
  device_id = id_field p.device_id;
  body_len = be_bytes (length p.body);
  crc = calc_crc8 (wire_checked_as len p) (header_length - 1);
}

get_or-drop : (n m : ℕ) (xs : List ℕ) → get_or xs (n + m) 0 ≡ get_or (drop n xs) m 0
get_or-drop zero m xs = ap (λ k. get_or xs k 0) (omega arith)
get_or-drop (suc n) m [] = refl
get_or-drop (suc n) m (x ∷ xs) =
    let e : suc n + m ≡ suc (n + m) = omega arith in
    ap (λ k. get_or (x ∷ xs) k 0) e ∙ get_or-drop n m xs

pub read_header-wire_then :
    (len : ℕ) (p : Packet) (rest : List ℕ)
    → length p.device_id < device_id_size
    → read_header (wire_then len p rest) ≡ wire_header len p
unfolding read_header wire_then
read_header-wire_then len p rest h = λ i. record {
  flag = packet_begin_flag;
  cmd = be_bytes p.cmd;
  seq = be_bytes p.seq;
  rsp = if p.rsp then 1 else 0;
  ec = be_bytes p.ec;
  device_id_len = be_bytes len;
  device_id = take-append device_id_size (id_field p.device_id) after sized i;
  body_len = ap (take 4) cut i;
  crc = (get_or-drop 64 4 (id_field p.device_id ++ after) ∙ ap (λ t. get_or t 4 0) cut) i;
}
  where
    after : List ℕ
    after =
        be_bytes (length p.body) ++ (calc_crc8 (wire_checked_as len p) (header_length - 1) ∷ rest)

    sized : length (id_field p.device_id) ≡ device_id_size
    sized = length-id_field p.device_id h

    cut : drop device_id_size (id_field p.device_id ++ after) ≡ after
    cut = drop-append device_id_size (id_field p.device_id) after sized

pub drop-wire_then :
    (len : ℕ) (p : Packet) (rest : List ℕ)
    → length p.device_id < device_id_size
    → drop header_length (wire_then len p rest) ≡ rest
drop-wire_then len p rest h =
    let crc = calc_crc8 (wire_checked_as len p) (header_length - 1) in
    ap (drop header_length) (
      wire_then-wire_checked_as len p rest
      ∙ sym (append_assoc (wire_checked_as len p) (crc ∷ []) rest))
    ∙ drop-append header_length (wire_checked_as len p ++ crc ∷ []) rest (
        omega
          (arith, length-append (wire_checked_as len p) (crc ∷ []), length-wire_checked_as len p h))
