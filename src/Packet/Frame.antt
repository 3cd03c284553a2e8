-- ===== src/Packet/Frame.antt =====
-- `encode_packet` against the wire format: which bytes a packet's frame has.
use asyncmsg.Base.{
  ◌↔◌, Bool, true, false, All, All-append, All-replicate, ℕ, zero, suc, ◌+◌, ◌-◌, ◌%◌, ◌^◌, ◌≤◌,
  ◌<◌, ◌≡◌, refl, sym, ap, ◌∙◌, arith, List, [], ◌∷◌, ◌++◌, length, drop, replicate, append_assoc,
  length-append, length-replicate, lt→ltb, le→leb, if◌then◌else◌,
}
use asyncmsg.ByteOrder.{ByteOrder, be_bytes, put32-be_bytes}
use asyncmsg.Crc.{calc_crc8, IsByte}
use asyncmsg.Crc.Detect.{calc_crc8-append}
use asyncmsg.Packet.{
  assert_failed, overflow, Packet, frame, header_length, device_id_size, packet_begin_flag,
  checked_bytes, header_bytes, c_string, strcpy, fill_header, encode_packet,
}

-- What `encode_packet` asks of a packet: fields in range, and a device id and a body that fit.
pub record IsEncodable (p : Packet) : Type 0 where
  pub cmd_fits : p.cmd < 2 ^ 32
  pub seq_fits : p.seq < 2 ^ 32
  pub ec_fits : p.ec < 2 ^ 32
  pub id_fits : length p.device_id < device_id_size
  pub body_fits : header_length + length p.body < 2 ^ 32

-- The device id field: the id up to its first NUL, filled up with NULs.
abbrev pub id_field : List ℕ → List ℕ
id_field id = c_string id ++ replicate (device_id_size - length (c_string id)) 0

-- The bytes under the checksum: the begin flag, big-endian numbers, and the fixed field for the id.
-- The first argument is the length that is announced for the id.
abbrev pub wire_checked_as : ℕ → Packet → List ℕ
wire_checked_as len p =
    packet_begin_flag
    ∷ (be_bytes p.cmd
        ++ (be_bytes p.seq
            ++ ((if p.rsp then 1 else 0)
                ∷ (be_bytes p.ec
                    ++ (be_bytes len ++ (id_field p.device_id ++ be_bytes (length p.body)))))))

abbrev pub wire_checked : Packet → List ℕ
wire_checked p = wire_checked_as (length p.device_id) p

-- The frame of a packet: the checked bytes, their checksum, and the body.
abbrev pub wire : Packet → List ℕ
wire p = wire_checked p ++ (calc_crc8 (wire_checked p) (header_length - 1) ∷ p.body)

pub length-c_string-le : (id : List ℕ) → length (c_string id) ≤ length id
unfolding c_string
length-c_string-le [] = omega arith
length-c_string-le (c ∷ cs) = ground (arith, length-c_string-le cs)

pub length-id_field :
    (id : List ℕ) → length id < device_id_size → length (id_field id) ≡ device_id_size
length-id_field id h =
    let n = length (c_string id) in
    omega (
      arith,
      length-append (c_string id) (replicate (device_id_size - n) 0),
      length-replicate {A = ℕ} (device_id_size - n) 0,
      length-c_string-le id,
    )

drop-replicate : (n m : ℕ) (a : ℕ) → drop n (replicate m a) ≡ replicate (m - n) a
drop-replicate zero m a = ap (λ k. replicate k a) (omega arith)
drop-replicate (suc n) zero a = let e : 0 - suc n ≡ 0 = omega arith in rw e refl
drop-replicate (suc n) (suc m) a = drop-replicate n m a ∙ ap (λ k. replicate k a) (omega arith)

strcpy-id_field :
    (id : List ℕ)
    → length id < device_id_size
    → strcpy (replicate device_id_size 0) id ≡ id_field id
unfolding strcpy
strcpy-id_field id h =
    let n = length (c_string id) in
    let e : 64 - n ≡ suc (64 - (n + 1)) = omega (arith, length-c_string-le id) in
    ap (λ t. c_string id ++ 0 ∷ t) (drop-replicate (n + 1) 64 0)
    ∙ ap (λ k. c_string id ++ replicate k 0) (sym e)

pub length-wire_checked_as :
    (len : ℕ) (p : Packet)
    → length p.device_id < device_id_size
    → length (wire_checked_as len p) ≡ header_length - 1
length-wire_checked_as len p h = omega (
  arith,
  length-append (id_field p.device_id) (be_bytes (length p.body)),
  length-id_field p.device_id h,
)

pub length-wire_checked :
    (p : Packet) → length p.device_id < device_id_size → length (wire_checked p) ≡ header_length - 1
length-wire_checked p h = length-wire_checked_as (length p.device_id) p h

checked_bytes-fill_header :
    (o : ByteOrder) (p : Packet) → IsEncodable p → checked_bytes (fill_header o p) ≡ wire_checked p
unfolding checked_bytes fill_header
checked_bytes-fill_header o p v =
    let idlen : length p.device_id % 2 ^ 32 ≡ length p.device_id = omega arith in
    let bodylen : length p.body % 2 ^ 32 ≡ length p.body = omega arith in
    rw (
      idlen,
      bodylen,
      put32-be_bytes o p.cmd v.cmd_fits,
      put32-be_bytes o p.seq v.seq_fits,
      put32-be_bytes o p.ec v.ec_fits,
      put32-be_bytes o (length p.device_id) (omega arith),
      put32-be_bytes o (length p.body) (omega arith),
      strcpy-id_field p.device_id v.id_fits,
    )

-- Whatever the checksum field holds.
header_bytes-fill_header :
    (o : ByteOrder) (p : Packet) (crc : ℕ)
    → IsEncodable p
    → header_bytes (record (fill_header o p) { crc = crc }) ≡ wire_checked p ++ crc ∷ []
unfolding header_bytes checked_bytes
header_bytes-fill_header o p crc v = ap (λ t. t ++ crc ∷ []) (checked_bytes-fill_header o p v)

crc-fill_header :
    (o : ByteOrder) (p : Packet)
    → IsEncodable p
    → calc_crc8 (header_bytes (fill_header o p)) (header_length - 1)
      ≡ calc_crc8 (wire_checked p) (header_length - 1)
crc-fill_header o p v =
    ap (λ t. calc_crc8 t (header_length - 1)) (header_bytes-fill_header o p (fill_header o p).crc v)
    ∙ calc_crc8-append (wire_checked p) ((fill_header o p).crc ∷ []) (header_length - 1)
        (length-wire_checked p v.id_fits)

-- An encodable packet becomes exactly its frame on the wire, on a host of either byte order.
pub encode_packet-wire :
    (o : ByteOrder) (p : Packet) → IsEncodable p → encode_packet o p ≡ frame (wire p)
unfolding encode_packet
encode_packet-wire o p v =
    let e : (header_length + length p.body) % 2 ^ 32 ≡ header_length + length p.body =
      omega (arith, v.body_fits) in
    rw
      (
        e,
        lt→ltb (length p.device_id) device_id_size v.id_fits,
        le→leb (header_length + length p.body) (header_length + length p.body) (omega arith),
        crc-fill_header o p v,
        header_bytes-fill_header o p (calc_crc8 (wire_checked p) (header_length - 1)) v,
      )
      (ap frame (
        append_assoc (wire_checked p) (calc_crc8 (wire_checked p) (header_length - 1) ∷ []) p.body))

c_string-IsByte : (id : List ℕ) → All IsByte id → All IsByte (c_string id)
unfolding c_string
c_string-IsByte [] h = tt
c_string-IsByte (c ∷ cs) h = ground (arith, c_string-IsByte cs h.1)

be_then : (x : ℕ) (ys : List ℕ) → All IsByte ys → All IsByte (be_bytes x ++ ys)
be_then x ys h = (omega arith, (omega arith, (omega arith, (omega arith, h))))

rsp-IsByte : (b : Bool) → IsByte (if b then 1 else 0)
rsp-IsByte true = omega arith
rsp-IsByte false = omega arith

-- The checked part of a frame consists of bytes.
pub wire_checked-IsByte : (p : Packet) → All IsByte p.device_id → All IsByte (wire_checked p)
wire_checked-IsByte p h = (
  omega arith,
  be_then p.cmd (be_bytes p.seq ++ from_rsp) (
      be_then p.seq from_rsp
        (rsp-IsByte p.rsp, be_then p.ec from_len (be_then (length p.device_id) from_id id_bytes))),
)
  where
    filler : List ℕ
    filler = replicate (device_id_size - length (c_string p.device_id)) 0

    from_id : List ℕ
    from_id = id_field p.device_id ++ be_bytes (length p.body)

    from_len : List ℕ
    from_len = be_bytes (length p.device_id) ++ from_id

    from_rsp : List ℕ
    from_rsp = (if p.rsp then 1 else 0) ∷ (be_bytes p.ec ++ from_len)

    id_bytes : All IsByte from_id
    id_bytes =
        All-append IsByte (id_field p.device_id) (be_bytes (length p.body))
          (All-append IsByte (c_string p.device_id) filler (c_string-IsByte p.device_id h)
            (All-replicate IsByte (device_id_size - length (c_string p.device_id)) 0 (omega arith)))
          (omega arith)

-- `encode_packet` fails its assertion exactly at a device id of 64 bytes or more, and writes past its
-- buffer exactly if the id is shorter and the body so long that the frame's size wraps.
pub encode_packet_refused :
    (o : ByteOrder) (p : Packet)
    → length p.body < 2 ^ 32
    → ((encode_packet o p ≡ assert_failed) ↔ (device_id_size ≤ length p.device_id))
      × ((encode_packet o p ≡ overflow)
          ↔ ((length p.device_id < device_id_size) × (2 ^ 32 ≤ header_length + length p.body)))
unfolding encode_packet
encode_packet_refused o p h = (ground arith, ground arith)
