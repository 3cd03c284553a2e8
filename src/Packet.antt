-- ===== src/Packet.antt =====
-- asyncmsg/asyncmsg/tcp/packet.hpp: packets, their sequence numbers and ids, and the frames on the wire.
pub mod Seq
pub mod Id
pub mod Frame
pub mod Decode
mod Tests
use asyncmsg.Base.{
  ℕ, zero, suc, ◌+◌, ◌-◌, ◌*◌, ◌%◌, ◌^◌, bit_or, Bool, true, false, List, [], ◌∷◌, ◌++◌, length,
  get_or, take, drop, replicate, leb, ltb, ◌==◌, if◌then◌else◌,
}
use asyncmsg.ByteOrder.{ByteOrder, put32, get32, host_to_network_32, network_to_host_32}
use asyncmsg.Crc.{crc_step, crc_loop, calc_crc8}

abbrev pub packet_begin_flag : ℕ
packet_begin_flag = 0x55

abbrev pub device_id_size : ℕ
device_id_size = 64

abbrev pub max_body_length : ℕ
max_body_length = 16 * 1024

-- `sizeof(packet_header)`, whose fields are packed.
abbrev pub header_length : ℕ
header_length = 1 + 4 + 4 + 1 + 4 + 4 + device_id_size + 4 + 1

-- A packet; the body is the bytes that its buffer holds.
pub record Packet : Type 0 where
  pub cmd : ℕ
  pub seq : ℕ
  pub rsp : Bool
  pub ec : ℕ
  pub device_id : List ℕ
  pub body : List ℕ

-- `next_seq`: the new value of `seq_generator`, which is also the number returned.
unfoldable pub next_seq : ℕ → ℕ
next_seq generator = ((if generator == 2 ^ 32 - 1 then 0 else generator) + 1) % 2 ^ 32

-- The constructor of a packet from its parts. A sequence number 0 asks for the next one; the
-- second component is the generator afterwards.
unfoldable pub make_packet : ℕ → ℕ → Bool → List ℕ → List ℕ → ℕ → ℕ → Packet × ℕ
make_packet generator cmd rsp body device_id seq ec = (
  record {
    cmd = cmd;
    seq = if seq == 0 then next_seq generator else seq;
    rsp = rsp;
    ec = ec;
    device_id = device_id;
    body = body;
  },
  if seq == 0 then next_seq generator else generator,
)

unfoldable pub build_req_packet : ℕ → ℕ → List ℕ → List ℕ → Packet × ℕ
build_req_packet generator cmd body device_id = make_packet generator cmd false body device_id 0 0

unfoldable pub build_rsp_packet : ℕ → ℕ → ℕ → ℕ → List ℕ → List ℕ → Packet × ℕ
build_rsp_packet generator cmd seq ec device_id body =
    make_packet generator cmd true body device_id seq ec

-- `id << 31 | seq`, on uint64_t.
unfoldable pub packet_id : Packet → ℕ
packet_id p = bit_or (p.cmd * 2 ^ 31 % 2 ^ 64) p.seq

-- `struct packet_header`. A uint32_t is kept as the host number in the field's memory, that is, in
-- network order; here, as the field's four bytes.
pub record PacketHeader : Type 0 where
  pub flag : ℕ
  pub cmd : List ℕ
  pub seq : List ℕ
  pub rsp : ℕ
  pub ec : List ℕ
  pub device_id_len : List ℕ
  pub device_id : List ℕ
  pub body_len : List ℕ
  pub crc : ℕ

-- The bytes of a header in memory, up to the checksum, and all of them.
unfoldable pub checked_bytes : PacketHeader → List ℕ
checked_bytes h =
    h.flag
    ∷ (h.cmd ++ (h.seq ++ (h.rsp ∷ (h.ec ++ (h.device_id_len ++ (h.device_id ++ h.body_len))))))

unfoldable pub header_bytes : PacketHeader → List ℕ
header_bytes h = checked_bytes h ++ h.crc ∷ []

-- The characters of `c_str()` before its end: up to the first NUL.
unfoldable pub c_string : List ℕ → List ℕ
c_string [] = []
c_string (c ∷ cs) = if c == 0 then [] else c ∷ c_string cs

-- `strcpy` into memory that holds `dst`: the characters and a NUL; the rest stays.
unfoldable pub strcpy : List ℕ → List ℕ → List ℕ
strcpy dst src = c_string src ++ 0 ∷ drop (length (c_string src) + 1) dst

-- The header that `encode_packet` fills in, its checksum still unset.
unfoldable pub fill_header : ByteOrder → Packet → PacketHeader
fill_header o p = record {
  flag = packet_begin_flag;
  cmd = put32 o p.cmd;
  seq = put32 o p.seq;
  rsp = if p.rsp then 1 else 0;
  ec = put32 o p.ec;
  device_id_len = put32 o (length p.device_id % 2 ^ 32);
  device_id = strcpy (replicate device_id_size 0) p.device_id;
  body_len = put32 o (length p.body % 2 ^ 32);
  crc = 0;
}

-- `frame` is the buffer that `encode_packet` returns. `assert_failed` is its assertion on the device
-- id; `overflow` is a copy past the end of the buffer, whose size is computed on uint32_t.
pub data Encoded : Type 0 where
  frame : List ℕ → Encoded
  assert_failed overflow : Encoded

unfoldable pub encode_packet : ByteOrder → Packet → Encoded
encode_packet o p =
    let data_len = (header_length + length p.body) % 2 ^ 32 in
    let header = fill_header o p in
    let crc = calc_crc8 (header_bytes header) (header_length - 1) in
    if ltb (length p.device_id) device_id_size
    then (if leb (header_length + length p.body) data_len
        then frame (header_bytes (record header { crc = crc }) ++ p.body)
        else overflow)
    else assert_failed

-- `n` bytes from offset `off` on.
abbrev pub slice : ℕ → ℕ → List ℕ → List ℕ
slice off n bytes = take n (drop off bytes)

-- The header that a pointer to these bytes reads.
unfoldable pub read_header : List ℕ → PacketHeader
read_header bytes = record {
  flag = get_or bytes 0 0;
  cmd = slice 1 4 bytes;
  seq = slice 5 4 bytes;
  rsp = get_or bytes 9 0;
  ec = slice 10 4 bytes;
  device_id_len = slice 14 4 bytes;
  device_id = slice 18 device_id_size bytes;
  body_len = slice 82 4 bytes;
  crc = get_or bytes 86 0;
}

-- What `decode_packet` returns, with `consume_len`: no packet yet, or a packet and the sequence
-- generator afterwards. `overread` is a read past the end of the memory; `out_of_fuel` is not the
-- code's, and `Decode.Total` shows that it does not occur.
pub data Decoded : Type 0 where
  none_yet : ℕ → Decoded
  packet : ℕ → Packet → ℕ → Decoded
  overread out_of_fuel : Decoded

-- The scan for the begin flag: how many bytes it passes over.
unfoldable pub find_flag : List ℕ → ℕ
find_flag [] = 0
find_flag (b ∷ bs) = if b == packet_begin_flag then 0 else suc (find_flag bs)

-- From the accepted header on; `bytes` is `buf_valid`. The device id is read from its field, as many
-- bytes as `device_id_len` says: over the rest of the buffer, and over what follows it in memory.
unfoldable pub take_packet : ByteOrder → ℕ → List ℕ → List ℕ → ℕ → Decoded
take_packet o generator bytes beyond consumed =
    let header = read_header bytes in
    let body_len = get32 o header.body_len in
    let device_id_len = get32 o header.device_id_len in
    let made =
      make_packet generator (get32 o header.cmd) (if header.rsp == 0 then false else true)
        (slice header_length body_len bytes) (slice 18 device_id_len (bytes ++ beyond))
        (get32 o header.seq) (get32 o header.ec) in
    if leb (18 + device_id_len) (length (bytes ++ beyond))
    then packet (consumed + header_length + body_len) made.0 made.1
    else overread

-- One round of the loop after the scan, on `buf_valid`; `again` is the rest of the loop, from so many
-- bytes further on.
unfoldable pub decode_round : ByteOrder → ℕ → List ℕ → List ℕ → ℕ → (ℕ → Decoded) → Decoded
decode_round o generator bytes beyond consumed again =
    let header = read_header bytes in
    let body_len = get32 o header.body_len in
    if ltb (length bytes) header_length
    then none_yet consumed
    else if calc_crc8 bytes (header_length - 1) == header.crc
    then (if ltb max_body_length body_len
        then again header_length
        else if ltb (length bytes) (header_length + body_len)
        then none_yet consumed
        else take_packet o generator bytes beyond consumed)
    else again 1

-- The loop of `decode_packet`, on the bytes from `consume_len` on.
unfoldable pub decode_loop : ℕ → ByteOrder → ℕ → List ℕ → List ℕ → ℕ → Decoded
decode_loop zero o generator buf beyond consumed = out_of_fuel
decode_loop (suc fuel) o generator buf beyond consumed =
    let skip = find_flag buf in
    decode_round o generator (drop skip buf) beyond (consumed + skip)
      (λ n. decode_loop fuel o generator (drop n (drop skip buf)) beyond (consumed + skip + n))

-- `decode_packet(buf, buf_len, consume_len)`: `buf` is the `buf_len` bytes, `beyond` what follows them
-- in the same allocation.
unfoldable pub decode_packet : ByteOrder → ℕ → List ℕ → List ℕ → Decoded
decode_packet o generator buf beyond = decode_loop (suc (length buf)) o generator buf beyond 0

-- All that a run of the encoder and the decoder computes with.
unfoldable pub codec : Unit {0}
unfolding next_seq make_packet build_req_packet build_rsp_packet packet_id checked_bytes
    header_bytes c_string strcpy put32 get32 calc_crc8 crc_loop crc_step fill_header encode_packet
    read_header find_flag take_packet decode_round decode_loop decode_packet host_to_network_32
    network_to_host_32
codec = tt
