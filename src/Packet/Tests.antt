-- ===== src/Packet/Tests.antt =====
-- Packets and frames at concrete inputs.
use asyncmsg.Base.{
  ℕ, ◌+◌, ◌-◌, ◌^◌, ◌≡◌, refl, arith, false, List, [], ◌∷◌, ◌++◌, length, take, drop, All,
}
use asyncmsg.ByteOrder.{little_endian, big_endian, le_bytes, le_value, swap32}
use asyncmsg.Crc.{calc_crc8}
use asyncmsg.Packet.{
  Packet, frame, none_yet, packet, overread, codec, packet_id, next_seq, build_req_packet,
  encode_packet, decode_packet, header_length, packet_begin_flag, c_string,
}
use asyncmsg.Packet.Id.{packet_id_collision}
use asyncmsg.Packet.Frame.{IsEncodable, wire, wire_checked}
use asyncmsg.Packet.Decode.Wire.{IsSendable, IsNoFlag}
use asyncmsg.Packet.Decode.RoundTrip.{IsIntact, decode_packet-encode_packet}
use asyncmsg.Packet.Decode.Total.{Within, decode_packet-Within}
use asyncmsg.Packet.Decode.Skip.{further}
use asyncmsg.Packet.Decode.Partial.{decode_packet_partial}
use asyncmsg.Packet.Decode.Reject.{decode_packet_damaged}
use asyncmsg.Packet.Decode.Overread.{forged, decode_packet_overread}

-- Command 1, number 7, device "dev", body "hi".
abbrev hello : Packet
hello = record {
  cmd = 1;
  seq = 7;
  rsp = false;
  ec = 0;
  device_id = 100 ∷ 101 ∷ 118 ∷ [];
  body = 104 ∷ 105 ∷ [];
}

abbrev noise : List ℕ
noise = 1 ∷ 2 ∷ 3 ∷ []

program : Unit {0}
unfolding codec le_bytes le_value swap32
program = tt

-- A little-endian host sends, a big-endian host receives.
hello_sent : encode_packet little_endian hello ≡ frame (wire hello)
unfolding program
hello_sent = refl

hello_received : decode_packet big_endian 5 (noise ++ wire hello) [] ≡ packet (3 + 89) hello 5
unfolding program
hello_received = refl

-- A request without a number takes the next one.
request_numbered : (build_req_packet 41 9 [] []).0.seq ≡ 42
unfolding codec
request_numbered = refl

seq_wraps : next_seq (2 ^ 32 - 1) ≡ 1
unfolding codec
seq_wraps = refl

hello-IsEncodable : IsEncodable hello
hello-IsEncodable = omega arith

hello-IsSendable : IsSendable hello
hello-IsSendable = record { encodable = hello-IsEncodable; body_small = omega arith }

hello-IsIntact : IsIntact hello
hello-IsIntact = omega arith

noise-IsNoFlag : All IsNoFlag noise
noise-IsNoFlag = omega arith

decode_packet-encode_packet_example :
    (bytes : List ℕ) × (encode_packet little_endian hello ≡ frame bytes)
    × (decode_packet big_endian 5 (noise ++ (bytes ++ noise)) []
        ≡ packet (3 + length bytes) hello 5)
decode_packet-encode_packet_example =
    decode_packet-encode_packet little_endian big_endian 5 hello noise noise [] hello-IsSendable
      hello-IsIntact noise-IsNoFlag

decode_packet-Within_example : Within 0 3 (decode_packet big_endian 5 noise [])
decode_packet-Within_example = decode_packet-Within big_endian 5 noise []

decode_packet_partial_example :
    decode_packet big_endian 5 (noise ++ take 88 (wire hello)) [] ≡ none_yet 3
unfolding c_string
decode_packet_partial_example =
    decode_packet_partial big_endian 5 hello noise [] 88 hello-IsSendable noise-IsNoFlag
      (omega arith)

-- The lowest byte of the command is damaged.
decode_packet_damaged_example :
    let crc = calc_crc8 (wire_checked hello) (header_length - 1) in
    let damaged =
      ((0 ∷ 0 ∷ 0 ∷ []) ++ 9 ∷ drop 5 (wire_checked hello)) ++ crc ∷ (hello.body ++ noise) in
    decode_packet big_endian 5 (packet_begin_flag ∷ damaged) []
    ≡ further 1 (decode_packet big_endian 5 damaged [])
decode_packet_damaged_example =
    decode_packet_damaged big_endian 5 hello (0 ∷ 0 ∷ 0 ∷ []) 1 9 (drop 5 (wire_checked hello))
      noise [] hello-IsEncodable (omega arith) refl (omega arith) (omega arith)

decode_packet_overread_example : decode_packet big_endian 5 (forged 1000 hello) noise ≡ overread
decode_packet_overread_example =
    decode_packet_overread big_endian 5 hello 1000 noise hello-IsSendable (omega arith)
      (omega arith)

packet_id_collision_example : packet_id (record hello { seq = 7 + 2 ^ 31 }) ≡ packet_id hello
packet_id_collision_example =
    packet_id_collision hello (record hello { seq = 7 + 2 ^ 31 }) (omega arith) refl refl
      (omega arith) refl
