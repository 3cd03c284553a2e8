-- ===== src/Rpc/Remote.antt =====
-- packet.hpp and rpc_protocol.hpp: the way of a packet from one host to another, and what fits it.
use asyncmsg.Base.{
  ℕ, ◌+◌, ◌^◌, ◌≤◌, ◌<◌, ◌≡◌, ◌≢◌, refl, sym, ap, arith, false, Option, none, some, List, [], ◌++◌,
  length, All, is_empty, append-nil,
}
use asyncmsg.ByteOrder.{ByteOrder}
use asyncmsg.Packet.{
  device_id_size, Packet, Encoded, frame, assert_failed, overflow, none_yet, packet, overread,
  out_of_fuel, encode_packet, decode_packet, make_packet, build_req_packet, next_seq,
  max_body_length,
}
use asyncmsg.Packet.Decode.Wire.{IsSendable}
use asyncmsg.Packet.Decode.RoundTrip.{IsIntact, IsNoNul, decode_packet-encode_packet}
use asyncmsg.Client.{Client, reset_device_id_if_needed}
use asyncmsg.Rpc.{RpcResult, value, unexpected, Messages, rpc_id, build_request_packet}
use asyncmsg.Rpc.Body.{IsCarried, body_of-serialize}

-- A packet from one host to another: encoded, sent, and decoded at the other end.
unfoldable pub receive : ByteOrder → ℕ → Encoded → Option Packet
receive o generator (frame bytes) = elim (decode_packet o generator bytes []) [
  | packet n p g ↦ some p
  | none_yet n ↦ none
  | overread ↦ none
  | out_of_fuel ↦ none
]
receive o generator assert_failed = none
receive o generator overflow = none

unfoldable pub transmit : ByteOrder → ByteOrder → ℕ → Packet → Option Packet
transmit from to generator p = receive to generator (encode_packet from p)

pub transmit-intact :
    (from to : ByteOrder) (generator : ℕ) (p : Packet)
    → IsSendable p
    → IsIntact p
    → transmit from to generator p ≡ some p
unfolding transmit receive
transmit-intact from to generator p sendable intact =
    let sent = decode_packet-encode_packet from to generator p [] [] [] sendable intact tt in
    let got : decode_packet to generator (sent.0 ++ []) []
        ≡ packet (0 + length sent.0) p generator =
      sent.2 in
    rw (sent.1, receive, sym (append-nil sent.0), got) refl

-- An id that a client is made with to be told from the others: a C string that fits its field.
pub record IsDeviceId (id : List ℕ) : Type 0 where
  pub is_given : is_empty id ≡ false
  pub fits : length id < device_id_size
  pub no_nul : All IsNoNul id

-- What fits a response: a message of at most 16 KiB, or an error code.
abbrev pub FitsResponse : (messages : Messages) → RpcResult (messages.Message) → Type 0
FitsResponse messages (value m) = messages.byte_size_long m ≤ max_body_length
FitsResponse messages (unexpected ec) = (ec ≢ 0) × (ec < 2 ^ 32)

pub FitsResponse-IsCarried :
    (messages : Messages) (result : RpcResult (messages.Message))
    → FitsResponse messages result
    → IsCarried messages result
FitsResponse-IsCarried messages (value m) fits = omega arith
FitsResponse-IsCarried messages (unexpected ec) fits = fits.0

-- The request as the client sends it.
abbrev pub requested :
    (messages : Messages)
    → (ℕ → List ℕ)
    → (List ℕ → ℕ)
    → Client
    → ℕ
    → List ℕ
    → messages.Message
    → Packet
requested messages left hash c generator rpc_name m =
    (reset_device_id_if_needed c
      (build_request_packet messages left hash generator rpc_name m []).0).0

pub requested_lem :
    (messages : Messages) (left : ℕ → List ℕ) (hash : List ℕ → ℕ) (c : Client) (generator : ℕ)
    (rpc_name : List ℕ) (m : messages.Message)
    → messages.byte_size_long m ≤ max_body_length
    → requested messages left hash c generator rpc_name m ≡ record {
      cmd = rpc_id hash rpc_name;
      seq = next_seq generator;
      rsp = false;
      ec = 0;
      device_id = c.device_id;
      body = messages.serialize m;
    }
unfolding reset_device_id_if_needed build_request_packet build_req_packet make_packet
requested_lem messages left hash c generator rpc_name m small =
    ap
      (λ body. record {
        cmd = rpc_id hash rpc_name;
        seq = next_seq generator;
        rsp = false;
        ec = 0;
        device_id = c.device_id;
        body = body;
      })
      (body_of-serialize messages left m (omega arith))
