-- ===== src/Rpc/Body.antt =====
-- rpc_protocol.hpp: what a message or an error code in a packet is parsed to.
use asyncmsg.Base.{ℕ, ◌%◌, ◌^◌, ◌<◌, ◌≡◌, ◌≢◌, refl, ◌∙◌, ap, arith, none, some, List, [], ne→==}
use asyncmsg.Packet.{Packet, make_packet, build_rsp_packet}
use asyncmsg.Rpc.{
  RpcResult, value, unexpected, Messages, body_of, build_response_packet, parse_body,
}

-- A result that a response can carry: a message of a size that an `int` holds, or a code but 0, which says
-- that there is no error.
abbrev pub IsCarried : (messages : Messages) → RpcResult (messages.Message) → Type 0
IsCarried messages (value m) = messages.byte_size_long m < 2 ^ 31
IsCarried messages (unexpected ec) = ec ≢ 0

pub body_of-serialize :
    (messages : Messages) (left : ℕ → List ℕ) (m : messages.Message)
    → messages.byte_size_long m < 2 ^ 31
    → body_of messages left m ≡ messages.serialize m
unfolding body_of
body_of-serialize messages left m small =
    let e : messages.byte_size_long m % 2 ^ 32 ≡ messages.byte_size_long m = omega arith in
    ap (λ size. elim (messages.serialize_to_array m size) [ none ↦ left size | some bytes ↦ bytes ])
      e
    ∙ ap (λ o. elim o [ none ↦ left (messages.byte_size_long m) | some bytes ↦ bytes ])
        (messages.serialize_to_array_lem m (messages.byte_size_long m) (omega arith) small)

pub parse_body-serialize :
    (messages : Messages) (pack : Packet) (m : messages.Message)
    → messages.byte_size_long m < 2 ^ 31
    → pack.ec ≡ 0
    → pack.body ≡ messages.serialize m
    → parse_body messages pack ≡ value m
unfolding parse_body
parse_body-serialize messages pack m small ok e =
    simp (ok, e, messages.parse_from_array-serialize m small) refl

parse_body_error :
    (messages : Messages) (pack : Packet)
    → pack.ec ≢ 0
    → parse_body messages pack ≡ unexpected pack.ec
unfolding parse_body
parse_body_error messages pack bad = rw (ne→== pack.ec 0 bad) refl

-- A response packet is parsed to the result that it was built from.
pub parse_body-build_response_packet :
    (messages : Messages) (left : ℕ → List ℕ) (generator : ℕ) (req : Packet)
    (result : RpcResult (messages.Message))
    → IsCarried messages result
    → parse_body messages (build_response_packet messages left generator req result).0 ≡ result
unfolding build_response_packet build_rsp_packet make_packet
parse_body-build_response_packet messages left generator req (value m) small =
    parse_body-serialize messages _ m small refl (body_of-serialize messages left m small)
parse_body-build_response_packet messages left generator req (unexpected ec) bad =
    parse_body_error messages _ bad

-- A handler's error with the code 0 does not arrive as an error: if an empty body is a message, as it is when
-- all its fields are optional, the caller gets that message.
pub parse_body_no_error :
    (messages : Messages) (left : ℕ → List ℕ) (generator : ℕ) (req : Packet) (m : messages.Message)
    → messages.parse_from_array [] ≡ some m
    → parse_body messages (build_response_packet messages left generator req (unexpected 0)).0
      ≡ value m
unfolding build_response_packet build_rsp_packet make_packet parse_body
parse_body_no_error messages left generator req m e = rw e refl
