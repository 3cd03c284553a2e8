-- ===== src/Rpc.antt =====
-- asyncmsg/asyncmsg/detail/rpc_protocol.hpp and asyncmsg/asyncmsg/rpc/: calls by name, whose arguments
-- and results are messages of protobuf. A type of messages and the hash of a name are parameters.
pub mod Body
pub mod Serving
pub mod Remote
pub mod RoundTrip
pub mod Push
mod Tests
use asyncmsg.Base.{
  ℕ, zero, suc, ◌+◌, ◌%◌, ◌^◌, ◌≤◌, ◌<◌, ◌≡◌, ◌==◌, Bool, true, false, Option, none, some, List, [],
  ◌∷◌, length, if◌then◌else◌,
}
use asyncmsg.Error.{Error, Result, returned, thrown}
use asyncmsg.Packet.{Packet, build_req_packet, build_rsp_packet}

abbrev pub err_network : ℕ
err_network = 1

abbrev pub err_deserialize : ℕ
err_deserialize = 3

-- `rpc_result<T>`, the library's expected<T, uint32_t>.
pub data RpcResult {ℓ} (A : Type ℓ) : Type ℓ where
  value : A → RpcResult A
  unexpected : ℕ → RpcResult A

-- A class of messages that protobuf generates. `serialize_to_array` writes into memory of so many bytes
-- and returns false, here `none`, if they do not fit; it and `parse_from_array` take an `int`.
pub record Messages : Type 1 where
  pub Message : Type 0
  pub byte_size_long : Message → ℕ
  pub serialize : Message → List ℕ
  pub serialize_to_array : Message → ℕ → Option (List ℕ)
  pub parse_from_array : List ℕ → Option Message
  pub length-serialize : (m : Message) → length (serialize m) ≡ byte_size_long m
  pub serialize_to_array_lem :
      (m : Message) (size : ℕ)
      → byte_size_long m ≤ size
      → size < 2 ^ 31
      → serialize_to_array m size ≡ some (serialize m)
  pub parse_from_array-serialize :
      (m : Message) → byte_size_long m < 2 ^ 31 → parse_from_array (serialize m) ≡ some m

-- `rpc_id`, with the hash of std::string.
unfoldable pub rpc_id : (List ℕ → ℕ) → List ℕ → ℕ
rpc_id hash rpc_name = hash rpc_name % 2 ^ 32

-- The body of a packet with a message: `size` bytes of new memory, which first hold `left size`, and the
-- message written into them.
unfoldable pub body_of : (messages : Messages) → (ℕ → List ℕ) → messages.Message → List ℕ
body_of messages left m =
    let size = messages.byte_size_long m % 2 ^ 32 in
    elim (messages.serialize_to_array m size) [ none ↦ left size | some bytes ↦ bytes ]

-- `build_request_packet`, with the sequence generator of the process.
unfoldable pub build_request_packet :
    (messages : Messages)
    → (ℕ → List ℕ)
    → (List ℕ → ℕ)
    → ℕ
    → List ℕ
    → messages.Message
    → List ℕ
    → Packet × ℕ
build_request_packet messages left hash generator rpc_name m device_id =
    build_req_packet generator (rpc_id hash rpc_name) (body_of messages left m) device_id

unfoldable pub build_response_packet :
    (messages : Messages) → (ℕ → List ℕ) → ℕ → Packet → RpcResult (messages.Message) → Packet × ℕ
build_response_packet messages left generator req (value m) =
    build_rsp_packet generator req.cmd req.seq 0 req.device_id (body_of messages left m)
build_response_packet messages left generator req (unexpected ec) =
    build_rsp_packet generator req.cmd req.seq ec req.device_id []

unfoldable pub parse_body : (messages : Messages) → Packet → RpcResult (messages.Message)
parse_body messages pack =
    if pack.ec == 0
    then elim (messages.parse_from_array pack.body) [
      | none ↦ unexpected err_deserialize
      | some m ↦ value m
    ]
    else unexpected pack.ec

-- `call`, from the end of the client's `send_packet_and_wait_rsp` on; an exception goes through.
unfoldable pub call : (messages : Messages) → Result Packet → Result (RpcResult (messages.Message))
call messages (thrown e) = thrown e
call messages (returned rsp) = returned (parse_body messages rsp)

-- `wait_push` on the requests that the client receives: the message that it returns and the requests after
-- it, or `none` while it still waits.
unfoldable pub wait_push :
    (messages : Messages) → List Packet → Option (messages.Message × List Packet)
wait_push messages [] = none
wait_push messages (req ∷ reqs) = elim (parse_body messages req) [
  | unexpected ec ↦ wait_push messages reqs
  | value m ↦ some (m, reqs)
]

-- `push` up to the server's `send_packet_and_wait_rsp`, whose response it drops.
unfoldable pub push :
    (messages : Messages)
    → (ℕ → List ℕ)
    → (List ℕ → ℕ)
    → ℕ
    → List ℕ
    → List ℕ
    → messages.Message
    → Packet × ℕ
push messages left hash generator device_id rpc_name m =
    build_request_packet messages left hash generator rpc_name m device_id

module _ (requests responses : Messages) (left : ℕ → List ℕ) where
  -- What a handler ends with; `none` is an exception, which the loops catch.
  abbrev pub Answer : Type 0
  Answer = Option (RpcResult (responses.Message))

  -- The rest of a round after the handler: the packet for `send_packet`, and the generator.
  unfoldable pub respond : ℕ → Packet → Answer → Option Packet × ℕ
  respond generator req none = (none, generator)
  respond generator req (some result) =
      let rsp = build_response_packet responses left generator req result in (some rsp.0, rsp.1)

  -- A round of `register_sync_handler`.
  unfoldable pub sync_round : (requests.Message → Answer) → ℕ → Packet → Option Packet × ℕ
  sync_round handler generator req = elim (parse_body requests req) [
    | unexpected ec ↦ (none, generator)
    | value m ↦ respond generator req (handler m)
  ]

  -- A round of `register_async_handler` up to its wait: the message that the handler is called with. When
  -- the handler ends, `respond` is the rest of the round.
  unfoldable pub async_begin : Packet → Option (requests.Message)
  async_begin req = elim (parse_body requests req) [ unexpected ec ↦ none | value m ↦ some m ]

  unfoldable pub async_round : ℕ → Packet → (requests.Message → ℕ × Answer) → Option Packet × ℕ
  async_round generator req handler = elim (async_begin req) [
    | none ↦ (none, generator)
    | some m ↦ (let ended = handler m in respond ended.0 req ended.1)
  ]

  -- The loop of `register_sync_handler` on what `wait_request` ends with: the packets it sends. An
  -- exception of `wait_request` ends the loop.
  unfoldable pub serve : (requests.Message → Answer) → ℕ → List (Result Packet) → List Packet
  serve handler generator [] = []
  serve handler generator (thrown e ∷ reqs) = []
  serve handler generator (returned req ∷ reqs) =
      let round = sync_round handler generator req in
      let rest = serve handler round.1 reqs in elim round.0 [ none ↦ rest | some rsp ↦ rsp ∷ rest ]
