-- ===== src/Rpc/Tests.antt =====
-- Calls by name at concrete inputs: messages that are their bytes, and a handler that adds 1 and
-- reports an error for 0.
use asyncmsg.Base.{ℕ, ◌+◌, ◌^◌, ◌≡◌, refl, arith, true, false, Option, some, List, [], ◌∷◌, length}
use asyncmsg.ByteOrder.{little_endian, big_endian}
use asyncmsg.Error.{returned, thrown, invalid_state_error}
use asyncmsg.Packet.{Packet, packet_id}
use asyncmsg.Client.{Client, tcp_client}
use asyncmsg.Rpc.{
  RpcResult, value, unexpected, Messages, build_response_packet, parse_body, sync_round, wait_push,
  serve, call,
}
use asyncmsg.Rpc.Body.{parse_body_no_error}
use asyncmsg.Rpc.Serving.{AreCarried, Responses, serve-Responses}
use asyncmsg.Rpc.Remote.{IsDeviceId, requested, transmit}
use asyncmsg.Lru.{lru}
use asyncmsg.Lru.Exist.{lru-IsValid, contains}
use asyncmsg.Client.{wait_request, on_receive_request, recently_received_request_cap, received}
use asyncmsg.Client.Requests.{IsKept}
use asyncmsg.Rpc.{rpc_id}
use asyncmsg.Rpc.Push.{pushed, wait_push-push}
use asyncmsg.Rpc.RoundTrip.{call-sync_round}

-- Messages that are their bytes.
abbrev bytes_message : Messages
bytes_message = record {
  Message = List ℕ;
  byte_size_long = length;
  serialize = λ m. m;
  serialize_to_array = λ m size. some m;
  parse_from_array = λ bytes. some bytes;
  length-serialize = λ m. refl;
  serialize_to_array_lem = λ m size fits small. refl;
  parse_from_array-serialize = λ m small. refl;
}

abbrev empty_memory : ℕ → List ℕ
empty_memory n = []

abbrev add_one : List ℕ → Option (RpcResult (List ℕ))
add_one [] = some (unexpected 7)
add_one (n ∷ ns) = some (value ((n + 1) ∷ []))

abbrev add_request : Packet
add_request = record { cmd = 2; seq = 5; rsp = false; ec = 0; device_id = 100 ∷ []; body = 41 ∷ [] }

abbrev broken_request : Packet
broken_request = record { cmd = 2; seq = 6; rsp = false; ec = 9; device_id = 100 ∷ []; body = [] }

parse_body_no_error_example :
    parse_body bytes_message
      (build_response_packet bytes_message empty_memory 3 add_request (unexpected 0)).0
    ≡ value []
parse_body_no_error_example = parse_body_no_error bytes_message empty_memory 3 add_request [] refl

add_one-AreCarried :
    (m : List ℕ) → AreCarried bytes_message bytes_message empty_memory add_one (add_one m)
add_one-AreCarried [] = omega arith
add_one-AreCarried (n ∷ ns) = omega arith

serve-Responses_example :
    Responses bytes_message bytes_message empty_memory add_one
      (returned broken_request ∷ returned add_request ∷ thrown invalid_state_error ∷ [])
      (serve bytes_message bytes_message empty_memory add_one 3
        (returned broken_request ∷ returned add_request ∷ thrown invalid_state_error ∷ []))
serve-Responses_example =
    serve-Responses bytes_message bytes_message empty_memory add_one 3
      (returned broken_request ∷ returned add_request ∷ thrown invalid_state_error ∷ [])
      add_one-AreCarried (omega arith, (omega arith, (tt, tt)))

abbrev name : List ℕ
name = 97 ∷ 100 ∷ 100 ∷ []

abbrev hash : List ℕ → ℕ
hash s = 2 ^ 40 + length s

abbrev caller : Client
caller = tcp_client (100 ∷ 49 ∷ [])

caller-IsDeviceId : IsDeviceId caller.device_id
unfolding tcp_client
caller-IsDeviceId = record {
  is_given = refl;
  fits = omega arith;
  no_nul = (omega arith, (omega arith, tt));
}

call-sync_round_example :
    let req = requested bytes_message empty_memory hash caller 6 name (41 ∷ []) in
    (transmit little_endian big_endian 9 req ≡ some req)
    × (rsp : Packet) × ((sync_round bytes_message bytes_message empty_memory add_one 9 req).0
        ≡ some rsp)
    × (transmit big_endian little_endian 7 rsp ≡ some rsp)
    × (rsp.rsp ≡ true)
    × (packet_id rsp ≡ packet_id req)
    × (call bytes_message (returned rsp) ≡ returned (value (42 ∷ [])))
call-sync_round_example =
    call-sync_round bytes_message bytes_message empty_memory hash little_endian big_endian add_one
      caller 6 9 9 7 name (41 ∷ []) (value (42 ∷ [])) (omega arith) caller-IsDeviceId (omega arith)
      refl (omega arith)

caller-IsKept : IsKept caller
unfolding tcp_client lru
caller-IsKept = (lru-IsValid recently_received_request_cap, refl)

wait_push-push_example :
    let req = pushed bytes_message empty_memory hash 6 caller.device_id name (41 ∷ []) in
    let waiting = wait_request caller (rpc_id hash name) 5 in
    let handled = on_receive_request waiting.0 3 caller.device_id req in
    (transmit big_endian little_endian 9 req ≡ some req)
    × (handled.0.0.rsp ≡ true)
    × (packet_id handled.0.0 ≡ packet_id req)
    × ((c' : Client) × (handled.1 ≡ received c' (some (waiting.1, req))))
    × (wait_push bytes_message (req ∷ []) ≡ some (41 ∷ [], []))
unfolding tcp_client lru contains
wait_push-push_example =
    wait_push-push bytes_message empty_memory hash big_endian little_endian caller 6 9 3 5 name
      (41 ∷ []) [] (omega arith) caller-IsDeviceId (omega arith) caller-IsKept refl
