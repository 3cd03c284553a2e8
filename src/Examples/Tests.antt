-- ===== src/Examples/Tests.antt =====
-- The programs at concrete inputs.
use asyncmsg.Base.{true}
use asyncmsg.Client.Inbox.{Inbox}
use asyncmsg.Examples.{push, copies, push_task, Round, HelloMessages}
use asyncmsg.Server.{copies, copies_loop}
use asyncmsg.Rpc.{push}
use asyncmsg.Rpc.{sync_round}
use asyncmsg.Base.{
  length, Option, ℕ, List, ◌≡◌, refl, arith, none, some, [], ◌∷◌, same, if◌then◌else◌,
}
use asyncmsg.ByteOrder.{little_endian, big_endian}
use asyncmsg.Error.{returned}
use asyncmsg.Packet.{Packet, packet_id}
use asyncmsg.Client.{Client, tcp_client}
use asyncmsg.Server.{copies_loop, Server, tcp_server}
use asyncmsg.Rpc.Remote.{requested, transmit, IsDeviceId}
use asyncmsg.Examples.{call_result, call, call_line, add_handler, AddMessages}
use asyncmsg.Base.{length}
use asyncmsg.Examples.Add.{add-called}

abbrev caller : Client
caller = tcp_client (100 ∷ 49 ∷ [])

abbrev serving : Server
serving = record tcp_server {
  connection_map = λ device_id. if same device_id (100 ∷ 49 ∷ []) then some 8 else none;
}

caller-IsDeviceId : IsDeviceId caller.device_id
unfolding tcp_client
caller-IsDeviceId = record {
  is_given = refl;
  fits = omega arith;
  no_nul = (omega arith, (omega arith, tt));
}

-- Messages that keep each number in one place.
abbrev parse_two : List ℕ → Option (ℕ × ℕ)
parse_two [] = none
parse_two (a ∷ []) = none
parse_two (a ∷ b ∷ []) = some (a, b)
parse_two (a ∷ b ∷ c ∷ rest) = none

abbrev parse_one : List ℕ → Option ℕ
parse_one [] = none
parse_one (a ∷ []) = some a
parse_one (a ∷ b ∷ rest) = none

abbrev plain : AddMessages
plain = record {
  requests = record {
    Message = ℕ × ℕ;
    byte_size_long = λ m. 2;
    serialize = λ m. m.0 ∷ m.1 ∷ [];
    serialize_to_array = λ m size. some (m.0 ∷ m.1 ∷ []);
    parse_from_array = parse_two;
    length-serialize = λ m. refl;
    serialize_to_array_lem = λ m size fits small. refl;
    parse_from_array-serialize = λ m small. refl;
  };
  responses = record {
    Message = ℕ;
    byte_size_long = λ m. 1;
    serialize = λ m. m ∷ [];
    serialize_to_array = λ m size. some (m ∷ []);
    parse_from_array = parse_one;
    length-serialize = λ m. refl;
    serialize_to_array_lem = λ m size fits small. refl;
    parse_from_array-serialize = λ m small. refl;
  };
  add_req = λ a b. (a, b);
  add_rsp = λ a. a;
  left = λ m. m.0;
  right = λ m. m.1;
  result = λ m. m;
  left-add_req = λ a b. refl;
  right-add_req = λ a b. refl;
  result-add_rsp = λ a. refl;
  add_req_size = λ a b. omega arith;
  add_rsp_size = λ a. omega arith;
}

abbrev no_memory : ℕ → List ℕ
no_memory n = []

-- "add".
abbrev name : List ℕ
name = 97 ∷ 100 ∷ 100 ∷ []

add-called_example :
    let req = requested plain.requests no_memory length caller 6 name (1, 2) in
    (transmit little_endian big_endian 9 req ≡ some req)
    × (rsp : Packet) × ((sync_round plain.requests plain.responses no_memory
          (add_handler plain)
          9
          req).0
        ≡ some rsp)
    × (transmit big_endian little_endian 7 rsp ≡ some rsp)
    × (packet_id rsp ≡ packet_id req)
    × (call_line plain (call plain.responses (returned rsp)) ≡ call_result 3)
add-called_example =
    add-called plain no_memory length little_endian big_endian caller 6 9 9 7 name 1 2 3
      (omega arith) caller-IsDeviceId (omega arith) (omega arith) (omega arith) refl

-- Pushes that are their text.
abbrev texts : HelloMessages
texts = record {
  pushes = record {
    Message = List ℕ;
    byte_size_long = length;
    serialize = λ m. m;
    serialize_to_array = λ m size. some m;
    parse_from_array = λ bytes. some bytes;
    length-serialize = λ m. refl;
    serialize_to_array_lem = λ m size fits small. refl;
    parse_from_array-serialize = λ m small. refl;
  };
  hello_push = λ text. text;
  hello = λ m. m;
  hello-hello_push = λ text. refl;
}

-- Five rounds without an answer.
abbrev five_pushes : List Round
five_pushes =
    push_task texts (λ n. []) length 5 7 (100 ∷ 49 ∷ []) (λ i j. serving) (λ i j conn. true)
      (λ i j conn. none)
