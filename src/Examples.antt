-- ===== src/Examples.antt =====
-- examples/: the four programs that show the library, tcp_client.cpp and tcp_server.cpp, rpc_client.cpp
-- and rpc_server.cpp. Signals and timers only start and end their loops. A log is the list of its
-- lines, without the fixed texts in front of what a line tells.
pub mod HelloWorld
pub mod Add
pub mod Device
pub mod Pushes
mod Tests
use asyncmsg.Base.{
  ◌≤◌, ◌≡◌, ℕ, zero, suc, ◌+◌, ◌-◌, ◌*◌, ◌/◌, ◌%◌, ◌^◌, ◌==◌, Bool, true, false, Option, none, some,
  List, [], ◌∷◌, ltb, leb, if◌then◌else◌, is_empty,
}
use asyncmsg.Error.{Error, Message, what, Result, returned, thrown}
use asyncmsg.Packet.{Packet, build_req_packet, build_rsp_packet}
use asyncmsg.Server.{copies, send_packet_and_wait_rsp, Server, send_packet}
use asyncmsg.Text.{random_string}
use asyncmsg.Rpc.{
  build_request_packet, Messages, RpcResult, value, unexpected, call, push, wait_push,
}

-- `(argc == 1) ? random_string(32) : argv[1]`; `none` is a read past the end of `argv`.
unfoldable pub client_device_id : List (List ℕ) → (ℕ → ℕ) → Option (List ℕ)
client_device_id [] draw = none
client_device_id (program ∷ []) draw = some (random_string 32 draw)
client_device_id (program ∷ argument ∷ arguments) draw = some argument

-- `(argc == 1) ? "" : argv[1]`.
unfoldable pub push_device_id : List (List ℕ) → Option (List ℕ)
push_device_id [] = none
push_device_id (program ∷ []) = some []
push_device_id (program ∷ argument ∷ arguments) = some argument

-- "hello" and "world", each with its NUL.
abbrev pub hello : List ℕ
hello = 104 ∷ 101 ∷ 108 ∷ 108 ∷ 111 ∷ 0 ∷ []

abbrev pub world : List ℕ
world = 119 ∷ 111 ∷ 114 ∷ 108 ∷ 100 ∷ 0 ∷ []

-- The string that `(char*)(body().data())` points to; `none` is a read past the body, or through the
-- null pointer of an empty one.
unfoldable pub text_at : List ℕ → Option (List ℕ)
text_at [] = none
text_at (c ∷ cs) =
    let rest = text_at cs in
    if c == 0 then some [] else elim rest [ none ↦ none | some text ↦ some (c ∷ text) ]

-- The lines of the programs' logs.
pub data Line : Type 0 where
  send_req recv_rsp recv_req recv_push : List ℕ → Line
  call_error call_result : ℕ → Line
  call_exception push_exception : Message → Line

-- tcp_server.cpp, a round on a request: the line, the packet to send, and the generator; `none` as for
-- `text_at`.
unfoldable pub serve_round : ℕ → Packet → Option (Line × Packet × ℕ)
serve_round generator req_pack = elim (text_at req_pack.body) [
  | none ↦ none
  | some data_ ↦
      (let rsp_pack =
          build_rsp_packet generator req_pack.cmd req_pack.seq 0 req_pack.device_id world in
        some (recv_req data_, rsp_pack.0, rsp_pack.1))
]

-- The loop, on how each wait for a request ends and the server at the time of the reply: the lines, and
-- the replies with the connections that they are written to. An exception ends it.
unfoldable pub serve_task :
    ℕ → List (Result Packet × Server) → Option (List (Line × Packet × Option ℕ))
serve_task generator [] = some []
serve_task generator ((thrown e, server) ∷ later) = some []
serve_task generator ((returned req_pack, server) ∷ later) = elim (serve_round generator req_pack) [
  | none ↦ none
  | some round ↦
      (let rest = serve_task round.2 later in
        elim (send_packet server round.1) [
          | thrown e ↦ some ((round.0, round.1, none) ∷ [])
          | returned conn ↦ elim rest [
            | none ↦ none
            | some sent ↦ some ((round.0, round.1, conn) ∷ sent)
          ]
        ])
]

-- tcp_client.cpp, a round: its request with the generator, and the line before it; and the line after
-- the response.
unfoldable pub hello_request : ℕ → (Packet × ℕ) × Line
hello_request generator =
    (build_req_packet generator 1 hello [], send_req (104 ∷ 101 ∷ 108 ∷ 108 ∷ 111 ∷ []))

unfoldable pub hello_response : Packet → Option Line
hello_response rsp = elim (text_at rsp.body) [ none ↦ none | some data_ ↦ some (recv_rsp data_) ]

-- A round of the task: the lines, and whether the task goes on; `wait` is how the client's
-- `send_packet_and_wait_rsp` ends.
unfoldable pub hello_round : ℕ → (Packet → Result Packet) → Option (List Line × Bool)
hello_round generator wait =
    let req = hello_request generator in
    elim (wait req.0.0) [
      | thrown e ↦ some (req.1 ∷ [], false)
      | returned rsp ↦ elim (hello_response rsp) [
        | none ↦ none
        | some line ↦ some (req.1 ∷ line ∷ [], true)
      ]
    ]

-- `detail::default_tries`.
abbrev pub default_tries : ℕ
default_tries = 3

-- The generated messages `add_req` and `add_rsp`: an int32 is its bits, and takes at most ten bytes and a tag.
pub record AddMessages : Type 1 where
  pub requests : Messages
  pub responses : Messages
  pub add_req : ℕ → ℕ → requests.Message
  pub add_rsp : ℕ → responses.Message
  pub left : requests.Message → ℕ
  pub right : requests.Message → ℕ
  pub result : responses.Message → ℕ
  pub left-add_req : (a b : ℕ) → left (add_req a b) ≡ a
  pub right-add_req : (a b : ℕ) → right (add_req a b) ≡ b
  pub result-add_rsp : (a : ℕ) → result (add_rsp a) ≡ a
  pub add_req_size : (a b : ℕ) → requests.byte_size_long (add_req a b) ≤ 22
  pub add_rsp_size : (a : ℕ) → responses.byte_size_long (add_rsp a) ≤ 11

-- The sum of two int32, on their bits; `none` is an overflow, which is undefined.
unfoldable pub add_int32 : ℕ → ℕ → Option ℕ
add_int32 a b =
    let sum = (a + b) % 2 ^ 32 in
    if ltb a (2 ^ 31)
    then (if ltb b (2 ^ 31) then (if ltb sum (2 ^ 31) then some sum else none) else some sum)
    else (if ltb b (2 ^ 31) then some sum else if ltb sum (2 ^ 31) then none else some sum)

-- The handlers of rpc_server.cpp, of "add" and of "async_add", which are the same; `none` is an overflow.
unfoldable pub add_handler :
    (messages : AddMessages)
    → messages.requests.Message
    → Option (RpcResult (messages.responses.Message))
add_handler messages req = elim (add_int32 (messages.left req) (messages.right req)) [
  | none ↦ none
  | some sum ↦ some (value (messages.add_rsp sum))
]

-- rpc_client.cpp, a round of `call_task` after the call: the line.
unfoldable pub call_line :
    (messages : AddMessages) → Result (RpcResult (messages.responses.Message)) → Line
call_line messages (thrown e) = call_exception (what e)
call_line messages (returned (unexpected ec)) = call_error ec
call_line messages (returned (value rsp)) = call_result (messages.result rsp)

-- "add".
abbrev pub add_name : List ℕ
add_name = 97 ∷ 100 ∷ 100 ∷ []

-- A round of `call_task`: the request with the generator, and the line; `wait` is as for `hello_round`.
unfoldable pub call_round :
    (messages : AddMessages)
    → (ℕ → List ℕ)
    → (List ℕ → ℕ)
    → ℕ
    → (Packet → Result Packet)
    → (Packet × ℕ) × Line
call_round messages left hash generator wait =
    let req =
      build_request_packet messages.requests left hash generator add_name (messages.add_req 1 2)
        [] in
    (req, call_line messages (call messages.responses (wait req.0)))

-- The generated message `hello_push`.
pub record HelloMessages : Type 1 where
  pub pushes : Messages
  pub hello_push : List ℕ → pushes.Message
  pub hello : pushes.Message → List ℕ
  pub hello-hello_push : (text : List ℕ) → hello (hello_push text) ≡ text

-- "hello_push" and "this is a rpc push".
abbrev pub push_name : List ℕ
push_name = 104 ∷ 101 ∷ 108 ∷ 108 ∷ 111 ∷ 95 ∷ 112 ∷ 117 ∷ 115 ∷ 104 ∷ []

abbrev pub push_text : List ℕ
push_text =
    116 ∷ 104 ∷ 105 ∷ 115 ∷ 32 ∷ 105 ∷ 115 ∷ 32 ∷ 97 ∷ 32 ∷ 114 ∷ 112 ∷ 99 ∷ 32 ∷ 112 ∷ 117 ∷ 115
    ∷ 104 ∷ []

-- A packet that is pushed, the connections to which it is written, once for each copy, and the line.
abbrev pub Round : Type 0
Round = Packet × List ℕ × Option Line

-- rpc_server.cpp, a round of the task that pushes: `none` if it ends at once, else what it does, with a line if
-- `push` throws, and the generator. `server`, `writes` and `answer` are as for `send_packet_and_wait_rsp`.
unfoldable pub push_round :
    (messages : HelloMessages)
    → (ℕ → List ℕ)
    → (List ℕ → ℕ)
    → ℕ
    → List ℕ
    → (ℕ → Server)
    → (ℕ → ℕ → Bool)
    → (ℕ → ℕ → Option Packet)
    → Option (Round × ℕ)
push_round messages left hash generator device_id server writes answer =
    let req =
      push messages.pushes left hash generator device_id push_name
        (messages.hello_push push_text) in
    if is_empty device_id
    then none
    else some (
      (
        req.0,
        copies default_tries server writes answer req.0,
        elim (send_packet_and_wait_rsp default_tries server answer req.0) [
          | thrown e ↦ some (push_exception (what e))
          | returned rsp ↦ none
        ],
      ),
      req.1,
    )

-- rpc_client.cpp, a round of `push_task`, on the requests received: the line, and the requests after
-- it; `none` while it waits.
unfoldable pub push_line : (messages : HelloMessages) → List Packet → Option (Line × List Packet)
push_line messages reqs = elim (wait_push messages.pushes reqs) [
  | none ↦ none
  | some got ↦ some (recv_push (messages.hello got.0), got.1)
]

-- rpc_server.cpp, so many rounds of the task that pushes. In the round before the last `n` the server, its writes
-- and the answers are `server n`, `writes n` and `answer n`.
unfoldable pub push_task :
    (messages : HelloMessages)
    → (ℕ → List ℕ)
    → (List ℕ → ℕ)
    → ℕ
    → ℕ
    → List ℕ
    → (ℕ → ℕ → Server)
    → (ℕ → ℕ → ℕ → Bool)
    → (ℕ → ℕ → ℕ → Option Packet)
    → List Round
push_task messages left hash zero generator device_id server writes answer = []
push_task messages left hash (suc n) generator device_id server writes answer =
    elim (push_round messages left hash generator device_id (server n) (writes n) (answer n)) [
      | none ↦ []
      | some round ↦ round.0 ∷ push_task messages left hash n round.1 device_id server writes answer
    ]

-- rpc_client.cpp, at most so many rounds of `push_task` on the requests received: the lines.
unfoldable pub push_lines : (messages : HelloMessages) → ℕ → List Packet → List Line
push_lines messages zero reqs = []
push_lines messages (suc n) reqs = elim (push_line messages reqs) [
  | none ↦ []
  | some got ↦ got.0 ∷ push_lines messages n got.1
]
