-- ===== src/Examples/Add.antt =====
-- rpc_client.cpp and rpc_server.cpp: the call of "add".
use asyncmsg.Base.{ℕ, ◌+◌, ◌%◌, ◌^◌, ◌<◌, ◌≡◌, ◌↔◌, ◌∙◌, ap, arith, Option, none, some, List}
use asyncmsg.ByteOrder.{ByteOrder}
use asyncmsg.Error.{returned}
use asyncmsg.Packet.{Packet, packet_id}
use asyncmsg.Client.{Client}
use asyncmsg.Rpc.{RpcResult, value, sync_round, call}
use asyncmsg.Rpc.Remote.{transmit, IsDeviceId, requested}
use asyncmsg.Rpc.RoundTrip.{call-sync_round}
use asyncmsg.Examples.{AddMessages, add_int32, add_handler, call_line, call_result}

-- The number that these bits are as an int32, plus 2 ^ 31.
abbrev pub biased : ℕ → ℕ
biased x = (x + 2 ^ 31) % 2 ^ 32

-- The handler's sum is that of the signed numbers, and there is one exactly if it is an int32.
pub add_int32_iff :
    (a b s : ℕ)
    → a < 2 ^ 32
    → b < 2 ^ 32
    → s < 2 ^ 32
    → (add_int32 a b ≡ some s) ↔ (biased a + biased b ≡ biased s + 2 ^ 31)
unfolding add_int32
add_int32_iff a b s ha hb hs = (λ e. ground arith, λ e. ground arith)

module _ (messages : AddMessages) where
  add_handler-value :
      (a b s : ℕ)
      → add_int32 a b ≡ some s
      → add_handler messages (messages.add_req a b) ≡ some (value (messages.add_rsp s))
  unfolding add_handler
  add_handler-value a b s e =
      ap
        (λ sum. elim sum as (λ x. Option (RpcResult (messages.responses.Message))) [
          | none ↦ none
          | some sum ↦ some (value (messages.add_rsp sum))
        ])
        (ap (λ x. add_int32 x (messages.right (messages.add_req a b))) (messages.left-add_req a b)
          ∙ (ap (add_int32 a) (messages.right-add_req a b) ∙ e))

  logged : (s : ℕ) → call_line messages (returned (value (messages.add_rsp s))) ≡ call_result s
  unfolding call_line
  logged s = ap call_result (messages.result-add_rsp s)

  -- A call of "add" from the client's program to the server's: the request and the one response cross the
  -- network as they were sent, the response has the id that the client waits for, and the client logs
  -- the sum of the signed numbers, if that is an int32. The device id is a nonempty C string shorter than 64.
  pub add-called :
      (left : ℕ → List ℕ) (hash : List ℕ → ℕ) (client server : ByteOrder) (c : Client)
      (generator arriving serving returning : ℕ) (rpc_name : List ℕ) (a b s : ℕ)
      → generator < 2 ^ 32
      → IsDeviceId c.device_id
      → a < 2 ^ 32
      → b < 2 ^ 32
      → s < 2 ^ 32
      → biased a + biased b ≡ biased s + 2 ^ 31
      → let req =
          requested messages.requests left hash c generator rpc_name (messages.add_req a b) in
        (transmit client server arriving req ≡ some req)
        × (rsp : Packet) × ((sync_round messages.requests messages.responses left
              (add_handler messages)
              serving
              req).0
            ≡ some rsp)
        × (transmit server client returning rsp ≡ some rsp)
        × (packet_id rsp ≡ packet_id req)
        × (call_line messages (call messages.responses (returned rsp)) ≡ call_result s)
  add-called left hash client server c generator arriving serving returning rpc_name a b s bound id
        ha hb hs sum =
      let called =
        call-sync_round messages.requests messages.responses left hash client server
          (add_handler messages) c generator arriving serving returning rpc_name
          (messages.add_req a b) (value (messages.add_rsp s)) bound id
          (omega (arith, messages.add_req_size a b))
          (add_handler-value a b s ((add_int32_iff a b s ha hb hs).1 sum))
          (omega (arith, messages.add_rsp_size s)) in
      (
        called.0,
        called.1,
        called.2,
        called.3,
        called.5,
        ap (call_line messages) called.6 ∙ logged s,
      )
