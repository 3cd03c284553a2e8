-- ===== src/Rpc/Push.antt =====
-- A push from the server to a client: `push` of rpc_server.hpp and `wait_push` of rpc_client.hpp, with
-- the client's handling of requests between them.
use asyncmsg.Base.{
  ℕ, ◌^◌, ◌≤◌, ◌<◌, ◌≡◌, ◌≢◌, refl, sym, ap, subst, arith, true, false, some, List, ◌∷◌, ne→==,
}
use asyncmsg.ByteOrder.{ByteOrder}
use asyncmsg.Packet.{
  Packet, make_packet, build_rsp_packet, build_req_packet, next_seq, packet_id, max_body_length,
}
use asyncmsg.Packet.Seq.{next_seq_bounds}
use asyncmsg.Lru.Exist.{contains}
use asyncmsg.Client.{Client, received, wait_request, pass_on, on_receive_request}
use asyncmsg.Client.Requests.{IsKept, recent, pass_on_awaited}
use asyncmsg.Rpc.{value, Messages, rpc_id, build_request_packet, parse_body, push, wait_push}
use asyncmsg.Rpc.Body.{body_of-serialize, parse_body-serialize}
use asyncmsg.Rpc.Remote.{transmit, transmit-intact, IsDeviceId}
use asyncmsg.Rpc.RoundTrip.{Crosses, crossing, same-packet_id, rpc_id_bound}

handled_lem :
    (c : Client) (p : Packet) (fresh generator cmd : ℕ)
    → p.cmd ≡ cmd
    → IsKept c
    → contains (recent c) (packet_id p) ≡ false
    → let waiting = wait_request c cmd fresh in
      (c' : Client) × ((on_receive_request waiting.0 generator c.device_id p).1
        ≡ received c' (some (waiting.1, p)))
unfolding on_receive_request
handled_lem c p fresh generator cmd e kept new =
    subst
      (λ k.
        (c' : Client) × (pass_on (wait_request c k fresh).0 p
          ≡ received c' (some ((wait_request c k fresh).1, p))))
      e (pass_on_awaited c p fresh kept new)

module _ (messages : Messages) (left : ℕ → List ℕ) (hash : List ℕ → ℕ) where
  abbrev pub pushed : ℕ → List ℕ → List ℕ → messages.Message → Packet
  pushed generator device_id rpc_name m = (push messages left hash generator device_id rpc_name m).0

  pub push_lem :
      (generator : ℕ) (device_id rpc_name : List ℕ) (m : messages.Message)
      → messages.byte_size_long m ≤ max_body_length
      → pushed generator device_id rpc_name m ≡ record {
        cmd = rpc_id hash rpc_name;
        seq = next_seq generator;
        rsp = false;
        ec = 0;
        device_id = device_id;
        body = messages.serialize m;
      }
  unfolding push build_request_packet build_req_packet make_packet
  push_lem generator device_id rpc_name m small =
      ap
        (λ body. record {
          cmd = rpc_id hash rpc_name;
          seq = next_seq generator;
          rsp = false;
          ec = 0;
          device_id = device_id;
          body = body;
        })
        (body_of-serialize messages left m (omega arith))

  push-Crosses :
      (generator : ℕ) (device_id rpc_name : List ℕ) (m : messages.Message)
      → generator < 2 ^ 32
      → IsDeviceId device_id
      → messages.byte_size_long m ≤ max_body_length
      → Crosses (pushed generator device_id rpc_name m)
  push-Crosses generator device_id rpc_name m bound id small =
      let made = next_seq_bounds generator bound in
      subst Crosses (sym (push_lem generator device_id rpc_name m small)) (
        crossing _ (rpc_id_bound hash rpc_name) made.1 (omega (arith, made.0)) (omega arith) id
          (rw (messages.length-serialize m) small))

  pub wait_push-first :
      (req : Packet) (later : List Packet) (m : messages.Message)
      → parse_body messages req ≡ value m
      → wait_push messages (req ∷ later) ≡ some (m, later)
  unfolding wait_push
  wait_push-first req later m e = rw (e, wait_push) refl

  reply_lem :
      (c : Client) (generator : ℕ) (device_id : List ℕ) (p : Packet)
      → p.seq ≢ 0
      → let reply = (on_receive_request c generator device_id p).0.0 in
        (reply.rsp ≡ true) × (packet_id reply ≡ packet_id p)
  unfolding on_receive_request build_rsp_packet make_packet
  reply_lem c generator device_id p numbered =
      (refl, same-packet_id _ p refl (rw (ne→== p.seq 0 numbered) refl))

  -- A push to a client that waits for it: the packet reaches the client as it was sent, the client
  -- answers it at once with a response of the same id, for which the server waits, and puts it into the
  -- channel that `wait_push` reads, which returns the message. The message is at most 16 KiB, the
  -- device id a nonempty C string shorter than 64, and the packet's id is not among the client's recent
  -- ones.
  pub wait_push-push :
      (server client : ByteOrder) (c : Client) (generator arriving replying fresh : ℕ)
      (rpc_name : List ℕ) (m : messages.Message) (later : List Packet)
      → generator < 2 ^ 32
      → IsDeviceId c.device_id
      → messages.byte_size_long m ≤ max_body_length
      → IsKept c
      → contains (recent c) (packet_id (pushed generator c.device_id rpc_name m)) ≡ false
      → let req = pushed generator c.device_id rpc_name m in
        let waiting = wait_request c (rpc_id hash rpc_name) fresh in
        let handled = on_receive_request waiting.0 replying c.device_id req in
        (transmit server client arriving req ≡ some req)
        × (handled.0.0.rsp ≡ true)
        × (packet_id handled.0.0 ≡ packet_id req)
        × ((c' : Client) × (handled.1 ≡ received c' (some (waiting.1, req))))
        × (wait_push messages (req ∷ later) ≡ some (m, later))
  wait_push-push server client c generator arriving replying fresh rpc_name m later bound id small
        kept new =
      let req = pushed generator c.device_id rpc_name m in
      let waiting = wait_request c (rpc_id hash rpc_name) fresh in
      let e = push_lem generator c.device_id rpc_name m small in
      let crosses = push-Crosses generator c.device_id rpc_name m bound id small in
      let reply = reply_lem waiting.0 replying c.device_id req crosses.1.numbered in
      (
        transmit-intact server client arriving req crosses.0 crosses.1,
        reply.0,
        reply.1,
        handled_lem c req fresh replying (rpc_id hash rpc_name) (ap (λ p. Packet.cmd p) e) kept new,
        wait_push-first req later m (
            parse_body-serialize messages req m (omega arith) (ap (λ p. Packet.ec p) e)
              (ap (λ p. Packet.body p) e)),
      )
