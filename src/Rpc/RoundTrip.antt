-- ===== src/Rpc/RoundTrip.antt =====
-- A call from a client to a handler on the server and back: rpc_protocol.hpp, rpc_client.hpp and
-- rpc_server.hpp over the frames of packet.hpp.
use asyncmsg.Base.{
  ℕ, ◌^◌, ◌≤◌, ◌<◌, ◌≡◌, ◌≢◌, refl, sym, ◌∙◌, ap, subst, arith, true, Option, some, List, length,
  ne→==,
}
use asyncmsg.ByteOrder.{ByteOrder}
use asyncmsg.Error.{returned}
use asyncmsg.Packet.{Packet, make_packet, build_rsp_packet, packet_id, max_body_length}
use asyncmsg.Packet.Seq.{next_seq_bounds}
use asyncmsg.Packet.Decode.Wire.{IsSendable}
use asyncmsg.Packet.Decode.RoundTrip.{IsIntact}
use asyncmsg.Client.{Client}
use asyncmsg.Rpc.{
  RpcResult, value, unexpected, Messages, rpc_id, body_of, build_response_packet, parse_body,
  sync_round, respond, call,
}
use asyncmsg.Rpc.Body.{body_of-serialize, parse_body-serialize}
use asyncmsg.Rpc.Serving.{outcome, sync_round-respond, build_response_packet-IsResponse}
use asyncmsg.Rpc.Remote.{
  transmit, transmit-intact, IsDeviceId, FitsResponse, FitsResponse-IsCarried, requested,
  requested_lem,
}

-- What crosses the network unchanged.
abbrev pub Crosses : Packet → Type 0
Crosses p = IsSendable p × IsIntact p

pub crossing :
    (p : Packet)
    → p.cmd < 2 ^ 32
    → p.seq < 2 ^ 32
    → p.seq ≢ 0
    → p.ec < 2 ^ 32
    → IsDeviceId p.device_id
    → length p.body ≤ max_body_length
    → Crosses p
crossing p cmd seq numbered ec id body = (
  record {
    encodable = record {
      cmd_fits = cmd;
      seq_fits = seq;
      ec_fits = ec;
      id_fits = id.fits;
      body_fits = omega arith;
    };
    body_small = body;
  },
  record { numbered = numbered; no_nul = id.no_nul },
)

pub same-packet_id : (p q : Packet) → p.cmd ≡ q.cmd → p.seq ≡ q.seq → packet_id p ≡ packet_id q
unfolding packet_id
same-packet_id p q cmd seq = rw (cmd, seq) refl

pub rpc_id_bound : (hash : List ℕ → ℕ) (rpc_name : List ℕ) → rpc_id hash rpc_name < 2 ^ 32
unfolding rpc_id
rpc_id_bound hash rpc_name = omega arith

module _ (messages : Messages) (left : ℕ → List ℕ) where
  length-body_of :
      (m : messages.Message)
      → messages.byte_size_long m ≤ max_body_length
      → length (body_of messages left m) ≤ max_body_length
  length-body_of m small =
      let e = body_of-serialize messages left m (omega arith) in
      rw (e, messages.length-serialize m) small

  build_response_packet-Crosses :
      (generator : ℕ) (req : Packet) (result : RpcResult (messages.Message))
      → req.cmd < 2 ^ 32
      → req.seq < 2 ^ 32
      → req.seq ≢ 0
      → IsDeviceId req.device_id
      → FitsResponse messages result
      → Crosses (build_response_packet messages left generator req result).0
  unfolding build_response_packet build_rsp_packet make_packet
  build_response_packet-Crosses generator req (value m) cmd seq numbered id fits =
      let e = ne→== req.seq 0 numbered in
      crossing _ cmd (rw e seq) (rw e numbered) (omega arith) id (length-body_of m fits)
  build_response_packet-Crosses generator req (unexpected ec) cmd seq numbered id fits =
      let e = ne→== req.seq 0 numbered in
      crossing _ cmd (rw e seq) (rw e numbered) fits.1 id (omega arith)

module _ (requests responses : Messages) (left : ℕ → List ℕ) (hash : List ℕ → ℕ)
    (client server : ByteOrder) where
  requested-Crosses :
      (c : Client) (generator : ℕ) (rpc_name : List ℕ) (m : requests.Message)
      → generator < 2 ^ 32
      → IsDeviceId c.device_id
      → requests.byte_size_long m ≤ max_body_length
      → Crosses (requested requests left hash c generator rpc_name m)
  requested-Crosses c generator rpc_name m bound id small =
      let made = next_seq_bounds generator bound in
      subst Crosses (sym (requested_lem requests left hash c generator rpc_name m small)) (
        crossing _ (rpc_id_bound hash rpc_name) made.1 (omega (arith, made.0)) (omega arith) id
          (rw (requests.length-serialize m) small))

  abbrev request : Client → ℕ → List ℕ → requests.Message → Packet
  request c generator rpc_name m = requested requests left hash c generator rpc_name m

  requested-fields :
      (c : Client) (generator : ℕ) (rpc_name : List ℕ) (m : requests.Message)
      → generator < 2 ^ 32
      → IsDeviceId c.device_id
      → requests.byte_size_long m ≤ max_body_length
      → ((request c generator rpc_name m).cmd < 2 ^ 32)
        × ((request c generator rpc_name m).seq < 2 ^ 32)
        × ((request c generator rpc_name m).seq ≢ 0)
        × IsDeviceId ((request c generator rpc_name m).device_id)
        × (parse_body requests (request c generator rpc_name m) ≡ value m)
  requested-fields c generator rpc_name m bound id small =
      let crosses = requested-Crosses c generator rpc_name m bound id small in
      let e = requested_lem requests left hash c generator rpc_name m small in
      (
        crosses.0.encodable.cmd_fits,
        crosses.0.encodable.seq_fits,
        crosses.1.numbered,
        subst (λ p. IsDeviceId (Packet.device_id p)) (sym e) id,
        parse_body-serialize requests _ m (omega arith) (ap (λ p. Packet.ec p) e)
            (ap (λ p. Packet.body p) e),
      )

  sync_round-request :
      (handler : requests.Message → Option (RpcResult (responses.Message))) (generator : ℕ)
      (req : Packet) (m : requests.Message) (result : RpcResult (responses.Message))
      → parse_body requests req ≡ value m
      → handler m ≡ some result
      → (sync_round requests responses left handler generator req).0
        ≡ some (build_response_packet responses left generator req result).0
  unfolding respond
  sync_round-request handler generator req m result parsed handled =
      ap (λ (round : Option Packet × ℕ). round.0)
        (sync_round-respond requests responses left handler generator req
          ∙ ap (respond requests responses left generator req)
              (ap (outcome requests responses left handler) parsed ∙ handled))

  -- A call by name, from end to end: the client's request reaches the server as it was sent, the
  -- handling loop answers it with one packet, this packet reaches the client as it was sent, it is a
  -- response with the id that the client waits for, and `call` returns exactly the handler's result.
  -- The messages are at most 16 KiB, an error code is not 0, the client's device id is a nonempty C
  -- string shorter than 64, and the handler does not throw. The hosts may differ in byte order.
  pub call-sync_round :
      (handler : requests.Message → Option (RpcResult (responses.Message))) (c : Client)
      (generator arriving serving returning : ℕ) (rpc_name : List ℕ) (m : requests.Message)
      (result : RpcResult (responses.Message))
      → generator < 2 ^ 32
      → IsDeviceId c.device_id
      → requests.byte_size_long m ≤ max_body_length
      → handler m ≡ some result
      → FitsResponse responses result
      → let req = requested requests left hash c generator rpc_name m in
        (transmit client server arriving req ≡ some req)
        × (rsp : Packet) × ((sync_round requests responses left handler serving req).0 ≡ some rsp)
        × (transmit server client returning rsp ≡ some rsp)
        × (rsp.rsp ≡ true)
        × (packet_id rsp ≡ packet_id req)
        × (call responses (returned rsp) ≡ returned result)
  unfolding call
  call-sync_round handler c generator arriving serving returning rpc_name m result bound id small
        handled fits =
      let req = requested requests left hash c generator rpc_name m in
      let there = requested-Crosses c generator rpc_name m bound id small in
      let fields = requested-fields c generator rpc_name m bound id small in
      let rsp = (build_response_packet responses left serving req result).0 in
      let back =
        build_response_packet-Crosses responses left serving req result fields.0 fields.1 fields.2
          fields.3 fits in
      let answer =
        build_response_packet-IsResponse responses left serving req result
          (FitsResponse-IsCarried responses result fits) fields.2 in
      (
        transmit-intact client server arriving req there.0 there.1,
        rsp,
        sync_round-request handler serving req m result fields.4 handled,
        transmit-intact server client returning rsp back.0 back.1,
        answer.is_response,
        same-packet_id rsp req answer.cmd answer.seq,
        ap returned answer.parsed,
      )
