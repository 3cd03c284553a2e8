-- ===== src/Server/Traffic/Stream.antt =====
-- tcp_server.hpp and connection.hpp together: from the bytes of a device to what the server does with
-- its packets.
use asyncmsg.Base.{
  length, arith, subst, Bool, ◌<◌, ◌≤◌, ℕ, suc, ◌≡◌, ◌≢◌, refl, sym, ap, ◌∙◌, true, false, Option,
  none, some, List, [], ◌∷◌, ◌++◌, append_assoc, append-nil, All, ◌==◌, ne→==, is_empty,
  if◌then◌else◌,
}
use asyncmsg.ByteOrder.{ByteOrder}
use asyncmsg.IoBuffer.Contents.{contents}
use asyncmsg.Packet.{Packet, packet_id, build_rsp_packet, make_packet}
use asyncmsg.Connection.{
  Connection, Event, receive_request, Handled, handled, refused, handle_packet, deliver, Receiver,
  Outcome, finished, read_past, no_fuel,
}
use asyncmsg.Connection
use asyncmsg.Connection.Total.{IsReady}
use asyncmsg.Connection.Stream.{IsGood, frames, Progress, progress, handle_packets}
use asyncmsg.Connection.Request.{handle_packet_own}
use asyncmsg.Connection.Chunks.{receive_stream}
use asyncmsg.Connection.Chunks.Delivery.{IsReceived, receive_stream-IsReceived}
use asyncmsg.Server.{
  Server, Action, send_packet_detach, try_send, heartbeat_cmd, on_receive_request,
}
use asyncmsg.Server.Traffic.{Traffic, call_back, call_backs}

-- The reply to a heartbeat.
abbrev pub heartbeat_reply : Packet → Packet
heartbeat_reply p = record {
  cmd = p.cmd;
  seq = p.seq;
  rsp = true;
  ec = 0;
  device_id = p.device_id;
  body = [];
}

-- To whom a packet goes, if to anybody.
abbrev pub to_channel : Option ℕ → Packet → List Action
to_channel none p = []
to_channel (some channel) p = try_send channel p ∷ []

-- What a server should do with a packet of a device that it knows: a response goes to the request that
-- waits for it, a heartbeat is answered, and any other request goes to those who wait for its command.
unfoldable pub reaction : (ℕ → Option ℕ) → Server → ℕ → Packet → List Action
reaction requests s conn p =
    if p.rsp
    then to_channel (requests (packet_id p)) p
    else if p.cmd == heartbeat_cmd
    then send_packet_detach conn (heartbeat_reply p) ∷ []
    else to_channel (s.received_request_channels p.cmd) p

abbrev pub reactions : (ℕ → Option ℕ) → Server → ℕ → List Packet → List Action
reactions requests s conn [] = []
reactions requests s conn (p ∷ ps) = reaction requests s conn p ++ reactions requests s conn ps

-- The packets of one device.
abbrev pub IsOf : List ℕ → Packet → Type 0
IsOf id p = p.device_id ≡ id

abbrev delivered : Connection → List Packet → List Event
delivered c [] = []
delivered c (p ∷ ps) = deliver c p ++ delivered c ps

delivered-later :
    (c : Connection) (now : ℕ) (ps : List Packet)
    → delivered (record c { last_recv_time = now }) ps ≡ delivered c ps
unfolding deliver
delivered-later c now [] = refl
delivered-later c now (p ∷ ps) = ap (λ t. deliver c p ++ t) (delivered-later c now ps)

-- A connection that knows its device takes all the packets of this device.
handle_packets-delivered :
    (clock : ℕ → ℕ) (v : Progress) (ps : List Packet)
    → is_empty v.conn.device_id ≡ false
    → All (IsOf v.conn.device_id) ps
    → (v' : Progress) × (handle_packets clock v ps ≡ (v', true))
      × (v'.events ≡ v.events ++ delivered v.conn ps)
unfolding handle_packets
handle_packets-delivered clock v [] known own = (v, refl, sym (append-nil v.events))
handle_packets-delivered clock v (p ∷ ps) known own =
    let now = clock v.round in
    let c = record v.conn { last_recv_time = now } in
    let v1 : Progress = record {
      conn = c;
      events = v.events ++ deliver v.conn p;
      round = suc v.round;
    } in
    let one = handle_packet_own now v.conn p (ap is_empty own.0 ∙ known) own.0 in
    let rest = handle_packets-delivered clock v1 ps known own.1 in
    (
      rest.0,
      ap
            (λ (h : Handled). elim h [
              | handled conn events ↦
                  handle_packets clock
                    (record { conn = conn; events = v.events ++ events; round = suc v.round }) ps
              | refused ↦ (record v { round = suc v.round }, false)
            ])
            one
          ∙ rest.1,
      rest.2
          ∙ (append_assoc v.events (deliver v.conn p) (delivered c ps)
              ∙ ap (λ t. v.events ++ (deliver v.conn p ++ t)) (delivered-later v.conn now ps)),
    )

-- The reply to a numbered packet takes no new number.
build_rsp_packet_numbered :
    (generator : ℕ) (p : Packet)
    → p.seq ≢ 0
    → build_rsp_packet generator p.cmd p.seq 0 p.device_id [] ≡ (heartbeat_reply p, generator)
unfolding build_rsp_packet make_packet
build_rsp_packet_numbered generator p numbered = rw (ne→== p.seq 0 numbered) refl

call_backs-append :
    (conn : ℕ) (t : Traffic) (xs ys : List Event)
    → call_backs conn t (xs ++ ys) ≡ call_backs conn (call_backs conn t xs) ys
call_backs-append conn t [] ys = refl
call_backs-append conn t (x ∷ xs) ys = call_backs-append conn (call_back conn t x) xs ys

-- The callback of a request.
request-to_channel :
    (conn generator : ℕ) (p : Packet) (beat : Bool) (o : Option ℕ) (reply : Packet × ℕ)
    → reply ≡ (heartbeat_reply p, generator)
    → ◌≡◌ {A = ℕ × List Action}
        (if beat
          then (reply.1, send_packet_detach conn reply.0 ∷ [])
          else (generator, elim o [ none ↦ [] | some channel ↦ try_send channel p ∷ [] ]))
        (
          generator,
          if beat then send_packet_detach conn (heartbeat_reply p) ∷ [] else to_channel o p,
        )
request-to_channel conn generator p true o reply e =
    ap (λ (r : Packet × ℕ). (r.1, send_packet_detach conn r.0 ∷ [])) e
request-to_channel conn generator p false none reply e = refl
request-to_channel conn generator p false (some channel) reply e = refl

on_receive_request-numbered :
    (s : Server) (generator conn : ℕ) (p : Packet)
    → p.seq ≢ 0
    → on_receive_request s generator conn p ≡ (
      generator,
      if p.cmd == heartbeat_cmd
          then send_packet_detach conn (heartbeat_reply p) ∷ []
          else to_channel (s.received_request_channels p.cmd) p,
    )
unfolding on_receive_request
on_receive_request-numbered s generator conn p numbered =
    request-to_channel conn generator p (p.cmd == heartbeat_cmd) (s.received_request_channels p.cmd)
      (build_rsp_packet generator p.cmd p.seq 0 p.device_id [])
      (build_rsp_packet_numbered generator p numbered)

-- The event of a packet, by its kind.
call_backs-kind :
    (conn : ℕ) (t : Traffic) (id : List ℕ) (p : Packet) (o : Option ℕ) (rsp : Bool)
    (other : List Action)
    → on_receive_request t.host.server t.generator conn p ≡ (t.generator, other)
    → call_backs conn t (
        if rsp
        then elim o [ none ↦ [] | some channel ↦ Connection.try_send channel p ∷ [] ]
        else receive_request id p ∷ [])
      ≡ record t { actions = t.actions ++ (if rsp then to_channel o p else other) }
unfolding call_back
call_backs-kind conn t id p none true other e =
    ap (λ xs. record t { actions = xs }) (sym (append-nil t.actions))
call_backs-kind conn t id p (some channel) true other e = refl
call_backs-kind conn t id p o false other e =
    ap
      (λ (called : ℕ × List Action). record t {
        generator = called.0;
        actions = t.actions ++ called.1;
      })
      e

module _ (conn : ℕ) (c : Connection) where
  call_backs-deliver :
      (t : Traffic) (p : Packet)
      → p.seq ≢ 0
      → call_backs conn t (deliver c p)
        ≡ record t { actions = t.actions ++ reaction c.requests t.host.server conn p }
  unfolding deliver reaction
  call_backs-deliver t p numbered =
      call_backs-kind conn t c.device_id p (c.requests (packet_id p)) p.rsp _
        (on_receive_request-numbered t.host.server t.generator conn p numbered)

  call_backs-delivered :
      (t : Traffic) (ps : List Packet)
      → All IsGood ps
      → call_backs conn t (delivered c ps)
        ≡ record t { actions = t.actions ++ reactions c.requests t.host.server conn ps }
  call_backs-delivered t [] good = ap (λ xs. record t { actions = xs }) (sym (append-nil t.actions))
  call_backs-delivered t (p ∷ ps) good =
      let one = reaction c.requests t.host.server conn p in
      let rest = reactions c.requests t.host.server conn ps in
      call_backs-append conn t (deliver c p) (delivered c ps)
      ∙ (ap (λ t'. call_backs conn t' (delivered c ps)) (call_backs-deliver t p good.0.1.numbered)
          ∙ (call_backs-delivered (record t { actions = t.actions ++ one }) ps good.1
              ∙ ap (λ xs. record t { actions = xs }) (append_assoc t.actions one rest)))

went_through :
    (v : Progress) (r : Outcome)
    → IsReceived (v, true) r
    → (s' : Receiver) × (r ≡ finished s' true) × (s'.events ≡ v.events)
went_through v (finished s' true) h = (s', refl, sym (ap (λ (t : Progress × Bool). t.0.events) h.0))
went_through v (finished s' false) h = absurd (let e = h.1 in ground arith)
went_through v read_past h = absurd h
went_through v no_fuel h = absurd h

-- The frames of sendable, intact packets of its device arrive at a connection that knows this device, has an
-- empty buffer and reported nothing so far, in pieces of any sizes, at least one byte with each read, and there
-- are enough reads. Then the server does for each of the packets, in their order, what it should, and nothing
-- else, and the connection goes on.
pub receive_stream-reactions :
    (o : ByteOrder) (clock : ℕ → ℕ) (s : Receiver) (ps : List Packet) (comes : List ℕ) (conn : ℕ)
    (t : Traffic)
    → IsReady s
    → contents s.recv_buffer ≡ []
    → s.events ≡ []
    → is_empty s.conn.device_id ≡ false
    → All (IsOf s.conn.device_id) ps
    → All IsGood ps
    → All (λ come. 0 < come) comes
    → length (frames ps) ≤ length comes
    → (s' : Receiver) × ((receive_stream o clock s (frames ps) comes).0 ≡ finished s' true)
      × (call_backs conn t s'.events
          ≡ record t { actions = t.actions ++ reactions s.conn.requests t.host.server conn ps })
receive_stream-reactions o clock s ps comes conn t ready empty fresh known own good some_come
      enough =
    let all = handle_packets-delivered clock (progress s) ps known own in
    let end = went_through all.0 (receive_stream o clock s (frames ps) comes).0 (
      subst (λ target. IsReceived target (receive_stream o clock s (frames ps) comes).0) all.1
        (receive_stream-IsReceived o clock s ps ready empty good comes some_come enough)) in
    (
      end.0,
      end.1,
      ap (call_backs conn t) (end.2 ∙ (all.2 ∙ ap (λ xs. xs ++ delivered s.conn ps) fresh))
          ∙ call_backs-delivered conn s.conn t ps good,
    )
