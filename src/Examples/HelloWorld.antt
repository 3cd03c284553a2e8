-- ===== src/Examples/HelloWorld.antt =====
-- tcp_client.cpp and tcp_server.cpp: a request with "hello" and its response with "world".
use asyncmsg.Base.{
  ℕ, ◌^◌, ◌<◌, ◌≤◌, ◌≡◌, ◌≢◌, ◌↔◌, refl, sym, subst, arith, true, false, none, some, List, [], ◌∷◌,
  ◌==◌, ne→==, All, Bool-cases, Option-cases, inl, inr,
}
use asyncmsg.ByteOrder.{ByteOrder}
use asyncmsg.Error.{returned}
use asyncmsg.Packet.{Packet, build_req_packet, build_rsp_packet, make_packet, packet_id, next_seq}
use asyncmsg.Packet.Seq.{next_seq_bounds}
use asyncmsg.Packet.Decode.RoundTrip.{IsNoNul}
use asyncmsg.Client.{Client, reset_device_id_if_needed}
use asyncmsg.Server.{Server, send_packet}
use asyncmsg.Rpc.Remote.{transmit, transmit-intact, IsDeviceId}
use asyncmsg.Rpc.RoundTrip.{Crosses, crossing, same-packet_id}
use asyncmsg.Examples.{
  hello, world, text_at, recv_req, recv_rsp, serve_round, serve_task, hello_request, hello_response,
}

text_at-none : (bytes : List ℕ) → text_at bytes ≡ none → All IsNoNul bytes
unfolding text_at
text_at-none [] e = tt
text_at-none (c ∷ cs) e = elim (Bool-cases (c == 0)) [
  | inl nul ↦ absurd (ground arith)
  | inr other ↦ elim (Option-cases (text_at cs)) [
    | inl beyond ↦ (ground arith, text_at-none cs beyond)
    | inr found ↦ absurd (ground arith)
  ]
]

none-text_at : (bytes : List ℕ) → All IsNoNul bytes → text_at bytes ≡ none
unfolding text_at
none-text_at [] h = refl
none-text_at (c ∷ cs) h = rw (ne→== c 0 h.0, none-text_at cs h.1) refl

-- The server's round reads past the body of a request exactly if the body holds no NUL; that of an
-- empty body is read through a null pointer.
pub serve_round_iff :
    (generator : ℕ) (req : Packet) → (serve_round generator req ≡ none) ↔ All IsNoNul req.body
unfolding serve_round
serve_round_iff generator req = (
  λ e. elim (Option-cases (text_at req.body)) [
    | inl beyond ↦ text_at-none req.body beyond
    | inr found ↦ absurd (ground arith)
  ],
  λ h. rw (none-text_at req.body h, serve_round) refl,
)

-- The texts without their NULs.
abbrev pub hello_text : List ℕ
hello_text = 104 ∷ 101 ∷ 108 ∷ 108 ∷ 111 ∷ []

abbrev pub world_text : List ℕ
world_text = 119 ∷ 111 ∷ 114 ∷ 108 ∷ 100 ∷ []

-- The request as the client sends it.
abbrev pub hello_sent : Client → ℕ → Packet
hello_sent c generator = (reset_device_id_if_needed c (hello_request generator).0.0).0

abbrev hello_packet : List ℕ → ℕ → Packet
hello_packet device_id seq = record {
  cmd = 1;
  seq = seq;
  rsp = false;
  ec = 0;
  device_id = device_id;
  body = hello;
}

hello_sent_lem :
    (c : Client) (generator : ℕ)
    → hello_sent c generator ≡ hello_packet c.device_id (next_seq generator)
unfolding reset_device_id_if_needed hello_request build_req_packet make_packet
hello_sent_lem c generator = refl

abbrev world_packet : List ℕ → ℕ → Packet
world_packet device_id seq = record {
  cmd = 1;
  seq = seq;
  rsp = true;
  ec = 0;
  device_id = device_id;
  body = world;
}

serve_round-hello :
    (serving seq : ℕ) (device_id : List ℕ)
    → seq ≢ 0
    → serve_round serving (hello_packet device_id seq)
      ≡ some (recv_req hello_text, world_packet device_id seq, serving)
unfolding serve_round text_at build_rsp_packet make_packet
serve_round-hello serving seq device_id numbered = rw (ne→== seq 0 numbered, serve_round) refl

send_packet-connected :
    (s : Server) (p : Packet) (conn : ℕ)
    → s.stopped ≡ false
    → s.connection_map p.device_id ≡ some conn
    → send_packet s p ≡ returned (some conn)
unfolding send_packet
send_packet-connected s p conn running connected = rw (running, connected, send_packet) refl

serve_task-hello :
    (s : Server) (serving seq conn : ℕ) (device_id : List ℕ)
    → seq ≢ 0
    → s.stopped ≡ false
    → s.connection_map device_id ≡ some conn
    → serve_task serving ((returned (hello_packet device_id seq), s) ∷ [])
      ≡ some ((recv_req hello_text, world_packet device_id seq, some conn) ∷ [])
unfolding serve_task
serve_task-hello s serving seq conn device_id numbered running connected =
    let round = serve_round-hello serving seq device_id numbered in
    let sent = send_packet-connected s (world_packet device_id seq) conn running connected in
    rw (round, sent, serve_task) refl

crossing-hello :
    (device_id : List ℕ) (seq : ℕ)
    → IsDeviceId device_id
    → 1 ≤ seq
    → seq < 2 ^ 32
    → Crosses (hello_packet device_id seq) × Crosses (world_packet device_id seq)
crossing-hello device_id seq id lo hi = (
  crossing _ (omega arith) hi (omega arith) (omega arith) id (omega arith),
  crossing _ (omega arith) hi (omega arith) (omega arith) id (omega arith),
)

-- The two programs together: the client's request reaches the server as it was sent; the server logs
-- "hello" and writes one reply to the connection of the client's device; it reaches the client as it
-- was sent, is a response with the id that the client waits for, and the client logs "world". The
-- device id is a nonempty C string shorter than 64 that the server has a connection for, and the server
-- runs; the hosts may differ in byte order.
pub hello-world :
    (client server : ByteOrder) (c : Client) (s : Server)
    (generator arriving serving returning conn : ℕ)
    → generator < 2 ^ 32
    → IsDeviceId c.device_id
    → s.stopped ≡ false
    → s.connection_map c.device_id ≡ some conn
    → let req = hello_sent c generator in
      (transmit client server arriving req ≡ some req)
      × (rsp : Packet) × (serve_task serving ((returned req, s) ∷ [])
          ≡ some ((recv_req hello_text, rsp, some conn) ∷ []))
      × (transmit server client returning rsp ≡ some rsp)
      × (rsp.rsp ≡ true)
      × (packet_id rsp ≡ packet_id req)
      × (hello_response rsp ≡ some (recv_rsp world_text))
unfolding hello_response text_at
hello-world client server c s generator arriving serving returning conn bound id running connected =
    let made = next_seq_bounds generator bound in
    let seq = next_seq generator in
    let crosses = crossing-hello c.device_id seq id made.0 made.1 in
    subst
      (λ (req : Packet).
        (transmit client server arriving req ≡ some req)
        × (rsp : Packet) × (serve_task serving ((returned req, s) ∷ [])
            ≡ some ((recv_req hello_text, rsp, some conn) ∷ []))
        × (transmit server client returning rsp ≡ some rsp)
        × (rsp.rsp ≡ true)
        × (packet_id rsp ≡ packet_id req)
        × (hello_response rsp ≡ some (recv_rsp world_text)))
      (sym (hello_sent_lem c generator))
      (
        transmit-intact client server arriving _ crosses.0.0 crosses.0.1,
        world_packet c.device_id seq,
        serve_task-hello s serving seq conn c.device_id (omega (arith, made.0)) running connected,
        transmit-intact server client returning _ crosses.1.0 crosses.1.1,
        refl,
        same-packet_id _ _ refl refl,
        refl,
      )
