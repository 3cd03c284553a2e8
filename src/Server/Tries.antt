-- ===== src/Server/Tries.antt =====
-- tcp_server.hpp: how often `send_packet_and_wait_rsp` sends a packet, and what it returns; and who
-- gets a request.
use asyncmsg.Base.{
  ℕ, zero, suc, ◌+◌, ◌-◌, subst, ◌≤◌, ◌<◌, ◌≡◌, ◌≢◌, refl, ap, ◌∙◌, arith, false, Option, none,
  some, [], ◌∷◌, ◌==◌, ==_refl, ne→==, Option-cases, inl, inr, set,
}
use asyncmsg.Error.{returned, thrown, timeout_error}
use asyncmsg.Packet.{Packet}
use asyncmsg.Server.{
  Server, try_send, try_loop, send_packet_and_wait_rsp, wait_request, on_receive_request,
  heartbeat_cmd,
}

-- The server runs, and the device of the packet is connected, by `conn`.
pub record IsConnected (s : Server) (p : Packet) (conn : ℕ) : Type 0 where
  pub running : s.stopped ≡ false
  pub connected : s.connection_map p.device_id ≡ some conn

module _ (server : ℕ → Server) (answer : ℕ → ℕ → Option Packet) (p : Packet) (conn : ℕ → ℕ) where
  try_loop_next :
      (left i : ℕ)
      → IsConnected (server i) p (conn i)
      → answer i (conn i) ≡ none
      → try_loop (suc left) i server answer p ≡ try_loop left (suc i) server answer p
  unfolding try_loop
  try_loop_next left i c e = rw (c.running, c.connected, e) refl

  try_loop_answer :
      (left i : ℕ) (response : Packet)
      → IsConnected (server i) p (conn i)
      → answer i (conn i) ≡ some response
      → try_loop (suc left) i server answer p ≡ returned response
  unfolding try_loop
  try_loop_answer left i response c e = rw (c.running, c.connected, e) refl

  -- `n` tries without an answer are gone through.
  try_loop_unanswered :
      (n total left i : ℕ)
      → total ≡ n + left
      → ((j : ℕ) → i ≤ j → j < i + n → IsConnected (server j) p (conn j))
      → ((j : ℕ) → i ≤ j → j < i + n → answer j (conn j) ≡ none)
      → try_loop total i server answer p ≡ try_loop left (i + n) server answer p
  try_loop_unanswered zero total left i total_is c e =
      let k : total ≡ left = omega arith in
      let l : i ≡ i + 0 = omega arith in
      ap (λ t. try_loop t i server answer p) k ∙ ap (λ t. try_loop left t server answer p) l
  try_loop_unanswered (suc n) zero left i total_is c e = absurd (omega arith)
  try_loop_unanswered (suc n) (suc total) left i total_is c e =
      let k : suc i + n ≡ i + suc n = omega arith in
      try_loop_next total i (c i (omega arith) (omega arith)) (e i (omega arith) (omega arith))
      ∙ (try_loop_unanswered n total left (suc i) (omega arith)
            (λ j a b. c j (omega arith) (omega arith)) (λ j a b. e j (omega arith) (omega arith))
          ∙ ap (λ t. try_loop left t server answer p) k)

  -- While the device is connected, the response to the first try that has one is returned, if the number of
  -- this try, from 0, is at most `max_tries`.
  pub send_packet_and_wait_rsp_answered :
      (max_tries n : ℕ) (response : Packet)
      → n ≤ max_tries
      → ((j : ℕ) → j ≤ n → IsConnected (server j) p (conn j))
      → ((j : ℕ) → j < n → answer j (conn j) ≡ none)
      → answer n (conn n) ≡ some response
      → send_packet_and_wait_rsp max_tries server answer p ≡ returned response
  unfolding send_packet_and_wait_rsp
  send_packet_and_wait_rsp_answered max_tries n response h c e last =
      try_loop_unanswered n (suc max_tries) (suc (max_tries - n)) 0 (omega arith)
        (λ j a b. c j (omega arith)) (λ j a b. e j (omega arith))
      ∙ try_loop_answer (max_tries - n) (0 + n) response
          (subst (λ j. IsConnected (server j) p (conn j)) start (c n (omega arith)))
          (subst (λ j. answer j (conn j) ≡ some response) start last)
    where
      start : n ≡ 0 + n
      start = omega arith

  -- While the device is connected, `max_tries + 1` tries without a response, one more than the name says,
  -- end in a timeout.
  pub send_packet_and_wait_rsp_timeout :
      (max_tries : ℕ)
      → ((j : ℕ) → j ≤ max_tries → IsConnected (server j) p (conn j))
      → ((j : ℕ) → j ≤ max_tries → answer j (conn j) ≡ none)
      → send_packet_and_wait_rsp max_tries server answer p ≡ thrown timeout_error
  unfolding send_packet_and_wait_rsp
  send_packet_and_wait_rsp_timeout max_tries c e =
      try_loop_unanswered (suc max_tries) (suc max_tries) 0 0 (omega arith)
        (λ j a b. c j (omega arith)) (λ j a b. e j (omega arith))
      ∙ unfold try_loop in refl

-- Who waits for a command gets its requests: after `wait_request` a request with this command is sent to the
-- channel that is waited on, every time the same.
pub wait_request-on_receive_request :
    (s : Server) (cmd fresh later generator conn : ℕ) (p : Packet)
    → s.stopped ≡ false
    → p.cmd ≡ cmd
    → cmd ≢ heartbeat_cmd
    → (s' : Server) × (channel : ℕ) × (wait_request s cmd fresh ≡ (s', returned channel))
      × (wait_request s' cmd later ≡ (s', returned channel))
      × (on_receive_request s' generator conn p ≡ (generator, try_send channel p ∷ []))
unfolding wait_request on_receive_request
wait_request-on_receive_request s cmd fresh later generator conn p running e ne =
    elim (Option-cases (s.received_request_channels cmd)) [
      | inr (channel, known) ↦ (
        s,
        channel,
        simp (running, known) refl,
        simp (running, known) refl,
        simp (e, ne→== cmd heartbeat_cmd ne, known) refl,
      )
      | inl unknown ↦ (
        record s { received_request_channels = set ◌==◌ s.received_request_channels cmd fresh },
        fresh,
        simp (running, unknown) refl,
        simp (running, ==_refl cmd) refl,
        simp (e, ne→== cmd heartbeat_cmd ne, ==_refl cmd) refl,
      )
    ]
