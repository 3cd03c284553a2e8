-- ===== src/Client/Sending.antt =====
-- tcp_client.hpp: what a client sends: on which connection, in whose name, and how long it waits for a
-- connection.
use asyncmsg.Base.{
  ℕ, zero, suc, ◌+◌, ◌-◌, ◌*◌, ◌/◌, ◌%◌, ◌^◌, ◌≤◌, ◌<◌, ◌≡◌, refl, ap, ◌∙◌, arith, true, false,
  Option, none, some, ltb, if◌then◌else◌, Bool-cases, Option-cases, inl, inr, is_empty, same,
  same→eq, lt→leb,
}
use asyncmsg.Error.{Result, returned, thrown, invalid_state_error, invalid_device_id_error}
use asyncmsg.Packet.{Packet}
use asyncmsg.Client.{
  Client, reset_device_id_if_needed, send_packet, wait_loop, after_wait, send_packet_and_wait_rsp,
}

reset_own :
    (c : Client) (p : Packet)
    → (reset_device_id_if_needed c p).1 ≡ true
    → (reset_device_id_if_needed c p).0.device_id ≡ c.device_id
unfolding reset_device_id_if_needed
reset_own c p = elim (Bool-cases (is_empty p.device_id)) [
  | inl unnamed ↦ simp unnamed (λ ok. refl)
  | inr named ↦ simp named (λ ok. same→eq p.device_id c.device_id ok)
]

reset_foreign :
    (c : Client) (p : Packet)
    → is_empty p.device_id ≡ false
    → same p.device_id c.device_id ≡ false
    → (reset_device_id_if_needed c p).1 ≡ false
unfolding reset_device_id_if_needed
reset_foreign c p named foreign = simp (named, foreign) refl

-- What is written to a connection carries the client's own device id, and goes to the current connection.
pub send_packet_own :
    (c : Client) (p : Packet) (conn : ℕ)
    → (send_packet c p).1 ≡ some conn
    → ((send_packet c p).0.device_id ≡ c.device_id) × (c.conn ≡ some conn)
unfolding send_packet
send_packet_own c p conn sent = elim (Bool-cases (reset_device_id_if_needed c p).1) [
  | inl ok ↦ (reset_own c p ok, ground arith)
  | inr refused ↦ absurd (ground arith)
]

-- A packet in the name of another device is written to no connection, and waiting for its response throws.
pub send_packet_foreign :
    (c : Client) (p : Packet) (timeout : ℕ) (conns : ℕ → Option ℕ) (elapsed : ℕ → ℕ)
    → is_empty p.device_id ≡ false
    → same p.device_id c.device_id ≡ false
    → c.stopped ≡ false
    → ((send_packet c p).1 ≡ none)
      × ((send_packet_and_wait_rsp c p timeout conns elapsed).1
          ≡ some (thrown invalid_device_id_error))
unfolding send_packet send_packet_and_wait_rsp
send_packet_foreign c p timeout conns elapsed named foreign running = (
  simp (reset_foreign c p named foreign) refl,
  simp (running, reset_foreign c p named foreign) refl,
)

module _ (conns : ℕ → Option ℕ) (elapsed : ℕ → ℕ) (timeout : ℕ) where
  wait_up :
      (left i conn : ℕ)
      → conns i ≡ some conn
      → wait_loop (suc left) i conns elapsed timeout ≡ some (some conn, elapsed i)
  unfolding wait_loop
  wait_up left i conn up = rw (up, wait_loop) refl

  wait_late :
      (left i : ℕ)
      → conns i ≡ none
      → ltb (timeout / 2) (elapsed i) ≡ true
      → wait_loop (suc left) i conns elapsed timeout ≡ some (none, elapsed i)
  unfolding wait_loop
  wait_late left i down late = rw (down, late, wait_loop) refl

  wait_more :
      (left i : ℕ)
      → conns i ≡ none
      → ltb (timeout / 2) (elapsed i) ≡ false
      → wait_loop (suc left) i conns elapsed timeout ≡ wait_loop left (suc i) conns elapsed timeout
  unfolding wait_loop
  wait_more left i down early = rw (down, early, wait_loop) refl

  wait_loop_ends :
      (left i : ℕ)
      → ((j : ℕ) → 100 * j ≤ elapsed j)
      → timeout / 2 + 100 < 100 * (i + left)
      → 1 ≤ left
      → (found : Option ℕ × ℕ) × (wait_loop left i conns elapsed timeout ≡ some found)
  wait_loop_ends zero i clock bound some_left = absurd (omega arith)
  wait_loop_ends (suc left) i clock bound some_left = elim (Option-cases (conns i)) [
    | inr (conn, up) ↦ ((some conn, elapsed i), wait_up left i conn up)
    | inl down ↦ elim (Bool-cases (ltb (timeout / 2) (elapsed i))) [
      | inl late ↦ ((none, elapsed i), wait_late left i down late)
      | inr early ↦
          (let rest = wait_loop_ends left (suc i) clock (omega arith) (ground (arith, clock i)) in
            (rest.0, wait_more left i down early ∙ rest.1))
    ]
  ]

-- If a round of the waiting loop takes at least 100 milliseconds, the wait for a connection ends, in an
-- error or with a connection, for every packet and every timeout.
pub send_packet_and_wait_rsp-ends :
    (c : Client) (p : Packet) (timeout : ℕ) (conns : ℕ → Option ℕ) (elapsed : ℕ → ℕ)
    → ((j : ℕ) → 100 * j ≤ elapsed j)
    → (result : Result (ℕ × ℕ)) × ((send_packet_and_wait_rsp c p timeout conns elapsed).1
        ≡ some result)
unfolding send_packet_and_wait_rsp after_wait
send_packet_and_wait_rsp-ends c p timeout conns elapsed clock =
    let found =
      wait_loop_ends conns elapsed timeout (timeout / 200 + 2) 0 clock (omega arith)
        (omega arith) in
    elim (Bool-cases c.stopped) [
      | inl was ↦ (thrown invalid_state_error, simp was refl)
      | inr running ↦ elim (Bool-cases (reset_device_id_if_needed c p).1) [
        | inl own ↦ (after_wait timeout found.0, simp (running, own, found.1) refl)
        | inr foreign ↦ (thrown invalid_device_id_error, simp (running, foreign) refl)
      ]
    ]

-- A client that is connected hands a packet of its own over at once, with all the time but what has already
-- gone by; a stopped client throws.
pub send_packet_and_wait_rsp_connected :
    (c : Client) (p : Packet) (timeout conn : ℕ) (conns : ℕ → Option ℕ) (elapsed : ℕ → ℕ)
    → (reset_device_id_if_needed c p).1 ≡ true
    → conns 0 ≡ some conn
    → elapsed 0 < timeout
    → timeout < 2 ^ 32
    → (send_packet_and_wait_rsp c p timeout conns elapsed).1 ≡ (
        if c.stopped
        then some (thrown invalid_state_error)
        else some (returned (conn, timeout - elapsed 0)))
unfolding send_packet_and_wait_rsp after_wait
send_packet_and_wait_rsp_connected c p timeout conn conns elapsed own up early fits =
    elim (Bool-cases c.stopped) [
      | inl was ↦ simp was refl
      | inr running ↦ simp (running, own, found) (ap some in_time)
    ]
  where
    found : wait_loop (timeout / 200 + 2) 0 conns elapsed timeout ≡ some (some conn, elapsed 0)
    found =
        let n : timeout / 200 + 2 ≡ suc (timeout / 200 + 1) = omega arith in
        ap (λ t. wait_loop t 0 conns elapsed timeout) n
        ∙ wait_up conns elapsed timeout (timeout / 200 + 1) 0 conn up

    in_time : after_wait timeout (some conn, elapsed 0) ≡ returned (conn, timeout - elapsed 0)
    in_time =
        let e : elapsed 0 % 2 ^ 32 ≡ elapsed 0 = omega arith in
        rw (e, lt→leb timeout (elapsed 0) early, after_wait) refl
