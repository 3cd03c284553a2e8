-- ===== src/Connection/Request.antt =====
-- connection.hpp: requests that wait for their responses, and the lifetime check.
use native.Mathlib.Nat.{le-div_iff_mul-le}
use asyncmsg.Base.{
  ℕ, ◌+◌, ◌-◌, ◌*◌, ◌/◌, ◌≤◌, ◌<◌, ◌≡◌, ◌≢◌, ◌↔◌, refl, sym, ap, ◌∙◌, arith, true, false, none,
  some, [], ◌∷◌, ◌==◌, ==_refl, ne→==, if◌then◌else◌, is_empty, same, same_refl, set,
}
use asyncmsg.Error.{returned}
use asyncmsg.Packet.{Packet, packet_id}
use asyncmsg.Connection.{
  Connection, receive_request, try_send, handled, handle_packet, deliver, check_round,
  register_request, finish_request,
}

pub handle_packet_own :
    (now : ℕ) (c : Connection) (p : Packet)
    → is_empty p.device_id ≡ false
    → p.device_id ≡ c.device_id
    → handle_packet now c p ≡ handled (record c { last_recv_time = now }) (deliver c p)
unfolding handle_packet
handle_packet_own now c p named own =
    let known : is_empty c.device_id ≡ false = ap is_empty (sym own) ∙ named in
    let this : same c.device_id p.device_id ≡ true =
      ap (same c.device_id) own ∙ same_refl c.device_id in
    rw (named, known, this) refl

deliver_response :
    (c : Connection) (p : Packet) (channel : ℕ)
    → p.rsp ≡ true
    → c.requests (packet_id p) ≡ some channel
    → deliver c p ≡ try_send channel p ∷ []
unfolding deliver packet_id
deliver_response c p channel rsp waits =
    ap
      (λ b.
        if b
        then (elim (c.requests (packet_id p)) [ none ↦ [] | some ch ↦ try_send ch p ∷ [] ])
        else receive_request c.device_id p ∷ [])
      rsp
    ∙ ap (λ o. elim o [ none ↦ [] | some ch ↦ try_send ch p ∷ [] ]) waits

-- What a response does to a request that waits with its id.
pub handle_packet_waiting :
    (c : Connection) (request response : Packet) (channel now : ℕ)
    → c.requests (packet_id request) ≡ some channel
    → response.rsp ≡ true
    → packet_id response ≡ packet_id request
    → is_empty response.device_id ≡ false
    → response.device_id ≡ c.device_id
    → handle_packet now c response
      ≡ handled (record c { last_recv_time = now }) (try_send channel response ∷ [])
handle_packet_waiting c request response channel now waits rsp id named own =
    handle_packet_own now c response named own
    ∙ ap (handled (record c { last_recv_time = now }))
        (deliver_response c response channel rsp (ap c.requests id ∙ waits))

-- A response that names the device of the connection and has the id of a request that was registered goes to
-- the channel of this request.
pub handle_packet_response :
    (c : Connection) (request response : Packet) (channel now : ℕ)
    → response.rsp ≡ true
    → packet_id response ≡ packet_id request
    → is_empty response.device_id ≡ false
    → response.device_id ≡ c.device_id
    → (c' : Connection) × (register_request c true request channel ≡ returned c')
      × (handle_packet now c' response
          ≡ handled (record c' { last_recv_time = now }) (try_send channel response ∷ []))
unfolding register_request
handle_packet_response c request response channel now rsp id named own = (
  record c { requests = set ◌==◌ c.requests (packet_id request) channel },
  refl,
  handle_packet_waiting (record c { requests = set ◌==◌ c.requests (packet_id request) channel })
      request response channel now (rw (==_refl (packet_id request)) refl) rsp id named own,
)

-- The response is returned and its request is forgotten, while a request with another id still waits.
pub finish_request_forgets :
    (c : Connection) (request response : Packet) (id : ℕ)
    → id ≢ packet_id request
    → let (c', result) = finish_request c request (some response) in
      (result ≡ returned response)
      × (c'.requests (packet_id request) ≡ none)
      × (c'.requests id ≡ c.requests id)
unfolding finish_request
finish_request_forgets c request response id other = (
  refl,
  rw (==_refl (packet_id request)) refl,
  rw (ne→== (packet_id request) id (λ e. other (sym e))) refl,
)

-- `elapse > 60` in whole seconds.
lifetime : (second t : ℕ) → 0 < second → (60 < t / second) ↔ (61 * second ≤ t)
lifetime second t h = le-div_iff_mul-le {x = 61} {y = t} h

-- The lifetime check ends a connection exactly if nothing was received for 61 whole seconds.
pub check_round_iff :
    (second now : ℕ) (c : Connection)
    → 0 < second
    → ((check_round second now c).0 ≡ false) ↔ (c.last_recv_time + 61 * second ≤ now)
unfolding check_round
check_round_iff second now c h = ground (arith, lifetime second (now - c.last_recv_time) h)
