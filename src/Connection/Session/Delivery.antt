-- ===== src/Connection/Session/Delivery.antt =====
-- connection.hpp: how a response reaches the request that waits for it, among other requests.
use asyncmsg.Connection.Request.{handle_packet_waiting}
use asyncmsg.Base.{
  subst, is_empty, ==_refl, ℕ, ◌≡◌, refl, sym, ap, ◌∙◌, arith, true, false, Option, none, some,
  List, [], ◌∷◌, ◌++◌, All,
}
use asyncmsg.Packet.{Packet, packet_id}
use asyncmsg.Connection.{returned, handled, refused, register_request, finish_request}
use asyncmsg.Connection.Session.{
  Session, sends, begin_wait, packet_comes, wait_over, Turn, packet_turn, response_turn, take_turn,
  take_turns,
}
use asyncmsg.Connection.Session.Waiting.{
  IsWaiting, IsOther, if_true, if_false, take_turns-IsWaiting,
}

module _ (receive : ℕ → List (ℕ × Packet) → Option Packet) (p : Packet) (channel : ℕ) where
  -- The message arrives on the channel.
  packet_comes_waiting :
      (s : Session) (now : ℕ) (q : Packet)
      → IsWaiting p channel s
      → s.is_open ≡ true
      → q.rsp ≡ true
      → packet_id q ≡ packet_id p
      → is_empty q.device_id ≡ false
      → q.device_id ≡ s.conn.device_id
      → packet_comes s now q ≡ record s {
        conn = record s.conn { last_recv_time = now };
        sent = s.sent ++ (channel, q) ∷ [];
      }
  unfolding packet_comes
  packet_comes_waiting s now q w opened rsp id named own =
      if_true s opened
      ∙ ap
          (λ h. elim h [
            | handled c events ↦ record s { conn = c; sent = s.sent ++ sends events }
            | refused ↦ record s { is_open = false }
          ])
          (handle_packet_waiting s.conn p q channel now w.registered rsp id named own)

  -- And the wait ends with it.
  response_turn_waiting :
      (s : Session) (q : Packet)
      → s.asked channel ≡ some p
      → s.over channel ≡ false
      → receive channel s.sent ≡ some q
      → take_turn receive s (response_turn channel) ≡ wait_over s channel p (some q)
  unfolding take_turn
  response_turn_waiting s q asks goes_on came = rw (asks, goes_on, came) refl

wait_over_erases :
    (s : Session) (channel : ℕ) (p q : Packet)
    → let after = wait_over s channel p (some q) in
      (after.results ≡ s.results ++ (p, returned q) ∷ [])
      × (after.conn.requests (packet_id p) ≡ none)
unfolding wait_over finish_request
wait_over_erases s channel p q = (refl, rw (==_refl (packet_id p)) refl)

begin_wait_waits :
    (s : Session) (p : Packet)
    → ((k : ℕ) (q : Packet) → s.asked k ≡ some q → packet_id q ≡ packet_id p → s.over k ≡ true)
    → IsWaiting p s.made (begin_wait s true p)
unfolding begin_wait register_request
begin_wait_waits s p free = record {
  asks = rw (==_refl s.made) refl;
  goes_on = rw (==_refl s.made) refl;
  registered = rw (==_refl (packet_id p)) refl;
  alone = λ k q diff asks same_id. rw diff (free k q (sym (if_false (some p) diff) ∙ asks) same_id);
  was_made = omega arith;
}

-- A request is registered when no other request with its id waits. Whatever happens then on the connection,
-- other calls with other ids, packets and ends of other waits in whatever order: when a packet comes that is a
-- response with this id from the device of the connection, while it is open, and the channel gives it out, the
-- request returns this response, and its entry in the map is erased.
pub begin_wait-returned :
    (receive : ℕ → List (ℕ × Packet) → Option Packet) (s : Session) (p q : Packet)
    (turns : List Turn) (now : ℕ)
    → ((k : ℕ) (r : Packet) → s.asked k ≡ some r → packet_id r ≡ packet_id p → s.over k ≡ true)
    → All (IsOther p s.made) turns
    → (take_turns receive (begin_wait s true p) turns).is_open ≡ true
    → q.rsp ≡ true
    → packet_id q ≡ packet_id p
    → is_empty q.device_id ≡ false
    → q.device_id ≡ (take_turns receive (begin_wait s true p) turns).conn.device_id
    → receive s.made ((take_turns receive (begin_wait s true p) turns).sent ++ (s.made, q) ∷ [])
      ≡ some q
    → let before = take_turns receive (begin_wait s true p) turns in
      let after = take_turns receive before (packet_turn now q ∷ response_turn s.made ∷ []) in
      (after.results ≡ before.results ++ (p, returned q) ∷ [])
      × (after.conn.requests (packet_id p) ≡ none)
unfolding take_turn
begin_wait-returned receive s p q turns now free others opened rsp id named own came =
    let before = take_turns receive (begin_wait s true p) turns in
    let w =
      take_turns-IsWaiting receive p s.made (begin_wait s true p) turns others
        (begin_wait_waits s p free) in
    let arrived = packet_comes_waiting receive p s.made before now q w opened rsp id named own in
    let filled = record before {
      conn = record before.conn { last_recv_time = now };
      sent = before.sent ++ (s.made, q) ∷ [];
    } in
    subst
      (λ s2.
        ((take_turn receive s2 (response_turn s.made)).results
          ≡ before.results ++ (p, returned q) ∷ [])
        × ((take_turn receive s2 (response_turn s.made)).conn.requests (packet_id p) ≡ none))
      (sym arrived)
      (subst
        (λ (s3 : Session).
          (s3.results ≡ before.results ++ (p, returned q) ∷ [])
          × (s3.conn.requests (packet_id p) ≡ none))
        (sym (response_turn_waiting receive p s.made filled q w.asks w.goes_on came))
        (wait_over_erases filled s.made p q))
