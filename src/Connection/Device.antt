-- ===== src/Connection/Device.antt =====
-- connection.hpp: whose packets a connection passes on: those of the one device that its first packet names.
use asyncmsg.Base.{
  append-nil, ℕ, zero, suc, ◌≡◌, refl, sym, ap, arith, true, false, List, [], ◌∷◌, ◌++◌, inl, inr,
  ◌⊎◌, Bool-cases, Option-cases, same, same→eq, is_empty, All, All-append, ltb, take, ◌==◌, length,
}
use asyncmsg.ByteOrder.{ByteOrder}
use asyncmsg.IoBuffer.{prepare, consume}
use asyncmsg.Packet.{Packet, Decoded, none_yet, packet, overread, out_of_fuel, packet_id}
use asyncmsg.Connection.{
  or_disconnect, read_round, room_or_disconnect, receive_round, receive_packet, Read, gone, failed,
  received, size_to_read, disconnect, Connection, Event, got_device_id, receive_request,
  disconnected, try_send, Receiver, Outcome, finished, read_past, no_fuel, handled, refused,
  Handled, deliver, handle_packet, process_round, process_loop, process_packet, decode_buffer,
}

-- What may follow the report of the device id.
abbrev pub After : List ℕ → Event → Type 0
After id (got_device_id d) = ⊥
After id (receive_request d p) = (d ≡ id) × (p.device_id ≡ id)
After id (disconnected d) = ⊥
After id (try_send channel p) = (p.device_id ≡ id) × (p.rsp ≡ true)

-- No event before the device is known; then the report of its id, once, and packets of this device.
abbrev pub OneDevice : List ℕ → List Event → Type 0
OneDevice id [] = Unit
OneDevice id (e ∷ es) = (e ≡ got_device_id id) × (is_empty id ≡ false) × All (After id) es

-- A connection of which nothing was heard has no device id.
abbrev pub IsFresh : List ℕ → List Event → Type 0
IsFresh id [] = id ≡ []
IsFresh id (e ∷ es) = Unit

abbrev pub Heard : Receiver → Type 0
Heard s = OneDevice s.conn.device_id s.events × IsFresh s.conn.device_id s.events

-- The same of an outcome of `process_packet`.
abbrev pub HeardEnd : Outcome → Type 0
HeardEnd (finished s again) = Heard s
HeardEnd read_past = Unit
HeardEnd no_fuel = Unit

-- And of `receive_packet`: the last event of a loop that ended can be the report of that.
abbrev pub Reported : Outcome → Type 0
Reported (finished s true) = Heard s
Reported (finished s false) =
    (before : List Event) × (OneDevice s.conn.device_id before)
    × ((s.events ≡ before) ⊎ (s.events ≡ before ++ disconnected s.conn.device_id ∷ []))
Reported read_past = Unit
Reported no_fuel = Unit

deliver-After :
    (c : Connection) (p : Packet)
    → c.device_id ≡ p.device_id
    → All (After c.device_id) (deliver c p)
unfolding deliver packet_id
deliver-After c p e = elim (Bool-cases p.rsp) [
  | inr request ↦ rw request ((refl, sym e), tt)
  | inl response ↦ rw response (elim (Option-cases (c.requests (packet_id p))) [
    | inl unknown ↦ rw unknown tt
    | inr (channel, known) ↦ rw known ((sym e, response), tt)
  ])
]

OneDevice-append :
    (id : List ℕ) (events more : List Event)
    → OneDevice id events
    → IsFresh id events
    → is_empty id ≡ false
    → All (After id) more
    → OneDevice id (events ++ more) × IsFresh id (events ++ more)
OneDevice-append id [] more h fresh known after = let e = ap is_empty fresh in absurd (ground arith)
OneDevice-append id (e ∷ events) more h fresh known after =
    ((h.0, h.1, All-append (After id) events more h.2 after), tt)

none_before :
    (id : List ℕ) (events : List Event) → OneDevice id events → is_empty id ≡ true → events ≡ []
none_before id [] h unknown = refl
none_before id (e ∷ events) h unknown = absurd (ground arith)

-- What one packet adds.
abbrev pub HeardBy : List Event → Handled → Type 0
HeardBy events (handled c more) =
    OneDevice c.device_id (events ++ more) × IsFresh c.device_id (events ++ more)
HeardBy events refused = Unit

pub handle_packet-Heard :
    (now : ℕ) (c : Connection) (p : Packet) (events : List Event)
    → OneDevice c.device_id events
    → IsFresh c.device_id events
    → HeardBy events (handle_packet now c p)
unfolding handle_packet
handle_packet-Heard now c p events h fresh = elim (Bool-cases (is_empty p.device_id)) [
  | inl unnamed ↦ rw (unnamed, append-nil events) (h, fresh)
  | inr named ↦ rw named (elim (Bool-cases (is_empty c.device_id)) [
    | inl new ↦
        rw (new, none_before c.device_id events h new)
          ((refl, named, deliver-After (record c { device_id = p.device_id }) p refl), tt)
    | inr old ↦ rw old (elim (Bool-cases (same c.device_id p.device_id)) [
      | inr other ↦ rw other tt
      | inl this ↦ rw this (
          OneDevice-append c.device_id events _ h fresh old
            (deliver-After c p (same→eq c.device_id p.device_id this)))
    ])
  ])
]

process_round-Heard :
    (clock : ℕ → ℕ) (s : Receiver) (d : Decoded) (again : Receiver → Outcome)
    → Heard s
    → ((s' : Receiver) → Heard s' → HeardEnd (again s'))
    → HeardEnd (process_round clock s d again)
unfolding process_round
process_round-Heard clock s (none_yet n) again h rest = h
process_round-Heard clock s (packet n p generator) again h rest =
    go (handle_packet (clock s.round) s.conn p)
      (handle_packet-Heard (clock s.round) s.conn p s.events h.0 h.1)
  where
    go :
        (r : Handled)
        → HeardBy s.events r
        → HeardEnd (elim r [
          | handled conn events ↦ again (record s {
            recv_buffer = consume s.recv_buffer n;
            generator = generator;
            round = suc s.round;
            conn = conn;
            events = s.events ++ events;
          })
          | refused ↦
              finished
                (record s {
                  recv_buffer = consume s.recv_buffer n;
                  generator = generator;
                  round = suc s.round;
                })
                false
        ])
    go (handled conn events) heard = rest _ heard
    go refused heard = h
process_round-Heard clock s overread again h rest = tt
process_round-Heard clock s out_of_fuel again h rest = tt

process_loop-Heard :
    (fuel : ℕ) (o : ByteOrder) (clock : ℕ → ℕ) (s : Receiver)
    → Heard s
    → HeardEnd (process_loop fuel o clock s)
unfolding process_loop
process_loop-Heard zero o clock s h = tt
process_loop-Heard (suc fuel) o clock s h =
    process_round-Heard clock s (decode_buffer o s.generator s.recv_buffer)
      (process_loop fuel o clock) h (λ s' h'. process_loop-Heard fuel o clock s' h')

process_packet-Heard :
    (o : ByteOrder) (clock : ℕ → ℕ) (s : Receiver) → Heard s → HeardEnd (process_packet o clock s)
unfolding process_packet
process_packet-Heard o clock s h = process_loop-Heard _ o clock s h

or_disconnect-Reported : (r : Outcome) → HeardEnd r → Reported (or_disconnect r)
unfolding or_disconnect disconnect
or_disconnect-Reported (finished s true) h = h
or_disconnect-Reported (finished s false) h = (s.events, h.0, inr refl)
or_disconnect-Reported read_past h = tt
or_disconnect-Reported no_fuel h = tt

module _ (o : ByteOrder) (clock : ℕ → ℕ) where
  read_round-Reported :
      (s : Receiver) (read : Read) → Heard s → Reported (read_round o clock s read)
  unfolding read_round disconnect
  read_round-Reported s gone h = (s.events, h.0, inl refl)
  read_round-Reported s failed h = (s.events, h.0, inr refl)
  read_round-Reported s (received bytes) h =
      elim (Bool-cases
        (ltb 0 (length (take (prepare s.recv_buffer (size_to_read s.recv_buffer)).1.size bytes)))) [
          | inr nothing ↦ rw nothing h
          | inl some_bytes ↦
              rw some_bytes (or_disconnect-Reported _ (process_packet-Heard o clock _ h))
        ]

  room_or_disconnect-Reported :
      (read : Read) (r : Outcome) → HeardEnd r → Reported (room_or_disconnect o clock read r)
  unfolding room_or_disconnect disconnect
  room_or_disconnect-Reported read (finished s true) h =
      elim (Bool-cases (size_to_read s.recv_buffer == 0)) [
        | inl full ↦ rw full (s.events, h.0, inr refl)
        | inr room ↦ rw room (read_round-Reported s read h)
      ]
  room_or_disconnect-Reported read (finished s false) h = (s.events, h.0, inr refl)
  room_or_disconnect-Reported read read_past h = tt
  room_or_disconnect-Reported read no_fuel h = tt

  pub receive_round-Reported :
      (s : Receiver) (read : Read) → Heard s → Reported (receive_round o clock s read)
  unfolding receive_round
  receive_round-Reported s read h = elim (Bool-cases (size_to_read s.recv_buffer == 0)) [
    | inl full ↦ rw full (room_or_disconnect-Reported read _ (process_packet-Heard o clock s h))
    | inr room ↦ rw room (room_or_disconnect-Reported read (finished s true) h)
  ]

-- From a state where this holds, such as that of a new connection, it goes on holding whatever is received: the
-- events of a connection are nothing before its device is known, then the report of the device id,
-- once, then only requests and responses with this device id, and at most one report of its end,
-- which is last and names the same id.
pub receive_packet-Reported :
    (o : ByteOrder) (clock : ℕ → ℕ) (s : Receiver) (reads : List Read)
    → Heard s
    → Reported (receive_packet o clock s reads)
unfolding receive_packet
receive_packet-Reported o clock s [] h = h
receive_packet-Reported o clock s (read ∷ reads) h =
    go (λ s' h'. receive_packet-Reported o clock s' reads h') (receive_round o clock s read)
      (receive_round-Reported o clock s read h)
  where
    go :
        ((s' : Receiver) → Heard s' → Reported (receive_packet o clock s' reads))
        → (r : Outcome) → Reported r
        → Reported (elim r [
          | finished s' true ↦ receive_packet o clock s' reads
          | finished s' false ↦ finished s' false
          | read_past ↦ read_past
          | no_fuel ↦ no_fuel
        ])
    go next (finished s' true) h' = next s' h'
    go next (finished s' false) h' = h'
    go next read_past h' = tt
    go next no_fuel h' = tt
