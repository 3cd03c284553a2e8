-- ===== src/Connection/Life/Late.antt =====
-- connection.hpp: the packets of a last read, after the check has reported the end of the connection.
use asyncmsg.Base.{
  ℕ, zero, suc, ◌≡◌, refl, sym, ap, subst, ◌∙◌, append_assoc, append-nil, Bool, true, false,
  Bool-cases, inl, inr, ◌⊎◌, List, [], ◌∷◌, ◌++◌, ltb, length, take,
}
use asyncmsg.ByteOrder.{ByteOrder}
use asyncmsg.IoBuffer.{prepare, consume}
use asyncmsg.Packet.{Decoded, none_yet, packet, overread, out_of_fuel}
use asyncmsg.Connection.{
  Receiver, Read, gone, failed, received, Outcome, finished, read_past, no_fuel, Event,
  disconnected, Handled, handled, refused, handle_packet, process_round, process_loop,
  process_packet, decode_buffer, or_disconnect, disconnect, read_round, size_to_read,
}
use asyncmsg.Connection.Device.{OneDevice, IsFresh, HeardBy, handle_packet-Heard}

-- `mid` stands between the events before it and those after it, which are together those of one device.
abbrev pub HeardAround : (before mid : List Event) → Receiver → Type 0
HeardAround before mid s =
    (more : List Event) × (s.events ≡ (before ++ mid) ++ more)
    × OneDevice s.conn.device_id (before ++ more)
    × IsFresh s.conn.device_id (before ++ more)

abbrev HeardAroundEnd : (before mid : List Event) → Outcome → Type 0
HeardAroundEnd before mid (finished s again) = HeardAround before mid s
HeardAroundEnd before mid read_past = Unit
HeardAroundEnd before mid no_fuel = Unit

-- And at the end of a loop, with the report of that.
abbrev pub ReportedAround : (before mid : List Event) → Outcome → Type 0
ReportedAround before mid (finished s again) =
    (more : List Event) × (last : List Event) × (s.events ≡ (before ++ mid) ++ (more ++ last))
    × OneDevice s.conn.device_id (before ++ more)
    × ((last ≡ []) ⊎ (last ≡ disconnected s.conn.device_id ∷ []))
ReportedAround before mid read_past = Unit
ReportedAround before mid no_fuel = Unit

module _ (before mid : List Event) where
  process_round-around :
      (clock : ℕ → ℕ) (s : Receiver) (d : Decoded) (again : Receiver → Outcome)
      → HeardAround before mid s
      → ((s' : Receiver) → HeardAround before mid s' → HeardAroundEnd before mid (again s'))
      → HeardAroundEnd before mid (process_round clock s d again)
  unfolding process_round
  process_round-around clock s (none_yet n) again h rest = h
  process_round-around clock s (packet n p generator) again h rest =
      go (handle_packet (clock s.round) s.conn p)
        (handle_packet-Heard (clock s.round) s.conn p (before ++ h.0) h.2 h.3)
    where
      go :
          (r : Handled)
          → HeardBy (before ++ h.0) r
          → HeardAroundEnd before mid (elim r [
            | handled conn events ↦ again (record s {
              recv_buffer = consume s.recv_buffer n;
              generator = generator;
              round = suc s.round;
              conn = conn;
              events = s.events ++ events;
            })
            | refused ↦
                finished
                  (record s {
                    recv_buffer = consume s.recv_buffer n;
                    generator = generator;
                    round = suc s.round;
                  })
                  false
          ])
      go (handled conn events) heard = rest _ (
        h.0 ++ events,
        ap (λ t. t ++ events) h.1 ∙ append_assoc (before ++ mid) h.0 events,
        subst (OneDevice conn.device_id) (append_assoc before h.0 events) heard.0,
        subst (IsFresh conn.device_id) (append_assoc before h.0 events) heard.1,
      )
      go refused heard = h
  process_round-around clock s overread again h rest = tt
  process_round-around clock s out_of_fuel again h rest = tt

  process_loop-around :
      (fuel : ℕ) (o : ByteOrder) (clock : ℕ → ℕ) (s : Receiver)
      → HeardAround before mid s
      → HeardAroundEnd before mid (process_loop fuel o clock s)
  unfolding process_loop
  process_loop-around zero o clock s h = tt
  process_loop-around (suc fuel) o clock s h =
      process_round-around clock s (decode_buffer o s.generator s.recv_buffer)
        (process_loop fuel o clock) h (λ s' h'. process_loop-around fuel o clock s' h')

  process_packet-around :
      (o : ByteOrder) (clock : ℕ → ℕ) (s : Receiver)
      → HeardAround before mid s
      → HeardAroundEnd before mid (process_packet o clock s)
  unfolding process_packet
  process_packet-around o clock s h = process_loop-around _ o clock s h

  unreported :
      (s : Receiver) (again : Bool)
      → HeardAround before mid s
      → ReportedAround before mid (finished s again)
  unreported s again h =
      (h.0, [], h.1 ∙ ap (λ t. (before ++ mid) ++ t) (sym (append-nil h.0)), h.2, inl refl)

  disconnect-around :
      (s : Receiver) (again : Bool)
      → HeardAround before mid s
      → ReportedAround before mid (finished (disconnect s) again)
  unfolding disconnect
  disconnect-around s again h = (
    h.0,
    disconnected s.conn.device_id ∷ [],
    ap (λ t. t ++ disconnected s.conn.device_id ∷ []) h.1
        ∙ append_assoc (before ++ mid) h.0 (disconnected s.conn.device_id ∷ []),
    h.2,
    inr refl,
  )

  or_disconnect-around :
      (r : Outcome) → HeardAroundEnd before mid r → ReportedAround before mid (or_disconnect r)
  unfolding or_disconnect
  or_disconnect-around (finished s true) h = unreported s true h
  or_disconnect-around (finished s false) h = disconnect-around s false h
  or_disconnect-around read_past h = tt
  or_disconnect-around no_fuel h = tt

  pub read_round-around :
      (o : ByteOrder) (clock : ℕ → ℕ) (s : Receiver) (read : Read)
      → HeardAround before mid s
      → ReportedAround before mid (read_round o clock s read)
  unfolding read_round
  read_round-around o clock s gone h =
      unreported (record s { recv_buffer = (prepare s.recv_buffer (size_to_read s.recv_buffer)).0 })
        false h
  read_round-around o clock s failed h = disconnect-around _ false h
  read_round-around o clock s (received bytes) h =
      elim (Bool-cases
        (ltb 0 (length (take (prepare s.recv_buffer (size_to_read s.recv_buffer)).1.size bytes)))) [
          | inr nothing ↦ rw nothing (
              unreported
                (record s { recv_buffer = (prepare s.recv_buffer (size_to_read s.recv_buffer)).0 })
                true h)
          | inl some_bytes ↦
              rw some_bytes (or_disconnect-around _ (process_packet-around o clock _ h))
        ]
