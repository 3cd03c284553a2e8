-- ===== src/Connection/Chunks/Delivery.antt =====
-- connection.hpp: `receive_packet` on a whole stream of frames.
use asyncmsg.Base.{
  ℕ, ◌≤◌, ◌<◌, ◌≡◌, refl, sym, ap, subst, ◌∙◌, arith, Bool, true, false, List, [], ◌∷◌, ◌++◌,
  length, take, drop, All, append-nil, length-drop, length-append,
}
use asyncmsg.ByteOrder.{ByteOrder}
use asyncmsg.IoBuffer.Contents.{contents}
use asyncmsg.Packet.{Packet}
use asyncmsg.Packet.Frame.{wire}
use asyncmsg.Connection.{
  disconnected, Receiver, Outcome, finished, read_past, no_fuel, received, receive_round,
}
use asyncmsg.Connection.Total.{IsReady}
use asyncmsg.Connection.Stream.{
  length-wire-positive, IsGood, frames, Progress, progress, handle_packets,
}
use asyncmsg.Connection.Chunks.{and_then, read_size, receive_stream}
use asyncmsg.Connection.Chunks.Cut.{Waits}
use asyncmsg.Connection.Chunks.Rounds.{
  length-zero, Under, After, read_size-positive, receive_round-After,
}

-- What has become of the packets of a stream, and the bytes in the buffer.
abbrev pub IsReceived : Progress × Bool → Outcome → Type 0
IsReceived target (finished s true) = (target ≡ (progress s, true)) × (contents s.recv_buffer ≡ [])
IsReceived target (finished s false) =
    (last : Progress) × (target ≡ (last, false))
    × (progress s ≡ record last { events = last.events ++ disconnected last.conn.device_id ∷ [] })
IsReceived target read_past = ⊥
IsReceived target no_fuel = ⊥

-- The same end, and the same progress.
abbrev pub SameOutcome : Outcome → Outcome → Type 0
SameOutcome (finished s true) (finished s' true) = progress s ≡ progress s'
SameOutcome (finished s false) (finished s' false) = progress s ≡ progress s'
SameOutcome (finished s true) _ = ⊥
SameOutcome (finished s false) _ = ⊥
SameOutcome read_past _ = ⊥
SameOutcome no_fuel _ = ⊥

different :
    (target : Progress × Bool) (v w : Progress) → target ≡ (v, true) → target ≡ (w, false) → ⊥
different target v w e f = ground arith

empty-Waits : (ps : List Packet) (xs : List ℕ) → xs ≡ [] → Waits (length xs) ps
empty-Waits [] xs e = tt
empty-Waits (p ∷ ps) xs e = omega (arith, ap length e, length-wire-positive p)

-- Nothing is unread, unless the connection has ended.
abbrev Emptied : Outcome × List ℕ → Type 0
Emptied (finished s true, rest) = rest ≡ []
Emptied (finished s false, rest) = Unit
Emptied (read_past, rest) = Unit
Emptied (no_fuel, rest) = Unit

-- Bytes that are the frames of packets, and less than the first of them: there are none.
none_left : (ps : List Packet) (xs : List ℕ) → xs ≡ frames ps → Waits (length xs) ps → ps ≡ []
unfolding frames
none_left [] xs e w = refl
none_left (p ∷ ps) xs e w =
    absurd (omega (arith, w, ap length e, length-append (wire p) (frames ps)))

module _ (o : ByteOrder) (clock : ℕ → ℕ) (begun : Progress) (ps : List Packet)
    (good : All IsGood ps) where
  -- Whatever has come, the first of the packets are handled.
  receive_stream-After :
      (s : Receiver) (stream comes : List ℕ)
      → Under clock begun ps stream s
      → After clock begun ps
          (receive_stream o clock s stream comes).1
          (receive_stream o clock s stream comes).0
  unfolding receive_stream
  receive_stream-After s stream [] u = u
  receive_stream-After s stream (come ∷ comes) u =
      go (receive_round o clock s (received (take (read_size s come) stream)))
        (receive_round-After o clock begun ps stream s come good u)
        (λ s'. receive_stream o clock s' (drop (read_size s come) stream) comes)
        (λ s' u'. receive_stream-After s' (drop (read_size s come) stream) comes u')
    where
      go :
          (r : Outcome)
          → After clock begun ps (drop (read_size s come) stream) r
          → (next : Receiver → Outcome × List ℕ)
          → ((s' : Receiver)
              → Under clock begun ps (drop (read_size s come) stream) s'
              → After clock begun ps (next s').1 (next s').0)
          → After clock begun ps
              (and_then r (drop (read_size s come) stream) next).1
              (and_then r (drop (read_size s come) stream) next).0
      go (finished s' true) h next holds = holds s' h
      go (finished s' false) h next holds = h
      go read_past h next holds = h
      go no_fuel h next holds = h

  -- Each read takes something, as long as there is anything.
  receive_stream-Emptied :
      (s : Receiver) (stream comes : List ℕ)
      → Under clock begun ps stream s
      → All (λ come. 0 < come) comes
      → length stream ≤ length comes
      → Emptied (receive_stream o clock s stream comes)
  unfolding receive_stream
  receive_stream-Emptied s stream [] u some_come enough = length-zero stream (omega (arith, enough))
  receive_stream-Emptied s stream (come ∷ comes) u some_come enough =
      go (receive_round o clock s (received (take (read_size s come) stream)))
        (receive_round-After o clock begun ps stream s come good u)
        (λ s'. receive_stream o clock s' (drop (read_size s come) stream) comes)
        (λ s' u'. receive_stream-Emptied s' (drop (read_size s come) stream) comes u' some_come.1 (
          omega (
            arith,
            length-drop (read_size s come) stream,
            read_size-positive s u.ready u.short come some_come.0,
          )))
    where
      go :
          (r : Outcome)
          → After clock begun ps (drop (read_size s come) stream) r
          → (next : Receiver → Outcome × List ℕ)
          → ((s' : Receiver)
              → Under clock begun ps (drop (read_size s come) stream) s'
              → Emptied (next s'))
          → Emptied (and_then r (drop (read_size s come) stream) next)
      go (finished s' true) h next holds = holds s' h
      go (finished s' false) h next holds = tt
      go read_past h next holds = tt
      go no_fuel h next holds = tt

  -- A stream that is read to its end has brought all the packets.
  all_handled :
      (s : Receiver)
      → Under clock begun ps [] s
      → (handle_packets clock begun ps ≡ (progress s, true)) × (contents s.recv_buffer ≡ [])
  unfolding frames
  all_handled s u =
      let left = sym (append-nil (contents s.recv_buffer)) ∙ u.left_over in
      let nothing = none_left u.todo (contents s.recv_buffer) left u.waits in
      (
        ap (handle_packets clock begun)
              (u.split ∙ (ap (λ t. u.whole ++ t) nothing ∙ append-nil u.whole))
            ∙ u.so_far,
        left ∙ ap frames nothing,
      )

  all-IsReceived :
      (r : Outcome) (rest : List ℕ)
      → After clock begun ps rest r
      → Emptied (r, rest)
      → IsReceived (handle_packets clock begun ps) r
  all-IsReceived (finished s true) rest h e =
      all_handled s (subst (λ t. Under clock begun ps t s) e h)
  all-IsReceived (finished s false) rest h e = (h.last, h.so_far, h.reported)
  all-IsReceived read_past rest h e = h
  all-IsReceived no_fuel rest h e = h

-- Both ends are the same, when both come from the same packets.
same-IsReceived :
    (target : Progress × Bool) (r r' : Outcome)
    → IsReceived target r
    → IsReceived target r'
    → SameOutcome r r'
same-IsReceived target (finished s true) (finished s' true) h h' =
    ap (λ (t : Progress × Bool). t.0) (sym h.0 ∙ h'.0)
same-IsReceived target (finished s true) (finished s' false) h h' = different target _ _ h.0 h'.1
same-IsReceived target (finished s false) (finished s' true) h h' = different target _ _ h'.0 h.1
same-IsReceived target (finished s false) (finished s' false) h h' =
    h.2
    ∙ (ap
          (λ (t : Progress × Bool). record t.0 {
            events = t.0.events ++ disconnected t.0.conn.device_id ∷ [];
          })
          (sym h.1 ∙ h'.1)
        ∙ sym h'.2)
same-IsReceived target (finished s true) read_past h h' = h'
same-IsReceived target (finished s true) no_fuel h h' = h'
same-IsReceived target (finished s false) read_past h h' = h'
same-IsReceived target (finished s false) no_fuel h h' = h'
same-IsReceived target read_past r' h h' = absurd h
same-IsReceived target no_fuel r' h h' = absurd h

module _ (o : ByteOrder) (clock : ℕ → ℕ) (s : Receiver) (ps : List Packet) (ready : IsReady s)
    (empty : contents s.recv_buffer ≡ []) (good : All IsGood ps) where
  begin : Under clock (progress s) ps (frames ps) s
  unfolding handle_packets
  begin = record {
    whole = [];
    todo = ps;
    split = refl;
    so_far = refl;
    left_over = ap (λ t. t ++ frames ps) empty;
    ready = ready;
    short = omega (arith, ap length empty);
    waits = empty-Waits ps (contents s.recv_buffer) empty;
  }

  -- The frames of sendable, intact packets arrive in pieces of any sizes, at least one byte with each
  -- read, and there are enough reads; the receive buffer is empty at first. Then `receive_packet`
  -- handles just these packets, in their order: at the first that is refused it reports the end and
  -- stops, and if none is, nothing is left in the buffer.
  pub receive_stream-IsReceived :
      (comes : List ℕ)
      → All (λ come. 0 < come) comes
      → length (frames ps) ≤ length comes
      → IsReceived
          (handle_packets clock (progress s) ps)
          (receive_stream o clock s (frames ps) comes).0
  receive_stream-IsReceived comes some_come enough =
      all-IsReceived o clock (progress s) ps good (receive_stream o clock s (frames ps) comes).0
        (receive_stream o clock s (frames ps) comes).1
        (receive_stream-After o clock (progress s) ps good s (frames ps) comes begin)
        (receive_stream-Emptied o clock (progress s) ps good s (frames ps) comes begin some_come
          enough)

  -- Two ways to cut the frames of sendable, intact packets into pieces, for a `receive_packet` with an
  -- empty buffer that reads them all: it ends in the same way after both, with the same connection, the
  -- same events and the same number of handled packets.
  pub receive_stream-SameOutcome :
      (comes comes' : List ℕ)
      → All (λ come. 0 < come) comes
      → All (λ come. 0 < come) comes'
      → length (frames ps) ≤ length comes
      → length (frames ps) ≤ length comes'
      → SameOutcome
          (receive_stream o clock s (frames ps) comes).0
          (receive_stream o clock s (frames ps) comes').0
  receive_stream-SameOutcome comes comes' some_come some_come' enough enough' =
      same-IsReceived (handle_packets clock (progress s) ps) _ _
        (receive_stream-IsReceived comes some_come enough)
        (receive_stream-IsReceived comes' some_come' enough')
