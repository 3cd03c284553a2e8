-- ===== src/Connection/Chunks/Rounds.antt =====
-- connection.hpp: a round of `receive_packet` on a stream of frames.
use asyncmsg.Base.{
  ℕ, ◌+◌, ◌<◌, ◌≡◌, refl, sym, ap, subst, ◌∙◌, arith, true, false, List, [], ◌∷◌, ◌++◌, length,
  take, drop, All, inl, inr, length-take, append_assoc, Bool-cases, ltb, All-split,
  take_of_length-le, take-append-drop,
}
use asyncmsg.ByteOrder.{ByteOrder}
use asyncmsg.IoBuffer.{prepare}
use asyncmsg.IoBuffer.Inv.{sizes, prepare_slab}
use asyncmsg.IoBuffer.Queue.{read_in, contents-read_in}
use asyncmsg.IoBuffer.Contents.{contents, length-contents, contents-prepare}
use asyncmsg.Packet.{Packet, header_length, max_body_length}
use asyncmsg.Packet.Frame.{wire}
use asyncmsg.Connection.{
  disconnected, Receiver, Outcome, finished, read_past, no_fuel, received, size_to_read,
  receive_round, read_round, or_disconnect, disconnect, process_packet,
}
use asyncmsg.Connection.Total.{
  Settled, process_packet-Settled, size_to_read-positive, IsReady, filled-IsReady, prepared-IsReady,
  receive_round-read,
}
use asyncmsg.Connection.Stream.{
  IsGood, frames, Progress, progress, handle_packets, Follows, process_packet-frames,
}
use asyncmsg.Connection.Chunks.Handling.{then_packets}
use asyncmsg.Connection.Chunks.{read_size}
use asyncmsg.Connection.Chunks.Cut.{CutAt, Waits, cut}

pub length-zero : (xs : List ℕ) → length xs ≡ 0 → xs ≡ []
length-zero [] e = refl
length-zero (x ∷ xs) e = absurd (omega arith)

-- The stream so far: the first of the packets are handled, and the buffer holds the beginning of the next.
pub record Under (clock : ℕ → ℕ) (begun : Progress) (ps : List Packet) (stream : List ℕ)
    (s : Receiver) : Type 0 where
  pub whole : List Packet
  pub todo : List Packet
  pub split : ps ≡ whole ++ todo
  pub so_far : handle_packets clock begun whole ≡ (progress s, true)
  pub left_over : contents s.recv_buffer ++ stream ≡ frames todo
  pub ready : IsReady s
  pub short : length (contents s.recv_buffer) < header_length + max_body_length
  pub waits : Waits (length (contents s.recv_buffer)) todo

-- One of the packets is refused, and the end is reported.
pub record Stopped (clock : ℕ → ℕ) (begun : Progress) (ps : List Packet) (s : Receiver)
    : Type 0 where
  pub last : Progress
  pub so_far : handle_packets clock begun ps ≡ (last, false)
  pub reported :
      progress s ≡ record last { events = last.events ++ disconnected last.conn.device_id ∷ [] }

abbrev pub After : (ℕ → ℕ) → Progress → List Packet → List ℕ → Outcome → Type 0
After clock begun ps stream (finished s true) = Under clock begun ps stream s
After clock begun ps stream (finished s false) = Stopped clock begun ps s
After clock begun ps stream read_past = ⊥
After clock begun ps stream no_fuel = ⊥

-- How many bytes a round reads.
module _ (s : Receiver) (ready : IsReady s)
    (short : length (contents s.recv_buffer) < header_length + max_body_length) where
  pub read_size-positive : (come : ℕ) → 0 < come → 0 < read_size s come
  read_size-positive come positive = omega (
    arith,
    size_to_read-positive s.recv_buffer ready.valid ready.full_size short,
    prepare_slab (size_to_read s.recv_buffer) ready.valid,
    sizes ready.valid,
    length-contents ready.valid,
    ready.full_size,
    short,
  )

  contents-filled :
      (come : ℕ) (stream : List ℕ)
      → contents
          (read_in s.recv_buffer (size_to_read s.recv_buffer) (take (read_size s come) stream))
        ≡ contents s.recv_buffer ++ take (read_size s come) stream
  contents-filled come stream =
      contents-read_in (size_to_read s.recv_buffer) (take (read_size s come) stream) ready.valid
      ∙ ap (λ t. contents s.recv_buffer ++ t)
          (take_of_length-le _ (take (read_size s come) stream) (
            omega (
              arith,
              length-take (read_size s come) stream,
              prepare_slab (size_to_read s.recv_buffer) ready.valid,
              sizes ready.valid,
              length-contents ready.valid,
            )))

module _ (o : ByteOrder) (clock : ℕ → ℕ) (begun : Progress) (ps : List Packet) (stream : List ℕ)
    (s : Receiver) (come : ℕ) (good : All IsGood ps) (u : Under clock begun ps stream s) where
  n : ℕ
  n = read_size s come

  bytes : List ℕ
  bytes = contents s.recv_buffer ++ take n stream

  todo-IsGood : All IsGood u.todo
  todo-IsGood = (All-split IsGood u.whole u.todo (subst (All IsGood) u.split good)).1

  here : CutAt u.todo bytes (drop n stream)
  unfolding bytes n
  here = cut u.todo bytes (drop n stream) todo-IsGood (
      append_assoc (contents s.recv_buffer) (take n stream) (drop n stream)
      ∙ (ap (λ t. contents s.recv_buffer ++ t) (take-append-drop n stream) ∙ u.left_over))

  split_here : ps ≡ (u.whole ++ here.whole) ++ here.todo
  split_here =
      u.split
      ∙ (ap (λ t. u.whole ++ t) here.split ∙ sym (append_assoc u.whole here.whole here.todo))

  -- After the bytes are processed.
  processed :
      (r : Outcome)
      → Settled r
      → Follows (handle_packets clock (progress s) here.whole) (take here.n (wire here.next)) r
      → After clock begun ps (drop n stream) (or_disconnect r)
  unfolding or_disconnect disconnect
  processed (finished s' true) settled h = record {
    whole = u.whole ++ here.whole;
    todo = here.todo;
    split = split_here;
    so_far = then_packets clock begun u.whole here.whole (progress s, true) u.so_far ∙ h.0;
    left_over = ap (λ t. t ++ drop n stream) h.1 ∙ here.rest;
    ready = settled.0;
    short = settled.1;
    waits =
        subst (λ k. Waits k here.todo)
          (omega (arith, ap length h.1, length-take here.n (wire here.next), here.part)) here.waits;
  }
  processed (finished s' false) settled h = record {
    last = progress s';
    so_far =
        ap (handle_packets clock begun) split_here
        ∙ then_packets clock begun (u.whole ++ here.whole) here.todo (progress s', false)
            (then_packets clock begun u.whole here.whole (progress s, true) u.so_far ∙ h);
    reported = refl;
  }
  processed read_past settled h = h
  processed no_fuel settled h = h

  -- Nothing has come.
  nothing_read :
      length (take n stream) ≡ 0
      → Under clock begun ps
          (drop n stream)
          (record s { recv_buffer = (prepare s.recv_buffer (size_to_read s.recv_buffer)).0 })
  nothing_read e =
      let same = contents-prepare (size_to_read s.recv_buffer) u.ready.valid in
      record {
        whole = u.whole;
        todo = u.todo;
        split = u.split;
        so_far = u.so_far;
        left_over =
            ap (λ t. t ++ drop n stream) same
            ∙ (ap (λ t. contents s.recv_buffer ++ t)
                  (ap (λ t. t ++ drop n stream) (sym (length-zero (take n stream) e))
                    ∙ take-append-drop n stream)
                ∙ u.left_over);
        ready = prepared-IsReady o clock s u.ready u.short;
        short = rw same u.short;
        waits = rw same u.waits;
      }

  fits_slab :
      take (prepare s.recv_buffer (size_to_read s.recv_buffer)).1.size (take n stream)
      ≡ take n stream
  unfolding n
  fits_slab = take_of_length-le _ (take n stream) (omega (arith, length-take n stream))

  -- Something has come.
  some_read : After clock begun ps (drop n stream) (
      or_disconnect (
        process_packet o clock (record s {
          recv_buffer = read_in s.recv_buffer (size_to_read s.recv_buffer) (take n stream);
        })))
  unfolding n bytes
  some_read =
      let filled = filled-IsReady o clock s u.ready u.short (take n stream) in
      processed _ (process_packet-Settled o clock _ filled) (
        process_packet-frames o clock _ here.whole here.next here.n filled
          (All-split IsGood here.whole here.todo (subst (All IsGood) here.split todo-IsGood)).0
          here.sendable here.part (contents-filled s u.ready u.short come stream ∙ here.shape))

  read_round-After :
      After clock begun ps (drop n stream) (read_round o clock s (received (take n stream)))
  unfolding read_round read_in
  read_round-After =
      elim (Bool-cases (
        ltb 0 (
          length
            (take (prepare s.recv_buffer (size_to_read s.recv_buffer)).1.size (take n stream))))) [
              | inl some_bytes ↦ rw some_bytes some_read
              | inr nothing ↦ rw nothing (nothing_read (ground (arith, ap length fits_slab)))
            ]

  pub receive_round-After :
      After clock begun ps
        (drop (read_size s come) stream)
        (receive_round o clock s (received (take (read_size s come) stream)))
  unfolding n
  receive_round-After =
      rw (receive_round-read o clock s u.ready u.short (received (take n stream))) read_round-After
