-- ===== src/Connection/Stream.antt =====
-- connection.hpp: the stream of frames that a connection receives, and the packets that are handled.
use asyncmsg.Base.{
  ℕ, zero, suc, ◌+◌, ◌^◌, ◌-◌, ◌≤◌, ◌<◌, ◌≡◌, refl, ap, subst, sym, ◌∙◌, arith, Bool, true, false,
  List, [], ◌∷◌, ◌++◌, length, All, drop, take, append_assoc, length-append, drop-append,
}
use asyncmsg.ByteOrder.{ByteOrder}
use asyncmsg.IoBuffer.{IoBuffer, consume, size}
use asyncmsg.IoBuffer.Inv.{IsValid, sizes}
use asyncmsg.IoBuffer.Contents.{contents, contents-consume, length-contents}
use asyncmsg.Packet.{Packet, none_yet, packet, decode_packet}
use asyncmsg.Packet.Frame.{wire}
use asyncmsg.Packet.Decode.Wire.{IsSendable, decode_packet-wire}
use asyncmsg.Packet.Decode.RoundTrip.{IsIntact, arrived_intact}
use asyncmsg.Packet.Decode.Partial.{decode_packet_partial}
use asyncmsg.Connection.{
  Connection, Event, Receiver, Outcome, finished, read_past, no_fuel, Handled, handled, refused,
  handle_packet, process_round, process_loop, process_packet, decode_buffer,
}
use asyncmsg.Connection.Total.{
  IsReady, decode_buffer-contents, consumed-IsValid, consumed-full_size,
}

-- The part of a receiver that packets change, apart from the buffer.
pub record Progress : Type 0 where
  pub conn : Connection
  pub events : List Event
  pub round : ℕ

abbrev pub progress : Receiver → Progress
progress s = record { conn = s.conn; events = s.events; round = s.round }

-- The packets handled one after the other; the Boolean tells whether none was refused.
unfoldable pub handle_packets : (ℕ → ℕ) → Progress → List Packet → Progress × Bool
handle_packets clock v [] = (v, true)
handle_packets clock v (p ∷ ps) = elim (handle_packet (clock v.round) v.conn p) [
  | handled conn events ↦
      handle_packets clock
        (record { conn = conn; events = v.events ++ events; round = suc v.round }) ps
  | refused ↦ (record v { round = suc v.round }, false)
]

-- The frames of packets, one behind the other.
unfoldable pub frames : List Packet → List ℕ
frames [] = []
frames (p ∷ ps) = wire p ++ frames ps

abbrev pub IsGood : Packet → Type 0
IsGood p = IsSendable p × IsIntact p

-- The outcome of handling packets with these bytes behind their frames.
abbrev pub Follows : Progress × Bool → List ℕ → Outcome → Type 0
Follows target rest (finished s true) =
    (target ≡ (progress s, true)) × (contents s.recv_buffer ≡ rest)
Follows target rest (finished s false) = target ≡ (progress s, false)
Follows target rest read_past = ⊥
Follows target rest no_fuel = ⊥

module _ (o : ByteOrder) (generator : ℕ) (b : IoBuffer) (v : IsValid b) where
  -- The beginning of a frame is left alone.
  decoded_part :
      (q : Packet) (n : ℕ)
      → IsSendable q
      → n < length (wire q)
      → contents b ≡ take n (wire q)
      → decode_buffer o generator b ≡ none_yet 0
  decoded_part q n sendable part e =
      decode_buffer-contents o generator b v
      ∙ (ap (λ t. decode_packet o generator t (drop (b.tail_ - b.head_) (drop b.head_ b.buffer))) e
          ∙ decode_packet_partial o generator q []
              (drop (b.tail_ - b.head_) (drop b.head_ b.buffer)) n sendable tt part)

  -- The first frame gives its packet.
  decoded_frame :
      (p : Packet) (rest : List ℕ)
      → IsGood p
      → contents b ≡ wire p ++ rest
      → decode_buffer o generator b ≡ packet (length (wire p)) p generator
  decoded_frame p rest good e =
      let k : 0 + length (wire p) ≡ length (wire p) = omega arith in
      decode_buffer-contents o generator b v
      ∙ (ap (λ t. decode_packet o generator t (drop (b.tail_ - b.head_) (drop b.head_ b.buffer))) e
          ∙ (decode_packet-wire o generator p [] rest
                (drop (b.tail_ - b.head_) (drop b.head_ b.buffer)) good.0 tt
              ∙ (ap (λ t. packet (0 + length (wire p)) t.0 t.1) (arrived_intact generator p good.1)
                  ∙ ap (λ m. packet m p generator) k)))

pub length-wire-positive : (p : Packet) → 1 ≤ length (wire p)
length-wire-positive p = omega arith

module _ (o : ByteOrder) (clock : ℕ → ℕ) (q : Packet) (n : ℕ) (sendable : IsSendable q)
    (part : n < length (wire q)) where
  -- The round on the first of the frames, if the rounds after it do what they should.
  process_round_frame :
      (p : Packet) (ps : List Packet) (s : Receiver) (again : Receiver → Outcome)
      → IsReady s
      → contents s.recv_buffer ≡ wire p ++ (frames ps ++ take n (wire q))
      → ((s' : Receiver)
          → IsReady s'
          → contents s'.recv_buffer ≡ frames ps ++ take n (wire q)
          → Follows (handle_packets clock (progress s') ps) (take n (wire q)) (again s'))
      → Follows
          (handle_packets clock (progress s) (p ∷ ps))
          (take n (wire q))
          (process_round clock s (packet (length (wire p)) p s.generator) again)
  unfolding process_round handle_packets
  process_round_frame p ps s again ready e rest = go (handle_packet (clock s.round) s.conn p)
    where
      rest_bytes : List ℕ
      rest_bytes = frames ps ++ take n (wire q)

      fits : length (wire p) ≤ length (contents s.recv_buffer)
      fits = omega (arith, ap length e, length-append (wire p) rest_bytes)

      small : length (wire p) < 2 ^ 63
      small = omega (arith, fits, length-contents ready.valid, ready.valid.inside, ready.full_size)

      left_over : contents (consume s.recv_buffer (length (wire p))) ≡ frames ps ++ take n (wire q)
      left_over =
          contents-consume (length (wire p)) ready.valid small
          ∙ (ap (drop (length (wire p))) e
              ∙ drop-append (length (wire p)) (wire p) (frames ps ++ take n (wire q)) refl)

      go :
          (r : Handled)
          → Follows
              (elim r [
                | handled conn events ↦
                    handle_packets clock
                      (record { conn = conn; events = s.events ++ events; round = suc s.round })
                      ps
                | refused ↦
                    (record { conn = s.conn; events = s.events; round = suc s.round }, false)
              ])
              (take n (wire q))
              (elim r [
                | handled conn events ↦ again (record s {
                  recv_buffer = consume s.recv_buffer (length (wire p));
                  generator = s.generator;
                  round = suc s.round;
                  conn = conn;
                  events = s.events ++ events;
                })
                | refused ↦
                    finished
                      (record s {
                        recv_buffer = consume s.recv_buffer (length (wire p));
                        generator = s.generator;
                        round = suc s.round;
                      })
                      false
              ])
      go (handled conn events) =
          rest _
            (record {
              valid = consumed-IsValid (length (wire p)) ready fits;
              full_size = consumed-full_size (length (wire p)) ready fits;
            })
            left_over
      go refused = refl

  -- The round on what is left behind the frames.
  process_round_rest :
      (s : Receiver) (again : Receiver → Outcome)
      → IsReady s
      → contents s.recv_buffer ≡ take n (wire q)
      → Follows
          (handle_packets clock (progress s) [])
          (take n (wire q))
          (process_round clock s (none_yet 0) again)
  unfolding process_round handle_packets
  process_round_rest s again ready e = (refl, contents-consume 0 ready.valid (omega arith) ∙ e)

  process_loop-frames :
      (ps : List Packet) (fuel : ℕ) (s : Receiver)
      → IsReady s
      → All IsGood ps
      → contents s.recv_buffer ≡ frames ps ++ take n (wire q)
      → length (contents s.recv_buffer) < fuel
      → Follows
          (handle_packets clock (progress s) ps)
          (take n (wire q))
          (process_loop fuel o clock s)
  unfolding process_loop frames
  process_loop-frames ps zero s ready good e h = absurd (omega arith)
  process_loop-frames [] (suc fuel) s ready good e h =
      subst
        (λ d.
          Follows (handle_packets clock (progress s) []) (take n (wire q))
            (process_round clock s d (process_loop fuel o clock)))
        (sym (decoded_part o s.generator s.recv_buffer ready.valid q n sendable part e))
        (process_round_rest s (process_loop fuel o clock) ready e)
  process_loop-frames (p ∷ ps) (suc fuel) s ready good e h =
      let e' = e ∙ append_assoc (wire p) (frames ps) (take n (wire q)) in
      subst
        (λ d.
          Follows (handle_packets clock (progress s) (p ∷ ps)) (take n (wire q))
            (process_round clock s d (process_loop fuel o clock)))
        (sym (decoded_frame o s.generator s.recv_buffer ready.valid p _ good.0 e'))
        (process_round_frame p ps s (process_loop fuel o clock) ready e' (λ s' ready' left.
          process_loop-frames ps fuel s' ready' good.1 left (
            omega (
              arith,
              ap length left,
              ap length e',
              length-append (wire p) (frames ps ++ take n (wire q)),
              length-wire-positive p,
            ))))

-- When the buffer holds the frames of sendable, intact packets and then the beginning of another frame,
-- `process_packet` handles just these packets, in their order, as `handle_packets` does: it returns
-- false at the first that is refused, and else true, with the beginning left in the buffer.
pub process_packet-frames :
    (o : ByteOrder) (clock : ℕ → ℕ) (s : Receiver) (ps : List Packet) (q : Packet) (n : ℕ)
    → IsReady s
    → All IsGood ps
    → IsSendable q
    → n < length (wire q)
    → contents s.recv_buffer ≡ frames ps ++ take n (wire q)
    → Follows (handle_packets clock (progress s) ps) (take n (wire q)) (process_packet o clock s)
unfolding process_packet
process_packet-frames o clock s ps q n ready good sendable part e =
    process_loop-frames o clock q n sendable part ps (suc (size s.recv_buffer)) s ready good e
      (omega (arith, length-contents ready.valid, sizes ready.valid))
