-- ===== src/Connection/Chunks/Cut.antt =====
-- connection.hpp: the frames that are whole in the first bytes of a stream.
use asyncmsg.Base.{
  ◌-◌, ℕ, ◌+◌, ◌≤◌, ◌<◌, ◌≡◌, refl, sym, ap, ◌∙◌, arith, List, [], ◌∷◌, ◌++◌, length, take, drop,
  All, inl, inr, ◌⊎◌, length-append, append_assoc, take-append, take-append_of_le, drop-append,
  drop-append_of_le, take-append-drop, false,
}
use asyncmsg.Packet.{Packet, header_length}
use asyncmsg.Crc.{calc_crc8}
use asyncmsg.Packet.Frame.{wire, wire_checked, length-wire_checked}
use asyncmsg.Packet.Decode.Wire.{IsSendable}
use asyncmsg.Connection.Stream.{IsGood, frames}

-- So many bytes are not yet the first of these packets.
abbrev pub Waits : ℕ → List Packet → Type 0
Waits n [] = Unit
Waits n (p ∷ ps) = n < length (wire p)

-- The bytes `xs`, before `ys`, in a stream of frames: those of some packets, and part of one more.
pub record CutAt (ps : List Packet) (xs ys : List ℕ) : Type 0 where
  pub whole : List Packet
  pub todo : List Packet
  pub next : Packet
  pub n : ℕ
  pub split : ps ≡ whole ++ todo
  pub shape : xs ≡ frames whole ++ take n (wire next)
  pub part : n < length (wire next)
  pub sendable : IsSendable next
  pub rest : take n (wire next) ++ ys ≡ frames todo
  pub waits : Waits n todo

-- Some packet, for a stream that has none left.
abbrev blank : Packet
blank = record { cmd = 0; seq = 1; rsp = false; ec = 0; device_id = []; body = [] }

blank-IsSendable : IsSendable blank
blank-IsSendable = record {
  encodable = record {
    cmd_fits = omega arith;
    seq_fits = omega arith;
    ec_fits = omega arith;
    id_fits = omega arith;
    body_fits = omega arith;
  };
  body_small = omega arith;
}

pub length-wire : (p : Packet) → IsSendable p → length (wire p) ≡ header_length + length p.body
length-wire p v = omega (
  arith,
  length-append (wire_checked p) (calc_crc8 (wire_checked p) (header_length - 1) ∷ p.body),
  length-wire_checked p v.encodable.id_fits,
)

lt_or : (a b : ℕ) → (a < b) ⊎ (b ≤ a)
lt_or a b = ground arith

no_bytes : (xs ys : List ℕ) → xs ++ ys ≡ [] → (xs ≡ []) × (ys ≡ [])
no_bytes [] ys e = (refl, e)
no_bytes (x ∷ xs) ys e = absurd (ground arith)

-- A stream without packets.
cut_nothing : (xs ys : List ℕ) → xs ++ ys ≡ frames [] → CutAt [] xs ys
unfolding frames
cut_nothing xs ys e = record {
  whole = [];
  todo = [];
  next = blank;
  n = 0;
  split = refl;
  shape = (no_bytes xs ys e).0;
  part = omega (arith, length-wire blank blank-IsSendable);
  sendable = blank-IsSendable;
  rest = (no_bytes xs ys e).1;
  waits = tt;
}

module _ (p : Packet) (ps : List Packet) (xs ys : List ℕ) (e : xs ++ ys ≡ wire p ++ frames ps) where
  -- The first frame is not whole.
  cut_before : IsSendable p → length xs < length (wire p) → CutAt (p ∷ ps) xs ys
  unfolding frames
  cut_before sendable short =
      let same : xs ≡ take (length xs) (wire p) =
        sym (take-append (length xs) xs ys refl)
        ∙ (ap (take (length xs)) e
            ∙ take-append_of_le (length xs) (wire p) (frames ps) (omega (arith, short))) in
      record {
        whole = [];
        todo = p ∷ ps;
        next = p;
        n = length xs;
        split = refl;
        shape = same;
        part = short;
        sendable = sendable;
        rest = ap (λ t. t ++ ys) (sym same) ∙ e;
        waits = short;
      }

  -- It is, and the others come behind it.
  first_frame : length (wire p) ≤ length xs → xs ≡ wire p ++ drop (length (wire p)) xs
  first_frame long =
      let k = length (wire p) in
      sym (take-append-drop k xs)
      ∙ ap (λ t. t ++ drop k xs)
          (sym (take-append_of_le k xs ys long)
            ∙ (ap (take k) e ∙ take-append k (wire p) (frames ps) refl))

  others : length (wire p) ≤ length xs → drop (length (wire p)) xs ++ ys ≡ frames ps
  others long =
      let k = length (wire p) in
      sym (drop-append_of_le k xs ys long)
      ∙ (ap (drop k) e ∙ drop-append k (wire p) (frames ps) refl)

  cut_behind :
      length (wire p) ≤ length xs → CutAt ps (drop (length (wire p)) xs) ys → CutAt (p ∷ ps) xs ys
  unfolding frames
  cut_behind long c = record {
    whole = p ∷ c.whole;
    todo = c.todo;
    next = c.next;
    n = c.n;
    split = ap (λ l. p ∷ l) c.split;
    shape =
        first_frame long
        ∙ (ap (λ t. wire p ++ t) c.shape
            ∙ sym (append_assoc (wire p) (frames c.whole) (take c.n (wire c.next))));
    part = c.part;
    sendable = c.sendable;
    rest = c.rest;
    waits = c.waits;
  }

pub cut :
    (ps : List Packet) (xs ys : List ℕ) → All IsGood ps → xs ++ ys ≡ frames ps → CutAt ps xs ys
unfolding frames
cut [] xs ys good e = cut_nothing xs ys e
cut (p ∷ ps) xs ys good e = elim (lt_or (length xs) (length (wire p))) [
  | inl short ↦ cut_before p ps xs ys e good.0.0 short
  | inr long ↦
      cut_behind p ps xs ys e long
        (cut ps (drop (length (wire p)) xs) ys good.1 (others p ps xs ys e long))
]
