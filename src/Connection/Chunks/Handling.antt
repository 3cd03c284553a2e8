-- ===== src/Connection/Chunks/Handling.antt =====
-- connection.hpp: packets that are handled after others.
use asyncmsg.Base.{ℕ, suc, ◌≡◌, refl, ap, ◌∙◌, Bool, true, false, List, [], ◌∷◌, ◌++◌}
use asyncmsg.Packet.{Packet}
use asyncmsg.Connection.{Handled, handled, refused, handle_packet}
use asyncmsg.Connection.Stream.{Progress, handle_packets}

-- What comes after packets, unless one of them is refused.
abbrev pub afterwards : Progress × Bool → (Progress → Progress × Bool) → Progress × Bool
afterwards (v, true) next = next v
afterwards (v, false) next = (v, false)

handle_packets-append :
    (clock : ℕ → ℕ) (v : Progress) (ps qs : List Packet)
    → handle_packets clock v (ps ++ qs)
      ≡ afterwards (handle_packets clock v ps) (λ v'. handle_packets clock v' qs)
unfolding handle_packets
handle_packets-append clock v [] qs = refl
handle_packets-append clock v (p ∷ ps) qs =
    go (λ v'. handle_packets-append clock v' ps qs) (handle_packet (clock v.round) v.conn p)
  where
    go :
        ((v' : Progress)
          → handle_packets clock v' (ps ++ qs)
            ≡ afterwards (handle_packets clock v' ps) (λ v'. handle_packets clock v' qs))
        → (h : Handled)
        → ◌≡◌ {A = Progress × Bool}
            (elim h [
              | handled conn events ↦
                  handle_packets clock
                    (record { conn = conn; events = v.events ++ events; round = suc v.round })
                    (ps ++ qs)
              | refused ↦ (record v { round = suc v.round }, false)
            ])
            (afterwards
              (elim h [
                | handled conn events ↦
                    handle_packets clock
                      (record { conn = conn; events = v.events ++ events; round = suc v.round })
                      ps
                | refused ↦ (record v { round = suc v.round }, false)
              ])
              (λ v'. handle_packets clock v' qs))
    go next (handled conn events) = next _
    go next refused = refl

-- The packets `ps` lead here, and then `qs` follow.
pub then_packets :
    (clock : ℕ → ℕ) (v : Progress) (ps qs : List Packet) (r : Progress × Bool)
    → handle_packets clock v ps ≡ r
    → handle_packets clock v (ps ++ qs) ≡ afterwards r (λ v'. handle_packets clock v' qs)
then_packets clock v ps qs r e =
    handle_packets-append clock v ps qs
    ∙ ap (λ t. afterwards t (λ v'. handle_packets clock v' qs)) e
