-- ===== src/Client/Requests.antt =====
-- tcp_client.hpp: the requests that a client receives, and which of them it passes on.
use asyncmsg.Base.{
  ℕ, zero, suc, ◌≤◌, ◌<◌, ◌≡◌, refl, ap, ap₂, sym, subst, ◌∙◌, arith, true, false, List, [], ◌∷◌,
  take, ◌==◌, ==_refl, Bool-cases, Option-cases, inl, inr, ◌+◌, Option, none, some, length,
}
use mathlib.Core.Option.{some-injective, none-ne-some}
use asyncmsg.Lru.{Lru, find, exist, put}
use asyncmsg.Lru.Nodes.{values, remove}
use asyncmsg.Lru.Exist.{IsValid, contains, exist-values, exist-IsValid}
use asyncmsg.Lru.Put.{put-values, put-IsValid}
use asyncmsg.Packet.{Packet, packet_id}
use asyncmsg.Client.{
  Client, Received, received, null_dereference, pass_on, wait_request,
  recently_received_request_cap,
}

abbrev pub IsKept : Client → Type 0
IsKept c =
    IsValid c.recently_received_request
    × (c.recently_received_request.cap ≡ recently_received_request_cap)

-- The ids of the requests that came last, the latest first.
abbrev pub recent : Client → List ℕ
recent c = values c.recently_received_request.l

contains_more :
    (n v : ℕ) (vs : List ℕ) → contains (take n vs) v ≡ true → contains (take (suc n) vs) v ≡ true
unfolding contains
contains_more zero v vs h = absurd (ground arith)
contains_more (suc n) v [] h = h
contains_more (suc n) v (w ∷ vs) h = ground (arith, contains_more n v vs)

contains-remove :
    (n v w : ℕ) (vs : List ℕ)
    → (w == v) ≡ false
    → contains (take n vs) v ≡ true
    → contains (take n (remove w vs)) v ≡ true
unfolding contains remove
contains-remove zero v w vs ne h = h
contains-remove (suc n) v w [] ne h = h
contains-remove (suc n) v w (u ∷ vs) ne h =
    ground (arith, contains-remove n v w vs ne, contains_more n v vs)

-- One more request moves an id back by one place at most.
contains-recent :
    (n v w : ℕ) (vs : List ℕ)
    → contains (take n vs) v ≡ true
    → contains (take (suc n) (w ∷ remove w vs)) v ≡ true
unfolding contains
contains-recent n v w vs h = elim (Bool-cases (w == v)) [
  | inl this ↦ rw this refl
  | inr other ↦ rw other (contains-remove n v w vs other h)
]

cap-exist : (c : Lru) (v : ℕ) → (exist c v).0.cap ≡ c.cap
unfolding exist
cap-exist c v = elim (Option-cases (find c.m v)) [
  | inl miss ↦ rw (miss, exist) refl
  | inr (node, hit) ↦ rw (hit, exist) refl
]

cap-put : (c : Lru) (v : ℕ) → (put c v).cap ≡ c.cap
unfolding put
cap-put c v = ground arith

take-take : (m k : ℕ) (xs : List ℕ) → m ≤ k → take m (take k xs) ≡ take m xs
take-take zero k xs h = refl
take-take (suc m) zero xs h = absurd (omega arith)
take-take (suc m) (suc k) [] h = refl
take-take (suc m) (suc k) (x ∷ xs) h = ap (◌∷◌ x) (take-take m k xs (omega arith))

-- From the ids before to the ids after a request with the id `w`.
abbrev Advanced : ℕ → List ℕ → List ℕ → Type 0
Advanced w vs vs' =
    ((n v : ℕ)
      → n < recently_received_request_cap
      → contains (take n vs) v ≡ true
      → contains (take (suc n) vs') v ≡ true)
    × (contains (take 1 vs') w ≡ true)

advanced :
    (w : ℕ) (vs vs' : List ℕ)
    → ((m : ℕ) → m ≤ recently_received_request_cap → take m vs' ≡ take m (w ∷ remove w vs))
    → Advanced w vs vs'
unfolding contains
advanced w vs vs' agree = (
  λ n v h old.
      subst (λ t. contains t v ≡ true) (sym (agree (suc n) (omega arith)))
        (contains-recent n v w vs old),
  subst (λ t. contains t w ≡ true) (sym (agree 1 (omega arith))) (rw (==_refl w) refl),
)

abbrev IsLater : Client → ℕ → Received → Type 0
IsLater c w (received c' out) = IsKept c' × Advanced w (recent c) (recent c')
IsLater c w null_dereference = Unit

module _ (c : Client) (w : ℕ) (kept : IsKept c) where
  pub seen-values :
      (exist c.recently_received_request w).1 ≡ true
      → values (exist c.recently_received_request w).0.l ≡ w ∷ remove w (recent c)
  seen-values seen =
      let e = exist-values c.recently_received_request w kept.0 in
      let old : contains (recent c) w ≡ true = sym e.0 ∙ seen in e.1 ∙ rw old refl

  pub unseen-values :
      (exist c.recently_received_request w).1 ≡ false
      → values (exist c.recently_received_request w).0.l ≡ recent c
  unseen-values unseen =
      let e = exist-values c.recently_received_request w kept.0 in
      let new : contains (recent c) w ≡ false = sym e.0 ∙ unseen in e.1 ∙ rw new refl

  pub seen-IsKept :
      IsKept (record c { recently_received_request = (exist c.recently_received_request w).0 })
  seen-IsKept = (
    exist-IsValid c.recently_received_request w kept.0,
    cap-exist c.recently_received_request w ∙ kept.1,
  )

  pub put-IsKept :
      IsKept
        (record c { recently_received_request = put (exist c.recently_received_request w).0 w })
  put-IsKept = (
    put-IsValid (exist c.recently_received_request w).0 w seen-IsKept.0,
    cap-put (exist c.recently_received_request w).0 w ∙ seen-IsKept.1,
  )

  seen-Advanced :
      (exist c.recently_received_request w).1 ≡ true
      → Advanced w (recent c) (values (exist c.recently_received_request w).0.l)
  seen-Advanced seen = advanced w (recent c) _ (λ m h. ap (take m) (seen-values seen))

  put-Advanced :
      (exist c.recently_received_request w).1 ≡ false
      → Advanced w (recent c) (values (put (exist c.recently_received_request w).0 w).l)
  put-Advanced unseen = advanced w (recent c) _ (λ m h.
      ap (take m) (
        put-values (exist c.recently_received_request w).0 w seen-IsKept.0
        ∙ ap₂ (λ k vs. take k (w ∷ remove w vs)) seen-IsKept.1 (unseen-values unseen))
      ∙ take-take m recently_received_request_cap (w ∷ remove w (recent c)) h)

pass_on-IsLater : (c : Client) (p : Packet) → IsKept c → IsLater c (packet_id p) (pass_on c p)
unfolding pass_on
pass_on-IsLater c p kept = elim (Bool-cases (exist c.recently_received_request (packet_id p)).1) [
  | inl seen ↦
      rw (seen, pass_on) (seen-IsKept c (packet_id p) kept, seen-Advanced c (packet_id p) kept seen)
  | inr unseen ↦ elim (Option-cases (c.received_request_channels p.cmd)) [
    | inl nobody ↦ rw (unseen, nobody, pass_on) tt
    | inr (channel, waits) ↦
        rw (unseen, waits, pass_on)
          (put-IsKept c (packet_id p) kept, put-Advanced c (packet_id p) kept unseen)
  ]
]

-- The requests of a stretch, one after the other, as long as each comes through.
unfoldable pub pass_on_all : Client → List Packet → Option Client
pass_on_all c [] = some c
pass_on_all c (p ∷ ps) = elim (pass_on c p) [
  | received c' out ↦ pass_on_all c' ps
  | null_dereference ↦ none
]

remembered :
    (c c' : Client) (ps : List Packet) (n v : ℕ)
    → IsKept c
    → contains (take n (recent c)) v ≡ true
    → n + length ps ≤ recently_received_request_cap
    → pass_on_all c ps ≡ some c'
    → IsKept c' × (contains (take (n + length ps) (recent c')) v ≡ true)
unfolding pass_on_all
remembered c c' [] n v kept h bound e =
    let k : n ≡ n + length {A = Packet} [] = omega arith in
    subst (λ d. IsKept d × (contains (take (n + length {A = Packet} []) (recent d)) v ≡ true))
      (some-injective c c' e) (kept, subst (λ t. contains (take t (recent c)) v ≡ true) k h)
remembered c c' (p ∷ ps) n v kept h bound e =
    go (λ c1 kept1 h1 e1. remembered c1 c' ps (suc n) v kept1 h1 (omega arith) e1) (pass_on c p)
      (pass_on-IsLater c p kept) e
  where
    go :
        ((c1 : Client)
          → IsKept c1
          → contains (take (suc n) (recent c1)) v ≡ true
          → pass_on_all c1 ps ≡ some c'
          → IsKept c' × (contains (take (suc n + length ps) (recent c')) v ≡ true))
        → (r : Received) → IsLater c (packet_id p) r
        → (elim r [ received c1 out ↦ pass_on_all c1 ps | null_dereference ↦ none ]) ≡ some c'
        → IsKept c' × (contains (take (n + length (p ∷ ps)) (recent c')) v ≡ true)
    go next (received c1 out) later e1 =
        let k : suc n + length ps ≡ n + suc (length ps) = omega arith in
        subst (λ t. IsKept c' × (contains (take t (recent c')) v ≡ true)) k
          (next c1 later.0 (later.1.0 n v (omega arith) h) e1)
    go next null_dereference later e1 = absurd (none-ne-some c' e1)

contains-take : (n v : ℕ) (vs : List ℕ) → contains (take n vs) v ≡ true → contains vs v ≡ true
unfolding contains
contains-take zero v vs h = absurd (ground arith)
contains-take (suc n) v [] h = h
contains-take (suc n) v (w ∷ vs) h = ground (arith, contains-take n v vs)

pass_on_seen :
    (c : Client) (p : Packet)
    → IsKept c
    → contains (recent c) (packet_id p) ≡ true
    → (c' : Client) × (pass_on c p ≡ received c' none)
unfolding pass_on exist
pass_on_seen c p kept old =
    let seen = (exist-values c.recently_received_request (packet_id p) kept.0).0 ∙ old in
    (
      record c { recently_received_request = (exist c.recently_received_request (packet_id p)).0 },
      rw (seen, pass_on) refl,
    )

-- A request that was received is not passed on a second time: when a request with the same id comes again
-- after fewer than 1000 others, nothing is sent to a channel.
pub pass_on_duplicate :
    (c c' c'' : Client) (p again : Packet) (others : List Packet) (out : Option (ℕ × Packet))
    → IsKept c
    → pass_on c p ≡ received c' out
    → pass_on_all c' others ≡ some c''
    → length others < recently_received_request_cap
    → packet_id again ≡ packet_id p
    → (last : Client) × (pass_on c'' again ≡ received last none)
pass_on_duplicate c c' c'' p again others out kept first between few same_id =
    let one : IsLater c (packet_id p) (received c' out) =
      subst (IsLater c (packet_id p)) first (pass_on-IsLater c p kept) in
    let two = remembered c' c'' others 1 (packet_id p) one.0 one.1.1 (omega arith) between in
    let old = contains-take (1 + length others) (packet_id p) (recent c'') two.1 in
    pass_on_seen c'' again two.0 (subst (λ t. contains (recent c'') t ≡ true) (sym same_id) old)

pub wait_request_waits :
    (c : Client) (cmd fresh : ℕ)
    → let (c', channel) = wait_request c cmd fresh in
      (c'.received_request_channels cmd ≡ some channel)
      × (c'.recently_received_request ≡ c.recently_received_request)
unfolding wait_request
wait_request_waits c cmd fresh = elim (Option-cases (c.received_request_channels cmd)) [
  | inr (channel, known) ↦ rw (known, wait_request) (known, refl)
  | inl unknown ↦ rw (unknown, wait_request) (rw (==_refl cmd) refl, refl)
]

pass_on_new :
    (c : Client) (p : Packet) (channel : ℕ)
    → IsKept c
    → contains (recent c) (packet_id p) ≡ false
    → c.received_request_channels p.cmd ≡ some channel
    → (c' : Client) × (pass_on c p ≡ received c' (some (channel, p)))
unfolding pass_on exist
pass_on_new c p channel kept new waits =
    let unseen = (exist-values c.recently_received_request (packet_id p) kept.0).0 ∙ new in
    (
      record c {
        recently_received_request =
            put (exist c.recently_received_request (packet_id p)).0 (packet_id p);
      },
      simp (unseen, waits) refl,
    )

-- After `wait_request` an unseen request for its command is passed on to the channel that is waited on.
pub pass_on_awaited :
    (c : Client) (p : Packet) (fresh : ℕ)
    → IsKept c
    → contains (recent c) (packet_id p) ≡ false
    → (c' : Client) × (pass_on (wait_request c p.cmd fresh).0 p
        ≡ received c' (some ((wait_request c p.cmd fresh).1, p)))
pass_on_awaited c p fresh kept new =
    let w = wait_request_waits c p.cmd fresh in
    pass_on_new (wait_request c p.cmd fresh).0 p (wait_request c p.cmd fresh).1
      (subst (λ r. IsValid r × (r.cap ≡ recently_received_request_cap)) (sym w.1) kept)
      (subst (λ r. contains (values r.l) (packet_id p) ≡ false) (sym w.1) new) w.0
