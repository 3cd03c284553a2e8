-- ===== src/Rpc/Serving.antt =====
-- rpc_server.hpp and rpc_client.hpp: the loops that serve requests and wait for pushes.
use asyncmsg.Base.{
  sym, ◌++◌, subst, All, ℕ, ◌≡◌, ◌≢◌, refl, true, Option, none, some, List, [], ◌∷◌, ne→==,
}
use asyncmsg.Error.{Result, returned, thrown}
use asyncmsg.Packet.{Packet, make_packet, build_rsp_packet}
use asyncmsg.Rpc.{
  async_begin, serve, sync_round, wait_push, async_round, RpcResult, value, unexpected, Messages,
  build_response_packet, parse_body, respond,
}
use asyncmsg.Rpc.Body.{IsCarried, parse_body-build_response_packet}

-- The response to a request: with its command, number and device, and parsed to this result.
pub record IsResponse (messages : Messages) (req : Packet) (result : RpcResult (messages.Message))
    (rsp : Packet) : Type 0 where
  pub is_response : rsp.rsp ≡ true
  pub cmd : rsp.cmd ≡ req.cmd
  pub seq : rsp.seq ≡ req.seq
  pub device_id : rsp.device_id ≡ req.device_id
  pub parsed : parse_body messages rsp ≡ result

pub build_response_packet-IsResponse :
    (messages : Messages) (left : ℕ → List ℕ) (generator : ℕ) (req : Packet)
    (result : RpcResult (messages.Message))
    → IsCarried messages result
    → req.seq ≢ 0
    → IsResponse messages req result (build_response_packet messages left generator req result).0
unfolding build_response_packet build_rsp_packet make_packet
build_response_packet-IsResponse messages left generator req (value m) small numbered = record {
  is_response = refl;
  cmd = refl;
  seq = rw (ne→== req.seq 0 numbered) refl;
  device_id = refl;
  parsed = parse_body-build_response_packet messages left generator req (value m) small;
}
build_response_packet-IsResponse messages left generator req (unexpected ec) bad numbered = record {
  is_response = refl;
  cmd = refl;
  seq = rw (ne→== req.seq 0 numbered) refl;
  device_id = refl;
  parsed = parse_body-build_response_packet messages left generator req (unexpected ec) bad;
}

module _ (requests responses : Messages) (left : ℕ → List ℕ)
    (handler : requests.Message → Option (RpcResult (responses.Message))) where
  -- What the handler makes of a request that can be parsed; `none` also for one that cannot.
  abbrev pub outcome : RpcResult (requests.Message) → Option (RpcResult (responses.Message))
  outcome (unexpected ec) = none
  outcome (value m) = handler m

  -- The responses to these requests: one for each request that is parsed and handled, in their order, up
  -- to the end of the waiting.
  abbrev pub RespondTo :
      Option (RpcResult (responses.Message))
      → Packet
      → (List Packet → Type 0)
      → List Packet
      → Type 0
  RespondTo none req Rest rsps = Rest rsps
  RespondTo (some result) req Rest [] = ⊥
  RespondTo (some result) req Rest (rsp ∷ rsps) = IsResponse responses req result rsp × Rest rsps

  abbrev pub Responses : List (Result Packet) → List Packet → Type 0
  Responses [] rsps = rsps ≡ []
  Responses (thrown e ∷ reqs) rsps = rsps ≡ []
  Responses (returned req ∷ reqs) rsps =
      RespondTo (outcome (parse_body requests req)) req (Responses reqs) rsps

  -- What the requests and the results must be.
  abbrev pub AreCarried : Option (RpcResult (responses.Message)) → Type 0
  AreCarried none = Unit
  AreCarried (some result) = IsCarried responses result

  abbrev pub IsNumbered : Result Packet → Type 0
  IsNumbered (thrown e) = Unit
  IsNumbered (returned req) = req.seq ≢ 0

  respond-RespondTo :
      (generator : ℕ) (req : Packet) (answer : Option (RpcResult (responses.Message)))
      (Rest : List Packet → Type 0) (rest : ℕ → List Packet)
      → AreCarried answer
      → req.seq ≢ 0
      → ((g : ℕ) → Rest (rest g))
      → let round = respond requests responses left generator req answer in
        RespondTo answer req Rest
          (elim round.0 [ none ↦ rest round.1 | some rsp ↦ rsp ∷ rest round.1 ])
  unfolding respond
  respond-RespondTo generator req none Rest rest carried numbered h = h generator
  respond-RespondTo generator req (some result) Rest rest carried numbered h =
      (build_response_packet-IsResponse responses left generator req result carried numbered, h _)

  pub sync_round-respond :
      (generator : ℕ) (req : Packet)
      → sync_round requests responses left handler generator req
        ≡ respond requests responses left generator req (outcome (parse_body requests req))
  unfolding sync_round
  sync_round-respond generator req = go (parse_body requests req)
    where
      go :
          (r : RpcResult (requests.Message))
          → ◌≡◌ {A = Option Packet × ℕ}
              (elim r [
                | unexpected ec ↦ (none, generator)
                | value m ↦ respond requests responses left generator req (handler m)
              ])
              (respond requests responses left generator req (outcome r))
      go (unexpected ec) = unfold respond in refl
      go (value m) = refl

  outcome-AreCarried :
      ((m : requests.Message) → AreCarried (handler m))
      → (r : RpcResult (requests.Message)) → AreCarried (outcome r)
  outcome-AreCarried carried (unexpected ec) = tt
  outcome-AreCarried carried (value m) = carried m

  -- The handling loop answers every request that can be parsed and that the handler does not throw on,
  -- in their order and with nothing in between, until a wait ends in an exception: each response has
  -- the request's command, number and device, and its body is parsed to the handler's result. The
  -- handler's results must fit a response, and the requests have numbers, as decoded packets do.
  pub serve-Responses :
      (generator : ℕ) (reqs : List (Result Packet))
      → ((m : requests.Message) → AreCarried (handler m))
      → All IsNumbered reqs
      → Responses reqs (serve requests responses left handler generator reqs)
  unfolding serve
  serve-Responses generator [] carried numbered = refl
  serve-Responses generator (thrown e ∷ reqs) carried numbered = refl
  serve-Responses generator (returned req ∷ reqs) carried numbered =
      subst
        (λ (round : Option Packet × ℕ).
          RespondTo (outcome (parse_body requests req)) req (Responses reqs) (elim round.0 [
            | none ↦ serve requests responses left handler round.1 reqs
            | some rsp ↦ rsp ∷ serve requests responses left handler round.1 reqs
          ]))
        (sym (sync_round-respond generator req))
        (respond-RespondTo generator req (outcome (parse_body requests req)) (Responses reqs)
          (λ g. serve requests responses left handler g reqs)
          (outcome-AreCarried carried (parse_body requests req)) numbered.0
          (λ g. serve-Responses g reqs carried numbered.1))

  -- An asynchronous handler that ends as the synchronous one, with no number generated while it
  -- waited, makes the same round.
  pub async_round-sync_round :
      (generator : ℕ) (req : Packet)
      → async_round requests responses left generator req (λ m. (generator, handler m))
        ≡ sync_round requests responses left handler generator req
  unfolding async_round async_begin sync_round
  async_round-sync_round generator req = go (parse_body requests req)
    where
      go :
          (r : RpcResult (requests.Message))
          → ◌≡◌ {A = Option Packet × ℕ}
              (elim (elim r as (λ x. Option (requests.Message)) [
                | unexpected ec ↦ none
                | value m ↦ some m
              ]) [
                | none ↦ (none, generator)
                | some m ↦ respond requests responses left generator req (handler m)
              ])
              (elim r [
                | unexpected ec ↦ (none, generator)
                | value m ↦ respond requests responses left generator req (handler m)
              ])
      go (unexpected ec) = refl
      go (value m) = refl

-- A request whose body cannot be parsed, or that carries an error code.
abbrev pub IsMalformed : Messages → Packet → Type 0
IsMalformed messages req = (ec : ℕ) × (parse_body messages req ≡ unexpected ec)

-- `wait_push` passes over malformed requests and returns the message of the first that can be parsed,
-- leaving those behind it.
pub wait_push-append :
    (messages : Messages) (malformed : List Packet) (req : Packet) (later : List Packet)
    (m : messages.Message)
    → All (IsMalformed messages) malformed
    → parse_body messages req ≡ value m
    → wait_push messages (malformed ++ req ∷ later) ≡ some (m, later)
unfolding wait_push
wait_push-append messages [] req later m bad good = rw (good, wait_push) refl
wait_push-append messages (b ∷ malformed) req later m bad good =
    rw (bad.0.1, wait_push) (wait_push-append messages malformed req later m bad.1 good)
