-- ===== src/Client/Requests.antt =====
-- `DefaultErrorTranslator` of clients/library/errors.go and `StandardRequestManager` of
-- clients/library/request_manager.go. What the network does to each attempt, the answers of the seeds,
-- the clock and the end of each wait are arguments.
use sandstore.Base.{
  ℕ, zero, suc, String, Bool, Option, none, some, List, [], ◌∷◌, if◌then◌else◌, ◌==◌, string_eq,
}
use sandstore.Client.Router.{Router, get_route, invalidate, set_route_hint, refresh}

-- `codeWrongNode` is the client's own; any other code is `other_code`.
pub data SandCode : Type 0 where
  code_ok code_not_found code_already_exists code_not_leader code_wrong_node other_code : SandCode

pub record Response : Type 0 where
  pub code : SandCode
  pub body : String

-- What `Send` returns: a response, none of either, or an error, of a context or of the transport.
pub data Sending : Type 0 where
  responded : Response → Sending
  nothing context_ended transport_failed : Sending

pub data ErrorClass : Type 0 where
  explicit_rejection ambiguous_failure transport_failure semantic_error : ErrorClass

pub record SystemError : Type 0 where
  pub class : ErrorClass
  pub routing_hint : String

abbrev pub plain : ErrorClass → SystemError
plain class = record { class = class; routing_hint = "" }

-- The error of a code.
unfoldable pub translate_code : SandCode → String → Option SystemError
translate_code code_ok body = none
translate_code code_not_found body = some (plain semantic_error)
translate_code code_already_exists body = some (plain semantic_error)
translate_code code_not_leader body =
    some (record { class = explicit_rejection; routing_hint = body })
translate_code code_wrong_node body =
    some (record { class = explicit_rejection; routing_hint = body })
translate_code other_code body = some (plain ambiguous_failure)

unfoldable pub translate : Sending → Option SystemError
translate context_ended = some (plain ambiguous_failure)
translate transport_failed = some (plain transport_failure)
translate nothing = some (plain ambiguous_failure)
translate (responded response) = translate_code response.code response.body

-- What the attempts meet, by their number.
pub record World : Type 0 where
  pub seeds : List String
  pub sends : ℕ → String → Sending
  pub pings : ℕ → String → Option String
  pub later_pings : ℕ → String → Option String
  pub clock : ℕ → ℕ
  pub waits : ℕ → Bool

-- What a request comes to.
pub data Reply : Type 0 where
  returned : Sending → Reply
  no_route cancelled exhausted : Reply
  stopped : SystemError → Reply

-- A request that was sent, and what came of it.
pub record Sent : Type 0 where
  pub target : String
  pub outcome : Sending

-- The requests sent, the reply and the router after it.
pub record Execution : Type 0 where
  pub trace : List Sent
  pub reply : Reply
  pub router : Router

abbrev pub ended : Reply → Router → Execution
ended reply router = record { trace = []; reply = reply; router = router }

-- `getRoute`: a missing route is looked for once.
unfoldable pub find_route : World → ℕ → Router → Option String × Router
find_route w attempt r = elim (get_route r) [
  | some target ↦ (some target, r)
  | none ↦
      let (went, refreshed) = refresh w.seeds (w.pings attempt) (w.clock attempt) r in
      if went then (get_route refreshed, refreshed) else (none, refreshed)
]

-- The route after a rejection.
unfoldable pub reroute : World → ℕ → String → Router → Router
reroute w attempt hint r =
    if hint == ""
    then (refresh w.seeds (w.later_pings attempt) (w.clock attempt) r).1
    else set_route_hint (w.clock attempt) hint r

-- What a mutation does with the error of its attempt, by its class; `retry` goes on with a router.
unfoldable pub mutation_error :
    World
    → ℕ
    → String
    → Sending
    → (Router → Execution)
    → SystemError
    → ErrorClass
    → Router
    → Execution
mutation_error w attempt target outcome retry e semantic_error r = ended (returned outcome) r
mutation_error w attempt target outcome retry e ambiguous_failure r =
    ended (stopped e) (invalidate target r)
mutation_error w attempt target outcome retry e transport_failure r =
    ended (stopped e) (invalidate target r)
mutation_error w attempt target outcome retry e explicit_rejection r =
    if w.waits attempt
    then retry (reroute w attempt e.routing_hint r)
    else ended cancelled (reroute w attempt e.routing_hint r)

unfoldable pub after_mutation :
    World → ℕ → String → Sending → (Router → Execution) → Option SystemError → Router → Execution
after_mutation w attempt target outcome retry none r = ended (returned outcome) r
after_mutation w attempt target outcome retry (some e) r =
    mutation_error w attempt target outcome retry e e.class r

-- What an idempotent request does with it.
abbrev pub retry_elsewhere :
    World → ℕ → String → (Router → Execution) → SystemError → Router → Execution
retry_elsewhere w attempt target retry e r =
    let rerouted = reroute w attempt e.routing_hint (invalidate target r) in
    if w.waits attempt then retry rerouted else ended cancelled rerouted

unfoldable pub idempotent_error :
    World
    → ℕ
    → String
    → Sending
    → (Router → Execution)
    → SystemError
    → ErrorClass
    → Router
    → Execution
idempotent_error w attempt target outcome retry e semantic_error r = ended (returned outcome) r
idempotent_error w attempt target outcome retry e ambiguous_failure r = ended (stopped e) r
idempotent_error w attempt target outcome retry e transport_failure r =
    retry_elsewhere w attempt target retry e r
idempotent_error w attempt target outcome retry e explicit_rejection r =
    retry_elsewhere w attempt target retry e r

unfoldable pub after_idempotent :
    World → ℕ → String → Sending → (Router → Execution) → Option SystemError → Router → Execution
after_idempotent w attempt target outcome retry none r = ended (returned outcome) r
after_idempotent w attempt target outcome retry (some e) r =
    idempotent_error w attempt target outcome retry e e.class r

abbrev pub After : Type 0
After =
    World → ℕ → String → Sending → (Router → Execution) → Option SystemError → Router → Execution

abbrev pub record_send : Sent → Execution → Execution
record_send sent e = record e { trace = sent ∷ e.trace }

-- One attempt, with its route.
unfoldable pub attempt_at :
    After → World → ℕ → (Router → Execution) → Option String × Router → Execution
attempt_at follow w attempt retry (none, r) = ended no_route r
attempt_at follow w attempt retry (some target, r) =
    let outcome = w.sends attempt target in
    record_send (record { target = target; outcome = outcome })
      (follow w attempt target outcome retry (translate outcome) r)

-- The loop over the attempts.
unfoldable pub execute : After → World → ℕ → ℕ → Router → Execution
execute follow w zero attempt r = ended exhausted r
execute follow w (suc left) attempt r =
    attempt_at follow w attempt (λ r'. execute follow w left (suc attempt) r')
      (find_route w attempt r)

abbrev pub max_retries : ℕ
max_retries = 3

unfoldable pub execute_mutation : World → Router → Execution
execute_mutation w r = execute after_mutation w max_retries 0 r

unfoldable pub execute_idempotent : World → Router → Execution
execute_idempotent w r = execute after_idempotent w max_retries 0 r
