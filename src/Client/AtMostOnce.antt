-- ===== src/Client/AtMostOnce.antt =====
-- How often a request of clients/library/request_manager.go is sent.
use sandstore.Base.{
  ℕ, zero, suc, String, ◌≤◌, ◌≡◌, ◌≢◌, refl, sym, ap, ◌∙◌, subst, Option, none, some, List, [], ◌∷◌,
  arith, length, string_eq, ◌⊎◌, Bool-cases, inl, inr,
}
use sandstore.Client.Router.{Router}
use sandstore.Client.Requests.{
  Sending, responded, Response, SandCode, ErrorClass, explicit_rejection, ambiguous_failure,
  transport_failure, semantic_error, SystemError, translate, translate_code, code_ok,
  code_not_found, code_already_exists, code_not_leader, code_wrong_node, other_code, context_ended,
  transport_failed, nothing, World, returned, Sent, Execution, record_send, mutation_error,
  after_mutation, attempt_at, find_route, execute, execute_mutation, reroute,
}

-- The node answered that it does not serve the request.
abbrev pub Refused : Sending → Type 0
Refused outcome =
    (response : Response) × ((outcome ≡ responded response)
      × ((response.code ≡ code_not_leader) ⊎ (response.code ≡ code_wrong_node)))

-- An error has one class.
other_class :
    (given e : SystemError) (class other : ErrorClass)
    → some given ≡ some e
    → e.class ≡ class
    → given.class ≡ other
    → class ≢ other
    → ⊥
other_class given e class other h same is_other apart =
    let equal : given ≡ e = ground arith in
    apart (sym same ∙ ap (λ (x : SystemError). x.class) (sym equal) ∙ is_other)

translate_code-Refused :
    (code : SandCode) (body : String) (e : SystemError)
    → translate_code code body ≡ some e
    → e.class ≡ explicit_rejection
    → (code ≡ code_not_leader) ⊎ (code ≡ code_wrong_node)
unfolding translate_code
translate_code-Refused code_ok body e h rejection = absurd (ground arith)
translate_code-Refused code_not_found body e h rejection =
    absurd (other_class _ e explicit_rejection semantic_error h rejection refl (ground arith))
translate_code-Refused code_already_exists body e h rejection =
    absurd (other_class _ e explicit_rejection semantic_error h rejection refl (ground arith))
translate_code-Refused code_not_leader body e h rejection = inl refl
translate_code-Refused code_wrong_node body e h rejection = inr refl
translate_code-Refused other_code body e h rejection =
    absurd (other_class _ e explicit_rejection ambiguous_failure h rejection refl (ground arith))

translate-Refused :
    (outcome : Sending) (e : SystemError)
    → translate outcome ≡ some e
    → e.class ≡ explicit_rejection
    → Refused outcome
unfolding translate
translate-Refused (responded response) e h rejection =
    (response, (refl, translate_code-Refused response.code response.body e h rejection))
translate-Refused nothing e h rejection =
    absurd (other_class _ e explicit_rejection ambiguous_failure h rejection refl (ground arith))
translate-Refused context_ended e h rejection =
    absurd (other_class _ e explicit_rejection ambiguous_failure h rejection refl (ground arith))
translate-Refused transport_failed e h rejection =
    absurd (other_class _ e explicit_rejection transport_failure h rejection refl (ground arith))

-- Each request that was sent again had been refused.
abbrev pub RejectedButLast : List Sent → Type 0
RejectedButLast [] = Unit
RejectedButLast (sent ∷ []) = Unit
RejectedButLast (sent ∷ next ∷ rest) = Refused sent.outcome × RejectedButLast (next ∷ rest)

-- The outcome is that of the last request.
abbrev pub LastGave : Sending → List Sent → Type 0
LastGave outcome [] = ⊥
LastGave outcome (sent ∷ []) = sent.outcome ≡ outcome
LastGave outcome (sent ∷ next ∷ rest) = LastGave outcome (next ∷ rest)

-- What an execution with so many attempts left promises.
pub record Careful (left : ℕ) (e : Execution) : Type 0 where
  pub bounded : length e.trace ≤ left
  pub rejected : RejectedButLast e.trace
  pub honest : (outcome : Sending) → e.reply ≡ returned outcome → LastGave outcome e.trace

-- What follows one attempt: nothing more, or, after a refusal, another execution.
abbrev Followed : ℕ → Sent → Execution → Type 0
Followed left sent e =
    ((e.trace ≡ []) × ((outcome : Sending) → e.reply ≡ returned outcome → sent.outcome ≡ outcome))
    ⊎ (Refused sent.outcome × Careful left e)

returned-injective : (a c : Sending) → returned a ≡ returned c → a ≡ c
returned-injective a c h = ground arith

mutation_error-Followed :
    (w : World) (attempt : ℕ) (target : String) (outcome : Sending) (retry : Router → Execution)
    (e : SystemError) (class : ErrorClass) (r : Router) (left : ℕ)
    → translate outcome ≡ some e
    → e.class ≡ class
    → ((r' : Router) → Careful left (retry r'))
    → Followed left
        (record { target = target; outcome = outcome })
        (mutation_error w attempt target outcome retry e class r)
unfolding mutation_error
mutation_error-Followed w attempt target outcome retry e semantic_error r left h same careful =
    inl (refl, λ o back. returned-injective outcome o back)
mutation_error-Followed w attempt target outcome retry e ambiguous_failure r left h same careful =
    inl (refl, λ o back. absurd (ground arith))
mutation_error-Followed w attempt target outcome retry e transport_failure r left h same careful =
    inl (refl, λ o back. absurd (ground arith))
mutation_error-Followed w attempt target outcome retry e explicit_rejection r left h same careful =
    elim (Bool-cases (w.waits attempt)) [
      | inl waited ↦
          rw waited
            (inr (translate-Refused outcome e h same, careful (reroute w attempt e.routing_hint r)))
      | inr ended_early ↦ rw ended_early (inl (refl, λ o back. absurd (ground arith)))
    ]

after_mutation-Followed :
    (w : World) (attempt : ℕ) (target : String) (outcome : Sending) (retry : Router → Execution)
    (t : Option SystemError) (r : Router) (left : ℕ)
    → translate outcome ≡ t
    → ((r' : Router) → Careful left (retry r'))
    → Followed left
        (record { target = target; outcome = outcome })
        (after_mutation w attempt target outcome retry t r)
unfolding after_mutation
after_mutation-Followed w attempt target outcome retry none r left h careful =
    inl (refl, λ o back. returned-injective outcome o back)
after_mutation-Followed w attempt target outcome retry (some e) r left h careful =
    mutation_error-Followed w attempt target outcome retry e e.class r left h refl careful

-- A request put before what followed it.
sent-RejectedButLast :
    (sent : Sent) (rest : List Sent)
    → Refused sent.outcome
    → RejectedButLast rest
    → RejectedButLast (sent ∷ rest)
sent-RejectedButLast sent [] refused later = tt
sent-RejectedButLast sent (next ∷ rest) refused later = (refused, later)

sent-LastGave :
    (sent : Sent) (rest : List Sent) (o : Sending) → LastGave o rest → LastGave o (sent ∷ rest)
sent-LastGave sent [] o gave = absurd gave
sent-LastGave sent (next ∷ rest) o gave = gave

record_send-Careful :
    (left : ℕ) (sent : Sent) (e : Execution)
    → Followed left sent e
    → Careful (suc left) (record_send sent e)
record_send-Careful left sent e (inl (alone, gave)) = record {
  bounded = let size = ap (λ (l : List Sent). length l) alone in omega arith;
  rejected = subst (λ l. RejectedButLast (sent ∷ l)) (sym alone) tt;
  honest = λ o back. subst (λ l. LastGave o (sent ∷ l)) (sym alone) (gave o back);
}
record_send-Careful left sent e (inr (refused, c)) = record {
  bounded = let fits = c.bounded in omega arith;
  rejected = sent-RejectedButLast sent e.trace refused c.rejected;
  honest = λ o back. sent-LastGave sent e.trace o (c.honest o back);
}

attempt_at-Careful :
    (w : World) (attempt left : ℕ) (retry : Router → Execution) (route : Option String × Router)
    → ((r' : Router) → Careful left (retry r'))
    → Careful (suc left) (attempt_at after_mutation w attempt retry route)
unfolding attempt_at
attempt_at-Careful w attempt left retry (none, r) careful = record {
  bounded = omega arith;
  rejected = tt;
  honest = λ o back. absurd (ground arith);
}
attempt_at-Careful w attempt left retry (some target, r) careful =
    let outcome = w.sends attempt target in
    record_send-Careful left (record { target = target; outcome = outcome }) _
      (after_mutation-Followed w attempt target outcome retry (translate outcome) r left refl
        careful)

execute-Careful :
    (w : World) (left attempt : ℕ) (r : Router)
    → Careful left (execute after_mutation w left attempt r)
unfolding execute
execute-Careful w zero attempt r = record {
  bounded = omega arith;
  rejected = tt;
  honest = λ o back. absurd (ground arith);
}
execute-Careful w (suc left) attempt r =
    attempt_at-Careful w attempt left _ (find_route w attempt r)
      (λ r'. execute-Careful w left (suc attempt) r')

-- A mutation is sent at most three times, and again only after the node answered that it is not
-- the leader or the wrong node; what it returns is what the last request came to.
pub execute_mutation-Careful : (w : World) (r : Router) → Careful 3 (execute_mutation w r)
unfolding execute_mutation
execute_mutation-Careful w r = execute-Careful w 3 0 r
