-- ===== src/Client/Tests.antt =====
-- The theorems about requests, at a client that does not know the leader.
use sandstore.Base.{String, true, none, some, [], ◌∷◌, if◌then◌else◌, ◌==◌, string_eq}
use sandstore.Client.Router.{Router}
use sandstore.Client.Requests.{
  Sending, responded, code_ok, code_not_leader, World, execute_mutation,
}
use sandstore.Client.AtMostOnce.{Careful, execute_mutation-Careful}
use sandstore.Client.Server.{err_not_leader, HandlerError, no_body, respond}

abbrev follower_first : Router
follower_first = record { leader_addr = "b:1"; all_nodes = []; last_update = 0 }

abbrev answer : String → Sending
answer target =
    if target == "a:1"
    then responded (record { code = code_ok; body = "done" })
    else responded (record { code = code_not_leader; body = "a:1" })

abbrev cluster : World
cluster = record {
  seeds = "b:1" ∷ [];
  sends = λ attempt target. answer target;
  pings = λ attempt seed. none;
  later_pings = λ attempt seed. none;
  clock = λ attempt. 1;
  waits = λ attempt. true;
}

execute_mutation-Careful_example : Careful 3 (execute_mutation cluster follower_first)
execute_mutation-Careful_example = execute_mutation-Careful cluster follower_first

-- A follower that refuses, and names the leader in its message.
abbrev refusal : HandlerError
refusal = record { kind = err_not_leader; message = "not leader: a:1" }

abbrev followers : World
followers = record cluster { sends = λ attempt target. responded (respond no_body (some refusal)) }
