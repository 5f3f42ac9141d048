-- ===== src/Client/Router.antt =====
-- `HyperconvergedRouter` of clients/library/topology/hyperconverged_router.go. The answers of the seeds,
-- trimmed, and the clock are arguments; `none` is a seed that fails.
use sandstore.Base.{
  ℕ, String, ◌-◌, Bool, true, false, ◌&&◌, not, Option, none, some, List, [], ◌∷◌, ltb,
  if◌then◌else◌, ◌==◌, string_eq,
}

pub record Router : Type 0 where
  pub leader_addr : String
  pub all_nodes : List String
  pub last_update : ℕ

unfoldable pub get_route : Router → Option String
get_route r = if r.leader_addr == "" then none else some r.leader_addr

unfoldable pub invalidate : String → Router → Router
invalidate failed_addr r = if r.leader_addr == failed_addr then record r { leader_addr = "" } else r

unfoldable pub set_route_hint : ℕ → String → Router → Router
set_route_hint now hint r = record r { leader_addr = hint; last_update = now }

-- The answer of a seed counts if it is not empty.
abbrev pub leader_of : Option String → Option String
leader_of none = none
leader_of (some leader) = if leader == "" then none else some leader

-- The loop over the seeds.
unfoldable pub fetch_topology_from_seeds : (String → Option String) → List String → Option String
fetch_topology_from_seeds ping [] = none
fetch_topology_from_seeds ping (seed ∷ seeds) =
    let rest = fetch_topology_from_seeds ping seeds in
    elim (leader_of (ping seed)) [ none ↦ rest | some leader ↦ some leader ]

-- `Refresh`, and whether it went without an error. Within a second of an update the route stays.
unfoldable pub refresh : List String → (String → Option String) → ℕ → Router → Bool × Router
refresh seeds ping now r =
    if ltb (now - r.last_update) 1_000_000_000 && not (r.leader_addr == "")
    then (true, r)
    else elim (fetch_topology_from_seeds ping seeds) [
      | none ↦ (false, r)
      | some leader ↦ (true, record { leader_addr = leader; all_nodes = seeds; last_update = now })
    ]
