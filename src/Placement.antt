-- ===== src/Placement.antt =====
-- `SortedPlacementStrategy` of internal/orchestrators/cluster_placement.go and
-- `StaticEndpointResolver` of internal/orchestrators/cluster_endpoint_resolver.go. The two answers of
-- the cluster service are arguments, and `none` is its error. A count that is not positive is 0.
pub mod Targets
pub mod Tests
use sandstore.Base.{
  ℕ, String, zero, suc, Bool, true, false, ◌||◌, Option, none, some, List, [], ◌∷◌, ltb, length,
  if◌then◌else◌, ◌==◌, nat_eq, string_eq,
}
use Prim.Native.Char.{code}
use sandstore.Raft.Node.{ClusterNode}

pub record ChunkLocation : Type 0 where
  pub logical_node_alias : String
  pub physical_endpoint : String

pub data PlacementError : Type 0 where
  no_view insufficient_nodes : PlacementError

pub data Placement : Type 0 where
  placed : List ChunkLocation → Placement
  refused : PlacementError → Placement

abbrev pub default_replica_count : ℕ
default_replica_count = 3

-- Go's order of strings.
unfoldable pub less : String → String → Bool
less String.[] String.[] = false
less String.[] (String.◌∷◌ d t) = true
less (String.◌∷◌ c s) String.[] = false
less (String.◌∷◌ c s) (String.◌∷◌ d t) =
    let rest = less s t in
    if ltb (code c) (code d) then true else if code c == code d then rest else false

-- `sort.Slice` by identifier; nodes have distinct identifiers, so the algorithm does not matter.
unfoldable pub insert_node : ClusterNode → List ClusterNode → List ClusterNode
insert_node node [] = node ∷ []
insert_node node (n ∷ nodes) =
    let rest = insert_node node nodes in if less n.id node.id then n ∷ rest else node ∷ n ∷ nodes

unfoldable pub sort_nodes : List ClusterNode → List ClusterNode
sort_nodes [] = []
sort_nodes (n ∷ nodes) = insert_node n (sort_nodes nodes)

unfoldable pub filter_nodes : List ClusterNode → List ClusterNode
filter_nodes [] = []
filter_nodes (node ∷ nodes) =
    let rest = filter_nodes nodes in
    if (node.id == "") || (node.address == "") then rest else node ∷ rest

-- `GetAllNodes`, or `GetHealthyNodes` where it fails or knows no node.
unfoldable pub cluster_view :
    Option (List ClusterNode) → Option (List ClusterNode) → Option (List ClusterNode)
cluster_view none healthy = healthy
cluster_view (some []) healthy = healthy
cluster_view (some (n ∷ nodes)) healthy = some (n ∷ nodes)

unfoldable pub effective_count : ℕ → ℕ → ℕ
effective_count configured replica_count =
    if replica_count == 0
    then (if configured == 0 then default_replica_count else configured)
    else replica_count

unfoldable pub take_targets : ℕ → List ClusterNode → List ChunkLocation
take_targets zero nodes = []
take_targets (suc count) [] = []
take_targets (suc count) (node ∷ nodes) =
    record { logical_node_alias = node.id; physical_endpoint = node.address }
    ∷ take_targets count nodes

unfoldable pub place : ℕ → Option (List ClusterNode) → Placement
place count none = refused no_view
place count (some nodes) =
    let filtered = filter_nodes nodes in
    if ltb (length filtered) count
    then refused insufficient_nodes
    else placed (take_targets count (sort_nodes filtered))

unfoldable pub select_targets :
    ℕ → ℕ → Option (List ClusterNode) → Option (List ClusterNode) → Placement
select_targets configured replica_count all healthy =
    place (effective_count configured replica_count) (cluster_view all healthy)

-- The loop of `ResolveEndpoint`.
unfoldable pub find_address : String → List ClusterNode → Option String
find_address logical_alias [] = none
find_address logical_alias (node ∷ nodes) =
    let rest = find_address logical_alias nodes in
    if node.id == logical_alias then some node.address else rest

unfoldable pub resolve_endpoint :
    String → Option (List ClusterNode) → Option (List ClusterNode) → Option String
resolve_endpoint logical_alias all healthy = elim (cluster_view all healthy) [
  | none ↦ none
  | some nodes ↦ find_address logical_alias nodes
]
