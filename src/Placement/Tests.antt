-- ===== src/Placement/Tests.antt =====
-- The theorems about placement, at a view of four nodes of which one has no address.
use sandstore.Base.{
  String, ◌≡◌, ◌≢◌, refl, false, none, some, List, [], ◌∷◌, All, ◌==◌, nat_eq, string_eq,
  str_eq_iff, arith,
}
use sandstore.Raft.Node.{ClusterNode}
use sandstore.Placement.{
  ChunkLocation, placed, less, insert_node, sort_nodes, filter_nodes, cluster_view, effective_count,
  take_targets, place, select_targets, refused, insufficient_nodes,
}
use sandstore.Placement.Targets.{Distinct, Resolves, select_targets-Resolves}

abbrev node : String → String → ClusterNode
node id address = record { id = id; address = address }

abbrev view : List ClusterNode
view = node "c" "c:1" ∷ node "d" "" ∷ node "a" "a:1" ∷ node "b" "b:1" ∷ []

abbrev location : String → String → ChunkLocation
location id address = record { logical_node_alias = id; physical_endpoint = address }

abbrev chosen : List ChunkLocation
chosen = location "a" "a:1" ∷ location "b" "b:1" ∷ []

selected : select_targets 2 0 (some []) (some view) ≡ placed chosen
unfolding select_targets place cluster_view effective_count take_targets filter_nodes sort_nodes
    insert_node less
selected = refl

-- Four replicas cannot be placed on three usable nodes.
too_many : select_targets 2 4 (some view) none ≡ refused insufficient_nodes
unfolding select_targets place cluster_view effective_count filter_nodes
too_many = refl

view_known : cluster_view (some []) (some view) ≡ some view
unfolding cluster_view
view_known = refl

other : (a b : String) → (a == b) ≡ false → a ≢ b
other a b h = ground (arith, str_eq_iff a b)

view-Distinct : Distinct view
view-Distinct = (
  (other "d" "c" refl, (other "a" "c" refl, (other "b" "c" refl, tt))),
  ((other "a" "d" refl, (other "b" "d" refl, tt)), ((other "b" "a" refl, tt), (tt, tt))),
)

select_targets-Resolves_example : All (Resolves (some []) (some view)) chosen
select_targets-Resolves_example =
    select_targets-Resolves 2 0 (some []) (some view) view chosen view_known view-Distinct selected
