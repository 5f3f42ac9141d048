-- ===== src/Placement/Targets.antt =====
-- The targets of a placement: how many there are, and that their names resolve to their endpoints.
use sandstore.Base.{
  ℕ, zero, suc, ◌+◌, ◌≤◌, ◌≡◌, ◌≢◌, refl, ◌||◌, Option, some, List, [], ◌∷◌, arith, ltb, length,
  All, ◌==◌, nat_eq, string_eq, str_eq_iff, Bool-cases, Option-cases, inl, inr,
}
use sandstore.Raft.Node.{ClusterNode}
use sandstore.Placement.{
  ChunkLocation, placed, less, insert_node, sort_nodes, filter_nodes, cluster_view, effective_count,
  take_targets, place, select_targets, find_address, resolve_endpoint,
}

-- No two nodes have the same identifier.
abbrev pub Distinct : List ClusterNode → Type 0
Distinct [] = Unit
Distinct (n ∷ nodes) = All (λ (m : ClusterNode). m.id ≢ n.id) nodes × Distinct nodes

length-insert_node :
    (n : ClusterNode) (nodes : List ClusterNode) → length (insert_node n nodes) ≡ length nodes + 1
unfolding insert_node
length-insert_node n [] = refl
length-insert_node n (m ∷ nodes) = ground (arith, length-insert_node n nodes)

length-sort_nodes : (nodes : List ClusterNode) → length (sort_nodes nodes) ≡ length nodes
unfolding sort_nodes
length-sort_nodes [] = refl
length-sort_nodes (n ∷ nodes) =
    ground (arith, length-insert_node n (sort_nodes nodes), length-sort_nodes nodes)

length-take_targets :
    (count : ℕ) (nodes : List ClusterNode)
    → count ≤ length nodes
    → length (take_targets count nodes) ≡ count
unfolding take_targets
length-take_targets zero nodes h = refl
length-take_targets (suc count) [] h = absurd (omega arith)
length-take_targets (suc count) (n ∷ nodes) h = ground (arith, length-take_targets count nodes)

module _ (P : ClusterNode → Type 0) where
  insert_node-All :
      (n : ClusterNode) (nodes : List ClusterNode) → P n → All P nodes → All P (insert_node n nodes)
  unfolding insert_node
  insert_node-All n [] p a = (p, tt)
  insert_node-All n (m ∷ nodes) p (q, a) = elim (Bool-cases (less m.id n.id)) [
    | inl before ↦ rw (before, All) (q, insert_node-All n nodes p a)
    | inr after ↦ rw (after, All) (p, (q, a))
  ]

  sort_nodes-All : (nodes : List ClusterNode) → All P nodes → All P (sort_nodes nodes)
  unfolding sort_nodes
  sort_nodes-All [] a = tt
  sort_nodes-All (n ∷ nodes) (p, a) =
      insert_node-All n (sort_nodes nodes) p (sort_nodes-All nodes a)

  filter_nodes-All : (nodes : List ClusterNode) → All P nodes → All P (filter_nodes nodes)
  unfolding filter_nodes
  filter_nodes-All [] a = tt
  filter_nodes-All (n ∷ nodes) (p, a) = elim (Bool-cases ((n.id == "") || (n.address == ""))) [
    | inl incomplete ↦ rw (incomplete, All) (filter_nodes-All nodes a)
    | inr complete ↦ rw (complete, All) (p, filter_nodes-All nodes a)
  ]

  All-impl :
      (Q : ClusterNode → Type 0) (nodes : List ClusterNode)
      → ((n : ClusterNode) → P n → Q n)
      → All P nodes
      → All Q nodes
  All-impl Q [] f a = tt
  All-impl Q (n ∷ nodes) f (p, a) = (f n p, All-impl Q nodes f a)

-- Looking the node up in the nodes gives its address.
abbrev Found : List ClusterNode → ClusterNode → Type 0
Found nodes m = find_address m.id nodes ≡ some m.address

both_hold :
    (n : ClusterNode) (nodes rest : List ClusterNode)
    → All (λ (m : ClusterNode). m.id ≢ n.id) rest
    → All (Found nodes) rest
    → All (Found (n ∷ nodes)) rest
unfolding find_address
both_hold n nodes [] a b = tt
both_hold n nodes (m ∷ rest) (apart, a) (found, b) =
    (ground (arith, str_eq_iff n.id m.id), both_hold n nodes rest a b)

every_address : (nodes : List ClusterNode) → Distinct nodes → All (Found nodes) nodes
unfolding find_address
every_address [] d = tt
every_address (n ∷ nodes) (apart, d) =
    (ground (arith, str_eq_iff n.id n.id), both_hold n nodes nodes apart (every_address nodes d))

-- The target's name resolves to its endpoint.
abbrev pub Resolves : Option (List ClusterNode) → Option (List ClusterNode) → ChunkLocation → Type 0
Resolves all healthy t =
    resolve_endpoint t.logical_node_alias all healthy ≡ some t.physical_endpoint

take_targets-All :
    (Q : ChunkLocation → Type 0) (count : ℕ) (nodes : List ClusterNode)
    → All
        (λ (n : ClusterNode).
          Q (record { logical_node_alias = n.id; physical_endpoint = n.address }))
        nodes
    → All Q (take_targets count nodes)
unfolding take_targets
take_targets-All Q zero nodes a = tt
take_targets-All Q (suc count) [] a = tt
take_targets-All Q (suc count) (n ∷ nodes) (q, a) = (q, take_targets-All Q count nodes a)

place-placed :
    (count : ℕ) (nodes : List ClusterNode) (targets : List ChunkLocation)
    → place count (some nodes) ≡ placed targets
    → (count ≤ length (filter_nodes nodes))
      × (take_targets count (sort_nodes (filter_nodes nodes)) ≡ targets)
unfolding place
place-placed count nodes targets h = elim (Bool-cases (ltb (length (filter_nodes nodes)) count)) [
  | inl few ↦ absurd (ground arith)
  | inr enough ↦ (ground arith, ground arith)
]

-- A placement that succeeds has as many targets as replicas are asked for, or as the configured or
-- default count says.
pub length-select_targets :
    (configured replica_count : ℕ) (all healthy : Option (List ClusterNode))
    (targets : List ChunkLocation)
    → select_targets configured replica_count all healthy ≡ placed targets
    → length targets ≡ effective_count configured replica_count
unfolding select_targets place
length-select_targets configured replica_count all healthy targets h =
    elim (Option-cases (cluster_view all healthy)) [
      | inl unknown ↦ absurd (ground arith)
      | inr (nodes, seen) ↦
          let (enough, same) =
            place-placed (effective_count configured replica_count) nodes targets (rw seen at h) in
          rw (← same) (
            length-take_targets _ (sort_nodes (filter_nodes nodes))
              (rw (length-sort_nodes (filter_nodes nodes)) enough))
    ]

-- Where the nodes of the view have distinct identifiers, the name of each target of a placement
-- resolves, in the same view, to the endpoint that the placement gives it.
pub select_targets-Resolves :
    (configured replica_count : ℕ) (all healthy : Option (List ClusterNode))
    (nodes : List ClusterNode) (targets : List ChunkLocation)
    → cluster_view all healthy ≡ some nodes
    → Distinct nodes
    → select_targets configured replica_count all healthy ≡ placed targets
    → All (Resolves all healthy) targets
unfolding select_targets resolve_endpoint
select_targets-Resolves configured replica_count all healthy nodes targets seen d h =
    let (enough, same) =
      place-placed (effective_count configured replica_count) nodes targets (rw seen at h) in
    rw (← same) (
      take_targets-All (Resolves all healthy) _ (sort_nodes (filter_nodes nodes)) (
        sort_nodes-All _ (filter_nodes nodes) (
          filter_nodes-All _ nodes (
            All-impl (Found nodes) _ nodes (λ n found. rw (seen, resolve_endpoint) found)
              (every_address nodes d)))))
