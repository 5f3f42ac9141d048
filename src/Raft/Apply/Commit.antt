-- ===== src/Raft/Apply/Commit.antt =====
-- When a leader advances its commit index.
use sandstore.Base.{
  Bool, ℕ, zero, suc, ◌≤◌, ◌<◌, ◌≡◌, refl, ◌⊎◌, true, Option, none, some, List, [], ◌∷◌, arith,
  Bool-cases, inl, inr, String, ◌*◌, ◌||◌, length, if◌then◌else◌, leb, ◌==◌, nat_eq, string_eq,
}
use sandstore.Raft.Types.{LogEntry, Result, ok, err, Result-cases}
use sandstore.Raft.LogStore.{get_log, last_index_and_term}
use sandstore.Raft.Node.{Node, StateMachine, ClusterNode}
use sandstore.Raft.Apply.{
  index_of, count_matches, apply_logs, advance_from, advance_in, advance_commit_index, has_majority,
}

-- The node is known to hold the log up to the index: it is this node, which has the entry, or it has
-- acknowledged the index.
abbrev pub is_holder : {M : Type 0} → Node M → ℕ → ClusterNode → Bool
is_holder n index node = (node.id == n.id) || leb index (index_of node.id n.match_index)

-- How many nodes of the view hold the index.
unfoldable pub count_holders : {M : Type 0} → Node M → List ClusterNode → ℕ → ℕ
count_holders n [] index = 0
count_holders n (node ∷ nodes) index =
    let rest = count_holders n nodes index in if is_holder n index node then suc rest else rest

-- A view that names this node.
abbrev pub Names : String → List ClusterNode → Type 0
Names id [] = ⊥
Names id (node ∷ nodes) = (node.id ≡ id) ⊎ Names id nodes

module _ {M : Type 0} (n : Node M) (index : ℕ) where
  count_matches-count_holders :
      (nodes : List ClusterNode)
      → count_matches n.id n.match_index index nodes ≤ count_holders n nodes index
  unfolding count_matches count_holders
  count_matches-count_holders [] = omega arith
  count_matches-count_holders (node ∷ nodes) =
      let rest = count_matches-count_holders nodes in ground arith

  -- This node counts once more where the view names it.
  count_matches-Names :
      (nodes : List ClusterNode)
      → Names n.id nodes
      → count_matches n.id n.match_index index nodes < count_holders n nodes index
  unfolding count_matches count_holders
  count_matches-Names [] h = absurd h
  count_matches-Names (node ∷ nodes) (inl same) =
      let rest = count_matches-count_holders nodes in
      ground (arith, string_eq.test_iff node.id n.id)
  count_matches-Names (node ∷ nodes) (inr among) =
      let rest = count_matches-Names nodes among in ground arith

  has_majority-holders :
      (nodes : List ClusterNode)
      → Names n.id nodes
      → has_majority n nodes index ≡ true
      → length nodes < 2 * count_holders n nodes index
  unfolding has_majority
  has_majority-holders nodes named h = let counted = count_matches-Names nodes named in ground arith

-- What the log says of an index that may be committed: it is past the commit index, and the log
-- holds an entry of the current term there.
pub record MayCommit {M : Type 0} (n : Node M) (index : ℕ) : Type 0 where
  pub past : n.commit_index < index
  pub entry : LogEntry
  pub present : get_log n.log_store index ≡ ok entry
  pub current : entry.term ≡ n.current_term

module _ {M : Type 0} (sm : StateMachine M) where
  -- What `advanceCommitIndexLocked` can do: nothing, or commit one index that may be committed and
  -- has a majority.
  pub data Advances (Majority : ℕ → Type 0) (n : Node M) (top : ℕ) : Node M → Type 0 where
    stays : Advances Majority n top n
    commits :
        (index : ℕ)
        → index ≤ top
        → MayCommit n index
        → Majority index
        → Advances Majority n top (apply_logs sm (record n { commit_index = index }))

  widen :
      {Majority : ℕ → Type 0} {n : Node M} (top : ℕ) {k : Node M}
      → Advances Majority n top k
      → Advances Majority n (suc top) k
  widen top stays = stays
  widen top (commits index within may most) = commits index (omega arith) may most

  -- The code's own count.
  abbrev Counted : List ClusterNode → Node M → ℕ → Type 0
  Counted nodes n index = has_majority n nodes index ≡ true

  -- More than half of the view.
  abbrev pub Held : List ClusterNode → Node M → ℕ → Type 0
  Held nodes n index = length nodes < 2 * count_holders n nodes index

  Counted-Held :
      (nodes : List ClusterNode) (n : Node M) (top : ℕ) {k : Node M}
      → Names n.id nodes
      → Advances (Counted nodes n) n top k
      → Advances (Held nodes n) n top k
  Counted-Held nodes n top named stays = stays
  Counted-Held nodes n top named (commits index within may most) =
      commits index within may (has_majority-holders n index nodes named most)

  advance_from-Advances :
      (top : ℕ) (nodes : List ClusterNode) (n : Node M)
      → Advances (Counted nodes n) n top (advance_from sm top nodes n)
  unfolding advance_from
  advance_from-Advances zero nodes n = stays
  advance_from-Advances (suc below) nodes n = elim (Bool-cases (leb (suc below) n.commit_index)) [
    | inl done ↦ rw (done, advance_from) stays
    | inr more ↦ elim (Result-cases (get_log n.log_store (suc below))) [
      | inl (e, missing) ↦
          rw (more, advance_from) (rw missing (widen below (advance_from-Advances below nodes n)))
      | inr (entry, found) ↦ elim (Bool-cases (entry.term == n.current_term)) [
        | inr old ↦
            rw (more, advance_from)
              (rw found (rw old (widen below (advance_from-Advances below nodes n))))
        | inl current ↦ elim (Bool-cases (has_majority n nodes (suc below))) [
          | inr few ↦
              rw (more, advance_from)
                (rw found (rw current (rw few (widen below (advance_from-Advances below nodes n)))))
          | inl most ↦
              rw (more, advance_from)
                (rw found (
                  rw current (
                    rw most (
                      commits (suc below) (omega arith)
                        (record {
                          past = ground arith;
                          entry = entry;
                          present = found;
                          current = ground arith;
                        })
                        most))))
        ]
      ]
    ]
  ]

  -- For every view of the cluster that names this node, on a log that can be read, advancing the
  -- commit index changes nothing, or commits one index of the log past the old one whose entry has
  -- the current term, and which more than half of the nodes of the view, this one included, hold
  -- or have acknowledged, and then applies the log.
  pub advance_commit_index-Advances :
      (nodes : List ClusterNode) (n : Node M) (last term : ℕ)
      → Names n.id nodes
      → last_index_and_term n.log_store ≡ ok (last, term)
      → Advances (Held nodes n) n last (advance_commit_index sm (some nodes) n)
  unfolding advance_commit_index
  advance_commit_index-Advances [] n last term named h = rw (h, advance_commit_index) stays
  advance_commit_index-Advances (peer ∷ peers) n last term named h =
      rw (h, advance_commit_index)
        (Counted-Held (peer ∷ peers) n last named (advance_from-Advances last (peer ∷ peers) n))

  -- A change of the commit index, and what follows it.
  abbrev pub Committed : Node M → Node M → Type 0
  Committed n k =
      (index : ℕ) × (n.commit_index < index)
      × (k ≡ apply_logs sm (record n { commit_index = index }))

  Advances-cases :
      {Majority : ℕ → Type 0} {n : Node M} {top : ℕ} {k : Node M}
      → Advances Majority n top k
      → (k ≡ n) ⊎ Committed n k
  Advances-cases stays = inl refl
  Advances-cases (commits index _ may _) = inr (index, may.past, refl)

  advance_in-cases :
      (r : Result (ℕ × ℕ)) (nodes : Option (List ClusterNode)) (n : Node M)
      → (advance_in sm r nodes n ≡ n) ⊎ Committed n (advance_in sm r nodes n)
  unfolding advance_in
  advance_in-cases (err _) nodes n = inl refl
  advance_in-cases (ok _) none n = inl refl
  advance_in-cases (ok _) (some []) n = inl refl
  advance_in-cases (ok (last, _)) (some (peer ∷ peers)) n =
      Advances-cases (advance_from-Advances last (peer ∷ peers) n)

  pub advance_commit_index-cases :
      (nodes : Option (List ClusterNode)) (n : Node M)
      → (advance_commit_index sm nodes n ≡ n) ⊎ Committed n (advance_commit_index sm nodes n)
  unfolding advance_commit_index
  advance_commit_index-cases nodes n = advance_in-cases (last_index_and_term n.log_store) nodes n
