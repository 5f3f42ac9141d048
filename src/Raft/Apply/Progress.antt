-- ===== src/Raft/Apply/Progress.antt =====
-- What the state machine is given when the log is applied.
use sandstore.Base.{
  ℕ, zero, suc, ◌+◌, ◌-◌, ◌≤◌, ◌≡◌, refl, ◌∙◌, ◌⊎◌, none, some, List, [], ◌∷◌, arith, Bool-cases,
  Option-cases, inl, inr, ltb, length, nat_eq, string_eq,
}
use sandstore.Raft.Types.{LogEntry, Error, ok, err, Result-cases}
use sandstore.Raft.LogStore.{FileLogStore, get_log}
use sandstore.Raft.Node.{Node, StateMachine}
use sandstore.Raft.Apply.{notify, apply_entry, apply_next, apply_rounds, apply_logs}

-- The entries stand in the log one after another, from an index on.
abbrev pub Reads : FileLogStore → ℕ → List LogEntry → Type 0
Reads s i [] = Unit
Reads s i (e ∷ es) = (get_log s i ≡ ok e) × Reads s (i + 1) es

-- The state machine after the entries, in their order.
unfoldable pub run_entries : {M : Type 0} → StateMachine M → List LogEntry → M → M
run_entries sm [] machine = machine
run_entries sm (e ∷ es) machine = run_entries sm es (sm.apply e.payload machine).1

module _ {M : Type 0} (sm : StateMachine M) where
  -- `k` has applied the entries that follow `n`'s, each once and in the order of the log, and has
  -- stopped at the commit index or at an entry that cannot be read.
  pub record Applied (n k : Node M) : Type 0 where
    pub entries : List LogEntry
    pub reads : Reads n.log_store (n.last_applied + 1) entries
    pub machine : k.machine ≡ run_entries sm entries n.machine
    pub count : k.last_applied ≡ n.last_applied + length entries
    pub stops :
        (k.last_applied ≡ n.commit_index)
        ⊎ ((e : Error) × (get_log n.log_store (k.last_applied + 1) ≡ err e))

  -- One round gives the state machine the next entry.
  record Round (n k : Node M) : Type 0 where
    entry : LogEntry
    read : get_log n.log_store (n.last_applied + 1) ≡ ok entry
    machine : k.machine ≡ (sm.apply entry.payload n.machine).1
    applied : k.last_applied ≡ n.last_applied + 1
    log : k.log_store ≡ n.log_store
    commit : k.commit_index ≡ n.commit_index
    included : k.last_included_index ≡ n.last_included_index

  apply_entry-Round :
      (n : Node M) (entry : LogEntry)
      → get_log n.log_store (n.last_applied + 1) ≡ ok entry
      → Round n (apply_entry sm entry n)
  unfolding apply_entry notify
  apply_entry-Round n entry h = record {
    entry = entry;
    read = h;
    machine = ground arith;
    applied = ground arith;
    log = ground arith;
    commit = ground arith;
    included = ground arith;
  }

  apply_next-Round :
      (n k : Node M) → n.last_included_index ≤ n.last_applied → apply_next sm n ≡ some k → Round n k
  unfolding apply_next
  apply_next-Round n k past h = elim (Result-cases (get_log n.log_store (n.last_applied + 1))) [
    | inl (e, missing) ↦ absurd (ground arith)
    | inr (entry, found) ↦
        let e : apply_entry sm entry n ≡ k = ground arith in
        rw (← e) (apply_entry-Round n entry found)
  ]

  apply_next-none :
      (n : Node M)
      → n.last_included_index ≤ n.last_applied
      → apply_next sm n ≡ none
      → (e : Error) × (get_log n.log_store (n.last_applied + 1) ≡ err e)
  unfolding apply_next
  apply_next-none n past h = elim (Result-cases (get_log n.log_store (n.last_applied + 1))) [
    | inl missing ↦ missing
    | inr (entry, found) ↦ absurd (ground arith)
  ]

  step_Applied : (n k m : Node M) → Round n k → Applied k m → Applied n m
  unfolding run_entries
  step_Applied n k m r a = record {
    entries = r.entry ∷ a.entries;
    reads = (r.read, rw (r.log, r.applied) at a.reads);
    machine = a.machine ∙ rw r.machine;
    count = omega (arith, a.count, r.applied);
    stops = rw (r.log, r.commit) at a.stops;
  }

  apply_rounds-Applied :
      (rounds : ℕ) (n : Node M)
      → n.last_included_index ≤ n.last_applied
      → n.last_applied ≤ n.commit_index
      → n.commit_index - n.last_applied ≤ rounds
      → Applied n (apply_rounds sm rounds n)
  unfolding apply_rounds run_entries
  apply_rounds-Applied zero n past within enough = record {
    entries = [];
    reads = tt;
    machine = refl;
    count = omega arith;
    stops = inl (omega arith);
  }
  apply_rounds-Applied (suc rounds) n past within enough =
      elim (Bool-cases (ltb n.last_applied n.commit_index)) [
        | inr done ↦
            rw (done, apply_rounds)
              (record {
                entries = [];
                reads = tt;
                machine = refl;
                count = omega arith;
                stops = inl (ground arith);
              })
        | inl more ↦ elim (Option-cases (apply_next sm n)) [
          | inl stuck ↦
              rw (more, apply_rounds)
                (rw stuck (record {
                  entries = [];
                  reads = tt;
                  machine = refl;
                  count = omega arith;
                  stops = inr (apply_next-none n past stuck);
                }))
          | inr (k, went) ↦
              let r = apply_next-Round n k past went in
              rw (more, apply_rounds)
                (rw went (
                  step_Applied n k _ r (
                    apply_rounds-Applied rounds k (ground (arith, r.included, r.applied))
                      (ground (arith, r.commit, r.applied)) (ground (arith, r.commit, r.applied)))))
        ]
      ]

  -- Applying the log, where the applied index is neither behind the snapshot nor past the commit
  -- index, gives the state machine the entries behind the last applied one, each once and in
  -- order, up to the commit index or to the first entry that cannot be read.
  pub apply_logs-Applied :
      (n : Node M)
      → n.last_included_index ≤ n.last_applied
      → n.last_applied ≤ n.commit_index
      → Applied n (apply_logs sm n)
  unfolding apply_logs
  apply_logs-Applied n past within = apply_rounds-Applied _ n past within (omega arith)
