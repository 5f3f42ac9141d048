-- ===== src/Metadata/Replication.antt =====
-- What a caller of `Replicate` (internal/metadata_replicator/durable_raft/replicator.go) may meet: the
-- replicator refuses or gives up, or the state machine
-- (internal/metadata_service/bolt/bolt_metadata_service.go) applies the command and its error comes
-- back. Commands of others may be applied before it and after it.
use sandstore.Base.{ℕ, ◌≡◌, refl, ap, Bool, true, false, Option, none, some, arith}
use sandstore.Metadata.Types.{
  RaftCommandEnvelope, MetadataOperation, posix_meta, MetaError, Result, ok, err, bind-ok,
}
use sandstore.Metadata.Bolt.{Bolt}
use sandstore.Metadata.State.{Metadata, next_consistent_index, update}
use sandstore.Metadata.Apply.{apply_envelope, apply_operation, apply_as, apply_transaction}
use sandstore.Metadata.Service.{Submit, as_sent, replicate_op, submit_checked}

module _ (b : Bolt) where
  pub record Replication : Type 0 where
    pub refusal : Option MetaError
    pub commits : Bool
    pub clock : ℕ
    pub before : Metadata b → Metadata b
    pub later : Metadata b → Metadata b

  abbrev pub settled :
      (Metadata b → Metadata b) → Option MetaError × Metadata b → Option MetaError × Metadata b
  settled later (e, db) = (e, later db)

  -- The replicator, as its caller sees it.
  abbrev pub answer_of :
      Replication
      → Option MetaError
      → Option RaftCommandEnvelope
      → Metadata b
      → Option MetaError × Metadata b
  answer_of r (some e) envelope db = (some e, r.before db)
  answer_of r none envelope db =
      settled r.later (apply_transaction b r.commits r.clock envelope (r.before db))

  unfoldable pub replicated :
      Replication → Option RaftCommandEnvelope → Metadata b → Option MetaError × Metadata b
  replicated r envelope db = answer_of r r.refusal envelope db

  pub update-none :
      (commits : Bool) (r : Result (Metadata b)) (db db' : Metadata b)
      → update b commits r db ≡ (none, db')
      → r ≡ ok db'
  unfolding update
  update-none true (ok done) db db' h = ap ok (ap (λ p. p.1) h)
  update-none false (ok done) db db' h = let fault = ap (λ p. p.0) h in absurd (ground arith)
  update-none commits (err e) db db' h = let fault = ap (λ p. p.0) h in absurd (ground arith)

  -- A command that was applied between those of the others.
  pub record Carried (r : Replication) (envelope : Option RaftCommandEnvelope) (db db' : Metadata b)
      : Type 0 where
    pub at : Metadata b
    pub applied : apply_transaction b r.commits r.clock envelope (r.before db) ≡ (none, at)
    pub left : r.later at ≡ db'

  settled-none :
      (later : Metadata b → Metadata b) (out : Option MetaError × Metadata b) (db' : Metadata b)
      → settled later out ≡ (none, db')
      → (out ≡ (none, out.1)) × (later out.1 ≡ db')
  settled-none later (none, db) db' h = (refl, ap (λ p. p.1) h)
  settled-none later (some e, db) db' h = let fault = ap (λ p. p.0) h in absurd (ground arith)

  answer_of-none :
      (r : Replication) (refusal : Option MetaError) (envelope : Option RaftCommandEnvelope)
      (db db' : Metadata b)
      → answer_of r refusal envelope db ≡ (none, db')
      → Carried r envelope db db'
  answer_of-none r (some e) envelope db db' h = let fault = ap (λ p. p.0) h in absurd (ground arith)
  answer_of-none r none envelope db db' h =
      let (out, left) = settled-none r.later _ db' h in
      record {
        at = (apply_transaction b r.commits r.clock envelope (r.before db)).1;
        applied = out;
        left = left;
      }

  -- A nil error comes back only for a command that was applied.
  pub replicated-Carried :
      (r : Replication) (envelope : Option RaftCommandEnvelope) (db db' : Metadata b)
      → replicated r envelope db ≡ (none, db')
      → Carried r envelope db db'
  unfolding replicated
  replicated-Carried r envelope db db' h = answer_of-none r r.refusal envelope db db' h

  -- The operation is stamped, and went through JSON.
  abbrev pub stamped : ℕ → MetadataOperation → MetadataOperation
  stamped now op = as_sent (record op { timestamp = now })

  -- An operation that was applied between the commands of others.
  pub record Submitted (r : Replication) (now : ℕ) (op : MetadataOperation) (db db' : Metadata b)
      : Type 0 where
    pub at : Metadata b
    pub index : ℕ
    pub applied : apply_as b op.op_type (stamped now op) index (r.before db) ≡ ok at
    pub left : r.later at ≡ db'

  pub replicate_op-Submitted :
      (r : Replication) (now : ℕ) (op : MetadataOperation) (db db' : Metadata b)
      → replicate_op b (replicated r) now op db ≡ (none, db')
      → Submitted r now op db db'
  unfolding replicate_op apply_transaction apply_envelope apply_operation
  replicate_op-Submitted r now op db db' h =
      let c = replicated-Carried r (some (posix_meta (some (stamped now op)))) db db' h in
      let done = update-none r.commits _ (r.before db) c.at c.applied in
      let (index, (_, h1)) = bind-ok (next_consistent_index b (r.before db)) _ c.at done in
      record { at = c.at; index = index; applied = h1; left = c.left }

  pub submit_checked-none :
      (submit : Submit b) (check : Option MetaError) (op : MetadataOperation) (db db' : Metadata b)
      → submit_checked b submit check op db ≡ (none, db')
      → (check ≡ none) × (submit op db ≡ (none, db'))
  unfolding submit_checked
  submit_checked-none submit none op db db' h = (refl, h)
  submit_checked-none submit (some e) op db db' h =
      let fault = ap (λ p. p.0) h in absurd (ground arith)
