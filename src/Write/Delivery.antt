-- ===== src/Write/Delivery.antt =====
-- What `ExecuteWrite` and `ExecuteRead` of internal/orchestrators/raft_data_plane.go leave at the nodes.
use sandstore.Base.{
  ℕ, suc, String, ◌≡◌, refl, sym, ap, ◌∙◌, subst, Bool, true, false, Option, none, some, List, [],
  ◌∷◌, All, arith, if◌then◌else◌, ◌==◌, nat_eq, string_eq, str_eq_iff, lookup, insert,
  lookup-insert, Bool-cases, Option-cases, ◌⊎◌, inl, inr,
}
use sandstore.Chunk.{
  Bytes, IntentState, ChunkError, ChunkService, PrepareCalls, ReadCalls, prepare_chunk,
}
use sandstore.Chunk.Finish.{Fits, Prepared, prepare_chunk-Prepared}
use sandstore.Placement.{ChunkLocation}
use sandstore.Write.DataPlane.{
  WriteError, refused, Nodes, Rpc, WriteRequest, reply, prepare_at, send_prepare, send_prepares,
  send_payload, prepare_write_payload, execute_read, execute_write,
}

module _ (resolve : ChunkLocation → Option String) where
  module _ (checksum : Bytes → String) where
    -- The node at the address has the chunk prepared by the transaction.
    pub record Holds (txn_id chunk_id : String) (bytes : Bytes) (nodes : Nodes) (address : String)
        : Type 0 where
      pub cs : ChunkService
      pub stored : Bytes
      pub found : lookup address nodes ≡ some cs
      pub fits : Fits checksum bytes (checksum bytes) stored
      pub is_prepared : Prepared txn_id chunk_id stored cs

    abbrev request_for : String → String → Bytes → WriteRequest
    request_for txn_id chunk_id bytes = record {
      txn_id = txn_id;
      chunk_id = chunk_id;
      new_data = bytes;
      checksum = checksum bytes;
    }

    -- What a request that succeeded has done.
    record Delivered (txn_id chunk_id : String) (bytes : Bytes) (target : ChunkLocation)
        (nodes nodes' : Nodes) : Type 0 where
      held :
          (address : String)
          → resolve target ≡ some address
          → Holds txn_id chunk_id bytes nodes' address
      kept :
          (address : String)
          → Holds txn_id chunk_id bytes nodes address
          → Holds txn_id chunk_id bytes nodes' address

    reply-none :
        (answered : Bool) (e : Option ChunkError) → reply resolve answered e ≡ none → e ≡ none
    reply-none false e h = absurd (ground arith)
    reply-none true none h = refl
    reply-none true (some e) h = absurd (ground arith)

    same_address : (a b : String) → some a ≡ some b → a ≡ b
    same_address a b h = ground arith

    insert-Holds :
        (txn_id chunk_id : String) (bytes stored : Bytes) (address other : String)
        (cs : ChunkService) (nodes : Nodes)
        → Fits checksum bytes (checksum bytes) stored
        → Prepared txn_id chunk_id stored cs
        → (address ≡ other) ⊎ Holds txn_id chunk_id bytes nodes other
        → Holds txn_id chunk_id bytes (insert address cs nodes) other
    insert-Holds txn_id chunk_id bytes stored address other cs nodes fits p (inl same) = record {
      cs = cs;
      stored = stored;
      found = ground (arith, lookup-insert address other cs nodes, str_eq_iff address other);
      fits = fits;
      is_prepared = p;
    }
    insert-Holds txn_id chunk_id bytes stored address other cs nodes fits p (inr h) =
        elim (Bool-cases (address == other)) [
          | inl same ↦ record {
            cs = cs;
            stored = stored;
            found = ground (arith, lookup-insert address other cs nodes);
            fits = fits;
            is_prepared = p;
          }
          | inr apart ↦ record {
            cs = h.cs;
            stored = h.stored;
            found = ground (arith, lookup-insert address other cs nodes, h.found);
            fits = h.fits;
            is_prepared = h.is_prepared;
          }
        ]

    prepare_at-Delivered :
        (rpc : Rpc PrepareCalls) (txn_id chunk_id : String) (bytes : Bytes) (target : ChunkLocation)
        (address : String) (nodes : Nodes)
        → resolve target ≡ some address
        → (prepare_at resolve checksum rpc
            (request_for txn_id chunk_id bytes)
            (lookup address nodes)
            address
            nodes).0
          ≡ none
        → Delivered txn_id chunk_id bytes target nodes
            (prepare_at resolve checksum rpc
              (request_for txn_id chunk_id bytes)
              (lookup address nodes)
              address
              nodes).1
    unfolding prepare_at
    prepare_at-Delivered rpc txn_id chunk_id bytes target address nodes resolved h =
        elim (Option-cases (lookup address nodes)) [
          | inl missing ↦ absurd (ground (arith, rw missing at h))
          | inr (cs, there) ↦
              let done =
                prepare_chunk checksum rpc.calls rpc.now txn_id chunk_id bytes (checksum bytes)
                  cs in
              let went : done.0 ≡ none = reply-none rpc.answered done.0 (rw there at h) in
              let (stored, fits, p) =
                prepare_chunk-Prepared checksum rpc.calls rpc.now txn_id chunk_id bytes
                  (checksum bytes) cs went in
              rw there (record {
                held = λ a resolved'.
                    insert-Holds txn_id chunk_id bytes stored address a done.1 nodes fits p
                      (inl (same_address address a (sym resolved ∙ resolved')));
                kept = λ a h'.
                    insert-Holds txn_id chunk_id bytes stored address a done.1 nodes fits p
                      (inr h');
              })
        ]

    send_prepare-Delivered :
        (rpc : Rpc PrepareCalls) (txn_id chunk_id : String) (bytes : Bytes) (target : ChunkLocation)
        (nodes : Nodes)
        → (send_prepare resolve checksum rpc (request_for txn_id chunk_id bytes) target nodes).0
          ≡ none
        → Delivered txn_id chunk_id bytes target nodes
            (send_prepare resolve checksum rpc (request_for txn_id chunk_id bytes) target nodes).1
    unfolding send_prepare prepare_at
    send_prepare-Delivered rpc txn_id chunk_id bytes target nodes h =
        elim (Option-cases (resolve target)) [
          | inl unknown_target ↦ absurd (ground (arith, rw (unknown_target, send_prepare) at h))
          | inr (address, resolved) ↦ elim (Bool-cases rpc.reached) [
            | inr lost ↦ absurd (ground (arith, rw (resolved, send_prepare, lost) at h))
            | inl arrives ↦
                rw (resolved, send_prepare, arrives)
                  (prepare_at-Delivered rpc txn_id chunk_id bytes target address nodes resolved
                    (rw (resolved, send_prepare, arrives) at h))
          ]
        ]

    -- Every node of a list of targets.
    abbrev pub AllHold : String → String → Bytes → List ChunkLocation → Nodes → Type 0
    AllHold txn_id chunk_id bytes targets nodes =
        All
          (λ target.
            (address : String)
            → resolve target ≡ some address
            → Holds txn_id chunk_id bytes nodes address)
          targets

    -- What requests that all succeeded have done.
    record Spread (txn_id chunk_id : String) (bytes : Bytes) (targets : List ChunkLocation)
        (nodes nodes' : Nodes) : Type 0 where
      all_held : AllHold txn_id chunk_id bytes targets nodes'
      still_held :
          (address : String)
          → Holds txn_id chunk_id bytes nodes address
          → Holds txn_id chunk_id bytes nodes' address

    no_failure :
        (e : Option WriteError) (n : ℕ)
        → elim e [ none ↦ n | some _ ↦ suc n ] ≡ 0
        → (e ≡ none) × (n ≡ 0)
    no_failure none n h = (refl, h)
    no_failure (some e) n h = absurd (omega arith)

    send_prepares-Spread :
        (rpcs : ℕ → Rpc PrepareCalls) (txn_id chunk_id : String) (bytes : Bytes) (attempt : ℕ)
        (targets : List ChunkLocation) (nodes : Nodes)
        → (send_prepares resolve checksum rpcs
            (request_for txn_id chunk_id bytes)
            attempt
            targets
            nodes).0
          ≡ 0
        → Spread txn_id chunk_id bytes targets nodes
            (send_prepares resolve checksum rpcs
              (request_for txn_id chunk_id bytes)
              attempt
              targets
              nodes).1
    unfolding send_prepares
    send_prepares-Spread rpcs txn_id chunk_id bytes attempt [] nodes h = record {
      all_held = tt;
      still_held = λ address held. held;
    }
    send_prepares-Spread rpcs txn_id chunk_id bytes attempt (target ∷ targets) nodes h =
        let request = request_for txn_id chunk_id bytes in
        let (e, nodes') = send_prepare resolve checksum (rpcs attempt) request target nodes in
        let (failures, done) =
          send_prepares resolve checksum rpcs request (suc attempt) targets nodes' in
        let (went, others) = no_failure e failures h in
        let d = send_prepare-Delivered (rpcs attempt) txn_id chunk_id bytes target nodes went in
        let s =
          send_prepares-Spread rpcs txn_id chunk_id bytes (suc attempt) targets nodes' others in
        record {
          all_held =
              (λ address resolved. s.still_held address (d.held address resolved), s.all_held);
          still_held = λ address held. s.still_held address (d.kept address held);
        }

    all_went : (failures : ℕ) → (if failures == 0 then none else some refused) ≡ none → failures ≡ 0
    all_went failures h = ground arith

    send_payload-AllHold :
        (rpcs : ℕ → Rpc PrepareCalls) (txn_id chunk_id : String) (targets : List ChunkLocation)
        (payload : Option Bytes) (nodes nodes' : Nodes)
        → send_payload resolve checksum rpcs txn_id chunk_id targets (payload, nodes)
          ≡ (none, nodes')
        → (bytes : Bytes) × (payload ≡ some bytes) × AllHold txn_id chunk_id bytes targets nodes'
    unfolding send_payload
    send_payload-AllHold rpcs txn_id chunk_id targets none nodes nodes' h =
        let fault = ap (λ p. p.0) h in absurd (ground arith)
    send_payload-AllHold rpcs txn_id chunk_id targets (some bytes) nodes nodes' h =
        let sent =
          send_prepares resolve checksum rpcs (request_for txn_id chunk_id bytes) 0 targets nodes in
        (
          bytes,
          refl,
          subst (AllHold txn_id chunk_id bytes targets) (ap (λ p. p.1) h)
              (send_prepares-Spread rpcs txn_id chunk_id bytes 0 targets nodes
                (all_went sent.0 (ap (λ p. p.0) h))).all_held,
        )

    -- An ExecuteWrite that returns no error, whatever the network and the disks did, has made a
    -- payload, and has the chunk prepared by the transaction at the node of every target whose
    -- address is known, with the payload, or with content of its length and checksum that was
    -- there.
    pub execute_write-AllHold :
        (chunk_size : ℕ) (reads : ℕ → Rpc ReadCalls)
        (intents : Option (String → Option IntentState)) (rpcs : ℕ → Rpc PrepareCalls)
        (txn_id chunk_id : String) (offset : ℕ) (new_data : Bytes) (targets : List ChunkLocation)
        (is_new_chunk : Bool) (nodes nodes' : Nodes)
        → execute_write resolve checksum chunk_size reads intents rpcs txn_id chunk_id offset
            new_data targets is_new_chunk nodes
          ≡ (none, nodes')
        → (bytes : Bytes) × ((prepare_write_payload resolve chunk_size
              (execute_read resolve reads intents chunk_id 0 targets)
              offset
              new_data
              is_new_chunk
              nodes).0
            ≡ some bytes)
          × AllHold txn_id chunk_id bytes targets nodes'
    unfolding execute_write
    execute_write-AllHold chunk_size reads intents rpcs txn_id chunk_id offset new_data targets
          is_new_chunk nodes nodes' h =
        let (payload, left) =
          prepare_write_payload resolve chunk_size
            (execute_read resolve reads intents chunk_id 0 targets) offset new_data is_new_chunk
            nodes in
        send_payload-AllHold rpcs txn_id chunk_id targets payload left nodes' h
