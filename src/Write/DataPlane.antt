-- ===== src/Write/DataPlane.antt =====
-- `RaftDataPlaneOrchestrator` of internal/orchestrators/raft_data_plane.go, over the chunk services of
-- the nodes by their addresses. SHA-256, the resolution of addresses and what the network does to
-- each request are arguments; replicas are asked one after the other, and each only changes itself.
use sandstore.Base.{
  ℕ, zero, suc, String, ◌+◌, ◌%◌, Bool, true, false, ◌&&◌, Option, none, some, List, [], ◌∷◌, ltb,
  length, if◌then◌else◌, ◌==◌, nat_eq, string_eq, Dict, lookup, insert,
}
use sandstore.Chunk.{
  Bytes, IntentState, ChunkError, ChunkService, PrepareCalls, ReadCalls, content, failed,
  prepare_chunk, read_chunk,
}
use sandstore.Placement.{ChunkLocation}

pub data WriteError : Type 0 where
  no_endpoint unreachable refused all_replicas_failed : WriteError

abbrev pub Nodes : Type 0
Nodes = Dict String ChunkService

-- `make([]byte, n)`
unfoldable pub make_bytes : ℕ → Bytes
make_bytes zero = []
make_bytes (suc n) = 0 ∷ make_bytes n

-- `copy(out[offset:], data)`
unfoldable pub copy_at : ℕ → Bytes → Bytes → Bytes
copy_at offset new_data [] = []
copy_at zero [] (o ∷ out) = o ∷ out
copy_at zero (d ∷ new_data) (o ∷ out) = d ∷ copy_at zero new_data out
copy_at (suc offset) new_data (o ∷ out) = o ∷ copy_at offset new_data out

-- What is written over the bytes that are there.
unfoldable pub overlay : ℕ → Bytes → Bytes → Bytes
overlay write_offset new_data existing =
    let required = write_offset + length new_data in
    let final_length = if ltb (length existing) required then required else length existing in
    copy_at write_offset new_data (copy_at 0 existing (make_bytes final_length))

-- What happens to one request: whether it reaches the node, whether the answer comes back, and the
-- outcomes there.
pub record Rpc (Calls : Type 0) : Type 0 where
  pub reached : Bool
  pub answered : Bool
  pub now : ℕ
  pub calls : Calls

pub record WriteRequest : Type 0 where
  pub txn_id : String
  pub chunk_id : String
  pub new_data : Bytes
  pub checksum : String

-- `resolveEndpoint`: without a resolver the location has the address.
unfoldable pub resolve_target : Option (String → Option String) → ChunkLocation → Option String
resolve_target none target = some target.physical_endpoint
resolve_target (some resolver) target = resolver target.logical_node_alias

module _ (resolve : ChunkLocation → Option String) where
  -- The answer of a node, as the orchestrator sees it.
  abbrev pub reply : Bool → Option ChunkError → Option WriteError
  reply false e = some unreachable
  reply true none = none
  reply true (some e) = some refused

  -- `Send` of a read, and `sendReadRPC`.
  unfoldable pub read_at :
      Rpc ReadCalls
      → Option (String → Option IntentState)
      → String
      → Option ChunkService
      → String
      → Nodes
      → Option Bytes × Nodes
  read_at rpc intents chunk_id none address nodes = (none, nodes)
  read_at rpc intents chunk_id (some cs) address nodes =
      let (result, cs') = read_chunk rpc.calls rpc.now intents chunk_id cs in
      (
        elim result [
          | content bytes ↦ (if rpc.answered then some bytes else none)
          | failed _ ↦ none
        ],
        insert address cs' nodes,
      )

  unfoldable pub send_read :
      Rpc ReadCalls
      → Option (String → Option IntentState)
      → String
      → ChunkLocation
      → Nodes
      → Option Bytes × Nodes
  send_read rpc intents chunk_id target nodes = elim (resolve target) [
    | none ↦ (none, nodes)
    | some address ↦
        if rpc.reached
        then read_at rpc intents chunk_id (lookup address nodes) address nodes
        else (none, nodes)
  ]

  -- `ExecuteRead`: the first replica that answers with the bytes. An attempt has its own outcome.
  unfoldable pub execute_read :
      (ℕ → Rpc ReadCalls)
      → Option (String → Option IntentState)
      → String
      → ℕ
      → List ChunkLocation
      → Nodes
      → Option Bytes × Nodes
  execute_read rpcs intents chunk_id attempt [] nodes = (none, nodes)
  execute_read rpcs intents chunk_id attempt (target ∷ targets) nodes =
      let (found, nodes') = send_read (rpcs attempt) intents chunk_id target nodes in
      elim found [
        | some bytes ↦ (some bytes, nodes')
        | none ↦ execute_read rpcs intents chunk_id (suc attempt) targets nodes'
      ]

  -- `prepareWritePayload`
  unfoldable pub prepare_write_payload :
      ℕ → (Nodes → Option Bytes × Nodes) → ℕ → Bytes → Bool → Nodes → Option Bytes × Nodes
  prepare_write_payload chunk_size read offset new_data is_new_chunk nodes =
      let write_offset = offset % chunk_size in
      if is_new_chunk
      then (some (overlay write_offset new_data []), nodes)
      else if (write_offset == 0) && (length new_data == chunk_size)
      then (some new_data, nodes)
      else let (found, nodes') = read nodes in
        (
          elim found [
            | none ↦ none
            | some existing ↦ some (overlay write_offset new_data existing)
          ],
          nodes',
        )

  module _ (checksum : Bytes → String) where
    unfoldable pub prepare_at :
        Rpc PrepareCalls
        → WriteRequest
        → Option ChunkService
        → String
        → Nodes
        → Option WriteError × Nodes
    prepare_at rpc request none address nodes = (some unreachable, nodes)
    prepare_at rpc request (some cs) address nodes =
        let (e, cs') =
          prepare_chunk checksum rpc.calls rpc.now request.txn_id request.chunk_id request.new_data
            request.checksum cs in
        (reply rpc.answered e, insert address cs' nodes)

    -- The request to one target.
    unfoldable pub send_prepare :
        Rpc PrepareCalls → WriteRequest → ChunkLocation → Nodes → Option WriteError × Nodes
    send_prepare rpc request target nodes = elim (resolve target) [
      | none ↦ (some no_endpoint, nodes)
      | some address ↦
          if rpc.reached
          then prepare_at rpc request (lookup address nodes) address nodes
          else (some unreachable, nodes)
    ]

    -- The requests to all targets: how many failed.
    unfoldable pub send_prepares :
        (ℕ → Rpc PrepareCalls) → WriteRequest → ℕ → List ChunkLocation → Nodes → ℕ × Nodes
    send_prepares rpcs request attempt [] nodes = (0, nodes)
    send_prepares rpcs request attempt (target ∷ targets) nodes =
        let (e, nodes') = send_prepare (rpcs attempt) request target nodes in
        let (failures, done) = send_prepares rpcs request (suc attempt) targets nodes' in
        (elim e [ none ↦ failures | some _ ↦ suc failures ], done)

    -- `ExecuteWrite` from the payload on: it succeeds if no request failed.
    unfoldable pub send_payload :
        (ℕ → Rpc PrepareCalls)
        → String
        → String
        → List ChunkLocation
        → Option Bytes × Nodes
        → Option WriteError × Nodes
    send_payload rpcs txn_id chunk_id targets (none, nodes) = (some all_replicas_failed, nodes)
    send_payload rpcs txn_id chunk_id targets (some final_data, nodes) =
        let request : WriteRequest = record {
          txn_id = txn_id;
          chunk_id = chunk_id;
          new_data = final_data;
          checksum = checksum final_data;
        } in
        let (failures, done) = send_prepares rpcs request 0 targets nodes in
        (if failures == 0 then none else some refused, done)

    -- `ExecuteWrite`: `reads` are the outcomes of the requests that read the old bytes.
    unfoldable pub execute_write :
        ℕ
        → (ℕ → Rpc ReadCalls)
        → Option (String → Option IntentState)
        → (ℕ → Rpc PrepareCalls)
        → String
        → String
        → ℕ
        → Bytes
        → List ChunkLocation
        → Bool
        → Nodes
        → Option WriteError × Nodes
    execute_write chunk_size reads intents rpcs txn_id chunk_id offset new_data targets is_new_chunk
          nodes =
        send_payload rpcs txn_id chunk_id targets (
          prepare_write_payload chunk_size (execute_read reads intents chunk_id 0 targets) offset
            new_data is_new_chunk nodes)
