-- ===== src/Coordinator/ShardAssign.antt =====
-- coordinator/database/shard_assign.go, with `ShardAssignment.AddReplica` of models/database.go. The
-- two results of `rand.Intn` are arguments. Shard ids and indices are numbers: they stay below the
-- number of shards plus that of the nodes, which is taken to fit an int.
pub mod Indices
pub mod Replicas
pub mod Loops
mod Examples
use lindb.Base.{
  ℕ, zero, suc, ◌+◌, ◌-◌, ◌%◌, Bool, ◌&&◌, ◌||◌, List, [], ◌∷◌, ◌++◌, Option, none, some, Map,
  lookup, insert, get_elem?, length, if◌then◌else◌, ◌==◌, ltb, ℕ-Key, ◌⊎◌, inl, inr,
}
use lindb.Base.Words.{is_neg64}

-- `replicaIndex`. `%` panics on 0 nodes or one node, where it is not called.
unfoldable pub replica_index : ℕ → ℕ → ℕ → ℕ → ℕ
replica_index first_replica_index second_replica_shift j num_of_node =
    let shift = 1 + (second_replica_shift + j) % (num_of_node - 1) in
    (first_replica_index + shift) % num_of_node

-- `Shards` of `ShardAssignment`, and `AddReplica`.
abbrev pub Shards : Type 0
Shards = Map ℕ (List ℕ)

unfoldable pub add_replica : ℕ → ℕ → Shards → Shards
add_replica shard_id replica_id shards = elim (lookup shard_id shards) [
  | none ↦ insert shard_id (replica_id ∷ []) shards
  | some replicas ↦ insert shard_id (replicas ++ replica_id ∷ []) shards
]

-- The inner loop of `assignReplicasToStorageNodes`: the rounds left and `j`. `none` is the panic of
-- an index out of range.
unfoldable pub assign_others : List ℕ → ℕ → ℕ → ℕ → ℕ → ℕ → Shards → Option Shards
assign_others nodes shard first shift zero j shards = some shards
assign_others nodes shard first shift (suc rounds) j shards =
    elim (get_elem? nodes (replica_index first shift j (length nodes))) [
      | none ↦ none
      | some node ↦
          assign_others nodes shard first shift rounds (suc j) (add_replica shard node shards)
    ]

-- The shift of a shard: it grows with each full round over the nodes.
unfoldable pub next_shift : ℕ → ℕ → ℕ → ℕ
next_shift shard num_of_node shift =
    if ltb 0 shard && shard % num_of_node == 0 then suc shift else shift

-- The outer loop: the rounds left and the current shard id.
unfoldable pub assign_shards : List ℕ → ℕ → ℕ → ℕ → ℕ → ℕ → Shards → Option Shards
assign_shards nodes replica_factor start zero shard shift shards = some shards
assign_shards nodes replica_factor start (suc rounds) shard shift shards =
    let shift' = next_shift shard (length nodes) shift in
    let first = (shard + start) % length nodes in
    elim (get_elem? nodes first) [
      | none ↦ none
      | some leader ↦
          elim (assign_others nodes shard first shift' (replica_factor - 1) 0
            (add_replica shard leader shards)) [
              | none ↦ none
              | some shards' ↦
                  assign_shards nodes replica_factor start rounds (suc shard) shift' shards'
            ]
    ]

pub data AssignError : Type 0 where
  no_shards no_replicas too_many_replicas : AssignError

-- `ShardAssignment`; `none` is a panic. `start` and `shift` are what `rand.Intn` returns.
unfoldable pub shard_assignment : ℕ → ℕ → List ℕ → ℕ → ℕ → Option (AssignError ⊎ Shards)
shard_assignment start shift storage_node_ids num_of_shard replica_factor =
    if num_of_shard == 0 || is_neg64 num_of_shard
    then some (inl no_shards)
    else if replica_factor == 0 || is_neg64 replica_factor
    then some (inl no_replicas)
    else if ltb (length storage_node_ids) replica_factor
    then some (inl too_many_replicas)
    else elim (assign_shards storage_node_ids replica_factor start num_of_shard 0 shift []) [
      | none ↦ none
      | some shards ↦ some (inr shards)
    ]
