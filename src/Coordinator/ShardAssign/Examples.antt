-- ===== src/Coordinator/ShardAssign/Examples.antt =====
-- Tests of shard_assign.go, and its theorem at a concrete input.
use lindb.Base.{ℕ, ◌≡◌, ◌<◌, ◌≤◌, refl, List, [], ◌∷◌, some, none, lookup, inl, inr, arith, ℕ-Key}
use lindb.Coordinator.ShardAssign.{Shards, shard_assignment, too_many_replicas}
use lindb.Coordinator.ShardAssign.Indices.{Distinct}
use lindb.Coordinator.ShardAssign.Loops.{IsSpread, shard_assignment-IsSpread}

abbrev three_nodes : List ℕ
three_nodes = 10 ∷ 20 ∷ 30 ∷ []

too_many : shard_assignment 0 0 three_nodes 2 4 ≡ some (inl too_many_replicas)
unfolding shard_assignment
too_many = refl

three_nodes-Distinct : Distinct three_nodes
three_nodes-Distinct = (λ i. ground (arith, i), (λ i. ground (arith, i), (λ i. i, tt)))

shard_assignment-IsSpread_example :
    (shards : Shards) × (shard_assignment 1 0 three_nodes 4 2 ≡ some (inr shards))
    × ((k : ℕ)
        → k < 4
        → (rs : List ℕ) × (lookup k shards ≡ some rs) × IsSpread three_nodes 2 1 k rs)
    × ((k : ℕ) → 4 ≤ k → lookup k shards ≡ none)
shard_assignment-IsSpread_example =
    shard_assignment-IsSpread 1 0 three_nodes 4 2 three_nodes-Distinct (omega arith) (omega arith)
      (omega arith) (omega arith) (omega arith)
