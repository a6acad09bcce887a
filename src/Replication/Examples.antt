-- ===== src/Replication/Examples.antt =====
-- A small queue is replicated.
use lindb.Base.{◌≡◌, some, ℕ, List, [], ◌∷◌, ◌++◌, false, arith}
use lindb.Queue.FanOut.{FanOut}
use lindb.Queue.FanOut.Log.{appended}
use lindb.Queue.Examples.{
  one_reader, reader, one_reader-Reach, one_reader-lookup, one_reader-messages,
}
use lindb.Replication.{Sequence, batch_replica_size, init_client, consume_batch}
use lindb.Replication.Batch.{IsBatch, IsTaken, write_replicas-IsBatch}

-- The shard is the list of what it has stored.
abbrev store : List (List ℕ) → List ℕ → List (List ℕ)
store shard bytes = shard ++ bytes ∷ []

abbrev sequence : Sequence
sequence = record { meta = 0; head_seq = 0; ack_seq = 0; synced = false }

write_replicas-IsBatch_example :
    (batch : List (ℕ × List ℕ) × FanOut) × (consume_batch batch_replica_size one_reader.queue
        (init_client 1 reader sequence).0
      ≡ some batch)
    × IsBatch
        (appended one_reader-Reach)
        batch_replica_size
        one_reader.queue
        (init_client 1 reader sequence).0
        batch.0
        batch.1
    × IsTaken store batch.0 (init_client 1 reader sequence).1 [] batch.1.head_seq
write_replicas-IsBatch_example =
    write_replicas-IsBatch store 4 "node" reader sequence [] one_reader-Reach (omega arith)
      one_reader-messages one_reader-lookup (omega arith)
