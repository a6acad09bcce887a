-- ===== src/Replication.antt =====
-- The replication of a queue to a storage node: replication/replicator.go and replication/sequence.go,
-- with the stream of storage/handler/writer.go. What a shard does with a message is an argument.
pub mod Batch
mod Examples
use lindb.Base.{
  ℕ, zero, suc, ◌+◌, Bool, true, false, List, [], ◌∷◌, Option, none, some, if◌then◌else◌, ◌==◌,
}
use lindb.Base.Words.{next64}
use lindb.Queue.Segment.{read}
use lindb.Queue.Store.{Queue, get_segment}
use lindb.Queue.FanOut.{FanOut, consume, set_head_seq as fan_out_head}

-- `sequence`; `meta` is what its meta page holds.
pub record Sequence : Type 0 where
  pub meta : ℕ
  pub head_seq : ℕ
  pub ack_seq : ℕ
  pub synced : Bool

-- `NewSequence` on what the meta page holds.
unfoldable pub new_sequence : ℕ → Sequence
new_sequence meta = record { meta = meta; head_seq = meta; ack_seq = meta; synced = false }

-- `SetHeadSeq`, `SetAckSeq`, `ResetSynced` and `Sync`
unfoldable pub set_head_seq : ℕ → Sequence → Sequence
set_head_seq seq s = record s { head_seq = seq }

unfoldable pub set_ack_seq : ℕ → Sequence → Sequence
set_ack_seq seq s = record s { ack_seq = seq }

unfoldable pub reset_synced : Sequence → Sequence
reset_synced s = record s { synced = false }

unfoldable pub sync : Sequence → Sequence
sync s = record s { meta = s.ack_seq; synced = true }

-- `fanOut.Get`: `some none` for an error, and `none` for a panic. The segment that a consumer keeps
-- is one of the factory's, and answers like it.
unfoldable pub get : ℕ → Queue → Option (Option (List ℕ))
get seq q = elim (get_segment seq q) [ none ↦ some none | some seg ↦ read seq seg ]

-- `consumeBatch`: the rounds left, `batchReplicaSize` at first. `none` is a panic of `Get`.
abbrev pub batch_replica_size : ℕ
batch_replica_size = 10

unfoldable pub consume_batch : ℕ → Queue → FanOut → Option (List (ℕ × List ℕ) × FanOut)
consume_batch zero q fo = some ([], fo)
consume_batch (suc rounds) q fo =
    let fo' = (consume q.head_seq fo).1 in
    let rest = consume_batch rounds q fo' in
    elim (consume q.head_seq fo).0 [
      | none ↦ some ([], fo')
      | some seq ↦ elim (get seq q) [
        | none ↦ none
        | some none ↦ some ([], fo')
        | some (some bytes) ↦ elim rest [
          | none ↦ none
          | some batch ↦ some ((seq, bytes) ∷ batch.0, batch.1)
        ]
      ]
    ]

-- `initClient` with `Writer.Next` and `Writer.Reset`, where no call fails.
unfoldable pub init_client : ℕ → FanOut → Sequence → FanOut × Sequence
init_client queue_head fo s = elim (fan_out_head queue_head s.head_seq fo) [
  | some fo' ↦ (fo', s)
  | none ↦ (fo, set_head_seq fo.head_seq s)
]

-- The loop of `Writer.Write` over the replicas of a request, with `handleReplica` as `handle`. The
-- Boolean is false where the stream ends with `OutOfRange`.
unfoldable pub write_replicas {ℓ} :
    {S : Type ℓ} → (S → List ℕ → S) → List (ℕ × List ℕ) → Sequence → S → Bool × Sequence × S
write_replicas handle [] s shard = (true, s, shard)
write_replicas handle ((seq, bytes) ∷ replicas) s shard =
    let rest =
      write_replicas handle replicas (set_head_seq (next64 s.head_seq) s) (handle shard bytes) in
    if s.head_seq == seq then rest else (false, s, shard)
