-- ===== src/Replication/Batch.antt =====
-- A batch on its way from the queue to the storage node.
use lindb.Base.{
  All, get_elem?, ℕ, zero, suc, ◌+◌, ◌^◌, ◌≤◌, ◌<◌, ◌≡◌, refl, sym, subst, ap, ◌∙◌, true, false,
  ◌⊎◌, inl, inr, List, [], ◌∷◌, Option, none, some, arith, ◌==◌, Option-cases, Bool-cases, length,
  lookup, String, String-Key,
}
use lindb.Base.Words.{lt64, next64}
use lindb.Queue.Segment.{Segment, read}
use lindb.Queue.Segment.Holds.{Message}
use lindb.Queue.Store.{Queue}
use lindb.Queue.Store.Covered.{IsCovered}
use lindb.Queue.Store.Logged.{IsLogged, read-IsLogged}
use lindb.Queue.FanOut.Log.{appended, IsMessage, Reach-IsLogged}
use lindb.Queue.FanOut.Reach.{Reach, Reach-IsOrdered}
use lindb.Queue.FanOut.Kept.{Reach-IsCovered}
use lindb.Queue.FanOut.{
  FanOut, FanOutQueue, new_fan_out_queue, consume, set_head_seq as fan_out_head,
}
use lindb.Queue.FanOut.Ordered.{IsConsumer, All-lookup, set_head_seq-IsConsumer}
use lindb.Replication.{
  Sequence, set_head_seq, get, batch_replica_size, consume_batch, init_client, write_replicas,
}

-- A message that is not acknowledged is read, and is that of the log.
get-IsLogged :
    (log : List Message) (seq : ℕ) (q : Queue)
    → q.head_seq < 2 ^ 63
    → IsCovered q
    → IsLogged log q
    → q.tail_seq ≤ seq
    → seq < q.head_seq
    → (m : Message) × (get seq q ≡ some (some m)) × (get_elem? log seq ≡ some m)
unfolding get
get-IsLogged log seq q small c l ge le =
    let (seg, m, found, got, logged) = read-IsLogged log seq q small c l ge le in
    (m, ap look found ∙ got, logged)
  where
    look : Option Segment → Option (Option (List ℕ))
    look none = some none
    look (some seg) = read seq seg

-- The replicas hold the messages of the log from the number `seq` on, each once and in order.
abbrev pub InOrder : List Message → ℕ → List (ℕ × List ℕ) → Type 0
InOrder log seq [] = Unit
InOrder log seq ((n, m) ∷ rs) = (n ≡ seq) × (get_elem? log n ≡ some m) × InOrder log (seq + 1) rs

-- What a consumer and the replicas of its batch are after `rounds` rounds.
pub record IsBatch (log : List Message) (rounds : ℕ) (q : Queue) (fo : FanOut)
    (rs : List (ℕ × List ℕ)) (fo' : FanOut) : Type 0 where
  pub in_order : InOrder log fo.head_seq rs
  pub head : fo'.head_seq ≡ fo.head_seq + length rs
  pub most : (length rs ≡ rounds) ⊎ (fo'.head_seq ≡ q.head_seq)
  pub below : fo'.head_seq ≤ q.head_seq

-- The batch is taken with no panic.
abbrev pub Batched :
    List Message → ℕ → Queue → FanOut → Option (List (ℕ × List ℕ) × FanOut) → Type 0
Batched log rounds q fo res =
    (batch : List (ℕ × List ℕ) × FanOut) × (res ≡ some batch)
    × IsBatch log rounds q fo batch.0 batch.1

moved : FanOut → FanOut
moved fo = record fo { head_seq = fo.head_seq + 1 }

consume_done :
    (q : Queue) (fo : FanOut)
    → lt64 fo.head_seq q.head_seq ≡ false
    → consume q.head_seq fo ≡ (none, fo)
unfolding consume
consume_done q fo none_left = rw (none_left, consume) refl

consume_more :
    (q : Queue) (fo : FanOut)
    → q.head_seq < 2 ^ 63
    → fo.head_seq < q.head_seq
    → lt64 fo.head_seq q.head_seq ≡ true
    → consume q.head_seq fo ≡ (some fo.head_seq, moved fo)
unfolding consume moved
consume_more q fo small below more =
    let no_wrap : next64 fo.head_seq ≡ fo.head_seq + 1 = omega arith in
    rw (more, consume) (rw no_wrap refl)

moved-IsConsumer :
    (q : Queue) (fo : FanOut)
    → fo.head_seq < q.head_seq
    → IsConsumer q.head_seq q.tail_seq fo
    → IsConsumer q.head_seq q.tail_seq (moved fo)
unfolding moved
moved-IsConsumer q fo below i = record {
  tail_kept = i.tail_kept;
  tail_below = omega (arith, i.tail_below);
  head_below = omega arith;
  saved = i.saved;
}

-- A round of `consumeBatch`, given what `Consume` and then `Get` answer.
with_rest : ℕ → List ℕ → Option (List (ℕ × List ℕ) × FanOut) → Option (List (ℕ × List ℕ) × FanOut)
with_rest seq bytes none = none
with_rest seq bytes (some batch) = some ((seq, bytes) ∷ batch.0, batch.1)

with_bytes : Queue → ℕ → ℕ → FanOut → Option (Option (List ℕ)) → Option (List (ℕ × List ℕ) × FanOut)
with_bytes q rounds seq fo none = none
with_bytes q rounds seq fo (some none) = some ([], fo)
with_bytes q rounds seq fo (some (some bytes)) = with_rest seq bytes (consume_batch rounds q fo)

turn : Queue → ℕ → Option ℕ × FanOut → Option (List (ℕ × List ℕ) × FanOut)
turn q rounds r = elim r.0 [
  | none ↦ some ([], r.1)
  | some seq ↦ with_bytes q rounds seq r.1 (get seq q)
]

-- A message before a batch of what follows it.
one_more :
    (log : List Message) (q : Queue) (rounds : ℕ) (fo : FanOut) (m : List ℕ)
    (res : Option (List (ℕ × List ℕ) × FanOut))
    → get_elem? log fo.head_seq ≡ some m
    → Batched log rounds q (moved fo) res
    → Batched log (suc rounds) q fo (with_rest fo.head_seq m res)
unfolding moved with_rest
one_more log q rounds fo m res logged (batch, e, b) = (
  ((fo.head_seq, m) ∷ batch.0, batch.1),
  ap (with_rest fo.head_seq m) e,
  record {
    in_order = (refl, logged, b.in_order);
    head = omega (arith, b.head);
    most = elim b.most [ inl full ↦ inl (ap suc full) | inr all ↦ inr all ];
    below = b.below;
  },
)

consume-Batched :
    (log : List Message) (q : Queue) (rounds : ℕ) (fo : FanOut)
    → q.head_seq < 2 ^ 63
    → IsCovered q
    → IsLogged log q
    → IsConsumer q.head_seq q.tail_seq fo
    → Batched log rounds q fo (consume_batch rounds q fo)
unfolding consume_batch turn with_bytes with_rest
consume-Batched log q zero fo small c l i = (
  ([], fo),
  refl,
  record { in_order = tt; head = omega arith; most = inl refl; below = i.head_below },
)
consume-Batched log q (suc rounds) fo small c l i =
    elim (Bool-cases (lt64 fo.head_seq q.head_seq)) [
      | inr none_left ↦
          subst (λ r. Batched log (suc rounds) q fo (turn q rounds r))
            (sym (consume_done q fo none_left))
            (
              ([], fo),
              refl,
              record {
                in_order = tt;
                head = omega arith;
                most = inr (reached none_left);
                below = i.head_below;
              },
            )
      | inl more ↦
          let below : fo.head_seq < q.head_seq = pending_below more in
          let (m, got, logged) =
            get-IsLogged log fo.head_seq q small c l (omega (arith, i.tail_kept, i.tail_below))
              below in
          subst (λ r. Batched log (suc rounds) q fo (turn q rounds r))
            (sym (consume_more q fo small below more))
            (subst
              (λ o. Batched log (suc rounds) q fo (with_bytes q rounds fo.head_seq (moved fo) o))
              (sym got)
              (one_more log q rounds fo m (consume_batch rounds q (moved fo)) logged (
                consume-Batched log q rounds (moved fo) small c l (moved-IsConsumer q fo below i))))
    ]
  where
    reached : lt64 fo.head_seq q.head_seq ≡ false → fo.head_seq ≡ q.head_seq
    reached none_left = let b = i.head_below in ground arith

    pending_below : lt64 fo.head_seq q.head_seq ≡ true → fo.head_seq < q.head_seq
    pending_below more = let b = i.head_below in ground arith

-- The shard after the messages of the replicas.
abbrev pub handled {ℓ} : {S : Type ℓ} → (S → List ℕ → S) → List (ℕ × List ℕ) → S → S
handled handle [] shard = shard
handled handle ((seq, bytes) ∷ replicas) shard = handled handle replicas (handle shard bytes)

-- The storage node takes all the replicas, in their order, and wants next what the consumer has next.
pub record IsTaken {ℓ} {S : Type ℓ} (handle : S → List ℕ → S) (rs : List (ℕ × List ℕ))
    (s : Sequence) (shard : S) (next : ℕ) : Type ℓ where
  pub accepted : (write_replicas handle rs s shard).0 ≡ true
  pub wanted : (write_replicas handle rs s shard).1.head_seq ≡ next
  pub stored : (write_replicas handle rs s shard).2 ≡ handled handle rs shard

write_replicas-InOrder {ℓ} :
    {S : Type ℓ} (handle : S → List ℕ → S) (log : List Message) (seq : ℕ) (rs : List (ℕ × List ℕ))
    (s : Sequence) (shard : S)
    → InOrder log seq rs
    → s.head_seq ≡ seq
    → seq + length rs < 2 ^ 63
    → IsTaken handle rs s shard (seq + length rs)
unfolding write_replicas set_head_seq
write_replicas-InOrder handle log seq [] s shard o e few = record {
  accepted = refl;
  wanted = omega arith;
  stored = refl;
}
write_replicas-InOrder handle log seq ((n, m) ∷ rs) s shard o e few =
    let rest =
      write_replicas-InOrder handle log (seq + 1) rs (set_head_seq (next64 s.head_seq) s)
        (handle shard m) o.2 (next_head s e) (omega arith) in
    let same : (s.head_seq == n) ≡ true = ground (arith, o.0) in taken same rest
  where
    next_head :
        (s : Sequence) → s.head_seq ≡ seq → (set_head_seq (next64 s.head_seq) s).head_seq ≡ seq + 1
    next_head s e = let below : seq + 1 < 2 ^ 63 = omega arith in omega arith

    taken :
        (s.head_seq == n) ≡ true
        → IsTaken handle rs
            (set_head_seq (next64 s.head_seq) s)
            (handle shard m)
            (seq + 1 + length rs)
        → IsTaken handle ((n, m) ∷ rs) s shard (seq + suc (length rs))
    taken same rest = record {
      accepted = rw (same, write_replicas) rest.accepted;
      wanted = rw (same, write_replicas) (rest.wanted ∙ omega arith);
      stored = rw (same, write_replicas) rest.stored;
    }

set_head_seq-head :
    (h seq : ℕ) (fo fo' : FanOut) → fan_out_head h seq fo ≡ some fo' → fo'.head_seq ≡ seq
unfolding fan_out_head
set_head_seq-head h seq fo fo' e = ground arith

init_client-agrees :
    (q : Queue) (fo : FanOut) (s : Sequence)
    → q.head_seq < 2 ^ 63
    → q.tail_seq ≤ q.head_seq
    → s.head_seq < 2 ^ 64
    → IsConsumer q.head_seq q.tail_seq fo
    → IsConsumer q.head_seq q.tail_seq (init_client q.head_seq fo s).0
      × ((init_client q.head_seq fo s).0.head_seq ≡ (init_client q.head_seq fo s).1.head_seq)
unfolding init_client set_head_seq
init_client-agrees q fo s small le word i =
    elim (Option-cases (fan_out_head q.head_seq s.head_seq fo)) [
      | inl refused ↦ rw (refused, init_client) (i, refl)
      | inr (fo', moved_to) ↦
          rw (moved_to, init_client)
            (
              set_head_seq-IsConsumer q.head_seq q.tail_seq small le s.head_seq fo fo' word i
                  moved_to,
              set_head_seq-head q.head_seq s.head_seq fo fo' moved_to,
            )
    ]

-- From a new queue on with segments below 2 ^ 31 bytes, whatever has been done with it below 2 ^ 63
-- messages, none of them empty, and whatever int64 the storage node reports as its head to
-- `initClient`: the batch of a consumer is taken with no panic. It has the messages that were appended
-- to the queue, from the number that both sides agree on, each once and in order, and stops before
-- `batchReplicaSize` only at the head of the queue; the storage node takes all of them in that order,
-- and both sides agree on the next number.
pub write_replicas-IsBatch {ℓ} :
    {S : Type ℓ} (handle : S → List ℕ → S) (limit : ℕ) {fq : FanOutQueue} (name : String)
    (fo : FanOut) (s : Sequence) (shard : S) (r : Reach (new_fan_out_queue limit) fq)
    → limit < 2 ^ 31
    → All IsMessage (appended r)
    → lookup name fq.fan_outs ≡ some fo
    → s.head_seq < 2 ^ 64
    → (batch : List (ℕ × List ℕ) × FanOut) × (consume_batch batch_replica_size fq.queue
          (init_client fq.queue.head_seq fo s).0
        ≡ some batch)
      × IsBatch
          (appended r)
          batch_replica_size
          fq.queue
          (init_client fq.queue.head_seq fo s).0
          batch.0
          batch.1
      × IsTaken handle batch.0 (init_client fq.queue.head_seq fo s).1 shard batch.1.head_seq
write_replicas-IsBatch handle limit {fq} name fo s shard r limit_small all found word =
    let q : Queue = fq.queue in
    let o = Reach-IsOrdered limit r in
    let i = All-lookup _ name fo fq.fan_outs o.consumers found in
    let (i', agreed) = init_client-agrees q fo s o.small o.tail_le word i in
    let start : FanOut = (init_client q.head_seq fo s).0 in
    let (batch, taken, b) =
      consume-Batched (appended r) q batch_replica_size start o.small (Reach-IsCovered limit r)
        (Reach-IsLogged limit r limit_small all) i' in
    let few : start.head_seq + length batch.0 < 2 ^ 63 = omega (arith, b.head, b.below, o.small) in
    (
      batch,
      taken,
      b,
      subst (IsTaken handle batch.0 (init_client q.head_seq fo s).1 shard) (sym b.head) (
          write_replicas-InOrder handle (appended r) start.head_seq batch.0
            (init_client q.head_seq fo s).1 shard b.in_order (sym agreed) few),
    )
