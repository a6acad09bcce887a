-- ===== src/Queue/FanOut/Kept.antt =====
-- The segments behind the sequence numbers that consumers have acknowledged.
use lindb.Base.{
  ℕ, ◌^◌, ◌≤◌, ◌<◌, ◌≡◌, true, some, sym, subst, lookup, insert, values, Map, String-Key, [], ◌∷◌,
  String, arith, Option-cases, inl, inr, refl,
}
use lindb.Queue.Segment.{Segment, contains}
use lindb.Queue.Store.{Queue, new_queue, fresh_segment, ack, get_segment, reopen}
use lindb.Queue.Store.Covered.{
  IsCovered, made-IsCovered, append-IsCovered, remove_segments-IsCovered, get_segment-IsCovered,
  reopen-IsCovered,
}
use lindb.Queue.FanOut.{
  FanOut, FanOutQueue, new_fan_out, restore, new_fan_out_queue, acked, sync, ack_fan_out,
  reopen_all, get_or_create_fan_out, least_tail,
}
use lindb.Queue.FanOut.Ordered
use lindb.Queue.FanOut.Reach.{
  Step, appends, creates, consumes, sets_head, acks, removes, reopens, Reach, here, next, IsOrdered,
  Reach-IsOrdered,
}

ack-IsCovered :
    (seq : ℕ) (q : Queue)
    → q.tail_seq ≤ q.head_seq
    → q.head_seq < 2 ^ 63
    → IsCovered q
    → IsCovered (ack seq q)
unfolding ack
ack-IsCovered seq q le small c =
    made-IsCovered c.first q.head_seq (ack seq q).tail_seq q.older q.head_seg (ack seq q) c.chain
      (let kept = c.kept in ground arith) (ground arith) (ground arith) (ground arith) refl

sync-IsCovered :
    (q : Queue) (m : Map String FanOut)
    → q.tail_seq ≤ q.head_seq
    → q.head_seq < 2 ^ 63
    → IsCovered q
    → IsCovered (sync (record { queue = q; fan_outs = m })).queue
unfolding sync
sync-IsCovered q [] le small c = c
sync-IsCovered q ((name, fo) ∷ m) le small c =
    ack-IsCovered (least_tail q.head_seq (fo ∷ values m)) q le small c

pub queue-get_or_create_fan_out :
    (name : String) (fo : FanOut) (fq fq' : FanOutQueue)
    → get_or_create_fan_out name fq ≡ some (fo, fq')
    → fq.queue ≡ fq'.queue
unfolding get_or_create_fan_out
queue-get_or_create_fan_out name fo fq fq' e = elim (Option-cases (lookup name fq.fan_outs)) [
  | inr (fo₁, old) ↦ ground arith
  | inl new ↦ elim (Option-cases (new_fan_out fq.queue 0 0)) [
    | inl failed ↦ absurd (ground arith)
    | inr (fo₁, made) ↦ ground arith
  ]
]

pub queue-reopen_all :
    (fq fq' : FanOutQueue) → reopen_all fq ≡ some fq' → reopen fq.queue ≡ some fq'.queue
unfolding reopen_all
queue-reopen_all fq fq' e = elim (Option-cases (reopen fq.queue)) [
  | inl failed ↦ absurd (ground arith)
  | inr (q, opened) ↦ elim (Option-cases (restore q fq.fan_outs)) [
    | inl failed ↦ absurd (ground arith)
    | inr (m, found) ↦ ground arith
  ]
]

ack_fan_out-IsCovered :
    (name : String) (fo : FanOut) (seq : ℕ) (fq : FanOutQueue)
    → IsOrdered fq
    → IsCovered fq.queue
    → IsCovered (ack_fan_out name fo seq fq).queue
unfolding ack_fan_out
ack_fan_out-IsCovered name fo seq fq o c = elim (Option-cases (acked seq fo)) [
  | inl ignored ↦ rw (ignored, ack_fan_out) c
  | inr (fo', taken) ↦
      rw (taken, ack_fan_out)
        (sync-IsCovered fq.queue (insert name fo' fq.fan_outs) o.tail_le o.small c)
]

reopen_all-IsCovered :
    (fq fq' : FanOutQueue)
    → IsOrdered fq
    → IsCovered fq.queue
    → reopen_all fq ≡ some fq'
    → IsCovered fq'.queue
reopen_all-IsCovered fq fq' o c e =
    let s = o.counters in
    reopen-IsCovered fq.queue fq'.queue (omega (arith, s.saved_head, o.small))
      (omega (arith, s.saved_head, s.saved_tail, o.tail_le)) (sym s.saved_head) c
      (queue-reopen_all fq fq' e)

Step-IsCovered :
    {fq fq' : FanOutQueue} → IsOrdered fq → IsCovered fq.queue → Step fq fq' → IsCovered fq'.queue
Step-IsCovered {fq} o c (appends message seq q e few) =
    append-IsCovered seq message fq.queue q few c e
Step-IsCovered {fq} o c (creates name fo fq' e) =
    subst IsCovered (queue-get_or_create_fan_out name fo fq fq' e) c
Step-IsCovered o c (consumes name fo e) = c
Step-IsCovered o c (sets_head name fo fo' seq e word to) = c
Step-IsCovered {fq} o c (acks name fo seq e word) = ack_fan_out-IsCovered name fo seq fq o c
Step-IsCovered {fq} o c removes = remove_segments-IsCovered fq.queue o.small o.tail_le c
Step-IsCovered {fq} o c (reopens fq' e) = reopen_all-IsCovered fq fq' o c e

new_fan_out_queue-IsCovered : (limit : ℕ) → IsCovered (new_fan_out_queue limit).queue
unfolding new_fan_out_queue new_queue fresh_segment
new_fan_out_queue-IsCovered limit = record {
  first = 0;
  chain = (refl, omega arith, refl);
  kept = omega arith;
}

pub Reach-IsCovered :
    (limit : ℕ) {fq : FanOutQueue} → Reach (new_fan_out_queue limit) fq → IsCovered fq.queue
Reach-IsCovered limit here = new_fan_out_queue-IsCovered limit
Reach-IsCovered limit (next r st) =
    Step-IsCovered (Reach-IsOrdered limit r) (Reach-IsCovered limit r) st

-- From a new queue on, whatever the steps, restarts and the removal of segments among them, and below
-- 2 ^ 63 messages: each sequence number from the one that a consumer has acknowledged to below the
-- head of the queue is still found, in a segment that holds it.
pub get_segment-Reach :
    (limit : ℕ) {fq : FanOutQueue} (name : String) (fo : FanOut) (seq : ℕ)
    → Reach (new_fan_out_queue limit) fq
    → lookup name fq.fan_outs ≡ some fo
    → fo.tail_seq ≤ seq
    → seq < fq.queue.head_seq
    → (seg : Segment) × (get_segment seq fq.queue ≡ some seg) × (contains seq seg ≡ true)
get_segment-Reach limit {fq} name fo seq r found ge le =
    let o = Reach-IsOrdered limit r in
    let one = Ordered.All-lookup _ name fo fq.fan_outs o.consumers found in
    get_segment-IsCovered seq fq.queue o.small (Reach-IsCovered limit r)
      (omega (arith, one.tail_kept, ge)) le
