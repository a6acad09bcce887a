-- ===== src/Queue/FanOut/Reach.antt =====
-- What the program does with a queue and its consumers, step by step.
use lindb.Base.{
  none, ℕ, ◌+◌, ◌^◌, ◌≤◌, ◌<◌, ◌≡◌, refl, sym, Map, inl, inr, List, [], ◌∷◌, some, arith,
  Option-cases, All, values, lookup, insert, String, String-Key, subst,
}
use lindb.Queue.Store.{Queue, new_queue, append, ack, remove_segments, reopen}
use lindb.Queue.Store.Counters.{
  HasCounters, append-HasCounters, ack-HasCounters, remove_segments-HasCounters, reopen-HasCounters,
}
use lindb.Queue.FanOut.{
  FanOut, FanOutQueue, new_fan_out, new_fan_out_queue, get_or_create_fan_out, consume, set_head_seq,
  acked, least_tail, sync, ack_fan_out, restore, reopen_all,
}
use lindb.Queue.FanOut.Ordered

-- A step. The calls of one consumer that a lock or an atomic number parts may mix in the program:
-- here each call is one step. A sequence number that a caller gives is any int64.
pub data Step (fq : FanOutQueue) : FanOutQueue → Type 0 where
  appends :
      (message : List ℕ) (seq : ℕ) (q : Queue)
      → append message fq.queue ≡ inr (seq, q)
      → fq.queue.head_seq + 1 < 2 ^ 63
      → Step fq (record fq { queue = q })
  creates :
      (name : String) (fo : FanOut) (fq' : FanOutQueue)
      → get_or_create_fan_out name fq ≡ some (fo, fq')
      → Step fq fq'
  consumes :
      (name : String) (fo : FanOut)
      → lookup name fq.fan_outs ≡ some fo
      → Step fq (record fq { fan_outs = insert name (consume fq.queue.head_seq fo).1 fq.fan_outs })
  sets_head :
      (name : String) (fo fo' : FanOut) (seq : ℕ)
      → lookup name fq.fan_outs ≡ some fo
      → seq < 2 ^ 64
      → set_head_seq fq.queue.head_seq seq fo ≡ some fo'
      → Step fq (record fq { fan_outs = insert name fo' fq.fan_outs })
  acks :
      (name : String) (fo : FanOut) (seq : ℕ)
      → lookup name fq.fan_outs ≡ some fo
      → seq < 2 ^ 64
      → Step fq (ack_fan_out name fo seq fq)
  removes : Step fq (record fq { queue = remove_segments fq.queue.tail_seq fq.queue })
  reopens : (fq' : FanOutQueue) → reopen_all fq ≡ some fq' → Step fq fq'

pub data Reach (fq : FanOutQueue) : FanOutQueue → Type 0 where
  here : Reach fq fq
  next : {fq₁ fq₂ : FanOutQueue} → Reach fq fq₁ → Step fq₁ fq₂ → Reach fq fq₂

-- The tail of the queue is at most the acknowledged number of each consumer, that at most the next
-- number it consumes, and that at most the head of the queue; the meta pages hold the same order.
pub record IsOrdered (fq : FanOutQueue) : Type 0 where
  pub counters : HasCounters fq.queue.head_seq fq.queue.tail_seq fq.queue
  pub small : fq.queue.head_seq < 2 ^ 63
  pub tail_le : fq.queue.tail_seq ≤ fq.queue.head_seq
  pub consumers : All (Ordered.IsConsumer fq.queue.head_seq fq.queue.tail_seq) (values fq.fan_outs)

-- A queue whose numbers are `h` and `t`, with consumers that fit them.
queue-IsOrdered :
    (q : Queue) (m : Map String FanOut) (h t : ℕ)
    → HasCounters h t q
    → h < 2 ^ 63
    → t ≤ h
    → All (Ordered.IsConsumer h t) (values m)
    → IsOrdered (record { queue = q; fan_outs = m })
queue-IsOrdered q m h t c small le all = record {
  counters = record {
    head = refl;
    tail = refl;
    saved_head = ground arith;
    saved_tail = ground arith;
  };
  small = ground arith;
  tail_le = ground arith;
  consumers =
      subst (λ h'. All (Ordered.IsConsumer h' q.tail_seq) (values m)) (sym c.head)
        (subst (λ t'. All (Ordered.IsConsumer h t') (values m)) (sym c.tail) all);
}

sync-IsOrdered :
    (q : Queue) (m : Map String FanOut)
    → IsOrdered (record { queue = q; fan_outs = m })
    → IsOrdered (sync (record { queue = q; fan_outs = m }))
unfolding sync
sync-IsOrdered q [] o = o
sync-IsOrdered q ((name, fo) ∷ m) o =
    let l =
      Ordered.least_tail_lem q.head_seq q.tail_seq q.head_seq (fo ∷ values m) o.small (omega arith)
        o.consumers in
    let (t', c, up, to, le) =
      ack-HasCounters q.head_seq q.tail_seq (least_tail q.head_seq (fo ∷ values m)) q o.small
        o.tail_le l.0 o.counters in
    queue-IsOrdered (ack (least_tail q.head_seq (fo ∷ values m)) q) ((name, fo) ∷ m) q.head_seq t' c
      o.small le (Ordered.raised-All q.head_seq q.tail_seq t' _ (fo ∷ values m) to o.consumers l.1)

module _ {fq : FanOutQueue} (o : IsOrdered fq) where
  appends-IsOrdered :
      (message : List ℕ) (seq : ℕ) (q : Queue)
      → append message fq.queue ≡ inr (seq, q)
      → fq.queue.head_seq + 1 < 2 ^ 63
      → IsOrdered (record fq { queue = q })
  appends-IsOrdered message seq q e few =
      let c =
        (append-HasCounters fq.queue.head_seq fq.queue.tail_seq seq message fq.queue q few
          o.counters e).0 in
      queue-IsOrdered q fq.fan_outs (fq.queue.head_seq + 1) fq.queue.tail_seq c few
        (omega (arith, o.tail_le))
        (Ordered.All-weaken (Ordered.raised-IsConsumer _ _ _ (omega arith)) (values fq.fan_outs)
          o.consumers)

  put-IsOrdered :
      (name : String) (fo : FanOut)
      → Ordered.IsConsumer fq.queue.head_seq fq.queue.tail_seq fo
      → IsOrdered (record fq { fan_outs = insert name fo fq.fan_outs })
  put-IsOrdered name fo c = record {
    counters = o.counters;
    small = o.small;
    tail_le = o.tail_le;
    consumers = Ordered.All-insert _ name fo fq.fan_outs c o.consumers;
  }

  creates-IsOrdered :
      (name : String) (fo : FanOut) (fq' : FanOutQueue)
      → get_or_create_fan_out name fq ≡ some (fo, fq')
      → IsOrdered fq'
  unfolding get_or_create_fan_out
  creates-IsOrdered name fo fq' e = elim (Option-cases (lookup name fq.fan_outs)) [
    | inr (fo₁, old) ↦ let same : fq ≡ fq' = ground arith in subst IsOrdered same o
    | inl new ↦ elim (Option-cases (new_fan_out fq.queue 0 0)) [
      | inl failed ↦ absurd (ground arith)
      | inr (fo₁, made) ↦ subst IsOrdered (created fo₁ new made) (
          put-IsOrdered name fo₁ (
            Ordered.new_fan_out-IsConsumer fq.queue.head_seq fq.queue.tail_seq o.small o.tail_le
              fq.queue fo₁ refl made))
    ]
  ]
    where
      created :
          (fo₁ : FanOut)
          → lookup name fq.fan_outs ≡ none
          → new_fan_out fq.queue 0 0 ≡ some fo₁
          → record fq { fan_outs = insert name fo₁ fq.fan_outs } ≡ fq'
      created fo₁ new made = ground arith

  found-IsConsumer :
      (name : String) (fo : FanOut)
      → lookup name fq.fan_outs ≡ some fo
      → Ordered.IsConsumer fq.queue.head_seq fq.queue.tail_seq fo
  found-IsConsumer name fo e = Ordered.All-lookup _ name fo fq.fan_outs o.consumers e

  removes-IsOrdered : IsOrdered (record fq { queue = remove_segments fq.queue.tail_seq fq.queue })
  removes-IsOrdered =
      queue-IsOrdered _ fq.fan_outs fq.queue.head_seq fq.queue.tail_seq
        (remove_segments-HasCounters _ _ fq.queue.tail_seq fq.queue o.counters) o.small o.tail_le
        o.consumers

  acks-IsOrdered :
      (name : String) (fo : FanOut) (seq : ℕ)
      → lookup name fq.fan_outs ≡ some fo
      → seq < 2 ^ 64
      → IsOrdered (ack_fan_out name fo seq fq)
  unfolding ack_fan_out
  acks-IsOrdered name fo seq e word = elim (Option-cases (acked seq fo)) [
    | inl ignored ↦ rw (ignored, ack_fan_out) o
    | inr (fo', taken) ↦
        rw (taken, ack_fan_out)
          (sync-IsOrdered fq.queue (insert name fo' fq.fan_outs) (
            put-IsOrdered name fo' (
              Ordered.acked-IsConsumer _ _ o.small o.tail_le seq fo fo' word
                (found-IsConsumer name fo e) taken)))
  ]

  reopens-IsOrdered : (fq' : FanOutQueue) → reopen_all fq ≡ some fq' → IsOrdered fq'
  unfolding reopen_all
  reopens-IsOrdered fq' e = elim (Option-cases (reopen fq.queue)) [
    | inl failed ↦ absurd (ground arith)
    | inr (q, opened) ↦ elim (Option-cases (restore q fq.fan_outs)) [
      | inl failed ↦ absurd (ground arith)
      | inr (m, found) ↦ subst IsOrdered (ground arith) (restored q m opened found)
    ]
  ]
    where
      restored :
          (q : Queue) (m : Map String FanOut)
          → reopen fq.queue ≡ some q
          → restore q fq.fan_outs ≡ some m
          → IsOrdered (record { queue = q; fan_outs = m })
      restored q m opened found =
          let c = reopen-HasCounters _ _ fq.queue q o.counters opened in
          queue-IsOrdered q m fq.queue.head_seq fq.queue.tail_seq c o.small o.tail_le
            (Ordered.restore-All _ _ o.small o.tail_le q fq.fan_outs m c.tail found o.consumers)

  Step-IsOrdered : {fq' : FanOutQueue} → Step fq fq' → IsOrdered fq'
  Step-IsOrdered (appends message seq q e few) = appends-IsOrdered message seq q e few
  Step-IsOrdered (creates name fo fq' e) = creates-IsOrdered name fo fq' e
  Step-IsOrdered (consumes name fo e) =
      put-IsOrdered name _
        (Ordered.consume-IsConsumer _ _ o.small o.tail_le fo (found-IsConsumer name fo e))
  Step-IsOrdered (sets_head name fo fo' seq e word to) = put-IsOrdered name fo' (
      Ordered.set_head_seq-IsConsumer _ _ o.small o.tail_le seq fo fo' word
        (found-IsConsumer name fo e) to)
  Step-IsOrdered (acks name fo seq e word) = acks-IsOrdered name fo seq e word
  Step-IsOrdered removes = removes-IsOrdered
  Step-IsOrdered (reopens fq' e) = reopens-IsOrdered fq' e

new_fan_out_queue-IsOrdered : (limit : ℕ) → IsOrdered (new_fan_out_queue limit)
unfolding new_fan_out_queue new_queue
new_fan_out_queue-IsOrdered limit = record {
  counters = record { head = refl; tail = refl; saved_head = refl; saved_tail = refl };
  small = omega arith;
  tail_le = omega arith;
  consumers = tt;
}

run-IsOrdered : {fq fq' : FanOutQueue} → IsOrdered fq → Reach fq fq' → IsOrdered fq'
run-IsOrdered o here = o
run-IsOrdered o (next r st) = Step-IsOrdered (run-IsOrdered o r) st

-- From a new queue on, whatever is appended, created, consumed, consumed again, acknowledged, removed
-- and reopened, in any order and below 2 ^ 63 messages: the tail of the queue is at most what each
-- consumer has acknowledged, that is at most its head, and that is at most the head of the queue; the
-- meta page of the queue holds its sequence numbers.
pub Reach-IsOrdered :
    (limit : ℕ) {fq : FanOutQueue} → Reach (new_fan_out_queue limit) fq → IsOrdered fq
Reach-IsOrdered limit r = run-IsOrdered (new_fan_out_queue-IsOrdered limit) r
