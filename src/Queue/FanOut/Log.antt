-- ===== src/Queue/FanOut/Log.antt =====
-- The log of a queue along its steps.
use lindb.Base.{
  ℕ, ◌^◌, ◌<◌, sym, subst, List, [], ◌∷◌, ◌++◌, All, length, Map, String, String-Key, insert, arith,
  Option-cases, inl, inr, values,
}
use lindb.Queue.Segment.Holds.{Message}
use lindb.Queue.Store.{Queue, ack}
use lindb.Queue.Store.Logged.{
  IsLogged, made-IsLogged, append-IsLogged, remove_segments-IsLogged, reopen-IsLogged,
  new_queue-IsLogged,
}
use lindb.Queue.FanOut.{
  FanOut, FanOutQueue, acked, sync, least_tail, ack_fan_out, new_fan_out_queue,
}
use lindb.Queue.FanOut.Reach.{
  appends, creates, consumes, sets_head, acks, removes, reopens, Reach, here, next, Reach-IsOrdered,
}
use lindb.Queue.FanOut.Kept.{Reach-IsCovered, queue-get_or_create_fan_out, queue-reopen_all}

-- The messages that were appended on the way.
unfoldable pub appended : {fq fq' : FanOutQueue} → Reach fq fq' → List Message
appended here = []
appended (next r (appends message seq q e few)) = appended r ++ message ∷ []
appended (next r (creates name fo fq' e)) = appended r
appended (next r (consumes name fo e)) = appended r
appended (next r (sets_head name fo fo' seq e word to)) = appended r
appended (next r (acks name fo seq e word)) = appended r
appended (next r removes) = appended r
appended (next r (reopens fq' e)) = appended r

-- A message that is not empty, nor too long for an int.
abbrev pub IsMessage : Message → Type 0
IsMessage m = (0 < length m) × (length m < 2 ^ 62)

ack-IsLogged :
    (log : List Message) (seq : ℕ) (q : Queue) → IsLogged log q → IsLogged log (ack seq q)
unfolding ack
ack-IsLogged log seq q l =
    made-IsLogged log q.data_file_size_limit q.head_seq q.older q.head_seg (ack seq q) l.limit_small
      l.count l.segments (ground arith) (ground arith) (ground arith) (ground arith)

sync-IsLogged :
    (log : List Message) (q : Queue) (m : Map String FanOut)
    → IsLogged log q
    → IsLogged log (sync (record { queue = q; fan_outs = m })).queue
unfolding sync
sync-IsLogged log q [] l = l
sync-IsLogged log q ((name, fo) ∷ m) l =
    ack-IsLogged log (least_tail q.head_seq (fo ∷ values m)) q l

ack_fan_out-IsLogged :
    (log : List Message) (name : String) (fo : FanOut) (seq : ℕ) (fq : FanOutQueue)
    → IsLogged log fq.queue
    → IsLogged log (ack_fan_out name fo seq fq).queue
unfolding ack_fan_out
ack_fan_out-IsLogged log name fo seq fq l = elim (Option-cases (acked seq fo)) [
  | inl ignored ↦ rw (ignored, ack_fan_out) l
  | inr (fo', taken) ↦
      rw (taken, ack_fan_out) (sync-IsLogged log fq.queue (insert name fo' fq.fan_outs) l)
]

All-unsnoc :
    (P : Message → Type 0) (ms : List Message) (m : Message) → All P (ms ++ m ∷ []) → All P ms × P m
All-unsnoc P [] m all = (tt, all.0)
All-unsnoc P (x ∷ ms) m all = let (a, b) = All-unsnoc P ms m all.1 in ((all.0, a), b)

new_fan_out_queue-IsLogged :
    (limit : ℕ) → limit < 2 ^ 31 → IsLogged [] (new_fan_out_queue limit).queue
unfolding new_fan_out_queue
new_fan_out_queue-IsLogged limit small = new_queue-IsLogged limit small

pub Reach-IsLogged :
    (limit : ℕ) {fq : FanOutQueue} (r : Reach (new_fan_out_queue limit) fq)
    → limit < 2 ^ 31
    → All IsMessage (appended r)
    → IsLogged (appended r) fq.queue
unfolding appended
Reach-IsLogged limit here small all = new_fan_out_queue-IsLogged limit small
Reach-IsLogged limit (next {fq₁} r (appends message seq q e few)) small all =
    let (before, m) = All-unsnoc IsMessage (appended r) message all in
    append-IsLogged (appended r) seq message fq₁.queue q m.0 m.1 few (Reach-IsCovered limit r)
      (Reach-IsLogged limit r small before) e
Reach-IsLogged limit (next {fq₁} r (creates name fo fq' e)) small all =
    subst (IsLogged (appended r)) (queue-get_or_create_fan_out name fo fq₁ fq' e)
      (Reach-IsLogged limit r small all)
Reach-IsLogged limit (next r (consumes name fo e)) small all = Reach-IsLogged limit r small all
Reach-IsLogged limit (next r (sets_head name fo fo' seq e word to)) small all =
    Reach-IsLogged limit r small all
Reach-IsLogged limit (next {fq₁} r (acks name fo seq e word)) small all =
    ack_fan_out-IsLogged (appended r) name fo seq fq₁ (Reach-IsLogged limit r small all)
Reach-IsLogged limit (next {fq₁} r removes) small all =
    remove_segments-IsLogged (appended r) fq₁.queue.tail_seq fq₁.queue
      (Reach-IsLogged limit r small all)
Reach-IsLogged limit (next {fq₁} r (reopens fq' e)) small all =
    let o = Reach-IsOrdered limit r in
    let s = o.counters in
    reopen-IsLogged (appended r) fq₁.queue fq'.queue (omega (arith, s.saved_head, o.small))
      (sym s.saved_head) (Reach-IsCovered limit r) (Reach-IsLogged limit r small all)
      (queue-reopen_all fq₁ fq' e)
