-- ===== src/Queue/FanOut.antt =====
-- pkg/queue/fanout.go: the consumers of a queue. The meta file of a consumer is a new one of zeros
-- where its name is new. The errors of files are left out.
pub mod Ordered
pub mod Reach
pub mod Kept
pub mod Log
use lindb.Base.{
  ℕ, ◌+◌, ◌≡◌, Bool, true, false, not, ◌&&◌, ◌||◌, List, [], ◌∷◌, ◌++◌, Option, none, some,
  if◌then◌else◌, ◌==◌, ◌-◌, ◌%◌, ◌^◌, Map, values, lookup, insert, String, String-Key,
}
use lindb.Base.Words.{lt64, next64}
use lindb.Queue.Store.{Queue, ack, get_segment, reopen, new_queue}

pub record FanOut : Type 0 where
  pub head_seq : ℕ
  pub tail_seq : ℕ
  pub meta_head : ℕ
  pub meta_tail : ℕ

pub record FanOutQueue : Type 0 where
  pub queue : Queue
  pub fan_outs : Map String FanOut

-- The sequence numbers of `NewFanOut`, the queue's tail first.
unfoldable pub fan_out_at : ℕ → ℕ → ℕ → FanOut
fan_out_at queue_tail head tail =
    if head == 0 && tail == 0
    then record { head_seq = queue_tail; tail_seq = queue_tail; meta_head = head; meta_tail = tail }
    else record { head_seq = head; tail_seq = tail; meta_head = head; meta_tail = tail }

-- `NewFanOut` on what its meta file holds: `none` for the error of `GetSegment`.
unfoldable pub new_fan_out : Queue → ℕ → ℕ → Option FanOut
new_fan_out q head tail =
    let fo = fan_out_at q.tail_seq head tail in
    elim (get_segment fo.head_seq q) [ none ↦ none | some seg ↦ some fo ]

-- `NewFanOutQueue` on a new directory
unfoldable pub new_fan_out_queue : ℕ → FanOutQueue
new_fan_out_queue limit = record { queue = new_queue limit; fan_outs = [] }

-- `GetOrCreateFanOut`
unfoldable pub get_or_create_fan_out : String → FanOutQueue → Option (FanOut × FanOutQueue)
get_or_create_fan_out name fq = elim (lookup name fq.fan_outs) [
  | some fo ↦ some (fo, fq)
  | none ↦ elim (new_fan_out fq.queue 0 0) [
    | none ↦ none
    | some fo ↦ some (fo, record fq { fan_outs = insert name fo fq.fan_outs })
  ]
]

-- `fanOut.Consume`, given the queue's head: `none` for `SeqNoNewMessageAvailable`.
unfoldable pub consume : ℕ → FanOut → Option ℕ × FanOut
consume queue_head fo =
    if lt64 fo.head_seq queue_head
    then (some fo.head_seq, record fo { head_seq = next64 fo.head_seq })
    else (none, fo)

-- `fanOut.SetHeadSeq`, given the queue's head: `none` for its error.
unfoldable pub set_head_seq : ℕ → ℕ → FanOut → Option FanOut
set_head_seq queue_head seq fo =
    if lt64 queue_head seq || lt64 seq fo.tail_seq
    then none
    else some (record fo { head_seq = seq })

-- The loop of `Sync`.
unfoldable pub least_tail : ℕ → List FanOut → ℕ
least_tail ack_seq [] = ack_seq
least_tail ack_seq (fo ∷ fos) =
    if lt64 fo.tail_seq ack_seq then least_tail fo.tail_seq fos else least_tail ack_seq fos

-- `Sync`
unfoldable pub sync : FanOutQueue → FanOutQueue
sync fq = elim fq.fan_outs [
  | [] ↦ fq
  | fo ∷ fos ↦ record fq {
    queue = ack (least_tail fq.queue.head_seq (values fq.fan_outs)) fq.queue;
  }
]

-- What `fanOut.Ack` does to the consumer itself: `none` where it ignores the sequence number.
unfoldable pub acked : ℕ → FanOut → Option FanOut
acked ack_seq fo =
    if lt64 fo.tail_seq ack_seq && lt64 ack_seq fo.head_seq
    then some (record {
      head_seq = fo.head_seq;
      tail_seq = ack_seq;
      meta_head = fo.head_seq;
      meta_tail = ack_seq;
    })
    else none

-- `fanOut.Ack` of the consumer `name`
unfoldable pub ack_fan_out : String → FanOut → ℕ → FanOutQueue → FanOutQueue
ack_fan_out name fo ack_seq fq = elim (acked ack_seq fo) [
  | none ↦ fq
  | some fo' ↦ sync (record fq { fan_outs = insert name fo' fq.fan_outs })
]

-- `Pending`
unfoldable pub pending : ℕ → FanOut → ℕ
pending queue_head fo = (queue_head + 2 ^ 64 - fo.head_seq) % 2 ^ 64

-- The map that `NewFanOutQueue` restores from the meta files of the consumers.
unfoldable pub restore : Queue → Map String FanOut → Option (Map String FanOut)
restore q [] = some []
restore q ((name, fo) ∷ fos) =
    let rest = restore q fos in
    elim (new_fan_out q fo.meta_head fo.meta_tail) [
      | none ↦ none
      | some fo' ↦ elim rest [ none ↦ none | some fos' ↦ some ((name, fo') ∷ fos') ]
    ]

-- `NewFanOutQueue` on the directory of a queue that has been open; `none` where it fails.
unfoldable pub reopen_all : FanOutQueue → Option FanOutQueue
reopen_all fq = elim (reopen fq.queue) [
  | none ↦ none
  | some q ↦ elim (restore q fq.fan_outs) [
    | none ↦ none
    | some fos ↦ some (record { queue = q; fan_outs = fos })
  ]
]
