-- ===== src/Queue/Store.antt =====
-- pkg/queue/queue.go over the factory of pkg/queue/segment/factory.go. The factory's segments are
-- `older` and, last, the head segment: `NewSegment` puts a segment last and makes it the head one,
-- and `RemoveSegments` takes segments from the front. A new page is `limit` bytes of 0, its index
-- page 8 times as many. The mapped memory of a page outlives the process.
pub mod Counters
pub mod Chain
pub mod Covered
pub mod Log
pub mod Logged
use lindb.Base.{
  ℕ, ◌+◌, ◌-◌, ◌*◌, not, map, get_elem?, take, drop, List, [], ◌∷◌, ◌++◌, Option, none, some,
  length, replicate, if◌then◌else◌, ◌==◌, ◌⊎◌, inl, inr,
}
use lindb.Base.Words.{lt64, next64}
use lindb.Queue.Segment.{Segment, new_segment, append as append_to}
use lindb.Queue.SeqRange.{find}

pub record Queue : Type 0 where
  pub data_file_size_limit : ℕ
  pub older : List Segment
  pub head_seg : Segment
  pub head_seq : ℕ
  pub tail_seq : ℕ
  pub meta_head : ℕ
  pub meta_tail : ℕ

pub data QueueError : Type 0 where
  exceeding_message_size_limit : QueueError
  begin_seq_not_larger : QueueError
  exceed_page_size : QueueError
  append_panic : QueueError

-- The segment of `factory.NewSegment`.
unfoldable pub fresh_segment : ℕ → ℕ → Segment
fresh_segment limit begin_seq = record {
  index_page = replicate (8 * limit) 0;
  data_page = replicate limit 0;
  begin = begin_seq;
  end = begin_seq;
  data_offset = 0;
  index_at = 0;
}

-- `NewQueue` on a new directory.
unfoldable pub new_queue : ℕ → Queue
new_queue limit = record {
  data_file_size_limit = limit;
  older = [];
  head_seg = fresh_segment limit 0;
  head_seq = 0;
  tail_seq = 0;
  meta_head = 0;
  meta_tail = 0;
}

-- `factory.NewSegment`, whose result `Append` makes the head segment.
unfoldable pub rotate : Queue → QueueError ⊎ Queue
rotate q =
    if lt64 q.head_seg.begin q.head_seq
    then inr (record q {
      older = q.older ++ q.head_seg ∷ [];
      head_seg = fresh_segment q.data_file_size_limit q.head_seq;
    })
    else inl begin_seq_not_larger

-- The end of `Append`: the check of the sequence number, the new head and the meta page.
unfoldable pub advance : ℕ → Segment → Queue → QueueError ⊎ (ℕ × Queue)
advance seq seg q =
    if seq == q.head_seq
    then inr (
      seq,
      record q {
        head_seg = seg;
        head_seq = next64 q.head_seq;
        meta_head = next64 q.head_seq;
        meta_tail = q.tail_seq;
      },
    )
    else inl append_panic

unfoldable pub append_rotated : List ℕ → QueueError ⊎ Queue → QueueError ⊎ (ℕ × Queue)
append_rotated message (inl err) = inl err
append_rotated message (inr q) = elim (append_to message q.head_seg) [
  | none ↦ inl exceed_page_size
  | some done ↦ advance done.0 done.1 q
]

-- `Append`
unfoldable pub append : List ℕ → Queue → QueueError ⊎ (ℕ × Queue)
append message q =
    if lt64 q.data_file_size_limit (length message)
    then inl exceeding_message_size_limit
    else elim (append_to message q.head_seg) [
      | none ↦ append_rotated message (rotate q)
      | some done ↦ advance done.0 done.1 q
    ]

-- `Ack`
unfoldable pub ack : ℕ → Queue → Queue
ack seq q =
    if lt64 q.tail_seq seq
    then if lt64 seq q.head_seq then record q { tail_seq = seq; meta_tail = seq } else q
    else q

-- The loop of `RemoveSegments`; it ends at the head segment at the latest.
unfoldable pub drop_acked : ℕ → List Segment → List Segment
drop_acked ack_seq [] = []
drop_acked ack_seq (seg ∷ segs) =
    if lt64 ack_seq seg.end then seg ∷ segs else drop_acked ack_seq segs

-- `factory.RemoveSegments` on the factory of a queue.
unfoldable pub remove_segments : ℕ → Queue → Queue
remove_segments ack_seq q =
    if not (lt64 ack_seq q.head_seg.end) then q else record q { older = drop_acked ack_seq q.older }

-- `GetSegment` of the queue: `none` for `ErrSegmentNotFound`.
unfoldable pub get_segment : ℕ → Queue → Option Segment
get_segment seq q =
    let segs = q.older ++ q.head_seg ∷ [] in
    elim (find seq (map (λ s. s.begin) segs)) [ none ↦ none | some place ↦ get_elem? segs place.0 ]

unfoldable pub next_begin : ℕ → List Segment → ℕ
next_begin end [] = end
next_begin end (seg ∷ segs) = seg.begin

-- A segment of `factory.load`: `none` where `NewSegment` fails or panics, as nothing is opened then.
unfoldable pub open_segment : List ℕ → List ℕ → ℕ → ℕ → Option Segment
open_segment index_page data_page begin end = elim (new_segment index_page data_page begin end) [
  | none ↦ none
  | some none ↦ none
  | some (some seg) ↦ some seg
]

-- The loop of `factory.load`: a segment ends where the next one begins, the last one at `end`.
unfoldable pub load_segments : ℕ → List Segment → Option (List Segment)
load_segments end [] = some []
load_segments end (seg ∷ segs) =
    let rest = load_segments end segs in
    elim (open_segment seg.index_page seg.data_page seg.begin (next_begin end segs)) [
      | none ↦ none
      | some seg' ↦ elim rest [ none ↦ none | some segs' ↦ some (seg' ∷ segs') ]
    ]

-- `factory.load` on the files of the segments `segs`.
unfoldable pub load : ℕ → ℕ → List Segment → Option (List Segment)
load head_seq tail_seq segs = elim (find head_seq (map (λ s. s.begin) segs)) [
  | none ↦ none
  | some hi ↦ elim (find tail_seq (map (λ s. s.begin) segs)) [
    | none ↦ none
    | some ti ↦ load_segments head_seq (take (hi.0 + 1 - ti.0) (drop ti.0 segs))
  ]
]

-- The segments before the last one, and the last one.
unfoldable pub split_last : Segment → List Segment → List Segment × Segment
split_last seg [] = ([], seg)
split_last seg (next ∷ segs) = let rest = split_last next segs in (seg ∷ rest.0, rest.1)

-- `NewQueue` on the directory of a queue that has been open: the sequence numbers are those of the
-- meta page, and the head segment is that of the head, the last one that is loaded.
unfoldable pub reopen : Queue → Option Queue
reopen q = elim (load q.meta_head q.meta_tail (q.older ++ q.head_seg ∷ [])) [
  | none ↦ none
  | some [] ↦ none
  | some (seg ∷ segs) ↦ some (record {
    data_file_size_limit = q.data_file_size_limit;
    older = (split_last seg segs).0;
    head_seg = (split_last seg segs).1;
    head_seq = q.meta_head;
    tail_seq = q.meta_tail;
    meta_head = q.meta_head;
    meta_tail = q.meta_tail;
  })
]
