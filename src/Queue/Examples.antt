-- ===== src/Queue/Examples.antt =====
-- Small queues.
use lindb.Base.{
  All, ℕ, ◌+◌, ◌<◌, delete, ◌^◌, ◌≡◌, refl, List, [], ◌∷◌, some, none, inr, arith, true, false,
  lookup, insert, replicate, String-Key,
}
use lindb.Queue.Segment.{Segment, put_at, append as append_to, contains, new_segment}
use lindb.Queue.Segment.Holds.{Holds, append-Holds}
use lindb.Queue.Segment.Reads.{new_segment-Holds}
use lindb.Stream.Writer.{little_endian}
use lindb.Queue.SeqRange.{begin_at, above, search_range, find, IsPlace, find_lem}
use lindb.Queue.Store.{Queue, fresh_segment, new_queue, advance, append, get_segment}
use lindb.Queue.FanOut.{
  FanOut, FanOutQueue, fan_out_at, new_fan_out_queue, new_fan_out, get_or_create_fan_out,
}
use lindb.Queue.FanOut.Reach.{appends, creates, Reach, here, next, IsOrdered, Reach-IsOrdered}
use lindb.Queue.FanOut.Log.{appended, IsMessage}
use lindb.Queue.FanOut.Kept.{get_segment-Reach}

-- `SeqRange{10, 20, 50}` of factory_test.go.
abbrev ranges : List ℕ
ranges = 10 ∷ 20 ∷ 50 ∷ []

find-ranges :
    (find 9 ranges ≡ none)
    × (find 10 ranges ≡ some (0, 10))
    × (find 49 ranges ≡ some (1, 20))
    × (find 60 ranges ≡ some (2, 50))
unfolding find search_range above begin_at
find-ranges = (refl, refl, refl, refl)

abbrev low_ranges : above 0 49 ranges ≡ false
unfolding above begin_at
low_ranges = refl

find_lem_example : (i : ℕ) × (find 49 ranges ≡ some (i, begin_at i ranges)) × IsPlace 49 ranges i
find_lem_example = find_lem 49 ranges (omega arith) low_ranges

-- A segment of 4 bytes, and after one message.
abbrev seg_empty : Segment
seg_empty = record {
  index_page = replicate 32 0;
  data_page = replicate 4 0;
  begin = 0;
  end = 0;
  data_offset = 0;
  index_at = 0;
}

abbrev seg_one : Segment
seg_one = record {
  index_page = 0 ∷ 0 ∷ 0 ∷ 0 ∷ 2 ∷ 0 ∷ 0 ∷ 0 ∷ replicate 24 0;
  data_page = 7 ∷ 9 ∷ 0 ∷ 0 ∷ [];
  begin = 0;
  end = 1;
  data_offset = 2;
  index_at = 8;
}

abbrev message : List ℕ
message = 7 ∷ 9 ∷ []

append-message : append_to message seg_empty ≡ some (0, seg_one)
unfolding append_to put_at little_endian
append-message = refl

full-message : append_to (1 ∷ 2 ∷ 3 ∷ []) seg_one ≡ none
unfolding append_to
full-message = refl

seg_empty-Holds : Holds seg_empty []
seg_empty-Holds = record {
  range = refl;
  small = omega arith;
  page_small = omega arith;
  page_ratio = refl;
  nonempty = tt;
  index_spare = replicate 32 0;
  index_is = refl;
  data_spare = replicate 4 0;
  data_is = refl;
  offset_is = refl;
  index_at_is = refl;
}

seg_one-Holds : Holds seg_one (message ∷ [])
seg_one-Holds =
    (append-Holds seg_empty seg_one [] message 0 seg_empty-Holds (omega arith) (omega arith)
      (omega arith) append-message).0

new_segment-Holds_example :
    new_segment seg_one.index_page seg_one.data_page 0 1 ≡ some (some seg_one)
new_segment-Holds_example = new_segment-Holds seg_one (message ∷ []) seg_one-Holds

-- A queue with one message and one consumer.
abbrev queue_one : Queue
queue_one = record {
  data_file_size_limit = 4;
  older = [];
  head_seg = seg_one;
  head_seq = 1;
  tail_seq = 0;
  meta_head = 1;
  meta_tail = 0;
}

append-first : append message (new_fan_out_queue 4).queue ≡ inr (0, queue_one)
unfolding append append_to advance put_at little_endian new_fan_out_queue new_queue fresh_segment
append-first = refl

abbrev pub reader : FanOut
reader = record { head_seq = 0; tail_seq = 0; meta_head = 0; meta_tail = 0 }

abbrev pub one_reader : FanOutQueue
one_reader = record { queue = queue_one; fan_outs = ("node", reader) ∷ [] }

small_head : (new_fan_out_queue 4).queue.head_seq + 1 < 2 ^ 63
unfolding new_fan_out_queue new_queue
small_head = omega arith

created :
    get_or_create_fan_out "node" (record (new_fan_out_queue 4) { queue = queue_one })
    ≡ some (reader, one_reader)
unfolding get_or_create_fan_out new_fan_out_queue new_fan_out fan_out_at get_segment find
    search_range above begin_at lookup insert delete
created = refl

pub one_reader-Reach : Reach (new_fan_out_queue 4) one_reader
one_reader-Reach =
    next (next here (appends message 0 queue_one append-first small_head))
      (creates "node" reader one_reader created)

pub one_reader-messages : All IsMessage (appended one_reader-Reach)
unfolding appended one_reader-Reach
one_reader-messages = ((omega arith, omega arith), tt)

pub one_reader-lookup : lookup "node" one_reader.fan_outs ≡ some reader
unfolding lookup
one_reader-lookup = refl

Reach-IsOrdered_example : IsOrdered one_reader
Reach-IsOrdered_example = Reach-IsOrdered 4 one_reader-Reach

get_segment-Reach_example :
    (seg : Segment) × (get_segment 0 queue_one ≡ some seg) × (contains 0 seg ≡ true)
get_segment-Reach_example =
    get_segment-Reach 4 "node" reader 0 one_reader-Reach one_reader-lookup (omega arith)
      (omega arith)
