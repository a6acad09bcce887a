-- ===== src/Queue/Store/Counters.antt =====
-- The sequence numbers of a queue.
use lindb.Base.{
  ℕ, ◌+◌, ◌^◌, ◌≤◌, ◌<◌, ◌≡◌, refl, sym, ap, ◌∙◌, ◌⊎◌, inl, inr, List, some, none, Option, arith,
  Option-cases,
}
use lindb.Queue.Segment.{Segment, append as append_to}
use lindb.Queue.Store.{
  Queue, QueueError, exceed_page_size, rotate, advance, append_rotated, append, ack,
  remove_segments, reopen,
}

-- The head and tail of a queue, and those of its meta page.
pub record HasCounters (h t : ℕ) (q : Queue) : Type 0 where
  pub head : q.head_seq ≡ h
  pub tail : q.tail_seq ≡ t
  pub saved_head : q.meta_head ≡ h
  pub saved_tail : q.meta_tail ≡ t

advance-HasCounters :
    (h t seq n : ℕ) (seg : Segment) (q q' : Queue)
    → h + 1 < 2 ^ 63
    → HasCounters h t q
    → advance seq seg q ≡ inr (n, q')
    → HasCounters (h + 1) t q' × (n ≡ h)
unfolding advance
advance-HasCounters h t seq n seg q q' few c e = (
  record {
    head = ground arith;
    tail = ground arith;
    saved_head = ground arith;
    saved_tail = ground arith;
  },
  ground arith,
)

rotate-HasCounters :
    (h t : ℕ) (q q' : Queue) → HasCounters h t q → rotate q ≡ inr q' → HasCounters h t q'
unfolding rotate
rotate-HasCounters h t q q' c e = record {
  head = ground arith;
  tail = ground arith;
  saved_head = ground arith;
  saved_tail = ground arith;
}

append_rotated-HasCounters :
    (h t n : ℕ) (message : List ℕ) (r : QueueError ⊎ Queue) (q' : Queue)
    → h + 1 < 2 ^ 63
    → ((q : Queue) → r ≡ inr q → HasCounters h t q)
    → append_rotated message r ≡ inr (n, q')
    → HasCounters (h + 1) t q' × (n ≡ h)
unfolding append_rotated
append_rotated-HasCounters h t n message (inl err) q' few c e = absurd (ground arith)
append_rotated-HasCounters h t n message (inr q) q' few c e =
    elim (Option-cases (append_to message q.head_seg)) [
      | inl full ↦ absurd (ground arith)
      | inr (done, fits) ↦
          advance-HasCounters h t done.0 n done.1 q q' few (c q refl)
            (sym (ap (λ o. written q o) fits) ∙ e)
    ]
  where
    written : Queue → Option (ℕ × Segment) → QueueError ⊎ (ℕ × Queue)
    written q none = inl exceed_page_size
    written q (some done) = advance done.0 done.1 q

pub append-HasCounters :
    (h t n : ℕ) (message : List ℕ) (q q' : Queue)
    → h + 1 < 2 ^ 63
    → HasCounters h t q
    → append message q ≡ inr (n, q')
    → HasCounters (h + 1) t q' × (n ≡ h)
unfolding append
append-HasCounters h t n message q q' few c e = elim (Option-cases (append_to message q.head_seg)) [
  | inl full ↦
      append_rotated-HasCounters h t n message (rotate q) q' few
        (λ q1. rotate-HasCounters h t q q1 c) (ground arith)
  | inr (done, fits) ↦ advance-HasCounters h t done.0 n done.1 q q' few c (ground arith)
]

pub ack-HasCounters :
    (h t seq : ℕ) (q : Queue)
    → h < 2 ^ 63
    → t ≤ h
    → seq ≤ h
    → HasCounters h t q
    → (t' : ℕ) × HasCounters h t' (ack seq q) × (t ≤ t') × ((t' ≡ t) ⊎ (t' ≡ seq)) × (t' ≤ h)
unfolding ack
ack-HasCounters h t seq q small le below c = (
  (ack seq q).tail_seq,
  record { head = ground arith; tail = refl; saved_head = ground arith; saved_tail = ground arith },
  ground arith,
  ground arith,
  ground arith,
)

pub remove_segments-HasCounters :
    (h t seq : ℕ) (q : Queue) → HasCounters h t q → HasCounters h t (remove_segments seq q)
unfolding remove_segments
remove_segments-HasCounters h t seq q c = record {
  head = ground arith;
  tail = ground arith;
  saved_head = ground arith;
  saved_tail = ground arith;
}

pub reopen-HasCounters :
    (h t : ℕ) (q q' : Queue) → HasCounters h t q → reopen q ≡ some q' → HasCounters h t q'
unfolding reopen
reopen-HasCounters h t q q' c e = record {
  head = ground arith;
  tail = ground arith;
  saved_head = ground arith;
  saved_tail = ground arith;
}
