-- ===== src/Queue/Store/Covered.antt =====
-- The segments of a queue, from its tail to its head.
use lindb.Base.{
  ℕ, ◌+◌, ◌-◌, ◌^◌, ◌≤◌, ◌<◌, ◌≡◌, refl, sym, subst, ap, ◌∙◌, true, ◌⊎◌, inl, inr, List, [], ◌∷◌,
  ◌++◌, some, none, Option, arith, Bool-cases, Option-cases, get_elem?, take, drop,
}
use lindb.Base.Words.{lt64}
use lindb.Queue.Segment.{Segment, contains, append as append_to}
use lindb.Queue.SeqRange.{begin_at, find, IsPlace, find_lem, find-IsPlace, above-le}
use lindb.Queue.Store.{
  Queue, QueueError, fresh_segment, rotate, advance, append_rotated, append, remove_segments,
  get_segment, load_segments, next_begin, load, split_last, reopen,
}
use lindb.Queue.Store.Chain.{
  Chain, begins, Chain-append, Chain-split, drop_acked-Chain, place_lem, Chain-Ascends,
  take-Ascends, drop-Ascends, starts-Chain, next_begin-below, load_segments-nil, next_begin-taken,
  load_segments-Chain, split_last-append,
}

pub record IsCovered (q : Queue) : Type 0 where
  pub first : ℕ
  pub chain : Chain first (q.older ++ q.head_seg ∷ []) q.head_seq
  pub kept : first ≤ q.tail_seq

-- A message is added to the head segment.
extended :
    (b h : ℕ) (older : List Segment) (message : List ℕ) (seg : Segment) (done : ℕ × Segment)
    → h + 1 < 2 ^ 63
    → Chain b (older ++ seg ∷ []) h
    → append_to message seg ≡ some done
    → Chain b (older ++ done.1 ∷ []) (h + 1)
unfolding append_to
extended b h older message seg done few c e =
    let (m, front, last) = Chain-split b h older (seg ∷ []) c in
    Chain-append b m (h + 1) older (done.1 ∷ []) front (grown m last)
  where
    grown : (m : ℕ) → Chain m (seg ∷ []) h → Chain m (done.1 ∷ []) (h + 1)
    grown m last = (ground (arith, last.0), ground (arith, last.1, last.2), ground (arith, last.2))

-- A queue with the segments, head and tail given.
pub made-IsCovered :
    (b h t : ℕ) (older : List Segment) (seg : Segment) (q : Queue)
    → Chain b (older ++ seg ∷ []) h
    → b ≤ t
    → q.older ≡ older
    → q.head_seg ≡ seg
    → q.head_seq ≡ h
    → q.tail_seq ≡ t
    → IsCovered q
made-IsCovered b h t older seg q c le eo es eh et = record {
  first = b;
  chain =
      subst (λ h'. Chain b (q.older ++ q.head_seg ∷ []) h') (sym eh)
        (subst (λ xs. Chain b (xs ++ q.head_seg ∷ []) h) (sym eo)
          (subst (λ s. Chain b (older ++ s ∷ []) h) (sym es) c));
  kept = omega arith;
}

advance-IsCovered :
    (n : ℕ) (message : List ℕ) (q q' : Queue) (done : ℕ × Segment)
    → q.head_seq + 1 < 2 ^ 63
    → IsCovered q
    → append_to message q.head_seg ≡ some done
    → advance done.0 done.1 q ≡ inr (n, q')
    → IsCovered q'
unfolding advance
advance-IsCovered n message q q' done few c fits e =
    made-IsCovered c.first (q.head_seq + 1) q.tail_seq q.older done.1 q'
      (extended c.first q.head_seq q.older message q.head_seg done few c.chain fits) c.kept
      (ground arith) (ground arith) (ground arith) (ground arith)

fresh_segment-Chain : (limit h : ℕ) → Chain h (fresh_segment limit h ∷ []) h
unfolding fresh_segment
fresh_segment-Chain limit h = (refl, omega arith, refl)

pub rotate-IsCovered :
    (q q' : Queue) → IsCovered q → rotate q ≡ inr q' → IsCovered q' × (q'.head_seq ≡ q.head_seq)
unfolding rotate
rotate-IsCovered q q' c e = (
  made-IsCovered c.first q.head_seq q.tail_seq (q.older ++ q.head_seg ∷ [])
      (fresh_segment q.data_file_size_limit q.head_seq) q'
      (Chain-append c.first q.head_seq q.head_seq (q.older ++ q.head_seg ∷ []) _ c.chain
        (fresh_segment-Chain _ _))
      c.kept (ground arith) (ground arith) (ground arith) (ground arith),
  ground arith,
)

append_rotated-IsCovered :
    (n h : ℕ) (message : List ℕ) (r : QueueError ⊎ Queue) (q' : Queue)
    → h + 1 < 2 ^ 63
    → ((q : Queue) → r ≡ inr q → IsCovered q × (q.head_seq ≡ h))
    → append_rotated message r ≡ inr (n, q')
    → IsCovered q'
unfolding append_rotated
append_rotated-IsCovered n h message (inl err) q' few c e = absurd (ground arith)
append_rotated-IsCovered n h message (inr q) q' few c e =
    elim (Option-cases (append_to message q.head_seg)) [
      | inl full ↦ absurd (ground arith)
      | inr (done, fits) ↦
          advance-IsCovered n message q q' done (omega (arith, (c q refl).1)) (c q refl).0 fits
            (ground arith)
    ]

pub append-IsCovered :
    (n : ℕ) (message : List ℕ) (q q' : Queue)
    → q.head_seq + 1 < 2 ^ 63
    → IsCovered q
    → append message q ≡ inr (n, q')
    → IsCovered q'
unfolding append
append-IsCovered n message q q' few c e = elim (Option-cases (append_to message q.head_seg)) [
  | inl full ↦
      append_rotated-IsCovered n q.head_seq message (rotate q) q' few
        (λ q1. rotate-IsCovered q q1 c) (ground arith)
  | inr (done, fits) ↦ advance-IsCovered n message q q' done few c fits (ground arith)
]

pub remove_segments-IsCovered :
    (q : Queue)
    → q.head_seq < 2 ^ 63
    → q.tail_seq ≤ q.head_seq
    → IsCovered q
    → IsCovered (remove_segments q.tail_seq q)
unfolding remove_segments
remove_segments-IsCovered q small le c =
    let (m, front, last) = Chain-split c.first q.head_seq q.older (q.head_seg ∷ []) c.chain in
    let up : m ≤ q.head_seq = omega (arith, last.0, last.1, last.2) in
    let (b, kept, rest) =
      drop_acked-Chain c.first m q.tail_seq q.older (omega arith) (omega arith) c.kept front in
    elim (Bool-cases (lt64 q.tail_seq q.head_seg.end)) [
      | inl some_left ↦
          rw (some_left, remove_segments)
            (record { first = b; chain = Chain-append b m q.head_seq _ _ rest last; kept = kept })
      | inr all_acked ↦ rw (all_acked, remove_segments) c
    ]

-- What `Find` gives of a queue is the segment with the sequence number.
pub get_segment-IsCovered :
    (seq : ℕ) (q : Queue)
    → q.head_seq < 2 ^ 63
    → IsCovered q
    → q.tail_seq ≤ seq
    → seq < q.head_seq
    → (seg : Segment) × (get_segment seq q ≡ some seg) × (contains seq seg ≡ true)
unfolding get_segment
get_segment-IsCovered seq q small c ge le =
    let segs : List Segment = q.older ++ q.head_seg ∷ [] in
    let (nonempty, low) =
      starts-Chain c.first q.head_seq seq segs small (omega (arith, c.kept)) le c.chain in
    let (i, found, place) = find_lem seq (begins segs) nonempty low in
    let (seg, got, inside) = place_lem c.first q.head_seq seq i segs small le c.chain place in
    (seg, ap picked found ∙ got, inside)
  where
    picked : Option (ℕ × ℕ) → Option Segment
    picked none = none
    picked (some place) = get_elem? (q.older ++ q.head_seg ∷ []) place.0

pub load-Chain :
    (b h t : ℕ) (segs segs' : List Segment)
    → h < 2 ^ 63
    → t ≤ h
    → Chain b segs h
    → load h t segs ≡ some segs'
    → (segs' ≡ []) ⊎ ((b' : ℕ) × Chain b' segs' h × (b' ≤ t))
unfolding load
load-Chain b h t segs segs' small le c e = elim (Option-cases (find h (begins segs))) [
  | inl failed ↦ absurd (ground arith)
  | inr (hi, found_hi) ↦ elim (Option-cases (find t (begins segs))) [
    | inl failed ↦ absurd (ground arith)
    | inr (ti, found_ti) ↦ loaded hi ti (find-IsPlace t (begins segs) ti found_ti) (ground arith)
  ]
]
  where
    starts_low :
        (ti hi : ℕ × ℕ)
        → IsPlace t (begins segs) ti.0
        → next_begin h (take (hi.0 + 1 - ti.0) (drop ti.0 segs)) ≡ begin_at ti.0 (begins segs)
        → next_begin h (take (hi.0 + 1 - ti.0) (drop ti.0 segs)) ≤ h
        → next_begin h (take (hi.0 + 1 - ti.0) (drop ti.0 segs)) ≤ t
    starts_low ti hi place start under =
        let low = above-le ti.0 t (begins segs) (omega arith) (omega arith) place.low in omega arith

    loaded :
        (hi ti : ℕ × ℕ)
        → IsPlace t (begins segs) ti.0
        → load_segments h (take (hi.0 + 1 - ti.0) (drop ti.0 segs)) ≡ some segs'
        → (segs' ≡ []) ⊎ ((b' : ℕ) × Chain b' segs' h × (b' ≤ t))
    loaded hi ti place done =
        let used : List Segment = take (hi.0 + 1 - ti.0) (drop ti.0 segs) in
        let up =
          take-Ascends b h (hi.0 + 1 - ti.0) _
            (drop-Ascends b h ti.0 segs (Chain-Ascends b h segs c)) in
        elim (next_begin-taken ti.0 (hi.0 + 1 - ti.0) h segs) [
          | inl empty ↦ inl (load_segments-nil h used segs' empty done)
          | inr start ↦ inr (
            next_begin h used,
            load_segments-Chain b h used segs' up done,
            starts_low ti hi place start (next_begin-below b h used up),
          )
        ]

pub reopen-IsCovered :
    (q q' : Queue)
    → q.meta_head < 2 ^ 63
    → q.meta_tail ≤ q.meta_head
    → q.head_seq ≡ q.meta_head
    → IsCovered q
    → reopen q ≡ some q'
    → IsCovered q'
unfolding reopen
reopen-IsCovered q q' small le saved c e =
    elim (Option-cases (load q.meta_head q.meta_tail (q.older ++ q.head_seg ∷ []))) [
      | inl failed ↦ absurd (ground arith)
      | inr ([], found) ↦ absurd (ground arith)
      | inr (seg ∷ segs, found) ↦
          opened seg segs
            (load-Chain c.first q.meta_head q.meta_tail (q.older ++ q.head_seg ∷ []) (seg ∷ segs)
              small le (subst (λ h. Chain c.first (q.older ++ q.head_seg ∷ []) h) saved c.chain)
              found)
            (ground arith) (ground arith) (ground arith) (ground arith)
    ]
  where
    opened :
        (seg : Segment) (segs : List Segment)
        → ((seg ∷ segs ≡ []) ⊎ ((b : ℕ) × Chain b (seg ∷ segs) q.meta_head × (b ≤ q.meta_tail)))
        → q'.older ≡ (split_last seg segs).0
        → q'.head_seg ≡ (split_last seg segs).1
        → q'.head_seq ≡ q.meta_head
        → q'.tail_seq ≡ q.meta_tail
        → IsCovered q'
    opened seg segs (inl empty) eo es eh et = absurd (ground arith)
    opened seg segs (inr (b, chain, low)) eo es eh et =
        made-IsCovered b q.meta_head q.meta_tail (split_last seg segs).0 (split_last seg segs).1 q'
          (subst (λ xs. Chain b xs q.meta_head) (sym (split_last-append seg segs)) chain) low eo es
          eh et
