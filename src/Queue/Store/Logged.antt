-- ===== src/Queue/Store/Logged.antt =====
-- The operations of a queue on the log of its messages.
use lindb.Base.{
  ℕ, ◌+◌, ◌^◌, ◌≤◌, ◌<◌, ◌≡◌, refl, sym, subst, ◌∙◌, List, [], ◌∷◌, ◌++◌, some, arith, Option-cases,
  Bool-cases, get_elem?, length, inl, inr, ◌⊎◌, All, All-append, length-append,
}
use lindb.Base.Words.{lt64}
use lindb.Queue.Segment.{Segment, read, append as append_to}
use lindb.Queue.Segment.Holds.{Message}
use lindb.Queue.SeqRange.{find}
use lindb.Queue.Store.{
  Queue, QueueError, fresh_segment, rotate, advance, append_rotated, append, remove_segments,
  get_segment, load, split_last, reopen, new_queue,
}
use lindb.Queue.Store.Chain.{Chain, begins, Chain-split, split_last-append}
use lindb.Queue.Store.Covered.{IsCovered, rotate-IsCovered, get_segment-IsCovered}
use lindb.Queue.Store.Log.{
  HoldsLog, read-HoldsLog, append-HoldsLog, fresh_segment-HoldsLog, All-split, All-drop_acked,
  All-get_elem?, All-grown, load-All,
}

pub record IsLogged (log : List Message) (q : Queue) : Type 0 where
  pub limit_small : q.data_file_size_limit < 2 ^ 31
  pub count : length log ≡ q.head_seq
  pub segments : All (HoldsLog log) (q.older ++ q.head_seg ∷ [])

pub made-IsLogged :
    (log : List Message) (limit h : ℕ) (older : List Segment) (seg : Segment) (q : Queue)
    → limit < 2 ^ 31
    → length log ≡ h
    → All (HoldsLog log) (older ++ seg ∷ [])
    → q.data_file_size_limit ≡ limit
    → q.head_seq ≡ h
    → q.older ≡ older
    → q.head_seg ≡ seg
    → IsLogged log q
made-IsLogged log limit h older seg q small count all el eh eo es = record {
  limit_small = omega arith;
  count = count ∙ sym eh;
  segments =
      subst (λ o. All (HoldsLog log) (o ++ q.head_seg ∷ [])) (sym eo)
        (subst (λ s. All (HoldsLog log) (older ++ s ∷ [])) (sym es) all);
}

advance-IsLogged :
    (log : List Message) (n : ℕ) (m : Message) (q q' : Queue) (done : ℕ × Segment)
    → 0 < length m
    → length m < 2 ^ 62
    → q.head_seq + 1 < 2 ^ 63
    → IsCovered q
    → IsLogged log q
    → append_to m q.head_seg ≡ some done
    → advance done.0 done.1 q ≡ inr (n, q')
    → IsLogged (log ++ m ∷ []) q'
unfolding advance
advance-IsLogged log n m q q' done some_bytes m_small few c l fits e =
    let (k, front, last) = Chain-split c.first q.head_seq q.older (q.head_seg ∷ []) c.chain in
    let (old, newest) = All-split (HoldsLog log) q.older (q.head_seg ∷ []) l.segments in
    let at_end : q.head_seg.end ≡ length log = last.2 ∙ sym l.count in
    let grown =
      append-HoldsLog log m q.head_seg done.1 done.0 newest.0 some_bytes m_small at_end
        (omega (arith, l.count)) fits in
    made-IsLogged (log ++ m ∷ []) q.data_file_size_limit (q.head_seq + 1) q.older done.1 q'
      l.limit_small (omega (arith, length-append log (m ∷ []), l.count))
      (All-append (HoldsLog (log ++ m ∷ [])) q.older (done.1 ∷ []) (All-grown log m q.older old)
        (grown, tt))
      (ground arith) (ground arith) (ground arith) (ground arith)

rotate-IsLogged :
    (log : List Message) (q q' : Queue)
    → q.head_seq < 2 ^ 63
    → IsLogged log q
    → rotate q ≡ inr q'
    → IsLogged log q'
unfolding rotate
rotate-IsLogged log q q' small l e =
    made-IsLogged log q.data_file_size_limit q.head_seq (q.older ++ q.head_seg ∷ [])
      (fresh_segment q.data_file_size_limit q.head_seq) q' l.limit_small l.count
      (All-append (HoldsLog log) (q.older ++ q.head_seg ∷ []) _ l.segments
        (fresh_segment-HoldsLog q.data_file_size_limit log q.head_seq l.limit_small small, tt))
      (ground arith) (ground arith) (ground arith) (ground arith)

append_rotated-IsLogged :
    (log : List Message) (n h : ℕ) (m : Message) (r : QueueError ⊎ Queue) (q' : Queue)
    → 0 < length m
    → length m < 2 ^ 62
    → h + 1 < 2 ^ 63
    → ((q : Queue) → r ≡ inr q → IsCovered q × (q.head_seq ≡ h) × IsLogged log q)
    → append_rotated m r ≡ inr (n, q')
    → IsLogged (log ++ m ∷ []) q'
unfolding append_rotated
append_rotated-IsLogged log n h m (inl err) q' some_bytes m_small few c e = absurd (ground arith)
append_rotated-IsLogged log n h m (inr q) q' some_bytes m_small few c e =
    elim (Option-cases (append_to m q.head_seg)) [
      | inl full ↦ absurd (ground arith)
      | inr (done, fits) ↦
          let (covered, head, logged) = c q refl in
          advance-IsLogged log n m q q' done some_bytes m_small (omega arith) covered logged fits
            (ground arith)
    ]

pub append-IsLogged :
    (log : List Message) (n : ℕ) (m : Message) (q q' : Queue)
    → 0 < length m
    → length m < 2 ^ 62
    → q.head_seq + 1 < 2 ^ 63
    → IsCovered q
    → IsLogged log q
    → append m q ≡ inr (n, q')
    → IsLogged (log ++ m ∷ []) q'
unfolding append
append-IsLogged log n m q q' some_bytes m_small few c l e =
    elim (Option-cases (append_to m q.head_seg)) [
      | inl full ↦
          append_rotated-IsLogged log n q.head_seq m (rotate q) q' some_bytes m_small few
            (λ q1 r.
              let (covered, head) = rotate-IsCovered q q1 c r in
              (covered, head, rotate-IsLogged log q q1 (omega arith) l r))
            (ground arith)
      | inr (done, fits) ↦
          advance-IsLogged log n m q q' done some_bytes m_small few c l fits (ground arith)
    ]

pub remove_segments-IsLogged :
    (log : List Message) (t : ℕ) (q : Queue) → IsLogged log q → IsLogged log (remove_segments t q)
unfolding remove_segments
remove_segments-IsLogged log t q l =
    let (old, newest) = All-split (HoldsLog log) q.older (q.head_seg ∷ []) l.segments in
    elim (Bool-cases (lt64 t q.head_seg.end)) [
      | inl some_left ↦
          rw (some_left, remove_segments)
            (record {
              limit_small = l.limit_small;
              count = l.count;
              segments =
                  All-append (HoldsLog log) _ (q.head_seg ∷ [])
                    (All-drop_acked (HoldsLog log) t q.older old) newest;
            })
      | inr all_acked ↦ rw (all_acked, remove_segments) l
    ]

pub reopen-IsLogged :
    (log : List Message) (q q' : Queue)
    → q.meta_head < 2 ^ 63
    → q.head_seq ≡ q.meta_head
    → IsCovered q
    → IsLogged log q
    → reopen q ≡ some q'
    → IsLogged log q'
unfolding reopen
reopen-IsLogged log q q' small saved c l e =
    elim (Option-cases (load q.meta_head q.meta_tail (q.older ++ q.head_seg ∷ []))) [
      | inl failed ↦ absurd (ground arith)
      | inr ([], found) ↦ absurd (ground arith)
      | inr (seg ∷ segs, found) ↦
          let all =
            load-All log c.first q.meta_head q.meta_tail (q.older ++ q.head_seg ∷ []) (seg ∷ segs)
              small (subst (λ h. Chain c.first (q.older ++ q.head_seg ∷ []) h) saved c.chain)
              l.segments found in
          made-IsLogged log q.data_file_size_limit q.meta_head (split_last seg segs).0
            (split_last seg segs).1 q' l.limit_small (l.count ∙ saved)
            (subst (All (HoldsLog log)) (sym (split_last-append seg segs)) all) (ground arith)
            (ground arith) (ground arith) (ground arith)
    ]

pub new_queue-IsLogged : (limit : ℕ) → limit < 2 ^ 31 → IsLogged [] (new_queue limit)
unfolding new_queue
new_queue-IsLogged limit small = record {
  limit_small = small;
  count = refl;
  segments = (fresh_segment-HoldsLog limit [] 0 small (omega arith), tt);
}

get_segment-All :
    (P : Segment → Type 0) (seq : ℕ) (q : Queue) (seg : Segment)
    → All P (q.older ++ q.head_seg ∷ [])
    → get_segment seq q ≡ some seg
    → P seg
unfolding get_segment
get_segment-All P seq q seg all e =
    elim (Option-cases (find seq (begins (q.older ++ q.head_seg ∷ [])))) [
      | inl missing ↦ absurd (ground arith)
      | inr (place, found) ↦
          All-get_elem? P (q.older ++ q.head_seg ∷ []) place.0 seg all (ground arith)
    ]

-- What is read of a number between the tail and the head is the message of the log.
pub read-IsLogged :
    (log : List Message) (seq : ℕ) (q : Queue)
    → q.head_seq < 2 ^ 63
    → IsCovered q
    → IsLogged log q
    → q.tail_seq ≤ seq
    → seq < q.head_seq
    → (seg : Segment) × (m : Message) × (get_segment seq q ≡ some seg)
      × (read seq seg ≡ some (some m))
      × (get_elem? log seq ≡ some m)
read-IsLogged log seq q small c l ge le =
    let (seg, found, inside) = get_segment-IsCovered seq q small c ge le in
    let (m, got, logged) =
      read-HoldsLog log seg seq (get_segment-All (HoldsLog log) seq q seg l.segments found)
        (omega arith) inside in
    (seg, m, found, got, logged)
