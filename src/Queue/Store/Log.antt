-- ===== src/Queue/Store/Log.antt =====
-- The messages of a queue: the log of all that were appended, and what each segment has of it.
use lindb.Base.{
  ℕ, zero, suc, ◌+◌, ◌-◌, ◌^◌, ◌≤◌, ◌<◌, ◌≡◌, refl, sym, subst, ap, ◌∙◌, true, List, [], ◌∷◌, ◌++◌,
  some, arith, Option-cases, Bool-cases, get_elem?, length, take, drop, inl, inr, ◌⊎◌, All,
  length-replicate, replicate, ◌*◌, take_of_length-le,
}
use lindb.Base.Words.{lt64}
use lindb.Queue.Segment.{Segment, contains, read, new_segment, append as append_to}
use lindb.Queue.Segment.Holds.{Message, Holds, append-Holds}
use lindb.Queue.Segment.Reads.{read-Holds, new_segment-Holds}
use lindb.Queue.SeqRange.{above, begin_at, find, IsPlace, find-IsPlace}
use lindb.Queue.Store.{fresh_segment, drop_acked, open_segment, load_segments, next_begin, load}
use lindb.Queue.Store.Chain.{Chain, begins, Chain-le}

-- A segment holds messages of the log, at their numbers.
pub record HoldsLog (log : List Message) (seg : Segment) : Type 0 where
  pub messages : List Message
  pub holds : Holds seg messages
  pub there :
      (i : ℕ) (m : Message) → get_elem? messages i ≡ some m → get_elem? log (seg.begin + i) ≡ some m

pub get_elem?-append :
    (xs ys : List Message) (i : ℕ) (m : Message)
    → get_elem? xs i ≡ some m
    → get_elem? (xs ++ ys) i ≡ some m
get_elem?-append [] ys i m e = absurd (ground arith)
get_elem?-append (x ∷ xs) ys zero m e = e
get_elem?-append (x ∷ xs) ys (suc i) m e = get_elem?-append xs ys i m e

pub get_elem?-last :
    (xs : List Message) (m : Message) → get_elem? (xs ++ m ∷ []) (length xs) ≡ some m
get_elem?-last [] m = refl
get_elem?-last (x ∷ xs) m = get_elem?-last xs m

get_elem?-snoc :
    (xs : List Message) (m : Message) (i : ℕ) (x : Message)
    → get_elem? (xs ++ m ∷ []) i ≡ some x
    → (get_elem? xs i ≡ some x) ⊎ ((i ≡ length xs) × (m ≡ x))
get_elem?-snoc [] m zero x e = inr (refl, ground arith)
get_elem?-snoc [] m (suc i) x e = absurd (ground arith)
get_elem?-snoc (y ∷ xs) m zero x e = inl e
get_elem?-snoc (y ∷ xs) m (suc i) x e = elim (get_elem?-snoc xs m i x e) [
  | inl before ↦ inl before
  | inr last ↦ inr (ap suc last.0, last.1)
]

get_elem?-lt :
    (xs : List Message) (i : ℕ) → i < length xs → (m : Message) × (get_elem? xs i ≡ some m)
get_elem?-lt [] i lt = absurd (omega arith)
get_elem?-lt (x ∷ xs) zero lt = (x, refl)
get_elem?-lt (x ∷ xs) (suc i) lt = get_elem?-lt xs i (omega arith)

-- `Read` of a number that the segment contains gives the message of the log.
pub read-HoldsLog :
    (log : List Message) (seg : Segment) (seq : ℕ)
    → HoldsLog log seg
    → seq < 2 ^ 63
    → contains seq seg ≡ true
    → (m : Message) × (read seq seg ≡ some (some m)) × (get_elem? log seq ≡ some m)
unfolding contains
read-HoldsLog log seg seq h small inside =
    let r = h.holds.range in
    let s = h.holds.small in
    let up : seg.begin ≤ seq = ground arith in
    let below : seq < seg.end = ground arith in
    let (m, here) = get_elem?-lt h.messages (seq - seg.begin) (omega arith) in
    let at : seg.begin + (seq - seg.begin) ≡ seq = omega arith in
    (
      m,
      subst (λ n. read n seg ≡ some (some m)) at
          (read-Holds seg h.messages (seq - seg.begin) m h.holds here),
      subst (λ n. get_elem? log n ≡ some m) at (h.there (seq - seg.begin) m here),
    )

grown-HoldsLog :
    (log : List Message) (m : Message) (seg : Segment)
    → HoldsLog log seg
    → HoldsLog (log ++ m ∷ []) seg
grown-HoldsLog log m seg h = record {
  messages = h.messages;
  holds = h.holds;
  there = λ i x e. get_elem?-append log (m ∷ []) (seg.begin + i) x (h.there i x e);
}

-- The log goes on with the message that the segment takes.
pub append-HoldsLog :
    (log : List Message) (m : Message) (seg seg' : Segment) (seq : ℕ)
    → HoldsLog log seg
    → 0 < length m
    → length m < 2 ^ 62
    → seg.end ≡ length log
    → length log + 1 < 2 ^ 63
    → append_to m seg ≡ some (seq, seg')
    → HoldsLog (log ++ m ∷ []) seg'
append-HoldsLog log m seg seg' seq h some_bytes m_small at_end few e =
    let (holds, number, begin) =
      append-Holds seg seg' h.messages m seq h.holds some_bytes m_small (omega arith) e in
    record { messages = h.messages ++ m ∷ []; holds = holds; there = λ i x f. there begin i x f }
  where
    there :
        seg'.begin ≡ seg.begin
        → (i : ℕ) (x : Message) → get_elem? (h.messages ++ m ∷ []) i ≡ some x
        → get_elem? (log ++ m ∷ []) (seg'.begin + i) ≡ some x
    there begin i x f =
        subst (λ b. get_elem? (log ++ m ∷ []) (b + i) ≡ some x) (sym begin)
          (elim (get_elem?-snoc h.messages m i x f) [
            | inl before ↦ get_elem?-append log (m ∷ []) (seg.begin + i) x (h.there i x before)
            | inr (last, same) ↦
                let r = h.holds.range in
                let place : length log ≡ seg.begin + i = omega arith in
                subst (λ n. get_elem? (log ++ m ∷ []) n ≡ some x) place
                  (get_elem?-last log m ∙ ap some same)
          ])

-- A new segment holds nothing.
pub fresh_segment-HoldsLog :
    (limit : ℕ) (log : List Message) (b : ℕ)
    → limit < 2 ^ 31
    → b < 2 ^ 63
    → HoldsLog log (fresh_segment limit b)
unfolding fresh_segment
fresh_segment-HoldsLog limit log b small few = record {
  messages = [];
  holds = record {
    range = omega arith;
    small = few;
    page_small = omega (arith, length-replicate {A = ℕ} limit 0);
    page_ratio =
        omega (arith, length-replicate {A = ℕ} limit 0, length-replicate {A = ℕ} (8 * limit) 0);
    nonempty = tt;
    index_spare = replicate (8 * limit) 0;
    index_is = refl;
    data_spare = replicate limit 0;
    data_is = refl;
    offset_is = refl;
    index_at_is = refl;
  };
  there = λ i m e. absurd (ground arith);
}

module _ (P : Segment → Type 0) where
  pub All-split : (xs ys : List Segment) → All P (xs ++ ys) → All P xs × All P ys
  All-split [] ys all = (tt, all)
  All-split (x ∷ xs) ys all = let (a, b) = All-split xs ys all.1 in ((all.0, a), b)

  pub All-drop_acked : (t : ℕ) (segs : List Segment) → All P segs → All P (drop_acked t segs)
  unfolding drop_acked
  All-drop_acked t [] all = tt
  All-drop_acked t (seg ∷ segs) all = elim (Bool-cases (lt64 t seg.end)) [
    | inl over ↦ rw (over, drop_acked) all
    | inr under ↦ rw (under, drop_acked) (All-drop_acked t segs all.1)
  ]

  pub All-drop : (n : ℕ) (segs : List Segment) → All P segs → All P (drop n segs)
  All-drop zero segs all = all
  All-drop (suc n) [] all = tt
  All-drop (suc n) (seg ∷ segs) all = All-drop n segs all.1

  pub All-get_elem? :
      (segs : List Segment) (i : ℕ) (seg : Segment)
      → All P segs
      → get_elem? segs i ≡ some seg
      → P seg
  All-get_elem? [] i seg all e = absurd (ground arith)
  All-get_elem? (x ∷ segs) zero seg all e = let same : x ≡ seg = ground arith in subst P same all.0
  All-get_elem? (x ∷ segs) (suc i) seg all e = All-get_elem? segs i seg all.1 e

pub All-grown :
    (log : List Message) (m : Message) (segs : List Segment)
    → All (HoldsLog log) segs
    → All (HoldsLog (log ++ m ∷ [])) segs
All-grown log m [] all = tt
All-grown log m (seg ∷ segs) all = (grown-HoldsLog log m seg all.0, All-grown log m segs all.1)

-- The segments that a restart loads are those that were.
load_segments-same :
    (log : List Message) (b e : ℕ) (segs segs' : List Segment)
    → Chain b segs e
    → All (HoldsLog log) segs
    → load_segments e segs ≡ some segs'
    → segs ≡ segs'
unfolding load_segments open_segment next_begin
load_segments-same log b e [] segs' c all eq = ground arith
load_segments-same log b e (seg ∷ segs) segs' c all eq =
    elim (Option-cases (load_segments e segs)) [
      | inl failed ↦ absurd (ground (arith, reopened))
      | inr (segs₁, rest) ↦
          let same = load_segments-same log seg.end e segs segs₁ c.2 all.1 rest in
          ap (λ xs. seg ∷ xs) same ∙ ground (arith, reopened)
    ]
  where
    ends : (segs : List Segment) → Chain seg.end segs e → seg.end ≡ next_begin e segs
    ends [] c = c
    ends (next ∷ segs) c = sym c.0

    reopened :
        new_segment seg.index_page seg.data_page seg.begin (next_begin e segs) ≡ some (some seg)
    reopened =
        ap (new_segment seg.index_page seg.data_page seg.begin) (sym (ends segs c.2))
        ∙ new_segment-Holds seg all.0.messages all.0.holds

Chain-drop :
    (b e n : ℕ) (segs : List Segment) → Chain b segs e → (b' : ℕ) × Chain b' (drop n segs) e
Chain-drop b e zero segs c = (b, c)
Chain-drop b e (suc n) [] c = (b, c)
Chain-drop b e (suc n) (seg ∷ segs) c = Chain-drop seg.end e n segs c.2

begin_at-le : (b e i : ℕ) (segs : List Segment) → Chain b segs e → begin_at i (begins segs) ≤ e
unfolding begin_at
begin_at-le b e i [] c = omega arith
begin_at-le b e zero (seg ∷ segs) c = omega (arith, c.1, Chain-le seg.end e segs c.2)
begin_at-le b e (suc i) (seg ∷ segs) c = begin_at-le seg.end e i segs c.2

-- The segment of the head is the last one.
last_place :
    (b e i : ℕ) (segs : List Segment)
    → e < 2 ^ 63
    → Chain b segs e
    → IsPlace e (begins segs) i
    → suc i ≡ length (begins segs)
unfolding above
last_place b e i segs small c p = elim p.high [
  | inl last ↦ last
  | inr over ↦ absurd (ground (arith, over, begin_at-le b e (suc i) segs c))
]

length-begins : (segs : List Segment) → length (begins segs) ≡ length segs
length-begins [] = refl
length-begins (seg ∷ segs) = ap suc (length-begins segs)

length-drop_le : (n : ℕ) (segs : List Segment) → length (drop n segs) ≤ length segs - n
length-drop_le zero segs = omega arith
length-drop_le (suc n) [] = omega arith
length-drop_le (suc n) (seg ∷ segs) = omega (arith, length-drop_le n segs)

-- What a restart loads is a part of the segments.
pub load-All :
    (log : List Message) (b h t : ℕ) (segs segs' : List Segment)
    → h < 2 ^ 63
    → Chain b segs h
    → All (HoldsLog log) segs
    → load h t segs ≡ some segs'
    → All (HoldsLog log) segs'
unfolding load
load-All log b h t segs segs' small c all e = elim (Option-cases (find h (begins segs))) [
  | inl failed ↦ absurd (ground arith)
  | inr (hi, found_hi) ↦ elim (Option-cases (find t (begins segs))) [
    | inl failed ↦ absurd (ground arith)
    | inr (ti, found_ti) ↦
        loaded hi.0 ti.0 (find-IsPlace h (begins segs) hi found_hi) (ground arith)
  ]
]
  where
    loaded :
        (hi ti : ℕ)
        → IsPlace h (begins segs) hi
        → load_segments h (take (hi + 1 - ti) (drop ti segs)) ≡ some segs'
        → All (HoldsLog log) segs'
    loaded hi ti place done =
        let last = last_place b h hi segs small c place in
        let whole : take (hi + 1 - ti) (drop ti segs) ≡ drop ti segs =
          take_of_length-le (hi + 1 - ti) (drop ti segs)
            (omega (arith, last, length-begins segs, length-drop_le ti segs)) in
        let (b', rest) = Chain-drop b h ti segs c in
        let some_left = All-drop (HoldsLog log) ti segs all in
        subst (All (HoldsLog log))
          (load_segments-same log b' h (drop ti segs) segs' rest some_left
            (subst (λ xs. load_segments h xs ≡ some segs') whole done))
          some_left
