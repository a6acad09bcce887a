-- ===== src/Queue/Store/Chain.antt =====
-- Segments that follow each other without a gap.
use lindb.Base.{
  ℕ, zero, suc, ◌^◌, ◌≤◌, ◌<◌, ◌≡◌, refl, sym, subst, ap, true, false, ◌⊎◌, inl, inr, List, [], ◌∷◌,
  ◌++◌, some, arith, Bool-cases, Option-cases, map, get_elem?, length, take, drop,
}
use lindb.Base.Words.{lt64}
use lindb.Queue.Segment.{Segment, contains, new_segment, restored}
use lindb.Queue.SeqRange.{above, begin_at, IsPlace}
use lindb.Queue.Store.{drop_acked, open_segment, load_segments, next_begin, split_last}

-- The segments `segs` hold the sequence numbers from `b` to below `e`.
abbrev pub Chain : ℕ → List Segment → ℕ → Type 0
Chain b [] e = b ≡ e
Chain b (seg ∷ segs) e = (seg.begin ≡ b) × (seg.begin ≤ seg.end) × Chain seg.end segs e

abbrev pub begins : List Segment → List ℕ
begins segs = map (λ s. s.begin) segs

pub Chain-le : (b e : ℕ) (segs : List Segment) → Chain b segs e → b ≤ e
Chain-le b e [] c = omega arith
Chain-le b e (seg ∷ segs) c = omega (arith, Chain-le seg.end e segs c.2, c.0, c.1)

pub Chain-append :
    (b m e : ℕ) (xs ys : List Segment) → Chain b xs m → Chain m ys e → Chain b (xs ++ ys) e
Chain-append b m e [] ys cx cy = rw cx cy
Chain-append b m e (x ∷ xs) ys cx cy = (cx.0, cx.1, Chain-append x.end m e xs ys cx.2 cy)

pub Chain-split :
    (b e : ℕ) (xs ys : List Segment) → Chain b (xs ++ ys) e → (m : ℕ) × Chain b xs m × Chain m ys e
Chain-split b e [] ys c = (b, refl, c)
Chain-split b e (x ∷ xs) ys c =
    let (m, cx, cy) = Chain-split x.end e xs ys c.2 in (m, (c.0, c.1, cx), cy)

-- `RemoveSegments` leaves what is not acknowledged.
pub drop_acked-Chain :
    (b e t : ℕ) (segs : List Segment)
    → e < 2 ^ 63
    → t < 2 ^ 63
    → b ≤ t
    → Chain b segs e
    → (b' : ℕ) × (b' ≤ t) × Chain b' (drop_acked t segs) e
unfolding drop_acked
drop_acked-Chain b e t [] small_e small_t le c = (b, le, c)
drop_acked-Chain b e t (seg ∷ segs) small_e small_t le c = elim (Bool-cases (lt64 t seg.end)) [
  | inl over ↦ rw (over, drop_acked) (b, le, c)
  | inr under ↦
      rw (under, drop_acked) (drop_acked-Chain seg.end e t segs small_e small_t (passed under) c.2)
]
  where
    passed : lt64 t seg.end ≡ false → seg.end ≤ t
    passed under = let l = Chain-le seg.end e segs c.2 in ground arith

-- The place that `Find` gives is that of the segment with `seq`.
pub place_lem :
    (b e seq i : ℕ) (segs : List Segment)
    → e < 2 ^ 63
    → seq < e
    → Chain b segs e
    → IsPlace seq (begins segs) i
    → (seg : Segment) × (get_elem? segs i ≡ some seg) × (contains seq seg ≡ true)
unfolding above begin_at contains
place_lem b e seq i [] small le c p = absurd (omega arith)
place_lem b e seq zero (seg ∷ []) small le c p = (seg, refl, ground (arith, p.low, c.1, c.2))
place_lem b e seq zero (seg ∷ next ∷ segs) small le c p =
    (seg, refl, ground (arith, p.low, p.high, c.1, c.2.0, Chain-le seg.end e (next ∷ segs) c.2))
place_lem b e seq (suc i) (seg ∷ segs) small le c p =
    place_lem seg.end e seq i segs small le c.2 (record {
      inside = omega (arith, p.inside);
      low = p.low;
      high = elim p.high [ inl last ↦ inl (omega arith) | inr over ↦ inr over ];
    })

-- Begins in ascending order, from `lo` to `e`.
abbrev pub Ascends : ℕ → List Segment → ℕ → Type 0
Ascends lo [] e = lo ≤ e
Ascends lo (seg ∷ segs) e = (lo ≤ seg.begin) × Ascends seg.begin segs e

Ascends-weaken :
    (lo lo' e : ℕ) (segs : List Segment) → lo' ≤ lo → Ascends lo segs e → Ascends lo' segs e
Ascends-weaken lo lo' e [] le a = omega arith
Ascends-weaken lo lo' e (seg ∷ segs) le a = (omega (arith, a.0), a.1)

pub Chain-Ascends : (b e : ℕ) (segs : List Segment) → Chain b segs e → Ascends b segs e
Chain-Ascends b e [] c = omega arith
Chain-Ascends b e (seg ∷ segs) c = (
  omega (arith, c.0),
  Ascends-weaken seg.end seg.begin e segs c.1 (Chain-Ascends seg.end e segs c.2),
)

Ascends-le : (lo e : ℕ) (segs : List Segment) → Ascends lo segs e → lo ≤ e
Ascends-le lo e [] a = a
Ascends-le lo e (seg ∷ segs) a = omega (arith, a.0, Ascends-le seg.begin e segs a.1)

pub take-Ascends :
    (lo e n : ℕ) (segs : List Segment) → Ascends lo segs e → Ascends lo (take n segs) e
take-Ascends lo e zero segs a = Ascends-le lo e segs a
take-Ascends lo e (suc n) [] a = a
take-Ascends lo e (suc n) (seg ∷ segs) a = (a.0, take-Ascends seg.begin e n segs a.1)

pub drop-Ascends :
    (lo e n : ℕ) (segs : List Segment) → Ascends lo segs e → Ascends lo (drop n segs) e
drop-Ascends lo e zero segs a = a
drop-Ascends lo e (suc n) [] a = a
drop-Ascends lo e (suc n) (seg ∷ segs) a =
    Ascends-weaken seg.begin lo e _ a.0 (drop-Ascends seg.begin e n segs a.1)

open_segment-range :
    (index_page data_page : List ℕ) (b e : ℕ) (seg : Segment)
    → open_segment index_page data_page b e ≡ some seg
    → (seg.begin ≡ b) × (seg.end ≡ e)
unfolding open_segment new_segment restored
open_segment-range index_page data_page b e seg eq = ground arith

next_begin-le : (lo e : ℕ) (segs : List Segment) → Ascends lo segs e → lo ≤ next_begin e segs
unfolding next_begin
next_begin-le lo e [] a = a
next_begin-le lo e (seg ∷ segs) a = a.0

-- What a restart loads is a chain again.
pub load_segments-Chain :
    (lo e : ℕ) (segs segs' : List Segment)
    → Ascends lo segs e
    → load_segments e segs ≡ some segs'
    → Chain (next_begin e segs) segs' e
unfolding load_segments next_begin
load_segments-Chain lo e [] segs' a eq =
    let none_left : [] ≡ segs' = ground arith in subst (λ s. Chain e s e) none_left refl
load_segments-Chain lo e (seg ∷ segs) segs' a eq =
    elim (Option-cases (open_segment seg.index_page seg.data_page seg.begin (next_begin e segs))) [
      | inl failed ↦ absurd (ground arith)
      | inr (seg₁, made) ↦ elim (Option-cases (load_segments e segs)) [
        | inl failed ↦ absurd (ground arith)
        | inr (segs₁, rest) ↦
            loaded seg₁ segs₁ (open_segment-range _ _ seg.begin (next_begin e segs) seg₁ made)
              (load_segments-Chain seg.begin e segs segs₁ a.1 rest) (ground arith)
      ]
    ]
  where
    loaded :
        (seg₁ : Segment) (segs₁ : List Segment)
        → (seg₁.begin ≡ seg.begin) × (seg₁.end ≡ next_begin e segs)
        → Chain (next_begin e segs) segs₁ e
        → seg₁ ∷ segs₁ ≡ segs'
        → Chain seg.begin segs' e
    loaded seg₁ segs₁ r c same =
        let up = next_begin-le seg.begin e segs a.1 in
        subst (λ s. Chain seg.begin s e) same
          (r.0, omega (arith, r.0, r.1, up), subst (λ b. Chain b segs₁ e) (sym r.1) c)

pub split_last-append :
    (seg : Segment) (segs : List Segment)
    → (split_last seg segs).0 ++ (split_last seg segs).1 ∷ [] ≡ seg ∷ segs
unfolding split_last
split_last-append seg [] = refl
split_last-append seg (next ∷ segs) = ap (λ xs. seg ∷ xs) (split_last-append next segs)

-- A sequence number of a chain is not below its first begin.
pub starts-Chain :
    (b e seq : ℕ) (segs : List Segment)
    → e < 2 ^ 63
    → b ≤ seq
    → seq < e
    → Chain b segs e
    → (0 < length (begins segs)) × (above 0 seq (begins segs) ≡ false)
unfolding above begin_at
starts-Chain b e seq [] small ge le c = absurd (omega arith)
starts-Chain b e seq (seg ∷ segs) small ge le c = (omega arith, ground (arith, c.0))

-- What is taken of the segments starts at its first begin.
pub next_begin-taken :
    (i n e : ℕ) (segs : List Segment)
    → (take n (drop i segs) ≡ []) ⊎ (next_begin e (take n (drop i segs)) ≡ begin_at i (begins segs))
unfolding next_begin begin_at
next_begin-taken zero zero e segs = inl refl
next_begin-taken zero (suc n) e [] = inl refl
next_begin-taken zero (suc n) e (seg ∷ segs) = inr refl
next_begin-taken (suc i) zero e [] = inl refl
next_begin-taken (suc i) (suc n) e [] = inl refl
next_begin-taken (suc i) n e (seg ∷ segs) = next_begin-taken i n e segs

pub next_begin-below : (lo e : ℕ) (segs : List Segment) → Ascends lo segs e → next_begin e segs ≤ e
unfolding next_begin
next_begin-below lo e [] a = omega arith
next_begin-below lo e (seg ∷ segs) a = Ascends-le seg.begin e segs a.1

pub load_segments-nil :
    (e : ℕ) (segs segs' : List Segment) → segs ≡ [] → load_segments e segs ≡ some segs' → segs' ≡ []
unfolding load_segments
load_segments-nil e segs segs' none_left done =
    let empty : load_segments e [] ≡ some segs' =
      subst (λ s. load_segments e s ≡ some segs') none_left done in
    ground arith
