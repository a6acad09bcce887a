-- ===== src/Queue/Segment/Holds.antt =====
-- The messages that a segment holds.
use lindb.Base.{
  ℕ, ◌+◌, ◌*◌, ◌%◌, ◌^◌, ◌≤◌, ◌<◌, ◌≡◌, refl, sym, ap, ◌∙◌, true, inl, inr, List, [], ◌∷◌, ◌++◌,
  some, arith, Bool-cases, length, take, drop, append_assoc, append-nil, All, All-append,
  length-append, take-append, drop-add-append, take-append-drop, length-take, leb,
}
use lindb.Stream.Writer.{little_endian}
use lindb.Stream.Fixed.{length-little_endian}
use lindb.Queue.Segment.{Segment, put_at, append}

abbrev pub Message : Type 0
Message = List ℕ

-- The data page and the index page of messages, from the data offset `off` on.
abbrev pub concat : List Message → List ℕ
concat [] = []
concat (m ∷ ms) = m ++ concat ms

abbrev pub item : ℕ → ℕ → List ℕ
item off size = little_endian 4 off ++ little_endian 4 size

abbrev pub index_of : ℕ → List Message → List ℕ
index_of off [] = []
index_of off (m ∷ ms) = item off (length m) ++ index_of (off + length m) ms

abbrev pub total : List Message → ℕ
total [] = 0
total (m ∷ ms) = length m + total ms

-- The messages fill the front of both pages, which are as long as those of a new segment.
pub record Holds (seg : Segment) (ms : List Message) : Type 0 where
  pub range : seg.end ≡ seg.begin + length ms
  pub small : seg.end < 2 ^ 63
  pub page_small : length seg.data_page < 2 ^ 31
  pub page_ratio : length seg.index_page ≡ 8 * length seg.data_page
  pub nonempty : All (λ m. 0 < length m) ms
  pub index_spare : List ℕ
  pub index_is : seg.index_page ≡ index_of 0 ms ++ index_spare
  pub data_spare : List ℕ
  pub data_is : seg.data_page ≡ concat ms ++ data_spare
  pub offset_is : seg.data_offset ≡ total ms
  pub index_at_is : seg.index_at ≡ 8 * length ms

pub length-concat : (ms : List Message) → length (concat ms) ≡ total ms
length-concat [] = refl
length-concat (m ∷ ms) = omega (arith, length-append m (concat ms), length-concat ms)

pub length-item : (off size : ℕ) → length (item off size) ≡ 8
length-item off size = omega (
  arith,
  length-append (little_endian 4 off) (little_endian 4 size),
  length-little_endian 4 off,
  length-little_endian 4 size,
)

pub length-index_of : (off : ℕ) (ms : List Message) → length (index_of off ms) ≡ 8 * length ms
length-index_of off [] = refl
length-index_of off (m ∷ ms) = omega (
  arith,
  length-append (item off (length m)) (index_of (off + length m) ms),
  length-item off (length m),
  length-index_of (off + length m) ms,
)

length-le-total : (ms : List Message) → All (λ m. 0 < length m) ms → length ms ≤ total ms
length-le-total [] h = omega arith
length-le-total (m ∷ ms) h = omega (arith, h.0, length-le-total ms h.1)

put_at-append :
    (at : ℕ) (xs bs spare : List ℕ)
    → at ≡ length xs
    → length bs ≤ length spare
    → put_at at bs (xs ++ spare) ≡ (xs ++ bs) ++ drop (length bs) spare
unfolding put_at
put_at-append at xs bs spare e room =
    let fits : leb (at + length bs) (length (xs ++ spare)) ≡ true =
      ground (arith, length-append xs spare) in
    rw (e, ← e, fits, e, take-append, drop-add-append) refl

concat-snoc : (ms : List Message) (m : Message) → concat (ms ++ m ∷ []) ≡ concat ms ++ m
concat-snoc [] m = append-nil m
concat-snoc (x ∷ ms) m = ap (λ r. x ++ r) (concat-snoc ms m) ∙ sym (append_assoc x (concat ms) m)

total-snoc : (ms : List Message) (m : Message) → total (ms ++ m ∷ []) ≡ total ms + length m
total-snoc [] m = omega arith
total-snoc (x ∷ ms) m = omega (arith, total-snoc ms m)

index_of-snoc :
    (off : ℕ) (ms : List Message) (m : Message)
    → index_of off (ms ++ m ∷ []) ≡ index_of off ms ++ item (off + total ms) (length m)
index_of-snoc off [] m =
    let same : off ≡ off + 0 = omega arith in
    append-nil (item off (length m)) ∙ ap (λ o. item o (length m)) same
index_of-snoc off (x ∷ ms) m =
    let same : off + length x + total ms ≡ off + (length x + total ms) = omega arith in
    ap (λ r. item off (length x) ++ r)
      (index_of-snoc (off + length x) ms m
        ∙ ap (λ o. index_of (off + length x) ms ++ item o (length m)) same)
    ∙ sym (
        append_assoc (item off (length x)) (index_of (off + length x) ms)
          (item (off + (length x + total ms)) (length m)))

-- What the fields of a segment become by an `Append` that succeeds.
append-page :
    (ms : List Message) (m : Message) (page spare : List ℕ)
    → page ≡ concat ms ++ spare
    → total ms + length m ≤ length page
    → put_at (total ms) m page ≡ concat (ms ++ m ∷ []) ++ drop (length m) spare
append-page ms m page spare e fits =
    let size : length page ≡ length (concat ms) + length spare =
      ap length e ∙ length-append (concat ms) spare in
    ap (put_at (total ms) m) e
    ∙ put_at-append (total ms) (concat ms) m spare (sym (length-concat ms))
        (omega (arith, length-concat ms))
    ∙ ap (λ r. r ++ drop (length m) spare) (sym (concat-snoc ms m))

put_at-word :
    (at v : ℕ) (xs spare : List ℕ)
    → at ≡ length xs
    → 4 ≤ length spare
    → put_at at (little_endian 4 v) (xs ++ spare) ≡ (xs ++ little_endian 4 v) ++ drop 4 spare
put_at-word at v xs spare e room =
    put_at-append at xs (little_endian 4 v) spare e (omega (arith, length-little_endian 4 v))
    ∙ ap (λ n. (xs ++ little_endian 4 v) ++ drop n spare) (length-little_endian 4 v)

length-drop : (n : ℕ) (xs : List ℕ) → n ≤ length xs → n + length (drop n xs) ≡ length xs
length-drop n xs le =
    let parts = sym (length-append (take n xs) (drop n xs)) ∙ ap length (take-append-drop n xs) in
    omega (arith, parts, length-take n xs le)

append-index :
    (ms : List Message) (m : Message) (page spare : List ℕ)
    → page ≡ index_of 0 ms ++ spare
    → 8 * length ms + 8 ≤ length page
    → put_at
        (8 * length ms + 4)
        (little_endian 4 (length m))
        (put_at (8 * length ms) (little_endian 4 (total ms)) page)
      ≡ index_of 0 (ms ++ m ∷ []) ++ drop 4 (drop 4 spare)
append-index ms m page spare e fits =
    let size : length page ≡ length (index_of 0 ms) + length spare =
      ap length e ∙ length-append (index_of 0 ms) spare in
    let full = length-index_of 0 ms in
    let off : List ℕ = little_endian 4 (total ms) in
    let len : List ℕ = little_endian 4 (length m) in
    let none_before : 0 + total ms ≡ total ms = omega arith in
    ap (λ p. put_at (8 * length ms + 4) len (put_at (8 * length ms) off p)) e
    ∙ ap (put_at (8 * length ms + 4) len)
        (put_at-word (8 * length ms) (total ms) (index_of 0 ms) spare (sym full) (omega arith))
    ∙ put_at-word (8 * length ms + 4) (length m) (index_of 0 ms ++ off) (drop 4 spare)
        (omega (arith, length-append (index_of 0 ms) off, length-little_endian 4 (total ms)))
        (omega (arith, length-drop 4 spare (omega arith)))
    ∙ ap (λ r. r ++ drop 4 (drop 4 spare))
        (append_assoc (index_of 0 ms) off len
          ∙ ap (λ o. index_of 0 ms ++ item o (length m)) (sym none_before)
          ∙ sym (index_of-snoc 0 ms m))

-- An `Append` that succeeds, field by field.
record Appends (m : Message) (seg : Segment) (seq : ℕ) (seg' : Segment) : Type 0 where
  pub fits : seg.data_offset + length m ≤ length seg.data_page
  pub number : seq ≡ seg.end
  pub same_begin : seg'.begin ≡ seg.begin
  pub next_end : seg'.end ≡ seg.end + 1
  pub next_offset : seg'.data_offset ≡ seg.data_offset + length m
  pub next_index : seg'.index_at ≡ seg.index_at + 8
  pub page : seg'.data_page ≡ put_at seg.data_offset m seg.data_page
  pub index :
      seg'.index_page
      ≡ put_at
          (seg.index_at + 4)
          (little_endian 4 (length m % 2 ^ 32))
          (put_at seg.index_at (little_endian 4 (seg.data_offset % 2 ^ 32)) seg.index_page)

append-Appends :
    (seg seg' : Segment) (m : Message) (seq : ℕ)
    → seg.end + 1 < 2 ^ 63
    → seg.data_offset < 2 ^ 31
    → length seg.data_page < 2 ^ 31
    → length m < 2 ^ 62
    → append m seg ≡ some (seq, seg')
    → Appends m seg seq seg'
unfolding append
append-Appends seg seg' m seq few off_small page_small m_small e = record {
  fits = ground arith;
  number = ground arith;
  same_begin = ground arith;
  next_end = ground arith;
  next_offset = ground arith;
  next_index = ground arith;
  page = ground arith;
  index = ground arith;
}

length-put_at : (at : ℕ) (bs page : List ℕ) → length (put_at at bs page) ≡ length page
unfolding put_at
length-put_at at bs page = elim (Bool-cases (leb (at + length bs) (length page))) [
  | inl fits ↦ rw (fits, put_at) (kept (ground arith))
  | inr full ↦ rw (full, put_at) refl
]
  where
    kept :
        at + length bs ≤ length page
        → length ((take at page ++ bs) ++ drop (at + length bs) page) ≡ length page
    kept fits = omega (
      arith,
      length-append (take at page ++ bs) (drop (at + length bs) page),
      length-append (take at page) bs,
      length-take at page (omega arith),
      length-drop (at + length bs) page fits,
    )

pub length-snoc : (ms : List Message) (m : Message) → length (ms ++ m ∷ []) ≡ length ms + 1
length-snoc ms m = omega (arith, length-append ms (m ∷ []))

-- What a segment holds fits its pages.
pub bounds-Holds :
    (seg : Segment) (ms : List Message)
    → Holds seg ms
    → (total ms ≤ length seg.data_page) × (length ms ≤ total ms)
bounds-Holds seg ms h =
    let size = ap length h.data_is ∙ length-append (concat ms) h.data_spare in
    (omega (arith, size, length-concat ms), length-le-total ms h.nonempty)

grown-Holds :
    (seg seg' : Segment) (ms : List Message) (m : Message) (seq : ℕ)
    → Holds seg ms
    → 0 < length m
    → seg.end + 1 < 2 ^ 63
    → Appends m seg seq seg'
    → Holds seg' (ms ++ m ∷ [])
grown-Holds seg seg' ms m seq h some_bytes few a =
    let fits : total ms + length m ≤ length seg.data_page = omega (arith, h.offset_is, a.fits) in
    let count = (bounds-Holds seg ms h).1 in
    let snoc = length-snoc ms m in
    let off : seg.data_offset % 2 ^ 32 ≡ total ms =
      omega (arith, h.offset_is, fits, h.page_small) in
    let len : length m % 2 ^ 32 ≡ length m = omega (arith, fits, h.page_small) in
    let page_len = ap length a.page ∙ length-put_at seg.data_offset m seg.data_page in
    let index_len =
      ap length a.index
      ∙ length-put_at (seg.index_at + 4) _ _
      ∙ length-put_at seg.index_at _ seg.index_page in
    record {
      range = omega (arith, snoc, a.next_end, a.same_begin, h.range);
      small = omega (arith, a.next_end);
      page_small = omega (arith, page_len, h.page_small);
      page_ratio = omega (arith, page_len, index_len, h.page_ratio);
      nonempty = All-append _ ms (m ∷ []) h.nonempty (some_bytes, tt);
      index_spare = drop 4 (drop 4 h.index_spare);
      index_is =
          a.index
          ∙ words h.index_at_is off len
          ∙ append-index ms m seg.index_page h.index_spare h.index_is
              (omega (arith, h.page_ratio, count, fits));
      data_spare = drop (length m) h.data_spare;
      data_is =
          a.page
          ∙ ap (λ o. put_at o m seg.data_page) h.offset_is
          ∙ append-page ms m seg.data_page h.data_spare h.data_is fits;
      offset_is = omega (arith, a.next_offset, h.offset_is, total-snoc ms m);
      index_at_is = omega (arith, a.next_index, h.index_at_is, snoc);
    }
  where
    words :
        {i i' o o' n n' : ℕ}
        → i ≡ i'
        → o ≡ o'
        → n ≡ n'
        → put_at (i + 4) (little_endian 4 n) (put_at i (little_endian 4 o) seg.index_page)
          ≡ put_at (i' + 4) (little_endian 4 n') (put_at i' (little_endian 4 o') seg.index_page)
    words ei eo en = rw (ei, eo, en) refl

pub append-Holds :
    (seg seg' : Segment) (ms : List Message) (m : Message) (seq : ℕ)
    → Holds seg ms
    → 0 < length m
    → length m < 2 ^ 62
    → seg.end + 1 < 2 ^ 63
    → append m seg ≡ some (seq, seg')
    → Holds seg' (ms ++ m ∷ []) × (seq ≡ seg.begin + length ms) × (seg'.begin ≡ seg.begin)
append-Holds seg seg' ms m seq h some_bytes m_small few e =
    let b = bounds-Holds seg ms h in
    let a =
      append-Appends seg seg' m seq few (omega (arith, h.offset_is, b.0, h.page_small)) h.page_small
        m_small e in
    (
      grown-Holds seg seg' ms m seq h some_bytes few a,
      omega (arith, a.number, h.range),
      a.same_begin,
    )
