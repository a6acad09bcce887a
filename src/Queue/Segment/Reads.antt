-- ===== src/Queue/Segment/Reads.antt =====
-- What `Read` finds in a segment, and what a restart makes of its pages.
use lindb.Base.{
  ℕ, zero, suc, ◌+◌, ◌-◌, ◌*◌, ◌%◌, ◌^◌, ◌≤◌, ◌<◌, ◌≡◌, refl, sym, subst, ap, ◌∙◌, true, false,
  List, [], ◌∷◌, ◌++◌, some, none, Option, arith, get_elem?, length, take, drop, append_assoc,
  take-append, drop-append, drop-add-append, ◌==◌, leb, ◌&&◌,
}
use lindb.Base.Words.{to_int64}
use lindb.Stream.Writer.{little_endian}
use lindb.Stream.Reader.{of_little_endian}
use lindb.Stream.Fixed.{length-little_endian, of_little_endian-little_endian}
use lindb.Queue.Segment.{
  Segment, page_data, place_of, restored, contains, cal_data_offset_and_len, read, new_segment,
}
use lindb.Queue.Segment.Holds.{
  Message, Holds, concat, item, index_of, total, length-item, bounds-Holds,
}

-- Where the message `m` stands among the messages.
index_item :
    (off i : ℕ) (ms : List Message) (m : Message) (spare : List ℕ)
    → get_elem? ms i ≡ some m
    → take 8 (drop (i * 8) (index_of off ms ++ spare)) ≡ item (off + total (take i ms)) (length m)
index_item off i [] m spare e = absurd (ground arith)
index_item off zero (x ∷ ms) m spare e =
    let same : x ≡ m = ground arith in
    let none_before : off ≡ off + 0 = omega arith in
    let front : List ℕ = item off (length x) in
    ap (take 8) (append_assoc front (index_of (off + length x) ms) spare)
    ∙ ap (λ n. take n (front ++ (index_of (off + length x) ms ++ spare)))
        (sym (length-item off (length x)))
    ∙ take-append front (index_of (off + length x) ms ++ spare)
    ∙ ap (λ o. item o (length x)) none_before
    ∙ ap (λ y. item (off + 0) (length y)) same
index_item off (suc i) (x ∷ ms) m spare e =
    let front : List ℕ = item off (length x) in
    let rest : List ℕ = index_of (off + length x) ms in
    let place : suc i * 8 ≡ length front + i * 8 = omega (arith, length-item off (length x)) in
    let sum : off + length x + total (take i ms) ≡ off + (length x + total (take i ms)) =
      omega arith in
    ap (λ r. take 8 (drop (suc i * 8) r)) (append_assoc front rest spare)
    ∙ ap (λ n. take 8 (drop n (front ++ (rest ++ spare)))) place
    ∙ ap (take 8) (drop-add-append (i * 8) front (rest ++ spare))
    ∙ index_item (off + length x) i ms m spare e
    ∙ ap (λ o. item o (length m)) sum

data_message :
    (i : ℕ) (ms : List Message) (m : Message) (spare : List ℕ)
    → get_elem? ms i ≡ some m
    → take (length m) (drop (total (take i ms)) (concat ms ++ spare)) ≡ m
data_message i [] m spare e = absurd (ground arith)
data_message zero (x ∷ ms) m spare e =
    let same : x ≡ m = ground arith in
    subst (λ y. take (length y) (concat (x ∷ ms) ++ spare) ≡ y) same
      (ap (take (length x)) (append_assoc x (concat ms) spare) ∙ take-append x (concat ms ++ spare))
data_message (suc i) (x ∷ ms) m spare e =
    ap (λ r. take (length m) (drop (length x + total (take i ms)) r))
      (append_assoc x (concat ms) spare)
    ∙ ap (take (length m)) (drop-add-append (total (take i ms)) x (concat ms ++ spare))
    ∙ data_message i ms m spare e

ends_before :
    (i : ℕ) (ms : List Message) (m : Message)
    → get_elem? ms i ≡ some m
    → (i < length ms) × (total (take i ms) + length m ≤ total ms)
ends_before i [] m e = absurd (ground arith)
ends_before zero (x ∷ ms) m e =
    let same : x ≡ m = ground arith in
    (omega arith, subst (λ y. 0 + length y ≤ length x + total ms) same (omega arith))
ends_before (suc i) (x ∷ ms) m e =
    let b = ends_before i ms m e in (omega (arith, b.0), omega (arith, b.1))

item_values :
    (off size : ℕ)
    → off < 2 ^ 31
    → size < 2 ^ 31
    → (to_int64 (of_little_endian (take 4 (item off size))) ≡ off)
      × (to_int64 (of_little_endian (drop 4 (item off size))) ≡ size)
item_values off size off_small size_small =
    let front = little_endian 4 off in
    let back = little_endian 4 size in
    let first : take 4 (item off size) ≡ front =
      ap (λ n. take n (front ++ back)) (sym (length-little_endian 4 off))
      ∙ take-append front back in
    let second : drop 4 (item off size) ≡ back =
      ap (λ n. drop n (front ++ back)) (sym (length-little_endian 4 off))
      ∙ drop-append front back in
    (
      ap (λ b. to_int64 (of_little_endian b)) first ∙ value off off_small,
      ap (λ b. to_int64 (of_little_endian b)) second ∙ value size size_small,
    )
  where
    value : (v : ℕ) → v < 2 ^ 31 → to_int64 (of_little_endian (little_endian 4 v)) ≡ v
    value v small = ap to_int64 (of_little_endian-little_endian 4 v (omega arith)) ∙ ground arith

page_data-within :
    (at size : ℕ) (page : List ℕ)
    → at + size ≤ length page
    → page_data at size page ≡ some (take size (drop at page))
unfolding page_data
page_data-within at size page fits = ground arith

item_Holds :
    (seg : Segment) (ms : List Message) (i : ℕ) (m : Message)
    → Holds seg ms
    → get_elem? ms i ≡ some m
    → page_data ((seg.begin + i - seg.begin) * 8 % 2 ^ 64) 8 seg.index_page
      ≡ some (item (total (take i ms)) (length m))
item_Holds seg ms i m h e =
    let b = ends_before i ms m e in
    let (fits, few) = bounds-Holds seg ms h in
    let at : (seg.begin + i - seg.begin) * 8 % 2 ^ 64 ≡ i * 8 =
      omega (arith, b.0, few, fits, h.page_small) in
    let none_before : 0 + total (take i ms) ≡ total (take i ms) = omega arith in
    ap (λ n. page_data n 8 seg.index_page) at
    ∙ page_data-within (i * 8) 8 seg.index_page (omega (arith, h.page_ratio, b.0, few, fits))
    ∙ ap (λ p. some (take 8 (drop (i * 8) p))) h.index_is
    ∙ ap some (index_item 0 i ms m h.index_spare e)
    ∙ ap (λ o. some (item o (length m))) none_before

place_Holds :
    (seg : Segment) (ms : List Message) (i : ℕ) (m : Message)
    → Holds seg ms
    → get_elem? ms i ≡ some m
    → cal_data_offset_and_len (seg.begin + i) seg ≡ some (some (total (take i ms), length m))
unfolding cal_data_offset_and_len contains place_of
place_Holds seg ms i m h e =
    let b = ends_before i ms m e in
    let fits = (bounds-Holds seg ms h).0 in
    let inside : contains (seg.begin + i) seg ≡ true = ground (arith, h.range, h.small, b.0) in
    let v =
      item_values (total (take i ms)) (length m) (omega (arith, b.1, fits, h.page_small))
        (omega (arith, b.1, fits, h.page_small)) in
    rw (inside, cal_data_offset_and_len) (ap placed (item_Holds seg ms i m h e) ∙ pair v.0 v.1)
  where
    placed : Option (List ℕ) → Option (Option (ℕ × ℕ))
    placed none = none
    placed (some item) = some (some (place_of item))

    given : ℕ → ℕ → Option (Option (ℕ × ℕ))
    given a b = some (some (a, b))

    pair : {a a' b b' : ℕ} → a ≡ a' → b ≡ b' → given a b ≡ given a' b'
    pair ea eb = rw (ea, eb) refl

-- `Read` of the number of a message that the segment holds.
pub read-Holds :
    (seg : Segment) (ms : List Message) (i : ℕ) (m : Message)
    → Holds seg ms
    → get_elem? ms i ≡ some m
    → read (seg.begin + i) seg ≡ some (some m)
unfolding read
read-Holds seg ms i m h e =
    let b = ends_before i ms m e in
    let (fits, few) = bounds-Holds seg ms h in
    ap found (place_Holds seg ms i m h e)
    ∙ ap given
        (page_data-within (total (take i ms)) (length m) seg.data_page (omega (arith, b.1, fits)))
    ∙ ap (λ p. some (some (take (length m) (drop (total (take i ms)) p)))) h.data_is
    ∙ ap (λ x. some (some x)) (data_message i ms m h.data_spare e)
  where
    given : Option (List ℕ) → Option (Option (List ℕ))
    given none = none
    given (some bytes) = some (some bytes)

    found : Option (Option (ℕ × ℕ)) → Option (Option (List ℕ))
    found none = none
    found (some none) = some none
    found (some (some place)) = given (page_data place.0 place.1 seg.data_page)

last_message :
    (m : Message) (ms : List Message)
    → (i : ℕ) × (x : Message) × (suc i ≡ length (m ∷ ms))
      × (get_elem? (m ∷ ms) i ≡ some x)
      × (total (take i (m ∷ ms)) + length x ≡ total (m ∷ ms))
last_message m [] = (0, m, refl, refl, omega arith)
last_message m (n ∷ ms) =
    let (i, x, size, there, sum) = last_message n ms in (suc i, x, omega arith, there, omega arith)

place_unmoved :
    (seg : Segment) (seq : ℕ)
    → cal_data_offset_and_len seq (record seg { data_offset = 0; index_at = 0 })
      ≡ cal_data_offset_and_len seq seg
unfolding cal_data_offset_and_len contains
place_unmoved seg seq = refl

restored_same :
    (seg : Segment) (off at : ℕ)
    → off ≡ seg.data_offset
    → at ≡ seg.index_at
    → at ≤ length seg.index_page
    → off ≤ length seg.data_page
    → restored off at (record seg { data_offset = 0; index_at = 0 }) ≡ some (some seg)
unfolding restored
restored_same seg off at eo ea fits_index fits_data =
    let inside : (leb at (length seg.index_page) && leb off (length seg.data_page)) ≡ true =
      ground arith in
    rw (inside, restored) (rw (eo, ea) refl)

-- `NewSegment` on the pages and the range of a segment that holds messages which are not empty, on
-- pages as long as those of a new segment and a data page below 2 ^ 31, is that segment, after a
-- restart: it goes on writing where the last message ends.
pub new_segment-Holds :
    (seg : Segment) (ms : List Message)
    → Holds seg ms
    → new_segment seg.index_page seg.data_page seg.begin seg.end ≡ some (some seg)
unfolding new_segment
new_segment-Holds seg [] h =
    let empty : (seg.begin == seg.end) ≡ true = ground (arith, h.range) in
    rw (empty, new_segment) (rw (h.offset_is, h.index_at_is) refl)
new_segment-Holds seg (m ∷ ms) h =
    let (i, x, size, there, sum) = last_message m ms in
    let (fits, few) = bounds-Holds seg (m ∷ ms) h in
    let some_messages : (seg.begin == seg.end) ≡ false = ground (arith, h.range) in
    let last : (seg.end + (2 ^ 64 - 1)) % 2 ^ 64 ≡ seg.begin + i =
      omega (arith, h.range, h.small) in
    let off : (total (take i (m ∷ ms)) + length x) % 2 ^ 64 ≡ total (m ∷ ms) =
      omega (arith, sum, fits, h.page_small) in
    let at : (seg.end - seg.begin) * 8 % 2 ^ 64 ≡ 8 * length (m ∷ ms) =
      omega (arith, h.range, few, fits, h.page_small) in
    rw (some_messages, new_segment)
      (ap resume (
          ap (λ n. cal_data_offset_and_len n (record seg { data_offset = 0; index_at = 0 })) last
          ∙ place_unmoved seg (seg.begin + i)
          ∙ place_Holds seg (m ∷ ms) i x h there)
        ∙ restored_same seg _ _ (off ∙ sym h.offset_is) (at ∙ sym h.index_at_is)
            (omega (arith, at, h.page_ratio, few, fits)) (omega (arith, off, fits)))
  where
    resume : Option (Option (ℕ × ℕ)) → Option (Option Segment)
    resume none = none
    resume (some none) = some none
    resume (some (some place)) =
        restored ((place.0 + place.1) % 2 ^ 64) ((seg.end - seg.begin) * 8 % 2 ^ 64)
          (record seg { data_offset = 0; index_at = 0 })
