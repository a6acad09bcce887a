-- ===== src/Queue/Segment.antt =====
-- pkg/queue/segment/segment.go on the mapped pages of pkg/queue/page/mpage.go. A page is the list of
-- its bytes. A `SliceWriter` on a page writes behind what it has written while the bytes fit, and
-- leaves the page as it is from then on.
pub mod Holds
pub mod Reads
use lindb.Base.{
  ℕ, ◌+◌, ◌-◌, ◌*◌, ◌^◌, ◌%◌, Bool, not, ◌&&◌, List, ◌++◌, Option, none, some, length, take, drop,
  leb, ◌==◌, if◌then◌else◌,
}
use lindb.Base.Words.{lt64, next64, to_int64}
use lindb.Stream.Writer.{little_endian}
use lindb.Stream.Reader.{of_little_endian}

pub record Segment : Type 0 where
  pub index_page : List ℕ
  pub data_page : List ℕ
  pub begin : ℕ
  pub end : ℕ
  pub data_offset : ℕ
  pub index_at : ℕ

-- The writer's `Write` of `bs` at `at`, on the page.
unfoldable pub put_at : ℕ → List ℕ → List ℕ → List ℕ
put_at at bs page =
    if leb (at + length bs) (length page)
    then take at page ++ bs ++ drop (at + length bs) page
    else page

-- `MappedPage.Data`: `none` is the panic of a slice out of range.
unfoldable pub page_data : ℕ → ℕ → List ℕ → Option (List ℕ)
page_data at size page =
    if leb (at + size) (length page) then some (take size (drop at page)) else none

-- `Append`: the sequence number of the message, `none` for `ErrExceedPageSize`.
unfoldable pub append : List ℕ → Segment → Option (ℕ × Segment)
append message seg =
    if lt64 (length seg.data_page) (seg.data_offset + length message)
    then none
    else some (
      seg.end,
      record {
        index_page =
            put_at (seg.index_at + 4) (little_endian 4 (length message % 2 ^ 32))
              (put_at seg.index_at (little_endian 4 (seg.data_offset % 2 ^ 32)) seg.index_page);
        data_page = put_at seg.data_offset message seg.data_page;
        begin = seg.begin;
        end = next64 seg.end;
        data_offset = seg.data_offset + length message;
        index_at = seg.index_at + 8;
      },
    )

-- `Contains`
unfoldable pub contains : ℕ → Segment → Bool
contains seq seg = not (lt64 seq seg.begin) && lt64 seq seg.end

-- What `calDataOffsetAndLen` reads of an item of the index page.
unfoldable pub place_of : List ℕ → ℕ × ℕ
place_of item =
    (to_int64 (of_little_endian (take 4 item)), to_int64 (of_little_endian (drop 4 item)))

-- `calDataOffsetAndLen`: `some none` for `ErrOutOfRange`, and `none` for a panic.
unfoldable pub cal_data_offset_and_len : ℕ → Segment → Option (Option (ℕ × ℕ))
cal_data_offset_and_len seq seg =
    if contains seq seg
    then elim (page_data ((seq - seg.begin) * 8 % 2 ^ 64) 8 seg.index_page) [
      | none ↦ none
      | some item ↦ some (some (place_of item))
    ]
    else some none

-- `Read`, likewise.
unfoldable pub read : ℕ → Segment → Option (Option (List ℕ))
read seq seg = elim (cal_data_offset_and_len seq seg) [
  | none ↦ none
  | some none ↦ some none
  | some (some place) ↦ elim (page_data place.0 place.1 seg.data_page) [
    | none ↦ none
    | some bytes ↦ some (some bytes)
  ]
]

-- The writers of a segment that is restored; `Buffer` panics out of range.
unfoldable pub restored : ℕ → ℕ → Segment → Option (Option Segment)
restored offset at seg =
    if leb at (length seg.index_page) && leb offset (length seg.data_page)
    then some (some (record seg { data_offset = offset; index_at = at }))
    else none

-- `NewSegment` with `adjustOffset`: `some none` for its error, and `none` for a panic.
unfoldable pub new_segment : List ℕ → List ℕ → ℕ → ℕ → Option (Option Segment)
new_segment index_page data_page begin end =
    let seg : Segment = record {
      index_page = index_page;
      data_page = data_page;
      begin = begin;
      end = end;
      data_offset = 0;
      index_at = 0;
    } in
    if begin == end
    then some (some seg)
    else elim (cal_data_offset_and_len ((end + (2 ^ 64 - 1)) % 2 ^ 64) seg) [
      | none ↦ none
      | some none ↦ some none
      | some (some place) ↦ restored ((place.0 + place.1) % 2 ^ 64) ((end - begin) * 8 % 2 ^ 64) seg
    ]
