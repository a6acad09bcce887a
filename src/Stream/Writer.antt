-- ===== src/Stream/Writer.antt =====
-- pkg/stream/writer.go and pkg/stream/encoding.go. A `bytes.Buffer` is the list of its bytes, and
-- its `Write` reports no error. The scratch array has `binary.MaxVarintLen64` = 10 bytes.
use lindb.Base.{
  ℕ, zero, suc, ◌+◌, ◌*◌, ◌/◌, ◌%◌, ◌^◌, List, [], ◌∷◌, ◌++◌, Option, none, some, ltb, leb,
  if◌then◌else◌, length, bit_or,
}
use lindb.Base.Words.{to_int64, is_neg64, not64}

-- The errors of writers and readers.
pub data Error : Type 0 where
  eof : Error
  overflow : Error
  unexpected_read : Error
  write_longer : ℕ → ℕ → Error

pub record Writer : Type 0 where
  pub buf : List ℕ
  pub err : Option Error

-- `_, w.err = w.buf.Write(v)`
unfoldable pub put_bytes : List ℕ → Writer → Writer
put_bytes v w = record { buf = w.buf ++ v; err = none }

unfoldable pub put_byte : ℕ → Writer → Writer
put_byte v w = record { buf = w.buf ++ v ∷ []; err = none }

-- `binary.PutUvarint`: the first argument is the room left in the scratch array. Ten bytes hold
-- any uint64, so the room never runs out.
unfoldable pub uvarint : ℕ → ℕ → List ℕ
uvarint zero x = []
uvarint (suc room) x =
    let rest = bit_or (x % 256) 0x80 ∷ uvarint room (x / 128) in
    if leb 0x80 x then rest else (x % 256) ∷ []

-- `binary.PutVarint` folds the sign into the lowest bit.
unfoldable pub zigzag : ℕ → ℕ
zigzag x = if is_neg64 x then not64 (x * 2 % 2 ^ 64) else x * 2 % 2 ^ 64

unfoldable pub put_uvarint64 : ℕ → Writer → Writer
put_uvarint64 v w = put_bytes (uvarint 10 v) w

unfoldable pub put_uvarint32 : ℕ → Writer → Writer
put_uvarint32 v w = put_uvarint64 v w

unfoldable pub put_varint64 : ℕ → Writer → Writer
put_varint64 v w = put_bytes (uvarint 10 (zigzag v)) w

unfoldable pub put_varint32 : ℕ → Writer → Writer
put_varint32 v w = put_varint64 (to_int64 v) w

-- `binary.LittleEndian.PutUint16`, `PutUint32` and `PutUint64`: the lowest byte first.
unfoldable pub little_endian : ℕ → ℕ → List ℕ
little_endian zero v = []
little_endian (suc n) v = (v % 256) ∷ little_endian n (v / 256)

unfoldable pub put_uint16 : ℕ → Writer → Writer
put_uint16 v w = put_bytes (little_endian 2 v) w

unfoldable pub put_uint32 : ℕ → Writer → Writer
put_uint32 v w = put_bytes (little_endian 4 v) w

unfoldable pub put_uint64 : ℕ → Writer → Writer
put_uint64 v w = put_bytes (little_endian 8 v) w

-- The signed types write their bit pattern.
unfoldable pub put_int16 : ℕ → Writer → Writer
put_int16 v w = put_uint16 v w

unfoldable pub put_int32 : ℕ → Writer → Writer
put_int32 v w = put_uint32 v w

unfoldable pub put_int64 : ℕ → Writer → Writer
put_int64 v w = put_uint64 v w

unfoldable pub len : Writer → ℕ
len w = length w.buf

-- `NewBufferWriter` with no buffer; with one, writing goes on behind what it holds.
abbrev pub new_buffer_writer : Writer
new_buffer_writer = record { buf = []; err = none }

unfoldable pub switch_buffer : List ℕ → Writer → Writer
switch_buffer new_buffer w = record w { buf = new_buffer; err = none }

unfoldable pub reset : Writer → Writer
reset w = record { buf = []; err = none }

-- `BufferWriter.Bytes`
unfoldable pub bytes : Writer → List ℕ × Option Error
bytes w = (w.buf, w.err)

pub record SliceWriter : Type 0 where
  pub writer : Writer
  pub max_len : ℕ

-- `NewSliceWriter` keeps the length of the slice and writes from its start.
unfoldable pub new_slice_writer : List ℕ → SliceWriter
new_slice_writer buffer = record {
  writer = record { buf = []; err = none };
  max_len = length buffer;
}

-- `SliceWriter.Bytes` with `SliceWriter.Error`
unfoldable pub slice_bytes : SliceWriter → List ℕ × Option Error
slice_bytes sw = (sw.writer.buf, slice_error)
  where
    slice_error : Option Error
    slice_error =
        if ltb sw.max_len (length sw.writer.buf)
        then some (write_longer (length sw.writer.buf) sw.max_len)
        else sw.writer.err

-- `UvariantSize` counts the shifts; ten rounds take any uint64 below 0x80.
unfoldable pub size_loop : ℕ → ℕ → ℕ → ℕ
size_loop zero value i = i
size_loop (suc rounds) value i =
    let next = size_loop rounds (value / 128) (i + 1) in if leb 0x80 value then next else i

unfoldable pub uvariant_size : ℕ → ℕ
uvariant_size value = size_loop 10 value 0 + 1

unfoldable pub variant_size : ℕ → ℕ
variant_size value =
    let ux = value * 2 % 2 ^ 64 in uvariant_size (if is_neg64 value then not64 ux else ux)
