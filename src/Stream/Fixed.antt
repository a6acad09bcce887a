-- ===== src/Stream/Fixed.antt =====
-- The fixed widths of pkg/stream and `ReadSlice`.
use lindb.Base.{
  if◌then◌else◌, ltb, take_of_length-le, drop_of_length-le, drop-add-append, ℕ, zero, suc, ◌-◌, ◌/◌,
  ◌^◌, ◌<◌, ◌≡◌, refl, ap, ◌∙◌, List, ◌++◌, none, some, arith, length, append_assoc, length-append,
  take-append, drop-append, take, drop,
}
use native.Mathlib.Nat.{pow-suc}
use lindb.Base.Words.{IsWord32, IsWord64}
use lindb.Stream.Writer.{
  new_buffer_writer, put_bytes, little_endian, put_uint16, put_uint32, put_uint64, eof,
}
use lindb.Stream.Reader.{
  read_uint, Reader, read_positive, read_slice, position, of_little_endian, read_uint16,
  read_uint32, read_uint64,
}

-- A reader inside its block: `front` is read, `rest` is not, and no read has failed.
abbrev pub at : List ℕ → List ℕ → Reader
at front rest = record { original = front ++ rest; rest = rest; err = none }

-- The same reader behind `n` more bytes; it has met the end where there are fewer.
abbrev pub behind_slice : ℕ → List ℕ → List ℕ → Reader
behind_slice n front rest = record {
  original = front ++ rest;
  rest = drop n rest;
  err = if ltb (length rest) n then some eof else none;
}

position-at : (front rest : List ℕ) → position (at front rest) ≡ length front
unfolding position
position-at front rest = omega (arith, length-append front rest)

-- `ReadSlice` of `n` bytes inside a block.
pub read_slice-at :
    (n : ℕ) (front rest : List ℕ)
    → n < 2 ^ 63
    → read_slice n (at front rest) ≡ (take n rest, behind_slice n front rest)
unfolding read_slice read_positive
read_slice-at n front rest small = ground (
  arith,
  position-at front rest,
  length-append front rest,
  drop-append front rest,
  drop-add-append n front rest,
  drop_of_length-le (length (front ++ rest)) (front ++ rest),
  drop_of_length-le n rest,
  take_of_length-le (length (front ++ rest) - length front) rest,
  take_of_length-le n rest,
)

pub of_little_endian-little_endian :
    (n v : ℕ) → v < 256 ^ n → of_little_endian (little_endian n v) ≡ v
unfolding of_little_endian little_endian
of_little_endian-little_endian zero v h = omega arith
of_little_endian-little_endian (suc n) v h =
    omega (arith, of_little_endian-little_endian n (v / 256) (omega (arith, pow-suc 256 n)))

pub length-little_endian : (n v : ℕ) → length (little_endian n v) ≡ n
unfolding little_endian
length-little_endian zero v = refl
length-little_endian (suc n) v = ap suc (length-little_endian n (v / 256))

-- A slice as long as the front of what is left is that front.
pub read_slice_front :
    (front bs rest : List ℕ)
    → length bs < 2 ^ 63
    → read_slice (length bs) (at front (bs ++ rest))
      ≡ (bs, record (at front (bs ++ rest)) { rest = rest })
read_slice_front front bs rest small =
    read_slice-at (length bs) front (bs ++ rest) small
    ∙ ground (arith, take-append bs rest, drop-append bs rest, length-append bs rest)

pub read_uint-little_endian :
    (n v : ℕ) (front rest : List ℕ)
    → n < 2 ^ 63
    → v < 256 ^ n
    → read_uint n (at front (little_endian n v ++ rest))
      ≡ (v, record (at front (little_endian n v ++ rest)) { rest = rest })
unfolding read_uint
read_uint-little_endian n v front rest small h = ground (
  arith,
  read_slice_front front (little_endian n v) rest (omega (arith, length-little_endian n v)),
  length-little_endian n v,
  of_little_endian-little_endian n v h,
)

-- The fixed-width reads give back what the writer put with 2, 4 and 8 bytes, whatever follows, and
-- stand behind it with no error.
pub read-put_uints :
    (u16 u32 u64 : ℕ) (front rest : List ℕ)
    → u16 < 2 ^ 16
    → IsWord32 u32
    → IsWord64 u64
    → (read_uint16 (at front ((put_uint16 u16 new_buffer_writer).buf ++ rest))
        ≡ (u16, at (front ++ (put_uint16 u16 new_buffer_writer).buf) rest))
      × (read_uint32 (at front ((put_uint32 u32 new_buffer_writer).buf ++ rest))
          ≡ (u32, at (front ++ (put_uint32 u32 new_buffer_writer).buf) rest))
      × (read_uint64 (at front ((put_uint64 u64 new_buffer_writer).buf ++ rest))
          ≡ (u64, at (front ++ (put_uint64 u64 new_buffer_writer).buf) rest))
unfolding read_uint16 read_uint32 read_uint64 put_uint16 put_uint32 put_uint64 put_bytes
read-put_uints u16 u32 u64 front rest h16 h32 h64 = (
  read_at 2 u16 (omega arith) (omega arith),
  read_at 4 u32 (omega arith) (omega arith),
  read_at 8 u64 (omega arith) (omega arith),
)
  where
    read_at :
        (n v : ℕ)
        → n < 2 ^ 63
        → v < 256 ^ n
        → read_uint n (at front (little_endian n v ++ rest))
          ≡ (v, at (front ++ little_endian n v) rest)
    read_at n v small h =
        rw (append_assoc front (little_endian n v) rest)
          (read_uint-little_endian n v front rest small h)
