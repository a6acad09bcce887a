-- ===== src/Stream/Reader.antt =====
-- pkg/stream/reader.go. A `Reader` keeps the whole block, the part that its `bytes.Reader` has not
-- read yet, and the error of the last read: a method is a function from a reader to its result and
-- the reader after it.
use lindb.Base.{
  ℕ, zero, suc, ◌+◌, ◌-◌, ◌*◌, ◌/◌, ◌%◌, ◌^◌, Bool, ◌&&◌, ◌||◌, List, [], ◌∷◌, Option, none, some,
  ltb, leb, not, ◌==◌, if◌then◌else◌, length, take, drop, bit_and, bit_or,
}
use lindb.Base.Words.{to_word32, not64, is_neg64}
use lindb.Stream.Writer.{Error, eof, overflow, unexpected_read}

pub record Reader : Type 0 where
  pub original : List ℕ
  pub rest : List ℕ
  pub err : Option Error

-- A read that yields an `A`.
abbrev pub Read : Type 0 → Type 0
Read A = Reader → A × Reader

infixl 5 ◌>>=◌
abbrev pub ◌>>=◌ : {A B : Type 0} → Read A → (A → Read B) → Read B
◌>>=◌ m f r = f (m r).0 (m r).1

abbrev pub pure : {A : Type 0} → A → Read A
pure a r = (a, r)

unfoldable pub new_reader : List ℕ → Reader
new_reader block = record { original = block; rest = block; err = none }

-- `readUvarint`: the bytes left, then `i`, `x` and `s`. The result is the value, the error and the
-- bytes that were not read.
unfoldable pub read_uvarint_loop : List ℕ → ℕ → ℕ → ℕ → ℕ × Option Error × List ℕ
read_uvarint_loop [] i x s = (x, some eof, [])
read_uvarint_loop (b ∷ rest) i x s =
    let more =
      read_uvarint_loop rest (i + 1) (bit_or x (bit_and b 0x7f * 2 ^ s % 2 ^ 64)) (s + 7) in
    if ltb b 0x80
    then if ltb 9 i || i == 9 && ltb 1 b
      then (x, some overflow, rest)
      else (bit_or x (b * 2 ^ s % 2 ^ 64), none, rest)
    else more

unfoldable pub read_uvarint : List ℕ → ℕ × Option Error × List ℕ
read_uvarint bs = read_uvarint_loop bs 0 0 0

-- `readVarint`: the lowest bit says whether the rest is complemented.
unfoldable pub unzigzag : ℕ → ℕ
unzigzag ux = if ux % 2 == 0 then ux / 2 else not64 (ux / 2)

unfoldable pub read_uvarint64 : Read ℕ
read_uvarint64 r = let (v, e, left) = read_uvarint r.rest in (v, record r { rest = left; err = e })

unfoldable pub read_uvarint32 : Read ℕ
read_uvarint32 = do v ← read_uvarint64; pure (to_word32 v)

unfoldable pub read_varint64 : Read ℕ
read_varint64 = do ux ← read_uvarint64; pure (unzigzag ux)

unfoldable pub read_varint32 : Read ℕ
read_varint32 = do v ← read_varint64; pure (to_word32 v)

-- `Position`
unfoldable pub position : Reader → ℕ
position r = length r.original - length r.rest

-- `ReadSlice` and `ReadBytes` of a negative length.
unfoldable pub read_negative : Read (List ℕ)
read_negative r = ([], record r { err = some unexpected_read })

-- `original[startPos:endPos]` of `ReadSlice`, where `endPos` does not wrap.
unfoldable pub read_positive : ℕ → Read (List ℕ)
read_positive n r = elim r.err [
  | some e ↦ ([], r)
  | none ↦
      if ltb (length r.original) (position r + n)
      then (
        take (length r.original - position r) (drop (position r) r.original),
        record r { rest = drop (length r.original) r.original; err = some eof },
      )
      else (
        take n (drop (position r) r.original),
        record r { rest = drop (position r + n) r.original },
      )
]

-- `ReadSlice` of an int that does not take `endPos` over an int.
unfoldable pub read_slice : ℕ → Read (List ℕ)
read_slice n r = if is_neg64 n then read_negative r else read_positive n r

-- `ReadSlice` of any int. `none` is its panic: an `endPos` that wraps is negative, which is not behind
-- the block, and slices it out of range.
unfoldable pub read_any_slice : ℕ → Reader → Option (List ℕ × Reader)
read_any_slice n r = elim r.err [
  | some e ↦ some (read_slice n r)
  | none ↦ if not (is_neg64 n) && leb (2 ^ 63) (position r + n) then none else some (read_slice n r)
]

-- The `ReadByte` of `bytes.Reader`, whose byte at the end is 0.
unfoldable pub read_byte : Read ℕ
read_byte r = elim r.rest [
  | [] ↦ (0, record r { err = some eof })
  | b ∷ left ↦ (b, record r { rest = left; err = none })
]

-- `ReadBytes`: stops at the first error with what was read. A length of 0 leaves the error.
unfoldable pub read_bytes : ℕ → Read (List ℕ)
read_bytes zero r = ([], r)
read_bytes (suc n) r = elim r.rest [
  | [] ↦ ([], record r { err = some eof })
  | b ∷ left ↦
      let (block, r') = read_bytes n (record r { rest = left; err = none }) in (b ∷ block, r')
]

-- `binary.LittleEndian.Uint16`, `Uint32` and `Uint64`.
unfoldable pub of_little_endian : List ℕ → ℕ
of_little_endian [] = 0
of_little_endian (b ∷ bs) = b + of_little_endian bs * 256

-- `ReadUint16`, `ReadUint32` and `ReadUint64` for a width of 2, 4 and 8 bytes: 0 if the block ends.
unfoldable pub read_uint : ℕ → Read ℕ
read_uint n = do buf ← read_slice n; pure (if length buf == n then of_little_endian buf else 0)

unfoldable pub read_uint16 : Read ℕ
read_uint16 = read_uint 2

unfoldable pub read_uint32 : Read ℕ
read_uint32 = read_uint 4

unfoldable pub read_uint64 : Read ℕ
read_uint64 = read_uint 8

-- The signed types read their bit pattern.
unfoldable pub read_int16 : Read ℕ
read_int16 = read_uint16

unfoldable pub read_int32 : Read ℕ
read_int32 = read_uint32

unfoldable pub read_int64 : Read ℕ
read_int64 = read_uint64

unfoldable pub is_empty : Reader → Bool
is_empty r = length r.rest == 0

unfoldable pub reset : List ℕ → Reader → Reader
reset buf r = record { original = buf; rest = buf; err = none }

unfoldable pub seek_start : Reader → Reader
seek_start r = record r { rest = r.original; err = none }
