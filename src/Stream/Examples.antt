-- ===== src/Stream/Examples.antt =====
-- Tests of pkg/stream, and its theorems at concrete inputs.
use lindb.Base.{some, ◌-◌, ◌^◌, ℕ, ◌≡◌, refl, [], ◌∷◌, ◌++◌, arith, length}
use lindb.Stream.Writer.{
  variant_size, new_buffer_writer, uvarint, zigzag, put_uvarint64, put_varint32, put_uint16,
  put_uint32, put_uint64, overflow, uvariant_size, put_varint64, put_uvarint32, put_bytes, eof,
}
use lindb.Stream.Reader.{
  Reader, read_uvarint, read_uvarint_loop, read_uvarint64, read_uvarint32, read_varint64,
  read_varint32, read_uint16, read_uint32, read_uint64,
}
use lindb.Stream.Varint.{before, behind}
use lindb.Stream.RoundTrip.{read-put_varints, sizes-put}
use lindb.Stream.Fixed.{at, read-put_uints}

abbrev minus_three : ℕ
minus_three = 2 ^ 32 - 3

uvarint_300 : uvarint 10 300 ≡ 0xac ∷ 0x02 ∷ []
unfolding uvarint
uvarint_300 = refl

varint_minus_three : (put_varint32 minus_three new_buffer_writer).buf ≡ 5 ∷ []
unfolding put_varint32 put_varint64 put_bytes uvarint zigzag
varint_minus_three = refl

ten_ff :
    read_uvarint (0xff ∷ 0xff ∷ 0xff ∷ 0xff ∷ 0xff ∷ 0xff ∷ 0xff ∷ 0xff ∷ 0xff ∷ 2 ∷ [])
    ≡ (2 ^ 63 - 1, some overflow, [])
unfolding read_uvarint read_uvarint_loop
ten_ff = refl

-- A reader that has failed before.
abbrev failed : Reader
failed = record { original = []; rest = []; err = some eof }

read-put_varints_example :
    (read_uvarint64 (before failed (put_uvarint64 300 new_buffer_writer).buf (9 ∷ []))
      ≡ (300, behind failed (9 ∷ [])))
    × (read_varint64 (before failed (put_varint64 300 new_buffer_writer).buf (9 ∷ []))
        ≡ (300, behind failed (9 ∷ [])))
    × (read_uvarint32 (before failed (put_uvarint32 minus_three new_buffer_writer).buf (9 ∷ []))
        ≡ (minus_three, behind failed (9 ∷ [])))
    × (read_varint32 (before failed (put_varint32 minus_three new_buffer_writer).buf (9 ∷ []))
        ≡ (minus_three, behind failed (9 ∷ [])))
read-put_varints_example =
    read-put_varints 300 minus_three failed (9 ∷ []) (omega arith) (omega arith)

sizes-put_example :
    (uvariant_size 300 ≡ length (put_uvarint64 300 new_buffer_writer).buf)
    × (variant_size 300 ≡ length (put_varint64 300 new_buffer_writer).buf)
sizes-put_example = sizes-put 300 (omega arith)

read-put_uints_example :
    (read_uint16 (at [] ((put_uint16 258 new_buffer_writer).buf ++ []))
      ≡ (258, at (put_uint16 258 new_buffer_writer).buf []))
    × (read_uint32 (at [] ((put_uint32 7 new_buffer_writer).buf ++ []))
        ≡ (7, at (put_uint32 7 new_buffer_writer).buf []))
    × (read_uint64 (at [] ((put_uint64 9 new_buffer_writer).buf ++ []))
        ≡ (9, at (put_uint64 9 new_buffer_writer).buf []))
read-put_uints_example = read-put_uints 258 7 9 [] [] (omega arith) (omega arith) (omega arith)
