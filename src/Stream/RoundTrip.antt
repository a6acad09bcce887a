-- ===== src/Stream/RoundTrip.antt =====
-- The varint methods of pkg/stream against one another, and the sizes of encoding.go.
use native.Mathlib.Decide.{dec_lt}
use native.Mathlib.Nat.{pow-suc}
use lindb.Base.{ℕ, zero, suc, ◌+◌, ◌/◌, ◌^◌, ◌≤◌, ◌<◌, ◌≡◌, List, arith, length}
use lindb.Base.Words.{IsWord32, IsWord64}
use lindb.Stream.Writer.{
  new_buffer_writer, uvarint, zigzag, put_uvarint64, put_uvarint32, put_varint64, put_varint32,
  size_loop, uvariant_size, variant_size,
}
use lindb.Stream.Reader.{Reader, read_uvarint64, read_uvarint32, read_varint64, read_varint32}
use lindb.Stream.Varint.{
  before, behind, puts, read_uvarint64_lem, read_uvarint32_lem, read_varint64_lem,
  read_varint32_lem, uvarint_last, uvarint_more, zigzag-lt,
}

-- Each of the four varint methods of a reader gives back what the writer's method put, whatever
-- follows: a uint64 or int64 `v`, and a uint32 or int32 `u`. The reader ends behind the number
-- with no error, also where an earlier read had left one.
pub read-put_varints :
    (v u : ℕ) (r : Reader) (rest : List ℕ)
    → IsWord64 v
    → IsWord32 u
    → (read_uvarint64 (before r (put_uvarint64 v new_buffer_writer).buf rest) ≡ (v, behind r rest))
      × (read_varint64 (before r (put_varint64 v new_buffer_writer).buf rest) ≡ (v, behind r rest))
      × (read_uvarint32 (before r (put_uvarint32 u new_buffer_writer).buf rest)
          ≡ (u, behind r rest))
      × (read_varint32 (before r (put_varint32 u new_buffer_writer).buf rest) ≡ (u, behind r rest))
read-put_varints v u r rest h k = simp puts (
  read_uvarint64_lem v r rest h,
  read_varint64_lem v r rest h,
  read_uvarint32_lem u r rest k,
  read_varint32_lem u r rest k,
)

size_loop_last : (rounds v i : ℕ) → v < 128 → size_loop (suc rounds) v i ≡ i
unfolding size_loop
size_loop_last rounds v i h = ground arith

size_loop_more :
    (rounds v i : ℕ) → 128 ≤ v → size_loop (suc rounds) v i ≡ size_loop rounds (v / 128) (i + 1)
unfolding size_loop
size_loop_more rounds v i h = ground arith

size_loop-uvarint :
    (rounds v i : ℕ)
    → v < 128 ^ suc rounds
    → size_loop (suc rounds) v i + 1 ≡ i + length (uvarint (suc rounds) v)
size_loop-uvarint zero v i h =
    rw (size_loop_last 0 v i (omega arith), uvarint_last 0 v (omega arith)) (omega arith)
size_loop-uvarint (suc rounds) v i h = elim (dec_lt v 128) [
  | yes small ↦
      rw (size_loop_last (suc rounds) v i small, uvarint_last (suc rounds) v small) (omega arith)
  | no large ↦
      rw (size_loop_more (suc rounds) v i (omega arith), uvarint_more (suc rounds) v (omega arith))
        (omega (
          arith,
          size_loop-uvarint rounds (v / 128) (i + 1) (omega (arith, pow-suc 128 (suc rounds))),
        ))
]

-- `UvariantSize` and `VariantSize` are the numbers of bytes that `PutUvarint64` and `PutVarint64`
-- write for a uint64 and for an int64.
pub sizes-put :
    (v : ℕ)
    → IsWord64 v
    → (uvariant_size v ≡ length (put_uvarint64 v new_buffer_writer).buf)
      × (variant_size v ≡ length (put_varint64 v new_buffer_writer).buf)
unfolding uvariant_size variant_size zigzag
sizes-put v h = simp puts (
  omega (arith, size_loop-uvarint 9 v 0 (omega arith)),
  omega (arith, size_loop-uvarint 9 (zigzag v) 0 (zigzag-fits)),
)
  where
    zigzag-fits : zigzag v < 128 ^ 10
    zigzag-fits = omega (arith, zigzag-lt v h)
