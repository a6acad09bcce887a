-- ===== src/Encoding/Xor.antt =====
-- pkg/encoding/xor.go: values are written as the XOR with the value before, by its meaningful bits.
pub mod Digits
pub mod Code
pub mod Blocks
pub mod RoundTrip
pub mod Fresh
use lindb.Base.{
  ℕ, zero, suc, ◌+◌, ◌-◌, ◌*◌, ◌/◌, ◌%◌, ◌^◌, Bool, true, false, ◌&&◌, Option, none, some, leb,
  ◌==◌, if◌then◌else◌, bit_xor,
}
use lindb.Base.Words.{is_neg64}
use lindb.Bit.{Error, Writer, write_bit, write_bits, Reader, read_bit, read_bits, shift_left64}

-- `bits.LeadingZeros64`: 64 less the length in bits.
unfoldable pub len64 : ℕ → ℕ → ℕ
len64 zero x = 0
len64 (suc rounds) x = let n = len64 rounds (x / 2) + 1 in if x == 0 then 0 else n

unfoldable pub leading_zeros64 : ℕ → ℕ
leading_zeros64 x = 64 - len64 64 x

-- `bits.TrailingZeros64`, 64 for 0.
unfoldable pub trailing_loop : ℕ → ℕ → ℕ
trailing_loop zero x = 0
trailing_loop (suc rounds) x =
    let n = trailing_loop rounds (x / 2) + 1 in if x % 2 == 0 then n else 0

unfoldable pub trailing_zeros64 : ℕ → ℕ
trailing_zeros64 x = trailing_loop 64 x

-- `XOREncoder` without its error, which is nil: its writer reports none.
pub record XorEncoder : Type 0 where
  pub bw : Writer
  pub previous_val : ℕ
  pub leading : ℕ
  pub trailing : ℕ
  pub first : Bool

unfoldable pub new_xor_encoder : Writer → XorEncoder
new_xor_encoder bw = record { bw = bw; previous_val = 0; leading = 0; trailing = 0; first = true }

unfoldable pub reset_encoder : XorEncoder → XorEncoder
reset_encoder e = record e { previous_val = 0; leading = 255; trailing = 0; first = true }

-- `64 - e.leading - e.trailing` of ints: a negative number of bits writes nothing.
unfoldable pub write_block : ℕ → XorEncoder → XorEncoder
write_block delta e =
    let bw = write_bit true e.bw in
    let leading = leading_zeros64 delta in
    let trailing = trailing_zeros64 delta in
    if leb e.leading leading && leb e.trailing trailing
    then (let bw = write_bit true bw in
        record e { bw = write_bits (delta / 2 ^ e.trailing) (64 - e.leading - e.trailing) bw })
    else (let bw = write_bit false bw in
        let block_size = 64 - leading - trailing in
        let bw = write_bits leading 6 bw in
        let bw = write_bits (block_size - 1) 6 bw in
        record e {
          bw = write_bits (delta / 2 ^ trailing) block_size bw;
          leading = leading;
          trailing = trailing;
        })

unfoldable pub write : ℕ → XorEncoder → XorEncoder
write val e =
    let delta = bit_xor val e.previous_val in
    let same = record e { bw = write_bit false e.bw; previous_val = val } in
    let other = record (write_block delta e) { previous_val = val } in
    if e.first
    then record e { first = false; previous_val = val; bw = write_bits val 64 e.bw }
    else if delta == 0
    then same
    else other

pub record XorDecoder : Type 0 where
  pub val : ℕ
  pub br : Reader
  pub leading : ℕ
  pub trailing : ℕ
  pub first : Bool
  pub err : Option Error

unfoldable pub new_xor_decoder : Reader → XorDecoder
new_xor_decoder br = record {
  val = 0;
  br = br;
  leading = 0;
  trailing = 0;
  first = true;
  err = none;
}

unfoldable pub reset_decoder : XorDecoder → XorDecoder
reset_decoder d = record d { first = true; leading = 0; trailing = 0; err = none; val = 0 }

-- `int(blockSize)` of a uint64 may be negative: then `ReadBits` reads nothing.
unfoldable pub int_size : ℕ → ℕ
int_size block_size = if is_neg64 block_size then 0 else block_size

-- The end of `Next`.
unfoldable pub read_block : ℕ → XorDecoder → Bool × XorDecoder
read_block block_size d =
    let (delta, err, br) = read_bits (int_size block_size) d.br in
    elim err [
      | some e ↦ (false, record d { br = br; err = some e })
      | none ↦ (true, record d { br = br; val = bit_xor d.val (shift_left64 delta d.trailing) })
    ]

-- `64 - d.leading - blockSize` of uint64s wraps.
unfoldable pub set_place : ℕ → ℕ → Reader → XorDecoder → XorDecoder
set_place leading block_size br d = record d {
  br = br;
  leading = leading;
  trailing = (64 + 2 ^ 64 + 2 ^ 64 - leading - block_size) % 2 ^ 64;
}

-- Where the control bit says so, the numbers of leading zeros and of meaningful bits come first.
unfoldable pub read_place : XorDecoder → Bool × XorDecoder
read_place d =
    let (leading, err, br) = read_bits 6 d.br in
    elim err [
      | some e ↦ (false, record d { br = br; leading = leading; err = some e })
      | none ↦
          let (size, err, br) = read_bits 6 br in
          elim err [
            | some e ↦ (false, record d { br = br; leading = leading; err = some e })
            | none ↦ read_block (size + 1) (set_place leading (size + 1) br d)
          ]
    ]

unfoldable pub read_delta : XorDecoder → Bool × XorDecoder
read_delta d =
    let (b, err, br) = read_bit d.br in
    elim err [
      | some e ↦ (false, record d { br = br; err = some e })
      | none ↦
          let d' = record d { br = br } in
          if b
          then read_block ((64 + 2 ^ 64 + 2 ^ 64 - d.leading - d.trailing) % 2 ^ 64) d'
          else read_place d'
    ]

-- `Next` by its error and by `first`: the first value is read with its error kept, and `true`
-- returned.
unfoldable pub next_from : Option Error → Bool → XorDecoder → Bool × XorDecoder
next_from (some e) first d = (false, d)
next_from none true d =
    let (v, err, br) = read_bits 64 d.br in
    (true, record d { first = false; val = v; br = br; err = err })
next_from none false d =
    let (b, err, br) = read_bit d.br in
    elim err [
      | some e ↦ (false, record d { br = br; err = some e })
      | none ↦ let d' = record d { br = br } in if b then read_delta d' else (true, d')
    ]

unfoldable pub next : XorDecoder → Bool × XorDecoder
next d = next_from d.err d.first d
