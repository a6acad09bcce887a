-- ===== src/Bit.antt =====
-- pkg/bit: a writer and a reader of single bits, and pkg/bufioutil/buffer.go, which the reader reads
-- from. The writer's `io.Writer` is a `bytes.Buffer`, the list of its bytes: its `Write` takes every
-- byte and reports no error, so the errors that the methods pass on are nil and are left out.
pub mod Held
pub mod Writes
pub mod Reads
pub mod Bytes
pub mod ManyBits
pub mod Words
use lindb.Base.{
  ℕ, zero, suc, ◌+◌, ◌-◌, ◌*◌, ◌/◌, ◌%◌, ◌^◌, Bool, true, false, not, List, [], ◌∷◌, ◌++◌, Option,
  none, some, leb, ◌==◌, if◌then◌else◌, get_elem?, bit_and, bit_or,
}

pub data Error : Type 0 where
  out_of_range : Error

pub record Buffer : Type 0 where
  pub buf : List ℕ
  pub index : ℕ

unfoldable pub new_buffer : List ℕ → Buffer
new_buffer e = record { buf = e; index = 0 }

unfoldable pub set_buf : List ℕ → Buffer → Buffer
set_buf s p = record p { buf = s; index = 0 }

unfoldable pub set_idx : ℕ → Buffer → Buffer
set_idx idx p = record p { index = idx }

-- The byte is 0 where there is none.
unfoldable pub get_byte : Buffer → ℕ × Option Error × Buffer
get_byte p = elim (get_elem? p.buf p.index) [
  | none ↦ (0, some out_of_range, p)
  | some b ↦ (b, none, record p { index = p.index + 1 })
]

pub record Reader : Type 0 where
  pub buf : Buffer
  pub b : ℕ
  pub count : ℕ
  pub err : Option Error

unfoldable pub new_reader : Buffer → Reader
new_reader buf = record { buf = buf; b = 0; count = 0; err = none }

unfoldable pub reset_reader : Reader → Reader
reset_reader r = record r { err = none; count = 0; b = 0 }

-- The head of `ReadBit`: a new byte where all bits of the last one are read.
unfoldable pub fill : Reader → Reader
fill r =
    if r.count == 0
    then (let (b, err, buf) = get_byte r.buf in record { buf = buf; b = b; count = 8; err = err })
    else r

unfoldable pub read_bit : Reader → Bool × Option Error × Reader
unfolding fill
read_bit r =
    let r' = fill r in
    (
      not (bit_and r'.b 0x80 == 0),
      r'.err,
      record r' { count = (r'.count + 255) % 256; b = r'.b * 2 % 256 },
    )

unfoldable pub read_byte : Reader → ℕ × Option Error × Reader
read_byte r =
    let (b, err, buf) = get_byte r.buf in
    if r.count == 0 then (b, err, record r { buf = buf; b = b; err = err }) else (
      bit_or r.b (b / 2 ^ r.count),
      err,
      record r { buf = buf; b = b * 2 ^ ((8 + 256 - r.count) % 256) % 256; err = err },
    )

-- The first loop of `ReadBits`, `rounds` bytes; then the second, `rounds` bits.
unfoldable pub read_whole : ℕ → ℕ → Reader → ℕ × Option Error × Reader
read_whole zero u r = (u, none, r)
read_whole (suc rounds) u r =
    let (byt, err, r') = read_byte r in
    elim err [
      | some e ↦ (0, some e, r')
      | none ↦ read_whole rounds (bit_or (u * 256 % 2 ^ 64) byt) r'
    ]

unfoldable pub read_single : ℕ → ℕ → Reader → ℕ × Option Error × Reader
read_single zero u r = (u, none, r)
read_single (suc rounds) u r =
    let (d, err, r') = read_bit r in
    elim err [
      | some e ↦ (0, some e, r')
      | none ↦ let u' = u * 2 % 2 ^ 64 in read_single rounds (if d then bit_or u' 1 else u') r'
    ]

unfoldable pub read_bits : ℕ → Reader → ℕ × Option Error × Reader
read_bits num_bits r =
    let (u, err, r') = read_whole (num_bits / 8) 0 r in
    elim err [ some e ↦ (0, some e, r') | none ↦ read_single (num_bits % 8) u r' ]

pub record Writer : Type 0 where
  pub out : List ℕ
  pub b : ℕ
  pub count : ℕ

-- `NewWriter` and `Writer.Reset`
unfoldable pub reset_writer : List ℕ → Writer
reset_writer out = record { out = out; b = 0; count = 8 }

unfoldable pub write_bit : Bool → Writer → Writer
write_bit bit w =
    let b = if bit then bit_or w.b (2 ^ ((w.count + 255) % 256) % 256) else w.b in
    let count = (w.count + 255) % 256 in
    if count == 0
    then record { out = w.out ++ b ∷ []; b = 0; count = 8 }
    else record w { b = b; count = count }

unfoldable pub write_byte : ℕ → Writer → Writer
write_byte b w = record w {
  out = w.out ++ bit_or w.b (b / 2 ^ ((8 + 256 - w.count) % 256)) ∷ [];
  b = b * 2 ^ w.count % 256;
}

-- `u << s` of a uint64: a shift by 64 or more leaves nothing.
unfoldable pub shift_left64 : ℕ → ℕ → ℕ
shift_left64 u s = if leb 64 s then 0 else u * 2 ^ s % 2 ^ 64

-- The two loops of `WriteBits`, as in `ReadBits`. The first also gives back what is left of `u`.
unfoldable pub write_whole : ℕ → ℕ → Writer → ℕ × Writer
write_whole zero u w = (u, w)
write_whole (suc rounds) u w =
    write_whole rounds (u * 256 % 2 ^ 64) (write_byte (u / 2 ^ 56 % 256) w)

unfoldable pub write_single : ℕ → ℕ → Writer → Writer
write_single zero u w = w
write_single (suc rounds) u w = write_single rounds (u * 2 % 2 ^ 64) (write_bit (u / 2 ^ 63 == 1) w)

-- `64 - uint(numBits)` wraps.
unfoldable pub write_bits : ℕ → ℕ → Writer → Writer
write_bits u num_bits w =
    let (u', w') =
      write_whole (num_bits / 8) (shift_left64 u ((2 ^ 64 + 64 - num_bits) % 2 ^ 64)) w in
    write_single (num_bits % 8) u' w'

unfoldable pub flush : Writer → Writer
flush w = if w.count == 8 then w else record w { out = w.out ++ w.b ∷ [] }
