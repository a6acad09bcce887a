-- ===== src/Encoding/Delta.antt =====
-- pkg/encoding/delta_bit_packing.go: int32 values as the differences from one to the next, less the
-- smallest of them, in as many bits as the largest needs, and the zigzag code of encoding.go. The encoder's `sw` and `bw` write to one
-- buffer, which is the output of `bw` here.
pub mod Zigzag
pub mod Prefix
pub mod Values
pub mod Head
pub mod Loop
pub mod RoundTrip
use lindb.Base.{
  ℕ, zero, suc, ◌+◌, ◌-◌, ◌*◌, ◌/◌, ◌%◌, ◌^◌, Bool, true, false, List, [], ◌∷◌, ◌++◌, none, ltb,
  ◌==◌, if◌then◌else◌, length, drop, bit_and, bit_xor,
}
use lindb.Base.Words.{is_neg64, to_int64, to_word32, lt32}
use lindb.Stream.Writer.{put_varint32, put_varint64, put_byte}
use lindb.Stream.Reader
use lindb.Stream.Reader.{Read, ◌>>=◌, pure, read_varint32, read_varint64, position}
use lindb.Bit
use lindb.Bit.{
  Writer, reset_writer, write_bits, flush, read_bits, set_buf, new_buffer, reset_reader,
}
use lindb.Encoding.Xor.{len64}

-- `x >> 63` of an int64
unfoldable pub sign_bits : ℕ → ℕ
sign_bits x = if is_neg64 x then 2 ^ 64 - 1 else 0

unfoldable pub zig_zag_encode : ℕ → ℕ
unfolding sign_bits
zig_zag_encode x = bit_xor (x * 2 % 2 ^ 64) (sign_bits x)

unfoldable pub zig_zag_decode : ℕ → ℕ
unfolding sign_bits
zig_zag_decode v = bit_xor (v / 2) (sign_bits (bit_and v 1 * 2 ^ 63 % 2 ^ 64))

-- `x - y` of int32s wraps.
abbrev pub sub32 : ℕ → ℕ → ℕ
sub32 x y = (x + 2 ^ 32 - y) % 2 ^ 32

pub record DeltaEncoder : Type 0 where
  pub first : ℕ
  pub previous : ℕ
  pub min_delta : ℕ
  pub deltas : List ℕ
  pub bw : Writer
  pub has_first : Bool

-- `NewDeltaBitPackingEncoder` and `Reset`
unfoldable pub new_delta_encoder : DeltaEncoder
new_delta_encoder = record {
  first = 0;
  previous = 0;
  min_delta = 0;
  deltas = [];
  bw = reset_writer [];
  has_first = false;
}

unfoldable pub add : ℕ → DeltaEncoder → DeltaEncoder
add v p =
    let delta = sub32 p.previous v in
    if p.has_first
    then record p {
      deltas = p.deltas ++ delta ∷ [];
      min_delta = if lt32 delta p.min_delta then delta else p.min_delta;
      previous = v;
    }
    else record p { has_first = true; first = v; previous = v }

-- The largest `deltaDelta`, by a signed comparison.
unfoldable pub max_delta : ℕ → List ℕ → ℕ → ℕ
max_delta min_delta [] max = max
max_delta min_delta (v ∷ deltas) max =
    let d = sub32 v min_delta in max_delta min_delta deltas (if lt32 max d then d else max)

-- `32 - bits.LeadingZeros32(uint32(max))`
unfoldable pub width_of : ℕ → ℕ
width_of max = len64 32 max

-- `uint64(deltaDelta)` extends the sign.
unfoldable pub write_deltas : ℕ → ℕ → List ℕ → Writer → Writer
write_deltas min_delta width [] w = w
write_deltas min_delta width (v ∷ deltas) w =
    write_deltas min_delta width deltas (write_bits (to_int64 (sub32 v min_delta)) width w)

-- The length of the deltas, the width, the smallest delta and the first value.
unfoldable pub head_bytes : DeltaEncoder → List ℕ
head_bytes p =
    let width = width_of (max_delta p.min_delta p.deltas 0) in
    let w = put_varint32 (to_word32 (length p.deltas)) (record { buf = []; err = none }) in
    let w = put_byte (width % 256) w in
    let w = put_varint64 (zig_zag_encode (to_int64 p.min_delta)) w in (put_varint32 p.first w).buf

unfoldable pub delta_bytes : DeltaEncoder → List ℕ × DeltaEncoder
delta_bytes p =
    let width = width_of (max_delta p.min_delta p.deltas 0) in
    let bw = record p.bw { out = head_bytes p } in
    let bw = flush (write_deltas p.min_delta width p.deltas bw) in (bw.out, record p { bw = bw })

pub record DeltaDecoder : Type 0 where
  pub sr : Reader.Reader
  pub br : Bit.Reader
  pub count : ℕ
  pub pos : ℕ
  pub width : ℕ
  pub previous : ℕ
  pub min_delta : ℕ

-- The length of the deltas, the width, the smallest delta and the first value.
unfoldable pub read_head : Read (ℕ × ℕ × ℕ × ℕ)
read_head = do
  x ← read_varint32
  w ← Reader.read_byte
  min ← read_varint64
  v ← read_varint32
  pure (x, w, min, v)

unfoldable pub reset_delta_decoder : List ℕ → DeltaDecoder → DeltaDecoder
reset_delta_decoder buf d =
    let ((x, w, min, v), sr) = read_head (Reader.reset buf d.sr) in
    record {
      sr = sr;
      br = reset_reader (record d.br { buf = set_buf (drop (position sr) buf) d.br.buf });
      count = (x + 1) % 2 ^ 32;
      pos = (x + 1) % 2 ^ 32;
      width = w;
      previous = v;
      min_delta = to_word32 (zig_zag_decode min);
    }

unfoldable pub new_delta_decoder : List ℕ → DeltaDecoder
new_delta_decoder buf = reset_delta_decoder buf (record {
  sr = Reader.new_reader [];
  br = Bit.new_reader (new_buffer buf);
  count = 0;
  pos = 0;
  width = 0;
  previous = 0;
  min_delta = 0;
})

unfoldable pub has_next : DeltaDecoder → Bool
has_next d = lt32 0 d.pos

unfoldable pub next : DeltaDecoder → ℕ × DeltaDecoder
next d =
    let (x, err, br) = read_bits d.width d.br in
    let pos = sub32 d.pos 1 in
    let vv = sub32 d.previous ((to_word32 x + d.min_delta) % 2 ^ 32) in
    if d.pos == d.count
    then (d.previous, record d { pos = pos })
    else (vv, record d { br = br; pos = pos; previous = vv })
