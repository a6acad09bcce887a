-- ===== src/Encoding/Tsd.antt =====
-- pkg/encoding/tsd.go: for each time slot a bit that tells if it has a value, and the value behind.
-- Slots are ints that hold uint16s. The encoder's `bitWriter` and the writer of its XOR encoder are
-- one object, and so are the decoder's `reader` and the reader of its XOR decoder, and their buffer.
-- The encoder's error is nil, since the writer reports none.
pub mod Slots
pub mod RoundTrip
use lindb.Base.{
  ℕ, ◌+◌, ◌-◌, ◌%◌, ◌^◌, Bool, true, false, ◌||◌, List, [], ◌∷◌, ◌++◌, Option, none, some, ltb, leb,
  ◌==◌, if◌then◌else◌, length, take, drop,
}
use lindb.Base.Words.{is_neg64, lt64}
use lindb.Stream.Writer.{little_endian}
use lindb.Stream.Reader.{of_little_endian, read_uint16, new_reader}
use lindb.Bit
use lindb.Bit.{Error, write_bit, reset_writer, flush, read_bit, set_idx, set_buf, reset_reader}
use lindb.Encoding.Xor.{
  XorEncoder, XorDecoder, new_xor_encoder, new_xor_decoder, reset_encoder, reset_decoder, write,
  next as next_xor,
}

pub record TsdEncoder : Type 0 where
  pub start_time : ℕ
  pub values : XorEncoder
  pub count : ℕ

unfoldable pub new_tsd_encoder : ℕ → TsdEncoder
new_tsd_encoder start_time = record {
  start_time = start_time;
  values = new_xor_encoder (reset_writer []);
  count = 0;
}

-- `count` stays.
unfoldable pub reset_tsd_encoder : TsdEncoder → TsdEncoder
reset_tsd_encoder e = record e { values = reset_encoder (record e.values { bw = reset_writer [] }) }

unfoldable pub append_time : Bool → TsdEncoder → TsdEncoder
append_time slot e = record e {
  values = record e.values { bw = write_bit slot e.values.bw };
  count = (e.count + 1) % 2 ^ 64;
}

unfoldable pub append_value : ℕ → TsdEncoder → TsdEncoder
append_value value e = record e { values = write value e.values }

-- `uint16(e.startTime)` and `uint16(e.count)` keep the low half.
unfoldable pub tsd_bytes : TsdEncoder → List ℕ × TsdEncoder
tsd_bytes e =
    let bw = flush e.values.bw in
    (
      little_endian 2 (e.start_time % 2 ^ 16) ++ (little_endian 2 (e.count % 2 ^ 16) ++ bw.out),
      record e { values = record e.values { bw = bw } },
    )

pub record TsdDecoder : Type 0 where
  pub start_time : ℕ
  pub end_time : ℕ
  pub count : ℕ
  pub values : Option XorDecoder
  pub idx : ℕ
  pub err : Option Error

-- `NewTSDDecoder(nil)`
unfoldable pub empty_tsd_decoder : TsdDecoder
empty_tsd_decoder = record {
  start_time = 0;
  end_time = 0;
  count = 0;
  values = none;
  idx = 0;
  err = none;
}

-- The decoder of the values on `data`, from its fifth byte on.
unfoldable pub values_on : List ℕ → Option XorDecoder → XorDecoder
values_on bytes none =
    new_xor_decoder (reset_reader (Bit.new_reader (set_idx 4 (Bit.new_buffer bytes))))
values_on bytes (some values) =
    let d = reset_decoder values in
    record d { br = reset_reader (record d.br { buf = set_idx 4 (set_buf bytes d.br.buf) }) }

-- The slices of `data` panic where it has no four bytes.
unfoldable pub reset_tsd_decoder : List ℕ → TsdDecoder → Option TsdDecoder
reset_tsd_decoder bytes d =
    let start_time = of_little_endian (take 2 bytes) in
    let count = of_little_endian (take 2 (drop 2 bytes)) in
    if ltb (length bytes) 4
    then none
    else some (record {
      start_time = start_time;
      end_time = (start_time + count + 2 ^ 64 - 1) % 2 ^ 64;
      count = count;
      values = some (values_on bytes d.values);
      idx = 0;
      err = none;
    })

-- `NewTSDDecoder` of data that is not nil.
unfoldable pub new_tsd_decoder : List ℕ → Option TsdDecoder
new_tsd_decoder bytes = reset_tsd_decoder bytes empty_tsd_decoder

unfoldable pub next : TsdDecoder → Bool × TsdDecoder
next d = if lt64 d.idx d.count then (true, record d { idx = (d.idx + 1) % 2 ^ 64 }) else (false, d)

-- `HasValue` by the decoder's values.
unfoldable pub has_value_in : Option XorDecoder → TsdDecoder → Bool × TsdDecoder
has_value_in none d = (false, d)
has_value_in (some values) d =
    let (b, err, br) = read_bit values.br in
    let d' = record d { values = some (record values { br = br }) } in
    elim err [ some e ↦ (false, record d' { err = some e }) | none ↦ (b, d') ]

unfoldable pub has_value : TsdDecoder → Bool × TsdDecoder
has_value d = has_value_in d.values d

unfoldable pub has_value_with_slot : ℕ → TsdDecoder → Bool × TsdDecoder
has_value_with_slot slot d =
    if is_neg64 slot || lt64 d.count slot
    then (false, d)
    else if slot == d.idx
    then has_value (record d { idx = (d.idx + 1) % 2 ^ 64 })
    else (false, d)

unfoldable pub slot_of : TsdDecoder → ℕ
slot_of d = (d.start_time + d.idx + 2 ^ 64 - 1) % 2 ^ 64

-- `Value`; `none` is the panic of a decoder without data.
unfoldable pub value_in : Option XorDecoder → TsdDecoder → Option (ℕ × TsdDecoder)
value_in none d = none
value_in (some values) d =
    let (more, values') = next_xor values in
    some (if more then values'.val else 0, record d { values = some values' })

unfoldable pub value : TsdDecoder → Option (ℕ × TsdDecoder)
value d = value_in d.values d

-- `DecodeTSDTime`
unfoldable pub decode_tsd_time : List ℕ → ℕ × ℕ
decode_tsd_time bytes =
    let (start_time, r) = read_uint16 (new_reader bytes) in
    let (count, r') = read_uint16 r in (start_time, (start_time + count + 2 ^ 64 - 1) % 2 ^ 64)
