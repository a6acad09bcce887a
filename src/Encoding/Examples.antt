-- ===== src/Encoding/Examples.antt =====
-- Runs of the codecs, and their theorems at concrete inputs.
use lindb.Base.{
  refl, ℕ, suc, ◌+◌, ◌-◌, ◌*◌, ◌%◌, ◌^◌, ◌≡◌, arith, List, [], ◌∷◌, Option, some, none, length,
}
use lindb.Bit.{Writer}
use lindb.Bit.Writes.{IsHeld, written}
use lindb.Encoding.Xor.{new_xor_encoder}
use lindb.Encoding.Xor.Fresh.{write_all, length-written_new}
use lindb.Encoding.Tsd.{TsdDecoder, empty_tsd_decoder, reset_tsd_decoder}
use lindb.Encoding.Tsd.Slots.{read_slots}
use lindb.Encoding.Tsd.RoundTrip.{encoded, read_slots-encoded}
use lindb.Encoding.Delta.{
  DeltaDecoder, add, delta_bytes, new_delta_encoder, new_delta_decoder, reset_delta_decoder,
}
use lindb.Encoding.Delta.Values.{add_all, read_values}
use lindb.Encoding.Delta.RoundTrip.{read_values-delta_bytes}

abbrev series : List (Option ℕ)
series = some 10 ∷ none ∷ some 12 ∷ some 12 ∷ none ∷ some (2 ^ 63) ∷ []

read_slots-encoded_example :
    (d : TsdDecoder) × (reset_tsd_decoder (encoded 7 series) empty_tsd_decoder ≡ some d)
    × (d.start_time ≡ 7)
    × (d.end_time ≡ (7 + length series + 2 ^ 64 - 1) % 2 ^ 64)
    × (read_slots (suc (length series)) d ≡ some series)
read_slots-encoded_example =
    read_slots-encoded 7 series empty_tsd_decoder (omega arith) (omega arith) (omega arith)

abbrev empty_writer : Writer
empty_writer = record { out = []; b = 0; count = 8 }

empty_writer-IsHeld : IsHeld empty_writer
empty_writer-IsHeld = record {
  some_left = omega arith;
  in_byte = omega arith;
  small = omega arith;
  clear = refl;
  bytes = tt;
}

length-written_new_example :
    length (written (write_all (5 ∷ 6 ∷ 8 ∷ []) (new_xor_encoder empty_writer)).bw)
    ≡ length (written empty_writer) + (64 + 66 * 2)
length-written_new_example =
    length-written_new 5 (6 ∷ 8 ∷ []) empty_writer empty_writer-IsHeld
      (omega arith, (omega arith, tt))

abbrev offsets : List ℕ
offsets = 10 ∷ 30 ∷ 30 ∷ 25 ∷ []

abbrev used : DeltaDecoder
used = new_delta_decoder []

read_values-delta_bytes_example :
    read_values 5 (reset_delta_decoder (delta_bytes (add_all offsets new_delta_encoder)).0 used)
    ≡ some offsets
unfolding add_all add new_delta_encoder
read_values-delta_bytes_example =
    read_values-delta_bytes 10 (30 ∷ 30 ∷ 25 ∷ []) used (omega arith) (omega arith) (omega arith)
