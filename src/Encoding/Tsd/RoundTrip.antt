-- ===== src/Encoding/Tsd/RoundTrip.antt =====
-- A time series comes back from its bytes.
use lindb.Base.{
  inr, ℕ, zero, suc, ◌+◌, ◌-◌, ◌%◌, ◌^◌, ◌<◌, ◌≡◌, refl, ap, sym, ◌∙◌, arith, Bool, true, false,
  List, [], ◌∷◌, ◌++◌, Option, none, some, All, length, append_assoc, take, drop, subst, ltb,
  if◌then◌else◌,
}
use mathlib.Core.Option
use lindb.Base.Words.{IsByte, IsWord64}
use lindb.Bit.{write_bit, flush, read_bit, Reader, reset_writer, reset_reader, set_idx, set_buf}
use lindb.Bit
use lindb.Bit.Held.{bits_of, top}
use lindb.Bit.Writes.{IsHeld, written, flush_lem}
use lindb.Stream.Writer.{little_endian}
use lindb.Stream.Reader.{of_little_endian}
use lindb.Bit.Reads.{At, read_bit_lem, at_start}
use lindb.Encoding.Xor.{
  XorEncoder, XorDecoder, next as next_xor, new_xor_encoder, new_xor_decoder, reset_decoder,
}
use lindb.Encoding.Xor.Code.{Wrote-bit, code}
use lindb.Encoding.Xor.RoundTrip.{Pairs, moved, next-write}
use lindb.Encoding.Tsd.{
  TsdEncoder, append_time, append_value, TsdDecoder, next, has_value, has_value_in, value, value_in,
  values_on, tsd_bytes, new_tsd_encoder, reset_tsd_decoder,
}
use lindb.Encoding.Tsd.Slots.{
  append_slot, append_slots, read_slots, unless_error, with_next, with_slot, with_read, slot_code,
  slots_code, append_slots-Wrote, count-append_slots,
}

abbrev AllWords : List (Option ℕ) → Type 0
AllWords [] = Unit {0}
AllWords (none ∷ ss) = AllWords ss
AllWords (some v ∷ ss) = IsWord64 v × AllWords ss

-- The encoder may write another bit in between.
bit_between :
    (bit : Bool) {e : XorEncoder} {d : XorDecoder}
    → Pairs e d
    → Pairs (record e { bw = write_bit bit e.bw }) d
bit_between bit {e} h = record {
  previous = h.previous;
  word = h.word;
  same_first = h.same_first;
  fine = h.fine;
  held = (Wrote-bit bit e.bw h.held).held;
  place = h.place;
}

-- A decoder that has `left` slots ahead, whose bits are `xs`.
record Before (e : TsdEncoder) (x : XorDecoder) (left : ℕ) (xs : List Bool) (d : TsdDecoder)
    : Type 0 where
  pub has_values : d.values ≡ some x
  pub pairs : Pairs e.values x
  pub at : At x.br xs
  pub fine : d.err ≡ none
  pub ahead : d.idx + left ≡ d.count
  pub small : d.count < 2 ^ 16

module _ (e : TsdEncoder) (x : XorDecoder) (left : ℕ) (xs : List Bool) (d : TsdDecoder) where
  next_more : Before e x (suc left) xs d → next d ≡ (true, record d { idx = d.idx + 1 })
  unfolding next
  next_more h = ground (arith, h.ahead, h.small)

  next_end : Before e x 0 xs d → next d ≡ (false, d)
  unfolding next
  next_end h = ground (arith, h.ahead, h.small)

has_value_lem :
    (e : TsdEncoder) (x : XorDecoder) (bit : Bool) (xs : List Bool) (d : TsdDecoder)
    → d.values ≡ some x
    → At x.br (bit ∷ xs)
    → (has_value d ≡ (bit, record d { values = some (record x { br = (read_bit x.br).2 }) }))
      × At (read_bit x.br).2 xs
unfolding has_value has_value_in
has_value_lem e x bit xs d values at =
    let (b, fine, at') = read_bit_lem x.br bit xs at in
    (ap (λ v. has_value_in v d) values ∙ rw (fine, has_value_in) (rw b refl), at')

value_lem :
    (v : ℕ) (e : XorEncoder) (x : XorDecoder) (xs : List Bool) (d : TsdDecoder)
    → d.values ≡ some x
    → Pairs e x
    → IsWord64 v
    → At x.br (code v e ++ xs)
    → value d ≡ some (v, record d { values = some (next_xor x).1 })
unfolding value value_in
value_lem v e x xs d values h wide at =
    let n = next-write v e x xs h wide at in
    ap (λ w. value_in w d) values
    ∙ ap
        (λ more.
          some
            ((if more then (next_xor x).1.val else 0), record d { values = some (next_xor x).1 }))
        n.more
    ∙ ap (λ v. some (v, record d { values = some (next_xor x).1 })) n.value

-- With more rounds than there are slots the loop gives all of them.
read_slots_lem :
    (ss : List (Option ℕ)) (rounds : ℕ) (e : TsdEncoder) (x : XorDecoder) (rest : List Bool)
    (d : TsdDecoder)
    → AllWords ss
    → length ss < rounds
    → Before e x (length ss) (slots_code ss e ++ rest) d
    → read_slots rounds d ≡ some ss
unfolding read_slots slots_code slot_code append_slot append_time append_value
read_slots_lem ss zero e x rest d words lt h = absurd (omega arith)
read_slots_lem [] (suc rounds) e x rest d words lt h =
    ap (λ f. unless_error f (with_next (read_slots rounds) (next d))) h.fine
    ∙ ap (with_next (read_slots rounds)) (next_end e x 0 rest d h)
read_slots_lem (none ∷ ss) (suc rounds) e x rest d words lt h =
    let d1 = record d { idx = d.idx + 1 } in
    let (has, at) =
      has_value_lem e x false (slots_code ss (append_slot none e) ++ rest) d1 h.has_values h.at in
    let x' = record x { br = (read_bit x.br).2 } in
    let d2 = record d1 { values = some x' } in
    ap (λ f. unless_error f (with_next (read_slots rounds) (next d))) h.fine
    ∙ ap (with_next (read_slots rounds)) (next_more e x (length ss) _ d h)
    ∙ ap (with_slot (read_slots rounds)) has
    ∙ ap (Option.map (λ ss. none ∷ ss)) (
        read_slots_lem ss rounds (append_slot none e) x' rest d2 words (omega arith) (record {
          has_values = refl;
          pairs = bit_between false (moved (read_bit x.br).2 h.pairs);
          at = at;
          fine = h.fine;
          ahead = omega (arith, h.ahead);
          small = h.small;
        }))
read_slots_lem (some v ∷ ss) (suc rounds) e x rest d words lt h =
    let d1 = record d { idx = d.idx + 1 } in
    let E = append_time true e in
    let behind = slots_code ss (append_slot (some v) e) in
    let (has, at) =
      has_value_lem e x true ((code v E.values ++ behind) ++ rest) d1 h.has_values h.at in
    let x' = record x { br = (read_bit x.br).2 } in
    let d2 = record d1 { values = some x' } in
    let pairs = bit_between true (moved (read_bit x.br).2 h.pairs) in
    let at' = subst (At x'.br) (append_assoc (code v E.values) behind rest) at in
    let got = value_lem v E.values x' (behind ++ rest) d2 refl pairs words.0 at' in
    let n = next-write v E.values x' (behind ++ rest) pairs words.0 at' in
    let d3 = record d2 { values = some (next_xor x').1 } in
    ap (λ f. unless_error f (with_next (read_slots rounds) (next d))) h.fine
    ∙ ap (with_next (read_slots rounds)) (next_more e x (length ss) _ d h)
    ∙ ap (with_slot (read_slots rounds)) has
    ∙ ap (with_read (read_slots rounds)) got
    ∙ ap (Option.map (λ ss. some v ∷ ss)) (
        read_slots_lem ss rounds (append_slot (some v) e) (next_xor x').1 rest d3 words.1
          (omega arith)
          (record {
            has_values = refl;
            pairs = n.pairs;
            at = n.at;
            fine = h.fine;
            ahead = omega (arith, h.ahead);
            small = h.small;
          }))

-- A decoder without values so far, on a reader that has all its bits ahead.
started :
    (x : XorDecoder)
    → x.val ≡ 0
    → x.first ≡ true
    → x.err ≡ none
    → x.leading ≡ 0
    → x.trailing ≡ 0
    → Pairs (new_xor_encoder (reset_writer [])) x
unfolding new_xor_encoder reset_writer
started x val first fine lead trail = record {
  previous = sym val;
  word = omega arith;
  same_first = sym first;
  fine = fine;
  held = record {
    some_left = omega arith;
    in_byte = omega arith;
    small = omega arith;
    clear = refl;
    bytes = tt;
  };
  place = inr (sym lead, sym trail, omega arith);
}

-- A decoder on the bytes behind the times, whether it is new or used before.
values_on-Pairs :
    (bytes : List ℕ) (used : Option XorDecoder)
    → All IsByte (drop 4 bytes)
    → Pairs (new_xor_encoder (reset_writer [])) (values_on bytes used)
      × At (values_on bytes used).br (bits_of (drop 4 bytes))
unfolding values_on new_xor_decoder reset_decoder reset_reader Bit.new_reader Bit.new_buffer set_idx
    set_buf
values_on-Pairs bytes none small =
    (started _ refl refl refl refl refl, at_start (values_on bytes none).br refl refl refl small)
values_on-Pairs bytes (some d) small = (
  started _ refl refl refl refl refl,
  at_start (values_on bytes (some d)).br refl refl refl small,
)

-- The bytes of an encoder, and what is behind the two times.
bytes_lem :
    (start count : ℕ) (out : List ℕ)
    → start < 2 ^ 16
    → count < 2 ^ 16
    → let bytes = little_endian 2 (start % 2 ^ 16) ++ (little_endian 2 (count % 2 ^ 16) ++ out) in
      (of_little_endian (take 2 bytes) ≡ start)
      × (of_little_endian (take 2 (drop 2 bytes)) ≡ count)
      × (drop 4 bytes ≡ out)
      × (ltb (length bytes) 4 ≡ false)
unfolding little_endian of_little_endian
bytes_lem start count out hs hc = (omega arith, omega arith, refl, ground arith)

reset_lem :
    (bytes : List ℕ) (used : TsdDecoder) (start count : ℕ)
    → of_little_endian (take 2 bytes) ≡ start
    → of_little_endian (take 2 (drop 2 bytes)) ≡ count
    → ltb (length bytes) 4 ≡ false
    → reset_tsd_decoder bytes used
      ≡ some (record {
        start_time = start;
        end_time = (start + count + 2 ^ 64 - 1) % 2 ^ 64;
        count = count;
        values = some (values_on bytes used.values);
        idx = 0;
        err = none;
      })
unfolding reset_tsd_decoder
reset_lem bytes used start count s c long = rw (long, s, c)

abbrev pub encoded : ℕ → List (Option ℕ) → List ℕ
encoded start ss = (tsd_bytes (append_slots ss (new_tsd_encoder start))).0

-- What is ahead of a decoder on the bytes of an encoder.
module _ (start : ℕ) (ss : List (Option ℕ)) (used : TsdDecoder) (begins : start < 2 ^ 16)
    (short : length ss < 2 ^ 16) where
  abbrev e0 : TsdEncoder
  e0 = new_tsd_encoder start

  abbrev bytes : List ℕ
  bytes = encoded start ss

  abbrev x : XorDecoder
  x = values_on bytes used.values

  e0-IsHeld : IsHeld e0.values.bw
  unfolding new_tsd_encoder
  e0-IsHeld = (values_on-Pairs [] none tt).0.held

  encoded_lem :
      (of_little_endian (take 2 bytes) ≡ start)
      × (of_little_endian (take 2 (drop 2 bytes)) ≡ length ss)
      × (drop 4 bytes ≡ (flush (append_slots ss e0).values.bw).out)
      × (ltb (length bytes) 4 ≡ false)
  unfolding tsd_bytes new_tsd_encoder
  encoded_lem =
      let e = append_slots ss e0 in
      let (count, begin) = count-append_slots ss e0 (omega arith) in
      let (s, c, behind, long) =
        bytes_lem e.start_time e.count (flush e.values.bw).out (omega (arith, begin))
          (omega (arith, count)) in
      (s ∙ begin, c ∙ omega (arith, count), behind, long)

  bits_ahead : (padding : List Bool) × Pairs e0.values x × At x.br (slots_code ss e0 ++ padding)
  unfolding new_tsd_encoder new_xor_encoder reset_writer bits_of top
  bits_ahead =
      let w = append_slots-Wrote ss e0 e0-IsHeld in
      let (padding, bits, small) = flush_lem (append_slots ss e0).values.bw w.held in
      let behind = encoded_lem.2 in
      let (pairs, ahead) =
        values_on-Pairs bytes used.values (subst (All IsByte) (sym behind) small) in
      (
        padding,
        pairs,
        subst (At x.br) (ap bits_of behind ∙ bits ∙ ap (λ t. t ++ padding) (w.bits_lem ∙ nothing))
            ahead,
      )
    where
      nothing : written (new_tsd_encoder start).values.bw ++ slots_code ss e0 ≡ slots_code ss e0
      nothing = refl

-- A series of fewer than 2 ^ 16 slots from a start below 2 ^ 16, with uint64 values in some of them,
-- comes back from the bytes that a new encoder makes of it, on a decoder that is new or was used
-- before: the decoder has its start and end, and its loop gives each slot with its value or none.
pub read_slots-encoded :
    (start : ℕ) (ss : List (Option ℕ)) (used : TsdDecoder)
    → start < 2 ^ 16
    → length ss < 2 ^ 16
    → AllWords ss
    → (d : TsdDecoder) × (reset_tsd_decoder (encoded start ss) used ≡ some d)
      × (d.start_time ≡ start)
      × (d.end_time ≡ (start + length ss + 2 ^ 64 - 1) % 2 ^ 64)
      × (read_slots (suc (length ss)) d ≡ some ss)
unfolding new_tsd_encoder
read_slots-encoded start ss used begins short words =
    let (s, c, behind, long) = encoded_lem start ss used begins short in
    let (padding, pairs, ahead) = bits_ahead start ss used begins short in
    (
      _,
      reset_lem (encoded start ss) used start (length ss) s c long,
      refl,
      refl,
      read_slots_lem ss (suc (length ss)) (new_tsd_encoder start) _ padding _ words (omega arith)
          (record {
            has_values = refl;
            pairs = pairs;
            at = ahead;
            fine = refl;
            ahead = omega arith;
            small = short;
          }),
    )
