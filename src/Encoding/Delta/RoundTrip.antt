-- ===== src/Encoding/Delta/RoundTrip.antt =====
-- The delta decoder gives back the values that the encoder was given.
use lindb.Base.{
  ℕ, suc, ◌+◌, ◌%◌, ◌^◌, ◌<◌, ◌≤◌, ◌≡◌, refl, ap, sym, ◌∙◌, arith, List, [], ◌∷◌, ◌++◌, Bool, true,
  some, append-nil, length, All, if◌then◌else◌, ◌==◌, subst,
}
use mathlib.Core.Option
use lindb.Base.Words.{IsWord32, to_word32}
use lindb.Bit.{Writer, flush, reset_writer, reset_reader, set_buf}
use lindb.Bit.Held.{bits_of, top}
use lindb.Bit.Writes.{IsHeld, written, flush_lem}
use lindb.Bit.Reads.{At, at_start}
use lindb.Encoding.Xor.Digits.{lt-len64, len64-le}
use lindb.Encoding.Xor.{len64}
use lindb.Encoding.Delta.{
  sub32, DeltaEncoder, new_delta_encoder, add, delta_bytes, head_bytes, max_delta, width_of,
  write_deltas, DeltaDecoder, reset_delta_decoder, next,
}
use lindb.Encoding.Delta.Values.{
  add_all, differences, add_all_lem, add_all-min, Fits, max_delta_lem, deltas_code,
  write_deltas-Wrote, read_values, while_next,
}
use lindb.Encoding.Delta.Prefix.{behind, write_deltas-behind, flush-behind}
use lindb.Encoding.Delta.Head.{at, head, head_bytes_lem, reset_lem}
use lindb.Encoding.Delta.Loop.{InWidth, read_value, after, has_next_lem, read_rest}

next_first :
    (d : DeltaDecoder) → d.pos ≡ d.count → next d ≡ (d.previous, record d { pos = sub32 d.pos 1 })
unfolding next
next_first d e =
    let same : (d.pos == d.count) ≡ true = ground arith in
    ap
      (λ (b : Bool).
        if b then (d.previous, record d { pos = sub32 d.pos 1 }) else (read_value d, after d))
      same

length-differences : (v : ℕ) (vs : List ℕ) → length (differences v vs) ≡ length vs
length-differences v [] = refl
length-differences v (w ∷ vs) = ap suc (length-differences w vs)

-- The bits of an encoder's bytes: its writer starts with an empty output.
bytes_lem :
    (p : DeltaEncoder)
    → p.bw ≡ reset_writer []
    → (delta_bytes p).0
      ≡ head_bytes p
        ++ (flush (
            write_deltas p.min_delta
              (width_of (max_delta p.min_delta p.deltas 0))
              p.deltas
              (reset_writer []))).out
unfolding delta_bytes reset_writer
bytes_lem p e =
    let width = width_of (max_delta p.min_delta p.deltas 0) in
    let start : record p.bw { out = head_bytes p } ≡ behind (head_bytes p) (reset_writer []) =
      ap (λ (w : Writer). record w { out = head_bytes p }) e
      ∙ ap (λ o. record (reset_writer []) { out = o }) (sym (append-nil (head_bytes p))) in
    ap (λ w. (flush (write_deltas p.min_delta width p.deltas w)).out) start
    ∙ ap (λ w. (flush w).out)
        (write_deltas-behind (head_bytes p) p.min_delta width p.deltas (reset_writer []))
    ∙ ap (λ (w : Writer). w.out)
        (flush-behind (head_bytes p) (write_deltas p.min_delta width p.deltas (reset_writer [])))

-- The width takes every difference.
Fits-InWidth :
    (min : ℕ) (ds : List ℕ)
    → Fits min ds
    → let width = width_of (max_delta min ds 0) in (width ≤ 32) × InWidth min width ds
unfolding width_of
Fits-InWidth min ds fits =
    let (ge, lt, all) = max_delta_lem min ds 0 fits (omega arith) in
    (
      len64-le 32 (max_delta min ds 0),
      each ds fits all (lt-len64 32 (max_delta min ds 0) (omega (arith, lt))),
    )
  where
    each :
        (xs : List ℕ)
        → Fits min xs
        → All (λ d. sub32 d min ≤ max_delta min ds 0) xs
        → max_delta min ds 0 < 2 ^ len64 32 (max_delta min ds 0)
        → InWidth min (len64 32 (max_delta min ds 0)) xs
    each [] f a lt = tt
    each (x ∷ xs) f a lt = ((f.0, omega (arith, a.0, lt)), each xs f.1 a.1 lt)

reset_writer-IsHeld : IsHeld (reset_writer [])
unfolding reset_writer
reset_writer-IsHeld = record {
  some_left = omega arith;
  in_byte = omega arith;
  small = omega arith;
  clear = refl;
  bytes = tt;
}

-- The decoder on the bytes of an encoder that was given `v` and then `vs`.
module _ (v : ℕ) (vs : List ℕ) (p : DeltaEncoder) (used : DeltaDecoder) (first : p.first ≡ v)
    (deltas : p.deltas ≡ differences v vs) (bw : p.bw ≡ reset_writer []) (word : IsWord32 v)
    (words : All IsWord32 vs) (min : IsWord32 p.min_delta) (short : length vs + 1 < 2 ^ 31)
    (fits : Fits p.min_delta (differences v vs)) where
  abbrev width : ℕ
  width = width_of (max_delta p.min_delta (differences v vs) 0)

  abbrev tail : List ℕ
  tail = (flush (write_deltas p.min_delta width (differences v vs) (reset_writer []))).out

  abbrev decoder : DeltaDecoder
  decoder = record {
    sr = at (head (length vs) width p.min_delta v ++ tail) tail;
    br = reset_reader (record used.br { buf = set_buf tail used.br.buf });
    count = length vs + 1;
    pos = length vs + 1;
    width = width;
    previous = v;
    min_delta = p.min_delta;
  }

  reset_decoder : reset_delta_decoder (delta_bytes p).0 used ≡ decoder
  reset_decoder =
      let m = p.min_delta in
      let all = λ (ds : List ℕ) (f : ℕ).
        head (to_word32 (length ds)) (width_of (max_delta m ds 0) % 256) m f
        ++ (flush (write_deltas m (width_of (max_delta m ds 0)) ds (reset_writer []))).out in
      let (narrow, inw) = Fits-InWidth m (differences v vs) fits in
      let n : to_word32 (length (differences v vs)) ≡ length vs =
        omega (arith, length-differences v vs) in
      let w : width % 256 ≡ width = omega arith in
      let count : (length vs + 1) % 2 ^ 32 ≡ length vs + 1 = omega arith in
      ap (λ b. reset_delta_decoder b used)
        (bytes_lem p bw
          ∙ ap
              (λ h.
                h
                ++ (flush (
                    write_deltas m (width_of (max_delta m p.deltas 0)) p.deltas
                      (reset_writer []))).out)
              (head_bytes_lem p)
          ∙ ap (λ ds. all ds p.first) deltas
          ∙ ap (all (differences v vs)) first
          ∙ ap (λ k. head k (width % 256) m v ++ tail) n
          ∙ ap (λ k. head (length vs) k m v ++ tail) w)
      ∙ reset_lem (length vs) width m v tail used (omega arith) min word
      ∙ ap (λ c. record decoder { count = c; pos = c }) count

  decoder-At :
      (padding : List Bool) × At decoder.br
        (deltas_code p.min_delta width (differences v vs) ++ padding)
  unfolding reset_reader set_buf
  decoder-At =
      let (narrow, inw) = Fits-InWidth p.min_delta (differences v vs) fits in
      let w =
        write_deltas-Wrote p.min_delta width (differences v vs) (reset_writer []) (omega arith)
          reset_writer-IsHeld in
      let (padding, bits, small) = flush_lem _ w.held in
      (
        padding,
        subst (At decoder.br) (bits ∙ ap (λ t. t ++ padding) (w.bits_lem ∙ nothing))
            (at_start decoder.br refl refl refl small),
      )
    where
      nothing :
          written (reset_writer []) ++ deltas_code p.min_delta width (differences v vs)
          ≡ deltas_code p.min_delta width (differences v vs)
      nothing = unfold reset_writer bits_of top in refl

  read_decoder : read_values (suc (suc (length vs))) decoder ≡ some (v ∷ vs)
  unfolding read_values while_next
  read_decoder =
      let (narrow, inw) = Fits-InWidth p.min_delta (differences v vs) fits in
      let (padding, ahead) = decoder-At in
      ap (λ b. while_next b (read_values (suc (length vs)) (next decoder).1) (next decoder).0)
        (has_next_lem decoder (omega arith) (omega arith))
      ∙ ap
          (λ (r : ℕ × DeltaDecoder).
            Option.map (λ vs. r.0 ∷ vs) (read_values (suc (length vs)) r.1))
          (next_first decoder refl)
      ∙ ap (Option.map (λ vs. v ∷ vs)) (
          read_rest vs (suc (length vs)) p.min_delta width v padding
            (record decoder { pos = sub32 (length vs + 1) 1 }) (omega arith) (omega arith) min word
            words inw
            (record {
              same_min = refl;
              same_width = refl;
              same_previous = refl;
              pos_lem = omega arith;
              begun = omega arith;
              small = short;
              at = ahead;
            }))

-- The int32 values that an encoder was given come back from its bytes, on a decoder that is new or
-- was used before, where there are fewer than 2 ^ 31 of them and no difference, less the smallest
-- one, overflows to a negative int32.
pub read_values-delta_bytes :
    (v : ℕ) (vs : List ℕ) (used : DeltaDecoder)
    → All IsWord32 (v ∷ vs)
    → length vs + 1 < 2 ^ 31
    → Fits (add_all (v ∷ vs) new_delta_encoder).min_delta (differences v vs)
    → read_values
        (suc (suc (length vs)))
        (reset_delta_decoder (delta_bytes (add_all (v ∷ vs) new_delta_encoder)).0 used)
      ≡ some (v ∷ vs)
unfolding add_all add new_delta_encoder
read_values-delta_bytes v vs used words short fits =
    let begun = add v new_delta_encoder in
    let (first, deltas, bw) = add_all_lem vs begun refl in
    let p = add_all vs begun in
    let min = add_all-min vs begun (omega arith) in
    ap (read_values (suc (suc (length vs))))
      (reset_decoder v vs p used first deltas bw words.0 words.1 min short fits)
    ∙ read_decoder v vs p used first deltas bw words.0 words.1 min short fits
