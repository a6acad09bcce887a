-- ===== src/Encoding/Delta/Loop.antt =====
-- The loop of a delta decoder over the differences ahead of it.
use lindb.Base.{
  ℕ, zero, suc, ◌+◌, ◌%◌, ◌^◌, ◌<◌, ◌≤◌, ◌≡◌, ap, sym, ◌∙◌, arith, List, [], ◌∷◌, ◌++◌, Bool, true,
  false, some, append_assoc, length, All, if◌then◌else◌, ◌==◌, subst,
}
use mathlib.Core.Option
use lindb.Base.Words.{IsWord32, to_int64, to_word32}
use lindb.Bit.{read_bits}
use lindb.Bit.Words.{spell}
use lindb.Bit.Reads.{At}
use lindb.Bit.ManyBits.{Gives}
use lindb.Encoding.Xor.Blocks.{read_spell}
use lindb.Encoding.Delta.{sub32, DeltaDecoder, has_next, next}
use lindb.Encoding.Delta.Values.{differences, deltas_code, read_values, while_next}

-- A decoder behind the value `previous`, with the differences of `left` values ahead.
pub record Before (min width previous : ℕ) (left : ℕ) (bits : List Bool) (d : DeltaDecoder)
    : Type 0 where
  pub same_min : d.min_delta ≡ min
  pub same_width : d.width ≡ width
  pub same_previous : d.previous ≡ previous
  pub pos_lem : d.pos ≡ left
  pub begun : d.pos < d.count
  pub small : d.count < 2 ^ 31
  pub at : At d.br bits

-- Differences whose bits the width takes.
abbrev pub InWidth : ℕ → ℕ → List ℕ → Type 0
InWidth min width ds = All (λ d. (sub32 d min < 2 ^ 31) × (sub32 d min < 2 ^ width)) ds

pub has_next_lem : (d : DeltaDecoder) → 0 < d.pos → d.pos < 2 ^ 31 → has_next d ≡ true
unfolding has_next
has_next_lem d pos small = ground arith

-- The value that is read behind another, and the decoder behind it.
abbrev pub read_value : DeltaDecoder → ℕ
read_value d = sub32 d.previous ((to_word32 (read_bits d.width d.br).0 + d.min_delta) % 2 ^ 32)

abbrev pub after : DeltaDecoder → DeltaDecoder
after d = record d { br = (read_bits d.width d.br).2; pos = sub32 d.pos 1; previous = read_value d }

next_lem : (d : DeltaDecoder) → (d.pos == d.count) ≡ false → next d ≡ (read_value d, after d)
unfolding next
next_lem d later =
    ap
      (λ (b : Bool).
        if b then (d.previous, record d { pos = sub32 d.pos 1 }) else (read_value d, after d))
      later

sub32_back :
    (previous v : ℕ) → IsWord32 previous → IsWord32 v → sub32 previous (sub32 previous v) ≡ v
sub32_back previous v hp hv = omega arith

delta_back :
    (delta min : ℕ) → delta < 2 ^ 32 → IsWord32 min → (sub32 delta min + min) % 2 ^ 32 ≡ delta
delta_back delta min hd hm = omega arith

value_back :
    (previous v min x : ℕ) (d : DeltaDecoder)
    → IsWord32 previous
    → IsWord32 v
    → IsWord32 min
    → d.previous ≡ previous
    → d.min_delta ≡ min
    → x ≡ sub32 (sub32 previous v) min
    → sub32 d.previous ((to_word32 x + d.min_delta) % 2 ^ 32) ≡ v
value_back previous v min x d hp hv hm ep em ex =
    let narrow : to_word32 x ≡ sub32 (sub32 previous v) min = omega (arith, ex) in
    ap (λ p. sub32 p ((to_word32 x + d.min_delta) % 2 ^ 32)) ep
    ∙ ap (λ m. sub32 previous ((to_word32 x + m) % 2 ^ 32)) em
    ∙ ap (λ y. sub32 previous ((y + min) % 2 ^ 32)) narrow
    ∙ ap (sub32 previous) (delta_back (sub32 previous v) min (omega arith) hm)
    ∙ sub32_back previous v hp hv

pub read_rest :
    (vs : List ℕ) (rounds min width previous : ℕ) (padding : List Bool) (d : DeltaDecoder)
    → length vs < rounds
    → width ≤ 64
    → IsWord32 min
    → IsWord32 previous
    → All IsWord32 vs
    → InWidth min width (differences previous vs)
    → Before min width previous
        (length vs)
        (deltas_code min width (differences previous vs) ++ padding)
        d
    → read_values rounds d ≡ some vs
unfolding read_values while_next deltas_code
read_rest vs zero min width previous padding d lt le hm hp hv fits h = absurd (omega arith)
read_rest [] (suc rounds) min width previous padding d lt le hm hp hv fits h =
    ap (λ b. while_next b (read_values rounds (next d).1) (next d).0) stop
  where
    stop : has_next d ≡ false
    stop = unfold has_next in ground (arith, h.pos_lem)
read_rest (v ∷ vs) (suc rounds) min width previous padding d lt le hm hp hv fits h =
    let delta = sub32 previous v in
    let code = deltas_code min width (differences v vs) in
    let x = to_int64 (sub32 delta min) in
    let small : x ≡ sub32 delta min = ground (arith, fits.0) in
    let ahead = subst (At d.br) (append_assoc (spell width x) code padding) h.at in
    let g =
      read_spell width x d.br (code ++ padding) le (subst (λ t. t < 2 ^ width) (sym small) fits.0.1)
        ahead in
    let g' = subst (λ w. Gives x (code ++ padding) (read_bits w d.br)) (sym h.same_width) g in
    let more : has_next d ≡ true =
      has_next_lem d (omega (arith, h.pos_lem)) (omega (arith, h.begun, h.small)) in
    let step = next_lem d (ground (arith, h.begun)) in
    let back =
      value_back previous v min (read_bits d.width d.br).0 d hp hv.0 hm h.same_previous h.same_min
        (g'.result ∙ small) in
    ap (λ b. while_next b (read_values rounds (next d).1) (next d).0) more
    ∙ ap (λ (r : ℕ × DeltaDecoder). Option.map (λ vs. r.0 ∷ vs) (read_values rounds r.1)) step
    ∙ ap (λ u. Option.map (λ vs. u ∷ vs) (read_values rounds (after d))) back
    ∙ ap (Option.map (λ vs. v ∷ vs)) (
        read_rest vs rounds min width v padding (after d) (omega arith) le hm hv.0 hv.1 fits.1
          (record {
            same_min = h.same_min;
            same_width = h.same_width;
            same_previous = back;
            pos_lem = omega (arith, h.pos_lem, h.begun, h.small);
            begun = omega (arith, h.pos_lem, h.begun, h.small);
            small = h.small;
            at = g'.at;
          }))
