-- ===== src/Encoding/Delta/Values.antt =====
-- The values that go through the delta encoder, and the bits of their differences.
use lindb.Base.{
  ℕ, zero, suc, ◌^◌, ◌<◌, ◌≤◌, ◌≡◌, refl, ap, sym, ◌∙◌, arith, List, [], ◌∷◌, ◌++◌, Bool, true,
  false, Option, some, none, append_assoc, append-nil, All, if◌then◌else◌,
}
use mathlib.Core.Option
use lindb.Base.Words.{IsWord32, to_int64, lt32}
use lindb.Bit.{Writer}
use lindb.Bit.Words.{spell}
use lindb.Bit.Writes.{IsHeld}
use lindb.Encoding.Xor.Code.{Wrote, Wrote-bits, Wrote-trans}
use lindb.Encoding.Delta.{
  sub32, DeltaEncoder, add, max_delta, write_deltas, DeltaDecoder, has_next, next,
}

unfoldable pub add_all : List ℕ → DeltaEncoder → DeltaEncoder
add_all [] p = p
add_all (v ∷ vs) p = add_all vs (add v p)

-- The differences of `vs` from `previous` on.
abbrev pub differences : ℕ → List ℕ → List ℕ
differences previous [] = []
differences previous (v ∷ vs) = sub32 previous v ∷ differences v vs

add_known :
    (v : ℕ) (p : DeltaEncoder)
    → p.has_first ≡ true
    → add v p ≡ record p {
      deltas = p.deltas ++ sub32 p.previous v ∷ [];
      min_delta = if lt32 (sub32 p.previous v) p.min_delta then sub32 p.previous v else p.min_delta;
      previous = v;
    }
unfolding add
add_known v p h =
    ap
      (λ (f : Bool).
        if f
        then record p {
          deltas = p.deltas ++ sub32 p.previous v ∷ [];
          min_delta =
              if lt32 (sub32 p.previous v) p.min_delta then sub32 p.previous v else p.min_delta;
          previous = v;
        }
        else record p { has_first = true; first = v; previous = v })
      h

-- What the encoder keeps of the values behind the first.
pub add_all_lem :
    (vs : List ℕ) (p : DeltaEncoder)
    → p.has_first ≡ true
    → ((add_all vs p).first ≡ p.first)
      × ((add_all vs p).deltas ≡ p.deltas ++ differences p.previous vs)
      × ((add_all vs p).bw ≡ p.bw)
unfolding add_all
add_all_lem [] p h = (refl, sym (append-nil p.deltas), refl)
add_all_lem (v ∷ vs) p h =
    let (first, begun, deltas, previous, bw) = add_lem in
    let (f, d, b) = add_all_lem vs (add v p) begun in
    (
      f ∙ first,
      d
          ∙ ap (λ (t : List ℕ). t ++ differences (add v p).previous vs) deltas
          ∙ ap (λ q. (p.deltas ++ sub32 p.previous v ∷ []) ++ differences q vs) previous
          ∙ append_assoc p.deltas (sub32 p.previous v ∷ []) (differences v vs),
      b ∙ bw,
    )
  where
    add_lem :
        ((add v p).first ≡ p.first)
        × ((add v p).has_first ≡ true)
        × ((add v p).deltas ≡ p.deltas ++ sub32 p.previous v ∷ [])
        × ((add v p).previous ≡ v)
        × ((add v p).bw ≡ p.bw)
    add_lem =
        let e = add_known v p h in
        (
          ap (λ (q : DeltaEncoder). q.first) e,
          ap (λ (q : DeltaEncoder). q.has_first) e ∙ h,
          ap (λ (q : DeltaEncoder). q.deltas) e,
          ap (λ (q : DeltaEncoder). q.previous) e,
          ap (λ (q : DeltaEncoder). q.bw) e,
        )

pub add_all-min :
    (vs : List ℕ) (p : DeltaEncoder) → IsWord32 p.min_delta → IsWord32 (add_all vs p).min_delta
unfolding add_all
add_all-min [] p h = h
add_all-min (v ∷ vs) p h = add_all-min vs (add v p) add-min
  where
    add-min : IsWord32 (add v p).min_delta
    add-min = unfold add in ground (arith, h)

-- No difference less the smallest one is negative as an int32.
abbrev pub Fits : ℕ → List ℕ → Type 0
Fits min_delta ds = All (λ d. sub32 d min_delta < 2 ^ 31) ds

pub max_delta_lem :
    (min_delta : ℕ) (ds : List ℕ) (max : ℕ)
    → Fits min_delta ds
    → max < 2 ^ 31
    → (max ≤ max_delta min_delta ds max)
      × (max_delta min_delta ds max < 2 ^ 31)
      × All (λ d. sub32 d min_delta ≤ max_delta min_delta ds max) ds
unfolding max_delta
max_delta_lem min_delta [] max fits small = (omega arith, small, tt)
max_delta_lem min_delta (d ∷ ds) max fits small =
    let next = if lt32 max (sub32 d min_delta) then sub32 d min_delta else max in
    let (le, lt, all) = max_delta_lem min_delta ds next fits.1 (ground (arith, fits)) in
    (ground (arith, le, fits), lt, (ground (arith, le, fits), all))

unfoldable pub deltas_code : ℕ → ℕ → List ℕ → List Bool
deltas_code min_delta width [] = []
deltas_code min_delta width (d ∷ ds) =
    spell width (to_int64 (sub32 d min_delta)) ++ deltas_code min_delta width ds

pub write_deltas-Wrote :
    (min_delta width : ℕ) (ds : List ℕ) (w : Writer)
    → width ≤ 64
    → IsHeld w
    → Wrote w (write_deltas min_delta width ds w) (deltas_code min_delta width ds)
unfolding write_deltas deltas_code
write_deltas-Wrote min_delta width [] w le h = record { bits_lem = sym (append-nil _); held = h }
write_deltas-Wrote min_delta width (d ∷ ds) w le h =
    let a = Wrote-bits (to_int64 (sub32 d min_delta)) width w le h in
    Wrote-trans a (write_deltas-Wrote min_delta width ds _ le a.held)

-- `for d.HasNext() { d.Next() }`, with the values; `none` means that the fuel ran out.
unfoldable pub while_next : Bool → Option (List ℕ) → ℕ → Option (List ℕ)
while_next true rest v = Option.map (λ vs. v ∷ vs) rest
while_next false rest v = some []

unfoldable pub read_values : ℕ → DeltaDecoder → Option (List ℕ)
unfolding while_next
read_values zero d = none
read_values (suc rounds) d = while_next (has_next d) (read_values rounds (next d).1) (next d).0
