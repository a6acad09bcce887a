-- ===== src/Stream/Varint.antt =====
-- The varints of pkg/stream: what a writer put is read back, with whatever follows it.
use native.Mathlib.Numerals.{towards_suc}
use native.Mathlib.Decide.{dec_lt}
use lindb.Base.{
  length, ℕ, zero, suc, ◌+◌, ◌*◌, ◌/◌, ◌%◌, ◌^◌, ◌≤◌, ◌<◌, ◌≡◌, refl, ap, ◌∙◌, List, [], ◌∷◌, ◌++◌,
  none, arith,
}
use lindb.Base.Bits.{bit_or_above, low_seven, top_bit}
use lindb.Base.Words.{IsWord32, IsWord64, to_int64, to_word32-to_int64, to_int64-lt}
use lindb.Stream.Writer.{
  Writer, uvarint, zigzag, put_bytes, put_uvarint64, put_uvarint32, put_varint64, put_varint32,
}
use lindb.Stream.Reader.{
  Reader, read_uvarint_loop, read_uvarint, unzigzag, read_uvarint64, read_uvarint32, read_varint64,
  read_varint32,
}

shift_seven : (s : ℕ) → 2 ^ (s + 7) ≡ 128 * 2 ^ s
shift_seven s = simp towards_suc (omega arith)

-- A last byte ends the loop, and one with the top bit set adds seven bits.
read_last :
    (b i x s : ℕ) (rest : List ℕ)
    → b < 0x80
    → i ≤ 9
    → (i ≡ 9 → b ≤ 1)
    → x < 2 ^ s
    → b * 2 ^ s < 2 ^ 64
    → read_uvarint_loop (b ∷ rest) i x s ≡ (x + b * 2 ^ s, none, rest)
unfolding read_uvarint_loop
read_last b i x s rest hb hi h9 hx hf = ground (arith, bit_or_above s x b)

read_inner :
    (g i x s : ℕ) (rest : List ℕ)
    → g < 128
    → x < 2 ^ s
    → g * 2 ^ s < 2 ^ 64
    → read_uvarint_loop ((g + 128) ∷ rest) i x s
      ≡ read_uvarint_loop rest (i + 1) (x + g * 2 ^ s) (s + 7)
unfolding read_uvarint_loop
read_inner g i x s rest hg hx hf = ground (arith, low_seven (g + 128), bit_or_above s x g)

-- The lowest group of `w` and the rest, both from bit `s` on.
split_group : (w s : ℕ) → w * 2 ^ s ≡ w % 128 * 2 ^ s + w / 128 * 2 ^ (s + 7)
split_group w s =
    let whole : w / 128 * 128 + w % 128 ≡ w = omega arith in
    omega (arith, ap (λ (v : ℕ). v * 2 ^ s) whole, ap (λ (v : ℕ). w / 128 * v) (shift_seven s))

-- The tenth byte holds one bit.
tenth_byte : (w i s : ℕ) → s ≡ 7 * i → w * 2 ^ s < 2 ^ 64 → i ≡ 9 → w ≤ 1
tenth_byte w i s hs hf h9 = let e : s ≡ 63 = omega arith in omega (arith, rw e at hf)

group_fits : (w s : ℕ) → w * 2 ^ s < 2 ^ 64 → w % 128 * 2 ^ s < 2 ^ 64
group_fits w s h = omega (arith, split_group w s)

group_below : (x w s : ℕ) → x < 2 ^ s → x + w % 128 * 2 ^ s < 2 ^ (s + 7)
group_below x w s h = rw shift_seven (grind arith)

pub uvarint_last : (room w : ℕ) → w < 128 → uvarint (suc room) w ≡ w ∷ []
unfolding uvarint
uvarint_last room w h = ground arith

pub uvarint_more :
    (room w : ℕ) → 128 ≤ w → uvarint (suc room) w ≡ (w % 128 + 128) ∷ uvarint room (w / 128)
unfolding uvarint
uvarint_more room w h = ground (arith, top_bit (w % 256))

pub length-uvarint : (room w : ℕ) → length (uvarint room w) ≤ room
unfolding uvarint
length-uvarint zero w = omega arith
length-uvarint (suc room) w = ground (arith, length-uvarint room (w / 128))

-- The loop reads what `uvarint` wrote, wherever it stands in the number.
read_loop-uvarint :
    (room w i x s : ℕ) (rest : List ℕ)
    → i + room ≡ 9
    → s ≡ 7 * i
    → x < 2 ^ s
    → x + w * 2 ^ s < 2 ^ 64
    → read_uvarint_loop (uvarint (suc room) w ++ rest) i x s ≡ (x + w * 2 ^ s, none, rest)
read_loop-uvarint zero w i x s rest hi hs hx hf =
    let small : w ≤ 1 = tenth_byte w i s hs (omega arith) (omega arith) in
    rw (uvarint_last 0 w (omega arith))
      (read_last w i x s rest (omega arith) (omega arith) (λ _. small) hx (omega arith))
read_loop-uvarint (suc room) w i x s rest hi hs hx hf = elim (dec_lt w 128) [
  | yes small ↦
      rw (uvarint_last (suc room) w small)
        (read_last w i x s rest small (omega arith) (λ e. absurd (omega arith)) hx (omega arith))
  | no large ↦ rw (uvarint_more (suc room) w (omega arith)) (
      read_inner (w % 128) i x s _ (omega arith) hx (group_fits w s (omega arith))
      ∙ read_loop-uvarint room (w / 128) (i + 1) _ (s + 7) rest (omega arith) (omega arith)
          (group_below x w s hx) (omega (arith, split_group w s))
      ∙ ap (λ (t : ℕ). (t, none, rest)) (omega (arith, split_group w s)))
]

-- A uint64 is read back, and the reader stands behind it with no error.
pub read_uvarint-uvarint :
    (v : ℕ) (rest : List ℕ) → IsWord64 v → read_uvarint (uvarint 10 v ++ rest) ≡ (v, none, rest)
unfolding read_uvarint
read_uvarint-uvarint v rest h =
    read_loop-uvarint 9 v 0 0 0 rest refl refl (omega arith) (omega arith)
    ∙ ap (λ (t : ℕ). (t, none, rest)) (omega arith)

-- Folding the sign into the lowest bit loses nothing.
pub zigzag-lt : (x : ℕ) → IsWord64 x → IsWord64 (zigzag x)
unfolding zigzag
zigzag-lt x h = ground arith

pub unzigzag-zigzag : (x : ℕ) → IsWord64 x → unzigzag (zigzag x) ≡ x
unfolding zigzag unzigzag
unzigzag-zigzag x h = ground arith

-- What each `Put` appends.
abbrev pub uvarint64 : ℕ → List ℕ
uvarint64 v = uvarint 10 v

abbrev pub varint64 : ℕ → List ℕ
varint64 v = uvarint 10 (zigzag v)

abbrev pub varint32 : ℕ → List ℕ
varint32 v = uvarint 10 (zigzag (to_int64 v))

pub put_uvarint64_lem :
    (v : ℕ) (w : Writer) → put_uvarint64 v w ≡ record { buf = w.buf ++ uvarint64 v; err = none }
unfolding put_uvarint64 put_bytes
put_uvarint64_lem v w = refl

pub put_uvarint32_lem :
    (v : ℕ) (w : Writer) → put_uvarint32 v w ≡ record { buf = w.buf ++ uvarint64 v; err = none }
unfolding put_uvarint32 put_uvarint64 put_bytes
put_uvarint32_lem v w = refl

pub put_varint64_lem :
    (v : ℕ) (w : Writer) → put_varint64 v w ≡ record { buf = w.buf ++ varint64 v; err = none }
unfolding put_varint64 put_bytes
put_varint64_lem v w = refl

pub put_varint32_lem :
    (v : ℕ) (w : Writer) → put_varint32 v w ≡ record { buf = w.buf ++ varint32 v; err = none }
unfolding put_varint32 put_varint64 put_bytes
put_varint32_lem v w = refl

pub ruleset puts = (put_uvarint64_lem, put_uvarint32_lem, put_varint64_lem, put_varint32_lem)

-- A reader that stands before `front ++ rest`, and the same reader behind `front`, with no error.
abbrev pub before : Reader → List ℕ → List ℕ → Reader
before r front rest = record r { rest = front ++ rest }

abbrev pub behind : Reader → List ℕ → Reader
behind r rest = record r { rest = rest; err = none }

module _ (v : ℕ) (r : Reader) (rest : List ℕ) where
  pub read_uvarint64_lem :
      IsWord64 v → read_uvarint64 (before r (uvarint64 v) rest) ≡ (v, behind r rest)
  unfolding read_uvarint64
  read_uvarint64_lem h = rw (read_uvarint-uvarint v rest h)

  pub read_uvarint32_lem :
      IsWord32 v → read_uvarint32 (before r (uvarint64 v) rest) ≡ (v, behind r rest)
  unfolding read_uvarint32
  read_uvarint32_lem h =
      rw (read_uvarint64_lem (omega arith)) (ap (λ (t : ℕ). (t, behind r rest)) (omega arith))

  pub read_varint64_lem :
      IsWord64 v → read_varint64 (before r (varint64 v) rest) ≡ (v, behind r rest)
  unfolding read_varint64 read_uvarint64
  read_varint64_lem h =
      rw (read_uvarint-uvarint (zigzag v) rest (zigzag-lt v h))
        (ap (λ (t : ℕ). (t, behind r rest)) (unzigzag-zigzag v h))

pub read_varint32_lem :
    (v : ℕ) (r : Reader) (rest : List ℕ)
    → IsWord32 v
    → read_varint32 (before r (varint32 v) rest) ≡ (v, behind r rest)
unfolding read_varint32
read_varint32_lem v r rest h =
    rw (read_varint64_lem (to_int64 v) r rest (to_int64-lt v h))
      (ap (λ (t : ℕ). (t, behind r rest)) (to_word32-to_int64 v h))
