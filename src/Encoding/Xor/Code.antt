-- ===== src/Encoding/Xor/Code.antt =====
-- The bits that the XOR encoder writes for a value.
use lindb.Base.{
  ℕ, ◌-◌, ◌/◌, ◌^◌, ◌≤◌, ◌≡◌, refl, ap, ◌∙◌, bit_xor, arith, leb, ◌==◌, ◌&&◌, Bool, Bool-cases, inl,
  inr, true, false, if◌then◌else◌, List, [], ◌∷◌, ◌++◌, append_assoc, subst,
}
use lindb.Bit.{Writer, write_bit, write_bits}
use lindb.Bit.Writes.{written, IsHeld, write_bit-IsHeld, written-write_bit, write_bits-spell}
use lindb.Bit.Words.{spell}
use lindb.Encoding.Xor.{XorEncoder, write, write_block, leading_zeros64, trailing_zeros64}

-- The place of the block before serves again.
abbrev pub reuses : ℕ → XorEncoder → Bool
reuses delta e = leb e.leading (leading_zeros64 delta) && leb e.trailing (trailing_zeros64 delta)

abbrev pub size_of : ℕ → ℕ
size_of delta = 64 - leading_zeros64 delta - trailing_zeros64 delta

abbrev pub reused : ℕ → XorEncoder → List Bool
reused delta e = spell (64 - e.leading - e.trailing) (delta / 2 ^ e.trailing)

abbrev pub placed : ℕ → List Bool
placed delta =
    spell 6 (leading_zeros64 delta)
    ++ (spell 6 (size_of delta - 1) ++ spell (size_of delta) (delta / 2 ^ trailing_zeros64 delta))

unfoldable pub block_code : ℕ → XorEncoder → List Bool
block_code delta e =
    if reuses delta e then true ∷ true ∷ reused delta e else true ∷ false ∷ placed delta

unfoldable pub code : ℕ → XorEncoder → List Bool
code v e =
    if e.first
    then spell 64 v
    else if bit_xor v e.previous_val == 0
    then false ∷ []
    else block_code (bit_xor v e.previous_val) e

-- A writer that has written `bits` more.
pub record Wrote (w w' : Writer) (bits : List Bool) : Type 0 where
  pub bits_lem : written w' ≡ written w ++ bits
  pub held : IsHeld w'

pub Wrote-bit : (bit : Bool) (w : Writer) → IsHeld w → Wrote w (write_bit bit w) (bit ∷ [])
Wrote-bit bit w h = record { bits_lem = written-write_bit bit w h; held = write_bit-IsHeld bit w h }

pub Wrote-bits : (u n : ℕ) (w : Writer) → n ≤ 64 → IsHeld w → Wrote w (write_bits u n w) (spell n u)
Wrote-bits u n w le h =
    let (e, k) = write_bits-spell n u w le h in record { bits_lem = e; held = k }

pub Wrote-trans :
    {u v w : Writer} {xs ys : List Bool} → Wrote u v xs → Wrote v w ys → Wrote u w (xs ++ ys)
Wrote-trans {u} {v} {w} {xs} {ys} a b = record {
  bits_lem = b.bits_lem ∙ ap (λ t. t ++ ys) a.bits_lem ∙ append_assoc (written u) xs ys;
  held = b.held;
}

block-Wrote :
    (delta : ℕ) (e : XorEncoder)
    → IsHeld e.bw
    → Wrote e.bw (write_block delta e).bw (block_code delta e)
unfolding write_block block_code
block-Wrote delta e h =
    let one = Wrote-bit true e.bw h in
    elim (Bool-cases (reuses delta e)) [
      | inl again ↦ rw again (
          Wrote-trans one (
            Wrote-trans (Wrote-bit true _ one.held) (
              Wrote-bits (delta / 2 ^ e.trailing) (64 - e.leading - e.trailing) _ (omega arith)
                (Wrote-bit true _ one.held).held)))
      | inr new ↦
          let two = Wrote-bit false (write_bit true e.bw) one.held in
          let lead = Wrote-bits (leading_zeros64 delta) 6 _ (omega arith) two.held in
          let size = Wrote-bits (size_of delta - 1) 6 _ (omega arith) lead.held in
          let block =
            Wrote-bits (delta / 2 ^ trailing_zeros64 delta) (size_of delta) _ (omega arith)
              size.held in
          rw new (Wrote-trans one (Wrote-trans two (Wrote-trans lead (Wrote-trans size block))))
    ]

-- `write` and its code where it is known whether a first value was written.
module _ (v : ℕ) (e : XorEncoder) (f : Bool) (known : e.first ≡ f) where
  abbrev delta : ℕ
  delta = bit_xor v e.previous_val

  pub write_lem : write v e ≡ (
      if f
      then record e { first = false; previous_val = v; bw = write_bits v 64 e.bw }
      else if delta == 0
      then record e { bw = write_bit false e.bw; previous_val = v }
      else record (write_block delta e) { previous_val = v })
  unfolding write
  write_lem =
      subst
        (λ f. write v e ≡ (
          if f
          then record e { first = false; previous_val = v; bw = write_bits v 64 e.bw }
          else if delta == 0
          then record e { bw = write_bit false e.bw; previous_val = v }
          else record (write_block delta e) { previous_val = v }))
        known refl

  pub code_lem :
      code v e ≡ (if f then spell 64 v else if delta == 0 then false ∷ [] else block_code delta e)
  unfolding code
  code_lem =
      subst
        (λ f.
          code v e
          ≡ (if f then spell 64 v else if delta == 0 then false ∷ [] else block_code delta e))
        known refl

pub write-Wrote : (v : ℕ) (e : XorEncoder) → IsHeld e.bw → Wrote e.bw (write v e).bw (code v e)
write-Wrote v e h = elim (Bool-cases e.first) [
  | inl first ↦
      rw (write_lem v e true first, code_lem v e true first) (Wrote-bits v 64 e.bw (omega arith) h)
  | inr later ↦
      rw (write_lem v e false later, code_lem v e false later)
        (elim (Bool-cases (bit_xor v e.previous_val == 0)) [
          | inl same ↦ rw same (Wrote-bit false e.bw h)
          | inr other ↦ rw other (block-Wrote (bit_xor v e.previous_val) e h)
        ])
]
