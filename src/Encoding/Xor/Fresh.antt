-- ===== src/Encoding/Xor/Fresh.antt =====
-- What an XOR encoder costs that was made and not reset.
use lindb.Base.{
  ℕ, ◌+◌, ◌-◌, ◌*◌, ◌%◌, ◌^◌, ◌≡◌, ◌≢◌, refl, sym, ap, subst, append-nil, ◌∙◌, arith, List, [], ◌∷◌,
  ◌++◌, Bool, true, false, length, length-append, bit_xor, ◌==◌, Bool-cases, inl, inr,
}
use lindb.Bit.{Writer}
use lindb.Bit.Writes.{IsHeld, written}
use lindb.Bit.Words.{spell, length-top_word}
use lindb.Encoding.Xor.{XorEncoder, write, new_xor_encoder}
use lindb.Encoding.Xor.Digits.{eq_of_bit_xor-zero}
use lindb.Encoding.Xor.Code.{
  reuses, block_code, code, code_lem, write_lem, Wrote, Wrote-trans, write-Wrote,
}
use lindb.Encoding.Xor.RoundTrip.{write_block_first, write_block_reused}

-- The bits of values that are written one after the other.
unfoldable pub codes : List ℕ → XorEncoder → List Bool
codes [] e = []
codes (v ∷ vs) e = code v e ++ codes vs (write v e)

-- Each value differs from the one before.
abbrev pub Changes : ℕ → List ℕ → Type 0
Changes u [] = Unit {0}
Changes u (v ∷ vs) = (v ≢ u) × Changes v vs

-- The place is the whole word.
record Whole (u : ℕ) (e : XorEncoder) : Type 0 where
  pub leads : e.leading ≡ 0
  pub trails : e.trailing ≡ 0
  pub begun : e.first ≡ false
  pub before : e.previous_val ≡ u

module _ (u v : ℕ) (e : XorEncoder) (h : Whole u e) (differs : v ≢ u) where
  other : (bit_xor v e.previous_val == 0) ≡ false
  other = elim (Bool-cases (bit_xor v e.previous_val == 0)) [
    | inl same ↦ absurd (differs (eq_of_bit_xor-zero e.previous_val v (ground arith) ∙ h.before))
    | inr apart ↦ apart
  ]

  falls_in : reuses (bit_xor v e.previous_val) e ≡ true
  falls_in = ground (arith, h.leads, h.trails)

  length-code : length (code v e) ≡ 66
  unfolding block_code
  length-code =
      let n : 64 - e.leading - e.trailing ≡ 64 = omega (arith, h.leads, h.trails) in
      rw (code_lem v e false h.begun, other, falls_in)
        (omega (arith, length-top_word (64 - e.leading - e.trailing) _, n))

  write-Whole : Whole v (write v e)
  write-Whole =
      let (lead, trail) = write_block_reused (bit_xor v e.previous_val) e falls_in in
      rw (write_lem v e false h.begun, other)
        (record {
          leads = lead ∙ h.leads;
          trails = trail ∙ h.trails;
          begun = write_block_first (bit_xor v e.previous_val) e ∙ h.begun;
          before = refl;
        })

length-codes :
    (vs : List ℕ) (u : ℕ) (e : XorEncoder)
    → Whole u e
    → Changes u vs
    → length (codes vs e) ≡ 66 * length vs
unfolding codes
length-codes [] u e h c = omega arith
length-codes (v ∷ vs) u e h c = omega (
  arith,
  length-append (code v e) (codes vs (write v e)),
  length-code u v e h c.0,
  length-codes vs v (write v e) (write-Whole u v e h c.0) c.1,
)

-- The encoder behind values that it writes one after the other.
unfoldable pub write_all : List ℕ → XorEncoder → XorEncoder
write_all [] e = e
write_all (v ∷ vs) e = write_all vs (write v e)

write_all-Wrote :
    (vs : List ℕ) (e : XorEncoder) → IsHeld e.bw → Wrote e.bw (write_all vs e).bw (codes vs e)
unfolding write_all codes
write_all-Wrote [] e h = record { bits_lem = sym (append-nil _); held = h }
write_all-Wrote (v ∷ vs) e h =
    let one = write-Wrote v e h in Wrote-trans one (write_all-Wrote vs (write v e) one.held)

length-codes_new :
    (v : ℕ) (vs : List ℕ) (bw : Writer)
    → Changes v vs
    → length (codes (v ∷ vs) (new_xor_encoder bw)) ≡ 64 + 66 * length vs
unfolding codes code new_xor_encoder write
length-codes_new v vs bw c = omega (
  arith,
  length-append (spell 64 v) (codes vs (write v (new_xor_encoder bw))),
  length-top_word 64 (v * 2 ^ (64 - 64) % 2 ^ 64),
  length-codes vs v (write v (new_xor_encoder bw))
      (record { leads = refl; trails = refl; begun = refl; before = refl }) c,
)

new_encoder-bw : (bw : Writer) → (new_xor_encoder bw).bw ≡ bw
unfolding new_xor_encoder
new_encoder-bw bw = refl

-- An encoder that was made on a writer and not reset compresses nothing: of values that all differ
-- from the one before, the first adds 64 bits to those of the writer and each other one 66, whatever
-- the values are.
pub length-written_new :
    (v : ℕ) (vs : List ℕ) (bw : Writer)
    → IsHeld bw
    → Changes v vs
    → length (written (write_all (v ∷ vs) (new_xor_encoder bw)).bw)
      ≡ length (written bw) + (64 + 66 * length vs)
length-written_new v vs bw h c =
    let same = new_encoder-bw bw in
    let all = write_all-Wrote (v ∷ vs) (new_xor_encoder bw) (subst IsHeld (sym same) h) in
    omega (
      arith,
      ap length all.bits_lem,
      length-append (written (new_xor_encoder bw).bw) (codes (v ∷ vs) (new_xor_encoder bw)),
      ap (λ w. length (written w)) same,
      length-codes_new v vs bw c,
    )
