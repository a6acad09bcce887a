-- ===== src/Encoding/Xor/RoundTrip.antt =====
-- The XOR decoder gives back the values that the encoder wrote.
use lindb.Base.{
  ℕ, ◌+◌, ◌-◌, ◌/◌, ◌%◌, ◌^◌, ◌<◌, ◌≤◌, ◌≡◌, refl, ap, sym, ◌∙◌, bit_xor, arith, ◌==◌, Bool,
  Bool-cases, inl, inr, ◌⊎◌, true, false, List, ◌∷◌, ◌++◌, none, subst,
}
use lindb.Bit.{Reader, read_bit}
use lindb.Bit.Writes.{IsHeld}
use lindb.Bit.Reads.{At, read_bit_lem}
use lindb.Bit.Words.{spell}
use lindb.Encoding.Xor.{
  XorEncoder, XorDecoder, write, write_block, leading_zeros64, trailing_zeros64, next, next_from,
  read_delta, read_block,
}
use lindb.Encoding.Xor.Digits.{eq_of_bit_xor-zero, bit_xor-lt, zeros-lt, block-fits}
use lindb.Encoding.Xor.Code.{
  reuses, reused, placed, block_code, code, code_lem, write_lem, write-Wrote,
}
use lindb.Encoding.Xor.Blocks.{Went, read_spell, read_block_lem, read_place_lem}

abbrev SamePlace : XorEncoder → XorDecoder → Type 0
SamePlace e d = (e.leading ≡ d.leading) × (e.trailing ≡ d.trailing) × (d.leading + d.trailing < 64)

-- An encoder and a decoder that have handled the same values. After a reset the encoder's place
-- is none that a XOR falls into, and the decoder's does not matter.
pub record Pairs (e : XorEncoder) (d : XorDecoder) : Type 0 where
  pub previous : e.previous_val ≡ d.val
  pub word : e.previous_val < 2 ^ 64
  pub same_first : e.first ≡ d.first
  pub fine : d.err ≡ none
  pub held : IsHeld e.bw
  pub place : (e.leading ≡ 255) ⊎ SamePlace e d

pub moved :
    {e : XorEncoder} {d : XorDecoder} (br : Reader) → Pairs e d → Pairs e (record d { br = br })
moved br h = record {
  previous = h.previous;
  word = h.word;
  same_first = h.same_first;
  fine = h.fine;
  held = h.held;
  place = h.place;
}

place_of :
    {v l t l' t' : ℕ} {xs : List Bool} (res : Bool × XorDecoder)
    → l' ≡ l
    → t' ≡ t
    → Went v l t xs res
    → Went v l' t' xs res
place_of {v} {l} {t} {l'} {t'} {xs} res el et w =
    subst (λ l. Went v l t' xs res) (sym el) (subst (λ t. Went v l t xs res) (sym et) w)

-- Behind the bit that tells a new value.
module _ (v : ℕ) (e : XorEncoder) (d : XorDecoder) (xs : List Bool) (h : Pairs e d)
    (wide : v < 2 ^ 64) (begun : d.first ≡ false)
    (differs : (bit_xor v e.previous_val == 0) ≡ false) where
  abbrev delta : ℕ
  delta = bit_xor v e.previous_val

  delta-pos : 0 < delta
  delta-pos = ground arith

  delta-word : delta < 2 ^ 64
  delta-word = bit_xor-lt 64 v e.previous_val wide h.word

  same_delta : delta ≡ bit_xor v d.val
  same_delta = ap (bit_xor v) h.previous

  read_reused :
      SamePlace e d
      → reuses delta e ≡ true
      → At d.br (true ∷ (reused delta e ++ xs))
      → Went v d.leading d.trailing xs (read_delta d)
  unfolding read_delta
  read_reused (lead, trail, fits) again at =
      let (bit, fine, at') = read_bit_lem d.br true _ at in
      let hl : e.leading ≤ leading_zeros64 delta = ground (arith, again) in
      let ht : e.trailing ≤ trailing_zeros64 delta = ground (arith, again) in
      let (small, whole) = block-fits delta delta-pos delta-word e.leading e.trailing hl ht in
      let n : (64 + 2 ^ 64 + 2 ^ 64 - d.leading - d.trailing) % 2 ^ 64
          ≡ 64 - e.leading - e.trailing =
        omega arith in
      let d' = record d { br = (read_bit d.br).2 } in
      rw (fine, read_delta)
        (rw bit (
          subst (λ n. Went v d.leading d.trailing xs (read_block n d')) (sym n)
            (read_block_lem (64 - e.leading - e.trailing) (delta / 2 ^ e.trailing) e.trailing v d'
              xs (omega arith) small (sym trail) (omega arith) (whole ∙ same_delta)
              (subst (λ t. t < 2 ^ 64) same_delta delta-word) begun h.fine at')))

  read_new :
      At d.br (false ∷ (placed delta ++ xs))
      → Went v (leading_zeros64 delta) (trailing_zeros64 delta) xs (read_delta d)
  unfolding read_delta
  read_new at =
      let (bit, fine, at') = read_bit_lem d.br false _ at in
      rw (fine, read_delta)
        (rw bit (
          read_place_lem delta v (record d { br = (read_bit d.br).2 }) xs delta-pos delta-word
            same_delta begun h.fine at'))

-- The place that a block is written at.
module _ (x : ℕ) (e : XorEncoder) where
  pub write_block_first : (write_block x e).first ≡ e.first
  unfolding write_block
  write_block_first = elim (Bool-cases (reuses x e)) [ inl again ↦ rw again | inr new ↦ rw new ]

  pub write_block_reused :
      reuses x e ≡ true
      → ((write_block x e).leading ≡ e.leading) × ((write_block x e).trailing ≡ e.trailing)
  unfolding write_block
  write_block_reused again = rw again (refl, refl)

  write_block_new :
      reuses x e ≡ false
      → ((write_block x e).leading ≡ leading_zeros64 x)
        × ((write_block x e).trailing ≡ trailing_zeros64 x)
  unfolding write_block
  write_block_new new = rw new (refl, refl)

next_lem : (d : XorDecoder) (f : Bool) → d.err ≡ none → d.first ≡ f → next d ≡ next_from none f d
unfolding next
next_lem d f fine known = ap (λ e. next_from e d.first d) fine ∙ ap (λ f. next_from none f d) known

pub record NextLem (v : ℕ) (e : XorEncoder) (xs : List Bool) (res : Bool × XorDecoder)
    : Type 0 where
  pub more : res.0 ≡ true
  pub value : res.1.val ≡ v
  pub at : At res.1.br xs
  pub pairs : Pairs (write v e) res.1

module _ (v : ℕ) (e : XorEncoder) (d : XorDecoder) (xs : List Bool) (h : Pairs e d)
    (wide : v < 2 ^ 64) where
  next_first : e.first ≡ true → At d.br (spell 64 v ++ xs) → NextLem v e xs (next d)
  unfolding next_from
  next_first first at =
      let g = read_spell 64 v d.br xs (omega arith) wide at in
      rw (next_lem d true h.fine (sym h.same_first ∙ first)) (record {
        more = refl;
        value = g.result;
        at = g.at;
        pairs = rw (write_lem v e true first) (record {
          previous = sym g.result;
          word = wide;
          same_first = refl;
          fine = g.fine;
          held = subst (λ e. IsHeld e.bw) (write_lem v e true first) (write-Wrote v e h.held).held;
          place = h.place;
        });
      })

  module _ (later : e.first ≡ false) where
    begun : d.first ≡ false
    begun = sym h.same_first ∙ later

    next_same :
        (bit_xor v e.previous_val == 0) ≡ true → At d.br (false ∷ xs) → NextLem v e xs (next d)
    unfolding next_from
    next_same same at =
        let (bit, fine, at') = read_bit_lem d.br false xs at in
        let eq : v ≡ e.previous_val = eq_of_bit_xor-zero e.previous_val v (ground arith) in
        let lem = write_lem v e false later in
        rw (next_lem d false h.fine begun) (
          rw (fine, next_from)
            (rw bit (record {
              more = refl;
              value = sym h.previous ∙ sym eq;
              at = at';
              pairs =
                  rw (lem, same)
                    (record {
                      previous = eq ∙ h.previous;
                      word = wide;
                      same_first = h.same_first;
                      fine = h.fine;
                      held =
                          subst (λ e. IsHeld e.bw) (rw same at lem) (write-Wrote v e h.held).held;
                      place = h.place;
                    });
            })))

    module _ (other : (bit_xor v e.previous_val == 0) ≡ false) where
      abbrev x : ℕ
      x = bit_xor v e.previous_val

      -- What was written and read leaves the two at the same place.
      Went-NextLem :
          (res : Bool × XorDecoder)
          → Went v (write_block x e).leading (write_block x e).trailing xs res
          → ((write_block x e).leading ≡ 255)
            ⊎ ((write_block x e).leading + (write_block x e).trailing < 64)
          → NextLem v e xs res
      Went-NextLem res w place =
          let lem = rw other at (write_lem v e false later) in
          record {
            more = w.more;
            value = w.value;
            at = w.at;
            pairs = rw lem (record {
              previous = sym w.value;
              word = wide;
              same_first = write_block_first x e ∙ later ∙ sym w.begun;
              fine = w.fine;
              held = subst (λ e. IsHeld e.bw) lem (write-Wrote v e h.held).held;
              place = elim place [
                | inl far ↦ inl far
                | inr near ↦ inr (sym w.lead, sym w.trail, omega (arith, w.lead, w.trail))
              ];
            });
          }

      next_other : At d.br (block_code x e ++ xs) → NextLem v e xs (next d)
      unfolding next_from block_code
      next_other ahead =
          let x_pos : 0 < x = ground (arith, other) in
          let x_word : x < 2 ^ 64 = bit_xor-lt 64 v e.previous_val wide h.word in
          let d' = record d { br = (read_bit d.br).2 } in
          rw (next_lem d false h.fine begun) (elim (Bool-cases (reuses x e)) [
            | inl again ↦
                let (bit, fine, behind) = read_bit_lem d.br true _ (rw again at ahead) in
                let (lead, trail) = write_block_reused x e again in
                let place : SamePlace e d = elim h.place [
                  | inl far ↦ absurd (ground (arith, again, zeros-lt x x_pos x_word))
                  | inr near ↦ near
                ] in
                let w =
                  read_reused v e d' xs (moved (read_bit d.br).2 h) wide begun other place again
                    behind in
                rw (fine, next_from)
                  (rw bit (
                    Went-NextLem _ (place_of _ (lead ∙ place.0) (trail ∙ place.1) w)
                      (inr (omega (arith, place, lead, trail)))))
            | inr new ↦
                let (bit, fine, behind) = read_bit_lem d.br true _ (rw new at ahead) in
                let (lead, trail) = write_block_new x e new in
                let w = read_new v e d' xs (moved (read_bit d.br).2 h) wide begun other behind in
                rw (fine, next_from)
                  (rw bit (
                    Went-NextLem _ (place_of _ lead trail w)
                      (inr (omega (arith, zeros-lt x x_pos x_word, lead, trail)))))
          ])

-- `Next` gives the value whose bits are ahead, and leaves the decoder where the encoder is.
pub next-write :
    (v : ℕ) (e : XorEncoder) (d : XorDecoder) (xs : List Bool)
    → Pairs e d
    → v < 2 ^ 64
    → At d.br (code v e ++ xs)
    → NextLem v e xs (next d)
next-write v e d xs h wide ahead = elim (Bool-cases e.first) [
  | inl first ↦
      next_first v e d xs h wide first
        (subst (λ c. At d.br (c ++ xs)) (code_lem v e true first) ahead)
  | inr later ↦ elim (Bool-cases (bit_xor v e.previous_val == 0)) [
    | inl same ↦
        next_same v e d xs h wide later same
          (subst (λ c. At d.br (c ++ xs)) (rw same at (code_lem v e false later)) ahead)
    | inr other ↦
        next_other v e d xs h wide later other
          (subst (λ c. At d.br (c ++ xs)) (rw other at (code_lem v e false later)) ahead)
  ]
]
