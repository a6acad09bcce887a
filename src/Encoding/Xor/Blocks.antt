-- ===== src/Encoding/Xor/Blocks.antt =====
-- What the XOR decoder reads of a block.
use lindb.Base.{
  ℕ, ◌+◌, ◌-◌, ◌*◌, ◌/◌, ◌%◌, ◌^◌, ◌<◌, ◌≤◌, ◌≡◌, refl, ap, sym, ◌∙◌, bit_xor, arith, leb, Bool,
  true, false, List, ◌++◌, append_assoc, none, subst,
}
use lindb.Bit.{Reader, read_bits, shift_left64}
use lindb.Bit.Reads.{At}
use lindb.Bit.ManyBits.{Gives, read_bits_lem}
use lindb.Bit.Words.{spell, length-top_word, value-spell}
use lindb.Encoding.Xor.{
  XorDecoder, leading_zeros64, trailing_zeros64, read_place, read_block, int_size, set_place,
}
use lindb.Encoding.Xor.Digits.{bit_xor_twice, zeros-lt, block-fits}
use lindb.Encoding.Xor.Code.{size_of, placed}

-- The decoder went on, with `xs` ahead.
pub record Went (v : ℕ) (leading trailing : ℕ) (xs : List Bool) (res : Bool × XorDecoder)
    : Type 0 where
  pub more : res.0 ≡ true
  pub value : res.1.val ≡ v
  pub lead : res.1.leading ≡ leading
  pub trail : res.1.trailing ≡ trailing
  pub begun : res.1.first ≡ false
  pub fine : res.1.err ≡ none
  pub at : At res.1.br xs

-- A number of at most 64 bits is read back.
pub read_spell :
    (n x : ℕ) (r : Reader) (xs : List Bool)
    → n ≤ 64
    → x < 2 ^ n
    → At r (spell n x ++ xs)
    → Gives x xs (read_bits n r)
read_spell n x r xs le fits at =
    subst (λ v. Gives v xs (read_bits n r)) (value-spell n x le fits)
      (read_bits_lem r n (spell n x) xs (length-top_word n (x * 2 ^ (64 - n) % 2 ^ 64)) le at)

shift_left64_lem : (u s : ℕ) → s < 64 → u * 2 ^ s < 2 ^ 64 → shift_left64 u s ≡ u * 2 ^ s
unfolding shift_left64
shift_left64_lem u s lt fits = let e : leb 64 s ≡ false = ground arith in rw e (omega arith)

int_size_lem : (n : ℕ) → n ≤ 64 → int_size n ≡ n
unfolding int_size
int_size_lem n le = ground arith

-- The end of `Next`: a block of `n` bits with `t` zeros behind.
module _ (n x t v : ℕ) (d : XorDecoder) (xs : List Bool) where
  pub read_block_lem :
      n ≤ 64
      → x < 2 ^ n
      → d.trailing ≡ t
      → t < 64
      → x * 2 ^ t ≡ bit_xor v d.val
      → bit_xor v d.val < 2 ^ 64
      → d.first ≡ false
      → d.err ≡ none
      → At d.br (spell n x ++ xs)
      → Went v d.leading d.trailing xs (read_block n d)
  unfolding read_block
  read_block_lem le fits same lt whole word begun fine at =
      let g =
        subst (λ m. Gives x xs (read_bits m d.br)) (sym (int_size_lem n le))
          (read_spell n x d.br xs le fits at) in
      rw (g.fine, read_block)
        (record {
          more = refl;
          value =
              ap (λ x. bit_xor d.val (shift_left64 x d.trailing)) g.result
              ∙ ap (λ t. bit_xor d.val (shift_left64 x t)) same
              ∙ ap (bit_xor d.val) (shift_left64_lem x t lt (omega arith) ∙ whole)
              ∙ bit_xor_twice d.val v;
          lead = refl;
          trail = refl;
          begun = begun;
          fine = fine;
          at = g.at;
        })

-- A XOR `x` with its zeros and the length of what stands between them.
module _ (x v : ℕ) (d : XorDecoder) (xs : List Bool) (pos : 0 < x) (word : x < 2 ^ 64)
    (same : x ≡ bit_xor v d.val) (begun : d.first ≡ false) (fine : d.err ≡ none) where
  abbrev lz : ℕ
  lz = leading_zeros64 x

  abbrev tz : ℕ
  tz = trailing_zeros64 x

  -- What is read behind the place.
  read_placed :
      (d' : XorDecoder)
      → d'.trailing ≡ tz
      → d'.val ≡ d.val
      → d'.first ≡ false
      → d'.err ≡ none
      → At d'.br (spell (size_of x) (x / 2 ^ tz) ++ xs)
      → Went v d'.leading d'.trailing xs (read_block (size_of x) d')
  read_placed d' trail val begun fine at =
      let fits = block-fits x pos word lz tz (omega arith) (omega arith) in
      let same' : x ≡ bit_xor v d'.val = same ∙ ap (bit_xor v) (sym val) in
      read_block_lem (size_of x) (x / 2 ^ tz) tz v d' xs (omega arith) fits.0 trail
        (omega (arith, zeros-lt x pos word)) (fits.1 ∙ same') (subst (λ t. t < 2 ^ 64) same' word)
        begun fine at

  pub read_place_lem : At d.br (placed x ++ xs) → Went v lz tz xs (read_place d)
  unfolding read_place set_place
  read_place_lem at =
      let z : lz + tz < 64 = zeros-lt x pos word in
      let lead =
        read_spell 6 lz d.br _ (omega arith) (omega arith)
          (subst (At d.br) (append_assoc (spell 6 lz) _ xs) at) in
      let size =
        read_spell 6 (size_of x - 1) (read_bits 6 d.br).2 _ (omega arith) (omega arith)
          (subst (At (read_bits 6 d.br).2) (append_assoc (spell 6 (size_of x - 1)) _ xs) lead.at) in
      let d' =
        set_place (read_bits 6 d.br).0 ((read_bits 6 (read_bits 6 d.br).2).0 + 1)
          (read_bits 6 (read_bits 6 d.br).2).2 d in
      let n : (read_bits 6 (read_bits 6 d.br).2).0 + 1 ≡ size_of x = omega (arith, size.result) in
      let trail : d'.trailing ≡ tz = omega (arith, size.result, lead.result) in
      rw (lead.fine, read_place)
        (rw (size.fine, read_place)
          (subst (λ n. Went v lz tz xs (read_block n d')) (sym n)
            (subst (λ l. Went v l tz xs (read_block (size_of x) d')) lead.result
              (subst (λ t. Went v d'.leading t xs (read_block (size_of x) d')) trail
                (read_placed d' trail refl begun fine size.at)))))
