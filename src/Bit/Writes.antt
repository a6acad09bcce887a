-- ===== src/Bit/Writes.antt =====
-- What the writer of pkg/bit writes, as a list of bits.
use lindb.Base.{
  ℕ, zero, suc, ◌+◌, ◌-◌, ◌*◌, ◌/◌, ◌%◌, ◌^◌, ◌<◌, ◌≤◌, ◌≡◌, refl, ap, sym, ◌∙◌, Bool, true, false,
  ◌&&◌, List, [], ◌∷◌, ◌++◌, ltb, leb, ◌==◌, if◌then◌else◌, Bool-cases, inl, inr, bit_or,
  append_assoc, append-nil, subst, All, All-append, arith,
}
use lindb.Base.Words.{IsByte}
use lindb.Base.Bits.{below, below_holds}
use lindb.Bit.{
  Writer, write_bit, write_byte, write_whole, write_single, write_bits, shift_left64, flush,
}
use lindb.Bit.Words.{top_word, top-top_word, spell}
use lindb.Bit.Held.{
  top, bits_of, same_bits, same_bits_eq, top-joined, bits_of-snoc, shift-clear, beyond, top-add,
}

-- All the bits so far, those of the byte in process included.
abbrev pub written : Writer → List Bool
written w = bits_of w.out ++ top (8 - w.count) w.b

-- The bits of the byte in process that are not written yet are 0.
pub record IsHeld (w : Writer) : Type 0 where
  pub some_left : 0 < w.count
  pub in_byte : w.count ≤ 8
  pub small : w.b < 256
  pub clear : w.b % 2 ^ w.count ≡ 0
  pub bytes : All IsByte w.out

abbrev one : ℕ → ℕ → ℕ
one c b = bit_or b (2 ^ ((c + 255) % 256) % 256)

single : ℕ → ℕ → Bool
single c b =
    if c == 0
    then true
    else if b % 2 ^ c == 0
    then same_bits (top (8 - (c + 255) % 256) (one c b)) (top (8 - c) b ++ true ∷ [])
      && same_bits (top (8 - (c + 255) % 256) b) (top (8 - c) b ++ false ∷ [])
      && one c b % 2 ^ ((c + 255) % 256) == 0
      && b % 2 ^ ((c + 255) % 256) == 0
      && ltb (one c b) 256
    else true

single_table : below (λ c. below (single c) 256) 9 ≡ true
unfolding single below top same_bits
single_table = refl

single_holds : (c b : ℕ) → c < 9 → b < 256 → single c b ≡ true
single_holds c b hc hb = below_holds (single c) 256 (below_holds _ 9 single_table c hc) b hb

-- One more bit behind those that a byte holds.
add_bit : Bool → ℕ → ℕ → ℕ
add_bit bit c b = if bit then one c b else b

add_bit_lem :
    (bit : Bool) (c b : ℕ)
    → 0 < c
    → c < 9
    → b < 256
    → b % 2 ^ c ≡ 0
    → (top (8 - (c + 255) % 256) (add_bit bit c b) ≡ top (8 - c) b ++ bit ∷ [])
      × (add_bit bit c b % 2 ^ ((c + 255) % 256) ≡ 0)
      × (add_bit bit c b < 256)
unfolding add_bit single
add_bit_lem true c b pos hc hb e =
    let h = single_holds c b hc hb in
    (same_bits_eq _ _ (ground (arith, h)), ground (arith, h), ground (arith, h))
add_bit_lem false c b pos hc hb e =
    let h = single_holds c b hc hb in
    (same_bits_eq _ _ (ground (arith, h)), ground (arith, h), ground (arith, h))

write_bit_lem :
    (bit : Bool) (w : Writer)
    → write_bit bit w ≡ (
        if (w.count + 255) % 256 == 0
        then record { out = w.out ++ add_bit bit w.count w.b ∷ []; b = 0; count = 8 }
        else record w { b = add_bit bit w.count w.b; count = (w.count + 255) % 256 })
unfolding write_bit add_bit
write_bit_lem bit w = refl

module _ (bit : Bool) (w : Writer) (h : IsHeld w) where
  pub write_bit-IsHeld : IsHeld (write_bit bit w)
  write_bit-IsHeld =
      let a = add_bit_lem bit w.count w.b h.some_left (omega arith) h.small h.clear in
      rw (write_bit_lem bit w) (elim (Bool-cases ((w.count + 255) % 256 == 0)) [
        | inl full ↦ rw full (record {
          some_left = omega arith;
          in_byte = omega arith;
          small = omega arith;
          clear = omega arith;
          bytes = All-append IsByte w.out (add_bit bit w.count w.b ∷ []) h.bytes (a.2, tt);
        })
        | inr more ↦ rw more (record {
          some_left = ground arith;
          in_byte = omega (arith, h.in_byte, h.some_left);
          small = a.2;
          clear = a.1;
          bytes = h.bytes;
        })
      ])

  pub written-write_bit : written (write_bit bit w) ≡ written w ++ bit ∷ []
  unfolding top
  written-write_bit =
      let a = add_bit_lem bit w.count w.b h.some_left (omega arith) h.small h.clear in
      elim (Bool-cases ((w.count + 255) % 256 == 0)) [
        | inl full ↦
            let last : 8 - (w.count + 255) % 256 ≡ 8 = ground arith in
            rw (write_bit_lem bit w, full)
              (append-nil _
                ∙ bits_of-snoc w.out (add_bit bit w.count w.b)
                ∙ ap (◌++◌ (bits_of w.out)) (
                    subst (λ n. top n (add_bit bit w.count w.b) ≡ top (8 - w.count) w.b ++ bit ∷ [])
                      last a.0)
                ∙ sym (append_assoc (bits_of w.out) (top (8 - w.count) w.b) (bit ∷ [])))
        | inr more ↦
            rw (write_bit_lem bit w, more)
              (ap (◌++◌ (bits_of w.out)) a.0
                ∙ sym (append_assoc (bits_of w.out) (top (8 - w.count) w.b) (bit ∷ [])))
      ]

-- A whole byte goes behind the bits that are held, and as many stay held.
module _ (y : ℕ) (w : Writer) (h : IsHeld w) (small : y < 256) where
  behind :
      (bit_or w.b (y / 2 ^ (8 - w.count)) < 256)
      × (top (8 - w.count) w.b ++ top 8 y
          ≡ top 8 (bit_or w.b (y / 2 ^ (8 - w.count))) ++ top (8 - w.count) (y * 2 ^ w.count % 256))
  behind =
      subst
        (λ c.
          (bit_or w.b (y / 2 ^ (8 - w.count)) < 256)
          × (top (8 - w.count) w.b ++ top 8 y
              ≡ top 8 (bit_or w.b (y / 2 ^ (8 - w.count))) ++ top (8 - w.count) (y * 2 ^ c % 256)))
        (twice)
        (top-joined (8 - w.count) w.b y (omega arith) h.small
          (subst (λ c. w.b % 2 ^ c ≡ 0) (sym twice) h.clear) small)
    where
      twice : 8 - (8 - w.count) ≡ w.count
      twice = omega arith

  pub written-write_byte : written (write_byte y w) ≡ written w ++ top 8 y
  unfolding write_byte
  written-write_byte =
      let e : (8 + 256 - w.count) % 256 ≡ 8 - w.count = omega arith in
      rw e (
        ap (λ t. t ++ top (8 - w.count) (y * 2 ^ w.count % 256)) (bits_of-snoc w.out _)
        ∙ append_assoc (bits_of w.out) _ _
        ∙ ap (◌++◌ (bits_of w.out)) (sym behind.1)
        ∙ sym (append_assoc (bits_of w.out) (top (8 - w.count) w.b) (top 8 y)))

  back : (8 + 256 - w.count) % 256 ≡ 8 - w.count
  back = omega arith

  pub write_byte-IsHeld : IsHeld (write_byte y w)
  unfolding write_byte
  write_byte-IsHeld = record {
    some_left = h.some_left;
    in_byte = h.in_byte;
    small = omega arith;
    clear = shift-clear w.count y (omega arith) small;
    bytes =
        All-append IsByte w.out _ h.bytes
          (subst (λ s. bit_or w.b (y / 2 ^ s) < 256) (sym back) behind.0, tt);
  }

pub write_single-top_word :
    (n u : ℕ) (w : Writer)
    → IsHeld w
    → (written (write_single n u w) ≡ written w ++ top_word n u) × IsHeld (write_single n u w)
unfolding write_single top_word
write_single-top_word zero u w h = (sym (append-nil _), h)
write_single-top_word (suc n) u w h =
    let bit = u / 2 ^ 63 == 1 in
    let (e, h') =
      write_single-top_word n (u * 2 % 2 ^ 64) (write_bit bit w) (write_bit-IsHeld bit w h) in
    (
      e
          ∙ ap (λ t. t ++ top_word n (u * 2 % 2 ^ 64)) (written-write_bit bit w h)
          ∙ append_assoc (written w) (bit ∷ []) _,
      h',
    )

write_whole-top_word :
    (k n u : ℕ) (w : Writer)
    → IsHeld w
    → u < 2 ^ 64
    → let (u', w') = write_whole k u w in
      (written (write_single n u' w') ≡ written w ++ top_word (8 * k + n) u)
      × IsHeld (write_single n u' w')
unfolding write_whole
write_whole-top_word zero n u w h fits =
    subst
      (λ m.
        (written (write_single n u w) ≡ written w ++ top_word m u) × IsHeld (write_single n u w))
      (omega arith) (write_single-top_word n u w h)
write_whole-top_word (suc k) n u w h fits =
    let y = u / 2 ^ 56 % 256 in
    let (e, h') =
      write_whole-top_word k n (u * 256 % 2 ^ 64) (write_byte y w)
        (write_byte-IsHeld y w h (omega arith)) (omega arith) in
    (
      e
          ∙ ap (λ t. t ++ top_word (8 * k + n) (u * 256 % 2 ^ 64))
              (written-write_byte y w h (omega arith))
          ∙ append_assoc (written w) (top 8 y) _
          ∙ ap (◌++◌ (written w))
              (top-top_word (8 * k + n) u fits ∙ ap (λ m. top_word m u) (omega arith)),
      h',
    )

-- `64 - uint(numBits)` bits are shifted out.
shift_lem :
    (n u : ℕ) → n ≤ 64 → shift_left64 u ((2 ^ 64 + 64 - n) % 2 ^ 64) ≡ u * 2 ^ (64 - n) % 2 ^ 64
unfolding shift_left64
shift_lem zero u h = omega arith
shift_lem (suc n) u h =
    let e : (2 ^ 64 + 64 - suc n) % 2 ^ 64 ≡ 64 - suc n = omega arith in
    let f : leb 64 (64 - suc n) ≡ false = ground arith in rw (e, f)

-- `WriteBits` writes the last `n` bits of `u` behind what is written.
pub write_bits-spell :
    (n u : ℕ) (w : Writer)
    → n ≤ 64
    → IsHeld w
    → (written (write_bits u n w) ≡ written w ++ spell n u) × IsHeld (write_bits u n w)
unfolding write_bits
write_bits-spell n u w h k = rw (shift_lem n u h) (
    subst
      (λ m.
        let (u', w') = write_whole (n / 8) (u * 2 ^ (64 - n) % 2 ^ 64) w in
        (written (write_single (n % 8) u' w') ≡ written w ++ top_word m (u * 2 ^ (64 - n) % 2 ^ 64))
        × IsHeld (write_single (n % 8) u' w'))
      (omega arith)
      (write_whole-top_word (n / 8) (n % 8) (u * 2 ^ (64 - n) % 2 ^ 64) w k (omega arith)))

-- `Flush` fills the last byte with zeros.
pub flush_lem :
    (w : Writer)
    → IsHeld w
    → (padding : List Bool) × (bits_of (flush w).out ≡ written w ++ padding)
      × All IsByte (flush w).out
unfolding flush top
flush_lem w h = elim (Bool-cases (w.count == 8)) [
  | inl whole ↦
      let none_held : 8 - w.count ≡ 0 = ground arith in
      (
        [],
        rw whole (
            subst (λ n. bits_of w.out ≡ (bits_of w.out ++ top n w.b) ++ []) (sym none_held)
              (sym (append-nil _ ∙ append-nil _))),
        rw whole h.bytes,
      )
  | inr part ↦
      let parts : 8 ≡ 8 - w.count + w.count = omega (arith, h.in_byte) in
      (
        top w.count (beyond (8 - w.count) w.b),
        rw part (
            bits_of-snoc w.out w.b
            ∙ ap (◌++◌ (bits_of w.out))
                (ap (λ n. top n w.b) parts ∙ top-add (8 - w.count) w.count w.b)
            ∙ sym (append_assoc (bits_of w.out) _ _)),
        rw part (All-append IsByte w.out (w.b ∷ []) h.bytes (h.small, tt)),
      )
]
