-- ===== src/Bit/Words.antt =====
-- The bits of a 64-bit word from the top, and the number that a sequence of bits spells.
use lindb.Base.{
  ℕ, zero, suc, ◌+◌, ◌-◌, ◌*◌, ◌/◌, ◌%◌, ◌^◌, ◌<◌, ◌≤◌, ◌≡◌, refl, ap, sym, ◌∙◌, Bool, List, [],
  ◌∷◌, ◌++◌, ◌==◌, leb, if◌then◌else◌, length, arith,
}
use mathlib.Core.Path.{ap₂}
use native.Mathlib.Nat.{pow-suc, add-mul-mod_self_left, div-add-mod, mul-le-mul_right}
use lindb.Bit.Held.{top}

pow-double : (n x : ℕ) → x * 2 ^ suc n ≡ x * 2 * 2 ^ n
pow-double n x = grind (arith, pow-suc 2 n)

unfoldable pub top_word : ℕ → ℕ → List Bool
top_word zero u = []
top_word (suc n) u = (u / 2 ^ 63 == 1) ∷ top_word n (u * 2 % 2 ^ 64)

-- The first byte of a word has its first bits.
pub top-top_word :
    (n u : ℕ)
    → u < 2 ^ 64
    → top 8 (u / 2 ^ 56 % 256) ++ top_word n (u * 256 % 2 ^ 64) ≡ top_word (8 + n) u
unfolding top top_word
top-top_word n u h = unrolled ∙ ap (λ m. top_word m u) eight
  where
    eight : suc (suc (suc (suc (suc (suc (suc (suc n))))))) ≡ 8 + n
    eight = omega arith

    whole :
        u * 256 % 2 ^ 64
        ≡ u
          * 2
          % 2 ^ 64
          * 2
          % 2 ^ 64
          * 2
          % 2 ^ 64
          * 2
          % 2 ^ 64
          * 2
          % 2 ^ 64
          * 2
          % 2 ^ 64
          * 2
          % 2 ^ 64
          * 2
          % 2 ^ 64
    whole = omega arith

    unrolled :
        top 8 (u / 2 ^ 56 % 256) ++ top_word n (u * 256 % 2 ^ 64)
        ≡ top_word (suc (suc (suc (suc (suc (suc (suc (suc n)))))))) u
    unrolled = ap₂ ◌∷◌ (ground arith) (
        ap₂ ◌∷◌ (ground arith) (
          ap₂ ◌∷◌ (ground arith) (
            ap₂ ◌∷◌ (ground arith) (
              ap₂ ◌∷◌ (ground arith) (
                ap₂ ◌∷◌ (ground arith)
                  (ap₂ ◌∷◌ (ground arith) (ap₂ ◌∷◌ (ground arith) (ap (top_word n) (whole)))))))))

-- `acc`, then the bits behind it.
unfoldable pub value : ℕ → List Bool → ℕ
value acc [] = acc
value acc (x ∷ xs) = value (acc * 2 + (if x then 1 else 0)) xs

pub value-append : (acc : ℕ) (xs ys : List Bool) → value acc (xs ++ ys) ≡ value (value acc xs) ys
unfolding value
value-append acc [] ys = refl
value-append acc (x ∷ xs) ys = value-append (acc * 2 + (if x then 1 else 0)) xs ys

-- What is left of a byte and of a word after `n` shifts.
left_byte : ℕ → ℕ → ℕ
left_byte zero b = b
left_byte (suc n) b = left_byte n (b * 2 % 256)

value-top :
    (n b acc : ℕ) → b < 256 → value acc (top n b) * 256 + left_byte n b ≡ (acc * 256 + b) * 2 ^ n
unfolding value top left_byte
value-top zero b acc h = omega arith
value-top (suc n) b acc h =
    value-top n (b * 2 % 256) (acc * 2 + (if leb 128 b then 1 else 0)) (omega arith)
    ∙ omega (arith, pow-double n (acc * 256 + b), ap (λ (t : ℕ). t * 2 ^ n) first)
  where
    first : (acc * 2 + (if leb 128 b then 1 else 0)) * 256 + b * 2 % 256 ≡ (acc * 256 + b) * 2
    first = ground arith

pub value-top_byte : (b acc : ℕ) → b < 256 → value acc (top 8 b) ≡ acc * 256 + b
unfolding left_byte
value-top_byte b acc h = omega (arith, value-top 8 b acc h)

left_word : ℕ → ℕ → ℕ
left_word zero u = u
left_word (suc n) u = left_word n (u * 2 % 2 ^ 64)

value-top_word_left :
    (n u acc : ℕ)
    → u < 2 ^ 64
    → value acc (top_word n u) * 2 ^ 64 + left_word n u ≡ (acc * 2 ^ 64 + u) * 2 ^ n
unfolding value top_word left_word
value-top_word_left zero u acc h = omega arith
value-top_word_left (suc n) u acc h =
    value-top_word_left n (u * 2 % 2 ^ 64) (acc * 2 + (if u / 2 ^ 63 == 1 then 1 else 0))
      (omega arith)
    ∙ omega (arith, pow-double n (acc * 2 ^ 64 + u), ap (λ (t : ℕ). t * 2 ^ n) first)
  where
    first :
        (acc * 2 + (if u / 2 ^ 63 == 1 then 1 else 0)) * 2 ^ 64 + u * 2 % 2 ^ 64
        ≡ (acc * 2 ^ 64 + u) * 2
    first = ground arith

pub length-top_word : (n u : ℕ) → length (top_word n u) ≡ n
unfolding top_word
length-top_word zero u = refl
length-top_word (suc n) u = ap suc (length-top_word n (u * 2 % 2 ^ 64))

mod-mul : (a b m : ℕ) → a % m * b % m ≡ a * b % m
mod-mul a b m =
    sym (add-mul-mod_self_left (a % m * b) m (a / m * b))
    ∙ ap (λ t. t % m) (grind (arith, ap (λ (t : ℕ). t * b) (div-add-mod a m)))

left_word_lem : (n u : ℕ) → u < 2 ^ 64 → left_word n u ≡ u * 2 ^ n % 2 ^ 64
unfolding left_word
left_word_lem zero u h = omega arith
left_word_lem (suc n) u h =
    left_word_lem n (u * 2 % 2 ^ 64) (omega arith)
    ∙ mod-mul (u * 2) (2 ^ n) (2 ^ 64)
    ∙ ap (λ t. t % 2 ^ 64) (sym (pow-double n u))

pow-add_sub : (n : ℕ) → n ≤ 64 → 2 ^ (64 - n) * 2 ^ n ≡ 2 ^ 64
pow-add_sub zero h = omega arith
pow-add_sub (suc n) h =
    let e : 64 - n ≡ suc (64 - suc n) = omega arith in
    let half : 2 ^ (64 - n) ≡ 2 ^ (64 - suc n) * 2 = ap (λ k. 2 ^ k) e ∙ pow-suc 2 (64 - suc n) in
    omega (
      arith,
      pow-double n (2 ^ (64 - suc n)),
      pow-add_sub n (omega arith),
      ap (λ (t : ℕ). t * 2 ^ n) half,
    )

-- The last `n` bits of `x`, as `WriteBits` writes them.
abbrev pub spell : ℕ → ℕ → List Bool
spell n x = top_word n (x * 2 ^ (64 - n) % 2 ^ 64)

pub value-spell : (n x : ℕ) → n ≤ 64 → x < 2 ^ n → value 0 (spell n x) ≡ x
value-spell n x h fits = omega (
  arith,
  value-top_word_left n (x * 2 ^ (64 - n) % 2 ^ 64) 0 (omega arith),
  left_word_lem n (x * 2 ^ (64 - n) % 2 ^ 64) (omega arith),
  ap (λ (t : ℕ). t * 2 ^ n) unshifted,
  whole,
)
  where
    full : 2 ^ (64 - n) * 2 ^ n ≡ 2 ^ 64
    full = pow-add_sub n h

    whole : x * 2 ^ (64 - n) * 2 ^ n ≡ x * 2 ^ 64
    whole = grind (arith, ap (λ (t : ℕ). x * t) full)

    unshifted : x * 2 ^ (64 - n) % 2 ^ 64 ≡ x * 2 ^ (64 - n)
    unshifted =
        grind (arith, full, mul-le-mul_right {m = x + 1} {n = 2 ^ n} (2 ^ (64 - n)) (omega arith))
