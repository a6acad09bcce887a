-- ===== src/Encoding/Xor/Digits.antt =====
-- The digits of a 64-bit word: XOR, and the zeros before and behind the meaningful bits.
use Prim.Native.Nat.{differ, bit_xor-bitwise}
use native.Mathlib.Nat.{
  pow-suc, pow-succ', div-div-eq-div-mul, mul-le-mul_right, pow-le-pow_right, div-lt_iff_lt-mul,
}
use lindb.Base.{
  ℕ, zero, suc, ◌+◌, ◌-◌, ◌*◌, ◌/◌, ◌%◌, ◌^◌, ◌<◌, ◌≤◌, ◌≡◌, refl, ap, sym, ◌∙◌, bit_xor, arith,
  ◌==◌, Bool-cases, inl, inr, subst,
}
use native.Mathlib.Decide.{dec_lt}
use lindb.Base.Bits.{two_pow-add, two_pow_pos, lowest_digit}
use lindb.Encoding.Xor.{len64, leading_zeros64, trailing_loop, trailing_zeros64}

zero-bit_xor : (b : ℕ) → bit_xor 0 b ≡ b
zero-bit_xor b = bit_xor-bitwise 0 b

differ_bits : (x y : ℕ) → x < 2 → y < 2 → differ x y ≡ (x + y) % 2
differ_bits zero y p q = omega arith
differ_bits (suc zero) zero p q = refl
differ_bits (suc zero) (suc zero) p q = refl
differ_bits (suc zero) (suc (suc y)) p q = absurd (omega arith)
differ_bits (suc (suc x)) y p q = absurd (omega arith)

pub bit_xor_lowest : (a b : ℕ) → bit_xor a b ≡ bit_xor (a / 2) (b / 2) * 2 + (a + b) % 2
bit_xor_lowest zero b = omega (arith, zero-bit_xor b, zero-bit_xor (b / 2))
bit_xor_lowest (suc a) b = omega (
  arith,
  bit_xor-bitwise (suc a) b,
  bit_xor-bitwise (suc a / 2) (b / 2),
  lowest_digit (λ y. y) differ a b,
  differ_bits (suc a % 2) (b % 2) (omega arith) (omega arith),
)

bit_xor-zero_fuel : (n a : ℕ) → a ≤ n → bit_xor a 0 ≡ a
bit_xor-zero_fuel n zero h = refl
bit_xor-zero_fuel zero (suc a) h = absurd (omega arith)
bit_xor-zero_fuel (suc n) (suc a) h =
    omega (arith, bit_xor_lowest (suc a) 0, bit_xor-zero_fuel n (suc a / 2) (omega arith))

pub bit_xor-zero : (a : ℕ) → bit_xor a 0 ≡ a
bit_xor-zero a = bit_xor-zero_fuel a a (omega arith)

bit_xor_twice_fuel : (n p v : ℕ) → p ≤ n → v ≤ n → bit_xor p (bit_xor v p) ≡ v
bit_xor_twice_fuel zero zero zero hp hv = refl
bit_xor_twice_fuel zero zero (suc v) hp hv = absurd (omega arith)
bit_xor_twice_fuel zero (suc p) v hp hv = absurd (omega arith)
bit_xor_twice_fuel (suc n) p v hp hv = omega (
  arith,
  bit_xor_lowest p (bit_xor v p),
  bit_xor_lowest v p,
  ap (bit_xor (p / 2)) halved,
  bit_xor_twice_fuel n (p / 2) (v / 2) (omega arith) (omega arith),
)
  where
    halved : bit_xor v p / 2 ≡ bit_xor (v / 2) (p / 2)
    halved = omega (arith, bit_xor_lowest v p)

-- A value comes back from its XOR with another.
pub bit_xor_twice : (p v : ℕ) → bit_xor p (bit_xor v p) ≡ v
bit_xor_twice p v = bit_xor_twice_fuel (p + v) p v (omega arith) (omega arith)

pub eq_of_bit_xor-zero : (p v : ℕ) → bit_xor v p ≡ 0 → v ≡ p
eq_of_bit_xor-zero p v h = sym (bit_xor_twice p v) ∙ ap (bit_xor p) h ∙ bit_xor-zero p

pub bit_xor-lt : (k a b : ℕ) → a < 2 ^ k → b < 2 ^ k → bit_xor a b < 2 ^ k
bit_xor-lt zero zero zero p q = omega arith
bit_xor-lt zero zero (suc b) p q = absurd (omega arith)
bit_xor-lt zero (suc a) b p q = absurd (omega arith)
bit_xor-lt (suc k) a b p q = omega (
  arith,
  bit_xor_lowest a b,
  pow-suc 2 k,
  bit_xor-lt k (a / 2) (b / 2) (omega (arith, pow-suc 2 k)) (omega (arith, pow-suc 2 k)),
)

-- The length in bits, and the number of zeros behind.
pub len64-le : (n x : ℕ) → len64 n x ≤ n
unfolding len64
len64-le zero x = omega arith
len64-le (suc n) x = ground (arith, len64-le n (x / 2))

pub lt-len64 : (n x : ℕ) → x < 2 ^ n → x < 2 ^ len64 n x
unfolding len64
lt-len64 zero x h = h
lt-len64 (suc n) x h = elim (Bool-cases (x == 0)) [
  | inl e ↦ let z : x ≡ 0 = ground arith in rw e (omega arith)
  | inr e ↦ rw e (
      let l : len64 n (x / 2) + 1 ≡ suc (len64 n (x / 2)) = omega arith in
      rw l (
        omega
          (arith, pow-suc 2 (len64 n (x / 2)), lt-len64 n (x / 2) (omega (arith, pow-suc 2 n)))))
]

-- What a shift by no more than the zeros behind loses nothing of.
trailing-divides : (n x t : ℕ) → t ≤ trailing_loop n x → x / 2 ^ t * 2 ^ t ≡ x
unfolding trailing_loop
trailing-divides n x zero h = omega arith
trailing-divides zero x (suc t) h = absurd (omega arith)
trailing-divides (suc n) x (suc t) h = elim (Bool-cases (x % 2 == 0)) [
  | inl e ↦
      let ih = trailing-divides n (x / 2) t (ground arith) in
      let even : x % 2 ≡ 0 = ground arith in
      let q : x / 2 ^ suc t ≡ x / 2 / 2 ^ t = rw pow-succ' (sym (div-div-eq-div-mul x 2 (2 ^ t))) in
      rw q (omega (arith, ih, pow-double (x / 2 / 2 ^ t) t))
  | inr e ↦ absurd (ground arith)
]
  where
    pow-double : (y s : ℕ) → y * 2 ^ suc s ≡ y * 2 ^ s * 2
    pow-double y s = grind (arith, pow-suc 2 s)

trailing-lt : (n x : ℕ) → 0 < x → x < 2 ^ n → trailing_loop n x < n
unfolding trailing_loop
trailing-lt zero x p h = absurd (omega arith)
trailing-lt (suc n) x p h = elim (Bool-cases (x % 2 == 0)) [
  | inl e ↦ rw e (omega (arith, trailing-lt n (x / 2) (ground arith) (omega (arith, pow-suc 2 n))))
  | inr e ↦ rw e (omega arith)
]

factor_pos : (q p d : ℕ) → q * p ≡ d → 0 < d → 1 ≤ q
factor_pos zero p d e h = absurd (omega (arith, e))
factor_pos (suc q) p d e h = omega arith

-- A XOR that is not 0, of 64-bit words.
module _ (delta : ℕ) (pos : 0 < delta) (word : delta < 2 ^ 64) where
  abbrev lz : ℕ
  lz = leading_zeros64 delta

  abbrev tz : ℕ
  tz = trailing_zeros64 delta

  below_leading : delta < 2 ^ (64 - lz)
  unfolding leading_zeros64
  below_leading =
      let e : 64 - (64 - len64 64 delta) ≡ len64 64 delta = omega (arith, len64-le 64 delta) in
      rw e (lt-len64 64 delta word)

  -- Some bit stands between the zeros.
  pub zeros-lt : lz + tz < 64
  unfolding trailing_zeros64
  zeros-lt = elim (dec_lt (lz + tz) 64) [
    | yes h ↦ h
    | no h ↦
        let q : 1 ≤ delta / 2 ^ tz =
          factor_pos (delta / 2 ^ tz) (2 ^ tz) delta (trailing-divides 64 delta tz (omega arith))
            pos in
        absurd (
          omega (
            arith,
            below_leading,
            trailing-divides 64 delta tz (omega arith),
            mul-le-mul_right (2 ^ tz) q,
            pow-le-pow_right {n = 2} (omega arith) {i = 64 - lz} {j = tz} (omega arith),
          ))
  ]

  module _ (l t : ℕ) (hl : l ≤ lz) (ht : t ≤ tz) where
    -- The block between `l` zeros and `t` zeros is all of the XOR, and has its size.
    pub block-fits : (delta / 2 ^ t < 2 ^ (64 - l - t)) × (delta / 2 ^ t * 2 ^ t ≡ delta)
    unfolding trailing_zeros64
    block-fits = (
      (div-lt_iff_lt-mul (two_pow_pos t)).1 (
          subst (λ p. delta < p) powers
            (omega (
              arith,
              below_leading,
              pow-le-pow_right {n = 2} (omega arith) {i = 64 - lz} {j = 64 - l} (omega arith),
            ))),
      trailing-divides 64 delta t ht,
    )
      where
        powers : 2 ^ (64 - l) ≡ 2 ^ (64 - l - t) * 2 ^ t
        powers =
            let e : 64 - l ≡ 64 - l - t + t = omega (arith, zeros-lt) in
            ap (λ k. 2 ^ k) e ∙ two_pow-add (64 - l - t) t
