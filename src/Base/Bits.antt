-- ===== src/Base/Bits.antt =====
-- The bit operations as arithmetic: `|` of fields that do not meet, and the masks of one byte.
use Prim.Native.Nat.{ℕ, zero, suc, ◌+◌, ◌*◌, ◌/◌, ◌%◌, ◌^◌, ◌≤◌, ◌<◌, max}
use Prim.Native.Nat.{bit_and, bit_or, digits, bitwise, bit_or-bitwise, bit_and-bitwise, min}
use mathlib.Core.Path.{◌≡◌, refl, ap, sym, ◌∙◌}
use mathlib.Core.Bool.{Bool, true, ◌&&◌}
use native.Mathlib.Nat.{pow-suc, add-zero}
use native.Mathlib.Omega.{arith}
use package.lindb.Base.Tests.{◌==◌, ==_iff}

-- An operation on binary digits, with what is left where the first number has none.
module _ (rest : ℕ → ℕ) (join : ℕ → ℕ → ℕ) where
  -- The rounds do not matter where they suffice.
  enough_rounds : (a b n m : ℕ) → a ≤ n → a ≤ m → digits rest join n a b ≡ digits rest join m a b
  enough_rounds a b zero zero small _ = refl
  enough_rounds zero b (suc n) zero _ _ = refl
  enough_rounds zero b zero (suc m) _ _ = refl
  enough_rounds zero b (suc n) (suc m) _ _ = refl
  enough_rounds (suc a) b zero (suc m) small _ = absurd (omega arith)
  enough_rounds (suc a) b (suc n) zero _ small = absurd (omega arith)
  enough_rounds (suc a) b (suc n) (suc m) hn hm =
      ap (λ t. t * 2 + join (suc a % 2) (b % 2))
        (enough_rounds (suc a / 2) (b / 2) n m (omega arith) (omega arith))

  pub lowest_digit :
      (a b : ℕ)
      → bitwise rest join (suc a) b
        ≡ bitwise rest join (suc a / 2) (b / 2) * 2 + join (suc a % 2) (b % 2)
  lowest_digit a b =
      ap (λ t. t * 2 + join (suc a % 2) (b % 2))
        (enough_rounds (suc a / 2) (b / 2) a (suc a / 2) (omega arith) (omega arith))

zero-bit_or : (b : ℕ) → bit_or 0 b ≡ b
zero-bit_or b = bit_or-bitwise 0 b

bit_or_lowest : (a b : ℕ) → bit_or a b ≡ bit_or (a / 2) (b / 2) * 2 + max (a % 2) (b % 2)
bit_or_lowest zero b = omega (arith, zero-bit_or b, zero-bit_or (b / 2))
bit_or_lowest (suc a) b =
    bit_or-bitwise (suc a) b
    ∙ lowest_digit (λ y. y) max a b
    ∙ ap (λ t. t * 2 + max (suc a % 2) (b % 2)) (sym (bit_or-bitwise (suc a / 2) (b / 2)))

pow-double : (y s : ℕ) → y * 2 ^ suc s ≡ 2 * (y * 2 ^ s)
pow-double y s = omega (arith, ap (λ (t : ℕ). y * t) (pow-suc 2 s))

-- `x | (y << s)` is a sum when `x` has no bit from `s` on.
pub bit_or_above : (s x y : ℕ) → x < 2 ^ s → bit_or x (y * 2 ^ s) ≡ x + y * 2 ^ s
bit_or_above zero zero y h = omega (arith, zero-bit_or (y * 2 ^ 0))
bit_or_above zero (suc x) y h = absurd (omega arith)
bit_or_above (suc s) x y h = omega (
  arith,
  bit_or_lowest x (y * 2 ^ suc s),
  ap (λ (t : ℕ). bit_or (x / 2) t) (half_above y s),
  pow-double y s,
  pow-suc 2 s,
  bit_or_above s (x / 2) y (omega (arith, pow-suc 2 s)),
)
  where
    half_above : (y s : ℕ) → y * 2 ^ suc s / 2 ≡ y * 2 ^ s
    half_above y s = omega (arith, pow-double y s)

bit_or-zero_fuel : (n a : ℕ) → a ≤ n → bit_or a 0 ≡ a
bit_or-zero_fuel n zero h = refl
bit_or-zero_fuel zero (suc a) h = absurd (omega arith)
bit_or-zero_fuel (suc n) (suc a) h =
    omega (arith, bit_or_lowest (suc a) 0, bit_or-zero_fuel n (suc a / 2) (omega arith))

-- `(y << s) | x` likewise.
pub bit_or_below : (s x y : ℕ) → x < 2 ^ s → bit_or (y * 2 ^ s) x ≡ y * 2 ^ s + x
bit_or_below zero zero y h = omega (arith, bit_or-zero_fuel (y * 2 ^ 0) (y * 2 ^ 0) (omega arith))
bit_or_below zero (suc x) y h = absurd (omega arith)
bit_or_below (suc s) x y h = omega (
  arith,
  bit_or_lowest (y * 2 ^ suc s) x,
  ap (λ (t : ℕ). bit_or t (x / 2)) half_above,
  pow-double y s,
  pow-suc 2 s,
  bit_or_below s (x / 2) y (omega (arith, pow-suc 2 s)),
)
  where
    half_above : y * 2 ^ suc s / 2 ≡ y * 2 ^ s
    half_above = omega (arith, pow-double y s)

-- A test that every number below a bound passes.
unfoldable pub below : (ℕ → Bool) → ℕ → Bool
below test zero = true
below test (suc bound) = test bound && below test bound

pub below_holds :
    (test : ℕ → Bool) (bound : ℕ) → below test bound ≡ true → (b : ℕ) → b < bound → test b ≡ true
unfolding below
below_holds test zero every b lt = absurd (omega arith)
below_holds test (suc bound) every b lt = ground (arith, below_holds test bound _ b)

low_seven_table : below (λ b. bit_and b 0x7f == b % 128) 256 ≡ true
unfolding below
low_seven_table = refl

-- `b & 0x7f` drops the top bit of a byte.
pub low_seven : (b : ℕ) → b < 256 → bit_and b 0x7f ≡ b % 128
low_seven b h = (==_iff _ _).0 (below_holds _ 256 low_seven_table b h)

top_bit_table : below (λ b. bit_or b 0x80 == b % 128 + 128) 256 ≡ true
unfolding below
top_bit_table = refl

-- `b | 0x80` sets it.
pub top_bit : (b : ℕ) → b < 256 → bit_or b 0x80 ≡ b % 128 + 128
top_bit b h = (==_iff _ _).0 (below_holds _ 256 top_bit_table b h)

pub two_pow-add : (a b : ℕ) → 2 ^ (a + b) ≡ 2 ^ a * 2 ^ b
two_pow-add a zero = rw add-zero (omega arith)
two_pow-add a (suc b) =
    let e : a + suc b ≡ suc (a + b) = omega arith in
    rw (e, pow-suc 2 (a + b), pow-suc 2 b, two_pow-add a b) (grind arith)

pub two_pow_pos : (k : ℕ) → 1 ≤ 2 ^ k
two_pow_pos zero = omega arith
two_pow_pos (suc k) = omega (arith, pow-suc 2 k, two_pow_pos k)

-- `v & 1`
pub bit_and-one : (v : ℕ) → bit_and v 1 ≡ v % 2
bit_and-one zero = refl
bit_and-one (suc v) =
    bit_and-bitwise (suc v) 1
    ∙ lowest_digit (λ y. 0) min v 1
    ∙ omega (arith, no_digits (suc v / 2) (suc v / 2))
  where
    no_digits : (n a : ℕ) → digits (λ y. 0) min n a 0 ≡ 0
    no_digits zero a = refl
    no_digits (suc n) zero = refl
    no_digits (suc n) (suc a) = omega (arith, no_digits n (suc a / 2))
