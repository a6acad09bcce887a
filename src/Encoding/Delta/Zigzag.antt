-- ===== src/Encoding/Delta/Zigzag.antt =====
-- The zigzag code of pkg/encoding/encoding.go.
use native.Mathlib.Nat.{pow-suc}
use lindb.Base.{
  ◌==◌, ℕ, zero, suc, ◌-◌, ◌*◌, ◌/◌, ◌%◌, ◌^◌, ◌<◌, ◌≡◌, refl, ap, ◌∙◌, arith, bit_xor, Bool-cases,
  inl, inr,
}
use lindb.Base.Words.{IsWord64, is_neg64}
use lindb.Base.Bits.{two_pow_pos, bit_and-one}
use lindb.Stream.Writer.{zigzag}
use lindb.Stream.Reader.{unzigzag}
use lindb.Stream.Varint.{zigzag-lt, unzigzag-zigzag}
use lindb.Encoding.Xor.Digits.{bit_xor_lowest, bit_xor-zero}
use lindb.Encoding.Delta.{zig_zag_encode, zig_zag_decode, sign_bits}

-- The XOR with all ones is the complement.
bit_xor_ones : (k x : ℕ) → x < 2 ^ k → bit_xor x (2 ^ k - 1) ≡ 2 ^ k - 1 - x
bit_xor_ones zero zero h = refl
bit_xor_ones zero (suc x) h = absurd (omega arith)
bit_xor_ones (suc k) x h = omega (
  arith,
  bit_xor_lowest x (2 ^ suc k - 1),
  pow-suc 2 k,
  two_pow_pos k,
  ap (bit_xor (x / 2)) half,
  bit_xor_ones k (x / 2) (omega (arith, pow-suc 2 k)),
)
  where
    half : (2 ^ suc k - 1) / 2 ≡ 2 ^ k - 1
    half = omega (arith, pow-suc 2 k, two_pow_pos k)

-- `ZigZagEncode` is the zigzag code: twice the number, or its complement if it is negative.
zig_zag_encode_lem : (x : ℕ) → IsWord64 x → zig_zag_encode x ≡ zigzag x
unfolding zigzag zig_zag_encode sign_bits
zig_zag_encode_lem x h = elim (Bool-cases (is_neg64 x)) [
  | inl neg ↦ rw neg (bit_xor_ones 64 (x * 2 % 2 ^ 64) (omega arith))
  | inr pos ↦ rw pos (bit_xor-zero _)
]

zig_zag_decode_lem : (v : ℕ) → IsWord64 v → zig_zag_decode v ≡ unzigzag v
unfolding unzigzag zig_zag_decode sign_bits
zig_zag_decode_lem v h = elim (Bool-cases (v % 2 == 0)) [
  | inl even ↦
      let even_bit : v % 2 ≡ 0 = ground arith in
      rw even (
        ap (λ b. bit_xor (v / 2) (sign_bits (b * 2 ^ 63 % 2 ^ 64))) (bit_and-one v ∙ even_bit)
        ∙ bit_xor-zero (v / 2))
  | inr odd ↦
      let odd_bit : v % 2 ≡ 1 = ground arith in
      rw odd (
        ap (λ b. bit_xor (v / 2) (sign_bits (b * 2 ^ 63 % 2 ^ 64))) (bit_and-one v ∙ odd_bit)
        ∙ bit_xor_ones 64 (v / 2) (omega arith))
]

-- `ZigZagDecode` gives back every int64 that `ZigZagEncode` took, and the code fits a uint64.
pub zig_zag_decode-zig_zag_encode :
    (x : ℕ) → IsWord64 x → (zig_zag_decode (zig_zag_encode x) ≡ x) × IsWord64 (zig_zag_encode x)
zig_zag_decode-zig_zag_encode x h =
    let fits = zigzag-lt x h in
    rw (zig_zag_encode_lem x h) (zig_zag_decode_lem (zigzag x) fits ∙ unzigzag-zigzag x h, fits)
