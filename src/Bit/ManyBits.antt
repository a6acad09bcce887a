-- ===== src/Bit/ManyBits.antt =====
-- A number of the bits ahead: `ReadBits`.
use lindb.Base.{
  ℕ, zero, suc, ◌+◌, ◌*◌, ◌/◌, ◌%◌, ◌^◌, ◌<◌, ◌≤◌, ◌≡◌, refl, ap, sym, ◌∙◌, Bool, true, false, List,
  Option, [], ◌∷◌, ◌++◌, if◌then◌else◌, bit_or, append_assoc, subst, arith, drop, take, length-take,
  take-append-drop, none, length, length-append,
}
use native.Mathlib.Nat.{
  pow-le-pow_right, pow-suc, mod-eq_of_lt, le_trans, mul-le-mul_left, mul-le-mul_right,
}
use lindb.Base.Bits.{bit_or_below, two_pow_pos}
use lindb.Bit.{Reader, read_bit, read_byte, read_whole, read_single, read_bits, Error}
use lindb.Bit.Words.{value, value-append, value-top_byte}
use lindb.Bit.Reads.{At, read_bit_lem}
use lindb.Bit.Bytes.{read_byte_lem}

-- A result without an error.
pub record Gives (v : ℕ) (xs : List Bool) (res : ℕ × Option Error × Reader) : Type 0 where
  pub result : res.0 ≡ v
  pub fine : res.1 ≡ none
  pub at : At res.2 xs

room_le : (a b k : ℕ) → a * 2 ^ k ≤ 2 ^ 64 → b ≤ a → b * 2 ^ k ≤ 2 ^ 64
room_le a b k h le = le_trans (mul-le-mul_right (2 ^ k) le) h

room_self : (a k : ℕ) → a * 2 ^ k ≤ 2 ^ 64 → a ≤ 2 ^ 64
room_self a k h = omega (arith, mul-le-mul_left a (two_pow_pos k))

room_twice :
    (u k : ℕ) (d : Bool)
    → (u + 1) * 2 ^ suc k ≤ 2 ^ 64
    → (u * 2 + 1 < 2 ^ 64) × ((u * 2 + (if d then 1 else 0) + 1) * 2 ^ k ≤ 2 ^ 64)
room_twice u k d h =
    let e : (u + 1) * 2 ^ suc k ≡ (u * 2 + 2) * 2 ^ k = grind (arith, pow-suc 2 k) in
    let h' : (u * 2 + 2) * 2 ^ k ≤ 2 ^ 64 = subst (λ t. t ≤ 2 ^ 64) e h in
    (omega (arith, room_self (u * 2 + 2) k h'), room_le (u * 2 + 2) _ k h' (ground arith))

shift_in :
    (u : ℕ) (d : Bool)
    → u * 2 + 1 < 2 ^ 64
    → (if d then bit_or (u * 2 % 2 ^ 64) 1 else u * 2 % 2 ^ 64) ≡ u * 2 + (if d then 1 else 0)
shift_in u true h =
    rw (mod-eq_of_lt {n = u * 2} {m = 2 ^ 64} (omega arith)) (bit_or_below 1 1 u (omega arith))
shift_in u false h = omega arith

read_single_lem :
    (bs xs : List Bool) (u : ℕ) (r : Reader)
    → (u + 1) * 2 ^ length bs ≤ 2 ^ 64
    → At r (bs ++ xs)
    → Gives (value u bs) xs (read_single (length bs) u r)
unfolding read_single value
read_single_lem [] xs u r room h = record { result = refl; fine = refl; at = h }
read_single_lem (x ∷ bs) xs u r room h =
    let (d, fine, at) = read_bit_lem r x (bs ++ xs) h in
    let (small, room') = room_twice u (length bs) x room in
    let ih = read_single_lem bs xs (u * 2 + (if x then 1 else 0)) (read_bit r).2 room' at in
    rw (fine, d, read_single) (rw (shift_in u x small) ih)

room_byte :
    (u k y : ℕ)
    → (u + 1) * 2 ^ (8 + k) ≤ 2 ^ 64
    → y < 256
    → (u * 256 + 255 < 2 ^ 64) × ((u * 256 + y + 1) * 2 ^ k ≤ 2 ^ 64)
room_byte u k y h lt =
    let e : (u + 1) * 2 ^ (8 + k) ≡ (u * 256 + 256) * 2 ^ k = byte_power in
    let h' : (u * 256 + 256) * 2 ^ k ≤ 2 ^ 64 = subst (λ t. t ≤ 2 ^ 64) e h in
    (omega (arith, room_self (u * 256 + 256) k h'), room_le (u * 256 + 256) _ k h' (omega arith))
  where
    eight : 8 + k ≡ suc (suc (suc (suc (suc (suc (suc (suc k)))))))
    eight = omega arith

    byte_power : (u + 1) * 2 ^ (8 + k) ≡ (u * 256 + 256) * 2 ^ k
    byte_power = rw eight (simp pow-suc (grind arith))

-- `rounds` bytes and then single bits.
read_whole_lem :
    (rounds : ℕ) (bs xs : List Bool) (u : ℕ) (r : Reader)
    → (n : ℕ) → length bs ≡ 8 * rounds + n
    → (u + 1) * 2 ^ length bs ≤ 2 ^ 64
    → At r (bs ++ xs)
    → ((read_whole rounds u r).1 ≡ none)
      × Gives (value u bs) xs (read_single n (read_whole rounds u r).0 (read_whole rounds u r).2)
unfolding read_whole
read_whole_lem zero bs xs u r n e room h =
    let e' : length bs ≡ n = omega arith in
    (
      refl,
      subst (λ n. Gives (value u bs) xs (read_single n u r)) e' (read_single_lem bs xs u r room h),
    )
read_whole_lem (suc rounds) bs xs u r n e room h =
    let front = take 8 bs in
    let back = drop 8 bs in
    let split : front ++ back ≡ bs = take-append-drop 8 bs in
    let eight : length front ≡ 8 = length-take 8 bs (omega arith) in
    let parts : length bs ≡ 8 + length back =
      omega (arith, ap length split, length-append front back) in
    let b =
      read_byte_lem r front (back ++ xs) eight
        (subst (At r) (ap (λ t. t ++ xs) (sym split) ∙ append_assoc front back xs) h) in
    let (small, room') =
      room_byte u (length back) (read_byte r).0 (subst (λ n. (u + 1) * 2 ^ n ≤ 2 ^ 64) parts room)
        b.small in
    let same : bit_or (u * 256 % 2 ^ 64) (read_byte r).0 ≡ u * 256 + (read_byte r).0 =
      rw (mod-eq_of_lt {n = u * 256} {m = 2 ^ 64} (omega arith))
        (bit_or_below 8 (read_byte r).0 u (omega (arith, b.small))) in
    let spelt : value u bs ≡ value (u * 256 + (read_byte r).0) back =
      ap (value u) (sym split)
      ∙ value-append u front back
      ∙ ap (λ t. value t back)
          (ap (value u) (sym b.bits) ∙ value-top_byte (read_byte r).0 u b.small) in
    let (fine, gives) =
      read_whole_lem rounds back xs (u * 256 + (read_byte r).0) (read_byte r).2 n
        (omega (arith, parts)) room' b.at in
    rw (b.fine, read_whole) (rw (same, spelt) (fine, gives))

-- `ReadBits` gives the number that the bits ahead spell.
pub read_bits_lem :
    (r : Reader) (n : ℕ) (bs xs : List Bool)
    → length bs ≡ n
    → n ≤ 64
    → At r (bs ++ xs)
    → Gives (value 0 bs) xs (read_bits n r)
unfolding read_bits
read_bits_lem r n bs xs e h at =
    let (fine, gives) =
      read_whole_lem (n / 8) bs xs 0 r (n % 8) (omega arith)
        (subst (λ m. 1 * 2 ^ m ≤ 2 ^ 64) (sym e)
          (omega (arith, pow-le-pow_right {n = 2} (omega arith) h)))
        at in
    rw (fine, read_bits) gives
