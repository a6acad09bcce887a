-- ===== src/Bit/Held.antt =====
-- pkg/bit as bits: those of a byte from the top, those that a writer holds and those that a reader
-- has ahead.
use lindb.Base.{
  ℕ, zero, suc, ◌+◌, ◌-◌, ◌*◌, ◌/◌, ◌%◌, ◌^◌, ◌<◌, ◌≡◌, refl, ap, sym, ◌∙◌, Bool, true, false, ◌&&◌,
  List, [], ◌∷◌, ◌++◌, leb, ◌==◌, ==_iff, length, bit_or, subst, append_assoc, append-nil, arith,
}
use native.Mathlib.Nat.{zero-add, suc-add}
use lindb.Base.Bits.{below, below_holds}

-- The first `n` bits of a byte.
unfoldable pub top : ℕ → ℕ → List Bool
top zero b = []
top (suc n) b = leb 128 b ∷ top n (b * 2 % 256)

unfoldable pub bits_of : List ℕ → List Bool
bits_of [] = []
bits_of (b ∷ bs) = top 8 b ++ bits_of bs

unfoldable pub same_bits : List Bool → List Bool → Bool
same_bits [] [] = true
same_bits (x ∷ xs) [] = false
same_bits [] (y ∷ ys) = false
same_bits (true ∷ xs) (true ∷ ys) = same_bits xs ys
same_bits (true ∷ xs) (false ∷ ys) = false
same_bits (false ∷ xs) (true ∷ ys) = false
same_bits (false ∷ xs) (false ∷ ys) = same_bits xs ys

pub same_bits_eq : (xs ys : List Bool) → same_bits xs ys ≡ true → xs ≡ ys
unfolding same_bits
same_bits_eq [] [] h = refl
same_bits_eq (x ∷ xs) [] h = cc
same_bits_eq [] (y ∷ ys) h = cc
same_bits_eq (true ∷ xs) (true ∷ ys) h = ap (λ t. true ∷ t) (same_bits_eq xs ys h)
same_bits_eq (true ∷ xs) (false ∷ ys) h = cc
same_bits_eq (false ∷ xs) (true ∷ ys) h = cc
same_bits_eq (false ∷ xs) (false ∷ ys) h = ap (λ t. false ∷ t) (same_bits_eq xs ys h)

pub length-top : (n b : ℕ) → length (top n b) ≡ n
unfolding top
length-top zero b = refl
length-top (suc n) b = ap suc (length-top n (b * 2 % 256))

-- The first `k` bits of `s` and the others fill a byte.
parts : ℕ → ℕ → Bool
parts k s =
    (bit_or (s - s % 2 ^ (8 - k)) (s % 2 ^ (8 - k)) == s)
    && same_bits (top 8 s)
        (top k (s - s % 2 ^ (8 - k)) ++ top (8 - k) (s % 2 ^ (8 - k) * 2 ^ k % 256))
    && same_bits (top 8 s) (top (8 - k) (s / 2 ^ k * 2 ^ k % 256) ++ top k (s * 2 ^ (8 - k) % 256))

parts_table : below (λ k. below (parts k) 256) 9 ≡ true
unfolding parts below top same_bits
parts_table = refl

parts_holds : (k s : ℕ) → k < 9 → s < 256 → parts k s ≡ true
parts_holds k s hk hs = below_holds (parts k) 256 (below_holds _ 9 parts_table k hk) s hs

parts_or : (k s : ℕ) → k < 9 → s < 256 → bit_or (s - s % 2 ^ (8 - k)) (s % 2 ^ (8 - k)) ≡ s
unfolding parts
parts_or k s hk hs = ground (arith, parts_holds k s hk hs)

parts_above :
    (k s : ℕ)
    → k < 9
    → s < 256
    → top 8 s ≡ top k (s - s % 2 ^ (8 - k)) ++ top (8 - k) (s % 2 ^ (8 - k) * 2 ^ k % 256)
unfolding parts
parts_above k s hk hs = same_bits_eq _ _ (ground (arith, parts_holds k s hk hs))

parts_below :
    (k s : ℕ)
    → k < 9
    → s < 256
    → top 8 s ≡ top (8 - k) (s / 2 ^ k * 2 ^ k % 256) ++ top k (s * 2 ^ (8 - k) % 256)
unfolding parts
parts_below k s hk hs = same_bits_eq _ _ (ground (arith, parts_holds k s hk hs))

-- A held byte `x` and the part of `y` that fits behind it.
fits_behind :
    (k x y : ℕ)
    → k < 9
    → x < 256
    → x % 2 ^ (8 - k) ≡ 0
    → y < 256
    → (x + y / 2 ^ k < 256)
      × ((x + y / 2 ^ k) % 2 ^ (8 - k) ≡ y / 2 ^ k)
      × (x + y / 2 ^ k - (x + y / 2 ^ k) % 2 ^ (8 - k) ≡ x)
fits_behind zero x y hk hx e hy = omega arith
fits_behind (suc zero) x y hk hx e hy = omega arith
fits_behind (suc (suc zero)) x y hk hx e hy = omega arith
fits_behind (suc (suc (suc zero))) x y hk hx e hy = omega arith
fits_behind (suc (suc (suc (suc zero)))) x y hk hx e hy = omega arith
fits_behind (suc (suc (suc (suc (suc zero))))) x y hk hx e hy = omega arith
fits_behind (suc (suc (suc (suc (suc (suc zero)))))) x y hk hx e hy = omega arith
fits_behind (suc (suc (suc (suc (suc (suc (suc zero))))))) x y hk hx e hy = omega arith
fits_behind (suc (suc (suc (suc (suc (suc (suc (suc zero)))))))) x y hk hx e hy = omega arith
fits_behind (suc (suc (suc (suc (suc (suc (suc (suc (suc k))))))))) x y hk hx e hy =
    absurd (omega arith)

pub top-joined :
    (k x y : ℕ)
    → k < 9
    → x < 256
    → x % 2 ^ (8 - k) ≡ 0
    → y < 256
    → (bit_or x (y / 2 ^ k) < 256)
      × (top k x ++ top 8 y ≡ top 8 (bit_or x (y / 2 ^ k)) ++ top k (y * 2 ^ (8 - k) % 256))
top-joined k x y hk hx e hy =
    let (small, low, high) = fits_behind k x y hk hx e hy in
    let o : bit_or x (y / 2 ^ k) ≡ x + y / 2 ^ k =
      subst (λ a. bit_or a (y / 2 ^ k) ≡ x + y / 2 ^ k) high
        (subst (λ b. bit_or (x + y / 2 ^ k - (x + y / 2 ^ k) % 2 ^ (8 - k)) b ≡ x + y / 2 ^ k) low
          (parts_or k (x + y / 2 ^ k) hk small)) in
    let a : top 8 (x + y / 2 ^ k) ≡ top k x ++ top (8 - k) (y / 2 ^ k * 2 ^ k % 256) =
      subst (λ a. top 8 (x + y / 2 ^ k) ≡ top k a ++ top (8 - k) (y / 2 ^ k * 2 ^ k % 256)) high
        (subst
          (λ b.
            top 8 (x + y / 2 ^ k)
            ≡ top k (x + y / 2 ^ k - (x + y / 2 ^ k) % 2 ^ (8 - k))
              ++ top (8 - k) (b * 2 ^ k % 256))
          low (parts_above k (x + y / 2 ^ k) hk small)) in
    (
      omega (arith, o),
      ap (◌++◌ (top k x)) (parts_below k y hk hy)
          ∙ sym (append_assoc (top k x) _ _)
          ∙ ap (λ t. t ++ top k (y * 2 ^ (8 - k) % 256)) (sym a ∙ ap (top 8) (sym o)),
    )

cleared : ℕ → ℕ → Bool
cleared c y = y * 2 ^ c % 256 % 2 ^ c == 0

cleared_table : below (λ c. below (cleared c) 256) 9 ≡ true
unfolding cleared below
cleared_table = refl

-- A shift to the left clears the bits that it leaves.
pub shift-clear : (c y : ℕ) → c < 9 → y < 256 → y * 2 ^ c % 256 % 2 ^ c ≡ 0
unfolding cleared
shift-clear c y hc hy =
    (==_iff _ _).0 (below_holds (cleared c) 256 (below_holds _ 9 cleared_table c hc) y hy)

pub bits_of-append : (xs ys : List ℕ) → bits_of (xs ++ ys) ≡ bits_of xs ++ bits_of ys
unfolding bits_of
bits_of-append [] ys = refl
bits_of-append (x ∷ xs) ys =
    ap (◌++◌ (top 8 x)) (bits_of-append xs ys)
    ∙ sym (append_assoc (top 8 x) (bits_of xs) (bits_of ys))

pub bits_of-snoc : (xs : List ℕ) (x : ℕ) → bits_of (xs ++ x ∷ []) ≡ bits_of xs ++ top 8 x
bits_of-snoc xs x = bits_of-append xs (x ∷ []) ∙ ap (◌++◌ (bits_of xs)) (single_byte x)
  where
    single_byte : (x : ℕ) → bits_of (x ∷ []) ≡ top 8 x
    single_byte x = unfold bits_of in append-nil (top 8 x)

-- What is behind the first `n` bits.
pub beyond : ℕ → ℕ → ℕ
beyond zero b = b
beyond (suc n) b = beyond n (b * 2 % 256)

pub top-add : (m n b : ℕ) → top (m + n) b ≡ top m b ++ top n (beyond m b)
unfolding top beyond
top-add zero n b = rw zero-add
top-add (suc m) n b = rw (suc-add m n) (ap (λ t. leb 128 b ∷ t) (top-add m n (b * 2 % 256)))
