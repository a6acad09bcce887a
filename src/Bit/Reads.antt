-- ===== src/Bit/Reads.antt =====
-- What the reader of pkg/bit reads, from a list of bits that it has ahead.
use lindb.Base.{
  ℕ, zero, suc, ◌+◌, ◌-◌, ◌*◌, ◌%◌, ◌^◌, ◌<◌, ◌≤◌, ◌≡◌, refl, ap, sym, ◌∙◌, Bool, true, List, [],
  ◌∷◌, ◌++◌, leb, ◌==◌, if◌then◌else◌, Bool-cases, ◌⊎◌, inl, inr, subst, arith, drop, get_elem?,
  some, none, All, not, bit_and,
}
use native.Mathlib.Nat.{suc-add}
use lindb.Base.Words.{IsByte}
use lindb.Base.Bits.{below, below_holds}
use lindb.Bit.{Buffer, Reader, get_byte, fill, read_bit}
use lindb.Bit.Held.{top, bits_of}

-- The bytes that are not read yet.
abbrev pub unread : Buffer → List ℕ
unread p = drop p.index p.buf

-- A reader with no error that has the bits `xs` ahead of it.
pub record At (r : Reader) (xs : List Bool) : Type 0 where
  pub few : r.count < 8
  pub small : r.b < 256
  pub clear : (r.count ≡ 0) ⊎ (r.b % 2 ^ (8 - r.count) ≡ 0)
  pub bytes : All IsByte (unread r.buf)
  pub fine : r.err ≡ none
  pub bits : top r.count r.b ++ bits_of (unread r.buf) ≡ xs

-- The same where a byte is in process.
record Filled (r : Reader) (xs : List Bool) : Type 0 where
  pub some_left : 0 < r.count
  pub in_byte : r.count ≤ 8
  pub small : r.b < 256
  pub clear : r.b % 2 ^ (8 - r.count) ≡ 0
  pub bytes : All IsByte (unread r.buf)
  pub fine : r.err ≡ none
  pub bits : top r.count r.b ++ bits_of (unread r.buf) ≡ xs

get_elem?-drop {ℓ} :
    {A : Type ℓ} (xs : List A) (i : ℕ) {y : A} {ys : List A}
    → drop i xs ≡ y ∷ ys
    → (get_elem? xs i ≡ some y) × (drop (i + 1) xs ≡ ys)
get_elem?-drop [] zero h = cc
get_elem?-drop [] (suc i) h = cc
get_elem?-drop (x ∷ xs) zero h = (cc h, cc h)
get_elem?-drop (x ∷ xs) (suc i) h = let (a, b) = get_elem?-drop xs i h in (a, rw (suc-add i 1) b)

module _ (p : Buffer) {y : ℕ} {ys : List ℕ} (h : unread p ≡ y ∷ ys) where
  pub get_byte_lem : get_byte p ≡ (y, none, record p { index = p.index + 1 })
  unfolding get_byte
  get_byte_lem = rw ((get_elem?-drop p.buf p.index h).0, get_byte)

  pub unread_next : unread (record p { index = p.index + 1 }) ≡ ys
  unread_next = (get_elem?-drop p.buf p.index h).1

-- What has a bit ahead has a byte ahead or a bit in process.
unread-cons :
    (bs : List ℕ) (x : Bool) (xs : List Bool)
    → bits_of bs ≡ x ∷ xs
    → (y : ℕ) × (ys : List ℕ) × (bs ≡ y ∷ ys)
unfolding bits_of
unread-cons [] x xs h = cc
unread-cons (y ∷ ys) x xs h = (y, ys, refl)

-- A byte that is taken from the buffer, with `front` before it.
pub taken :
    (front : List Bool) {y : ℕ} {ys : List ℕ} {bs : List ℕ} {xs : List Bool}
    → bs ≡ y ∷ ys
    → All IsByte bs
    → front ++ bits_of bs ≡ xs
    → (y < 256) × All IsByte ys × (front ++ (top 8 y ++ bits_of ys) ≡ xs)
unfolding bits_of
taken front {xs = xs} e h bits =
    let (small, bytes) = subst (All IsByte) e h in
    (small, bytes, subst (λ bs. front ++ bits_of bs ≡ xs) e bits)

pub none_in_process :
    (c b : ℕ) (bs : List Bool) {xs : List Bool} → c ≡ 0 → top c b ++ bs ≡ xs → bs ≡ xs
unfolding top
none_in_process c b bs {xs} e h = subst (λ n. top n b ++ bs ≡ xs) e h

fill-Filled : (r : Reader) (x : Bool) (xs : List Bool) → At r (x ∷ xs) → Filled (fill r) (x ∷ xs)
unfolding fill
fill-Filled r x xs h = elim (Bool-cases (r.count == 0)) [
  | inl empty ↦
      let none_held : r.count ≡ 0 = ground arith in
      let bits : bits_of (unread r.buf) ≡ x ∷ xs = none_in_process r.count r.b _ none_held h.bits in
      let (y, ys, e) = unread-cons (unread r.buf) x xs bits in
      let (small, bytes, ahead) = taken [] e h.bytes bits in
      rw (empty, get_byte_lem r.buf e)
        (record {
          some_left = omega arith;
          in_byte = omega arith;
          small = small;
          clear = omega arith;
          bytes = subst (All IsByte) (sym (unread_next r.buf e)) bytes;
          fine = refl;
          bits = ap (λ t. top 8 y ++ bits_of t) (unread_next r.buf e) ∙ ahead;
        })
  | inr held ↦ rw held (record {
    some_left = ground arith;
    in_byte = omega (arith, h.few);
    small = h.small;
    clear = elim h.clear [ inl none_held ↦ absurd (ground arith) | inr clear ↦ clear ];
    bytes = h.bytes;
    fine = h.fine;
    bits = h.bits;
  })
]

first_bit_table :
    below (λ b. if leb 128 b then not (bit_and b 0x80 == 0) else bit_and b 0x80 == 0) 256 ≡ true
unfolding below
first_bit_table = refl

first_bit : (b : ℕ) → b < 256 → not (bit_and b 0x80 == 0) ≡ leb 128 b
first_bit b h = elim (Bool-cases (leb 128 b)) [
  | inl e ↦ ground (arith, below_holds _ 256 first_bit_table b h, e)
  | inr e ↦ ground (arith, below_holds _ 256 first_bit_table b h, e)
]

shifted : ℕ → ℕ → Bool
shifted c b = if b % 2 ^ (8 - c) == 0 then b * 2 % 256 % 2 ^ (8 - (c + 255) % 256) == 0 else true

shifted_table : below (λ c. below (λ b. shifted (suc c) b) 256) 8 ≡ true
unfolding below shifted
shifted_table = refl

shifted_lem :
    (c b : ℕ)
    → c < 8
    → b < 256
    → b % 2 ^ (8 - suc c) ≡ 0
    → b * 2 % 256 % 2 ^ (8 - (suc c + 255) % 256) ≡ 0
unfolding shifted
shifted_lem c b hc hb e =
    ground
      (arith, below_holds (λ b. shifted (suc c) b) 256 (below_holds _ 8 shifted_table c hc) b hb)

abbrev rest_of : Reader → Reader
rest_of r = record r { count = (r.count + 255) % 256; b = r.b * 2 % 256 }

rest_of-At :
    (r : Reader) (c : ℕ) (x : Bool) (xs : List Bool)
    → r.count ≡ suc c
    → Filled r (x ∷ xs)
    → (not (bit_and r.b 0x80 == 0) ≡ x) × At (rest_of r) xs
unfolding top
rest_of-At r c x xs e h =
    let bits : leb 128 r.b ∷ (top c (r.b * 2 % 256) ++ bits_of (unread r.buf)) ≡ x ∷ xs =
      subst (λ n. top n r.b ++ bits_of (unread r.buf) ≡ x ∷ xs) e h.bits in
    let less : (r.count + 255) % 256 ≡ c = omega arith in
    (
      first_bit r.b h.small ∙ (cc bits),
      record {
        few = omega (arith, h.in_byte);
        small = omega arith;
        clear = inr (
            subst (λ n. r.b * 2 % 256 % 2 ^ (8 - (n + 255) % 256) ≡ 0) (sym e)
              (shifted_lem c r.b (omega (arith, h.in_byte)) h.small
                (subst (λ n. r.b % 2 ^ (8 - n) ≡ 0) e h.clear)));
        bytes = h.bytes;
        fine = h.fine;
        bits = rw less (cc bits);
      },
    )

-- `ReadBit` gives the first bit ahead.
pub read_bit_lem :
    (r : Reader) (x : Bool) (xs : List Bool)
    → At r (x ∷ xs)
    → ((read_bit r).0 ≡ x) × ((read_bit r).1 ≡ none) × At (read_bit r).2 xs
unfolding read_bit
read_bit_lem r x xs h =
    let f = fill-Filled r x xs h in
    let (e, at) = rest_of-At (fill r) ((fill r).count - 1) x xs (omega (arith, f.some_left)) f in
    (e, f.fine, at)

-- A reader that starts on a buffer.
pub at_start :
    (r : Reader)
    → r.count ≡ 0
    → r.b ≡ 0
    → r.err ≡ none
    → All IsByte (unread r.buf)
    → At r (bits_of (unread r.buf))
unfolding top
at_start r count b fine bytes = record {
  few = omega arith;
  small = omega arith;
  clear = inl count;
  bytes = bytes;
  fine = fine;
  bits = rw count refl;
}
