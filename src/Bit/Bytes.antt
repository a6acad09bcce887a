-- ===== src/Bit/Bytes.antt =====
-- A whole byte of the bits ahead.
use lindb.Base.{
  ℕ, ◌+◌, ◌-◌, ◌*◌, ◌/◌, ◌%◌, ◌^◌, ◌<◌, ◌≡◌, refl, ap, sym, ◌∙◌, Bool, true, false, List, Option,
  [], ◌∷◌, ◌++◌, ◌==◌, Bool-cases, inl, inr, bit_or, append_assoc, subst, arith, drop, none, length,
  length-append, All,
}
use lindb.Base.Words.{IsByte}
use lindb.Bit.{Reader, read_byte, Error}
use lindb.Bit.Held.{top, bits_of, top-joined, length-top, shift-clear}
use lindb.Bit.Reads.{unread, At, taken, none_in_process, get_byte_lem, unread_next}

append-inj {ℓ} :
    {A : Type ℓ} (a b c d : List A) → length a ≡ length b → a ++ c ≡ b ++ d → (a ≡ b) × (c ≡ d)
append-inj [] [] c d n e = (refl, e)
append-inj [] (y ∷ b) c d n e = absurd (omega arith)
append-inj (x ∷ a) [] c d n e = absurd (omega arith)
append-inj (x ∷ a) (y ∷ b) c d n e =
    let (f, g) = append-inj a b c d (omega arith) (cc e) in (cc (e, f), g)

-- Where eight bits are ahead and fewer in process, there is a byte to take.
has_byte :
    (c b : ℕ) (bytes : List ℕ) (bs xs : List Bool)
    → c < 8
    → length bs ≡ 8
    → top c b ++ bits_of bytes ≡ bs ++ xs
    → (y : ℕ) × (ys : List ℕ) × (bytes ≡ y ∷ ys)
unfolding bits_of
has_byte c b [] bs xs few eight e =
    absurd
      (omega (arith, ap length e, length-append (top c b) [], length-append bs xs, length-top c b))
has_byte c b (y ∷ ys) bs xs few eight e = (y, ys, refl)

pub record ByteRead (bs xs : List Bool) (r : ℕ × Option Error × Reader) : Type 0 where
  pub small : r.0 < 256
  pub bits : top 8 r.0 ≡ bs
  pub fine : r.1 ≡ none
  pub at : At r.2 xs

module _ (r : Reader) (bs xs : List Bool) (y : ℕ) (ys : List ℕ) (e : unread r.buf ≡ y ∷ ys)
    (small : y < 256) (bytes : All IsByte ys) (eight : length bs ≡ 8) where
  read_empty : r.count ≡ 0 → top 8 y ++ bits_of ys ≡ bs ++ xs → ByteRead bs xs (read_byte r)
  unfolding read_byte top
  read_empty empty ahead =
      let (f, g) = append-inj (top 8 y) bs (bits_of ys) xs (length-top 8 y ∙ sym eight) ahead in
      let t : (r.count == 0) ≡ true = ground arith in
      rw (get_byte_lem r.buf e, t)
        (record {
          small = small;
          bits = f;
          fine = refl;
          at = record {
            few = omega arith;
            small = small;
            clear = inl empty;
            bytes = subst (All IsByte) (sym (unread_next r.buf e)) bytes;
            fine = refl;
            bits =
                subst (λ n. top n y ++ bits_of (drop (r.buf.index + 1) r.buf.buf) ≡ xs) (sym empty)
                  (ap bits_of (unread_next r.buf e) ∙ g);
          };
        })

  read_held :
      At r (bs ++ xs)
      → (r.count == 0) ≡ false
      → top r.count r.b ++ (top 8 y ++ bits_of ys) ≡ bs ++ xs
      → ByteRead bs xs (read_byte r)
  unfolding read_byte
  read_held h held ahead =
      let clear : r.b % 2 ^ (8 - r.count) ≡ 0 = elim h.clear [
        | inl c ↦ absurd (ground arith)
        | inr c ↦ c
      ] in
      let (o, joined) = top-joined r.count r.b y (omega (arith, h.few)) h.small clear small in
      let (f, g) =
        append-inj (top 8 (bit_or r.b (y / 2 ^ r.count))) bs
          (top r.count (y * 2 ^ (8 - r.count) % 256) ++ bits_of ys) xs
          (length-top 8 (bit_or r.b (y / 2 ^ r.count)) ∙ sym eight)
          (sym (append_assoc (top 8 (bit_or r.b (y / 2 ^ r.count))) _ _)
            ∙ ap (λ t. t ++ bits_of ys) (sym joined)
            ∙ append_assoc (top r.count r.b) (top 8 y) (bits_of ys)
            ∙ ahead) in
      let back : (8 + 256 - r.count) % 256 ≡ 8 - r.count = omega (arith, h.few) in
      rw (get_byte_lem r.buf e, held, back)
        (record {
          small = o;
          bits = f;
          fine = refl;
          at = record {
            few = h.few;
            small = omega arith;
            clear = inr (shift-clear (8 - r.count) y (omega arith) small);
            bytes = subst (All IsByte) (sym (unread_next r.buf e)) bytes;
            fine = refl;
            bits =
                ap (λ t. top r.count (y * 2 ^ (8 - r.count) % 256) ++ bits_of t)
                  (unread_next r.buf e)
                ∙ g;
          };
        })

-- `ReadByte` gives the first eight bits ahead.
pub read_byte_lem :
    (r : Reader) (bs xs : List Bool)
    → length bs ≡ 8
    → At r (bs ++ xs)
    → ByteRead bs xs (read_byte r)
read_byte_lem r bs xs eight h =
    let (y, ys, e) = has_byte r.count r.b (unread r.buf) bs xs h.few eight h.bits in
    let (small, bytes, ahead) = taken (top r.count r.b) e h.bytes h.bits in
    elim (Bool-cases (r.count == 0)) [
      | inl empty ↦
          let none_held : r.count ≡ 0 = ground arith in
          let first = none_in_process r.count r.b _ none_held ahead in
          read_empty r bs xs y ys e small bytes eight none_held first
      | inr held ↦ read_held r bs xs y ys e small bytes eight h held ahead
    ]
