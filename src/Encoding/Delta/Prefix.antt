-- ===== src/Encoding/Delta/Prefix.antt =====
-- A writer of pkg/bit only adds to what its output holds already.
use lindb.Base.{
  ℕ, zero, suc, ◌+◌, ◌-◌, ◌*◌, ◌/◌, ◌%◌, ◌^◌, ◌≡◌, refl, ap, ◌∙◌, List, [], ◌∷◌, ◌++◌, Bool,
  Bool-cases, inl, inr, ◌==◌, append_assoc,
}
use lindb.Base.Words.{to_int64}
use lindb.Bit.{
  Writer, write_bit, write_byte, write_whole, write_single, write_bits, shift_left64, flush,
}
use lindb.Encoding.Delta.{write_deltas, sub32}

-- `front`, and behind it what `w` holds.
abbrev pub behind : List ℕ → Writer → Writer
behind front w = record w { out = front ++ w.out }

module _ (front : List ℕ) where
  write_bit-behind :
      (bit : Bool) (w : Writer) → write_bit bit (behind front w) ≡ behind front (write_bit bit w)
  unfolding write_bit
  write_bit-behind bit w = elim (Bool-cases ((w.count + 255) % 256 == 0)) [
    | inl full ↦ rw (full, append_assoc)
    | inr more ↦ rw more
  ]

  write_byte-behind :
      (b : ℕ) (w : Writer) → write_byte b (behind front w) ≡ behind front (write_byte b w)
  unfolding write_byte
  write_byte-behind b w = rw append_assoc

  write_single-behind :
      (n u : ℕ) (w : Writer) → write_single n u (behind front w) ≡ behind front (write_single n u w)
  unfolding write_single
  write_single-behind zero u w = refl
  write_single-behind (suc n) u w =
      ap (write_single n (u * 2 % 2 ^ 64)) (write_bit-behind (u / 2 ^ 63 == 1) w)
      ∙ write_single-behind n (u * 2 % 2 ^ 64) (write_bit (u / 2 ^ 63 == 1) w)

  write_whole-behind :
      (k u : ℕ) (w : Writer)
      → write_whole k u (behind front w)
        ≡ ((write_whole k u w).0, behind front (write_whole k u w).1)
  unfolding write_whole
  write_whole-behind zero u w = refl
  write_whole-behind (suc k) u w =
      ap (write_whole k (u * 256 % 2 ^ 64)) (write_byte-behind (u / 2 ^ 56 % 256) w)
      ∙ write_whole-behind k (u * 256 % 2 ^ 64) (write_byte (u / 2 ^ 56 % 256) w)

  write_bits-behind :
      (u n : ℕ) (w : Writer) → write_bits u n (behind front w) ≡ behind front (write_bits u n w)
  unfolding write_bits
  write_bits-behind u n w =
      let x = shift_left64 u ((2 ^ 64 + 64 - n) % 2 ^ 64) in
      ap (λ r. write_single (n % 8) r.0 r.1) (write_whole-behind (n / 8) x w)
      ∙ write_single-behind (n % 8) (write_whole (n / 8) x w).0 (write_whole (n / 8) x w).1

  pub write_deltas-behind :
      (min width : ℕ) (ds : List ℕ) (w : Writer)
      → write_deltas min width ds (behind front w) ≡ behind front (write_deltas min width ds w)
  unfolding write_deltas
  write_deltas-behind min width [] w = refl
  write_deltas-behind min width (d ∷ ds) w =
      let x = to_int64 (sub32 d min) in
      ap (write_deltas min width ds) (write_bits-behind x width w)
      ∙ write_deltas-behind min width ds (write_bits x width w)

  pub flush-behind : (w : Writer) → flush (behind front w) ≡ behind front (flush w)
  unfolding flush
  flush-behind w = elim (Bool-cases (w.count == 8)) [
    | inl whole ↦ rw whole
    | inr part ↦ rw (part, append_assoc)
  ]
