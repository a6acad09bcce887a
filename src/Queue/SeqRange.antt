-- ===== src/Queue/SeqRange.antt =====
-- `SeqRange.Find` of pkg/queue/segment/factory.go.
use lindb.Base.{
  ℕ, zero, suc, ◌+◌, ◌-◌, ◌/◌, ◌^◌, ◌<◌, ◌≤◌, ◌≡◌, refl, sym, subst, ◌∙◌, Bool, true, false, ◌||◌,
  List, [], ◌∷◌, Option, none, some, ◌⊎◌, inl, inr, length, ltb, ◌==◌, if◌then◌else◌, arith,
  Bool-cases,
}
use lindb.Base.Words.{lt64}

-- `sr[i]`, where the index is in range.
unfoldable pub begin_at : ℕ → List ℕ → ℕ
begin_at i [] = 0
begin_at zero (b ∷ sr) = b
begin_at (suc i) (b ∷ sr) = begin_at i sr

-- `sr[i] > seq`
unfoldable pub above : ℕ → ℕ → List ℕ → Bool
above i seq sr = lt64 seq (begin_at i sr)

-- The loop of `Find` with `r + 1` in place of `r`, so that `l <= r` is `l < h` and `r` may be -1.
-- The fuel counts its rounds.
unfoldable pub search_range : ℕ → ℕ → ℕ → ℕ → List ℕ → Option (ℕ × ℕ)
search_range zero l h seq sr = none
search_range (suc fuel) l h seq sr = elim (ltb l h) [
  | false ↦ none
  | true ↦
      let m = (l + (h - 1)) / 2 in
      elim (above m seq sr) [
        | false ↦ elim (suc m == h || above (suc m) seq sr) [
          | true ↦ some (m, begin_at m sr)
          | false ↦ search_range fuel (suc m) h seq sr
        ]
        | true ↦ search_range fuel l m seq sr
      ]
]

-- `Find`: the index and the begin, or `none` for `false`.
unfoldable pub find : ℕ → List ℕ → Option (ℕ × ℕ)
find seq [] = none
find seq (b ∷ sr) =
    if above 0 seq (b ∷ sr)
    then none
    else search_range (length (b ∷ sr)) 0 (length (b ∷ sr)) seq (b ∷ sr)

-- The place in `sr` at which the range with `seq` begins.
pub record IsPlace (seq : ℕ) (sr : List ℕ) (i : ℕ) : Type 0 where
  pub inside : i < length sr
  pub low : above i seq sr ≡ false
  pub high : (suc i ≡ length sr) ⊎ (above (suc i) seq sr ≡ true)

-- Where the window starts at or below `seq` and what is behind it is above `seq`, the loop ends
-- within as many rounds as the window is long, at such a place.
search_range_lem :
    (fuel l h seq : ℕ) (sr : List ℕ)
    → l < h
    → h ≤ l + fuel
    → h ≤ length sr
    → above l seq sr ≡ false
    → ((h ≡ length sr) ⊎ (above h seq sr ≡ true))
    → (i : ℕ) × (search_range fuel l h seq sr ≡ some (i, begin_at i sr)) × IsPlace seq sr i
unfolding search_range
search_range_lem zero l h seq sr few enough inside low high = absurd (omega arith)
search_range_lem (suc fuel) l h seq sr few enough inside low high =
    let m : ℕ = (l + (h - 1)) / 2 in
    let go : ltb l h ≡ true = ground arith in
    rw (go, search_range)
      (elim (Bool-cases (above m seq sr)) [
        | inl over ↦
            rw (over, search_range)
              (search_range_lem fuel l m seq sr (below_mid over) (omega arith) (omega arith) low
                (inr over))
        | inr under ↦
            rw (under, search_range)
              (elim (Bool-cases (suc m == h || above (suc m) seq sr)) [
                | inl stop ↦
                    rw (stop, search_range)
                      (m, refl, record { inside = omega arith; low = under; high = ends stop })
                | inr on ↦
                    rw (on, search_range)
                      (search_range_lem fuel (suc m) h seq sr (ground arith) (omega arith) inside
                        (ground arith) high)
              ])
      ])
  where
    below_mid : above ((l + (h - 1)) / 2) seq sr ≡ true → l < (l + (h - 1)) / 2
    below_mid over = grind arith

    ends :
        (suc ((l + (h - 1)) / 2) == h || above (suc ((l + (h - 1)) / 2)) seq sr) ≡ true
        → (suc ((l + (h - 1)) / 2) ≡ length sr) ⊎ (above (suc ((l + (h - 1)) / 2)) seq sr ≡ true)
    ends stop = grind arith

-- In begins of which the first is not above `seq`, the loop of `Find` ends with its fuel, at an index
-- whose begin is not above `seq` and behind which the next begin, if there is one, is.
pub find_lem :
    (seq : ℕ) (sr : List ℕ)
    → 0 < length sr
    → above 0 seq sr ≡ false
    → (i : ℕ) × (find seq sr ≡ some (i, begin_at i sr)) × IsPlace seq sr i
unfolding find
find_lem seq [] some_begin low = absurd (omega arith)
find_lem seq (b ∷ sr) some_begin low = rw low (
    search_range_lem (length (b ∷ sr)) 0 (length (b ∷ sr)) seq (b ∷ sr) (omega arith) (omega arith)
      (omega arith) low (inl refl))

-- What `Find` finds is such an index.
pub find-IsPlace : (seq : ℕ) (sr : List ℕ) (p : ℕ × ℕ) → find seq sr ≡ some p → IsPlace seq sr p.0
unfolding find
find-IsPlace seq [] p e = absurd (ground arith)
find-IsPlace seq (b ∷ sr) p e = elim (Bool-cases (above 0 seq (b ∷ sr))) [
  | inl over ↦ absurd (ground arith)
  | inr under ↦
      let (i, found, place) = find_lem seq (b ∷ sr) (omega arith) under in
      subst (IsPlace seq (b ∷ sr)) (same i found) place
]
  where
    same : (i : ℕ) → find seq (b ∷ sr) ≡ some (i, begin_at i (b ∷ sr)) → i ≡ p.0
    same i found = let both : some (i, begin_at i (b ∷ sr)) ≡ some p = sym found ∙ e in ground arith

pub above-le :
    (i seq : ℕ) (sr : List ℕ)
    → seq < 2 ^ 63
    → begin_at i sr < 2 ^ 63
    → above i seq sr ≡ false
    → begin_at i sr ≤ seq
unfolding above
above-le i seq sr small small_begin low = ground arith
