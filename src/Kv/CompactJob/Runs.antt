-- ===== src/Kv/CompactJob/Runs.antt =====
-- The pairs that the runs of equal keys are merged to, for pairs in the order of their keys.
use lindb.Base.{
  subst, ==_iff, inr, inl, Bool-cases, refl, suc, ◌<◌, ◌≡◌, lookup, lookup-nil, ℕ-Key, ℕ, ◌≤◌,
  if◌then◌else◌, ◌==◌, List, [], ◌∷◌, ◌++◌, Option, none, some, length, arith, append_assoc,
  append-nil,
}
use lindb.Kv.CompactJob.Pairs.{kept_pair}

-- No key is below the one before it, from `key` on.
abbrev pub Ordered : ℕ → List (ℕ × List ℕ) → Type 0
Ordered key [] = Unit {0}
Ordered key ((k, v) ∷ pairs) = (key ≤ k) × Ordered k pairs

-- The values of a key, in their order.
abbrev pub values_of : ℕ → List (ℕ × List ℕ) → List (List ℕ)
values_of key [] = []
values_of key ((k, v) ∷ pairs) = if k == key then v ∷ values_of key pairs else values_of key pairs

-- A value that is not empty.
abbrev pub kept_value : List ℕ → Option (List ℕ)
kept_value v = if length v == 0 then none else some v

-- What a key is merged to: the merge of all its values, if it has values and they do not merge to
-- an empty one.
abbrev pub merged_value : (ℕ → List (List ℕ) → List ℕ) → ℕ → List (ℕ × List ℕ) → Option (List ℕ)
merged_value merged key pairs =
    if length (values_of key pairs) == 0
    then none
    else kept_value (merged key (values_of key pairs))

-- Each key is above the one before it, from `bound` on.
abbrev pub Rising : ℕ → List (ℕ × List ℕ) → Type 0
Rising bound [] = Unit {0}
Rising bound ((k, v) ∷ pairs) = (bound ≤ k) × Rising (suc k) pairs

module _ (merged : ℕ → List (List ℕ) → List ℕ) where
  -- The pairs of the runs of one key, the first of which has begun.
  unfoldable pub runs : ℕ → List (List ℕ) → List (ℕ × List ℕ) → List (ℕ × List ℕ)
  runs key values [] = kept_pair key (merged key values)
  runs key values ((k, v) ∷ pairs) =
      let same = runs key (values ++ v ∷ []) pairs in
      let other = runs k (v ∷ []) pairs in
      if k == key then same else kept_pair key (merged key values) ++ other

  values_of-above :
      (key k : ℕ) (pairs : List (ℕ × List ℕ)) → key < k → Ordered k pairs → values_of key pairs ≡ []
  values_of-above key k [] lt o = refl
  values_of-above key k ((j, v) ∷ pairs) lt o =
      ground (arith, values_of-above key j pairs (omega (arith, o.0)) o.1)

  lookup-kept_pair :
      (key k : ℕ) (v : List ℕ) (pairs : List (ℕ × List ℕ))
      → lookup k (kept_pair key v ++ pairs)
        ≡ (if length v == 0 then lookup k pairs else if key == k then some v else lookup k pairs)
  unfolding lookup
  lookup-kept_pair key k v pairs = elim (Bool-cases (length v == 0)) [
    | inl e ↦ rw e refl
    | inr e ↦ rw e refl
  ]

  pub lookup-runs :
      (k key : ℕ) (values : List (List ℕ)) (pairs : List (ℕ × List ℕ))
      → Ordered key pairs
      → lookup k (runs key values pairs) ≡ (
          if key == k
          then kept_value (merged key (values ++ values_of key pairs))
          else merged_value merged k pairs)
  unfolding runs
  lookup-runs k key values [] o = ground (
    arith,
    lookup-kept_pair key k (merged key values) [],
    append-nil values,
    append-nil (kept_pair key (merged key values)),
    lookup-nil {V = List ℕ} k,
  )
  lookup-runs k key values ((j, v) ∷ pairs) o = elim (Bool-cases (j == key)) [
    | inl same ↦
        let at_key : Ordered key pairs =
          subst (λ (i : ℕ). Ordered i pairs) ((==_iff j key).0 same) o.1 in
        ground (
          arith,
          lookup-runs k key (values ++ v ∷ []) pairs at_key,
          append_assoc values (v ∷ []) (values_of key pairs),
        )
    | inr other ↦ ground (
      arith,
      o.0,
      lookup-kept_pair key k (merged key values) (runs j (v ∷ []) pairs),
      lookup-runs k j (v ∷ []) pairs o.1,
      values_of-above key j pairs (ground (arith, o.0)) o.1,
      append-nil values,
    )
  ]

  Rising-kept_pair :
      (bound key : ℕ) (v : List ℕ) (pairs : List (ℕ × List ℕ))
      → bound ≤ key
      → Rising (suc key) pairs
      → Rising bound (kept_pair key v ++ pairs)
  Rising-kept_pair bound key v pairs h r = elim (Bool-cases (length v == 0)) [
    | inl e ↦ rw e (weaken pairs r)
    | inr e ↦ rw e (h, r)
  ]
    where
      weaken : (ps : List (ℕ × List ℕ)) → Rising (suc key) ps → Rising bound ps
      weaken [] r = tt
      weaken ((k, w) ∷ ps) r = (omega (arith, r.0, h), r.1)

  pub runs-Rising :
      (bound key : ℕ) (values : List (List ℕ)) (pairs : List (ℕ × List ℕ))
      → bound ≤ key
      → Ordered key pairs
      → Rising bound (runs key values pairs)
  unfolding runs
  runs-Rising bound key values [] h o =
      subst (Rising bound) (append-nil (kept_pair key (merged key values)))
        (Rising-kept_pair bound key (merged key values) [] h tt)
  runs-Rising bound key values ((j, v) ∷ pairs) h o = elim (Bool-cases (j == key)) [
    | inl same ↦ rw same (
        runs-Rising bound key (values ++ v ∷ []) pairs h
          (subst (λ (i : ℕ). Ordered i pairs) ((==_iff j key).0 same) o.1))
    | inr other ↦ rw other (
        Rising-kept_pair bound key (merged key values) (runs j (v ∷ []) pairs) h
          (runs-Rising (suc key) j (v ∷ []) pairs (ground (arith, o.0)) o.1))
  ]
