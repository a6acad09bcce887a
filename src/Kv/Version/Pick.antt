-- ===== src/Kv/Version/Pick.antt =====
-- What `PickL0Compaction` picks.
use lindb.Base.{
  ==_iff, zero, sym, get_elem?, ◌<◌, suc, ap, false, true, ℕ, ◌≤◌, ◌≡◌, refl, List, [], ◌∷◌, none,
  some, arith, In, ◌↔◌, ◌⊎◌, inl, inr, Bool-cases, Map, values, lookup, insert, ℕ-Key,
  lookup-insert, ◌==◌, All, length, if◌then◌else◌,
}
use lindb.Base.Words.{lt64}
use lindb.Kv.Level.{
  number_of_files, FileMeta, Level, IsKeyed, Keyed, insert-Keyed, In-lookup, lookup-In,
}
use lindb.Kv.Level
use lindb.Kv.Version.{
  in_levels, files_in, Version, Inputs, get_files, get_overlapping_inputs, add_up_inputs,
  pick_up_inputs, pick_l0_compaction, number_of_files_in_level,
}
use lindb.Kv.Version.Files.{file_at, IsVersion}
use lindb.Kv.Version.Select.{In-get_overlapping_inputs}

-- A file is under its number in the map.
abbrev Mapped : FileMeta → Map ℕ FileMeta → Type 0
Mapped f m = lookup f.file_number m ≡ some f

not-Mapped-nil : (f : FileMeta) → ¬ Mapped f []
unfolding lookup
not-Mapped-nil f h = cc

Mapped-insert :
    (f g : FileMeta) (m : Map ℕ FileMeta)
    → Mapped f (insert g.file_number g m)
    → (f ≡ g) ⊎ Mapped f m
Mapped-insert f g m h =
    split (Bool-cases (g.file_number == f.file_number))
      (rw (lookup-insert g.file_number f.file_number g m) at h)
  where
    split :
        ((g.file_number == f.file_number) ≡ true) ⊎ ((g.file_number == f.file_number) ≡ false)
        → (if g.file_number == f.file_number then some g else lookup f.file_number m) ≡ some f
        → (f ≡ g) ⊎ Mapped f m
    split (inl same) e = inl (ground arith)
    split (inr other) e = inr (ground arith)

add_up_inputs-Keyed :
    (fs : List FileMeta) (m : Map ℕ FileMeta) → Keyed m → Keyed (add_up_inputs fs m)
unfolding add_up_inputs
add_up_inputs-Keyed [] m k = k
add_up_inputs-Keyed (g ∷ fs) m k =
    add_up_inputs-Keyed fs (insert g.file_number g m) (insert-Keyed g m k)

Mapped-add_up_inputs :
    (f : FileMeta) (fs : List FileMeta) (m : Map ℕ FileMeta)
    → Mapped f (add_up_inputs fs m)
    → In f fs ⊎ Mapped f m
unfolding add_up_inputs
Mapped-add_up_inputs f [] m h = inr h
Mapped-add_up_inputs f (g ∷ fs) m h =
    elim (Mapped-add_up_inputs f fs (insert g.file_number g m) h) [
      | inl later ↦ inl (inr later)
      | inr now ↦ elim (Mapped-insert f g m now) [ inl e ↦ inl (inl e) | inr old ↦ inr old ]
    ]

-- All files here are the version's own at level 1, so no two of them share a number.
module _ (v : Version) where
  abbrev AtOne : FileMeta → Type 0
  AtOne f = file_at v 1 f.file_number ≡ some f

  insert-Mapped :
      (f g : FileMeta) (m : Map ℕ FileMeta)
      → AtOne f
      → AtOne g
      → Mapped f m
      → Mapped f (insert g.file_number g m)
  insert-Mapped f g m af ag h = ground (arith, lookup-insert g.file_number f.file_number g m)

  add_up_inputs-Mapped :
      (f : FileMeta) (fs : List FileMeta) (m : Map ℕ FileMeta)
      → AtOne f
      → All AtOne fs
      → In f fs ⊎ Mapped f m
      → Mapped f (add_up_inputs fs m)
  unfolding add_up_inputs
  add_up_inputs-Mapped f [] m af a (inl h) = absurd h
  add_up_inputs-Mapped f [] m af a (inr h) = h
  add_up_inputs-Mapped f (g ∷ fs) m af a (inr h) =
      add_up_inputs-Mapped f fs (insert g.file_number g m) af a.1
        (inr (insert-Mapped f g m af a.0 h))
  add_up_inputs-Mapped f (g ∷ fs) m af a (inl (inr h)) =
      add_up_inputs-Mapped f fs (insert g.file_number g m) af a.1 (inl h)
  add_up_inputs-Mapped f (g ∷ fs) m af a (inl (inl e)) =
      add_up_inputs-Mapped f fs (insert g.file_number g m) af a.1
        (inr (ground (arith, lookup-insert g.file_number f.file_number g m)))

  All-of_In : (fs : List FileMeta) → ((f : FileMeta) → In f fs → AtOne f) → All AtOne fs
  All-of_In [] h = tt
  All-of_In (f ∷ fs) h = (h f (inl refl), All-of_In fs (λ g i. h g (inr i)))

  -- The key ranges of a file of level 1 and of some listed file of level 0 meet.
  abbrev pub Meets : FileMeta → List FileMeta → Type 0
  Meets f lows =
      (low : FileMeta) × In low lows × (low.min_key ≤ f.max_key) × (f.min_key ≤ low.max_key)

  module _ (valid : IsVersion v) where
    overlapping : FileMeta → List FileMeta
    overlapping low = get_overlapping_inputs 1 low.min_key low.max_key v

    overlapping-AtOne :
        (low : FileMeta) → All AtOne (get_overlapping_inputs 1 low.min_key low.max_key v)
    overlapping-AtOne low =
        All-of_In _ (λ f i. ((In-get_overlapping_inputs v 1 low.min_key low.max_key f valid).0 i).0)

    pick_up_inputs-Keyed :
        (lows : List FileMeta) (m : Map ℕ FileMeta) → Keyed m → Keyed (pick_up_inputs v lows m)
    unfolding pick_up_inputs
    pick_up_inputs-Keyed [] m k = k
    pick_up_inputs-Keyed (low ∷ lows) m k = pick_up_inputs-Keyed lows _ (add_up_inputs-Keyed _ m k)

    picked_sound :
        (f : FileMeta) (lows : List FileMeta) (m : Map ℕ FileMeta)
        → Mapped f (pick_up_inputs v lows m)
        → AtOne f × Meets f lows ⊎ Mapped f m
    unfolding pick_up_inputs
    picked_sound f [] m h = inr h
    picked_sound f (low ∷ lows) m h = elim (picked_sound f lows _ h) [
      | inl (a, (x, i, lo, hi)) ↦ inl (a, (x, inr i, lo, hi))
      | inr now ↦ elim (Mapped-add_up_inputs f _ m now) [
        | inr old ↦ inr old
        | inl i ↦
            let (a, lo, hi) = (In-get_overlapping_inputs v 1 low.min_key low.max_key f valid).0 i in
            inl (a, (low, inl refl, lo, hi))
      ]
    ]

    picked_complete :
        (f : FileMeta) (lows : List FileMeta) (m : Map ℕ FileMeta)
        → AtOne f
        → Meets f lows ⊎ Mapped f m
        → Mapped f (pick_up_inputs v lows m)
    unfolding pick_up_inputs
    picked_complete f [] m a (inl (x, i, _, _)) = absurd i
    picked_complete f [] m a (inr h) = h
    picked_complete f (low ∷ lows) m a (inr h) =
        picked_complete f lows _ a
          (inr (add_up_inputs-Mapped f _ m a (overlapping-AtOne low) (inr h)))
    picked_complete f (low ∷ lows) m a (inl (x, inr i, lo, hi)) =
        picked_complete f lows _ a (inl (x, i, lo, hi))
    picked_complete f (low ∷ lows) m a (inl (x, inl e, lo, hi)) =
        let hit : In f (get_overlapping_inputs 1 low.min_key low.max_key v) =
          (In-get_overlapping_inputs v 1 low.min_key low.max_key f valid).1
            (a, rw (← e) lo, rw (← e) hi) in
        picked_complete f lows _ a
          (inr (add_up_inputs-Mapped f _ m a (overlapping-AtOne low) (inl hit)))

length-values : (m : Map ℕ FileMeta) → length (values m) ≡ length m
length-values [] = refl
length-values ((k, f) ∷ m) = ap suc (length-values m)

count_in :
    (ls : List Level) (i : ℕ)
    → i < length ls
    → elim (get_elem? ls i) [ none ↦ none | some l ↦ some (number_of_files l) ]
      ≡ some (length (files_in ls i))
unfolding files_in number_of_files Level.get_files
count_in [] i h = absurd (omega arith)
count_in (l ∷ ls) zero h = ap some (sym (length-values l.files))
count_in (l ∷ ls) (suc i) h = count_in ls i (omega arith)

none_beyond : (ls : List Level) → get_elem? ls (length ls) ≡ none
none_beyond [] = refl
none_beyond (l ∷ ls) = none_beyond ls

-- `NumberOfFilesInLevel` of a level below the number of levels counts the files of that level, and
-- of a negative level or one above the number of levels it is 0; of the number of levels itself it
-- panics, with an index out of range.
pub number_of_files_in_level_lem :
    (v : Version) (i : ℕ)
    → IsVersion v
    → number_of_files_in_level i v ≡ (
        if in_levels i v
        then some (length (get_files i v))
        else if i == v.num_of_levels
        then none
        else some 0)
unfolding number_of_files_in_level get_files
number_of_files_in_level_lem v i valid = elim (Bool-cases (in_levels i v)) [
  | inl inside ↦ ground (arith, count_in v.levels i (omega (arith, valid.sized, lt inside)))
  | inr outside ↦ elim (Bool-cases (i == v.num_of_levels)) [
    | inl edge ↦
        let e : get_elem? v.levels i ≡ none =
          rw ((==_iff i v.num_of_levels).0 edge, ← valid.sized) (none_beyond v.levels) in
        ground arith
    | inr beyond ↦ ground arith
  ]
]
  where
    lt : in_levels i v ≡ true → i < v.num_of_levels
    lt h = ground arith

level_zero :
    (v : Version) → IsVersion v → number_of_files_in_level 0 v ≡ some (length (get_files 0 v))
level_zero v valid = ground (arith, number_of_files_in_level_lem v 0 valid, valid.positive)

-- `PickL0Compaction` picks nothing exactly when level 0 has fewer files than the threshold.
-- Otherwise its lower inputs are the files of level 0, and its upper inputs are exactly the files of
-- level 1 whose key range meets that of a file of level 0. It does not panic.
pub pick_l0_compaction-In :
    (v : Version) (threshold : ℕ)
    → IsVersion v
    → (inputs : Inputs) × (pick_l0_compaction threshold v
        ≡ (if lt64 (length (get_files 0 v)) threshold then some none else some (some inputs)))
      × (inputs.level_inputs ≡ get_files 0 v)
      × ((f : FileMeta)
          → In f inputs.level_up_inputs
            ↔ ((file_at v 1 f.file_number ≡ some f) × Meets v f inputs.level_inputs))
unfolding pick_l0_compaction
pick_l0_compaction-In v threshold valid =
    let lows = get_files 0 v in
    let ups = pick_up_inputs v lows [] in
    let keyed = pick_up_inputs-Keyed v valid lows [] tt in
    (
      record { level_inputs = lows; level_up_inputs = values ups },
      rw (level_zero v valid, pick_l0_compaction),
      refl,
      λ f. (
        λ i. elim (picked_sound v valid f lows [] (In-lookup f ups keyed i)) [
          | inl found ↦ found
          | inr none_there ↦ absurd (not-Mapped-nil f none_there)
        ],
        λ h.
            (lookup-In f.file_number f ups keyed
              (picked_complete v valid f lows [] h.0 (inl h.1))).0,
      ),
    )
