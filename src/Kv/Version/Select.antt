-- ===== src/Kv/Version/Select.antt =====
-- What `findFiles`, `getAllFiles` and `getOverlappingInputs` select.
use lindb.Base.{
  select-append, In-select, select, ℕ, zero, suc, ◌≤◌, ◌<◌, ◌≡◌, refl, ap, List, [], ◌∷◌, ◌++◌,
  some, length, arith, All, In, In-append_left, In-append_right, In-append, ◌↔◌, inl, inr,
  Bool-cases,
}
use lindb.Kv.Level.{FileMeta, Level, file_of, IsKeyed}
use lindb.Kv.Level
use lindb.Kv.Version.{
  files_in, in_levels, Version, find_in_levels, find_files, all_in_levels, get_all_files, get_files,
  covers, overlaps, get_overlapping_inputs,
}
use lindb.Kv.Version.Files.{file_in, file_at, IsVersion}

-- A level that holds the file under its number.
abbrev Holds : List Level → FileMeta → Type 0
Holds ls f = (i : ℕ) × (file_in ls i f.file_number ≡ some f)

all_in_levels-Holds :
    (f : FileMeta) (ls : List Level) → All IsKeyed ls → In f (all_in_levels ls) → Holds ls f
unfolding all_in_levels file_in
all_in_levels-Holds f [] k h = absurd h
all_in_levels-Holds f (l ∷ ls) k h = elim (In-append f (Level.get_files l) (all_in_levels ls) h) [
  | inl here ↦ (0, Level.get_files-file_of f l k.0 here)
  | inr later ↦ let (i, e) = all_in_levels-Holds f ls k.1 later in (suc i, e)
]

Holds-all_in_levels :
    (f : FileMeta) (ls : List Level) (i : ℕ)
    → All IsKeyed ls
    → file_in ls i f.file_number ≡ some f
    → In f (all_in_levels ls)
unfolding all_in_levels file_in
Holds-all_in_levels f [] i k e = cc
Holds-all_in_levels f (l ∷ ls) zero k e =
    In-append_left f (Level.get_files l) (all_in_levels ls)
      (Level.file_of-get_files f.file_number f l k.0 e).0
Holds-all_in_levels f (l ∷ ls) (suc i) k e =
    In-append_right f (Level.get_files l) (all_in_levels ls) (Holds-all_in_levels f ls i k.1 e)

-- The files of the key are those of all files that cover it.
find_in_levels-select :
    (key : ℕ) (ls : List Level) → find_in_levels key ls ≡ select (covers key) (all_in_levels ls)
unfolding find_in_levels all_in_levels
find_in_levels-select key [] = refl
find_in_levels-select key (l ∷ ls) =
    rw (select-append (covers key) (Level.get_files l) (all_in_levels ls))
      (ap (λ t. select (covers key) (Level.get_files l) ++ t) (find_in_levels-select key ls))

-- `getAllFiles` of a version lists exactly the files that some level holds under their numbers.
pub In-get_all_files :
    (v : Version) (f : FileMeta)
    → IsVersion v
    → In f (get_all_files v) ↔ ((i : ℕ) × (file_at v i f.file_number ≡ some f))
unfolding get_all_files file_at
In-get_all_files v f valid = (
  all_in_levels-Holds f v.levels valid.keyed,
  λ h. Holds-all_in_levels f v.levels h.0 valid.keyed h.1,
)

-- `findFiles` of a key lists exactly the files that some level holds and whose key range, bounds
-- included, has the key in it.
pub In-find_files :
    (v : Version) (key : ℕ) (f : FileMeta)
    → IsVersion v
    → In f (find_files key v)
      ↔ ((i : ℕ) × (file_at v i f.file_number ≡ some f) × (f.min_key ≤ key) × (key ≤ f.max_key))
unfolding find_files get_all_files
In-find_files v key f valid = (to, from)
  where
    to :
        In f (find_in_levels key v.levels)
        → (i : ℕ) × (file_at v i f.file_number ≡ some f) × (f.min_key ≤ key) × (key ≤ f.max_key)
    to h =
        let (all, hit) =
          (In-select (covers key) f (all_in_levels v.levels)).0 (rw find_in_levels-select at h) in
        let (i, e) = (In-get_all_files v f valid).0 all in (i, e, ground arith, ground arith)

    from :
        (i : ℕ) × (file_at v i f.file_number ≡ some f) × (f.min_key ≤ key) × (key ≤ f.max_key)
        → In f (find_in_levels key v.levels)
    from (i, e, lo, hi) = rw find_in_levels-select (
        (In-select (covers key) f (all_in_levels v.levels)).1
          ((In-get_all_files v f valid).1 (i, e), ground arith))

files_in-file_in :
    (ls : List Level) (i : ℕ) (f : FileMeta)
    → All IsKeyed ls
    → In f (files_in ls i) ↔ (file_in ls i f.file_number ≡ some f)
unfolding files_in file_in
files_in-file_in [] i f k = (λ h. absurd h, λ e. cc)
files_in-file_in (l ∷ ls) zero f k =
    (Level.get_files-file_of f l k.0, λ e. (Level.file_of-get_files f.file_number f l k.0 e).0)
files_in-file_in (l ∷ ls) (suc i) f k = files_in-file_in ls i f k.1

file_in-lt : (ls : List Level) (i n : ℕ) (f : FileMeta) → file_in ls i n ≡ some f → i < length ls
unfolding file_in
file_in-lt [] i n f e = cc
file_in-lt (l ∷ ls) zero n f e = omega arith
file_in-lt (l ∷ ls) (suc i) n f e = omega (arith, file_in-lt ls i n f e)

-- `getFiles` of a level lists exactly the files that it holds under their numbers.
pub In-get_files :
    (v : Version) (i : ℕ) (f : FileMeta)
    → IsVersion v
    → In f (get_files i v) ↔ (file_at v i f.file_number ≡ some f)
unfolding get_files file_at
In-get_files v i f valid = elim (Bool-cases (in_levels i v)) [
  | inl inside ↦ rw inside (files_in-file_in v.levels i f valid.keyed)
  | inr outside ↦ rw outside (
    λ h. absurd h,
    λ e. let lt = file_in-lt v.levels i f.file_number f e in absurd (ground arith),
  )
]

-- Of these `getOverlappingInputs` lists exactly those whose key range, bounds included, meets the
-- range from `min_key` to `max_key`.
pub In-get_overlapping_inputs :
    (v : Version) (i min_key max_key : ℕ) (f : FileMeta)
    → IsVersion v
    → In f (get_overlapping_inputs i min_key max_key v)
      ↔ ((file_at v i f.file_number ≡ some f) × (min_key ≤ f.max_key) × (f.min_key ≤ max_key))
unfolding get_overlapping_inputs
In-get_overlapping_inputs v i min_key max_key f valid =
    let listed = In-get_files v i f valid in
    let chosen = In-select (overlaps min_key max_key) f (get_files i v) in
    (
      λ h. let (j, hit) = chosen.0 h in (listed.0 j, ground arith, ground arith),
      λ h. chosen.1 (listed.1 h.0, ground arith),
    )
