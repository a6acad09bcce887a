-- ===== src/Kv/Version/Clone.antt =====
-- `cloneVersion` keeps every file where it is.
use native.Mathlib.Nat.{zero-add}
use lindb.Base.{
  length-replicate, replicate, ◌^◌, zero, suc, ap, All, ◌≤◌, length, refl, ℕ-Key, ◌+◌, List, ℕ, ◌<◌,
  ◌≡◌, ◌∙◌, [], ◌∷◌, Option, none, some, if◌then◌else◌, ◌==◌, arith, Map, values, lookup,
}
use lindb.Kv.Level.{new_level, IsKeyed, Level, FileMeta, Keyed}
use lindb.Kv.Version.{clone_version, new_version, clone_levels, Version, add_file, clone_files}
use lindb.Kv.Version.Files.{
  add_file-num_of_levels, file_in, file_at, IsVersion, file_at-add_file, add_file-IsVersion,
}

-- The first that is there.
abbrev pub or_else : Option FileMeta → Option FileMeta → Option FileMeta
or_else none y = y
or_else (some x) y = some x

add_file-id : (i : ℕ) (f : FileMeta) (v : Version) → (add_file i f v).id ≡ v.id
unfolding add_file
add_file-id i f v = ground arith

-- Files that are added to level `i` one by one are found there, in front of what it held.
pub file_at-clone_files :
    (i j n : ℕ) (m : Map ℕ FileMeta) (v : Version)
    → IsVersion v
    → i < v.num_of_levels
    → Keyed m
    → file_at (clone_files i (values m) v) j n
      ≡ (if i == j then or_else (lookup n m) (file_at v j n) else file_at v j n)
unfolding clone_files lookup
file_at-clone_files i j n [] v valid h k = ground arith
file_at-clone_files i j n ((k, f) ∷ m) v valid h (own, once, rest) =
    file_at-clone_files i j n m (add_file i f v) (add_file-IsVersion v valid i f)
      (rw add_file-num_of_levels h) rest
    ∙ ground (arith, file_at-add_file v valid i f j n, once)

clone_files-IsVersion :
    (i : ℕ) (fs : List FileMeta) (v : Version)
    → IsVersion v
    → IsVersion (clone_files i fs v)
      × ((clone_files i fs v).num_of_levels ≡ v.num_of_levels)
      × ((clone_files i fs v).id ≡ v.id)
unfolding clone_files
clone_files-IsVersion i [] v valid = (valid, refl, refl)
clone_files-IsVersion i (f ∷ fs) v valid =
    let (a, b, c) = clone_files-IsVersion i fs (add_file i f v) (add_file-IsVersion v valid i f) in
    (a, b ∙ add_file-num_of_levels i f v, c ∙ add_file-id i f v)

-- Levels that are cloned from the `i`-th on leave the levels below as they were.
file_at-clone_levels_below :
    (i : ℕ) (ls : List Level) (v : Version) (j n : ℕ)
    → IsVersion v
    → i + length ls ≤ v.num_of_levels
    → All IsKeyed ls
    → j < i
    → file_at (clone_levels i ls v) j n ≡ file_at v j n
unfolding clone_levels
file_at-clone_levels_below i [] v j n valid h k lt = refl
file_at-clone_levels_below i (l ∷ ls) v j n valid h k lt =
    let (valid', nums, _) = clone_files-IsVersion i (values l.files) v valid in
    file_at-clone_levels_below (suc i) ls (clone_files i (values l.files) v) j n valid'
      (omega (arith, nums)) k.1 (omega arith)
    ∙ file_at-clone_files i j n l.files v valid (omega arith) k.0
    ∙ ground arith

-- They hold the files of the list, in front of what was there.
pub file_at-clone_levels :
    (i : ℕ) (ls : List Level) (v : Version) (d n : ℕ)
    → IsVersion v
    → i + length ls ≤ v.num_of_levels
    → All IsKeyed ls
    → file_at (clone_levels i ls v) (i + d) n ≡ or_else (file_in ls d n) (file_at v (i + d) n)
unfolding clone_levels file_in
file_at-clone_levels i [] v d n valid h k = refl
file_at-clone_levels i (l ∷ ls) v zero n valid h k =
    let (valid', nums, _) = clone_files-IsVersion i (values l.files) v valid in
    file_at-clone_levels_below (suc i) ls (clone_files i (values l.files) v) (i + 0) n valid'
      (omega (arith, nums)) k.1 (omega arith)
    ∙ file_at-clone_files i (i + 0) n l.files v valid (omega arith) k.0
    ∙ ground arith
file_at-clone_levels i (l ∷ ls) v (suc d) n valid h k =
    let (valid', nums, _) = clone_files-IsVersion i (values l.files) v valid in
    let next : i + suc d ≡ suc i + d = omega arith in
    rw next (
      file_at-clone_levels (suc i) ls (clone_files i (values l.files) v) d n valid'
        (omega (arith, nums)) k.1
      ∙ ap (or_else (file_in ls d n))
          (file_at-clone_files i (suc i + d) n l.files v valid (omega arith) k.0 ∙ ground arith))

clone_levels-IsVersion :
    (i : ℕ) (ls : List Level) (v : Version)
    → IsVersion v
    → IsVersion (clone_levels i ls v)
      × ((clone_levels i ls v).num_of_levels ≡ v.num_of_levels)
      × ((clone_levels i ls v).id ≡ v.id)
unfolding clone_levels
clone_levels-IsVersion i [] v valid = (valid, refl, refl)
clone_levels-IsVersion i (l ∷ ls) v valid =
    let (a, b, c) = clone_files-IsVersion i (values l.files) v valid in
    let (a', b', c') = clone_levels-IsVersion (suc i) ls (clone_files i (values l.files) v) a in
    (a', b' ∙ b, c' ∙ c)

-- The version that `newVersion` starts with.
abbrev pub empty_version : ℕ → ℕ → Version
empty_version id n = record { id = id; num_of_levels = n; levels = replicate n new_level }

pub new_version_lem : (id n : ℕ) → 0 < n → n < 2 ^ 63 → new_version id n ≡ some (empty_version id n)
unfolding new_version
new_version_lem id n h k = ground arith

empty-IsKeyed : (n : ℕ) → All IsKeyed (replicate n new_level)
empty-IsKeyed zero = tt
empty-IsKeyed (suc n) = (tt, empty-IsKeyed n)

pub empty_version-IsVersion : (id n : ℕ) → 0 < n → n < 2 ^ 63 → IsVersion (empty_version id n)
empty_version-IsVersion id n h k = record {
  sized = length-replicate n new_level;
  positive = h;
  small = k;
  keyed = empty-IsKeyed n;
}

file_in-replicate : (n i k : ℕ) → file_in (replicate n new_level) i k ≡ none
unfolding file_in lookup
file_in-replicate zero i k = refl
file_in-replicate (suc n) zero k = refl
file_in-replicate (suc n) (suc i) k = file_in-replicate n i k

pub file_at-empty_version : (id n i k : ℕ) → file_at (empty_version id n) i k ≡ none
unfolding file_at
file_at-empty_version id n i k = file_in-replicate n i k

or_else-none : (x : Option FileMeta) → or_else x none ≡ x
or_else-none none = refl
or_else-none (some x) = refl

-- The levels of a version, cloned into an empty one, hold its files.
pub file_at-clone_empty :
    (v : Version) (id i k : ℕ)
    → IsVersion v
    → file_at (clone_levels 0 v.levels (empty_version id v.num_of_levels)) i k ≡ file_at v i k
unfolding file_at
file_at-clone_empty v id i k valid =
    let start = empty_version id v.num_of_levels in
    let started = empty_version-IsVersion id v.num_of_levels valid.positive valid.small in
    let fits : 0 + length v.levels ≤ v.num_of_levels = omega (arith, valid.sized) in
    (rw zero-add at (file_at-clone_levels 0 v.levels start i k started fits valid.keyed))
    ∙ ap (or_else (file_in v.levels i k)) (file_at-empty_version id v.num_of_levels i k)
    ∙ or_else-none (file_in v.levels i k)

-- `cloneVersion` of a version gives one with the new id and as many levels, that is as well formed
-- and holds the same file at every level and number.
pub clone_version-file_at :
    (v : Version) (id : ℕ)
    → IsVersion v
    → (w : Version) × (clone_version id v.num_of_levels v ≡ some w)
      × IsVersion w
      × (w.id ≡ id)
      × (w.num_of_levels ≡ v.num_of_levels)
      × ((i k : ℕ) → file_at w i k ≡ file_at v i k)
unfolding clone_version
clone_version-file_at v id valid =
    let start = empty_version id v.num_of_levels in
    let (valid', many, same) =
      clone_levels-IsVersion 0 v.levels start
        (empty_version-IsVersion id v.num_of_levels valid.positive valid.small) in
    (
      clone_levels 0 v.levels start,
      rw (new_version_lem id v.num_of_levels valid.positive valid.small, clone_version),
      valid',
      same,
      many,
      λ i k. file_at-clone_empty v id i k valid,
    )
