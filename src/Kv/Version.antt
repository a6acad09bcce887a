-- ===== src/Kv/Version.antt =====
-- kv/version/version.go and kv/version/compact.go, as far as they work on the levels of one
-- version. The reference count of a version is in `VersionSet`.
pub mod Files
pub mod Select
pub mod Clone
pub mod Pick
mod Examples
use lindb.Base.{
  select, ℕ, zero, suc, ◌+◌, ◌-◌, ◌^◌, ◌≡◌, Bool, true, false, not, ◌&&◌, ◌||◌, List, [], ◌∷◌, ◌++◌,
  Option, none, some, Map, values, insert, if◌then◌else◌, ltb, leb, ◌==◌, get_elem?, replicate,
  length, ℕ-Key,
}
use lindb.Base.Words.{is_neg64, lt64}
use lindb.Kv.Level.{FileMeta, Level, new_level, number_of_files}
use lindb.Kv.Level

pub record Version : Type 0 where
  pub id : ℕ
  pub num_of_levels : ℕ
  pub levels : List Level

-- `newVersion`: `none` is the panic on a number of levels that is not positive.
unfoldable pub new_version : ℕ → ℕ → Option Version
new_version id num_of_levels =
    if num_of_levels == 0 || is_neg64 num_of_levels
    then none
    else some (record {
      id = id;
      num_of_levels = num_of_levels;
      levels = replicate num_of_levels new_level;
    })

-- `level >= 0 && level < v.numOfLevels` for an int `level`.
abbrev pub in_levels : ℕ → Version → Bool
in_levels level v = not (is_neg64 level) && ltb level v.num_of_levels

-- `v.levels[level]` in place; nothing beyond the slice.
unfoldable pub modify {ℓ} : {A : Type ℓ} → ℕ → (A → A) → List A → List A
modify i f [] = []
modify zero f (x ∷ xs) = f x ∷ xs
modify (suc i) f (x ∷ xs) = x ∷ modify i f xs

-- `NumberOfFilesInLevel`: `none` is the panic of an index out of range.
unfoldable pub number_of_files_in_level : ℕ → Version → Option ℕ
number_of_files_in_level level v =
    if is_neg64 level || ltb v.num_of_levels level
    then some 0
    else elim (get_elem? v.levels level) [ none ↦ none | some l ↦ some (number_of_files l) ]

-- `v.levels[i].getFiles()`; no files beyond the slice.
unfoldable pub files_in : List Level → ℕ → List FileMeta
files_in [] i = []
files_in (l ∷ ls) zero = Level.get_files l
files_in (l ∷ ls) (suc i) = files_in ls i

unfoldable pub get_files : ℕ → Version → List FileMeta
get_files level v = if in_levels level v then files_in v.levels level else []

unfoldable pub add_file : ℕ → FileMeta → Version → Version
add_file level file v =
    if in_levels level v
    then record v { levels = modify level (Level.add_file file) v.levels }
    else v

unfoldable pub add_files : ℕ → List FileMeta → Version → Version
add_files level files v =
    if in_levels level v
    then record v { levels = modify level (Level.add_files files) v.levels }
    else v

unfoldable pub delete_file : ℕ → ℕ → Version → Version
delete_file level file_number v =
    if in_levels level v
    then record v { levels = modify level (Level.delete_file file_number) v.levels }
    else v

-- `findFiles`: the two loops, over the levels and over the files of each.
abbrev pub covers : ℕ → FileMeta → Bool
covers key file = leb file.min_key key && leb key file.max_key

unfoldable pub find_in_levels : ℕ → List Level → List FileMeta
find_in_levels key [] = []
find_in_levels key (l ∷ ls) = select (covers key) (Level.get_files l) ++ find_in_levels key ls

unfoldable pub find_files : ℕ → Version → List FileMeta
find_files key v = find_in_levels key v.levels

unfoldable pub all_in_levels : List Level → List FileMeta
all_in_levels [] = []
all_in_levels (l ∷ ls) = Level.get_files l ++ all_in_levels ls

unfoldable pub get_all_files : Version → List FileMeta
get_all_files v = all_in_levels v.levels

-- `cloneVersion` into the empty version `v`: the levels from the `i`-th on, and the files of each.
unfoldable pub clone_files : ℕ → List FileMeta → Version → Version
clone_files i [] v = v
clone_files i (file ∷ files) v = clone_files i files (add_file i file v)

unfoldable pub clone_levels : ℕ → List Level → Version → Version
clone_levels i [] v = v
clone_levels i (l ∷ ls) v = clone_levels (suc i) ls (clone_files i (values l.files) v)

-- The new version has an id of its own; its number of levels is the store's.
unfoldable pub clone_version : ℕ → ℕ → Version → Option Version
clone_version id num_of_levels v = elim (new_version id num_of_levels) [
  | none ↦ none
  | some empty ↦ some (clone_levels 0 v.levels empty)
]

-- `getOverlappingInputs` skips a file that lies before or after the range.
abbrev pub overlaps : ℕ → ℕ → FileMeta → Bool
overlaps min_key max_key file = not (ltb file.max_key min_key || ltb max_key file.min_key)

unfoldable pub get_overlapping_inputs : ℕ → ℕ → ℕ → Version → List FileMeta
get_overlapping_inputs level min_key max_key v =
    select (overlaps min_key max_key) (get_files level v)

-- The loops of `PickL0Compaction` that fill `levelUpInputMap`.
unfoldable pub add_up_inputs : List FileMeta → Map ℕ FileMeta → Map ℕ FileMeta
add_up_inputs [] m = m
add_up_inputs (file ∷ files) m = add_up_inputs files (insert file.file_number file m)

unfoldable pub pick_up_inputs : Version → List FileMeta → Map ℕ FileMeta → Map ℕ FileMeta
pick_up_inputs v [] m = m
pick_up_inputs v (low ∷ lows) m =
    pick_up_inputs v lows (add_up_inputs (get_overlapping_inputs 1 low.min_key low.max_key v) m)

-- The inputs of a picked compaction; `NewCompaction` keeps them beside an empty edit log.
pub record Inputs : Type 0 where
  pub level_inputs : List FileMeta
  pub level_up_inputs : List FileMeta

-- `PickL0Compaction`: outside `none` the panic of `NumberOfFilesInLevel`, inside it `nil`.
unfoldable pub pick_l0_compaction : ℕ → Version → Option (Option Inputs)
pick_l0_compaction compact_threshold v = elim (number_of_files_in_level 0 v) [
  | none ↦ none
  | some n ↦
      if lt64 n compact_threshold
      then some none
      else some (
          some (record {
            level_inputs = get_files 0 v;
            level_up_inputs = values (pick_up_inputs v (get_files 0 v) []);
          }))
]
