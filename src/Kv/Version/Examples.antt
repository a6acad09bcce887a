-- ===== src/Kv/Version/Examples.antt =====
-- Tests of version.go, and its theorems at concrete inputs.
use lindb.Base.{
  insert, delete, ◌↔◌, ℕ, ◌≡◌, ◌≤◌, refl, In, [], ◌∷◌, none, some, if◌then◌else◌, ◌==◌, length,
}
use lindb.Base.Words.{lt64}
use lindb.Kv.Level.{FileMeta, Level}
use lindb.Kv.Level
use lindb.Kv.Samples.{low_file, up_file, two_levels, two_levels-IsVersion}
use lindb.Kv.Version.{
  Version, Inputs, in_levels, get_files, find_files, number_of_files_in_level,
  get_overlapping_inputs, pick_l0_compaction, clone_version, find_in_levels, pick_up_inputs,
  add_up_inputs, files_in,
}
use lindb.Kv.Version.Files.{file_at, IsVersion}
use lindb.Kv.Version.Select.{In-find_files}
use lindb.Kv.Version.Clone.{clone_version-file_at}
use lindb.Kv.Version.Pick.{number_of_files_in_level_lem, pick_l0_compaction-In, Meets}

find_files_18 : find_files 18 two_levels ≡ low_file ∷ up_file ∷ []
unfolding find_files find_in_levels Level.get_files
find_files_18 = refl

pick_one :
    pick_l0_compaction 1 two_levels
    ≡ some (some (record { level_inputs = low_file ∷ []; level_up_inputs = up_file ∷ [] }))
unfolding pick_l0_compaction pick_up_inputs add_up_inputs get_overlapping_inputs get_files files_in
    number_of_files_in_level Level.get_files Level.number_of_files insert delete
pick_one = refl

In-find_files_example :
    In up_file (find_files 18 two_levels)
    ↔ ((i : ℕ) × (file_at two_levels i 3 ≡ some up_file) × (15 ≤ 18) × (18 ≤ 30))
In-find_files_example = In-find_files two_levels 18 up_file two_levels-IsVersion

clone_version-file_at_example :
    (w : Version) × (clone_version 9 2 two_levels ≡ some w)
    × IsVersion w
    × (w.id ≡ 9)
    × (w.num_of_levels ≡ 2)
    × ((i k : ℕ) → file_at w i k ≡ file_at two_levels i k)
clone_version-file_at_example = clone_version-file_at two_levels 9 two_levels-IsVersion

number_of_files_in_level_lem_example : number_of_files_in_level 2 two_levels ≡ (
    if in_levels 2 two_levels
    then some (length (get_files 2 two_levels))
    else if 2 == 2
    then none
    else some 0)
number_of_files_in_level_lem_example =
    number_of_files_in_level_lem two_levels 2 two_levels-IsVersion

pick_l0_compaction-In_example :
    (inputs : Inputs) × (pick_l0_compaction 1 two_levels
      ≡ (if lt64 (length (get_files 0 two_levels)) 1 then some none else some (some inputs)))
    × (inputs.level_inputs ≡ get_files 0 two_levels)
    × ((f : FileMeta)
        → In f inputs.level_up_inputs ↔ (
            (file_at two_levels 1 f.file_number ≡ some f) × Meets two_levels f inputs.level_inputs))
pick_l0_compaction-In_example = pick_l0_compaction-In two_levels 1 two_levels-IsVersion
