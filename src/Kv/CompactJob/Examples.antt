-- ===== src/Kv/CompactJob/Examples.antt =====
-- Tests of compact_job.go, and its theorems at concrete inputs.
use lindb.Base.{
  ℕ, ◌≡◌, ◌+◌, refl, List, [], ◌∷◌, ◌++◌, none, some, true, if◌then◌else◌, ◌==◌, arith, lookup,
  ℕ-Key,
}
use lindb.Kv.Samples.{two_levels, two_levels-IsVersion, low_file, up_file, new_file_meta}
use lindb.Kv.Version.{Inputs}
use lindb.Kv.Version.Clone.{or_else}
use lindb.Kv.Version.Files.{file_at}
use lindb.Kv.EditLog.{Compaction, new_compaction, apply_logs}
use lindb.Kv.EditLog.Compact.{is_input}
use lindb.Kv.CompactJob.{Env, Job, do_merge, install_results, move_compaction}
use lindb.Kv.CompactJob.Install.{last_of, install_results-file_at, move_compaction-file_at}
use lindb.Kv.CompactJob.Pairs.{Works, written_pairs}
use lindb.Kv.CompactJob.Runs.{Rising, merged_value}
use lindb.Kv.CompactJob.Merge.{do_merge-merged_value}

-- A merger that keeps the values one behind the other.
abbrev joined : ℕ → List (List ℕ) → List ℕ
joined key [] = []
joined key (v ∷ vs) = v ++ joined key vs

abbrev env : Env
env = record {
  merge = λ key vs. some (joined key vs);
  creates = λ n. true;
  writes = λ n offset. true;
  closes = λ n. true;
  closing_size = λ b. 17;
}

env-Works : Works env
env-Works = record { creates = λ n. refl; writes = λ n o. refl; closes = λ n. refl }

abbrev picked : Inputs
picked = record { level_inputs = low_file ∷ []; level_up_inputs = up_file ∷ [] }

abbrev new_job : Job
new_job = record {
  outputs = [];
  builder = none;
  current_file_number = 0;
  compaction = new_compaction 1 0 picked;
  max_file_size = 100;
  next_file_number = 8;
  pending = [];
  closed = [];
}

abbrev merged_job : Job
merged_job = record new_job { outputs = new_file_meta ∷ [] }

-- Key 5 is in two of the inputs.
abbrev input_pairs : List (ℕ × List ℕ)
input_pairs = (5, 1 ∷ []) ∷ (5, 2 ∷ []) ∷ (9, 3 ∷ []) ∷ []

five_merged : merged_value joined 5 input_pairs ≡ some (1 ∷ 2 ∷ [])
five_merged = refl

do_merge-merged_value_example :
    ((do_merge env input_pairs new_job).1 ≡ none)
    × ((do_merge env input_pairs new_job).0.builder ≡ none)
    × (out : List (ℕ × List ℕ)) × (written_pairs (do_merge env input_pairs new_job).0
        ≡ written_pairs new_job ++ out)
    × Rising 0 out
    × ((key : ℕ) → lookup key out ≡ merged_value joined key input_pairs)
do_merge-merged_value_example =
    do_merge-merged_value env joined input_pairs new_job env-Works (λ key vs. refl)
      (omega arith, (omega arith, (omega arith, tt))) refl

install_results-file_at_example :
    file_at (apply_logs (install_results merged_job).edit_log.logs two_levels) 1 7 ≡ (
      if 0 + 1 == 1
      then or_else
          (last_of 7 (new_file_meta ∷ []))
          (if is_input 0 picked 1 7 then none else file_at two_levels 1 7)
      else if is_input 0 picked 1 7
      then none
      else file_at two_levels 1 7)
install_results-file_at_example =
    install_results-file_at 1 0 picked merged_job two_levels 1 7 refl two_levels-IsVersion
      (omega arith) (omega arith)

move_compaction-file_at_example :
    (c : Compaction) × (move_compaction
        (new_compaction 1 0 (record { level_inputs = low_file ∷ []; level_up_inputs = [] }))
      ≡ some c)
    × (file_at (apply_logs c.edit_log.logs two_levels) 1 4 ≡ (
        if 4 == 4
        then (if 0 + 1 == 1 then some low_file else if 0 == 1 then none else file_at two_levels 1 4)
        else file_at two_levels 1 4))
move_compaction-file_at_example =
    move_compaction-file_at 1 0 low_file two_levels 1 4 two_levels-IsVersion (omega arith)
      (omega arith)
