-- ===== src/Kv/CompactJob.antt =====
-- kv/compact_job.go and kv/compaction_state.go: the merge of a compaction's inputs into new files,
-- and the edit log that installs them. The merged iterator is the list of its pairs.
pub mod Pairs
pub mod Runs
pub mod Merge
pub mod Install
mod Examples
use lindb.Base.{
  ℕ, ◌+◌, ◌-◌, ◌%◌, ◌^◌, Bool, true, false, not, ◌||◌, List, [], ◌∷◌, ◌++◌, Option, none, some,
  length, ltb, ◌==◌, if◌then◌else◌, has, add_key, drop_key, ℕ-Key,
}
use lindb.Base.Words.{next64, to_word32}
use lindb.Kv.Level.{FileMeta}
use lindb.Kv.Table.{Builder, new_store_builder, add, count}
use lindb.Kv.EditLog.{
  Compaction, compaction_delete_file, compaction_add_file, mark_input_deletes, is_trivial_move,
}

-- What the job relies on: the user's `Merger`, what the file system answers for a file number and
-- an offset in it, and the bytes that `Close` adds to a file.
pub record Env : Type 0 where
  pub merge : ℕ → List (List ℕ) → Option (List ℕ)
  pub creates : ℕ → Bool
  pub writes : ℕ → ℕ → Bool
  pub closes : ℕ → Bool
  pub closing_size : Builder → ℕ

pub data JobError : Type 0 where
  merge_failed create_failed write_failed close_failed no_builder : JobError

-- `compactionState`, with the family's counter of file numbers, its pending outputs and the files
-- that are closed.
pub record Job : Type 0 where
  pub outputs : List FileMeta
  pub builder : Option Builder
  pub current_file_number : ℕ
  pub compaction : Compaction
  pub max_file_size : ℕ
  pub next_file_number : ℕ
  pub pending : List ℕ
  pub closed : List Builder

-- `a < b` on int32.
abbrev pub lt32 : ℕ → ℕ → Bool
lt32 a b = ltb ((a + 2 ^ 31) % 2 ^ 32) ((b + 2 ^ 31) % 2 ^ 32)

-- `openCompactionOutputFile`, with `newTableBuilder` of the family.
unfoldable pub open_output : Env → Job → Job × Option JobError
open_output env job =
    let n = (next64 job.next_file_number + 2 ^ 64 - 1) % 2 ^ 64 in
    let job' = record job { next_file_number = next64 job.next_file_number } in
    if env.creates n
    then (
      record job' {
        pending = add_key n job.pending;
        current_file_number = n;
        builder = some (new_store_builder n);
      },
      none,
    )
    else (job', some create_failed)

-- `NewFileMeta` of a file that is closed.
abbrev pub output_meta : Env → Builder → FileMeta
output_meta env b = record {
  file_number = b.file_number;
  min_key = b.min_key;
  max_key = b.max_key;
  file_size = to_word32 (b.size + env.closing_size b);
}

-- `finishCompactionOutputFile`
unfoldable pub finish_output : Env → Job → Job × Option JobError
finish_output env job = elim job.builder [
  | none ↦ (job, some no_builder)
  | some b ↦
      if count b == 0
      then (record job { builder = none }, none)
      else if env.closes b.file_number
      then (
        record job {
          builder = none;
          outputs = job.outputs ++ output_meta env b ∷ [];
          closed = job.closed ++ b ∷ [];
        },
        none,
      )
      else (job, some close_failed)
]

-- The rest of `add` with an open builder.
unfoldable pub add_to : Env → ℕ → List ℕ → Builder → Job → Job × Option JobError
add_to env key value b job =
    let (b', ok) = add (env.writes b.file_number b.size) key value b in
    let job' = record job { builder = some b' } in
    if not ok
    then (job', some write_failed)
    else if lt32 (to_word32 b'.size) job.max_file_size
    then (job', none)
    else finish_output env job'

-- `add`: opens a builder if there is none.
unfoldable pub add_pair : Env → ℕ → List ℕ → Job → Job × Option JobError
add_pair env key value job = if length value == 0 then (job, none) else elim job.builder [
  | some b ↦ add_to env key value b job
  | none ↦
      let (job', err) = open_output env job in
      elim err [
        | some e ↦ (job', some e)
        | none ↦ elim job'.builder [
          | none ↦ (job', some no_builder)
          | some b ↦ add_to env key value b job'
        ]
      ]
]

-- A merge of the values of one key, and the `add` of what it gives.
unfoldable pub merge_add : Env → ℕ → List (List ℕ) → Job → Job × Option JobError
merge_add env key need_merge job = elim (env.merge key need_merge) [
  | none ↦ (job, some merge_failed)
  | some merged ↦ add_pair env key merged job
]

-- The loop of `doMerge`: the pairs left, `needMerge`, `previousKey`, `start` and the state.
unfoldable pub merge_loop :
    Env
    → List (ℕ × List ℕ)
    → List (List ℕ)
    → ℕ
    → Bool
    → Job
    → (List (List ℕ) × ℕ × Job) × Option JobError
merge_loop env [] need_merge previous_key start job = ((need_merge, previous_key, job), none)
merge_loop env ((key, value) ∷ pairs) need_merge previous_key start job =
    elim (start || key == previous_key) [
      | true ↦ merge_loop env pairs (need_merge ++ value ∷ []) key false job
      | false ↦
          let (job', err) = merge_add env previous_key need_merge job in
          elim err [
            | some e ↦ ((need_merge, previous_key, job'), some e)
            | none ↦ merge_loop env pairs (value ∷ []) key start job'
          ]
    ]

-- What `doMerge` does after the loop: the values that are pending, then the open builder.
unfoldable pub end_merge : Env → List (List ℕ) → ℕ → Job → Job × Option JobError
end_merge env need_merge previous_key job =
    let (job', err) =
      if ltb 0 (length need_merge)
      then merge_add env previous_key need_merge job
      else (job, none) in
    elim err [
      | some e ↦ (job', some e)
      | none ↦ elim job'.builder [ none ↦ (job', none) | some b ↦ finish_output env job' ]
    ]

unfoldable pub do_merge : Env → List (ℕ × List ℕ) → Job → Job × Option JobError
do_merge env pairs job =
    let ((need_merge, previous_key, job'), err) = merge_loop env pairs [] 0 true job in
    elim err [ some e ↦ (job', some e) | none ↦ end_merge env need_merge previous_key job' ]

-- `cleanupCompaction`: the abandoned file and the outputs are pending no more.
unfoldable pub drop_outputs : List FileMeta → List ℕ → List ℕ
drop_outputs [] pending = pending
drop_outputs (output ∷ outputs) pending = drop_outputs outputs (drop_key output.file_number pending)

unfoldable pub cleanup : Job → Job
cleanup job =
    let pending : List ℕ = elim job.builder [
      | none ↦ job.pending
      | some b ↦ drop_key job.current_file_number job.pending
    ] in
    record job { pending = drop_outputs job.outputs pending }

-- `installCompactionResults` up to the commit: the inputs are deleted, the outputs added to the
-- next level.
unfoldable pub add_outputs : ℕ → List FileMeta → Compaction → Compaction
add_outputs level [] c = c
add_outputs level (output ∷ outputs) c =
    add_outputs level outputs (compaction_add_file level output c)

unfoldable pub install_results : Job → Compaction
install_results job =
    add_outputs (next64 job.compaction.level) job.outputs (mark_input_deletes job.compaction)

-- `mergeCompaction`: the compaction to commit, or the error; the clean-up comes in both cases.
unfoldable pub merge_compaction :
    Env → List (ℕ × List ℕ) → Job → Job × Option JobError × Option Compaction
merge_compaction env pairs job =
    let (job', err) = do_merge env pairs job in
    elim err [
      | some e ↦ (cleanup job', some e, none)
      | none ↦ (cleanup job', none, some (install_results job'))
    ]

-- `moveCompaction` up to the commit; the first of the level's files is the only one.
unfoldable pub move_compaction : Compaction → Option Compaction
move_compaction c = elim c.level_inputs [
  | [] ↦ none
  | file ∷ files ↦ some (
      compaction_add_file (next64 c.level) file (compaction_delete_file c.level file.file_number c))
]

-- `run`: a single file is moved, else the inputs are merged. The compaction is what is committed.
unfoldable pub run : Env → List (ℕ × List ℕ) → Job → Job × Option JobError × Option Compaction
run env pairs job =
    if is_trivial_move job.compaction
    then (job, none, move_compaction job.compaction)
    else merge_compaction env pairs job
