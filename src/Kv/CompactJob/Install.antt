-- ===== src/Kv/CompactJob/Install.antt =====
-- What the edit log of a compaction job does to the version that it is applied to.
use lindb.Base.{
  ℕ, ◌+◌, ◌<◌, ◌^◌, ◌≡◌, refl, ap, ◌∙◌, ◌&&◌, if◌then◌else◌, ◌==◌, List, [], ◌∷◌, ◌++◌, Option,
  none, some, arith, append_assoc, append-nil,
}
use lindb.Base.Words.{to_word32, to_int64, next64}
use lindb.Kv.Level.{FileMeta}
use lindb.Kv.Version.{Version, Inputs, add_file, delete_file}
use lindb.Kv.Version.Files.{
  IsVersion, file_at, file_at-add_file, file_at-delete_file, add_file-IsVersion,
  delete_file-IsVersion, add_file-num_of_levels, delete_file-num_of_levels,
}
use lindb.Kv.Version.Clone.{or_else}
use lindb.Kv.Log.{Log, new_file}
use lindb.Kv.Log
use lindb.Kv.EditLog.{
  apply_logs, Compaction, new_compaction, mark_input_deletes, compaction_add_file,
  compaction_delete_file, add,
}
use lindb.Kv.EditLog.Compact.{
  apply_logs-append, is_input, mark_input_deletes-file_at, mark_input_deletes-IsVersion,
}
use lindb.Kv.CompactJob.{Job, add_outputs, install_results, move_compaction}

-- The last file of a list with a number.
abbrev pub last_of : ℕ → List FileMeta → Option FileMeta
last_of n [] = none
last_of n (f ∷ fs) = or_else (last_of n fs) (if f.file_number == n then some f else none)

adds : ℕ → List FileMeta → List Log
adds level [] = []
adds level (f ∷ fs) = new_file (to_word32 level) f ∷ adds level fs

add_outputs-logs :
    (level : ℕ) (fs : List FileMeta) (c : Compaction)
    → (add_outputs level fs c).edit_log.logs ≡ c.edit_log.logs ++ adds level fs
unfolding add_outputs adds compaction_add_file add
add_outputs-logs level [] c = simp append-nil
add_outputs-logs level (f ∷ fs) c =
    add_outputs-logs level fs (compaction_add_file level f c)
    ∙ append_assoc c.edit_log.logs (new_file (to_word32 level) f ∷ []) (adds level fs)

file_at-adds :
    (level : ℕ) (fs : List FileMeta) (v : Version) (j n : ℕ)
    → IsVersion v
    → level < 2 ^ 31
    → level < v.num_of_levels
    → file_at (apply_logs (adds level fs) v) j n
      ≡ (if level == j then or_else (last_of n fs) (file_at v j n) else file_at v j n)
unfolding apply_logs adds Log.apply
file_at-adds level [] v j n valid small h = ground arith
file_at-adds level (f ∷ fs) v j n valid small h =
    let same : to_int64 (to_word32 level) ≡ level = ground arith in
    ap (λ k. file_at (apply_logs (adds level fs) (add_file k f v)) j n) same
    ∙ file_at-adds level fs (add_file level f v) j n (add_file-IsVersion v valid level f) small
        (rw add_file-num_of_levels h)
    ∙ or_else-step level j n f (last_of n fs) (file_at v j n) _
        (file_at-add_file v valid level f j n ∙ ground arith)
  where
    or_else-step :
        (level j n : ℕ) (f : FileMeta) (x o p : Option FileMeta)
        → p ≡ (if level == j && f.file_number == n then some f else o)
        → (if level == j then or_else x p else p) ≡ (
            if level == j
            then or_else (or_else x (if f.file_number == n then some f else none)) o
            else o)
    or_else-step level j n f none o p h = ground arith
    or_else-step level j n f (some y) o p h = ground arith

-- The edit log of a merge compaction of `level`, applied to a version that has this level and the
-- next one: at the next level the outputs are found under their numbers; else the inputs, those of
-- the level and those of the next level, are gone, and every other file is where it was.
pub install_results-file_at :
    (family_id level : ℕ) (inputs : Inputs) (job : Job) (v : Version) (j n : ℕ)
    → job.compaction ≡ new_compaction family_id level inputs
    → IsVersion v
    → level + 1 < 2 ^ 31
    → level + 1 < v.num_of_levels
    → file_at (apply_logs (install_results job).edit_log.logs v) j n ≡ (
        if level + 1 == j
        then or_else
            (last_of n job.outputs)
            (if is_input level inputs j n then none else file_at v j n)
        else if is_input level inputs j n
        then none
        else file_at v j n)
unfolding install_results new_compaction
install_results-file_at family_id level inputs job v j n e valid small h =
    let c = mark_input_deletes (new_compaction family_id level inputs) in
    let up : next64 level ≡ level + 1 = ground arith in
    let marked = mark_input_deletes-IsVersion family_id level inputs v valid in
    let v' = apply_logs c.edit_log.logs v in
    ap
      (λ (d : Compaction).
        file_at
          (apply_logs
            (add_outputs (next64 d.level) job.outputs (mark_input_deletes d)).edit_log.logs v)
          j n)
      e
    ∙ ap (λ ls. file_at (apply_logs ls v) j n) (add_outputs-logs (next64 level) job.outputs c)
    ∙ ap (λ w. file_at w j n) (apply_logs-append c.edit_log.logs _ v)
    ∙ ap (λ k. file_at (apply_logs (adds k job.outputs) v') j n) up
    ∙ file_at-adds (level + 1) job.outputs v' j n marked.0 small (rw marked.1 h)
    ∙ ap (λ o. if level + 1 == j then or_else (last_of n job.outputs) o else o)
        (mark_input_deletes-file_at family_id level inputs v j n valid small h)

-- The edit log of a trivial move of a single file of `level`, applied to a version that has this
-- level and the next one, puts the file at the next level under its number, takes what the level
-- had under it, and changes nothing else.
pub move_compaction-file_at :
    (family_id level : ℕ) (file : FileMeta) (v : Version) (j n : ℕ)
    → IsVersion v
    → level + 1 < 2 ^ 31
    → level + 1 < v.num_of_levels
    → (c : Compaction) × (move_compaction (
          new_compaction family_id level
            (record { level_inputs = file ∷ []; level_up_inputs = [] }))
        ≡ some c)
      × (file_at (apply_logs c.edit_log.logs v) j n ≡ (
          if file.file_number == n
          then (if level + 1 == j then some file else if level == j then none else file_at v j n)
          else file_at v j n))
unfolding move_compaction new_compaction compaction_add_file compaction_delete_file add apply_logs
    Log.apply
move_compaction-file_at family_id level file v j n valid small h =
    let k = file.file_number in
    let up : to_int64 (to_word32 (next64 level)) ≡ level + 1 = ground arith in
    let here : to_int64 (to_word32 level) ≡ level = ground arith in
    (
      _,
      refl,
      ap (λ i. file_at (add_file i file (delete_file (to_int64 (to_word32 level)) k v)) j n) up
          ∙ ap (λ i. file_at (add_file (level + 1) file (delete_file i k v)) j n) here
          ∙ ground (
            arith,
            file_at-add_file (delete_file level k v) (delete_file-IsVersion v valid level k)
                (level + 1) file j n,
            file_at-delete_file v valid level k j n,
            delete_file-num_of_levels level k v,
          ),
    )
