-- ===== src/Kv/EditLog/Compact.antt =====
-- The edit log of a compaction job, applied to a version.
use lindb.Base.{
  ◌+◌, append_assoc, append-nil, ℕ, ◌<◌, ◌^◌, ◌≡◌, refl, ap, ◌∙◌, Bool, false, ◌&&◌, ◌||◌,
  if◌then◌else◌, ◌==◌, List, [], ◌∷◌, ◌++◌, none, arith,
}
use lindb.Base.Words.{next64, to_word32, to_int64}
use lindb.Kv.Level.{FileMeta}
use lindb.Kv.Version.{Version, delete_file}
use lindb.Kv.Version.Files.{
  delete_file-num_of_levels, IsVersion, file_at, file_at-delete_file, delete_file-IsVersion,
}
use lindb.Kv.Log.{Log, delete_file_log}
use lindb.Kv.Log
use lindb.Kv.EditLog.{
  new_compaction, Inputs, mark_input_deletes, apply_logs, Compaction, mark_deletes,
  compaction_delete_file, add,
}

pub apply_logs-append :
    (a b : List Log) (v : Version) → apply_logs (a ++ b) v ≡ apply_logs b (apply_logs a v)
unfolding apply_logs
apply_logs-append [] b v = refl
apply_logs-append (log ∷ a) b v = apply_logs-append a b (Log.apply log v)

-- A file of the list has the number.
abbrev pub numbered : ℕ → List FileMeta → Bool
numbered n [] = false
numbered n (f ∷ fs) = f.file_number == n || numbered n fs

-- The logs that `mark_deletes` adds.
deletes : ℕ → List FileMeta → List Log
deletes level [] = []
deletes level (f ∷ fs) = delete_file_log (to_word32 level) f.file_number ∷ deletes level fs

mark_deletes-logs :
    (level : ℕ) (fs : List FileMeta) (c : Compaction)
    → (mark_deletes level fs c).edit_log.logs ≡ c.edit_log.logs ++ deletes level fs
unfolding mark_deletes deletes compaction_delete_file add
mark_deletes-logs level [] c = simp append-nil
mark_deletes-logs level (f ∷ fs) c =
    mark_deletes-logs level fs (compaction_delete_file level f.file_number c)
    ∙ append_assoc c.edit_log.logs (delete_file_log (to_word32 level) f.file_number ∷ [])
        (deletes level fs)

mark_deletes-level_up_inputs :
    (level : ℕ) (fs : List FileMeta) (c : Compaction)
    → (mark_deletes level fs c).level_up_inputs ≡ c.level_up_inputs
unfolding mark_deletes compaction_delete_file
mark_deletes-level_up_inputs level [] c = refl
mark_deletes-level_up_inputs level (f ∷ fs) c =
    mark_deletes-level_up_inputs level fs (compaction_delete_file level f.file_number c)

file_at-deletes :
    (level : ℕ) (fs : List FileMeta) (v : Version) (j n : ℕ)
    → IsVersion v
    → level < 2 ^ 31
    → level < v.num_of_levels
    → file_at (apply_logs (deletes level fs) v) j n
      ≡ (if level == j && numbered n fs then none else file_at v j n)
unfolding apply_logs deletes Log.apply
file_at-deletes level [] v j n valid small h = ground arith
file_at-deletes level (f ∷ fs) v j n valid small h =
    let same : to_int64 (to_word32 level) ≡ level = ground arith in
    ap (λ k. file_at (apply_logs (deletes level fs) (delete_file k f.file_number v)) j n) same
    ∙ file_at-deletes level fs (delete_file level f.file_number v) j n
        (delete_file-IsVersion v valid level f.file_number) small (rw delete_file-num_of_levels h)
    ∙ ground (arith, file_at-delete_file v valid level f.file_number j n)

deletes-IsVersion :
    (level : ℕ) (fs : List FileMeta) (v : Version)
    → IsVersion v
    → IsVersion (apply_logs (deletes level fs) v)
      × ((apply_logs (deletes level fs) v).num_of_levels ≡ v.num_of_levels)
unfolding apply_logs deletes Log.apply
deletes-IsVersion level [] v valid = (valid, refl)
deletes-IsVersion level (f ∷ fs) v valid =
    let i = to_int64 (to_word32 level) in
    let (a, b) =
      deletes-IsVersion level fs (delete_file i f.file_number v)
        (delete_file-IsVersion v valid i f.file_number) in
    (a, b ∙ delete_file-num_of_levels i f.file_number v)

mark_input_deletes-logs :
    (family_id level : ℕ) (inputs : Inputs)
    → (mark_input_deletes (new_compaction family_id level inputs)).edit_log.logs
      ≡ deletes level inputs.level_inputs ++ deletes (next64 level) inputs.level_up_inputs
unfolding mark_input_deletes new_compaction
mark_input_deletes-logs family_id level inputs =
    let c = new_compaction family_id level inputs in
    mark_deletes-logs (next64 level) inputs.level_up_inputs
      (mark_deletes level inputs.level_inputs c)
    ∙ ap (λ ls. ls ++ deletes (next64 level) inputs.level_up_inputs)
        (mark_deletes-logs level inputs.level_inputs c)

pub mark_input_deletes-IsVersion :
    (family_id level : ℕ) (inputs : Inputs) (v : Version)
    → IsVersion v
    → IsVersion
        (apply_logs (mark_input_deletes (new_compaction family_id level inputs)).edit_log.logs v)
      × ((apply_logs
            (mark_input_deletes (new_compaction family_id level inputs)).edit_log.logs
            v).num_of_levels
          ≡ v.num_of_levels)
mark_input_deletes-IsVersion family_id level inputs v valid =
    let low = deletes level inputs.level_inputs in
    let up = deletes (next64 level) inputs.level_up_inputs in
    let (a, b) = deletes-IsVersion level inputs.level_inputs v valid in
    let (a', b') = deletes-IsVersion (next64 level) inputs.level_up_inputs (apply_logs low v) a in
    rw (mark_input_deletes-logs family_id level inputs, apply_logs-append low up v) (a', b' ∙ b)

-- The file is an input that a compaction of `level` marks as deleted.
abbrev pub is_input : ℕ → Inputs → ℕ → ℕ → Bool
is_input level inputs j n =
    (level == j && numbered n inputs.level_inputs)
    || (level + 1 == j && numbered n inputs.level_up_inputs)

-- The edit log of a new compaction after `MarkInputDeletes`, applied to a version that has the
-- compaction's level and the next one, takes away exactly the inputs: those of the level and those
-- of the next level.
pub mark_input_deletes-file_at :
    (family_id level : ℕ) (inputs : Inputs) (v : Version) (j n : ℕ)
    → IsVersion v
    → level + 1 < 2 ^ 31
    → level + 1 < v.num_of_levels
    → file_at
        (apply_logs (mark_input_deletes (new_compaction family_id level inputs)).edit_log.logs v)
        j
        n
      ≡ (if is_input level inputs j n then none else file_at v j n)
mark_input_deletes-file_at family_id level inputs v j n valid small h =
    let low = deletes level inputs.level_inputs in
    let v' = apply_logs low v in
    let up : next64 level ≡ level + 1 = ground arith in
    let (valid', many) = deletes-IsVersion level inputs.level_inputs v valid in
    ap (λ ls. file_at (apply_logs ls v) j n) (mark_input_deletes-logs family_id level inputs)
    ∙ ap (λ w. file_at w j n) (apply_logs-append low _ v)
    ∙ ap (λ k. file_at (apply_logs (deletes k inputs.level_up_inputs) v') j n) up
    ∙ file_at-deletes (level + 1) inputs.level_up_inputs v' j n valid' small (rw many h)
    ∙ ground
        (arith, file_at-deletes level inputs.level_inputs v j n valid (omega arith) (omega arith))
