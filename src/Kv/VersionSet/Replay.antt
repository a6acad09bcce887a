-- ===== src/Kv/VersionSet/Replay.antt =====
-- What the logs of an edit log do to the files of a version, as `recover` and `createFamilySnapshot`
-- use them: by the file at each level and number, not by the order in memory.
use lindb.Base.Words.{to_word32, to_int64}
use lindb.Base.{
  ℕ, suc, ◌+◌, ◌^◌, ◌<◌, ◌≤◌, ◌≡◌, refl, ap, ◌∙◌, List, [], ◌∷◌, length, arith, values,
}
use lindb.Kv.Level.{Level, FileMeta, get_files}
use lindb.Kv.Log.{Log, new_file, delete_file_log, next_file_number}
use lindb.Kv.Log
use lindb.Base.Words.{to_word32, to_int64}
use lindb.Kv.EditLog.Compact.{apply_logs-append}
use lindb.Kv.EditLog.{apply_logs}
use lindb.Kv.Version.{Version, clone_files, clone_levels, add_file, delete_file}
use lindb.Kv.Version.Files.{
  add_file-num_of_levels, delete_file-num_of_levels, file_at, IsVersion, file_at-add_file,
  file_at-delete_file, add_file-IsVersion, delete_file-IsVersion,
}
use lindb.Kv.Version.Clone.{empty_version, file_at-clone_empty}
use lindb.Kv.VersionSet.{level_logs, levels_logs, create_family_snapshot}

apply_logs-level_logs :
    (i : ℕ) (files : List FileMeta) (v : Version)
    → i < 2 ^ 31
    → apply_logs (level_logs i files) v ≡ clone_files i files v
unfolding apply_logs level_logs clone_files Log.apply
apply_logs-level_logs i [] v h = refl
apply_logs-level_logs i (file ∷ files) v h =
    let same : to_int64 (to_word32 i) ≡ i = ground arith in
    ap (λ k. apply_logs (level_logs i files) (add_file k file v)) same
    ∙ apply_logs-level_logs i files (add_file i file v) h

apply_logs-levels_logs :
    (i : ℕ) (ls : List Level) (v : Version)
    → i + length ls ≤ 2 ^ 31
    → apply_logs (levels_logs i ls) v ≡ clone_levels i ls v
unfolding apply_logs levels_logs clone_levels get_files
apply_logs-levels_logs i [] v h = refl
apply_logs-levels_logs i (l ∷ ls) v h =
    apply_logs-append (level_logs i (values l.files)) (levels_logs (suc i) ls) v
    ∙ ap (apply_logs (levels_logs (suc i) ls))
        (apply_logs-level_logs i (values l.files) v (omega arith))
    ∙ apply_logs-levels_logs (suc i) ls (clone_files i (values l.files) v) (omega arith)

-- The edit log of `createFamilySnapshot`, applied to a version without files, gives at every level
-- and number the file that the snapshotted version has there, for a number of levels that fits an
-- int32.
pub create_family_snapshot-replay :
    (v : Version) (family_id id i n : ℕ)
    → IsVersion v
    → v.num_of_levels < 2 ^ 31
    → file_at
        (apply_logs (create_family_snapshot family_id v).logs (empty_version id v.num_of_levels))
        i
        n
      ≡ file_at v i n
unfolding create_family_snapshot
create_family_snapshot-replay v family_id id i n valid h =
    ap (λ w. file_at w i n)
      (apply_logs-levels_logs 0 v.levels (empty_version id v.num_of_levels)
        (omega (arith, valid.sized)))
    ∙ file_at-clone_empty v id i n valid

-- Two versions with as many levels and the same files.
pub record Same (v w : Version) : Type 0 where
  pub left : IsVersion v
  pub right : IsVersion w
  pub as_many : v.num_of_levels ≡ w.num_of_levels
  pub files : (i n : ℕ) → file_at v i n ≡ file_at w i n

apply-Same : (log : Log) (v w : Version) → Same v w → Same (Log.apply log v) (Log.apply log w)
unfolding Log.apply
apply-Same (new_file level file) v w s =
    let i = to_int64 level in
    record {
      left = add_file-IsVersion v s.left i file;
      right = add_file-IsVersion w s.right i file;
      as_many =
          ground
            (arith, s.as_many, add_file-num_of_levels i file v, add_file-num_of_levels i file w);
      files = λ j n. ground (
        arith,
        s.as_many,
        s.files j n,
        file_at-add_file v s.left i file j n,
        file_at-add_file w s.right i file j n,
      );
    }
apply-Same (delete_file_log level k) v w s =
    let i = to_int64 level in
    record {
      left = delete_file-IsVersion v s.left i k;
      right = delete_file-IsVersion w s.right i k;
      as_many =
          ground
            (arith, s.as_many, delete_file-num_of_levels i k v, delete_file-num_of_levels i k w);
      files = λ j n. ground (
        arith,
        s.as_many,
        s.files j n,
        file_at-delete_file v s.left i k j n,
        file_at-delete_file w s.right i k j n,
      );
    }
apply-Same (next_file_number n) v w s = s

-- Logs do the same to versions with the same files.
pub apply_logs-Same :
    (logs : List Log) (v w : Version) → Same v w → Same (apply_logs logs v) (apply_logs logs w)
unfolding apply_logs
apply_logs-Same [] v w s = s
apply_logs-Same (log ∷ logs) v w s =
    apply_logs-Same logs (Log.apply log v) (Log.apply log w) (apply-Same log v w s)

pub apply_logs-num_of_levels :
    (logs : List Log) (v : Version) → (apply_logs logs v).num_of_levels ≡ v.num_of_levels
unfolding apply_logs Log.apply
apply_logs-num_of_levels [] v = refl
apply_logs-num_of_levels (new_file level file ∷ logs) v =
    apply_logs-num_of_levels logs (add_file (to_int64 level) file v)
    ∙ add_file-num_of_levels (to_int64 level) file v
apply_logs-num_of_levels (delete_file_log level k ∷ logs) v =
    apply_logs-num_of_levels logs (delete_file (to_int64 level) k v)
    ∙ delete_file-num_of_levels (to_int64 level) k v
apply_logs-num_of_levels (next_file_number n ∷ logs) v = apply_logs-num_of_levels logs v

pub apply_logs-IsVersion :
    (logs : List Log) (v : Version) → IsVersion v → IsVersion (apply_logs logs v)
apply_logs-IsVersion logs v valid =
    (apply_logs-Same logs v v
      (record { left = valid; right = valid; as_many = refl; files = λ i n. refl })).left
