-- ===== src/Kv/EditLog/Examples.antt =====
-- Tests of log.go, edit_log.go and compact.go, and their theorems at concrete inputs.
use lindb.Base.{ℕ, ◌≡◌, ◌^◌, ◌-◌, refl, [], ◌∷◌, none, some, arith, if◌then◌else◌}
use lindb.Stream.Reader.{Read}
use lindb.Kv.Samples.{two_levels, two_levels-IsVersion, low_file, up_file, new_file_meta}
use lindb.Kv.Version.{Inputs}
use lindb.Kv.Version.Files.{file_at}
use lindb.Kv.Log.{
  Log, new_file, delete_file_log, next_file_number, decode, encode, new_log_func, log_type,
}
use lindb.Kv.Log.Codec.{decode-encode}
use lindb.Kv.EditLog.{EditLog, apply_logs, marshal, unmarshal, new_compaction, mark_input_deletes}
use lindb.Kv.EditLog.Codec.{IsEditLog, unmarshal-marshal}
use lindb.Kv.EditLog.Compact.{is_input, mark_input_deletes-file_at}

abbrev minus_one : ℕ
minus_one = 2 ^ 32 - 1

decode-encode_example :
    (read : Read Log) × (new_log_func (log_type (delete_file_log minus_one 300)) ≡ some read)
    × (decode read (encode (delete_file_log minus_one 300)).0
        ≡ (delete_file_log minus_one 300, none))
decode-encode_example = decode-encode (delete_file_log minus_one 300) (omega arith, omega arith)

-- An edit log of the family with the id -2.
abbrev negative_family : EditLog
negative_family = record {
  logs = new_file 0 new_file_meta ∷ delete_file_log 1 3 ∷ next_file_number 8 ∷ [];
  family_id = 2 ^ 64 - 2;
}

negative_family-IsEditLog : IsEditLog negative_family
negative_family-IsEditLog = record {
  id_fits = (omega arith, refl);
  count_fits = omega arith;
  logs_fit = (
    (omega arith, omega arith, omega arith, omega arith, omega arith),
    ((omega arith, omega arith), (omega arith, tt)),
  );
}

unmarshal-marshal_example :
    (unmarshal (marshal negative_family).0 ≡ (negative_family, none))
    × ((marshal negative_family).1 ≡ none)
unmarshal-marshal_example = unmarshal-marshal negative_family negative_family-IsEditLog

abbrev picked : Inputs
picked = record { level_inputs = low_file ∷ []; level_up_inputs = up_file ∷ [] }

mark_input_deletes-file_at_example :
    file_at
      (apply_logs (mark_input_deletes (new_compaction 1 0 picked)).edit_log.logs two_levels)
      1
      3
    ≡ (if is_input 0 picked 1 3 then none else file_at two_levels 1 3)
mark_input_deletes-file_at_example =
    mark_input_deletes-file_at 1 0 picked two_levels 1 3 two_levels-IsVersion (omega arith)
      (omega arith)
