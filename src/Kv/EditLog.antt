-- ===== src/Kv/EditLog.antt =====
-- kv/version/edit_log.go, and what kv/version/compact.go adds to an edit log. An `int` is a 64-bit
-- pattern; a family id is written as an int32.
pub mod Codec
pub mod Compact
mod Examples
use lindb.Base.{
  ◌&&◌, ℕ, zero, suc, ◌-◌, ◌^◌, ◌%◌, List, [], ◌∷◌, ◌++◌, Option, none, some, length, Bool, ◌==◌,
  map,
}
use lindb.Base.Words.{to_word32, to_int64, FitsInt32, next64}
use lindb.Stream.Writer.{
  Error, Writer, new_buffer_writer, put_varint32, put_uvarint64, put_uvarint32, put_bytes, bytes,
}
use lindb.Stream.Reader.{
  Read, Reader, new_reader, read_varint32, read_uvarint64, read_uvarint32, read_slice,
}
use lindb.Kv.Level.{FileMeta}
use lindb.Kv.Version.{Version, Inputs}
use lindb.Kv.Log.{
  Log, new_file, delete_file_log, IsLog, encode, decode, log_type, new_log_func, Counters,
}
use lindb.Kv.Log

-- StoreFamilyID = -99999999
abbrev pub store_family_id : ℕ
store_family_id = 2 ^ 64 - 99_999_999

pub record EditLog : Type 0 where
  pub logs : List Log
  pub family_id : ℕ

abbrev pub new_edit_log : ℕ → EditLog
new_edit_log family_id = record { logs = []; family_id = family_id }

unfoldable pub add : Log → EditLog → EditLog
add log el = record el { logs = el.logs ++ log ∷ [] }

unfoldable pub is_empty : EditLog → Bool
is_empty el = length el.logs == 0

-- The loop of `marshal`; an error of `Encode` ends it.
unfoldable pub marshal_logs : List Log → Writer → Writer × Option Error
marshal_logs [] w = (w, none)
marshal_logs (log ∷ logs) w =
    let w = put_varint32 (log_type log) w in
    let (value, err) = encode log in
    elim err [
      | some e ↦ (w, some e)
      | none ↦ marshal_logs logs (put_bytes value (put_uvarint32 (to_word32 (length value)) w))
    ]

unfoldable pub marshal : EditLog → List ℕ × Option Error
marshal el =
    let w = put_varint32 (to_word32 el.family_id) new_buffer_writer in
    let w = put_uvarint64 (length el.logs) w in
    let (w, err) = marshal_logs el.logs w in elim err [ some e ↦ ([], some e) | none ↦ bytes w ]

pub data UnmarshalError : Type 0 where
  unknown_log_type : ℕ → UnmarshalError
  decode_failed : ℕ → Error → UnmarshalError
  read_failed : Error → UnmarshalError

abbrev pub read_error : Option Error → Option UnmarshalError
read_error none = none
read_error (some e) = some (read_failed e)

-- The loop of `unmarshal`: the rounds left, the reader and the logs so far.
unfoldable pub unmarshal_logs : ℕ → Reader → List Log → List Log × Option UnmarshalError
unmarshal_logs zero r logs = (logs, read_error r.err)
unmarshal_logs (suc count) r logs =
    let (t, r₁) = read_varint32 r in
    elim (new_log_func t) [
      | none ↦ (logs, some (unknown_log_type t))
      | some read ↦
          let (len, r₂) = read_uvarint32 r₁ in
          let (value, r₃) = read_slice len r₂ in
          let (log, err) = decode read value in
          elim err [
            | some e ↦ (logs, some (decode_failed t e))
            | none ↦ unmarshal_logs count r₃ (logs ++ log ∷ [])
          ]
    ]

-- `unmarshal` of an empty edit log.
unfoldable pub unmarshal : List ℕ → EditLog × Option UnmarshalError
unmarshal buf =
    let (id, r₁) = read_varint32 (new_reader buf) in
    let (count, r₂) = read_uvarint64 r₁ in
    let (logs, err) = unmarshal_logs count r₂ [] in
    (record { logs = logs; family_id = to_int64 id }, err)

-- `apply`: each log is applied to the version, and a `StoreLog` to the version set.
unfoldable pub apply_logs : List Log → Version → Version
apply_logs [] v = v
apply_logs (log ∷ logs) v = apply_logs logs (Log.apply log v)

unfoldable pub apply_logs_version_set : List Log → Counters → Counters
apply_logs_version_set [] c = c
apply_logs_version_set (log ∷ logs) c = apply_logs_version_set logs (Log.apply_version_set log c)

unfoldable pub apply : EditLog → Version → Counters → Version × Counters
apply el v c = (apply_logs el.logs v, apply_logs_version_set el.logs c)

-- `applyVersionSet` passes over the logs that are no `StoreLog`.
unfoldable pub apply_version_set : EditLog → Counters → Counters
apply_version_set el c = apply_logs_version_set el.logs c

-- compact.go: a compaction job's context.
pub record Compaction : Type 0 where
  pub level : ℕ
  pub level_inputs : List FileMeta
  pub level_up_inputs : List FileMeta
  pub edit_log : EditLog

unfoldable pub new_compaction : ℕ → ℕ → Inputs → Compaction
new_compaction family_id level inputs = record {
  level = level;
  level_inputs = inputs.level_inputs;
  level_up_inputs = inputs.level_up_inputs;
  edit_log = new_edit_log family_id;
}

unfoldable pub is_trivial_move : Compaction → Bool
is_trivial_move c = length c.level_inputs == 1 && length c.level_up_inputs == 0

-- `DeleteFile` and `AddFile`
unfoldable pub compaction_delete_file : ℕ → ℕ → Compaction → Compaction
compaction_delete_file level file_number c = record c {
  edit_log = add (delete_file_log (to_word32 level) file_number) c.edit_log;
}

unfoldable pub compaction_add_file : ℕ → FileMeta → Compaction → Compaction
compaction_add_file level file c = record c {
  edit_log = add (new_file (to_word32 level) file) c.edit_log;
}

-- `MarkInputDeletes`: the lower inputs, then the upper ones of the next level.
unfoldable pub mark_deletes : ℕ → List FileMeta → Compaction → Compaction
mark_deletes level [] c = c
mark_deletes level (file ∷ files) c =
    mark_deletes level files (compaction_delete_file level file.file_number c)

unfoldable pub mark_input_deletes : Compaction → Compaction
mark_input_deletes c =
    mark_deletes (next64 c.level) c.level_up_inputs (mark_deletes c.level c.level_inputs c)
