-- ===== src/Kv/Log.antt =====
-- kv/version/log.go: the edit logs of a version and their binary form.
pub mod Codec
use lindb.Base.{ℕ, ◌≡◌, ◌++◌, List, Option, none, some, if◌then◌else◌, ◌==◌}
use lindb.Base.Words.{IsWord32, IsWord64, to_int64, next64}
use lindb.Stream.Writer.{
  Error, Writer, new_buffer_writer, put_varint32, put_varint64, put_uvarint32, bytes,
}
use lindb.Stream.Reader.{
  Read, Reader, ◌>>=◌, pure, new_reader, read_varint32, read_varint64, read_uvarint32,
}
use lindb.Kv.Level.{FileMeta}
use lindb.Kv.Version.{Version, add_file, delete_file}

-- The implementations of `Log`. A level is an int32.
pub data Log : Type 0 where
  new_file : ℕ → FileMeta → Log
  delete_file_log : ℕ → ℕ → Log
  next_file_number : ℕ → Log

-- The fields fit their types.
abbrev pub IsLog : Log → Type 0
IsLog (new_file level file) =
    IsWord32 level
    × IsWord64 file.file_number
    × IsWord32 file.min_key
    × IsWord32 file.max_key
    × IsWord32 file.file_size
IsLog (delete_file_log level file_number) = IsWord32 level × IsWord64 file_number
IsLog (next_file_number file_number) = IsWord64 file_number

-- The writers of the three `Encode` methods.
abbrev pub encode_new_file : ℕ → FileMeta → List ℕ × Option Error
encode_new_file level file =
    let w = put_varint32 level new_buffer_writer in
    let w = put_varint64 file.file_number w in
    let w = put_uvarint32 file.min_key w in
    let w = put_uvarint32 file.max_key w in bytes (put_varint32 file.file_size w)

abbrev pub encode_delete_file : ℕ → ℕ → List ℕ × Option Error
encode_delete_file level file_number =
    bytes (put_varint64 file_number (put_varint32 level new_buffer_writer))

abbrev pub encode_next_file_number : ℕ → List ℕ × Option Error
encode_next_file_number file_number = bytes (put_varint64 file_number new_buffer_writer)

-- `Encode` of the interface.
unfoldable pub encode : Log → List ℕ × Option Error
encode (new_file level file) = encode_new_file level file
encode (delete_file_log level file_number) = encode_delete_file level file_number
encode (next_file_number file_number) = encode_next_file_number file_number

-- The reads of the three `Decode` methods.
unfoldable pub read_new_file : Read Log
read_new_file = do
  level ← read_varint32
  file_number ← read_varint64
  min_key ← read_uvarint32
  max_key ← read_uvarint32
  file_size ← read_varint32
  pure (
      new_file level (record {
        file_number = file_number;
        min_key = min_key;
        max_key = max_key;
        file_size = file_size;
      }))

unfoldable pub read_delete_file : Read Log
read_delete_file = do
  level ← read_varint32
  file_number ← read_varint64
  pure (delete_file_log level file_number)

unfoldable pub read_next_file_number : Read Log
read_next_file_number = do file_number ← read_varint64; pure (next_file_number file_number)

-- `Decode` runs its reads over the bytes and returns the reader's error at the end.
abbrev pub decode : Read Log → List ℕ → Log × Option Error
decode read v = let (log, r) = read (new_reader v) in (log, r.err)

-- `logTypes` and `newLogFuncMap`, as `init` registers them.
unfoldable pub log_type : Log → ℕ
log_type (new_file level file) = 1
log_type (delete_file_log level file_number) = 2
log_type (next_file_number file_number) = 3

unfoldable pub new_log_func : ℕ → Option (Read Log)
new_log_func t =
    if t == 1
    then some read_new_file
    else if t == 2
    then some read_delete_file
    else if t == 3
    then some read_next_file_number
    else none

-- The atomic counters of the version set.
pub record Counters : Type 0 where
  pub manifest_file_number : ℕ
  pub next_file_number : ℕ
  pub version_id : ℕ

-- `setNextFileNumberWithoutLock`
unfoldable pub set_next_file_number : ℕ → Counters → Counters
set_next_file_number n c = record c { manifest_file_number = n; next_file_number = next64 n }

-- The `apply` methods; `int(n.level)` extends the sign.
abbrev pub apply_new_file : ℕ → FileMeta → Version → Version
apply_new_file level file v = add_file (to_int64 level) file v

abbrev pub apply_delete_file : ℕ → ℕ → Version → Version
apply_delete_file level file_number v = delete_file (to_int64 level) file_number v

-- `apply` of the interface.
unfoldable pub apply : Log → Version → Version
apply (new_file level file) v = apply_new_file level file v
apply (delete_file_log level file_number) v = apply_delete_file level file_number v
apply (next_file_number file_number) v = v

-- `applyVersionSet`, which only `NextFileNumber` has: the other two are not a `StoreLog`.
unfoldable pub apply_version_set : Log → Counters → Counters
apply_version_set (new_file level file) c = c
apply_version_set (delete_file_log level file_number) c = c
apply_version_set (next_file_number file_number) c = set_next_file_number file_number c
