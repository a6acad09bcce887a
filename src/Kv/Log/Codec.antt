-- ===== src/Kv/Log/Codec.antt =====
-- The `Encode` and `Decode` methods against each other.
use lindb.Base.{ℕ, ◌≡◌, refl, ap, List, [], ◌++◌, none, some, append-nil, append_assoc}
use lindb.Stream.Writer.{bytes}
use lindb.Stream.Reader.{Reader, Read, new_reader}
use lindb.Stream.Varint.{
  uvarint64, varint32, varint64, puts, behind, read_varint32_lem, read_varint64_lem,
  read_uvarint32_lem,
}
use lindb.Kv.Log.{
  Log, new_file, delete_file_log, next_file_number, IsLog, encode, read_new_file, read_delete_file,
  read_next_file_number, decode, log_type, new_log_func,
}

-- The bytes of a log, as its reads take them apart.
abbrev pub encoding : Log → List ℕ
encoding (new_file level file) =
    varint32 level
    ++ (varint64 file.file_number
        ++ (uvarint64 file.min_key ++ (uvarint64 file.max_key ++ (varint32 file.file_size ++ []))))
encoding (delete_file_log level file_number) = varint32 level ++ (varint64 file_number ++ [])
encoding (next_file_number file_number) = varint64 file_number ++ []

pub encode-encoding : (log : Log) → encode log ≡ (encoding log, none)
unfolding encode bytes
encode-encoding (new_file level file) = simp (puts, append_assoc, append-nil)
encode-encoding (delete_file_log level file_number) = simp (puts, append_assoc, append-nil)
encode-encoding (next_file_number file_number) = simp (puts, append-nil)

-- The reads of a log.
abbrev read_of : Log → Read Log
read_of (new_file level file) = read_new_file
read_of (delete_file_log level file_number) = read_delete_file
read_of (next_file_number file_number) = read_next_file_number

pub new_log_func-log_type : (log : Log) → new_log_func (log_type log) ≡ some (read_of log)
unfolding new_log_func log_type
new_log_func-log_type (new_file level file) = refl
new_log_func-log_type (delete_file_log level file_number) = refl
new_log_func-log_type (next_file_number file_number) = refl

read-encoding :
    (log : Log) (r : Reader)
    → IsLog log
    → read_of log (record r { rest = encoding log }) ≡ (log, behind r [])
unfolding read_new_file read_delete_file read_next_file_number
read-encoding (new_file level file) r (hl, hn, hmin, hmax, hs) =
    let e4 = varint32 file.file_size ++ [] in
    let e3 = uvarint64 file.max_key ++ e4 in
    let e2 = uvarint64 file.min_key ++ e3 in
    let e1 = varint64 file.file_number ++ e2 in
    rw (
      read_varint32_lem level r e1 hl,
      read_varint64_lem file.file_number (behind r e1) e2 hn,
      read_uvarint32_lem file.min_key (behind r e2) e3 hmin,
      read_uvarint32_lem file.max_key (behind r e3) e4 hmax,
      read_varint32_lem file.file_size (behind r e4) [] hs,
    )
read-encoding (delete_file_log level n) r (hl, hn) = rw (
  read_varint32_lem level r (varint64 n ++ []) hl,
  read_varint64_lem n (behind r (varint64 n ++ [])) [] hn,
)
read-encoding (next_file_number n) r h = rw (read_varint64_lem n r [] h)

-- `Decode` of what `Encode` wrote, by the function that is registered for the type of the log, is
-- the log, without an error, for a log whose fields fit their types.
pub decode-encode :
    (log : Log)
    → IsLog log
    → (read : Read Log) × (new_log_func (log_type log) ≡ some read)
      × (decode read (encode log).0 ≡ (log, none))
unfolding new_reader
decode-encode log h = (
  read_of log,
  new_log_func-log_type log,
  rw (encode-encoding log)
      (ap (λ t. (t.0, t.1.err)) (read-encoding log (new_reader (encoding log)) h)),
)
