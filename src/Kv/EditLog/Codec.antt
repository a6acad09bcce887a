-- ===== src/Kv/EditLog/Codec.antt =====
-- `marshal` and `unmarshal` against each other.
use lindb.Base.{
  ◌<◌, ◌^◌, subst, ℕ, suc, ◌≤◌, ◌≡◌, refl, sym, ◌∙◌, ap, List, [], ◌∷◌, ◌++◌, none, some, arith,
  append-nil, append_assoc, length, length-append, All,
}
use lindb.Base.Words.{IsWord32, IsWord64, FitsInt32, to_word32, to_int64}
use lindb.Stream.Writer.{Writer, new_buffer_writer, bytes, put_bytes}
use lindb.Stream.Reader.{Reader, Read, new_reader}
use lindb.Stream.Varint.{
  uvarint64, varint32, puts, read_varint32_lem, read_uvarint64_lem, read_uvarint32_lem,
  length-uvarint,
}
use lindb.Stream.Fixed.{at, read_slice_front}
use lindb.Kv.Log.{
  Log, new_file, delete_file_log, next_file_number, IsLog, decode, log_type, new_log_func,
}
use lindb.Kv.Log.Codec.{encoding, encode-encoding, decode-encode}
use lindb.Kv.EditLog.{
  read_uvarint64, read_slice, read_uvarint32, read_varint32, put_varint32, put_uvarint64, EditLog,
  marshal, marshal_logs, unmarshal, unmarshal_logs,
}

-- The fields of an edit log fit what they are written as.
pub record IsEditLog (el : EditLog) : Type 0 where
  pub id_fits : FitsInt32 el.family_id
  pub count_fits : IsWord64 (length el.logs)
  pub logs_fit : All IsLog el.logs

-- The bytes of one log, and of a list of them.
abbrev log_bytes : Log → List ℕ
log_bytes log =
    varint32 (log_type log) ++ (uvarint64 (to_word32 (length (encoding log))) ++ encoding log)

abbrev logs_bytes : List Log → List ℕ
logs_bytes [] = []
logs_bytes (log ∷ logs) = log_bytes log ++ logs_bytes logs

abbrev holding : List ℕ → Writer
holding b = record { buf = b; err = none }

marshal_log-bytes :
    (log : Log) (logs : List Log) (w : Writer)
    → marshal_logs (log ∷ logs) w ≡ marshal_logs logs (holding (w.buf ++ log_bytes log))
unfolding marshal_logs put_bytes
marshal_log-bytes log logs w =
    rw (encode-encoding log, marshal_logs) (simp (encode-encoding, puts, append_assoc))

marshal_logs-bytes :
    (logs : List Log) (b : List ℕ)
    → marshal_logs logs (holding b) ≡ (holding (b ++ logs_bytes logs), none)
unfolding marshal_logs
marshal_logs-bytes [] b = rw (append-nil b)
marshal_logs-bytes (log ∷ logs) b =
    marshal_log-bytes log logs (holding b)
    ∙ marshal_logs-bytes logs (b ++ log_bytes log)
    ∙ ap (λ t. (holding t, none)) (append_assoc b (log_bytes log) (logs_bytes logs))

abbrev edit_log_bytes : EditLog → List ℕ
edit_log_bytes el =
    varint32 (to_word32 el.family_id) ++ (uvarint64 (length el.logs) ++ logs_bytes el.logs)

marshal-bytes : (el : EditLog) → marshal el ≡ (edit_log_bytes el, none)
unfolding marshal bytes
marshal-bytes el =
    let id = varint32 (to_word32 el.family_id) in
    let count = uvarint64 (length el.logs) in
    let e : marshal_logs el.logs
          (put_uvarint64 (length el.logs) (put_varint32 (to_word32 el.family_id) new_buffer_writer))
        ≡ (holding (edit_log_bytes el), none) =
      simp puts (
        marshal_logs-bytes el.logs (id ++ count)
        ∙ ap (λ t. (holding t, none)) (append_assoc id count (logs_bytes el.logs))) in
    rw (e, marshal) (rw e)

log_type-lt : (log : Log) → IsWord32 (log_type log)
unfolding log_type
log_type-lt (new_file level file) = omega arith
log_type-lt (delete_file_log level file_number) = omega arith
log_type-lt (next_file_number file_number) = omega arith

-- Five numbers take ten bytes each at most.
length-encoding : (log : Log) → length (encoding log) ≤ 50
length-encoding (new_file level file) = simp length-append (omega (arith, length-uvarint 10))
length-encoding (delete_file_log level n) = simp length-append (omega (arith, length-uvarint 10))
length-encoding (next_file_number n) = simp length-append (omega (arith, length-uvarint 10))

-- One round of `unmarshal` in which each read succeeds.
unmarshal_round :
    (count : ℕ) (r r₁ r₂ r₃ : Reader) (logs : List Log) (t len : ℕ) (value : List ℕ)
    (read : Read Log) (log : Log)
    → read_varint32 r ≡ (t, r₁)
    → new_log_func t ≡ some read
    → read_uvarint32 r₁ ≡ (len, r₂)
    → read_slice len r₂ ≡ (value, r₃)
    → decode read value ≡ (log, none)
    → unmarshal_logs (suc count) r logs ≡ unmarshal_logs count r₃ (logs ++ log ∷ [])
unfolding unmarshal_logs
unmarshal_round count r r₁ r₂ r₃ logs t len value read log e₁ e₂ e₃ e₄ e₅ = ground arith

-- A reader over the block `whole` that has `rest` to read.
abbrev over : List ℕ → List ℕ → Reader
over whole rest = record { original = whole; rest = rest; err = none }

-- The block before a log, split where the three reads end.
module _ (front t l enc rest : List ℕ) where
  abbrev block : List ℕ
  block = front ++ (t ++ (l ++ (enc ++ rest)))

  read_value :
      length enc < 2 ^ 63
      → read_slice (length enc) (over block (enc ++ rest)) ≡ (enc, over block rest)
  read_value small =
      subst (λ o. read_slice (length enc) (over o (enc ++ rest)) ≡ (enc, over o rest))
        (simp append_assoc) (read_slice_front (front ++ (t ++ l)) enc rest small)

  at_start : at front ((t ++ (l ++ enc)) ++ rest) ≡ over block (t ++ (l ++ (enc ++ rest)))
  at_start = simp append_assoc

  at_end : over block rest ≡ at (front ++ (t ++ (l ++ enc))) rest
  at_end = simp append_assoc

unmarshal_log-bytes :
    (count : ℕ) (log : Log) (front rest : List ℕ) (logs : List Log)
    → IsLog log
    → unmarshal_logs (suc count) (at front (log_bytes log ++ rest)) logs
      ≡ unmarshal_logs count (at (front ++ log_bytes log) rest) (logs ++ log ∷ [])
unmarshal_log-bytes count log front rest logs h =
    let t = varint32 (log_type log) in
    let enc = encoding log in
    let n = to_word32 (length enc) in
    let l = uvarint64 n in
    let o = block front t l enc rest in
    let (read, known, decoded) = decode-encode log h in
    let same : n ≡ length enc = omega (arith, length-encoding log) in
    let sliced : read_slice n (over o (enc ++ rest)) ≡ (enc, over o rest) =
      subst (λ k. read_slice k (over o (enc ++ rest)) ≡ (enc, over o rest)) (sym same)
        (read_value front t l enc rest (omega (arith, length-encoding log))) in
    rw (at_start front t l enc rest) (
      unmarshal_round count _ (over o (l ++ (enc ++ rest))) (over o (enc ++ rest)) (over o rest)
        logs (log_type log) n enc read log
        (read_varint32_lem (log_type log) (over o []) (l ++ (enc ++ rest)) (log_type-lt log)) known
        (read_uvarint32_lem n (over o []) (enc ++ rest) (omega arith)) sliced
        (rw (encode-encoding log) at decoded)
      ∙ ap (λ r. unmarshal_logs count r (logs ++ log ∷ [])) (at_end front t l enc rest))

unmarshal_logs-bytes :
    (ls : List Log) (front rest : List ℕ) (logs : List Log)
    → All IsLog ls
    → unmarshal_logs (length ls) (at front (logs_bytes ls ++ rest)) logs ≡ (logs ++ ls, none)
unmarshal_logs-bytes [] front rest logs h = unfold unmarshal_logs in rw append-nil
unmarshal_logs-bytes (log ∷ ls) front rest logs h =
    rw (append_assoc (log_bytes log) (logs_bytes ls) rest) (
      unmarshal_log-bytes (length ls) log front (logs_bytes ls ++ rest) logs h.0
      ∙ unmarshal_logs-bytes ls (front ++ log_bytes log) rest (logs ++ log ∷ []) h.1
      ∙ ap (λ t. (t, none)) (append_assoc logs (log ∷ []) ls))

unmarshal_parts :
    (buf : List ℕ) (id count : ℕ) (r₁ r₂ : Reader) (logs : List Log)
    → read_varint32 (over buf buf) ≡ (id, r₁)
    → read_uvarint64 r₁ ≡ (count, r₂)
    → unmarshal_logs count r₂ [] ≡ (logs, none)
    → unmarshal buf ≡ (record { logs = logs; family_id = to_int64 id }, none)
unfolding unmarshal new_reader
unmarshal_parts buf id count r₁ r₂ logs e₁ e₂ e₃ = ground arith

pub marshal-none : (el : EditLog) → (marshal el).1 ≡ none
marshal-none el = ap (λ t. t.1) (marshal-bytes el)

-- `marshal` of an edit log whose family id fits an int32 and whose fields fit their types does not
-- fail, and `unmarshal` of its bytes is that edit log, without an error.
pub unmarshal-marshal :
    (el : EditLog)
    → IsEditLog el
    → (unmarshal (marshal el).0 ≡ (el, none)) × ((marshal el).1 ≡ none)
unmarshal-marshal el fits =
    let id = varint32 (to_word32 el.family_id) in
    let count = uvarint64 (length el.logs) in
    let ls = logs_bytes el.logs in
    let b = id ++ (count ++ ls) in
    let all : unmarshal_logs (length el.logs) (over b ls) [] ≡ (el.logs, none) =
      subst (λ r. unmarshal_logs (length el.logs) r [] ≡ (el.logs, none))
        (simp (append_assoc, append-nil))
        (unmarshal_logs-bytes el.logs (id ++ count) [] [] fits.logs_fit) in
    let parts =
      unmarshal_parts b (to_word32 el.family_id) (length el.logs) (over b (count ++ ls)) (over b ls)
        el.logs (read_varint32_lem (to_word32 el.family_id) (over b []) (count ++ ls) (omega arith))
        (read_uvarint64_lem (length el.logs) (over b []) ls fits.count_fits) all in
    rw (marshal-bytes el)
      (parts ∙ ap (λ (k : ℕ). (record el { family_id = k }, none)) fits.id_fits.1, refl)
