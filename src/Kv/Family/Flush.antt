-- ===== src/Kv/Family/Flush.antt =====
-- What a flush does to its family.
use lindb.Base.{
  length-append, ◌+◌, ℕ, ◌≡◌, ap, ◌∙◌, true, false, ◌&&◌, if◌then◌else◌, ◌==◌, List, [], ◌∷◌, ◌++◌,
  some, arith, has, has-drop_key, ℕ-Key,
}
use lindb.Base.Words.{to_word32}
use lindb.Kv.Level.{FileMeta}
use lindb.Kv.Version.{Version}
use lindb.Kv.Version.Files.{IsVersion, file_at, file_at-add_file}
use lindb.Kv.Log.{Log, new_file, next_file_number}
use lindb.Kv.Log
use lindb.Kv.EditLog.{marshal, apply_logs, add, is_empty}
use lindb.Kv.EditLog.Codec.{marshal-none}
use lindb.Kv.Table.{Builder}
use lindb.Kv.VersionSet.{VersionSet, written}
use lindb.Kv.VersionSet.Current.{current_version, current_version-found}
use lindb.Kv.VersionSet.Commit.{install-Advanced}
use lindb.Kv.VersionSet.Durable.{logged, commit_written}
use lindb.Kv.Family.{
  Flusher, flusher_commit, flusher_install, commit_edit_log, remove_pending_output,
}

-- The file that a flush closes.
abbrev pub flushed : Builder → ℕ → FileMeta
flushed b closing_size = record {
  file_number = b.file_number;
  min_key = b.min_key;
  max_key = b.max_key;
  file_size = to_word32 (b.size + closing_size);
}

-- A flusher with an open builder and an empty edit log, whose file can be closed and whose record is
-- written, commits. The family's new current version has the file at level 0 under its number, and
-- every other file where it was, and the file is pending no more.
pub flusher_commit-file_at :
    (sf : Flusher) (b : Builder) (closing_size : ℕ) (vs : VersionSet) (records : List (List ℕ))
    (v : Version)
    → sf.builder ≡ some b
    → sf.edit_log.logs ≡ []
    → current_version sf.family.name vs ≡ some v
    → IsVersion v
    → v.num_of_levels ≡ vs.num_of_levels
    → (sf' : Flusher) × (vs' : VersionSet) × (records' : List (List ℕ)) × (w : Version)
      × (flusher_commit written true closing_size sf vs records ≡ some (sf', vs', records', true))
      × (current_version sf.family.name vs' ≡ some w)
      × ((i n : ℕ)
          → file_at w i n ≡ (
              if 0 == i && b.file_number == n
              then some (flushed b closing_size)
              else file_at v i n))
      × (has b.file_number sf'.family.pending_outputs ≡ false)
unfolding flusher_commit flusher_install commit_edit_log add is_empty apply_logs Log.apply
    remove_pending_output
flusher_commit-file_at sf b closing_size vs records v opened fresh cur valid many =
    let el = add (new_file 0 (flushed b closing_size)) sf.edit_log in
    let (fv, found, cur') = current_version-found sf.family.name vs v cur in
    let (vs', u, did, ahead, copied, count) =
      install-Advanced sf.family.name fv (logged el vs) vs v cur' valid many in
    let ran =
      commit_written sf.family.name fv el vs vs' records found (marshal-none (logged el vs)) did in
    let logs : (logged el vs).logs
        ≡ new_file 0 (flushed b closing_size) ∷ next_file_number vs.counters.next_file_number ∷ [] =
      ap
        (λ ls.
          (ls ++ new_file 0 (flushed b closing_size) ∷ [])
          ++ next_file_number vs.counters.next_file_number ∷ [])
        fresh in
    let full : is_empty el ≡ false =
      ground (arith, length-append sf.edit_log.logs (new_file 0 (flushed b closing_size) ∷ [])) in
    (
      record sf { family = remove_pending_output b.file_number sf.family; edit_log = logged el vs },
      vs',
      records ++ (marshal (logged el vs)).0 ∷ [],
      apply_logs (logged el vs).logs u,
      ground (arith, opened, full, ran),
      ahead.here,
      λ i n.
          ap (λ ls. file_at (apply_logs ls u) i n) logs
          ∙ file_at-add_file u copied.left 0 (flushed b closing_size) i n
          ∙ ground (arith, copied.files i n, copied.left.positive, copied.left.small),
      has-drop_key b.file_number b.file_number sf.family.pending_outputs ∙ ground arith,
    )
