-- ===== src/Kv/VersionSet/Journal/Safe.antt =====
-- A new journal never costs the old one, and the clean-up keeps the live manifest.
use lindb.Base.{
  Bool, not, ◌&&◌, ◌||◌, subst, ℕ, ◌≡◌, refl, sym, ap, ◌∙◌, false, Bool-cases, Option-cases, inl,
  inr, ◌⊎◌, List, [], ◌∷◌, ◌++◌, Option, none, some, Map, lookup, insert, lookup-insert, map,
  if◌then◌else◌, ◌==◌, ℕ-Key, String-Key, arith, append_assoc, append-nil,
}
use lindb.Kv.Log.{Counters}
use lindb.Kv.EditLog.{UnmarshalError, unmarshal, EditLog, marshal}
use lindb.Kv.VersionSet.{
  unmarshal_failed, new_version_set, recover, recover_record, recover_records, VersionSet, Disk,
  Failure, create_failed, current_failed, Answer, written, failed_write, failed_sync,
  persist_edit_log, persist_edit_logs,
}
use lindb.Kv.VersionSet.Journal.{
  recover_store, create_snapshot, Answers, Cleanup, init_journal, keep_manifest,
  delete_obsolete_manifests,
}

-- The records of edit logs.
abbrev pub records_of : List EditLog → List (List ℕ)
records_of [] = []
records_of (el ∷ els) = (marshal el).0 ∷ records_of els

persist_edit_log-written :
    (answer : Answer) (el : EditLog) (records : List (List ℕ))
    → (persist_edit_log answer el records).1 ≡ none
    → (persist_edit_log answer el records).0 ≡ records ++ (marshal el).0 ∷ []
unfolding persist_edit_log
persist_edit_log-written answer el records h = elim (Option-cases (marshal el).1) [
  | inr (e, bad) ↦ absurd (ground (arith, h, bad))
  | inl ok ↦ by_answer answer h ok
]
  where
    by_answer :
        (a : Answer)
        → (persist_edit_log a el records).1 ≡ none
        → (marshal el).1 ≡ none
        → (persist_edit_log a el records).0 ≡ records ++ (marshal el).0 ∷ []
    by_answer written h ok = ground (arith, ok)
    by_answer (failed_write left) h ok = absurd (ground (arith, h, ok))
    by_answer (failed_sync left) h ok = absurd (ground (arith, h, ok))

-- Edit logs that are persisted without a failure stand behind the records, all of them.
pub persist_edit_logs-written :
    (writes : EditLog → Answer) (els : List EditLog) (records : List (List ℕ))
    → (persist_edit_logs (map (λ el. (writes el, el)) els) records).1 ≡ none
    → (persist_edit_logs (map (λ el. (writes el, el)) els) records).0 ≡ records ++ records_of els
unfolding persist_edit_logs
persist_edit_logs-written writes [] records h = sym (append-nil records)
persist_edit_logs-written writes (el ∷ els) records h =
    let one = persist_edit_log (writes el) el records in
    elim (Option-cases one.1) [
      | inr (e, bad) ↦ absurd (ground (arith, h, bad))
      | inl ok ↦
          let rest = persist_edit_logs-written writes els one.0 (rw (ok, persist_edit_logs) at h) in
          rw (ok, persist_edit_logs)
            (rest
              ∙ ap (λ t. t ++ records_of els) (persist_edit_log-written (writes el) el records ok)
              ∙ append_assoc records ((marshal el).0 ∷ []) (records_of els))
    ]

-- What `initJournal` leaves: the version set, the disk and the failure.
abbrev Result : Type 0
Result = VersionSet × Disk × Option Failure

-- CURRENT names what it named before, or, where there was no failure, the new manifest, which has
-- all the records of a snapshot of the version set.
record Safe (disk : Disk) (vs : VersionSet) (r : Result) : Type 0 where
  pub kept :
      (m : ℕ)
      → (vs.counters.manifest_file_number == m) ≡ false
      → lookup m r.1.files ≡ lookup m disk.files
  pub current :
      ((r.1.current ≡ disk.current) × (r.2 ≡ none → ⊥))
      ⊎ ((r.1.current ≡ some vs.counters.manifest_file_number)
          × (r.2 ≡ none)
          × (els : List EditLog) × (create_snapshot vs ≡ some els)
          × (lookup vs.counters.manifest_file_number r.1.files ≡ some (records_of els)))

init_journal-cases :
    (answers : Answers) (disk : Disk) (vs : VersionSet) (els : List EditLog)
    → vs.manifest ≡ none
    → create_snapshot vs ≡ some els
    → (r : Result) × (init_journal answers disk vs ≡ some r) × Safe disk vs r
unfolding init_journal
init_journal-cases answers disk vs els closed snap = elim (Bool-cases answers.creates) [
  | inr bad ↦ (
    (vs, disk, some create_failed),
    ground (arith, closed, bad),
    record { kept = λ m other. refl; current = inl (refl, λ e. ground (arith, e)) },
  )
  | inl good ↦
      let n = vs.counters.manifest_file_number in
      let written = persist_edit_logs (map (λ el. (answers.writes el, el)) els) [] in
      let disk' = record disk { files = insert n written.0 disk.files } in
      let others = λ (m : ℕ). lookup-insert n m written.0 disk.files in
      elim (Option-cases written.1) [
        | inr (e, failed) ↦ (
          (vs, disk', some e),
          ground (arith, closed, good, snap, failed),
          record {
            kept = λ m other. ground (arith, others m);
            current = inl (refl, λ e. ground (arith, e));
          },
        )
        | inl ok ↦ elim (Bool-cases answers.sets) [
          | inr unset ↦ (
            (vs, disk', some current_failed),
            ground (arith, closed, good, snap, ok, unset),
            record {
              kept = λ m other. ground (arith, others m);
              current = inl (refl, λ e. ground (arith, e));
            },
          )
          | inl set ↦ (
            (record vs { manifest = some n }, record disk' { current = some n }, none),
            ground (arith, closed, good, snap, ok, set),
            record {
              kept = λ m other. ground (arith, others m);
              current = inr (
                refl,
                refl,
                els,
                snap,
                ground (arith, others n, persist_edit_logs-written answers.writes els [] ok),
              );
            },
          )
        ]
      ]
]

-- Let no journal be open, and every family's current version be in memory. Whatever the file system
-- answers, `initJournal` leaves every manifest file of another number as it was. If it fails,
-- CURRENT names the manifest that it named before; if it does not, CURRENT names the new one, and
-- that has the records of all the edit logs of a snapshot.
pub init_journal-Safe :
    (answers : Answers) (disk : Disk) (vs : VersionSet) (els : List EditLog)
    → vs.manifest ≡ none
    → create_snapshot vs ≡ some els
    → (vs' : VersionSet) × (disk' : Disk) × (err : Option Failure) × (init_journal answers disk vs
        ≡ some (vs', disk', err))
      × ((m : ℕ)
          → (vs.counters.manifest_file_number == m) ≡ false
          → lookup m disk'.files ≡ lookup m disk.files)
      × (((disk'.current ≡ disk.current) × (err ≡ none → ⊥))
          ⊎ ((disk'.current ≡ some vs.counters.manifest_file_number)
              × (err ≡ none)
              × (lookup vs.counters.manifest_file_number disk'.files ≡ some (records_of els))))
init_journal-Safe answers disk vs els closed snap =
    let (r, run, safe) = init_journal-cases answers disk vs els closed snap in
    (
      r.0,
      r.1,
      r.2,
      run,
      safe.kept,
      elim safe.current [
        | inl old ↦ inl old
        | inr (cur, ok, els', snap', recs) ↦ inr (
          cur,
          ok,
          subst (λ t. lookup vs.counters.manifest_file_number r.1.files ≡ some (records_of t))
              {x = els'} {y = els} (ground (arith, snap, snap')) recs,
        )
      ],
    )

lookup-keep_manifest :
    (removes : ℕ → Bool) (n m : ℕ) (files : Map ℕ (List (List ℕ)))
    → lookup m (keep_manifest removes n files)
      ≡ (if m == n || not (removes m) then lookup m files else none)
unfolding keep_manifest lookup
lookup-keep_manifest removes n m [] = ground arith
lookup-keep_manifest removes n m ((k, records) ∷ files) = elim (Bool-cases (k == m)) [
  | inl here ↦
      let same : k ≡ m = ground (arith, here) in
      let removed = ap removes same in
      ground (arith, lookup-keep_manifest removes n m files, removed)
  | inr there ↦ ground (arith, lookup-keep_manifest removes n m files, there)
]

lookup-delete_obsolete_manifests :
    (cleanup : Cleanup) (c : Counters) (disk : Disk) (m : ℕ)
    → (m == c.manifest_file_number) ≡ false
    → lookup m (delete_obsolete_manifests cleanup c disk).files
      ≡ (if cleanup.lists && cleanup.removes m then none else lookup m disk.files)
unfolding delete_obsolete_manifests
lookup-delete_obsolete_manifests cleanup c disk m other =
    ground (arith, other, lookup-keep_manifest cleanup.removes c.manifest_file_number m disk.files)

-- When the first record of the manifest that CURRENT names cannot be read back, `Recover` of a new
-- version set fails with the disk as it was. The clean-up that runs all the same deletes that
-- manifest, unless its number is 1, or the file system refuses to list the directory or to remove
-- the file.
pub recover_store-failed :
    (answers : Answers) (cleanup : Cleanup) (files : Map ℕ (List (List ℕ))) (num_of_levels n : ℕ)
    (bytes : List ℕ) (rest : List (List ℕ)) (e : UnmarshalError)
    → lookup n files ≡ some (bytes ∷ rest)
    → (unmarshal bytes).1 ≡ some e
    → (n == 1) ≡ false
    → (vs : VersionSet) × (recover_store answers
          (record { files = files; current = some n })
          (new_version_set num_of_levels)
        ≡ some (vs, record { files = files; current = some n }, some (unmarshal_failed e)))
      × (lookup n
            (delete_obsolete_manifests cleanup vs.counters
              (record { files = files; current = some n })).files
          ≡ (if cleanup.lists && cleanup.removes n then none else some (bytes ∷ rest)))
unfolding recover_store recover recover_records recover_record new_version_set
recover_store-failed answers cleanup files num_of_levels n bytes rest e found bad other = (
  new_version_set num_of_levels,
  ground (arith, found, bad),
  lookup-delete_obsolete_manifests cleanup (new_version_set num_of_levels).counters
        (record { files = files; current = some n }) n other
      ∙ ap (λ o. if cleanup.lists && cleanup.removes n then none else o) found,
)
