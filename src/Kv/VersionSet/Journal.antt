-- ===== src/Kv/VersionSet/Journal.antt =====
-- `initJournal`, `createSnapshot` and `Recover` of kv/version/version_set.go, and the clean-up of
-- manifest files that kv/store.go runs when a store was opened. What the file system answers is an
-- argument. The families are visited in the order of the association list.
pub mod Safe
pub mod Recovered
mod Examples
use lindb.Base.{
  ℕ, Bool, true, false, not, List, [], ◌∷◌, ◌++◌, Option, none, some, Map, lookup, insert, map,
  if◌then◌else◌, ◌==◌, String, ℕ-Key, String-Key,
}
use lindb.Kv.Log.{Counters}
use lindb.Kv.EditLog.{EditLog}
use lindb.Kv.FamilyVersion.{FamilyVersion, Cell}
use lindb.Kv.VersionSet.{
  VersionSet, Disk, Failure, create_failed, current_failed, Answer, persist_edit_logs,
  create_family_snapshot, create_store_snapshot, recover,
}

-- The families' edit logs of `createSnapshot`. `none` is a panic: a family, or its current version,
-- that is not in memory.
unfoldable pub family_snapshots : Map ℕ String → VersionSet → Option (List EditLog)
family_snapshots [] vs = some []
family_snapshots ((id, name) ∷ ids) vs = elim (lookup name vs.family_versions) [
  | none ↦ none
  | some fv ↦ elim (lookup fv.current fv.versions) [
    | none ↦ none
    | some cell ↦ elim (family_snapshots ids vs) [
      | none ↦ none
      | some els ↦ some (create_family_snapshot id cell.version ∷ els)
    ]
  ]
]

unfoldable pub create_snapshot : VersionSet → Option (List EditLog)
create_snapshot vs = elim (family_snapshots vs.family_ids vs) [
  | none ↦ none
  | some els ↦ some (els ++ create_store_snapshot vs.counters ∷ [])
]

-- What the file system answers when a journal is made: whether the file is created, each record is
-- written, and CURRENT is replaced.
pub record Answers : Type 0 where
  pub creates : Bool
  pub writes : EditLog → Answer
  pub sets : Bool

-- `initJournal`
unfoldable pub init_journal :
    Answers → Disk → VersionSet → Option (VersionSet × Disk × Option Failure)
init_journal answers disk vs = elim vs.manifest [
  | some n ↦ some (vs, disk, none)
  | none ↦
      let n = vs.counters.manifest_file_number in
      if not answers.creates
      then some (vs, disk, some create_failed)
      else elim (create_snapshot vs) [
        | none ↦ none
        | some els ↦
            let (records, err) = persist_edit_logs (map (λ el. (answers.writes el, el)) els) [] in
            let disk' = record disk { files = insert n records disk.files } in
            elim err [
              | some e ↦ some (vs, disk', some e)
              | none ↦
                  if answers.sets
                  then some
                      (record vs { manifest = some n }, record disk' { current = some n }, none)
                  else some (vs, disk', some current_failed)
            ]
      ]
]

-- `Recover`
unfoldable pub recover_store :
    Answers → Disk → VersionSet → Option (VersionSet × Disk × Option Failure)
recover_store answers disk vs = elim disk.current [
  | none ↦ init_journal answers disk vs
  | some n ↦ elim (recover disk vs) [
    | none ↦ none
    | some (vs', err) ↦ elim err [
      | some e ↦ some (vs', disk, some e)
      | none ↦ init_journal answers disk vs'
    ]
  ]
]

-- What the file system answers to the clean-up: whether the directory is listed, and which manifest
-- files can be removed.
pub record Cleanup : Type 0 where
  pub lists : Bool
  pub removes : ℕ → Bool

-- `deleteObsoleteFiles` of kv/store.go: every manifest file but the one with the manifest number. A
-- failure is logged, and the loop goes on.
unfoldable pub keep_manifest : (ℕ → Bool) → ℕ → Map ℕ (List (List ℕ)) → Map ℕ (List (List ℕ))
keep_manifest removes n [] = []
keep_manifest removes n ((k, records) ∷ files) =
    let rest = keep_manifest removes n files in
    if k == n then (k, records) ∷ rest else if removes k then rest else (k, records) ∷ rest

unfoldable pub delete_obsolete_manifests : Cleanup → Counters → Disk → Disk
delete_obsolete_manifests cleanup c disk =
    if cleanup.lists
    then record disk { files = keep_manifest cleanup.removes c.manifest_file_number disk.files }
    else disk
