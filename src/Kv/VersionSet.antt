-- ===== src/Kv/VersionSet.antt =====
-- kv/version/version_set.go. A manifest file is known by its number, as `ManifestFileName` is
-- injective; it is the list of its records, as bufioutil frames them. What the file system answers
-- is an argument of the operations that use it. A version that is in a family's memory is looked up
-- by its id. The mutex serialises the operations, so each is one step.
pub mod Current
pub mod Journal
pub mod Replay
pub mod Commit
pub mod Durable
pub mod Lost
pub mod Numbers
mod Examples
use lindb.Base.{
  suc, ℕ, ◌+◌, ◌-◌, ◌%◌, ◌^◌, Bool, true, false, List, [], ◌∷◌, ◌++◌, Option, none, some, Map,
  lookup, insert, if◌then◌else◌, ◌==◌, ℕ-Key, String-Key, String,
}
use lindb.Base.Words.{next64, to_word32}
use lindb.Stream.Writer.{Error}
use lindb.Kv.Level.{FileMeta, Level}
use lindb.Kv.Level
use lindb.Kv.Version.{Version, new_version, clone_version}
use lindb.Kv.Log.{Log, new_file, next_file_number, Counters, set_next_file_number}
use lindb.Kv.EditLog.{
  EditLog, new_edit_log, add, marshal, unmarshal, UnmarshalError, store_family_id, apply_logs,
}
use lindb.Kv.EditLog
use lindb.Kv.FamilyVersion.{
  Cell, FamilyVersion, Snapshot, new_family_version, append_version, get_snapshot, close,
}

pub record VersionSet : Type 0 where
  pub counters : Counters
  pub num_of_levels : ℕ
  pub family_versions : Map String FamilyVersion
  pub family_ids : Map ℕ String
  pub manifest : Option ℕ

-- The manifest files by number, and what CURRENT names.
pub record Disk : Type 0 where
  pub files : Map ℕ (List (List ℕ))
  pub current : Option ℕ

pub data Failure : Type 0 where
  no_family : Failure
  no_family_id : ℕ → Failure
  encode_failed : Error → Failure
  write_failed : Failure
  sync_failed : Failure
  create_failed : Failure
  current_failed : Failure
  read_failed : Failure
  unmarshal_failed : UnmarshalError → Failure

-- `NewStoreVersionSet`
unfoldable pub new_version_set : ℕ → VersionSet
new_version_set num_of_levels = record {
  counters = record { manifest_file_number = 1; next_file_number = 2; version_id = 0 };
  num_of_levels = num_of_levels;
  family_versions = [];
  family_ids = [];
  manifest = none;
}

-- `NextFileNumber`
unfoldable pub next_file : VersionSet → VersionSet × ℕ
next_file vs =
    let n = next64 vs.counters.next_file_number in
    (
      record vs { counters = record (vs.counters) { next_file_number = n } },
      (n + 2 ^ 64 - 1) % 2 ^ 64,
    )

-- `newVersionID`
unfoldable pub new_version_id : Counters → Counters × ℕ
new_version_id c =
    let n = next64 c.version_id in (record c { version_id = n }, (n + 2 ^ 64 - 1) % 2 ^ 64)

-- `GetFamilyVersion` by name, and `getFamilyVersion` by id.
unfoldable pub get_family_version : String → VersionSet → Option FamilyVersion
get_family_version family vs = lookup family vs.family_versions

unfoldable pub get_family_version_by_id : ℕ → VersionSet → Option FamilyVersion
get_family_version_by_id family_id vs = elim (lookup family_id vs.family_ids) [
  | none ↦ none
  | some name ↦ lookup name vs.family_versions
]

abbrev pub set_family : String → FamilyVersion → VersionSet → VersionSet
set_family family fv vs = record vs { family_versions = insert family fv vs.family_versions }

-- `CreateFamilyVersion`: a family that exists is returned; `none` is the panic of `newVersion`.
unfoldable pub create_family_version : String → ℕ → VersionSet → Option (VersionSet × FamilyVersion)
create_family_version family family_id vs = elim (get_family_version family vs) [
  | some fv ↦ some (vs, fv)
  | none ↦
      let (c, id) = new_version_id vs.counters in
      elim (new_version id vs.num_of_levels) [
        | none ↦ none
        | some v ↦
            let fv = new_family_version family_id family v in
            some (
              record vs {
                counters = c;
                family_versions = insert family fv vs.family_versions;
                family_ids = insert family_id family vs.family_ids;
              },
              fv,
            )
      ]
]

-- What the writer answers for a record. A failure of the write, or of the flush or the sync of the
-- file, leaves in the file what `left` has: nothing, the record, or a torn one, which is given by
-- bytes that do not unmarshal, as a recovery ends with an error at either.
pub data Answer : Type 0 where
  written : Answer
  failed_write : (left : List (List ℕ)) → Answer
  failed_sync : (left : List (List ℕ)) → Answer

-- One round of `persistEditLogs`: the records of the file with the new one, or the failure.
unfoldable pub persist_edit_log : Answer → EditLog → List (List ℕ) → List (List ℕ) × Option Failure
persist_edit_log answer el records =
    let (v, err) = marshal el in
    elim err [
      | some e ↦ (records, some (encode_failed e))
      | none ↦ elim answer [
        | written ↦ (records ++ v ∷ [], none)
        | failed_write left ↦ (records ++ left, some write_failed)
        | failed_sync left ↦ (records ++ left, some sync_failed)
      ]
    ]

-- `persistEditLogs` over several, each with its answer; the first failure ends it.
unfoldable pub persist_edit_logs :
    List (Answer × EditLog) → List (List ℕ) → List (List ℕ) × Option Failure
persist_edit_logs [] records = (records, none)
persist_edit_logs ((answer, el) ∷ els) records =
    let (records', err) = persist_edit_log answer el records in
    elim err [ some e ↦ (records', some e) | none ↦ persist_edit_logs els records' ]

-- `CommitFamilyEditLog`. `none` is a panic: of `newVersion`, or of a current version that is not in
-- memory. The edit log gets the next file number before it is written, also where that fails.
unfoldable pub install : String → FamilyVersion → EditLog → VersionSet → Option VersionSet
install family fv el vs =
    let (fv', snapshot) = get_snapshot fv in
    let (c, id) = new_version_id vs.counters in
    elim (lookup snapshot.version fv'.versions) [
      | none ↦ none
      | some cell ↦ elim (clone_version id vs.num_of_levels cell.version) [
        | none ↦ none
        | some new_v ↦
            let (new_v', c') = EditLog.apply el new_v c in
            let fv'' = (close snapshot (append_version new_v' fv')).0 in
            some (record (set_family family fv'' vs) { counters = c' })
      ]
    ]

unfoldable pub commit_family_edit_log :
    Answer
    → String
    → EditLog
    → VersionSet
    → List (List ℕ)
    → Option (VersionSet × List (List ℕ) × EditLog × Option Failure)
commit_family_edit_log answer family edit_log vs records = elim (get_family_version family vs) [
  | none ↦ some (vs, records, edit_log, some no_family)
  | some fv ↦
      let el = add (next_file_number vs.counters.next_file_number) edit_log in
      let (records', err) = persist_edit_log answer el records in
      elim err [
        | some e ↦ some (vs, records', el, some e)
        | none ↦ elim (install family fv el vs) [
          | none ↦ none
          | some vs' ↦ some (vs', records', el, none)
        ]
      ]
]

-- `createFamilySnapshot`: a `NewFile` for each file of each level of the current version.
unfoldable pub level_logs : ℕ → List FileMeta → List Log
level_logs i [] = []
level_logs i (file ∷ files) = new_file (to_word32 i) file ∷ level_logs i files

unfoldable pub levels_logs : ℕ → List Level → List Log
levels_logs i [] = []
levels_logs i (l ∷ ls) = level_logs i (Level.get_files l) ++ levels_logs (suc i) ls

unfoldable pub create_family_snapshot : ℕ → Version → EditLog
create_family_snapshot family_id current = record {
  logs = levels_logs 0 current.levels;
  family_id = family_id;
}

-- `createStoreSnapshot`
unfoldable pub create_store_snapshot : Counters → EditLog
create_store_snapshot c = add (next_file_number c.next_file_number) (new_edit_log store_family_id)

-- `applyFamilyVersion` in `recover`: the current version of the family is changed in place. The
-- snapshot that is taken for it is closed at the end, and does not change the family.
unfoldable pub apply_current : EditLog → FamilyVersion → FamilyVersion
apply_current el fv = elim (lookup fv.current fv.versions) [
  | none ↦ fv
  | some cell ↦ record fv {
    versions =
        insert fv.current (record cell { version = apply_logs el.logs cell.version }) fv.versions;
  }
]

unfoldable pub apply_family_version : ℕ → EditLog → VersionSet → VersionSet × Option Failure
apply_family_version family_id el vs = elim (lookup family_id vs.family_ids) [
  | none ↦ (vs, some (no_family_id family_id))
  | some name ↦ elim (lookup name vs.family_versions) [
    | none ↦ (vs, some (no_family_id family_id))
    | some fv ↦
        let (fv', snapshot) = get_snapshot fv in
        let fv'' = (close snapshot (apply_current el fv')).0 in
        let vs' = set_family name fv'' vs in
        (record vs' { counters = EditLog.apply_version_set el vs.counters }, none)
  ]
]

-- One round of the loop of `recover`, for one record of the manifest.
unfoldable pub recover_record : List ℕ → VersionSet → VersionSet × Option Failure
recover_record bytes vs =
    let (el, err) = unmarshal bytes in
    elim err [
      | some e ↦ (vs, some (unmarshal_failed e))
      | none ↦
          if el.family_id == store_family_id
          then (record vs { counters = EditLog.apply_version_set el vs.counters }, none)
          else apply_family_version el.family_id el vs
    ]

-- The loop; a failure ends it.
unfoldable pub recover_records : List (List ℕ) → VersionSet → VersionSet × Option Failure
recover_records [] vs = (vs, none)
recover_records (bytes ∷ rest) vs =
    let (vs', failed) = recover_record bytes vs in
    elim failed [ some e ↦ (vs', some e) | none ↦ recover_records rest vs' ]

-- `recover`: the manifest that CURRENT names. Where that cannot be opened, `none` is the panic of the
-- deferred `Close` on the reader that is nil.
unfoldable pub recover : Disk → VersionSet → Option (VersionSet × Option Failure)
recover disk vs = elim disk.current [
  | none ↦ some (vs, some read_failed)
  | some n ↦ elim (lookup n disk.files) [
    | none ↦ none
    | some records ↦ some (recover_records records vs)
  ]
]
