-- ===== src/Kv/FamilyVersion.antt =====
-- kv/version/family_version.go and kv/version/snapshot.go, with the reference counts of
-- version.go. A version's id stands for the pointer to it: ids are given out once. `versions` is
-- the memory: every version of the family, also those that are active no more.
pub mod Trace
pub mod ActiveFiles
pub mod Reach
mod Examples
use lindb.Base.{
  ℕ, ◌+◌, ◌-◌, ◌%◌, ◌^◌, Bool, true, false, List, [], ◌∷◌, ◌++◌, Option, none, some, Map, lookup,
  insert, if◌then◌else◌, ◌==◌, has, add_key, drop_key, ℕ-Key, String,
}
use lindb.Kv.Level.{FileMeta}
use lindb.Kv.Version.{Version, get_all_files}

-- A version with its atomic reference count, an int32.
pub record Cell : Type 0 where
  pub version : Version
  pub ref : ℕ

pub record FamilyVersion : Type 0 where
  pub id : ℕ
  pub family_name : String
  pub current : ℕ
  pub active_versions : List ℕ
  pub versions : Map ℕ Cell

-- `newFamilyVersion`, given the version that it creates.
unfoldable pub new_family_version : ℕ → String → Version → FamilyVersion
new_family_version id name version = record {
  id = id;
  family_name = name;
  current = version.id;
  active_versions = version.id ∷ [];
  versions = insert version.id (record { version = version; ref = 0 }) [];
}

-- `numOfRef`; 0 where there is no such version.
unfoldable pub num_of_ref : ℕ → FamilyVersion → ℕ
num_of_ref v fv = elim (lookup v fv.versions) [ none ↦ 0 | some cell ↦ cell.ref ]

unfoldable pub set_ref : ℕ → ℕ → FamilyVersion → FamilyVersion
set_ref v ref fv = elim (lookup v fv.versions) [
  | none ↦ fv
  | some cell ↦ record fv { versions = insert v (record cell { ref = ref }) fv.versions }
]

-- `removeVersion`: the current version stays.
unfoldable pub remove_version : ℕ → FamilyVersion → FamilyVersion
remove_version v fv =
    if v == fv.current then fv else record fv { active_versions = drop_key v fv.active_versions }

-- `retain` and `release` wrap as an int32 does.
unfoldable pub retain : ℕ → FamilyVersion → FamilyVersion
retain v fv = set_ref v ((num_of_ref v fv + 1) % 2 ^ 32) fv

unfoldable pub release : ℕ → FamilyVersion → FamilyVersion
release v fv =
    let ref = (num_of_ref v fv + 2 ^ 32 - 1) % 2 ^ 32 in
    if ref == 0 then remove_version v (set_ref v ref fv) else set_ref v ref fv

-- `appendVersion` of a version that has just been made: it becomes the current one, and the one
-- before is removed if nothing refers to it.
abbrev pub installed : Version → FamilyVersion → FamilyVersion
installed version fv = record fv {
  current = version.id;
  active_versions = add_key version.id fv.active_versions;
  versions = insert version.id (record { version = version; ref = 0 }) fv.versions;
}

unfoldable pub append_version : Version → FamilyVersion → FamilyVersion
append_version version fv =
    let fv' = installed version fv in
    if num_of_ref fv.current fv' == 0 then remove_version fv.current fv' else fv'

-- snapshot.go: a snapshot retains its version until it is closed for the first time.
pub record Snapshot : Type 0 where
  pub version : ℕ
  pub closed : Bool

unfoldable pub get_snapshot : FamilyVersion → FamilyVersion × Snapshot
get_snapshot fv = (retain fv.current fv, record { version = fv.current; closed = false })

unfoldable pub close : Snapshot → FamilyVersion → FamilyVersion × Snapshot
close s fv = if s.closed then (fv, s) else (release s.version fv, record s { closed = true })

-- `GetAllActiveFiles`: the inner loop, over the files of one version, with the numbers met so far.
unfoldable pub add_unseen : List FileMeta → List ℕ → List FileMeta → List FileMeta × List ℕ
add_unseen [] seen files = (files, seen)
add_unseen (file ∷ rest) seen files = elim (has file.file_number seen) [
  | true ↦ add_unseen rest seen files
  | false ↦ add_unseen rest (add_key file.file_number seen) (files ++ file ∷ [])
]

unfoldable pub active_files : List ℕ → FamilyVersion → List ℕ → List FileMeta → List FileMeta
active_files [] fv seen files = files
active_files (v ∷ vs) fv seen files = elim (lookup v fv.versions) [
  | none ↦ active_files vs fv seen files
  | some cell ↦
      let (files', seen') = add_unseen (get_all_files cell.version) seen files in
      active_files vs fv seen' files'
]

unfoldable pub get_all_active_files : FamilyVersion → List FileMeta
get_all_active_files fv = active_files fv.active_versions fv [] []
