-- ===== src/Kv/Family.antt =====
-- kv/family.go and kv/flusher.go: when a family compacts, which sst files it deletes, and the flush
-- of new pairs into a file of level 0. The directory is given by what `ParseFileName` makes of its
-- names; a pending output is its file number. The jobs' goroutines are left out.
pub mod Obsolete
pub mod Flush
mod Examples
use lindb.Base.{
  ℕ, ◌+◌, ◌-◌, ◌%◌, ◌^◌, Bool, true, false, not, ◌&&◌, ◌||◌, List, [], ◌∷◌, ◌++◌, Option, none,
  some, lookup, if◌then◌else◌, ◌==◌, has, add_key, drop_key, ℕ-Key, String,
}
use lindb.Base.Words.{lt64, next64, to_word32}
use lindb.Kv.Level.{FileMeta}
use lindb.Kv.Version.{Inputs, number_of_files_in_level, pick_l0_compaction}
use lindb.Kv.Log.{new_file}
use lindb.Kv.EditLog.{EditLog, add, is_empty}
use lindb.Kv.FamilyVersion.{FamilyVersion, Cell, get_all_active_files}
use lindb.Kv.Table.{Builder, new_store_builder}
use lindb.Kv.Table
use lindb.Kv.VersionSet.{VersionSet, Failure, Answer, commit_family_edit_log}

pub record Family : Type 0 where
  pub name : String
  pub family_version : FamilyVersion
  pub compact_threshold : ℕ
  pub compacting : Bool
  pub pending_outputs : List ℕ

-- `needCompat`: `none` is the panic of a current version that is not in memory, or has no levels.
unfoldable pub need_compat : Family → Option Bool
need_compat f =
    if f.compacting
    then some false
    else elim (lookup f.family_version.current f.family_version.versions) [
      | none ↦ none
      | some cell ↦ elim (number_of_files_in_level 0 cell.version) [
        | none ↦ none
        | some n ↦ some (lt64 0 n && not (lt64 n f.compact_threshold))
      ]
    ]

unfoldable pub add_pending_output : ℕ → Family → Family
add_pending_output n f = record f { pending_outputs = add_key n f.pending_outputs }

unfoldable pub remove_pending_output : ℕ → Family → Family
remove_pending_output n f = record f { pending_outputs = drop_key n f.pending_outputs }

-- `commitEditLog`: an empty edit log is not committed.
unfoldable pub commit_edit_log :
    Answer
    → Family
    → EditLog
    → VersionSet
    → List (List ℕ)
    → Option (VersionSet × List (List ℕ) × EditLog × Bool)
commit_edit_log answer f el vs records =
    if is_empty el
    then some (vs, records, el, true)
    else elim (commit_family_edit_log answer f.name el vs records) [
      | none ↦ none
      | some (vs', records', el', none) ↦ some (vs', records', el', true)
      | some (vs', records', el', some e) ↦ some (vs', records', el', false)
    ]

-- `FileDesc`; `ParseFileName` gives tables only.
pub data FileType : Type 0 where
  type_manifest type_journal type_table type_temp type_info : FileType

pub record FileDesc : Type 0 where
  pub file_type : FileType
  pub file_number : ℕ

-- The live files of `deleteObsoleteFiles`: the pending outputs and the active files.
unfoldable pub add_live : List FileMeta → List ℕ → List ℕ
add_live [] live = live
add_live (file ∷ files) live = add_live files (add_key file.file_number live)

unfoldable pub live_files : Family → List ℕ
live_files f = add_live (get_all_active_files f.family_version) f.pending_outputs

-- A table that is not live is not kept.
unfoldable pub keep : List ℕ → FileDesc → Bool
keep live desc = elim desc.file_type [ type_table ↦ has desc.file_number live | _ ↦ true ]

-- The loop of `deleteObsoleteFiles`: the numbers of the files that it deletes.
unfoldable pub obsolete : List ℕ → List (Option FileDesc) → List ℕ
obsolete live [] = []
obsolete live (none ∷ descs) = obsolete live descs
obsolete live (some desc ∷ descs) =
    let rest = obsolete live descs in if keep live desc then rest else desc.file_number ∷ rest

unfoldable pub delete_obsolete_files : List (Option FileDesc) → Family → List ℕ
delete_obsolete_files descs f = obsolete (live_files f) descs

-- flusher.go: `storeFlusher`.
pub record Flusher : Type 0 where
  pub family : Family
  pub builder : Option Builder
  pub edit_log : EditLog

-- `Add`, given the next file number, and whether the file can be created and written.
unfoldable pub flusher_add : ℕ → Bool → Bool → ℕ → List ℕ → Flusher → Flusher × Bool
flusher_add file_number creates writes key value sf = elim sf.builder [
  | some b ↦ let (b', ok) = Table.add writes key value b in (record sf { builder = some b' }, ok)
  | none ↦
      if creates
      then (let (b', ok) = Table.add writes key value (new_store_builder file_number) in
          (record sf { family = add_pending_output file_number sf.family; builder = some b' }, ok))
      else (sf, false)
]

-- The end of `Commit`: what `commitEditLog` answers, and the file is pending no more.
abbrev pub Committed : Type 0
Committed = Flusher × VersionSet × List (List ℕ) × Bool

unfoldable pub flusher_install :
    Answer → Flusher → Family → VersionSet → List (List ℕ) → Option Committed
flusher_install answer sf family vs records =
    elim (commit_edit_log answer sf.family sf.edit_log vs records) [
      | none ↦ none
      | some (vs', records', el, ok) ↦
          some (record sf { family = family; edit_log = el }, vs', records', ok)
    ]

-- `Commit`, given whether the file can be closed and the bytes that this adds to it.
unfoldable pub flusher_commit :
    Answer → Bool → ℕ → Flusher → VersionSet → List (List ℕ) → Option Committed
flusher_commit answer closes closing_size sf vs records = elim sf.builder [
  | none ↦ flusher_install answer sf sf.family vs records
  | some b ↦
      let family = remove_pending_output b.file_number sf.family in
      if closes
      then flusher_install answer
          (record sf {
            edit_log =
                add
                  (new_file 0 (record {
                    file_number = b.file_number;
                    min_key = b.min_key;
                    max_key = b.max_key;
                    file_size = to_word32 (b.size + closing_size);
                  }))
                  sf.edit_log;
          })
          family vs records
      else some (record sf { family = family }, vs, records, false)
]
