-- ===== src/Kv/Family/Examples.antt =====
-- Tests of family.go, and its theorem at a concrete input.
use lindb.Base.{
  List, ℕ, ◌≡◌, refl, inl, inr, In, [], ◌∷◌, Option, none, some, true, false, lookup, lookup-insert,
  has, insert, delete, add_key, drop_key, ℕ-Key,
}
use lindb.Kv.Level
use lindb.Kv.Samples.{two_levels, low_file}
use lindb.Kv.Version.{get_all_files, all_in_levels, number_of_files_in_level}
use lindb.Kv.FamilyVersion.{new_family_version, get_all_active_files, active_files, add_unseen}
use lindb.Kv.FamilyVersion.Trace.{IsTracked}
use lindb.Kv.FamilyVersion.Reach.{here, Reach-IsTracked}
use lindb.Base.{◌&&◌, if◌then◌else◌, ◌==◌, String-Key}
use lindb.Kv.Samples.{two_levels-IsVersion}
use lindb.Kv.Version.{Version}
use lindb.Kv.Version.Files.{file_at}
use lindb.Kv.EditLog.{new_edit_log}
use lindb.Kv.Table.{Builder, new_store_builder}
use lindb.Kv.Table
use lindb.Kv.VersionSet.{VersionSet, written}
use lindb.Kv.VersionSet.Current.{current_version, current_of, version_of}
use lindb.Kv.Family.Flush.{flushed, flusher_commit-file_at}
use lindb.Kv.Family.{
  Flusher, flusher_commit, Family, FileDesc, type_table, need_compat, delete_obsolete_files,
  obsolete, live_files, add_live, keep,
}
use lindb.Kv.Family.Obsolete.{Used, delete_obsolete_files-spares}

abbrev family : Family
family = record {
  name = "metrics";
  family_version = new_family_version 1 "metrics" two_levels;
  compact_threshold = 1;
  compacting = false;
  pending_outputs = 9 ∷ [];
}

abbrev table : ℕ → Option FileDesc
table n = some (record { file_type = type_table; file_number = n })

-- The files 4 and 3 are in the current version, 9 is pending, 8 is left over.
directory_cleaned : delete_obsolete_files (table 4 ∷ none ∷ table 8 ∷ table 9 ∷ []) family ≡ 8 ∷ []
unfolding delete_obsolete_files obsolete keep live_files add_live get_all_active_files active_files
    add_unseen new_family_version get_all_files all_in_levels has add_key lookup insert delete
    Level.get_files drop_key
directory_cleaned = refl

compaction_due : need_compat family ≡ some true
unfolding need_compat new_family_version number_of_files_in_level lookup insert delete
    Level.number_of_files
compaction_due = refl

family-IsTracked : IsTracked family.family_version []
family-IsTracked = Reach-IsTracked 1 "metrics" two_levels here

four-Used : Used family.family_version [] 4
unfolding new_family_version get_all_files all_in_levels Level.get_files
four-Used = (
  5,
  record { version = two_levels; ref = 0 },
  low_file,
  inl refl,
  lookup-insert 5 5 _ [],
  inl refl,
  refl,
)

delete_obsolete_files-spares_example : ¬ In 4 (delete_obsolete_files (table 4 ∷ []) family)
delete_obsolete_files-spares_example =
    delete_obsolete_files-spares (table 4 ∷ []) family [] 4 family-IsTracked (inr four-Used)

abbrev one_family : VersionSet
one_family = record {
  counters = record { manifest_file_number = 1; next_file_number = 10; version_id = 6 };
  num_of_levels = 2;
  family_versions = ("metrics", new_family_version 1 "metrics" two_levels) ∷ [];
  family_ids = (1, "metrics") ∷ [];
  manifest = some 1;
}

one_family-current : current_version "metrics" one_family ≡ some two_levels
unfolding current_version current_of version_of new_family_version lookup insert
one_family-current = refl

-- A file with the key 5.
abbrev open_builder : Builder
open_builder = (Table.add true 5 (1 ∷ 2 ∷ []) (new_store_builder 9)).0

abbrev flusher : Flusher
flusher = record { family = family; builder = some open_builder; edit_log = new_edit_log 1 }

five_written : open_builder.pairs ≡ (5, 1 ∷ 2 ∷ []) ∷ []
unfolding Table.add new_store_builder
five_written = refl

flusher_commit-file_at_example :
    (sf' : Flusher) × (vs' : VersionSet) × (records' : List (List ℕ)) × (w : Version)
    × (flusher_commit written true 17 flusher one_family [] ≡ some (sf', vs', records', true))
    × (current_version "metrics" vs' ≡ some w)
    × ((i n : ℕ)
        → file_at w i n ≡ (
            if 0 == i && open_builder.file_number == n
            then some (flushed open_builder 17)
            else file_at two_levels i n))
    × (has open_builder.file_number sf'.family.pending_outputs ≡ false)
flusher_commit-file_at_example =
    flusher_commit-file_at flusher open_builder 17 one_family [] two_levels refl refl
      one_family-current two_levels-IsVersion refl
