-- ===== src/Kv/VersionSet/Journal/Examples.antt =====
-- The theorems of the journal at concrete inputs.
use lindb.Base.{
  insert, ℕ, ◌≡◌, refl, List, [], ◌∷◌, Option, none, some, true, false, ◌⊎◌, ◌==◌, lookup, ℕ-Key,
  String-Key,
}
use lindb.Stream.Writer.{eof}
use lindb.Stream.Reader.{
  read_varint32, read_varint64, read_uvarint64, read_uvarint, read_uvarint_loop, new_reader,
  unzigzag,
}
use lindb.Kv.EditLog.{EditLog, unmarshal, unmarshal_logs, read_failed}
use lindb.Kv.VersionSet.{
  create_store_snapshot, VersionSet, Disk, Failure, written, new_version_set, unmarshal_failed,
}
use lindb.Base.{All, arith}
use lindb.Kv.Level
use lindb.Kv.Samples.{two_levels, two_levels-IsVersion}
use lindb.Kv.Version.Clone.{empty_version}
use lindb.Kv.EditLog.{add}
use lindb.Kv.EditLog.Codec.{IsEditLog}
use lindb.Kv.FamilyVersion.{new_family_version}
use lindb.Kv.VersionSet.{create_family_snapshot, levels_logs, level_logs, recover_records}
use lindb.Kv.VersionSet.Current.{current_version, current_of, version_of}
use lindb.Kv.VersionSet.Journal.Recovered.{Start, Restored, create_snapshot-recover_records}
use lindb.Kv.VersionSet.Journal.{
  Answers, Cleanup, create_snapshot, family_snapshots, init_journal, recover_store,
  delete_obsolete_manifests,
}
use lindb.Kv.VersionSet.Journal.Safe.{records_of, init_journal-Safe, recover_store-failed}

abbrev all_well : Answers
all_well = record { creates = true; writes = λ el. written; sets = true }

-- The manifest 7 is the live one.
abbrev disk : Disk
disk = record { files = (7, [] ∷ []) ∷ []; current = some 7 }

abbrev new_store : VersionSet
new_store = new_version_set 2

new_store-closed : new_store.manifest ≡ none
unfolding new_version_set
new_store-closed = refl

abbrev snapshot : List EditLog
snapshot = create_store_snapshot new_store.counters ∷ []

new_store-snapshot : create_snapshot new_store ≡ some snapshot
unfolding create_snapshot family_snapshots new_version_set
new_store-snapshot = refl

init_journal-Safe_example :
    (vs' : VersionSet) × (disk' : Disk) × (err : Option Failure) × (init_journal all_well disk
        new_store
      ≡ some (vs', disk', err))
    × ((m : ℕ)
        → (new_store.counters.manifest_file_number == m) ≡ false
        → lookup m disk'.files ≡ lookup m disk.files)
    × (((disk'.current ≡ some 7) × (err ≡ none → ⊥))
        ⊎ ((disk'.current ≡ some new_store.counters.manifest_file_number)
            × (err ≡ none)
            × (lookup new_store.counters.manifest_file_number disk'.files
                ≡ some (records_of snapshot))))
init_journal-Safe_example =
    init_journal-Safe all_well disk new_store snapshot new_store-closed new_store-snapshot

abbrev removing : Cleanup
removing = record { lists = true; removes = λ n. true }

torn : (unmarshal []).1 ≡ some (read_failed eof)
unfolding unmarshal unmarshal_logs read_varint32 read_varint64 read_uvarint64 read_uvarint
    read_uvarint_loop new_reader unzigzag
torn = refl

live : lookup 7 disk.files ≡ some ([] ∷ [])
unfolding lookup
live = refl

recover_store-failed_example :
    (vs : VersionSet) × (recover_store all_well disk (new_version_set 2)
      ≡ some (vs, disk, some (unmarshal_failed (read_failed eof))))
    × (lookup 7 (delete_obsolete_manifests removing vs.counters disk).files ≡ none)
recover_store-failed_example =
    recover_store-failed all_well removing ((7, [] ∷ []) ∷ []) 2 7 [] [] (read_failed eof) live torn
      refl

-- A store with a family that has files, and the same store when it is opened.
abbrev full : VersionSet
full = record {
  counters = record { manifest_file_number = 1; next_file_number = 8; version_id = 6 };
  num_of_levels = 2;
  family_versions = ("metrics", new_family_version 1 "metrics" two_levels) ∷ [];
  family_ids = (1, "metrics") ∷ [];
  manifest = some 1;
}

abbrev opened : VersionSet
opened = record (new_version_set 2) {
  family_versions = ("metrics", new_family_version 1 "metrics" (empty_version 0 2)) ∷ [];
  family_ids = (1, "metrics") ∷ [];
}

opened-Start : Start full opened ((1, "metrics") ∷ [])
unfolding current_version current_of version_of new_family_version lookup insert new_version_set
opened-Start = (
  record {
    version = two_levels;
    empty_id = 0;
    current = refl;
    valid = two_levels-IsVersion;
    small = omega arith;
    known = refl;
    empty = refl;
    not_store = refl;
  },
  tt,
  tt,
)

abbrev full_snapshot : List EditLog
full_snapshot = create_family_snapshot 1 two_levels ∷ create_store_snapshot full.counters ∷ []

full-snapshot : create_snapshot full ≡ some full_snapshot
unfolding create_snapshot family_snapshots new_family_version lookup insert
full-snapshot = refl

full_snapshot-IsEditLog : All IsEditLog full_snapshot
unfolding create_family_snapshot create_store_snapshot levels_logs level_logs add Level.get_files
full_snapshot-IsEditLog = (
  record {
    id_fits = (omega arith, refl);
    count_fits = omega arith;
    logs_fit = (
      (omega arith, omega arith, omega arith, omega arith, omega arith),
      ((omega arith, omega arith, omega arith, omega arith, omega arith), tt),
    );
  },
  (
    record {
      id_fits = (omega arith, refl);
      count_fits = omega arith;
      logs_fit = (omega arith, tt);
    },
    tt,
  ),
)

create_snapshot-recover_records_example :
    (rec : VersionSet) × (recover_records (records_of full_snapshot) opened ≡ (rec, none))
    × Restored full rec ((1, "metrics") ∷ [])
    × (rec.counters.manifest_file_number ≡ 8)
create_snapshot-recover_records_example =
    create_snapshot-recover_records full opened full_snapshot opened-Start full-snapshot
      full_snapshot-IsEditLog
