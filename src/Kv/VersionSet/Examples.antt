-- ===== src/Kv/VersionSet/Examples.antt =====
-- Tests of version_set.go, and its theorems at concrete inputs.
use lindb.Base.{
  Bool-cases, inl, inr, subst, ℕ, ◌≡◌, refl, List, [], ◌∷◌, none, some, arith, lookup, insert,
  String, String-Key, ℕ-Key,
}
use lindb.Kv.Samples.{two_levels, two_levels-IsVersion, new_file_meta}
use lindb.Kv.Version.{Version}
use lindb.Kv.Version.Files.{IsVersion, file_at}
use lindb.Kv.Version.Clone.{empty_version}
use lindb.Kv.Log.{new_file}
use lindb.Kv.EditLog.{EditLog, apply_logs, add, marshal}
use lindb.Kv.EditLog.Codec.{IsEditLog, unmarshal-marshal}
use lindb.Kv.FamilyVersion.{new_family_version}
use lindb.Kv.VersionSet.{
  get_family_version, persist_edit_log, VersionSet, failed_sync, sync_failed, written,
  create_family_snapshot, commit_family_edit_log, recover_records,
}
use lindb.Kv.VersionSet.Current.{current_version, current_of, version_of}
use lindb.Kv.VersionSet.Replay.{create_family_snapshot-replay}
use lindb.Kv.VersionSet.Lost.{commit_family_edit_log-failed_sync}
use lindb.Kv.VersionSet.Durable.{
  Agrees, Agrees-refl, logged, commit_family_edit_log-recover_records,
}

-- A store with one family.
abbrev store : VersionSet
store = record {
  counters = record { manifest_file_number = 1; next_file_number = 8; version_id = 6 };
  num_of_levels = 2;
  family_versions = ("metrics", new_family_version 1 "metrics" two_levels) ∷ [];
  family_ids = (1, "metrics") ∷ [];
  manifest = some 1;
}

abbrev one_file : EditLog
one_file = record { logs = new_file 0 new_file_meta ∷ []; family_id = 1 }

store-current : current_version "metrics" store ≡ some two_levels
unfolding current_version current_of version_of new_family_version lookup insert
store-current = refl

store-only :
    (name : String) (v : Version)
    → current_version name store ≡ some v
    → IsVersion v × (v.num_of_levels ≡ 2)
unfolding current_version current_of version_of new_family_version lookup insert
store-only name v e = elim (Bool-cases (String-Key.same "metrics" name)) [
  | inl here ↦
      subst (λ u. IsVersion u × (u.num_of_levels ≡ 2)) {x = two_levels} {y = v}
        (ground (arith, here)) (two_levels-IsVersion, refl)
  | inr there ↦ absurd (ground (arith, there))
]

store-Agrees : Agrees store store
store-Agrees = Agrees-refl store store-only

one_file-IsEditLog : IsEditLog (logged one_file store)
unfolding add
one_file-IsEditLog = record {
  id_fits = (omega arith, refl);
  count_fits = omega arith;
  logs_fit = ((omega arith, omega arith, omega arith, omega arith, omega arith), (omega arith, tt));
}

nothing_recorded : recover_records [] store ≡ (store, none)
unfolding recover_records
nothing_recorded = refl

store-ids : lookup 1 store.family_ids ≡ some "metrics"
unfolding lookup
store-ids = refl

commit_family_edit_log-recover_records_example :
    (vs' : VersionSet) × (rec' : VersionSet) × (records' : List (List ℕ)) × (commit_family_edit_log
        written "metrics" one_file store []
      ≡ some (vs', records', logged one_file store, none))
    × (recover_records records' store ≡ (rec', none))
    × Agrees vs' rec'
commit_family_edit_log-recover_records_example =
    commit_family_edit_log-recover_records "metrics" one_file store store store [] two_levels
      store-Agrees nothing_recorded store-current store-ids refl one_file-IsEditLog

commit_family_edit_log-failed_sync_example :
    (vs' : VersionSet) × (rec' : VersionSet) × (records' : List (List ℕ)) × (commit_family_edit_log
        (failed_sync ((marshal (logged one_file store)).0 ∷ []))
        "metrics"
        one_file
        store
        []
      ≡ some (store, records', logged one_file store, some sync_failed))
    × (commit_family_edit_log written "metrics" one_file store []
        ≡ some (vs', records', logged one_file store, none))
    × (recover_records records' store ≡ (rec', none))
    × Agrees vs' rec'
commit_family_edit_log-failed_sync_example =
    commit_family_edit_log-failed_sync "metrics" one_file store store store [] two_levels
      store-Agrees nothing_recorded store-current store-ids refl one_file-IsEditLog

create_family_snapshot-replay_example :
    file_at (apply_logs (create_family_snapshot 1 two_levels).logs (empty_version 9 2)) 1 3
    ≡ file_at two_levels 1 3
create_family_snapshot-replay_example =
    create_family_snapshot-replay two_levels 1 9 1 3 two_levels-IsVersion (omega arith)

sync_lost :
    commit_family_edit_log
      (failed_sync ((marshal (logged one_file store)).0 ∷ []))
      "metrics"
      one_file
      store
      []
    ≡ some
        (store, (marshal (logged one_file store)).0 ∷ [], logged one_file store, some sync_failed)
unfolding commit_family_edit_log get_family_version persist_edit_log lookup
sync_lost =
    let ok = (unmarshal-marshal (logged one_file store) one_file-IsEditLog).1 in
    rw (ok, commit_family_edit_log) (rw (ok, persist_edit_log) refl)
