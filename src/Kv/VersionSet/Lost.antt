-- ===== src/Kv/VersionSet/Lost.antt =====
-- `CommitFamilyEditLog` where the record reaches the manifest and the sync of it fails
-- (pkg/bufioutil/bufio_writer.go, `Sync`), against `recover`.
use lindb.Base.{
  ℕ, ◌≡◌, inl, inr, false, List, [], ◌∷◌, none, some, Option-cases, ◌==◌, arith, String, String-Key,
  ℕ-Key, lookup,
}
use lindb.Kv.Version.{Version}
use lindb.Kv.EditLog.{EditLog, store_family_id, marshal}
use lindb.Kv.EditLog.Codec.{IsEditLog, unmarshal-marshal}
use lindb.Kv.VersionSet.{
  VersionSet, written, failed_sync, sync_failed, install, persist_edit_log, get_family_version,
  commit_family_edit_log, recover_records,
}
use lindb.Kv.VersionSet.Current.{current_version}
use lindb.Kv.VersionSet.Durable.{Agrees, logged, commit_family_edit_log-recover_records}

-- A failed sync leaves the records that a commit whose record is written leaves.
same_records :
    (family : String) (edit_log : EditLog) (vs vs' : VersionSet) (records records' : List (List ℕ))
    → (marshal (logged edit_log vs)).1 ≡ none
    → commit_family_edit_log written family edit_log vs records
      ≡ some (vs', records', logged edit_log vs, none)
    → commit_family_edit_log
        (failed_sync ((marshal (logged edit_log vs)).0 ∷ []))
        family
        edit_log
        vs
        records
      ≡ some (vs, records', logged edit_log vs, some sync_failed)
unfolding commit_family_edit_log persist_edit_log get_family_version
same_records family edit_log vs vs' records records' ok ran =
    elim (Option-cases (lookup family vs.family_versions)) [
      | inl e ↦ absurd (ground (arith, e, ran))
      | inr (fv, e) ↦ elim (Option-cases (install family fv (logged edit_log vs) vs)) [
        | inl e' ↦ absurd (ground (arith, e, e', ok, ran))
        | inr (vs'', e') ↦ ground (arith, e, e', ok, ran)
      ]
    ]

-- Let the records of a manifest recover to a version set that agrees with the one in memory: the
-- same families, files and counters. A commit of an edit log whose fields fit their types, to a
-- family that exists, whose record is in the manifest when the sync of it fails, reports the
-- failure and leaves the version set in memory as it was; yet the records then recover, without a
-- failure, to a version set that agrees with the one that the same commit gives where the sync
-- succeeds.
pub commit_family_edit_log-failed_sync :
    (family : String) (edit_log : EditLog) (vs rec start : VersionSet) (records : List (List ℕ))
    (v : Version)
    → Agrees vs rec
    → recover_records records start ≡ (rec, none)
    → current_version family vs ≡ some v
    → lookup edit_log.family_id vs.family_ids ≡ some family
    → (edit_log.family_id == store_family_id) ≡ false
    → IsEditLog (logged edit_log vs)
    → (vs' : VersionSet) × (rec' : VersionSet) × (records' : List (List ℕ))
      × (commit_family_edit_log
            (failed_sync ((marshal (logged edit_log vs)).0 ∷ []))
            family
            edit_log
            vs
            records
          ≡ some (vs, records', logged edit_log vs, some sync_failed))
      × (commit_family_edit_log written family edit_log vs records
          ≡ some (vs', records', logged edit_log vs, none))
      × (recover_records records' start ≡ (rec', none))
      × Agrees vs' rec'
commit_family_edit_log-failed_sync family edit_log vs rec start records v agree run cur known other
      fits =
    let (vs', rec', records', ran, again, agrees) =
      commit_family_edit_log-recover_records family edit_log vs rec start records v agree run cur
        known other fits in
    let ok = (unmarshal-marshal (logged edit_log vs) fits).1 in
    (
      vs',
      rec',
      records',
      same_records family edit_log vs vs' records records' ok ran,
      ran,
      again,
      agrees,
    )
