-- ===== src/Kv/VersionSet/Commit.antt =====
-- `CommitFamilyEditLog` and `recover` against each other: what a commit puts in memory is what a
-- recovery of the manifest builds.
use lindb.Base.{
  subst, ℕ, same_refl, ◌≡◌, refl, ◌∙◌, false, none, some, arith, String, String-Key, ℕ-Key, lookup,
  lookup-insert,
}
use lindb.Kv.Version.{Version, clone_version}
use lindb.Kv.Version.Files.{IsVersion}
use lindb.Kv.Version.Clone.{clone_version-file_at}
use lindb.Kv.FamilyVersion.{FamilyVersion, get_snapshot, close, append_version}
use lindb.Kv.Log.{Counters}
use lindb.Kv.EditLog.{
  EditLog, apply_logs, apply_logs_version_set, add, store_family_id, marshal, unmarshal,
}
use lindb.Kv.EditLog
use lindb.Kv.VersionSet.{
  VersionSet, install, new_version_id, set_family, apply_current, apply_family_version,
}
use lindb.Kv.VersionSet.Current.{
  current_of-apply, current_version-found, version_of-get_snapshot, version_of-cell, current_of,
  current_version, current_of-get_snapshot, current_of-close, current_of-append,
}
use lindb.Kv.VersionSet.Replay.{Same}

-- What a step leaves as the current versions: the logs applied to `w` for the family, and the
-- others as they were.
pub record Advanced (family : String) (vs vs' : VersionSet) (w : Version) : Type 0 where
  pub here : current_version family vs' ≡ some w
  pub there :
      (name : String)
      → String-Key.same family name ≡ false
      → current_version name vs' ≡ current_version name vs
  pub ids : vs'.family_ids ≡ vs.family_ids
  pub levels : vs'.num_of_levels ≡ vs.num_of_levels

set_family-Advanced :
    (family : String) (fv : FamilyVersion) (vs : VersionSet) (c : Counters) (w : Version)
    → current_of fv ≡ some w
    → Advanced family vs (record (set_family family fv vs) { counters = c }) w
unfolding current_version
set_family-Advanced family fv vs c w h = record {
  here = ground (arith, lookup-insert family family fv vs.family_versions, same_refl family);
  there = λ name other. ground (arith, lookup-insert family name fv vs.family_versions);
  ids = refl;
  levels = refl;
}

-- The version that `cloneVersion` makes holds the same files as the current one.
cloned-Same :
    (id num : ℕ) (v : Version)
    → IsVersion v
    → v.num_of_levels ≡ num
    → (w : Version) × (clone_version id num v ≡ some w) × Same w v
cloned-Same id num v valid many =
    let (w, made, valid', same, num', files) = clone_version-file_at v id valid in
    (
      w,
      subst (λ n. clone_version id n v ≡ some w) many made,
      record { left = valid'; right = valid; as_many = num'; files = files },
    )

pub install-Advanced :
    (family : String) (fv : FamilyVersion) (el : EditLog) (vs : VersionSet) (v : Version)
    → current_of fv ≡ some v
    → IsVersion v
    → v.num_of_levels ≡ vs.num_of_levels
    → (vs' : VersionSet) × (w : Version) × (install family fv el vs ≡ some vs')
      × Advanced family vs vs' (apply_logs el.logs w)
      × Same w v
      × (vs'.counters ≡ apply_logs_version_set el.logs (new_version_id vs.counters).0)
unfolding install EditLog.apply
install-Advanced family fv el vs v cur valid many =
    let fv' = (get_snapshot fv).0 in
    let s = (get_snapshot fv).1 in
    let (c, id) = new_version_id vs.counters in
    let (cell, found, held) = version_of-cell s.version fv' v (version_of-get_snapshot fv ∙ cur) in
    let (w, made, same) = cloned-Same id vs.num_of_levels v valid many in
    let w' = apply_logs el.logs w in
    let fv'' = (close s (append_version w' fv')).0 in
    let vs' = record (set_family family fv'' vs) { counters = apply_logs_version_set el.logs c } in
    (
      vs',
      w,
      rw (found, held, made, install) refl,
      set_family-Advanced family fv'' vs _ w'
          (current_of-close s (append_version w' fv') ∙ current_of-append w' fv'),
      same,
      refl,
    )

pub apply_family_version-Advanced :
    (family : String) (el : EditLog) (vs : VersionSet) (v : Version)
    → lookup el.family_id vs.family_ids ≡ some family
    → current_version family vs ≡ some v
    → (vs' : VersionSet) × (apply_family_version el.family_id el vs ≡ (vs', none))
      × Advanced family vs vs' (apply_logs el.logs v)
      × (vs'.counters ≡ apply_logs_version_set el.logs vs.counters)
unfolding apply_family_version EditLog.apply_version_set
apply_family_version-Advanced family el vs v known cur =
    let (fv, found, cur') = current_version-found family vs v cur in
    let fv' = (get_snapshot fv).0 in
    let s = (get_snapshot fv).1 in
    let fv'' = (close s (apply_current el fv')).0 in
    let w = apply_logs el.logs v in
    let vs' = record (set_family family fv'' vs) {
      counters = apply_logs_version_set el.logs vs.counters;
    } in
    (
      vs',
      rw (known, found, apply_family_version) refl,
      set_family-Advanced family fv'' vs _ w (
          current_of-close s (apply_current el fv')
          ∙ current_of-apply el fv' v (current_of-get_snapshot fv ∙ cur')),
      refl,
    )
