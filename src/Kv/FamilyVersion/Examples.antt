-- ===== src/Kv/FamilyVersion/Examples.antt =====
-- Tests of family_version.go and snapshot.go, and their theorems at concrete inputs.
use lindb.Base.{
  ◌⊎◌, ◌≡◌, ◌<◌, refl, In, inl, List, [], ◌∷◌, some, lookup, lookup-insert, arith, ℕ-Key,
}
use lindb.Kv.Level
use lindb.Kv.Level.{FileMeta}
use lindb.Kv.Samples.{two_levels, low_file}
use lindb.Kv.Version.{get_all_files, all_in_levels}
use lindb.Kv.FamilyVersion.{
  Cell, FamilyVersion, Snapshot, new_family_version, get_snapshot, get_all_active_files,
}
use lindb.Kv.FamilyVersion.Trace.{open_on, IsTracked}
use lindb.Kv.FamilyVersion.Reach.{Reach, here, next, takes, Reach-IsTracked}
use lindb.Kv.FamilyVersion.ActiveFiles.{get_all_active_files-Lists, Lists}

abbrev metrics : FamilyVersion
metrics = new_family_version 1 "metrics" two_levels

-- A snapshot of the first version is open.
abbrev held : FamilyVersion
held = (get_snapshot metrics).0

abbrev snapshots : List Snapshot
snapshots = (get_snapshot metrics).1 ∷ []

abbrev first_cell : Cell
first_cell = record { version = two_levels; ref = 0 }

metrics-lookup : lookup 5 metrics.versions ≡ some first_cell
unfolding new_family_version
metrics-lookup = lookup-insert 5 5 first_cell []

held-Reach : Reach metrics [] held snapshots
held-Reach = next here (takes (omega arith))

metrics-IsTracked : IsTracked metrics []
metrics-IsTracked = Reach-IsTracked 1 "metrics" two_levels here

metrics-is_current : (metrics.current ≡ 5) ⊎ (0 < open_on 5 [])
unfolding new_family_version
metrics-is_current = inl refl

low_file-listed : In low_file (get_all_files two_levels)
unfolding get_all_files all_in_levels Level.get_files
low_file-listed = inl refl

Reach-IsTracked_example : IsTracked held snapshots
Reach-IsTracked_example = Reach-IsTracked 1 "metrics" two_levels held-Reach

get_all_active_files-Lists_example : Lists (get_all_active_files metrics) 4
get_all_active_files-Lists_example =
    get_all_active_files-Lists metrics [] 5 first_cell low_file metrics-IsTracked metrics-is_current
      metrics-lookup low_file-listed
