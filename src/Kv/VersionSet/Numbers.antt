-- ===== src/Kv/VersionSet/Numbers.antt =====
-- The file numbers that a commit leaves.
use lindb.Base.{ℕ-Key, ◌≡◌, String-Key}
use lindb.Kv.Log.{Log, next_file_number}
use lindb.Kv.Log
use lindb.Kv.EditLog.{EditLog}
use lindb.Kv.EditLog
use lindb.Base.Words.{next64}
use lindb.Kv.FamilyVersion.{FamilyVersion}
use lindb.Kv.VersionSet.{VersionSet}

-- Both counters behind the log that a commit adds.
abbrev Numbered : VersionSet → VersionSet → Type 0
Numbered vs vs' =
    (vs'.counters.manifest_file_number ≡ vs.counters.next_file_number)
    × (vs'.counters.next_file_number ≡ next64 vs.counters.next_file_number)
    × (vs'.manifest ≡ vs.manifest)
