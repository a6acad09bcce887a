-- ===== src/Kv/VersionSet/Current.antt =====
-- The current version of each family of a version set, and what the steps of a commit and of a
-- recovery do to it.
use lindb.Base.{
  ℕ, ◌+◌, ◌-◌, ◌%◌, ◌^◌, Option-cases, inl, inr, ◌≡◌, ap, ◌∙◌, Option, none, some, arith, String,
  String-Key, ℕ-Key, lookup, lookup-insert,
}
use lindb.Kv.Version.{Version}
use lindb.Kv.FamilyVersion.{
  Cell, FamilyVersion, Snapshot, get_snapshot, close, append_version, retain, release, set_ref,
  num_of_ref, remove_version, installed,
}
use lindb.Kv.FamilyVersion.Trace.{set_ref_parts, remove_version_parts}
use lindb.Kv.VersionSet.{apply_logs, EditLog, apply_current, VersionSet}

-- The version that a family holds under an id.
unfoldable pub version_of : ℕ → FamilyVersion → Option Version
version_of v fv = elim (lookup v fv.versions) [ none ↦ none | some cell ↦ some cell.version ]

unfoldable pub current_of : FamilyVersion → Option Version
current_of fv = version_of fv.current fv

-- The current version of the family with a name.
unfoldable pub current_version : String → VersionSet → Option Version
current_version name vs = elim (lookup name vs.family_versions) [
  | none ↦ none
  | some fv ↦ current_of fv
]

version_of-set_ref :
    (v ref j : ℕ) (fv : FamilyVersion) → version_of j (set_ref v ref fv) ≡ version_of j fv
unfolding version_of set_ref
version_of-set_ref v ref j fv = elim (Option-cases (lookup v fv.versions)) [
  | inl e ↦ ground (arith, e)
  | inr (c, e) ↦ ground (arith, e, lookup-insert v j (record c { ref = ref }) fv.versions)
]

version_of-retain : (v j : ℕ) (fv : FamilyVersion) → version_of j (retain v fv) ≡ version_of j fv
unfolding retain
version_of-retain v j fv = version_of-set_ref v _ j fv

version_of-remove :
    (v j : ℕ) (fv : FamilyVersion) → version_of j (remove_version v fv) ≡ version_of j fv
unfolding version_of remove_version
version_of-remove v j fv = ground arith

version_of-release : (v j : ℕ) (fv : FamilyVersion) → version_of j (release v fv) ≡ version_of j fv
unfolding release
version_of-release v j fv =
    let ref = (num_of_ref v fv + 2 ^ 32 - 1) % 2 ^ 32 in
    ground (arith, version_of-remove v j (set_ref v ref fv), version_of-set_ref v ref j fv)

current-retain : (v : ℕ) (fv : FamilyVersion) → (retain v fv).current ≡ fv.current
unfolding retain
current-retain v fv = (set_ref_parts v _ fv).0

current-release : (v : ℕ) (fv : FamilyVersion) → (release v fv).current ≡ fv.current
unfolding release
current-release v fv =
    let ref = (num_of_ref v fv + 2 ^ 32 - 1) % 2 ^ 32 in
    ground (arith, (set_ref_parts v ref fv).0, (remove_version_parts v (set_ref v ref fv)).0)

current-append : (w : Version) (fv : FamilyVersion) → (append_version w fv).current ≡ w.id
unfolding append_version
current-append w fv = ground (arith, (remove_version_parts fv.current (installed w fv)).0)

version_of-installed :
    (w : Version) (fv : FamilyVersion) → version_of w.id (installed w fv) ≡ some w
unfolding version_of
version_of-installed w fv =
    ground (arith, lookup-insert w.id w.id (record { version = w; ref = 0 }) fv.versions)

version_of-append :
    (w : Version) (fv : FamilyVersion) → version_of w.id (append_version w fv) ≡ some w
unfolding append_version
version_of-append w fv =
    ground (arith, version_of-remove fv.current w.id (installed w fv), version_of-installed w fv)

current_of-retain : (v : ℕ) (fv : FamilyVersion) → current_of (retain v fv) ≡ current_of fv
unfolding current_of
current_of-retain v fv =
    ap (λ c. version_of c (retain v fv)) (current-retain v fv) ∙ version_of-retain v fv.current fv

current_of-release : (v : ℕ) (fv : FamilyVersion) → current_of (release v fv) ≡ current_of fv
unfolding current_of
current_of-release v fv =
    ap (λ c. version_of c (release v fv)) (current-release v fv)
    ∙ version_of-release v fv.current fv

-- Taking and closing a snapshot keep the current version.
pub current_of-get_snapshot : (fv : FamilyVersion) → current_of (get_snapshot fv).0 ≡ current_of fv
unfolding get_snapshot
current_of-get_snapshot fv = current_of-retain fv.current fv

pub current_of-close :
    (s : Snapshot) (fv : FamilyVersion) → current_of (close s fv).0 ≡ current_of fv
unfolding close
current_of-close s fv = ground (arith, current_of-release s.version fv)

-- A version that is appended is the current one.
pub current_of-append :
    (w : Version) (fv : FamilyVersion) → current_of (append_version w fv) ≡ some w
unfolding current_of
current_of-append w fv =
    ap (λ c. version_of c (append_version w fv)) (current-append w fv) ∙ version_of-append w fv

-- A snapshot is of the current version.
pub version_of-get_snapshot :
    (fv : FamilyVersion)
    → version_of (get_snapshot fv).1.version (get_snapshot fv).0 ≡ current_of fv
unfolding get_snapshot current_of
version_of-get_snapshot fv = version_of-retain fv.current fv.current fv

pub version_of-cell :
    (j : ℕ) (fv : FamilyVersion) (v : Version)
    → version_of j fv ≡ some v
    → (cell : Cell) × (lookup j fv.versions ≡ some cell) × (cell.version ≡ v)
unfolding version_of
version_of-cell j fv v h = elim (Option-cases (lookup j fv.versions)) [
  | inl e ↦ absurd (ground (arith, e))
  | inr (cell, e) ↦ (cell, e, ground (arith, e))
]

pub current_version-found :
    (family : String) (vs : VersionSet) (v : Version)
    → current_version family vs ≡ some v
    → (fv : FamilyVersion) × (lookup family vs.family_versions ≡ some fv) × (current_of fv ≡ some v)
unfolding current_version
current_version-found family vs v h = elim (Option-cases (lookup family vs.family_versions)) [
  | inl e ↦ absurd (ground (arith, e))
  | inr (fv, e) ↦ (fv, e, ground (arith, e))
]

-- `recover` applies the logs to the current version in place.
pub current_of-apply :
    (el : EditLog) (fv : FamilyVersion) (v : Version)
    → current_of fv ≡ some v
    → current_of (apply_current el fv) ≡ some (apply_logs el.logs v)
unfolding current_of apply_current
current_of-apply el fv v h =
    let (cell, found, held) = version_of-cell fv.current fv v h in
    unfold version_of in
    ground (
      arith,
      found,
      held,
      lookup-insert fv.current fv.current
          (record cell { version = apply_logs el.logs cell.version }) fv.versions,
    )
