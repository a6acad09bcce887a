-- ===== src/Kv/FamilyVersion/Trace.antt =====
-- The versions of a family under any sequence of snapshots taken and closed and versions installed.
use lindb.Base.{
  has-add_key, Bool-cases, none, true, false, ◌-◌, ◌%◌, ◌^◌, has-drop_key, ◌++◌, ◌<◌, ◌≤◌, not,
  ◌&&◌, ℕ, ◌+◌, ◌≡◌, ◌||◌, List, [], ◌∷◌, some, lookup, lookup-insert, if◌then◌else◌, ◌==◌, ltb,
  has, ℕ-Key, arith, length, Option-cases, inl, inr,
}
use lindb.Kv.Version.{Version}
use lindb.Kv.FamilyVersion.{
  installed, Cell, FamilyVersion, Snapshot, num_of_ref, set_ref, remove_version, retain, release,
  append_version, get_snapshot, close,
}

-- The open snapshots of a version.
unfoldable pub open_on : ℕ → List Snapshot → ℕ
open_on v [] = 0
open_on v (s ∷ ss) = (if s.version == v && not s.closed then 1 else 0) + open_on v ss

-- What the family relies on: a version's count is that of its open snapshots, and the active
-- versions are those with an open snapshot and the current one.
pub record IsTracked (fv : FamilyVersion) (ss : List Snapshot) : Type 0 where
  pub counted : (v : ℕ) → num_of_ref v fv ≡ open_on v ss
  pub active : (v : ℕ) → has v fv.active_versions ≡ (ltb 0 (num_of_ref v fv) || fv.current == v)
  pub known : (cell : Cell) × (lookup fv.current fv.versions ≡ some cell)

num_of_ref-set_ref :
    (v ref j : ℕ) (fv : FamilyVersion) (cell : Cell)
    → lookup v fv.versions ≡ some cell
    → num_of_ref j (set_ref v ref fv) ≡ (if v == j then ref else num_of_ref j fv)
unfolding num_of_ref set_ref
num_of_ref-set_ref v ref j fv cell h =
    rw (h, set_ref) (ground (arith, lookup-insert v j (record cell { ref = ref }) fv.versions))

-- Which parts of a family each operation changes.
pub set_ref_parts :
    (v ref : ℕ) (fv : FamilyVersion)
    → ((set_ref v ref fv).current ≡ fv.current)
      × ((set_ref v ref fv).active_versions ≡ fv.active_versions)
unfolding set_ref
set_ref_parts v ref fv = ground arith

pub lookup-set_ref :
    (v ref : ℕ) (fv : FamilyVersion) (j : ℕ) (cell : Cell)
    → lookup j fv.versions ≡ some cell
    → (cell' : Cell) × (lookup j (set_ref v ref fv).versions ≡ some cell')
      × (cell'.version ≡ cell.version)
unfolding set_ref
lookup-set_ref v ref fv j cell h = elim (Option-cases (lookup v fv.versions)) [
  | inl e ↦ rw (e, set_ref) (cell, h, λ i. cell.version)
  | inr (old, e) ↦
      rw (e, set_ref)
        (
          (if v == j then record old { ref = ref } else cell),
          ground (arith, lookup-insert v j (record old { ref = ref }) fv.versions),
          ground arith,
        )
]

pub remove_version_parts :
    (v : ℕ) (fv : FamilyVersion)
    → ((remove_version v fv).current ≡ fv.current)
      × ((remove_version v fv).versions ≡ fv.versions)
      × ((j : ℕ)
          → has j (remove_version v fv).active_versions ≡ (
              if v == j
              then (v == fv.current && has j fv.active_versions)
              else has j fv.active_versions))
unfolding remove_version
remove_version_parts v fv =
    (ground arith, ground arith, λ j. ground (arith, has-drop_key v j fv.active_versions))

open_on-append :
    (v : ℕ) (xs ys : List Snapshot) → open_on v (xs ++ ys) ≡ open_on v xs + open_on v ys
unfolding open_on
open_on-append v [] ys = omega arith
open_on-append v (x ∷ xs) ys = omega (arith, open_on-append v xs ys)

open_on-le : (v : ℕ) (ss : List Snapshot) → open_on v ss ≤ length ss
unfolding open_on
open_on-le v [] = omega arith
open_on-le v (s ∷ ss) = ground (arith, open_on-le v ss)

-- A retained version has one open snapshot more; nothing is removed.
pub takes-IsTracked :
    (fv : FamilyVersion) (ss : List Snapshot)
    → length ss < 2 ^ 31
    → IsTracked fv ss
    → IsTracked (get_snapshot fv).0 ((get_snapshot fv).1 ∷ ss)
unfolding get_snapshot retain open_on
takes-IsTracked fv ss few h = record {
  counted = λ v. ground (
    arith,
    num_of_ref-set_ref fv.current ((num_of_ref fv.current fv + 1) % 2 ^ 32) v fv h.known.0
        h.known.1,
    h.counted v,
    h.counted fv.current,
    open_on-le fv.current ss,
  );
  active = λ v. ground (
    arith,
    num_of_ref-set_ref fv.current ((num_of_ref fv.current fv + 1) % 2 ^ 32) v fv h.known.0
        h.known.1,
    set_ref_parts fv.current ((num_of_ref fv.current fv + 1) % 2 ^ 32) fv,
    h.counted v,
    h.active v,
    h.counted fv.current,
    open_on-le fv.current ss,
  );
  known =
      let (cell, e, _) =
        lookup-set_ref fv.current ((num_of_ref fv.current fv + 1) % 2 ^ 32) fv fv.current h.known.0
          h.known.1 in
      (cell, rw (set_ref_parts fv.current ((num_of_ref fv.current fv + 1) % 2 ^ 32) fv).0 e);
}

-- One open snapshot of `s` less in the list.
open_on-close :
    (v : ℕ) (s : Snapshot) (xs ys : List Snapshot)
    → s.closed ≡ false
    → open_on v (xs ++ s ∷ ys)
      ≡ (if s.version == v then 1 else 0) + open_on v (xs ++ record s { closed = true } ∷ ys)
open_on-close v s xs ys h =
    rw (open_on-append v xs (s ∷ ys), open_on-append v xs (record s { closed = true } ∷ ys))
      (unfold open_on in ground arith)

num_of_ref-remove :
    (v : ℕ) (fv : FamilyVersion) (j : ℕ) → num_of_ref j (remove_version v fv) ≡ num_of_ref j fv
unfolding num_of_ref
num_of_ref-remove v fv j = ground (arith, (remove_version_parts v fv).1)

-- What `release` of a version in memory does.
module _ (v : ℕ) (fv : FamilyVersion) (cell : Cell) (held : lookup v fv.versions ≡ some cell) where
  abbrev pub left : ℕ
  left = (num_of_ref v fv + 2 ^ 32 - 1) % 2 ^ 32

  pub release_parts :
      ((release v fv).current ≡ fv.current)
      × ((release v fv).versions ≡ (set_ref v left fv).versions)
      × ((j : ℕ) → num_of_ref j (release v fv) ≡ (if v == j then left else num_of_ref j fv))
      × ((j : ℕ)
          → has j (release v fv).active_versions ≡ (
              if left == 0 && (v == j && not (v == fv.current))
              then false
              else has j fv.active_versions))
  unfolding release
  release_parts =
      let down = set_ref v left fv in
      let (cur, act) = set_ref_parts v left fv in
      let (cur', mem, act') = remove_version_parts v down in
      (
        ground (arith, cur, cur'),
        ground (arith, mem),
        λ j. ground (arith, num_of_ref-remove v down j, num_of_ref-set_ref v left j fv cell held),
        λ j. ground (arith, cur, act, act' j),
      )

pub ref_known :
    (v : ℕ) (fv : FamilyVersion)
    → 0 < num_of_ref v fv
    → (cell : Cell) × (lookup v fv.versions ≡ some cell)
unfolding num_of_ref
ref_known v fv h = elim (Option-cases (lookup v fv.versions)) [
  | inl e ↦ absurd (ground arith)
  | inr (cell, e) ↦ (cell, e)
]

-- Closing an open snapshot takes one from its version's count, and a version whose count gets to
-- zero is active no more unless it is the current one.
pub closes-IsTracked :
    (fv : FamilyVersion) (xs ys : List Snapshot) (s : Snapshot)
    → length (xs ++ s ∷ ys) < 2 ^ 31
    → IsTracked fv (xs ++ s ∷ ys)
    → IsTracked (close s fv).0 (xs ++ (close s fv).1 ∷ ys)
unfolding close
closes-IsTracked fv xs ys s few h = elim (Bool-cases s.closed) [
  | inl done ↦ simp done h
  | inr still ↦ rw still (closing still)
]
  where
    before : List Snapshot
    before = xs ++ s ∷ ys

    after : List Snapshot
    after = xs ++ record s { closed = true } ∷ ys

    closing : s.closed ≡ false → IsTracked (release s.version fv) after
    closing still =
        let counts = λ (v : ℕ). open_on-close v s xs ys still in
        let (cell, held) =
          ref_known s.version fv (ground (arith, counts s.version, h.counted s.version)) in
        let (cur, mem, refs, act) = release_parts s.version fv cell held in
        record {
          counted = λ v. ground (
            arith,
            refs v,
            counts v,
            h.counted v,
            h.counted s.version,
            counts s.version,
            open_on-le s.version before,
          );
          active = λ v. ground (
            arith,
            act v,
            cur,
            refs v,
            counts v,
            h.active v,
            h.counted v,
            h.counted s.version,
            counts s.version,
            open_on-le s.version before,
          );
          known =
              let (kept, e, _) =
                lookup-set_ref s.version ((num_of_ref s.version fv + 2 ^ 32 - 1) % 2 ^ 32) fv
                  fv.current h.known.0 h.known.1 in
              (kept, rw (cur, mem) e);
        }

pub num_of_ref-installed :
    (fv : FamilyVersion) (version : Version) (j : ℕ)
    → lookup version.id fv.versions ≡ none
    → num_of_ref j (installed version fv) ≡ num_of_ref j fv
unfolding num_of_ref
num_of_ref-installed fv version j fresh =
    ground (arith, lookup-insert version.id j (record { version = version; ref = 0 }) fv.versions)

-- A version that is appended becomes the current one. The one before stays active exactly if it has
-- an open snapshot.
pub installs-IsTracked :
    (fv : FamilyVersion) (ss : List Snapshot) (version : Version)
    → lookup version.id fv.versions ≡ none
    → IsTracked fv ss
    → IsTracked (append_version version fv) ss
unfolding append_version
installs-IsTracked fv ss version fresh h =
    let new = installed version fv in
    let (cur, mem, act) = remove_version_parts fv.current new in
    let apart : (fv.current == version.id) ≡ false = ground (arith, h.known.1) in
    record {
      counted = λ v. ground (
        arith,
        num_of_ref-remove fv.current new v,
        num_of_ref-installed fv version v fresh,
        h.counted v,
      );
      active = λ v. ground (
        arith,
        act v,
        cur,
        apart,
        num_of_ref-remove fv.current new v,
        num_of_ref-installed fv version v fresh,
        num_of_ref-installed fv version fv.current fresh,
        num_of_ref-installed fv version version.id fresh,
        has-add_key version.id v fv.active_versions,
        h.active v,
        h.active fv.current,
      );
      known = (
        record { version = version; ref = 0 },
        ground (
          arith,
          cur,
          mem,
          lookup-insert version.id version.id (record { version = version; ref = 0 }) fv.versions,
        ),
      );
    }
