-- ===== src/Kv/FamilyVersion/Reach.antt =====
-- Every sequence of snapshots taken and closed and versions installed, as a step relation between
-- the family and the snapshots that its clients hold.
use lindb.Base.{
  delete, String, insert, subst, ℕ, ◌^◌, ◌<◌, ◌≡◌, List, [], ◌∷◌, ◌++◌, none, lookup, has, ℕ-Key,
  arith, length,
}
use lindb.Kv.Version.{Version}
use lindb.Kv.FamilyVersion.{
  FamilyVersion, Snapshot, num_of_ref, append_version, get_snapshot, close, new_family_version,
}
use lindb.Kv.FamilyVersion.Trace.{
  IsTracked, open_on, takes-IsTracked, closes-IsTracked, installs-IsTracked,
}

-- Fewer than 2 ^ 31 snapshots are held, so no count wraps. A version that is installed is new.
pub data Step (fv : FamilyVersion) (ss : List Snapshot)
    : FamilyVersion → List Snapshot → Type 0 where
  takes : length ss < 2 ^ 31 → Step fv ss (get_snapshot fv).0 ((get_snapshot fv).1 ∷ ss)
  closes :
      (xs ys : List Snapshot) (s : Snapshot)
      → ss ≡ xs ++ s ∷ ys
      → length ss < 2 ^ 31
      → Step fv ss (close s fv).0 (xs ++ (close s fv).1 ∷ ys)
  installs :
      (version : Version)
      → lookup version.id fv.versions ≡ none
      → Step fv ss (append_version version fv) ss

pub data Reach (fv : FamilyVersion) (ss : List Snapshot)
    : FamilyVersion → List Snapshot → Type 0 where
  here : Reach fv ss fv ss
  next :
      {fv₁ fv₂ : FamilyVersion} {ss₁ ss₂ : List Snapshot}
      → Reach fv ss fv₁ ss₁
      → Step fv₁ ss₁ fv₂ ss₂
      → Reach fv ss fv₂ ss₂

Step-IsTracked :
    {fv fv' : FamilyVersion} {ss ss' : List Snapshot}
    → Step fv ss fv' ss'
    → IsTracked fv ss
    → IsTracked fv' ss'
Step-IsTracked {fv} {ss = ss} (takes few) h = takes-IsTracked fv ss few h
Step-IsTracked {fv} {ss = ss} (closes xs ys s e few) h =
    closes-IsTracked fv xs ys s (subst (λ t. length t < 2 ^ 31) e few) (subst (IsTracked fv) e h)
Step-IsTracked {fv} {ss = ss} (installs version fresh) h = installs-IsTracked fv ss version fresh h

new_family_version-IsTracked :
    (id : ℕ) (name : String) (version : Version) → IsTracked (new_family_version id name version) []
unfolding new_family_version num_of_ref open_on has lookup insert delete
new_family_version-IsTracked id name version = record {
  counted = λ v. ground arith;
  active = λ v. ground arith;
  known = (record { version = version; ref = 0 }, ground arith);
}

run-IsTracked :
    {fv : FamilyVersion} {ss : List Snapshot} {fv' : FamilyVersion} {ss' : List Snapshot}
    → IsTracked fv ss
    → Reach fv ss fv' ss'
    → IsTracked fv' ss'
run-IsTracked h here = h
run-IsTracked h (next r st) = Step-IsTracked st (run-IsTracked h r)

-- From a new family on, whatever snapshots are taken and closed and whatever versions are
-- installed: the count of each version is the number of its open snapshots, the active versions are
-- exactly those with an open snapshot and the current one, and the current one is in memory.
pub Reach-IsTracked :
    (id : ℕ) (name : String) (version : Version) {fv : FamilyVersion} {ss : List Snapshot}
    → Reach (new_family_version id name version) [] fv ss
    → IsTracked fv ss
Reach-IsTracked id name version r = run-IsTracked (new_family_version-IsTracked id name version) r
