-- ===== src/Kv/VersionSet/Durable.antt =====
-- `CommitFamilyEditLog` and `recover` against each other: what a commit puts in memory is what a
-- recovery of the manifest builds.
use lindb.Kv.Version.Files.{IsVersion}
use lindb.Base.{
  Option-cases, subst, ℕ, ◌≡◌, refl, ap, ◌∙◌, sym, Bool-cases, inl, inr, true, false, List, [], ◌∷◌,
  ◌++◌, Option, none, some, ◌==◌, arith, String, String-Key, ℕ-Key, lookup,
}
use lindb.Kv.Version.{Version}
use lindb.Kv.Log.{delete_file_log, new_file, Log, Counters, next_file_number, set_next_file_number}
use lindb.Kv.Log
use lindb.Kv.EditLog.{
  apply_logs, EditLog, apply_logs_version_set, add, store_family_id, marshal, unmarshal,
}
use lindb.Kv.EditLog.Codec.{IsEditLog, unmarshal-marshal}
use lindb.Kv.VersionSet.{
  persist_edit_log, get_family_version, FamilyVersion, recover_record, VersionSet, written, install,
  new_version_id, commit_family_edit_log, recover_records, apply_family_version,
}
use lindb.Kv.VersionSet.Current.{current_version-found, current_version}
use lindb.Kv.VersionSet.Commit.{apply_family_version-Advanced, install-Advanced, Advanced}
use lindb.Kv.VersionSet.Replay.{apply_logs-num_of_levels, apply_logs-Same, Same}

-- The counters that a recovery restores.
abbrev pub SameNumbers : Counters → Counters → Type 0
SameNumbers c d =
    (c.manifest_file_number ≡ d.manifest_file_number) × (c.next_file_number ≡ d.next_file_number)

-- The edit log that a commit writes: the caller's with the next file number.
abbrev pub logged : EditLog → VersionSet → EditLog
logged edit_log vs = add (next_file_number vs.counters.next_file_number) edit_log

apply_version_set-SameNumbers :
    (logs : List Log) (c d : Counters)
    → SameNumbers c d
    → SameNumbers (apply_logs_version_set logs c) (apply_logs_version_set logs d)
unfolding apply_logs_version_set Log.apply_version_set set_next_file_number
apply_version_set-SameNumbers [] c d h = h
apply_version_set-SameNumbers (new_file i f ∷ logs) c d h = apply_version_set-SameNumbers logs c d h
apply_version_set-SameNumbers (delete_file_log i n ∷ logs) c d h =
    apply_version_set-SameNumbers logs c d h
apply_version_set-SameNumbers (next_file_number n ∷ logs) c d h =
    apply_version_set-SameNumbers logs (set_next_file_number n c) (set_next_file_number n d)
      (refl, refl)

new_version_id-SameNumbers : (c d : Counters) → SameNumbers c d → SameNumbers (new_version_id c).0 d
unfolding new_version_id
new_version_id-SameNumbers c d h = h

SameNumbers-counts : {a b c d : Counters} → a ≡ c → b ≡ d → SameNumbers c d → SameNumbers a b
SameNumbers-counts p q h = (
  ap (λ k. k.manifest_file_number) p ∙ h.0 ∙ sym (ap (λ k. k.manifest_file_number) q),
  ap (λ k. k.next_file_number) p ∙ h.1 ∙ sym (ap (λ k. k.next_file_number) q),
)

-- Both have the family's current version, with the same files, or neither has.
abbrev pub SameVersion : Option Version → Option Version → Type 0
SameVersion none none = Unit {0}
SameVersion (some v) (some w) = Same v w
SameVersion o p = ⊥

-- Two version sets of one store that hold the same files: the one in memory and the recovered one.
pub record Agrees (vs rec : VersionSet) : Type 0 where
  pub ids : vs.family_ids ≡ rec.family_ids
  pub as_many :
      (name : String) (v : Version)
      → current_version name vs ≡ some v
      → v.num_of_levels ≡ vs.num_of_levels
  pub versions : (name : String) → SameVersion (current_version name vs) (current_version name rec)
  pub numbers : SameNumbers vs.counters rec.counters

-- A version set whose current versions are well formed agrees with itself.
pub Agrees-refl :
    (vs : VersionSet)
    → ((name : String) (v : Version)
        → current_version name vs ≡ some v
        → IsVersion v × (v.num_of_levels ≡ vs.num_of_levels))
    → Agrees vs vs
Agrees-refl vs h = record {
  ids = refl;
  as_many = λ name v e. (h name v e).1;
  versions = λ name. elim (Option-cases (current_version name vs)) [
    | inl e ↦ rw e tt
    | inr (v, e) ↦ rw e (record {
      left = (h name v e).0;
      right = (h name v e).0;
      as_many = refl;
      files = λ i n. refl;
    })
  ];
  numbers = (refl, refl);
}

Same-trans : (u v w : Version) → Same u v → Same v w → Same u w
Same-trans u v w s t = record {
  left = s.left;
  right = t.right;
  as_many = s.as_many ∙ t.as_many;
  files = λ i n. s.files i n ∙ t.files i n;
}

-- A family that the one has, the other has too.
SameVersion-found :
    (o p : Option Version) (v : Version)
    → SameVersion o p
    → o ≡ some v
    → (w : Version) × (p ≡ some w) × Same v w
SameVersion-found none p v s e = cc
SameVersion-found (some u) none v s e = absurd s
SameVersion-found (some u) (some w) v s e =
    (w, refl, subst (λ u. Same u w) {x = u} {y = v} (ground arith) s)

-- The records of the manifest are recovered one after the other.
pub recover_records-append :
    (xs ys : List (List ℕ)) (start rec : VersionSet)
    → recover_records xs start ≡ (rec, none)
    → recover_records (xs ++ ys) start ≡ recover_records ys rec
unfolding recover_records
recover_records-append [] ys start rec h = ap (λ t. recover_records ys t.0) h
recover_records-append (x ∷ xs) ys start rec h =
    let next = (recover_record x start).0 in
    elim (Option-cases (recover_record x start).1) [
      | inl e ↦
          rw (e, recover_records)
            (recover_records-append xs ys next rec (rw (e, recover_records) at h))
      | inr (f, e) ↦ absurd (ground (arith, e))
    ]

pub recover_record_family :
    (bytes : List ℕ) (el : EditLog) (rec rec' : VersionSet)
    → unmarshal bytes ≡ (el, none)
    → (el.family_id == store_family_id) ≡ false
    → apply_family_version el.family_id el rec ≡ (rec', none)
    → recover_record bytes rec ≡ (rec', none)
unfolding recover_record
recover_record_family bytes el rec rec' read family h = ground (arith, read, family, h)

-- A record that `marshal` wrote, of a family's edit log, does what the edit log does.
recover_one :
    (el : EditLog) (rec rec' : VersionSet)
    → IsEditLog el
    → (el.family_id == store_family_id) ≡ false
    → apply_family_version el.family_id el rec ≡ (rec', none)
    → recover_records ((marshal el).0 ∷ []) rec ≡ (rec', none)
unfolding recover_records
recover_one el rec rec' fits family h =
    ground (
      arith,
      recover_record_family (marshal el).0 el rec rec' (unmarshal-marshal el fits).0 family h,
    )

-- What a commit whose record is written answers.
pub commit_written :
    (family : String) (fv : FamilyVersion) (edit_log : EditLog) (vs vs' : VersionSet)
    (records : List (List ℕ))
    → lookup family vs.family_versions ≡ some fv
    → (marshal (logged edit_log vs)).1 ≡ none
    → install family fv (logged edit_log vs) vs ≡ some vs'
    → commit_family_edit_log written family edit_log vs records
      ≡ some (vs', records ++ (marshal (logged edit_log vs)).0 ∷ [], logged edit_log vs, none)
unfolding commit_family_edit_log persist_edit_log get_family_version
commit_written family fv edit_log vs vs' records found ok run = ground (arith, found, ok, run)

renamed :
    (family name : String) (vs : VersionSet) (v : Version)
    → current_version family vs ≡ some v
    → String-Key.same family name ≡ true
    → current_version name vs ≡ some v
renamed family name vs v h same =
    subst (λ n. current_version n vs ≡ some v) ((String-Key.same_iff family name).0 same) h

-- Steps that apply logs to versions with the same files leave versions with the same files.
Advanced-Agrees :
    (family : String) (vs rec vs' rec' : VersionSet) (v w : Version)
    → Agrees vs rec
    → Advanced family vs vs' v
    → Advanced family rec rec' w
    → Same v w
    → v.num_of_levels ≡ vs.num_of_levels
    → SameNumbers vs'.counters rec'.counters
    → Agrees vs' rec'
Advanced-Agrees family vs rec vs' rec' v w h a b s many n = record {
  ids = a.ids ∙ h.ids ∙ sym b.ids;
  as_many = λ name u e. elim (Bool-cases (String-Key.same family name)) [
    | inl here ↦ ground (arith, renamed family name vs' v a.here here, many, a.levels)
    | inr there ↦ h.as_many name u (sym (a.there name there) ∙ e) ∙ sym a.levels
  ];
  versions = λ name. elim (Bool-cases (String-Key.same family name)) [
    | inl here ↦
        rw (renamed family name vs' v a.here here, renamed family name rec' w b.here here) s
    | inr there ↦ rw (a.there name there, b.there name there) (h.versions name)
  ];
  numbers = n;
}

-- Let the records of a manifest recover to a version set that agrees with the one in memory: the
-- same families, files and counters. A commit of an edit log whose fields fit their types, to a
-- family that exists, and whose record is written, succeeds; and the records with the new one
-- recover, without a failure, to a version set that agrees with the one in memory after it.
pub commit_family_edit_log-recover_records :
    (family : String) (edit_log : EditLog) (vs rec start : VersionSet) (records : List (List ℕ))
    (v : Version)
    → Agrees vs rec
    → recover_records records start ≡ (rec, none)
    → current_version family vs ≡ some v
    → lookup edit_log.family_id vs.family_ids ≡ some family
    → (edit_log.family_id == store_family_id) ≡ false
    → IsEditLog (logged edit_log vs)
    → (vs' : VersionSet) × (rec' : VersionSet) × (records' : List (List ℕ))
      × (commit_family_edit_log written family edit_log vs records
          ≡ some (vs', records', logged edit_log vs, none))
      × (recover_records records' start ≡ (rec', none))
      × Agrees vs' rec'
unfolding add
commit_family_edit_log-recover_records family edit_log vs rec start records v agree run cur known
      other fits =
    let el = logged edit_log vs in
    let (fv, found, cur') = current_version-found family vs v cur in
    let (w, there, same) =
      SameVersion-found (current_version family vs) (current_version family rec) v
        (agree.versions family) cur in
    let many = agree.as_many family v cur in
    let (vs', u, did, ahead, copied, count) =
      install-Advanced family fv el vs v cur' same.left many in
    let (rec', redid, ahead', count') =
      apply_family_version-Advanced family el rec w
        (ap (lookup edit_log.family_id) (sym agree.ids) ∙ known) there in
    let agree' =
      Advanced-Agrees family vs rec vs' rec' (apply_logs el.logs u) (apply_logs el.logs w) agree
        ahead ahead' (apply_logs-Same el.logs u w (Same-trans u v w copied same))
        (apply_logs-num_of_levels el.logs u ∙ copied.as_many ∙ many)
        (SameNumbers-counts count count' (
          apply_version_set-SameNumbers el.logs _ _
            (new_version_id-SameNumbers vs.counters rec.counters agree.numbers))) in
    (
      vs',
      rec',
      records ++ (marshal el).0 ∷ [],
      commit_written family fv edit_log vs vs' records found (unmarshal-marshal el fits).1 did,
      recover_records-append records _ start rec run ∙ recover_one el rec rec' fits other redid,
      agree',
    )
