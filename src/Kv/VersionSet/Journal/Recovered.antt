-- ===== src/Kv/VersionSet/Journal/Recovered.antt =====
-- A new journal recovers to the version set that it is a snapshot of.
use lindb.Base.{
  ◌++◌, same_refl, Bool-cases, subst, All, ℕ, ◌<◌, ◌^◌, ◌≡◌, refl, sym, ap, ◌∙◌, false,
  Option-cases, inl, inr, List, [], ◌∷◌, none, some, Map, lookup, ◌==◌, String, ℕ-Key, String-Key,
  arith,
}
use lindb.Kv.Version.{Version}
use lindb.Kv.Version.Files.{IsVersion}
use lindb.Kv.Version.Clone.{empty_version, empty_version-IsVersion}
use lindb.Kv.EditLog.{add, apply_logs_version_set, EditLog, marshal, store_family_id}
use lindb.Kv.Log.{Counters, set_next_file_number}
use lindb.Kv.Log
use lindb.Kv.EditLog
use lindb.Kv.EditLog.Codec.{IsEditLog, unmarshal-marshal}
use lindb.Kv.VersionSet.{
  recover_record, create_store_snapshot, VersionSet, create_family_snapshot, recover_records,
}
use lindb.Kv.VersionSet.Current.{
  current_version, current_version-found, version_of-cell, current_of,
}
use lindb.Kv.VersionSet.Commit.{Advanced, apply_family_version-Advanced}
use lindb.Kv.VersionSet.Replay.{
  Same, create_family_snapshot-replay, apply_logs-num_of_levels, apply_logs-IsVersion,
}
use lindb.Kv.VersionSet.Durable.{recover_records-append, recover_record_family}
use lindb.Kv.VersionSet.Journal.{create_snapshot, family_snapshots}
use lindb.Kv.VersionSet.Journal.Safe.{records_of}

-- The name is that of none of the families.
abbrev pub Other : String → Map ℕ String → Type 0
Other name [] = Unit {0}
Other name ((id, n) ∷ ids) = (String-Key.same name n ≡ false) × Other name ids

-- Each of the families, with a name and an id of its own, has a well formed current version in `vs`
-- and one without files in `start`.
pub record Starts (vs start : VersionSet) (id : ℕ) (name : String) : Type 0 where
  pub version : Version
  pub empty_id : ℕ
  pub current : current_version name vs ≡ some version
  pub valid : IsVersion version
  pub small : version.num_of_levels < 2 ^ 31
  pub known : lookup id start.family_ids ≡ some name
  pub empty : current_version name start ≡ some (empty_version empty_id version.num_of_levels)
  pub not_store : (id == store_family_id) ≡ false

abbrev pub Start : VersionSet → VersionSet → Map ℕ String → Type 0
Start vs start [] = Unit {0}
Start vs start ((id, name) ∷ ids) = Starts vs start id name × Other name ids × Start vs start ids

-- The families' current versions have the same files in both.
abbrev pub Restored : VersionSet → VersionSet → Map ℕ String → Type 0
Restored vs rec [] = Unit {0}
Restored vs rec ((id, name) ∷ ids) =
    ((v : Version) × (w : Version) × (current_version name vs ≡ some v)
      × (current_version name rec ≡ some w)
      × Same w v)
    × Restored vs rec ids

-- What was built for a family stays when the others are recovered.
Start-kept :
    (vs start rec : VersionSet) (family : String) (w : Version) (ids : Map ℕ String)
    → Advanced family start rec w
    → Other family ids
    → Start vs start ids
    → Start vs rec ids
Start-kept vs start rec family w [] a o s = tt
Start-kept vs start rec family w ((id, name) ∷ ids) a o s = (
  record {
    version = s.0.version;
    empty_id = s.0.empty_id;
    current = s.0.current;
    valid = s.0.valid;
    small = s.0.small;
    known = ap (lookup id) a.ids ∙ s.0.known;
    empty = a.there name o.0 ∙ s.0.empty;
    not_store = s.0.not_store;
  },
  s.1,
  Start-kept vs start rec family w ids a o.1 s.2,
)

snapshot-head :
    (id : ℕ) (name : String) (ids : Map ℕ String) (vs : VersionSet) (v : Version)
    (els : List EditLog)
    → current_version name vs ≡ some v
    → family_snapshots ((id, name) ∷ ids) vs ≡ some els
    → (rest : List EditLog) × (family_snapshots ids vs ≡ some rest)
      × (els ≡ create_family_snapshot id v ∷ rest)
unfolding family_snapshots current_of
snapshot-head id name ids vs v els cur h =
    let (fv, found, here) = current_version-found name vs v cur in
    let (cell, held, same) = version_of-cell fv.current fv v here in
    elim (Option-cases (family_snapshots ids vs)) [
      | inl bad ↦ absurd (ground (arith, h, found, held, bad))
      | inr (rest, good) ↦ (rest, good, ground (arith, h, found, held, good, same))
    ]

other_sym : (a b : String) → String-Key.same a b ≡ false → String-Key.same b a ≡ false
other_sym a b h = elim (Bool-cases (String-Key.same b a)) [
  | inr apart ↦ apart
  | inl same ↦
      let e : b ≡ a = (String-Key.same_iff b a).0 same in
      absurd (ground (arith, h, same_refl b, ap (λ (x : String). String-Key.same x b) e))
]

-- What the recovery of the families' edit logs builds.
record Built (vs start : VersionSet) (ids : Map ℕ String) (els : List EditLog) : Type 0 where
  rec : VersionSet
  run : recover_records (records_of els) start ≡ (rec, none)
  restored : Restored vs rec ids
  others : (name : String) → Other name ids → current_version name rec ≡ current_version name start

recover_records-Built :
    (vs start : VersionSet) (ids : Map ℕ String) (els : List EditLog)
    → Start vs start ids
    → family_snapshots ids vs ≡ some els
    → All IsEditLog els
    → Built vs start ids els
unfolding family_snapshots recover_records create_family_snapshot
recover_records-Built vs start [] els s h fits = record {
  rec = start;
  run =
      subst (λ ls. recover_records (records_of ls) start ≡ (start, none)) {x = []} {y = els}
        (ground (arith, h)) refl;
  restored = tt;
  others = λ name o. refl;
}
recover_records-Built vs start ((id, name) ∷ ids) els (s, o, more) h fits =
    let el = create_family_snapshot id s.version in
    let (rest, tail, whole) = snapshot-head id name ids vs s.version els s.current h in
    let all : All IsEditLog (el ∷ rest) = subst (All IsEditLog) whole fits in
    let (start', did, adv, count) = apply_family_version-Advanced name el start _ s.known s.empty in
    let one =
      recover_record_family (marshal el).0 el start start' (unmarshal-marshal el all.0).0
        s.not_store did in
    let b =
      recover_records-Built vs start' ids rest (Start-kept vs start start' name _ ids adv o more)
        tail all.1 in
    record {
      rec = b.rec;
      run =
          subst (λ ls. recover_records (records_of ls) start ≡ (b.rec, none)) (sym whole)
            (ground (arith, one, b.run));
      restored = (
        (
          s.version,
          _,
          s.current,
          b.others name o ∙ adv.here,
          record {
            left = apply_logs-IsVersion el.logs _ (
                empty_version-IsVersion s.empty_id s.version.num_of_levels s.valid.positive
                  s.valid.small);
            right = s.valid;
            as_many = apply_logs-num_of_levels el.logs _;
            files =
                λ i n. create_family_snapshot-replay s.version id s.empty_id i n s.valid s.small;
          },
        ),
        b.restored,
      );
      others = λ other no. b.others other no.1 ∙ adv.there other (other_sym other name no.0);
    }

records_of-append : (a b : List EditLog) → records_of (a ++ b) ≡ records_of a ++ records_of b
records_of-append [] b = refl
records_of-append (el ∷ a) b = ap (λ t. (marshal el).0 ∷ t) (records_of-append a b)

All-last :
    (a : List EditLog) (el : EditLog)
    → All IsEditLog (a ++ el ∷ [])
    → All IsEditLog a × IsEditLog el
All-last [] el h = (tt, h.0)
All-last (x ∷ a) el h = let (b, c) = All-last a el h.1 in ((h.0, b), c)

-- The counters have no part in it.
Restored-counters :
    (vs rec : VersionSet) (c : Counters) (ids : Map ℕ String)
    → Restored vs rec ids
    → Restored vs (record rec { counters = c }) ids
unfolding current_version
Restored-counters vs rec c [] r = tt
Restored-counters vs rec c ((id, name) ∷ ids) r = (r.0, Restored-counters vs rec c ids r.1)

recover_store_record :
    (c : Counters) (rec : VersionSet)
    → IsEditLog (create_store_snapshot c)
    → recover_records ((marshal (create_store_snapshot c)).0 ∷ []) rec
      ≡ (record rec { counters = set_next_file_number c.next_file_number rec.counters }, none)
unfolding recover_records recover_record create_store_snapshot add EditLog.apply_version_set
    apply_logs_version_set Log.apply_version_set
recover_store_record c rec fits =
    ground (arith, (unmarshal-marshal (create_store_snapshot c) fits).0)

-- Let every family of a version set, under a name and an id of its own, have a well formed current
-- version, and let `start` have the same families, each without files, as they are when a store is
-- opened. The records of a snapshot, whose fields fit their types, recover without a failure: every
-- family then has a current version with the same files, and the manifest number is the next file
-- number of the version set.
pub create_snapshot-recover_records :
    (vs start : VersionSet) (els : List EditLog)
    → Start vs start vs.family_ids
    → create_snapshot vs ≡ some els
    → All IsEditLog els
    → (rec : VersionSet) × (recover_records (records_of els) start ≡ (rec, none))
      × Restored vs rec vs.family_ids
      × (rec.counters.manifest_file_number ≡ vs.counters.next_file_number)
unfolding create_snapshot set_next_file_number
create_snapshot-recover_records vs start els s h fits =
    elim (Option-cases (family_snapshots vs.family_ids vs)) [
      | inl bad ↦ absurd (ground (arith, h, bad))
      | inr (fam, good) ↦
          let last = create_store_snapshot vs.counters in
          let whole : els ≡ fam ++ last ∷ [] = ground (arith, h, good) in
          let (fam_fit, last_fit) = All-last fam last (subst (All IsEditLog) whole fits) in
          let b = recover_records-Built vs start vs.family_ids fam s good fam_fit in
          let c = set_next_file_number vs.counters.next_file_number b.rec.counters in
          (
            record (b.rec) { counters = c },
            ap (λ ls. recover_records (records_of ls) start) whole
                ∙ ap (λ rs. recover_records rs start) (records_of-append fam (last ∷ []))
                ∙ recover_records-append (records_of fam) _ start b.rec b.run
                ∙ recover_store_record vs.counters b.rec last_fit,
            Restored-counters vs b.rec c vs.family_ids b.restored,
            refl,
          )
    ]
