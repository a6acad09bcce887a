-- ===== src/Kv/Family/Obsolete.antt =====
-- `deleteObsoleteFiles` deletes the tables that nothing refers to, and no others.
use lindb.Base.{
  subst, ℕ, ◌≡◌, ◌<◌, sym, ◌∙◌, true, false, Bool-cases, inl, inr, ◌⊎◌, List, [], ◌∷◌, Option, none,
  some, lookup, has, has-add_key, ℕ-Key, In, arith, add_key,
}
use lindb.Kv.Level.{FileMeta}
use lindb.Kv.Version.{get_all_files}
use lindb.Kv.FamilyVersion.{FamilyVersion, Cell, Snapshot, get_all_active_files}
use lindb.Kv.FamilyVersion.Trace.{IsTracked, open_on}
use lindb.Kv.FamilyVersion.ActiveFiles.{get_all_active_files-Lists}
use lindb.Kv.Family.{
  type_temp, type_journal, type_manifest, Family, FileDesc, FileType, type_table, type_info,
  add_live, live_files, keep, obsolete, delete_obsolete_files,
}

has-add_live-old :
    (n : ℕ) (files : List FileMeta) (live : List ℕ)
    → has n live ≡ true
    → has n (add_live files live) ≡ true
unfolding add_live
has-add_live-old n [] live h = h
has-add_live-old n (f ∷ files) live h =
    has-add_live-old n files (add_key f.file_number live)
      (ground (arith, h, has-add_key f.file_number n live))

has-add_live :
    (f : FileMeta) (files : List FileMeta) (live : List ℕ)
    → In f files
    → has f.file_number (add_live files live) ≡ true
unfolding add_live
has-add_live f [] live i = absurd i
has-add_live f (g ∷ files) live (inl e) =
    has-add_live-old f.file_number files (add_key g.file_number live)
      (ground (arith, has-add_key g.file_number f.file_number live))
has-add_live f (g ∷ files) live (inr i) = has-add_live f files (add_key g.file_number live) i

not_kept :
    (live : List ℕ) (t : FileType) (n : ℕ)
    → keep live (record { file_type = t; file_number = n }) ≡ false
    → has n live ≡ false
unfolding keep
not_kept live type_table n h = h
not_kept live type_manifest n h = cc
not_kept live type_journal n h = cc
not_kept live type_temp n h = cc
not_kept live type_info n h = cc

-- A number that is deleted is that of a table of the directory that is not live.
obsolete-In :
    (live : List ℕ) (descs : List (Option FileDesc)) (n : ℕ)
    → In n (obsolete live descs)
    → has n live ≡ false
unfolding obsolete
obsolete-In live [] n i = absurd i
obsolete-In live (none ∷ descs) n i = obsolete-In live descs n i
obsolete-In live (some desc ∷ descs) n i = elim (Bool-cases (keep live desc)) [
  | inl kept ↦ obsolete-In live descs n (subst (In n) (ground (arith, kept)) i)
  | inr gone ↦
      elim (subst (In n) {y = desc.file_number ∷ obsolete live descs} (ground (arith, gone)) i) [
        | inl e ↦
            subst (λ (k : ℕ). has k live ≡ false) (sym e)
              (not_kept live desc.file_type desc.file_number gone)
        | inr j ↦ obsolete-In live descs n j
      ]
]

-- The file is used: a version with it is the current one or has an open snapshot.
abbrev pub Used : FamilyVersion → List Snapshot → ℕ → Type 0
Used fv ss n =
    (v : ℕ) × (cell : Cell) × (file : FileMeta) × ((fv.current ≡ v) ⊎ (0 < open_on v ss))
    × (lookup v fv.versions ≡ some cell)
    × In file (get_all_files cell.version)
    × (file.file_number ≡ n)

has-live_files-Used :
    (f : Family) (ss : List Snapshot) (n : ℕ)
    → IsTracked f.family_version ss
    → Used f.family_version ss n
    → has n (live_files f) ≡ true
unfolding live_files
has-live_files-Used f ss n t (v, cell, file, used, found, i, e) =
    let (g, listed, same) =
      get_all_active_files-Lists f.family_version ss v cell file t used found i in
    subst
      (λ (k : ℕ). has k (add_live (get_all_active_files f.family_version) f.pending_outputs) ≡ true)
      (same ∙ e) (has-add_live g (get_all_active_files f.family_version) f.pending_outputs listed)

-- Let the family track its snapshots. Whatever the directory holds, `deleteObsoleteFiles` deletes no
-- file that is a pending output, and none that a version uses which is the current one or has an
-- open snapshot.
pub delete_obsolete_files-spares :
    (descs : List (Option FileDesc)) (f : Family) (ss : List Snapshot) (n : ℕ)
    → IsTracked f.family_version ss
    → (has n f.pending_outputs ≡ true) ⊎ Used f.family_version ss n
    → ¬ In n (delete_obsolete_files descs f)
unfolding delete_obsolete_files live_files
delete_obsolete_files-spares descs f ss n t (inl pending) i = ground (
  arith,
  obsolete-In (live_files f) descs n i,
  has-add_live-old n (get_all_active_files f.family_version) f.pending_outputs pending,
)
delete_obsolete_files-spares descs f ss n t (inr used) i =
    ground (arith, obsolete-In (live_files f) descs n i, has-live_files-Used f ss n t used)
