-- ===== src/Kv/FamilyVersion/ActiveFiles.antt =====
-- `GetAllActiveFiles`, by which a family decides which files it may delete.
use lindb.Base.{
  subst, Option-cases, ℕ, ◌<◌, ◌≡◌, refl, true, List, [], ◌∷◌, ◌++◌, some, lookup, ◌==◌, has,
  add_key, has-add_key, ℕ-Key, arith, In, In-append_left, In-append_right, inl, inr, Bool-cases,
  ◌⊎◌,
}
use lindb.Kv.Level.{FileMeta}
use lindb.Kv.Version.{get_all_files}
use lindb.Kv.FamilyVersion.{
  Cell, FamilyVersion, Snapshot, add_unseen, active_files, get_all_active_files,
}
use lindb.Kv.FamilyVersion.Trace.{IsTracked, open_on}

-- A listed file has the number.
abbrev pub Lists : List FileMeta → ℕ → Type 0
Lists files n = (g : FileMeta) × In g files × (g.file_number ≡ n)

-- The numbers met so far are those of listed files.
abbrev Listed : List FileMeta → List ℕ → Type 0
Listed files seen = (n : ℕ) → has n seen ≡ true → Lists files n

Lists-append : (files more : List FileMeta) (n : ℕ) → Lists files n → Lists (files ++ more) n
Lists-append files more n (g, i, e) = (g, In-append_left g files more i, e)

Listed-add :
    (file : FileMeta) (files : List FileMeta) (seen : List ℕ)
    → Listed files seen
    → Listed (files ++ file ∷ []) (add_key file.file_number seen)
Listed-add file files seen h n e = elim (Bool-cases (file.file_number == n)) [
  | inl same ↦ (file, In-append_right file files (file ∷ []) (inl refl), ground arith)
  | inr other ↦
      Lists-append files (file ∷ []) n (h n (ground (arith, has-add_key file.file_number n seen)))
]

-- After the inner loop every number that was met is, and so is that of each of its files.
record Grown (rest : List FileMeta) (seen : List ℕ) (files : List FileMeta) (seen' : List ℕ)
    : Type 0 where
  listed : Listed files seen'
  kept : (n : ℕ) → has n seen ≡ true → has n seen' ≡ true
  met : (f : FileMeta) → In f rest → has f.file_number seen' ≡ true

add_unseen-Grown :
    (rest : List FileMeta) (seen : List ℕ) (files : List FileMeta)
    → Listed files seen
    → Grown rest seen (add_unseen rest seen files).0 (add_unseen rest seen files).1
unfolding add_unseen
add_unseen-Grown [] seen files h = record { listed = h; kept = λ n e. e; met = λ f i. absurd i }
add_unseen-Grown (file ∷ rest) seen files h = elim (Bool-cases (has file.file_number seen)) [
  | inl old ↦
      rw (old, add_unseen)
        (let g = add_unseen-Grown rest seen files h in
          record {
            listed = g.listed;
            kept = g.kept;
            met = λ f i. elim i [
              | inl e ↦ rw e (g.kept file.file_number old)
              | inr later ↦ g.met f later
            ];
          })
  | inr new ↦
      rw (new, add_unseen)
        (let g =
            add_unseen-Grown rest (add_key file.file_number seen) (files ++ file ∷ [])
              (Listed-add file files seen h) in
          record {
            listed = g.listed;
            kept = λ n e. g.kept n (ground (arith, has-add_key file.file_number n seen));
            met = λ f i. elim i [
              | inl e ↦ rw e (
                  g.kept file.file_number
                    (ground (arith, has-add_key file.file_number file.file_number seen)))
              | inr later ↦ g.met f later
            ];
          })
]

active_files-Lists :
    (vs : List ℕ) (fv : FamilyVersion) (seen : List ℕ) (files : List FileMeta)
    → Listed files seen
    → (v : ℕ) (cell : Cell) (f : FileMeta)
    → (has f.file_number seen ≡ true)
      ⊎ ((has v vs ≡ true) × (lookup v fv.versions ≡ some cell) × In f (get_all_files cell.version))
    → Lists (active_files vs fv seen files) f.file_number
unfolding active_files has
active_files-Lists [] fv seen files h v cell f (inl e) = h f.file_number e
active_files-Lists [] fv seen files h v cell f (inr e) = cc
active_files-Lists (u ∷ vs) fv seen files h v cell f goal =
    elim (Option-cases (lookup u fv.versions)) [
      | inl e ↦
          rw (e, active_files)
            (active_files-Lists vs fv seen files h v cell f
              (elim goal [ inl old ↦ inl old | inr (a, l, i) ↦ inr (ground arith, l, i) ]))
      | inr (c, e) ↦
          let g = add_unseen-Grown (get_all_files c.version) seen files h in
          rw (e, active_files)
            (active_files-Lists vs fv _ _ g.listed v cell f (elim goal [
              | inl old ↦ inl (g.kept f.file_number old)
              | inr (a, l, i) ↦ elim (Bool-cases (u == v)) [
                | inl same ↦ inl (
                    g.met f (
                      subst (λ (k : Cell). In f (get_all_files k.version)) {x = cell} {y = c}
                        (ground arith) i))
                | inr other ↦ inr (ground arith, l, i)
              ]
            ]))
    ]

-- Whenever the family tracks its snapshots, `GetAllActiveFiles` lists the number of every file of
-- the current version and of every version that has an open snapshot, so the clean-up that spares
-- the listed numbers deletes no file that a snapshot can still read.
pub get_all_active_files-Lists :
    (fv : FamilyVersion) (ss : List Snapshot) (v : ℕ) (cell : Cell) (f : FileMeta)
    → IsTracked fv ss
    → (fv.current ≡ v) ⊎ (0 < open_on v ss)
    → lookup v fv.versions ≡ some cell
    → In f (get_all_files cell.version)
    → Lists (get_all_active_files fv) f.file_number
unfolding get_all_active_files
get_all_active_files-Lists fv ss v cell f h used l i =
    active_files-Lists fv.active_versions fv [] [] (λ n e. unfold has in cc) v cell f
      (inr (ground (arith, h.active v, h.counted v), l, i))
