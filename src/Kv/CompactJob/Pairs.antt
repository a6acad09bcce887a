-- ===== src/Kv/CompactJob/Pairs.antt =====
-- The pairs that a job writes for one key, where nothing fails.
use lindb.Base.{
  subst, ◌-◌, ◌%◌, ◌^◌, Option-cases, ℕ, ◌+◌, ◌<◌, ◌≡◌, refl, sym, ap, ◌∙◌, true, Bool-cases, ◌⊎◌,
  inl, inr, if◌then◌else◌, ◌==◌, List, [], ◌∷◌, ◌++◌, Option, none, some, length, arith,
  append_assoc, append-nil,
}
use lindb.Base.Words.{to_word32, next64}
use lindb.Kv.Table.{Builder, new_store_builder, add, count}
use lindb.Kv.CompactJob.{
  lt32, Env, Job, JobError, open_output, finish_output, add_to, add_pair, merge_add,
}

-- No file operation fails.
pub record Works (env : Env) : Type 0 where
  pub creates : (n : ℕ) → env.creates n ≡ true
  pub writes : (n offset : ℕ) → env.writes n offset ≡ true
  pub closes : (n : ℕ) → env.closes n ≡ true

-- The pairs in the files of the job, in the order in which they were written.
unfoldable pub closed_pairs : List Builder → List (ℕ × List ℕ)
closed_pairs [] = []
closed_pairs (b ∷ bs) = b.pairs ++ closed_pairs bs

abbrev pub open_pairs : Option Builder → List (ℕ × List ℕ)
open_pairs none = []
open_pairs (some b) = b.pairs

unfoldable pub written_pairs : Job → List (ℕ × List ℕ)
written_pairs job = closed_pairs job.closed ++ open_pairs job.builder

-- The open builder takes the key, and so every key above it.
abbrev pub Takes : ℕ → Option Builder → Type 0
Takes key none = Unit {0}
Takes key (some b) = (b.first ≡ true) ⊎ (b.max_key < key)

closed_pairs-append :
    (bs : List Builder) (b : Builder) → closed_pairs (bs ++ b ∷ []) ≡ closed_pairs bs ++ b.pairs
unfolding closed_pairs
closed_pairs-append [] b = append-nil b.pairs
closed_pairs-append (c ∷ bs) b =
    ap (λ t. c.pairs ++ t) (closed_pairs-append bs b)
    ∙ sym (append_assoc c.pairs (closed_pairs bs) b.pairs)

no_pairs : (b : Builder) → (count b == 0) ≡ true → b.pairs ≡ []
unfolding count
no_pairs b h = empty b.pairs h
  where
    empty : (ps : List (ℕ × List ℕ)) → (length ps == 0) ≡ true → ps ≡ []
    empty [] h = refl
    empty (p ∷ ps) h = absurd (ground (arith, h))

-- Closing a builder keeps the pairs.
pub record Kept (job job' : Job) : Type 0 where
  pub pairs : written_pairs job' ≡ written_pairs job
  pub gone : job'.builder ≡ none

pub finish_output-Kept :
    (env : Env) (job : Job) (b : Builder)
    → Works env
    → job.builder ≡ some b
    → ((finish_output env job).1 ≡ none) × Kept job (finish_output env job).0
unfolding finish_output written_pairs
finish_output-Kept env job b w e = elim (Bool-cases (count b == 0)) [
  | inl none_there ↦
      rw (e, none_there, finish_output)
        (
          refl,
          record {
            pairs = ap (λ t. closed_pairs job.closed ++ t) (sym (no_pairs b none_there));
            gone = refl;
          },
        )
  | inr some_there ↦
      rw (e, some_there, w.closes b.file_number, finish_output)
        (
          refl,
          record {
            pairs =
                append-nil (closed_pairs (job.closed ++ b ∷ [])) ∙ closed_pairs-append job.closed b;
            gone = refl;
          },
        )
]

-- What a successful addition of a pair leaves: the pair comes last, and every key above it is taken.
pub record Added (key : ℕ) (ps : List (ℕ × List ℕ)) (job job' : Job) : Type 0 where
  pub pairs : written_pairs job' ≡ written_pairs job ++ ps
  pub takes : (k : ℕ) → key < k → Takes k job'.builder

add-taken :
    (key : ℕ) (value : List ℕ) (b : Builder)
    → Takes key (some b)
    → ((add true key value b).1 ≡ true)
      × ((add true key value b).0.pairs ≡ b.pairs ++ (key, value) ∷ [])
      × ((add true key value b).0.max_key ≡ key)
unfolding add
add-taken key value b (inl fresh) = ground (arith, fresh)
add-taken key value b (inr above) = ground (arith, above)

with_pair :
    (key : ℕ) (value : List ℕ) (b b' : Builder) (job : Job)
    → job.builder ≡ some b
    → b'.pairs ≡ b.pairs ++ (key, value) ∷ []
    → written_pairs (record job { builder = some b' }) ≡ written_pairs job ++ (key, value) ∷ []
unfolding written_pairs
with_pair key value b b' job e h =
    ap (λ t. closed_pairs job.closed ++ t) h
    ∙ sym (append_assoc (closed_pairs job.closed) b.pairs ((key, value) ∷ []))
    ∙ ap (λ o. (closed_pairs job.closed ++ open_pairs o) ++ (key, value) ∷ []) (sym e)

add_to-Added :
    (env : Env) (key : ℕ) (value : List ℕ) (b : Builder) (job : Job)
    → Works env
    → job.builder ≡ some b
    → Takes key (some b)
    → ((add_to env key value b job).1 ≡ none)
      × Added key ((key, value) ∷ []) job (add_to env key value b job).0
unfolding add_to
add_to-Added env key value b job w e t =
    let b' = (add true key value b).0 in
    let (ok, pairs, last) = add-taken key value b t in
    let job' = record job { builder = some b' } in
    let (closes, kept) = finish_output-Kept env job' b' w refl in
    let all = with_pair key value b b' job e pairs in
    rw (w.writes b.file_number b.size, add_to)
      (rw (ok, add_to)
        (elim (Bool-cases (lt32 (to_word32 b'.size) job.max_file_size)) [
          | inl small ↦
              rw (small, add_to)
                (refl, record { pairs = all; takes = λ k lt. inr (omega (arith, last)) })
          | inr large ↦
              rw (large, add_to)
                (
                  closes,
                  record {
                    pairs = kept.pairs ∙ all;
                    takes = λ k lt. subst (Takes k) (sym kept.gone) tt;
                  },
                )
        ]))

-- A pair is written unless its value is empty.
abbrev pub kept_pair : ℕ → List ℕ → List (ℕ × List ℕ)
kept_pair key value = if length value == 0 then [] else (key, value) ∷ []

Takes-above : (o : Option Builder) (key k : ℕ) → Takes key o → key < k → Takes k o
Takes-above none key k t lt = tt
Takes-above (some b) key k (inl fresh) lt = inl fresh
Takes-above (some b) key k (inr above) lt = inr (omega arith)

open_output-opens :
    (env : Env) (job : Job)
    → Works env
    → job.builder ≡ none
    → (n : ℕ) × ((open_output env job).1 ≡ none)
      × ((open_output env job).0.builder ≡ some (new_store_builder n))
      × (written_pairs (open_output env job).0 ≡ written_pairs job)
unfolding open_output written_pairs new_store_builder
open_output-opens env job w e =
    let n = (next64 job.next_file_number + 2 ^ 64 - 1) % 2 ^ 64 in
    (
      n,
      rw (w.creates n) refl,
      rw (w.creates n) refl,
      rw (w.creates n) (ap (λ o. closed_pairs job.closed ++ open_pairs o) (sym e)),
    )

Added-from :
    {key : ℕ} {ps : List (ℕ × List ℕ)} {job job' job'' : Job}
    → written_pairs job' ≡ written_pairs job
    → Added key ps job' job''
    → Added key ps job job''
Added-from {ps = ps} e a = record { pairs = a.pairs ∙ ap (λ t. t ++ ps) e; takes = a.takes }

-- The step did not fail and added the pairs.
abbrev pub Done : ℕ → List (ℕ × List ℕ) → Job → Job × Option JobError → Type 0
Done key ps job r = (r.1 ≡ none) × Added key ps job r.0

retarget :
    {key : ℕ} {ps qs : List (ℕ × List ℕ)} {job : Job} {r s : Job × Option JobError}
    → qs ≡ ps
    → s ≡ r
    → Done key ps job r
    → Done key qs job s
retarget {key} {job = job} {r = r} p q d =
    subst (Done key _ job) (sym q) (subst (λ t. Done key t job r) (sym p) d)

pub add_pair-Done :
    (env : Env) (key : ℕ) (value : List ℕ) (job : Job)
    → Works env
    → Takes key job.builder
    → Done key (kept_pair key value) job (add_pair env key value job)
unfolding add_pair new_store_builder
add_pair-Done env key value job w t = elim (Bool-cases (length value == 0)) [
  | inl none_there ↦
      retarget {r = (job, none)} (ground (arith, none_there)) (ground (arith, none_there)) (
        refl,
        record {
          pairs = sym (append-nil (written_pairs job));
          takes = λ k lt. Takes-above job.builder key k t lt;
        },
      )
  | inr some_there ↦ elim (Option-cases job.builder) [
    | inr (b, e) ↦
        retarget (ground (arith, some_there)) (ground (arith, some_there, e))
          (add_to-Added env key value b job w e (subst (Takes key) e t))
    | inl e ↦
        let (n, ok, opened, same) = open_output-opens env job w e in
        let job' = (open_output env job).0 in
        let (done, added) =
          add_to-Added env key value (new_store_builder n) job' w opened (inl refl) in
        retarget (ground (arith, some_there)) (ground (arith, some_there, e, ok, opened))
          (done, Added-from same added)
  ]
]

-- A merge that gives a value for every key and its values.
pub merge_add-Done :
    (env : Env) (merged : ℕ → List (List ℕ) → List ℕ) (key : ℕ) (values : List (List ℕ)) (job : Job)
    → Works env
    → env.merge key values ≡ some (merged key values)
    → Takes key job.builder
    → Done key (kept_pair key (merged key values)) job (merge_add env key values job)
unfolding merge_add
merge_add-Done env merged key values job w m t =
    rw (m, merge_add) (add_pair-Done env key (merged key values) job w t)
