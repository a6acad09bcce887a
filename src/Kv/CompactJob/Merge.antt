-- ===== src/Kv/CompactJob/Merge.antt =====
-- `doMerge` against the values of each key.
use lindb.Base.{
  ap, false, sym, ◌∙◌, length-append, Option-cases, subst, true, ==_iff, inr, inl, Bool-cases, refl,
  ◌<◌, ◌≡◌, lookup, lookup-nil, ℕ-Key, ℕ, ◌==◌, ltb, List, [], ◌∷◌, ◌++◌, Option, none, some,
  length, arith, append_assoc, append-nil,
}
use lindb.Kv.CompactJob.{
  Env, Job, JobError, finish_output, merge_add, merge_loop, end_merge, do_merge,
}
use lindb.Kv.CompactJob.Pairs.{
  Works, Takes, kept_pair, written_pairs, merge_add-Done, finish_output-Kept,
}
use lindb.Kv.CompactJob.Runs.{Ordered, merged_value, Rising, runs, lookup-runs, runs-Rising}

-- The rest of `doMerge` behind the loop.
abbrev tail : Env → (List (List ℕ) × ℕ × Job) × Option JobError → Job × Option JobError
tail env r = elim r.1 [ some e ↦ (r.0.2, some e) | none ↦ end_merge env r.0.0 r.0.1 r.0.2 ]

-- A merge that did not fail, closed its builder and wrote the pairs.
record Merged (ps : List (ℕ × List ℕ)) (job : Job) (r : Job × Option JobError) : Type 0 where
  ok : r.1 ≡ none
  closed : r.0.builder ≡ none
  pairs : written_pairs r.0 ≡ written_pairs job ++ ps

module _ (env : Env) (merged : ℕ → List (List ℕ) → List ℕ) (w : Works env)
    (merges : (key : ℕ) (values : List (List ℕ))
      → env.merge key values ≡ some (merged key values)) where
  end_merge-Merged :
      (key : ℕ) (values : List (List ℕ)) (job : Job)
      → 0 < length values
      → Takes key job.builder
      → Merged (kept_pair key (merged key values)) job (end_merge env values key job)
  unfolding end_merge
  end_merge-Merged key values job h t =
      let (ok, added) = merge_add-Done env merged key values job w (merges key values) t in
      let job' = (merge_add env key values job).0 in
      let some_there : ltb 0 (length values) ≡ true = ground arith in
      elim (Option-cases job'.builder) [
        | inl e ↦
            subst (Merged (kept_pair key (merged key values)) job) {x = (job', none)}
              (ground (arith, ok, e)) (record { ok = refl; closed = e; pairs = added.pairs })
        | inr (b, e) ↦
            let (closes, kept) = finish_output-Kept env job' b w e in
            subst (Merged (kept_pair key (merged key values)) job) {x = finish_output env job'}
              (ground (arith, ok, e))
              (record { ok = closes; closed = kept.gone; pairs = kept.pairs ∙ added.pairs })
      ]

  rebase :
      (ps qs : List (ℕ × List ℕ)) (job job' : Job) (r : Job × Option JobError)
      → written_pairs job' ≡ written_pairs job ++ ps
      → Merged qs job' r
      → Merged (ps ++ qs) job r
  rebase ps qs job job' r h m = record {
    ok = m.ok;
    closed = m.closed;
    pairs = m.pairs ∙ ap (λ t. t ++ qs) h ∙ append_assoc (written_pairs job) ps qs;
  }

  at :
      (ps qs : List (ℕ × List ℕ)) (job : Job) (r s : Job × Option JobError)
      → qs ≡ ps
      → s ≡ r
      → Merged ps job r
      → Merged qs job s
  at ps qs job r s p q m = subst (Merged qs job) (sym q) (subst (λ t. Merged t job r) (sym p) m)

  merge_loop-Merged :
      (pairs : List (ℕ × List ℕ)) (values : List (List ℕ)) (key : ℕ) (job : Job)
      → 0 < length values
      → Ordered key pairs
      → Takes key job.builder
      → Merged
          (runs merged key values pairs)
          job
          (tail env (merge_loop env pairs values key false job))
  unfolding merge_loop runs
  merge_loop-Merged [] values key job h o t = end_merge-Merged key values job h t
  merge_loop-Merged ((k, v) ∷ pairs) values key job h o t = elim (Bool-cases (k == key)) [
    | inl same ↦
        let e : k ≡ key = (==_iff k key).0 same in
        at _ _ job (tail env (merge_loop env pairs (values ++ v ∷ []) key false job)) _
          (ground (arith, same)) (ground (arith, same, e))
          (merge_loop-Merged pairs (values ++ v ∷ []) key job
            (omega (arith, length-append values (v ∷ [])))
            (subst (λ (i : ℕ). Ordered i pairs) e o.1) t)
    | inr other ↦
        let (ok, added) = merge_add-Done env merged key values job w (merges key values) t in
        let job' = (merge_add env key values job).0 in
        let rest =
          merge_loop-Merged pairs (v ∷ []) k job' (omega arith) o.1
            (added.takes k (ground (arith, o.0))) in
        at _ _ job (tail env (merge_loop env pairs (v ∷ []) k false job')) _ (ground (arith, other))
          (ground (arith, other, ok)) (rebase _ _ job job' _ added.pairs rest)
  ]

-- Where no file operation fails and the user's merge gives a value for every key and its values,
-- `doMerge` of pairs in the order of their keys does not fail and leaves no builder open. Behind
-- what was written before, the job's files have pairs whose keys rise; each key of the input stands
-- there with the merge of all its values in their order, unless that is empty, and no other key.
pub do_merge-merged_value :
    (env : Env) (merged : ℕ → List (List ℕ) → List ℕ) (pairs : List (ℕ × List ℕ)) (job : Job)
    → Works env
    → ((key : ℕ) (values : List (List ℕ)) → env.merge key values ≡ some (merged key values))
    → Ordered 0 pairs
    → job.builder ≡ none
    → ((do_merge env pairs job).1 ≡ none)
      × ((do_merge env pairs job).0.builder ≡ none)
      × (out : List (ℕ × List ℕ)) × (written_pairs (do_merge env pairs job).0
          ≡ written_pairs job ++ out)
      × Rising 0 out
      × ((key : ℕ) → lookup key out ≡ merged_value merged key pairs)
unfolding do_merge merge_loop end_merge
do_merge-merged_value env merged [] job w m o e =
    let nothing : do_merge env [] job ≡ (job, none) = ground (arith, e) in
    (
      ap (λ r. r.1) nothing,
      ap (λ r. r.0.builder) nothing ∙ e,
      [],
      ap (λ r. written_pairs r.0) nothing ∙ sym (append-nil (written_pairs job)),
      tt,
      λ key. lookup-nil {V = List ℕ} key,
    )
do_merge-merged_value env merged ((k, v) ∷ pairs) job w m o e =
    let all =
      merge_loop-Merged env merged w m pairs (v ∷ []) k job (omega arith) o.1
        (subst (Takes k) (sym e) tt) in
    (
      all.ok,
      all.closed,
      runs merged k (v ∷ []) pairs,
      all.pairs,
      runs-Rising merged 0 k (v ∷ []) pairs (omega arith) o.1,
      λ key. lookup-runs merged key k (v ∷ []) pairs o.1 ∙ ground arith,
    )
