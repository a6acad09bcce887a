-- ===== src/Coordinator/ShardAssign/Replicas.antt =====
-- The replicas that `ShardAssignment` gives each shard.
use lindb.Base.{
  subst, ℕ, zero, suc, ◌<◌, ◌≡◌, refl, sym, ap, ◌∙◌, List, [], ◌∷◌, ◌++◌, none, some, Option-cases,
  lookup, lookup-insert, get_elem?, length, In, inl, inr, arith, ◌==◌, if◌then◌else◌, ℕ-Key,
}
use lindb.Coordinator.ShardAssign.{Shards, add_replica}
use lindb.Coordinator.ShardAssign.Indices.{Distinct}

-- The nodes at the indices.
abbrev pub nodes_at : List ℕ → List ℕ → List ℕ
nodes_at nodes [] = []
nodes_at nodes (i ∷ is) = elim (get_elem? nodes i) [
  | none ↦ nodes_at nodes is
  | some node ↦ node ∷ nodes_at nodes is
]

pub get_elem?-lt :
    (nodes : List ℕ) (i : ℕ) → i < length nodes → (node : ℕ) × (get_elem? nodes i ≡ some node)
get_elem?-lt [] i h = absurd (omega arith)
get_elem?-lt (x ∷ xs) zero h = (x, refl)
get_elem?-lt (x ∷ xs) (suc i) h = get_elem?-lt xs i (omega arith)

pub get_elem?-In : (nodes : List ℕ) (i node : ℕ) → get_elem? nodes i ≡ some node → In node nodes
get_elem?-In [] i node e = cc
get_elem?-In (x ∷ xs) zero node e = inl (ground arith)
get_elem?-In (x ∷ xs) (suc i) node e = inr (get_elem?-In xs i node e)

-- In a list without duplicates a node has one index.
get_elem?_inj :
    (nodes : List ℕ) (i j node : ℕ)
    → Distinct nodes
    → get_elem? nodes i ≡ some node
    → get_elem? nodes j ≡ some node
    → i ≡ j
get_elem?_inj [] i j node d e e' = cc
get_elem?_inj (x ∷ xs) zero zero node d e e' = refl
get_elem?_inj (x ∷ xs) zero (suc j) node d e e' =
    absurd (
      d.0
        (subst (λ (y : ℕ). In y xs) {x = node} {y = x} (ground arith) (get_elem?-In xs j node e')))
get_elem?_inj (x ∷ xs) (suc i) zero node d e e' =
    absurd (
      d.0 (subst (λ (y : ℕ). In y xs) {x = node} {y = x} (ground arith) (get_elem?-In xs i node e)))
get_elem?_inj (x ∷ xs) (suc i) (suc j) node d e e' = ap suc (get_elem?_inj xs i j node d.1 e e')

-- Every index is that of a node.
abbrev pub Valid : List ℕ → List ℕ → Type 0
Valid nodes is = (i : ℕ) → In i is → i < length nodes

pub nodes_at-In :
    (nodes is : List ℕ) (node : ℕ)
    → In node (nodes_at nodes is)
    → (i : ℕ) × In i is × (get_elem? nodes i ≡ some node)
nodes_at-In nodes [] node h = absurd h
nodes_at-In nodes (i ∷ is) node h = elim (Option-cases (get_elem? nodes i)) [
  | inl e ↦ let (k, m, g) = nodes_at-In nodes is node (rw (e, nodes_at) at h) in (k, inr m, g)
  | inr (x, e) ↦ elim ((λ (t : In node (x ∷ nodes_at nodes is)). t) (rw (e, nodes_at) at h)) [
    | inl same ↦ (i, inl refl, e ∙ ap some (sym same))
    | inr later ↦ let (k, m, g) = nodes_at-In nodes is node later in (k, inr m, g)
  ]
]

pub nodes_at-Distinct :
    (nodes is : List ℕ) → Distinct nodes → Distinct is → Distinct (nodes_at nodes is)
nodes_at-Distinct nodes [] d h = tt
nodes_at-Distinct nodes (i ∷ is) d h = elim (Option-cases (get_elem? nodes i)) [
  | inl e ↦ rw (e, nodes_at) (nodes_at-Distinct nodes is d h.1)
  | inr (x, e) ↦
      rw (e, nodes_at)
        (
          λ m.
              let (k, there, g) = nodes_at-In nodes is x m in
              h.0 (subst (λ (y : ℕ). In y is) (get_elem?_inj nodes k i x d g e) there),
          nodes_at-Distinct nodes is d h.1,
        )
]

pub length-nodes_at : (nodes is : List ℕ) → Valid nodes is → length (nodes_at nodes is) ≡ length is
length-nodes_at nodes [] h = refl
length-nodes_at nodes (i ∷ is) h =
    let (x, e) = get_elem?-lt nodes i (h i (inl refl)) in
    rw (e, nodes_at) (ap suc (length-nodes_at nodes is (λ k m. h k (inr m))))

pub lookup-add_replica :
    (shard node k : ℕ) (m : Shards) (rs : List ℕ)
    → lookup shard m ≡ some rs
    → lookup k (add_replica shard node m)
      ≡ (if shard == k then some (rs ++ node ∷ []) else lookup k m)
unfolding add_replica
lookup-add_replica shard node k m rs h =
    rw (h, add_replica) (lookup-insert shard k (rs ++ node ∷ []) m)

pub lookup-add_leader :
    (shard node k : ℕ) (m : Shards)
    → lookup shard m ≡ none
    → lookup k (add_replica shard node m) ≡ (if shard == k then some (node ∷ []) else lookup k m)
unfolding add_replica
lookup-add_leader shard node k m h = rw (h, add_replica) (lookup-insert shard k (node ∷ []) m)
