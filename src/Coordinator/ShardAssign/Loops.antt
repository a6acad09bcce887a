-- ===== src/Coordinator/ShardAssign/Loops.antt =====
-- The loops of `assignReplicasToStorageNodes`: each shard gets a replica list of its own.
use lindb.Base.{
  ==_iff, subst, ℕ, zero, suc, ◌+◌, ◌-◌, ◌<◌, ◌≤◌, ◌≡◌, ◌%◌, ◌^◌, refl, ap, ◌∙◌, List, [], ◌∷◌,
  ◌++◌, none, some, Bool-cases, lookup, lookup-nil, get_elem?, length, In, inl, inr, arith, ◌==◌,
  if◌then◌else◌, ℕ-Key, append_assoc, append-nil,
}
use lindb.Coordinator.ShardAssign.{
  Shards, replica_index, add_replica, assign_others, next_shift, assign_shards, shard_assignment,
}
use lindb.Coordinator.ShardAssign.Indices.{
  others-In, Distinct, others, indices, indices-Distinct, replica_index-lt,
}
use lindb.Coordinator.ShardAssign.Replicas.{
  nodes_at, nodes_at-In, nodes_at-Distinct, length-nodes_at, get_elem?-lt, get_elem?-In,
  lookup-add_replica, lookup-add_leader,
}
use native.Mathlib.Nat.{mod-lt}

module _ (nodes : List ℕ) (some_node : 0 < length nodes) where
  assign_others-run :
      (shard first shift rounds j : ℕ) (m : Shards) (rs : List ℕ)
      → lookup shard m ≡ some rs
      → (m' : Shards) × (assign_others nodes shard first shift rounds j m ≡ some m')
        × ((k : ℕ)
            → lookup k m' ≡ (
                if shard == k
                then some (rs ++ nodes_at nodes (others first shift (length nodes) rounds j))
                else lookup k m))
  unfolding assign_others
  assign_others-run shard first shift zero j m rs h =
      (m, refl, λ k. ground (arith, h, append-nil rs))
  assign_others-run shard first shift (suc rounds) j m rs h =
      let i = replica_index first shift j (length nodes) in
      let (node, e) =
        get_elem?-lt nodes i (replica_index-lt first shift (length nodes) j some_node) in
      let added = λ (k : ℕ). lookup-add_replica shard node k m rs h in
      let (m', run, found) =
        assign_others-run shard first shift rounds (suc j) (add_replica shard node m)
          (rs ++ node ∷ []) (ground (arith, added shard)) in
      let rest = others first shift (length nodes) rounds (suc j) in
      (
        m',
        rw (e, assign_others) run,
        λ k.
            found k ∙ ground (arith, e, added k, append_assoc rs (node ∷ []) (nodes_at nodes rest)),
      )

-- The replicas of a shard: as many as the factor says, on different nodes, the leader by
-- round-robin from the node at `start`.
pub record IsSpread (nodes : List ℕ) (replica_factor start shard : ℕ) (replicas : List ℕ)
    : Type 0 where
  pub leader :
      (node : ℕ) × (rest : List ℕ) × (replicas ≡ node ∷ rest)
      × (get_elem? nodes ((shard + start) % length nodes) ≡ some node)
  pub count : length replicas ≡ replica_factor
  pub on_nodes : (node : ℕ) → In node replicas → In node nodes
  pub apart : Distinct replicas

indices_Valid :
    (first shift n replica_factor k : ℕ)
    → first < n
    → In k (indices first shift n replica_factor)
    → k < n
indices_Valid first shift n replica_factor k h (inl e) = omega (arith, e)
indices_Valid first shift n replica_factor k h (inr i) =
    let (d, lt, e) = others-In first shift n (replica_factor - 1) 0 k i in
    omega (arith, e, replica_index-lt first shift n (0 + d) (omega arith))

length-others : (first shift n rounds j : ℕ) → length (others first shift n rounds j) ≡ rounds
length-others first shift n zero j = refl
length-others first shift n (suc rounds) j = ap suc (length-others first shift n rounds (suc j))

-- The nodes at the indices of a shard are a spread.
nodes_at-IsSpread :
    (nodes : List ℕ) (replica_factor start shard shift : ℕ)
    → Distinct nodes
    → 0 < replica_factor
    → replica_factor ≤ length nodes
    → IsSpread nodes replica_factor start shard (
        nodes_at nodes
          (indices ((shard + start) % length nodes) shift (length nodes) replica_factor))
nodes_at-IsSpread nodes factor start shard shift d h0 h =
    let n = length nodes in
    let first = (shard + start) % n in
    let lt : first < n = mod-lt (shard + start) (omega arith) in
    let is = indices first shift n factor in
    let (node, e) = get_elem?-lt nodes first lt in
    record {
      leader =
          (node, nodes_at nodes (others first shift n (factor - 1) 0), rw (e, nodes_at) refl, e);
      count =
          length-nodes_at nodes is (λ k i. indices_Valid first shift n factor k lt i)
          ∙ omega (arith, length-others first shift n (factor - 1) 0);
      on_nodes = λ x i. let (k, m, g) = nodes_at-In nodes is x i in get_elem?-In nodes k x g;
      apart = nodes_at-Distinct nodes is d (indices-Distinct first shift n factor lt h);
    }

module _ (nodes : List ℕ) (d : Distinct nodes) (replica_factor start : ℕ) (h0 : 0 < replica_factor)
    (h : replica_factor ≤ length nodes) where
  -- The shards below `shard` are as before, those of the rounds are spread, and there are no others.
  assign_shards-run :
      (rounds shard shift : ℕ) (m : Shards)
      → ((k : ℕ) → shard ≤ k → lookup k m ≡ none)
      → (m' : Shards) × (assign_shards nodes replica_factor start rounds shard shift m ≡ some m')
        × ((k : ℕ) → k < shard → lookup k m' ≡ lookup k m)
        × ((k : ℕ)
            → shard ≤ k
            → k < shard + rounds
            → (rs : List ℕ) × (lookup k m' ≡ some rs) × IsSpread nodes replica_factor start k rs)
        × ((k : ℕ) → shard + rounds ≤ k → lookup k m' ≡ none)
  unfolding assign_shards
  assign_shards-run zero shard shift m free =
      (m, refl, λ k lt. refl, λ k ge lt. absurd (omega arith), λ k ge. free k (omega arith))
  assign_shards-run (suc rounds) shard shift m free =
      let n = length nodes in
      let first = (shard + start) % n in
      let shift' = next_shift shard n shift in
      let (leader, e) = get_elem?-lt nodes first (mod-lt (shard + start) (omega arith)) in
      let led = λ (k : ℕ). lookup-add_leader shard leader k m (free shard (omega arith)) in
      let (m₁, run₁, found) =
        assign_others-run nodes (omega arith) shard first shift' (replica_factor - 1) 0
          (add_replica shard leader m) (leader ∷ []) (ground (arith, led shard)) in
      let (m', run, below, spread, above) =
        assign_shards-run rounds (suc shard) shift' m₁
          (λ k ge. ground (arith, found k, led k, free k (omega arith))) in
      (
        m',
        rw (e, run₁, assign_shards) run,
        λ k lt. below k (omega arith) ∙ ground (arith, found k, led k),
        λ k ge lt. elim (Bool-cases (shard == k)) [
          | inl here ↦
              subst
                (λ (s : ℕ).
                  (rs : List ℕ) × (lookup s m' ≡ some rs)
                  × IsSpread nodes replica_factor start s rs)
                ((==_iff shard k).0 here)
                (
                  nodes_at nodes (indices first shift' n replica_factor),
                  below shard (omega arith) ∙ ground (arith, found shard, e),
                  nodes_at-IsSpread nodes replica_factor start shard shift' d h0 h,
                )
          | inr there ↦ spread k (ground arith) (omega arith)
        ],
        λ k ge. above k (omega arith),
      )

-- On storage nodes that are all different, for a number of shards and a replica factor that are
-- positive and no more replicas than nodes, `ShardAssignment` succeeds wherever `rand` starts. Each
-- shard below the number of shards then has as many replicas as the factor says, on different
-- nodes, with the leader chosen by round-robin, and no other shard has any.
pub shard_assignment-IsSpread :
    (start shift : ℕ) (nodes : List ℕ) (num_of_shard replica_factor : ℕ)
    → Distinct nodes
    → 0 < num_of_shard
    → num_of_shard < 2 ^ 63
    → 0 < replica_factor
    → replica_factor < 2 ^ 63
    → replica_factor ≤ length nodes
    → (shards : Shards) × (shard_assignment start shift nodes num_of_shard replica_factor
        ≡ some (inr shards))
      × ((k : ℕ)
          → k < num_of_shard
          → (rs : List ℕ) × (lookup k shards ≡ some rs) × IsSpread nodes replica_factor start k rs)
      × ((k : ℕ) → num_of_shard ≤ k → lookup k shards ≡ none)
unfolding shard_assignment
shard_assignment-IsSpread start shift nodes num_of_shard replica_factor d hn hn' hf hf' h =
    let (shards, run, below, spread, above) =
      assign_shards-run nodes d replica_factor start hf h num_of_shard 0 shift []
        (λ k ge. lookup-nil k) in
    (
      shards,
      ground (arith, run),
      λ k lt. spread k (omega arith) (omega arith),
      λ k ge. above k (omega arith),
    )
