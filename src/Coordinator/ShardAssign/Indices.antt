-- ===== src/Coordinator/ShardAssign/Indices.antt =====
-- The indices that `replicaIndex` gives the replicas of one shard are those of different nodes.
use native.Mathlib.Nat.{mod-lt, mod-eq_of_lt, mod-eq-sub-mod, mod-add-mod}
use lindb.Base.{
  Bool-cases, ltb, ◌==◌, ==_iff, sym, ap, ◌∙◌, ℕ, zero, suc, ◌+◌, ◌-◌, ◌%◌, ◌<◌, ◌≤◌, ◌≡◌, List, [],
  ◌∷◌, In, inl, inr, arith,
}
use lindb.Coordinator.ShardAssign.{replica_index}

-- No entry twice.
abbrev pub Distinct : List ℕ → Type 0
Distinct [] = Unit {0}
Distinct (x ∷ xs) = ¬ In x xs × Distinct xs

-- The indices of the replicas from the `j`-th on.
abbrev pub others : ℕ → ℕ → ℕ → ℕ → ℕ → List ℕ
others first shift n zero j = []
others first shift n (suc rounds) j =
    replica_index first shift j n ∷ others first shift n rounds (suc j)

mod_wrap : (n f s : ℕ) → f < n → 0 < s → s < n → (f + s) % n ≡ f → ⊥
mod_wrap n f s hf h0 hs e = elim (Bool-cases (ltb (f + s) n)) [
  | inl below ↦ omega (arith, e, mod-eq_of_lt {n = f + s} {m = n} (ground arith), h0)
  | inr above ↦
      let over : n ≤ f + s = ground arith in
      omega (arith, e, mod-eq-sub-mod over, mod-eq_of_lt {n = f + s - n} {m = n} (omega arith), h0)
]

-- Two numbers less than `m` apart have different remainders.
mod_apart : (m x d : ℕ) → 0 < d → d < m → x % m ≡ (x + d) % m → ⊥
mod_apart m x d h0 h e =
    mod_wrap m (x % m) d (mod-lt x (omega arith)) h0 h (mod-add-mod x m d ∙ sym e)

-- Indices of the two replicas after the first.
replica_index_apart :
    (first shift n j d : ℕ)
    → 0 < d
    → d < n - 1
    → replica_index first shift j n ≡ replica_index first shift (j + d) n
    → ⊥
unfolding replica_index
replica_index_apart first shift n j d h0 h e =
    let a = (shift + j) % (n - 1) in
    let b = (shift + (j + d)) % (n - 1) in
    let ha : a < n - 1 = mod-lt (shift + j) (omega arith) in
    let hb : b < n - 1 = mod-lt (shift + (j + d)) (omega arith) in
    let ne : a ≡ b → ⊥ =
      λ p. mod_apart (n - 1) (shift + j) d h0 h (p ∙ ap (λ (t : ℕ). t % (n - 1)) (omega arith)) in
    elim (Bool-cases (ltb a b)) [
      | inl lt ↦
          mod_apart n (first + (1 + a)) (b - a) (ground arith) (ground arith)
            (e ∙ ap (λ (t : ℕ). t % n) (ground arith))
      | inr ge ↦ elim (Bool-cases (a == b)) [
        | inl same ↦ ne ((==_iff a b).0 same)
        | inr other ↦
            mod_apart n (first + (1 + b)) (a - b) (ground arith) (ground arith)
              (sym e ∙ ap (λ (t : ℕ). t % n) (ground arith))
      ]
    ]

pub replica_index-lt : (first shift n j : ℕ) → 0 < n → replica_index first shift j n < n
unfolding replica_index
replica_index-lt first shift n j h = mod-lt _ h

-- No replica after the first is on the node of the first.
replica_index_first :
    (first shift n j : ℕ) → first < n → 1 < n → replica_index first shift j n ≡ first → ⊥
unfolding replica_index
replica_index_first first shift n j hf h1 e =
    let lt = mod-lt (shift + j) {m = n - 1} (omega arith) in
    mod_wrap n first (1 + (shift + j) % (n - 1)) hf (omega arith) (omega arith) e

pub others-In :
    (first shift n : ℕ) (rounds j : ℕ) (k : ℕ)
    → In k (others first shift n rounds j)
    → (d : ℕ) × (d < rounds) × (k ≡ replica_index first shift (j + d) n)
others-In first shift n zero j k h = absurd h
others-In first shift n (suc rounds) j k (inl e) =
    (0, omega arith, e ∙ ap (λ (t : ℕ). replica_index first shift t n) (omega arith))
others-In first shift n (suc rounds) j k (inr i) =
    let (d, lt, e) = others-In first shift n rounds (suc j) k i in
    (suc d, omega arith, e ∙ ap (λ (t : ℕ). replica_index first shift t n) (omega arith))

others-Distinct :
    (first shift n : ℕ) (rounds j : ℕ) → rounds ≤ n - 1 → Distinct (others first shift n rounds j)
others-Distinct first shift n zero j h = tt
others-Distinct first shift n (suc rounds) j h = (
  λ i.
      let (d, lt, e) = others-In first shift n rounds (suc j) _ i in
      replica_index_apart first shift n j (suc d) (omega arith) (omega arith)
        (e ∙ ap (λ (t : ℕ). replica_index first shift t n) (omega arith)),
  others-Distinct first shift n rounds (suc j) (omega arith),
)

-- The indices of the replicas of a shard, the leader's first.
abbrev pub indices : ℕ → ℕ → ℕ → ℕ → List ℕ
indices first shift n replica_factor = first ∷ others first shift n (replica_factor - 1) 0

pub indices-Distinct :
    (first shift n replica_factor : ℕ)
    → first < n
    → replica_factor ≤ n
    → Distinct (indices first shift n replica_factor)
indices-Distinct first shift n replica_factor hf h = (
  λ i.
      let (d, lt, e) = others-In first shift n (replica_factor - 1) 0 first i in
      replica_index_first first shift n d hf (omega arith)
        (sym (e ∙ ap (λ (t : ℕ). replica_index first shift t n) (omega arith))),
  others-Distinct first shift n (replica_factor - 1) 0 (omega arith),
)
