-- ===== src/Kv/MergedIterator/Bag.antt =====
-- The merged iterator gives every pair of its iterators, as often as they have it, and ends.
use lindb.Base.{
  subst, ℕ, ◌+◌, ◌<◌, ◌⊎◌, length, ◌≤◌, ◌≡◌, refl, sym, ap, ◌∙◌, Bool, true, Bool-cases,
  if◌then◌else◌, leb, List, [], ◌∷◌, ◌++◌, In, inl, inr, arith,
}
use lindb.Kv.MergedIterator.{Item, push, init_queue, HasNext, pop, Iterates, done, next}

module _ (test : ℕ × List ℕ → Bool) where
  -- How many pairs pass the test.
  abbrev pub count : List (ℕ × List ℕ) → ℕ
  count [] = 0
  count (pair ∷ pairs) = (if test pair then 1 else 0) + count pairs

  abbrev pub count_all : List (List (ℕ × List ℕ)) → ℕ
  count_all [] = 0
  count_all (pairs ∷ its) = count pairs + count_all its

  -- The same for the items of a queue.
  abbrev total : List Item → ℕ
  total [] = 0
  total (item ∷ pq) = count ((item.key, item.value) ∷ item.it) + total pq

  total-append : (a b : List Item) → total (a ++ b) ≡ total a + total b
  total-append [] b = omega arith
  total-append (x ∷ a) b = omega (arith, total-append a b)

  total-push : (it : List (ℕ × List ℕ)) (pq : List Item) → total (push it pq) ≡ count it + total pq
  unfolding push
  total-push [] pq = omega arith
  total-push ((k, v) ∷ it) pq = refl

  count-HasNext :
      {pq pq' : List Item} {key : ℕ} {value : List ℕ}
      → HasNext pq key value pq'
      → total pq ≡ (if test (key, value) then 1 else 0) + total pq'
  count-HasNext (pop before after item m) = omega (
    arith,
    total-append before (item ∷ after),
    total-push item.it (before ++ after),
    total-append before after,
  )

  count-Iterates :
      {pq : List Item} {pairs : List (ℕ × List ℕ)} → Iterates pq pairs → count pairs ≡ total pq
  count-Iterates done = refl
  count-Iterates (next step rest) = omega (arith, count-HasNext step, count-Iterates rest)

  total-init_queue : (its : List (List (ℕ × List ℕ))) → total (init_queue its) ≡ count_all its
  unfolding init_queue
  total-init_queue [] = refl
  total-init_queue (it ∷ its) = total-push it (init_queue its) ∙ omega (arith, total-init_queue its)

  -- Whatever the heap does, and whatever pairs are counted, the merged iterator gives as many of
  -- them as its iterators have together: no pair is lost, made up or given twice.
  pub count-init_queue :
      (its : List (List (ℕ × List ℕ))) (pairs : List (ℕ × List ℕ))
      → Iterates (init_queue its) pairs
      → count pairs ≡ count_all its
  count-init_queue its pairs run = count-Iterates run ∙ total-init_queue its

-- An item of a queue that has one is minimal.
record Minimal (pq : List Item) : Type 0 where
  before : List Item
  after : List Item
  item : Item
  here : pq ≡ before ++ item ∷ after
  least : (other : Item) → In other pq → item.key ≤ other.key

abbrev pub NextRound : List Item → Type 0
NextRound pq = (key : ℕ) × (value : List ℕ) × (pq' : List Item) × HasNext pq key value pq'

minimal : (item : Item) (pq : List Item) → Minimal (item ∷ pq)
minimal item [] = record {
  before = [];
  after = [];
  item = item;
  here = refl;
  least = λ other i. elim i [
    | inl e ↦ omega (arith, ap (λ (y : Item). y.key) e)
    | inr none_left ↦ absurd none_left
  ];
}
minimal item (x ∷ pq) =
    let m = minimal x pq in
    elim (Bool-cases (leb item.key m.item.key)) [
      | inl le ↦ record {
        before = [];
        after = x ∷ pq;
        item = item;
        here = refl;
        least = λ other i. elim i [
          | inl e ↦ omega (arith, ap (λ (y : Item). y.key) e)
          | inr j ↦ ground (arith, m.least other j)
        ];
      }
      | inr gt ↦ record {
        before = item ∷ m.before;
        after = m.after;
        item = m.item;
        here = ap (λ t. item ∷ t) m.here;
        least = λ other i. elim i [
          | inl e ↦ ground (arith, ap (λ (y : Item). y.key) e)
          | inr j ↦ m.least other j
        ];
      }
    ]

-- From a queue that has an item, a round is possible.
round : (item : Item) (pq : List Item) → NextRound (item ∷ pq)
round item pq =
    let m = minimal item pq in
    (
      m.item.key,
      m.item.value,
      push m.item.it (m.before ++ m.after),
      subst
          (λ (q : List Item).
            HasNext q m.item.key m.item.value (push m.item.it (m.before ++ m.after)))
          (sym m.here)
          (pop m.before m.after m.item
            (λ other i. m.least other (subst (In other) (sym m.here) i))),
    )

-- The first rounds of an iterator: the pairs that it has given, and the queue that is left.
pub data Rounds (pq : List Item) : List (ℕ × List ℕ) → List Item → Type 0 where
  none_yet : Rounds pq [] pq
  one_more :
      {pq₁ pq₂ : List Item} {key : ℕ} {value : List ℕ} {pairs : List (ℕ × List ℕ)}
      → Rounds pq pairs pq₁
      → HasNext pq₁ key value pq₂
      → Rounds pq ((key, value) ∷ pairs) pq₂

-- How many pairs there are.
abbrev pub number : List (List (ℕ × List ℕ)) → ℕ
number = count_all (λ pair. true)

number-Rounds :
    {pq pq' : List Item} {pairs : List (ℕ × List ℕ)}
    → Rounds pq pairs pq'
    → length pairs + total (λ pair. true) pq' ≡ total (λ pair. true) pq
number-Rounds none_yet = omega arith
number-Rounds (one_more r step) = omega (arith, number-Rounds r, count-HasNext (λ pair. true) step)

-- Whatever minimal items the heap has popped in the rounds so far: there were at most as many rounds
-- as the iterators have pairs together; with as many, the queue is empty and `HasNext` is false; and
-- with fewer, `HasNext` is true and a further round is possible.
pub Rounds-end :
    (its : List (List (ℕ × List ℕ))) (pairs : List (ℕ × List ℕ)) (pq : List Item)
    → Rounds (init_queue its) pairs pq
    → ((length pairs ≡ number its) × (pq ≡ [])) ⊎ ((length pairs < number its) × NextRound pq)
Rounds-end its pairs [] r =
    inl (omega (arith, number-Rounds r, total-init_queue (λ pair. true) its), refl)
Rounds-end its pairs (item ∷ pq) r =
    inr (omega (arith, number-Rounds r, total-init_queue (λ pair. true) its), round item pq)
