-- ===== src/Kv/MergedIterator/Examples.antt =====
-- The theorems of the merged iterator at concrete inputs.
use lindb.Base.{length, ℕ, ◌≡◌, List, [], ◌∷◌, Bool, arith, ap, inl, inr, ◌⊎◌, ◌<◌, All, ◌==◌}
use lindb.Kv.CompactJob.Runs.{Ordered}
use lindb.Kv.MergedIterator.{Item, push, init_queue, HasNext, pop, Iterates, done, next}
use lindb.Kv.MergedIterator.Order.{init_queue-Ordered}
use lindb.Kv.MergedIterator.Bag.{
  count, count-init_queue, none_yet, one_more, NextRound, number, Rounds-end,
}

-- Key 5 is in both iterators.
abbrev iterators : List (List (ℕ × List ℕ))
iterators = ((5, 1 ∷ []) ∷ (9, 2 ∷ []) ∷ []) ∷ ((5, 3 ∷ []) ∷ []) ∷ []

iterators-Ordered : All (Ordered 0) iterators
iterators-Ordered = ((omega arith, (omega arith, tt)), ((omega arith, tt), tt))

-- A run: the heap takes the second iterator first.
abbrev run_pairs : List (ℕ × List ℕ)
run_pairs = (5, 3 ∷ []) ∷ (5, 1 ∷ []) ∷ (9, 2 ∷ []) ∷ []

abbrev first_item : Item
first_item = record { key = 5; value = 1 ∷ []; it = (9, 2 ∷ []) ∷ [] }

abbrev second_item : Item
second_item = record { key = 5; value = 3 ∷ []; it = [] }

abbrev third_item : Item
third_item = record { key = 9; value = 2 ∷ []; it = [] }

first_round : HasNext (init_queue iterators) 5 (3 ∷ []) (first_item ∷ [])
unfolding init_queue push
first_round = pop (first_item ∷ []) [] second_item (λ other i. elim i [
  | inl e ↦ omega (arith, ap (λ (y : Item). y.key) e)
  | inr j ↦ elim j [ inl e ↦ omega (arith, ap (λ (y : Item). y.key) e) | inr k ↦ absurd k ]
])

second_round : HasNext (first_item ∷ []) 5 (1 ∷ []) (third_item ∷ [])
unfolding push
second_round =
    pop [] [] first_item
      (λ other i. elim i [ inl e ↦ omega (arith, ap (λ (y : Item). y.key) e) | inr j ↦ absurd j ])

third_round : HasNext (third_item ∷ []) 9 (2 ∷ []) []
unfolding push
third_round =
    pop [] [] third_item
      (λ other i. elim i [ inl e ↦ omega (arith, ap (λ (y : Item). y.key) e) | inr j ↦ absurd j ])

some_run : Iterates (init_queue iterators) run_pairs
some_run = next first_round (next second_round (next third_round done))

abbrev second_pair : ℕ × List ℕ
second_pair = (5, 3 ∷ [])

Rounds-end_example :
    ((length (second_pair ∷ []) ≡ number iterators) × (first_item ∷ [] ≡ []))
    ⊎ ((length (second_pair ∷ []) < number iterators) × NextRound (first_item ∷ []))
Rounds-end_example =
    Rounds-end iterators (second_pair ∷ []) (first_item ∷ []) (one_more none_yet first_round)

init_queue-Ordered_example : Ordered 0 run_pairs
init_queue-Ordered_example = init_queue-Ordered iterators run_pairs iterators-Ordered some_run

-- The pairs of key 5.
abbrev of_five : ℕ × List ℕ → Bool
of_five pair = pair.0 == 5

count-init_queue_example : count of_five run_pairs ≡ 2
count-init_queue_example = count-init_queue of_five iterators run_pairs some_run
