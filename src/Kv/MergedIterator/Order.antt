-- ===== src/Kv/MergedIterator/Order.antt =====
-- The merged iterator gives the pairs in the order of their keys.
use lindb.Base.{ℕ, ◌≤◌, refl, List, [], ◌∷◌, ◌++◌, All, All-append, In, inl, inr}
use lindb.Kv.CompactJob.Runs.{Ordered}
use lindb.Kv.MergedIterator.{Item, push, init_queue, HasNext, pop, Iterates, done, next}

-- The keys of the item's iterator go on from the item's key, which is not below the bound.
abbrev pub Follows : ℕ → Item → Type 0
Follows bound item = (bound ≤ item.key) × Ordered item.key item.it

All-split :
    (bound : ℕ) (before after : List Item) (item : Item)
    → All (Follows bound) (before ++ item ∷ after)
    → All (Follows bound) before × Follows bound item × All (Follows bound) after
All-split bound [] after item h = (tt, h.0, h.1)
All-split bound (x ∷ before) after item h =
    let (a, b, c) = All-split bound before after item h.1 in ((h.0, a), b, c)

-- Behind a minimal item the rest of the queue follows its key.
raise :
    (bound key : ℕ) (items : List Item)
    → All (Follows bound) items
    → ((other : Item) → In other items → key ≤ other.key)
    → All (Follows key) items
raise bound key [] h m = tt
raise bound key (x ∷ items) h m =
    ((m x (inl refl), h.0.1), raise bound key items h.1 (λ other i. m other (inr i)))

push-Follows :
    (key : ℕ) (it : List (ℕ × List ℕ)) (pq : List Item)
    → Ordered key it
    → All (Follows key) pq
    → All (Follows key) (push it pq)
unfolding push
push-Follows key [] pq o h = h
push-Follows key ((k, v) ∷ it) pq o h = ((o.0, o.1), h)

HasNext-Follows :
    (bound : ℕ) {pq pq' : List Item} {key : ℕ} {value : List ℕ}
    → HasNext pq key value pq'
    → All (Follows bound) pq
    → (bound ≤ key) × All (Follows key) pq'
HasNext-Follows bound (pop before after item m) h =
    let (a, b, c) = All-split bound before after item h in
    let (a', b', c') =
      All-split item.key before after item (raise bound item.key (before ++ item ∷ after) h m) in
    (
      b.0,
      push-Follows item.key item.it (before ++ after) b.1
          (All-append (Follows item.key) before after a' c'),
    )

Iterates-Ordered :
    (bound : ℕ) {pq : List Item} {pairs : List (ℕ × List ℕ)}
    → Iterates pq pairs
    → All (Follows bound) pq
    → Ordered bound pairs
Iterates-Ordered bound done h = tt
Iterates-Ordered bound (next {key = key} step rest) h =
    let (le, h') = HasNext-Follows bound step h in (le, Iterates-Ordered key rest h')

init_queue-Follows :
    (its : List (List (ℕ × List ℕ))) → All (Ordered 0) its → All (Follows 0) (init_queue its)
unfolding init_queue
init_queue-Follows [] h = tt
init_queue-Follows (it ∷ its) h =
    push-Follows 0 it (init_queue its) h.0 (init_queue-Follows its h.1)

-- Where each iterator gives its pairs in the order of their keys, so does the merged iterator,
-- whichever minimal item the heap pops in each round.
pub init_queue-Ordered :
    (its : List (List (ℕ × List ℕ))) (pairs : List (ℕ × List ℕ))
    → All (Ordered 0) its
    → Iterates (init_queue its) pairs
    → Ordered 0 pairs
init_queue-Ordered its pairs h run = Iterates-Ordered 0 run (init_queue-Follows its h)
