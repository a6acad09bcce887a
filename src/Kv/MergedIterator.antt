-- ===== src/Kv/MergedIterator.antt =====
-- kv/table/iterator.go: the iterator that merges several into the order of their keys. An iterator
-- over a store is the list of the pairs that it still has. `container/heap` promises that `Pop`
-- takes an item that is minimal by `Less`, and no more; so a round is a relation, which takes any
-- minimal item of the queue, and the queue is a list in no particular order.
pub mod Order
pub mod Bag
mod Examples
use lindb.Base.{ℕ, ◌≤◌, ◌≡◌, List, [], ◌∷◌, ◌++◌, In}

pub record Item : Type 0 where
  pub key : ℕ
  pub value : List ℕ
  pub it : List (ℕ × List ℕ)

-- An iterator that has a pair is put into the queue with that pair.
unfoldable pub push : List (ℕ × List ℕ) → List Item → List Item
push [] pq = pq
push ((key, value) ∷ it) pq = record { key = key; value = value; it = it } ∷ pq

-- `initQueue`
unfoldable pub init_queue : List (List (ℕ × List ℕ)) → List Item
init_queue [] = []
init_queue (it ∷ its) = push it (init_queue its)

-- One `HasNext` that is true: the item that it pops gives `curKey` and `curValue`, and goes back
-- into the queue if its iterator has a pair left.
pub data HasNext : List Item → ℕ → List ℕ → List Item → Type 0 where
  pop :
      (before after : List Item) (item : Item)
      → ((other : Item) → In other (before ++ item ∷ after) → item.key ≤ other.key)
      → HasNext (before ++ item ∷ after) item.key item.value (push item.it (before ++ after))

-- All rounds: the pairs that the iterator gives, until `HasNext` is false.
pub data Iterates : List Item → List (ℕ × List ℕ) → Type 0 where
  done : Iterates [] []
  next :
      {pq pq' : List Item} {key : ℕ} {value : List ℕ} {pairs : List (ℕ × List ℕ)}
      → HasNext pq key value pq'
      → Iterates pq' pairs
      → Iterates pq ((key, value) ∷ pairs)
