-- ===== src/Base/Sets.antt =====
-- A Go map that is used as a set of int64 keys: the list of its keys.
use Prim.Native.Nat.{ℕ}
use mathlib.Core.Path.{◌≡◌}
use mathlib.Core.Bool.{Bool, true, false, ◌||◌}
use mathlib.Core.List.{List, [], ◌∷◌}
use native.Mathlib.Omega.{arith}
use package.lindb.Base.Tests.{◌==◌, if◌then◌else◌}

-- `_, ok := m[k]`
unfoldable pub has : ℕ → List ℕ → Bool
has k [] = false
has k (j ∷ s) = j == k || has k s

-- `delete(m, k)`
unfoldable pub drop_key : ℕ → List ℕ → List ℕ
drop_key k [] = []
drop_key k (j ∷ s) = if j == k then drop_key k s else j ∷ drop_key k s

-- `m[k] = v`
unfoldable pub add_key : ℕ → List ℕ → List ℕ
add_key k s = k ∷ drop_key k s

pub has-drop_key :
    (k j : ℕ) (s : List ℕ) → has j (drop_key k s) ≡ (if k == j then false else has j s)
unfolding has drop_key
has-drop_key k j [] = ground arith
has-drop_key k j (i ∷ s) = ground (arith, has-drop_key k j s)

pub has-add_key : (k j : ℕ) (s : List ℕ) → has j (add_key k s) ≡ (if k == j then true else has j s)
unfolding has add_key
has-add_key k j s = ground (arith, has-drop_key k j s)
