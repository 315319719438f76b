-- ===== src/Table.antt =====
-- Python's `dict`, for the maps whose values carry their own key (`self._tasks[task.id] = task`):
-- a list of the values in insertion order. A write to a key that is there keeps its place, which is
-- how Python orders a dict; a write through a reference to a stored object is such a write.
pub mod Laws
pub mod Ids
use hermes_agent_cluster.Prelude.{
  String, Bool, true, false, ◌||◌, Option, none, some, List, [], ◌∷◌, ◌==◌, if◌then◌else◌,
}

module _ {ℓ} {A : Type ℓ} (key : A → String) where
  -- `d.get(k)`
  unfoldable pub get : String → List A → Option A
  get k [] = none
  get k (x ∷ xs) = if key x == k then some x else get k xs

  -- `d[x.key] = x`
  unfoldable pub put : A → List A → List A
  put x [] = x ∷ []
  put x (y ∷ ys) = if key y == key x then x ∷ ys else y ∷ put x ys

  -- `d.pop(k, None)`
  unfoldable pub remove : String → List A → List A
  remove k [] = []
  remove k (x ∷ xs) = if key x == k then xs else x ∷ remove k xs

  -- `k in d`
  unfoldable pub has : String → List A → Bool
  has k [] = false
  has k (x ∷ xs) = key x == k || has k xs
