-- ===== src/Store.antt =====
-- hermes_cluster/state/cluster_store.py: `ClusterStore`, the store over SQLite. A table is the list of
-- its rows in the order of their row ids, a row is the record that `_row_to_node`, `_row_to_task` or
-- `_row_to_lease` makes of it, and a transaction is one step. A query without ORDER BY gives rows in
-- that order, and ORDER BY keeps it among equal rows. As with `ClusterState`, the clock is read once
-- in a method, and `token` is the supply of random texts.

pub mod Rows
pub mod Nodes
pub mod Leases
pub mod Tasks
pub mod Schedule
pub mod Mirror
use hermes_agent_cluster.Prelude.{
  ℕ, String, Bool, true, false, ◌||◌, Option, none, some, List, [], ◌∷◌, ◌++◌, if◌then◌else◌,
}
use hermes_agent_cluster.Table.{has}
use hermes_agent_cluster.Models.{Node, Task, Lease, SchedulingDecision}
use hermes_agent_cluster.Scheduler.{FairScheduler}
use hermes_agent_cluster.State.{Lane}

pub record ClusterStore : Type 0 where
  pub nodes : List Node
  pub tasks : List Task
  pub leases : List Lease
  pub decisions : List SchedulingDecision
  pub fair_scheduler : FairScheduler
  pub lanes : List Lane
  pub task_retry_limit : ℕ
  pub generated : ℕ

module _ {ℓ} {A : Type ℓ} where
  -- `UPDATE ... SET f WHERE p`
  unfoldable pub update_where : (A → Bool) → (A → A) → List A → List A
  update_where p f [] = []
  update_where p f (x ∷ xs) = (if p x then f x else x) ∷ update_where p f xs

  -- `rowcount > 0`, and `EXISTS (SELECT 1 ... WHERE p)`
  unfoldable pub any_row : (A → Bool) → List A → Bool
  any_row p [] = false
  any_row p (x ∷ xs) = p x || any_row p xs

  -- `INSERT INTO`: an id that is taken is an IntegrityError.
  unfoldable pub insert : (A → String) → A → List A → Option (List A)
  insert key x xs = if has key (key x) xs then none else some (xs ++ x ∷ [])

  -- `INSERT OR IGNORE INTO`
  unfoldable pub insert_or_ignore : (A → String) → A → List A → List A
  insert_or_ignore key x xs = if has key (key x) xs then xs else xs ++ x ∷ []
