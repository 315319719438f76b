-- ===== src/Store/Mirror.antt =====
-- `ClusterStore` beside `ClusterState`: what the rows of the SQLite store are for a state of the
-- in-memory one.
pub mod Nodes
pub mod Tasks
pub mod Leases
pub mod Schedule
pub mod Sound
pub mod Runs
pub mod Refinement
pub mod Promotion
use hermes_agent_cluster.Prelude.{ℕ, String}
use hermes_agent_cluster.Table.Laws.{IsKeyed}
use hermes_agent_cluster.Models.{node_key, task_key, lease_key}
use hermes_agent_cluster.State.{ClusterState}
use hermes_agent_cluster.State.Leases.Index.{IsIndexed}
use hermes_agent_cluster.Store.{ClusterStore}

-- The tables with the content of an in-memory state; the lease index and the registries are no part.
abbrev pub view : ClusterState → ClusterStore
view s = record {
  nodes = s.nodes;
  tasks = s.tasks;
  leases = s.leases;
  decisions = s.decisions;
  fair_scheduler = s.fair_scheduler;
  lanes = s.lanes;
  task_retry_limit = s.task_retry_limit;
  generated = s.generated;
}

-- One entry per id, and a lease index that is well-formed.
pub record IsSound (token : ℕ → String) (s : ClusterState) : Type 0 where
  pub keyed_nodes : IsKeyed node_key s.nodes
  pub keyed_tasks : IsKeyed task_key s.tasks
  pub keyed_leases : IsKeyed lease_key s.leases
  pub indexed : IsIndexed token s
