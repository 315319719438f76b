-- ===== src/State.antt =====
-- hermes_cluster/state/__init__.py: `ClusterState`, the central in-memory store. Each method is a
-- function from the state to the new state, beside its result. A method runs under its lock, so it
-- is one step. The clock is read once in a method (`now`); `secrets.token_hex` is the parameter
-- `token`, whose n-th text is the n-th that the process draws (`generated` counts them).
pub mod Leases
pub mod Tasks
pub mod Nodes
pub mod Log
pub mod Schedule
pub mod Sync
pub mod Sessions
pub mod Registry
pub mod Follows
pub mod History
use hermes_agent_cluster.Prelude.{ℕ, ◌+◌, String, Option, none, some, List, [], ◌∷◌, concat}
use hermes_agent_cluster.Models.{
  Node, Task, Lease, RecoveryEvent, SchedulingDecision, RemoteCluster, Hook, Delivery,
}
use hermes_agent_cluster.Scheduler.{FairScheduler, new_scheduler}

-- The dict of `record_task_spawn`.
pub record Spawn : Type 0 where
  pub task_id : String
  pub mode : String
  pub job_id : String
  pub pid : ℕ
  pub started_at : ℕ
  pub lease_id : String
  pub lane_name : String
  pub result_path : String
  pub lane_key : String
  pub role : String
  pub session_id : String
  pub attempt : ℕ

-- The dict of `record_lane`.
pub record Lane : Type 0 where
  pub lane_key : String
  pub session_id : String
  pub profile : String
  pub role : String
  pub node : String
  pub created_at : ℕ
  pub last_active_at : ℕ
  pub last_task_id : String

abbrev pub spawn_key : Spawn → String
spawn_key s = s.task_id

abbrev pub lane_record_key : Lane → String
lane_record_key l = l.lane_key

-- An item of `_task_lease_index`.
abbrev pub index_key : String × String → String
index_key entry = entry.0

pub record ClusterState : Type 0 where
  pub nodes : List Node
  pub tasks : List Task
  pub leases : List Lease
  pub task_lease_index : List (String × String)
  pub sync_version : ℕ
  pub recovery_events : List RecoveryEvent
  pub decisions : List SchedulingDecision
  pub fair_scheduler : FairScheduler
  pub clusters : List RemoteCluster
  pub hooks : List Hook
  pub deliveries : List Delivery
  pub task_spawns : List Spawn
  pub lanes : List Lane
  pub task_retry_limit : ℕ
  pub generated : ℕ

-- `ClusterState()`; a store without a `task_retry_limit` retries three times.
abbrev pub new_state : ClusterState
new_state = record {
  nodes = [];
  tasks = [];
  leases = [];
  task_lease_index = [];
  sync_version = 0;
  recovery_events = [];
  decisions = [];
  fair_scheduler = new_scheduler;
  clusters = [];
  hooks = [];
  deliveries = [];
  task_spawns = [];
  lanes = [];
  task_retry_limit = 3;
  generated = 0;
}

-- `_generate_id(prefix)`, at the n-th token
unfoldable pub generate_id : (ℕ → String) → String → ℕ → String
generate_id token prefix n = concat prefix (concat "_" (token n))
