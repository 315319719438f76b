-- ===== src/State/Tasks/Queries.antt =====
-- The task methods of `ClusterState` (hermes_cluster/state/__init__.py) that only read.
use hermes_agent_cluster.Prelude.{
  ℕ, zero, suc, String, Option, List, [], ◌∷◌, ◌++◌, map, if◌then◌else◌, keep, count, member,
  length,
}
use hermes_agent_cluster.Table.{get}
use hermes_agent_cluster.Models.{
  Task, task_key, is_pending, is_ready, is_running, is_completed, is_failed, is_blocked,
  is_cancel_requested, is_cancelled,
}
use hermes_agent_cluster.Scheduler.Lanes.{UnleasedRow, unleased_running_rows}
use hermes_agent_cluster.State.{ClusterState}
use hermes_agent_cluster.State.Leases.{active_leased_task_ids}

unfoldable pub get_task : ClusterState → String → Option Task
get_task s task_id = get task_key task_id s.tasks

unfoldable pub get_dependents : ClusterState → String → List String
get_dependents s task_id = map task_key (keep (λ t. member task_id t.depends_on) s.tasks)

-- The loop of `_traverse` over the dependents; `visit` is the recursive call.
abbrev pub Chain : Type 0
Chain = List String × List String

unfoldable pub traverse_all : (String → Chain → Chain) → List String → Chain → Chain
traverse_all visit [] acc = acc
traverse_all visit (dep_id ∷ rest) (chain, visited) =
    traverse_all visit rest (visit dep_id (chain ++ dep_id ∷ [], visited))

-- `_traverse`, at `max_depth - depth`: what was found so far, and the set of visited ids.
unfoldable pub traverse : ClusterState → ℕ → String → Chain → Chain
traverse s zero task_id acc = acc
traverse s (suc depth) task_id (chain, visited) =
    let deeper =
      traverse_all (traverse s depth) (get_dependents s task_id) (chain, task_id ∷ visited) in
    if member task_id visited then (chain, visited) else deeper

unfoldable pub get_trigger_chain : ClusterState → String → ℕ → List String
get_trigger_chain s task_id max_depth = (traverse s max_depth task_id ([], [])).0

-- The dict of `task_counts`, which has no entry for assigned tasks.
pub record TaskCounts : Type 0 where
  pub total : ℕ
  pub ready : ℕ
  pub running : ℕ
  pub completed : ℕ
  pub failed : ℕ
  pub pending : ℕ
  pub blocked : ℕ
  pub cancel_requested : ℕ
  pub cancelled : ℕ

unfoldable pub task_counts : ClusterState → TaskCounts
task_counts s = record {
  total = length s.tasks;
  ready = count (λ t. is_ready t.status) s.tasks;
  running = count (λ t. is_running t.status) s.tasks;
  completed = count (λ t. is_completed t.status) s.tasks;
  failed = count (λ t. is_failed t.status) s.tasks;
  pending = count (λ t. is_pending t.status) s.tasks;
  blocked = count (λ t. is_blocked t.status) s.tasks;
  cancel_requested = count (λ t. is_cancel_requested t.status) s.tasks;
  cancelled = count (λ t. is_cancelled t.status) s.tasks;
}

unfoldable pub unleased_running_tasks : ClusterState → ℕ → List UnleasedRow
unleased_running_tasks s now = unleased_running_rows s.tasks (active_leased_task_ids s now) now
