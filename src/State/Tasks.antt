-- ===== src/State/Tasks.antt =====
-- The task methods of `ClusterState` (hermes_cluster/state/__init__.py) that change tasks.
pub mod Queries
pub mod Promotion
pub mod Steps
pub mod Invariant
use hermes_agent_cluster.Prelude.{
  ℕ, ◌+◌, String, Bool, true, false, not, ◌&&◌, ◌||◌, Option, none, some, List, [], ◌∷◌, leb,
  if◌then◌else◌, is_empty, strip, is_some,
}
use hermes_agent_cluster.Table.{get, put}
use hermes_agent_cluster.Ballot.{Ballot}
use hermes_agent_cluster.Models.{
  Task, TaskStatus, task_key, is_terminal, is_blocked, is_cancel_requested, is_cancelled,
}
use hermes_agent_cluster.State.{ClusterState}
use hermes_agent_cluster.State.Leases.{get_lease_by_task, revoke_lease}

-- The arguments of `create_task`, and of a plan of `create_tasks_batch`.
pub record TaskPlan : Type 0 where
  pub task_id : String
  pub title : String
  pub requires : List String
  pub depends_on : List String
  pub priority : ℕ
  pub lane_key : String
  pub role : String
  pub description : String
  pub issues : List String

abbrev pub plan_task : TaskPlan → TaskStatus → ℕ → Task
plan_task plan status now = record {
  id = plan.task_id;
  title = plan.title;
  requires = plan.requires;
  depends_on = plan.depends_on;
  priority = plan.priority;
  status = status;
  assigned_to = none;
  created_at = now;
  updated_at = now;
  version = 1;
  fail_reason = none;
  description = plan.description;
  attempts = 0;
  lane_key = plan.lane_key;
  role = plan.role;
  result = none;
  issues = plan.issues;
  ballot = none;
  cancel_requeue = none;
}

abbrev pub store_task : Task → ClusterState → ClusterState
store_task t s = record s { tasks = put task_key t s.tasks }

unfoldable pub create_task : ClusterState → TaskPlan → ℕ → ClusterState × Task
create_task s plan now =
    let task = plan_task plan TaskStatus.pending now in (store_task task s, task)

-- `ready if not plan.get("depends_on") else pending`
abbrev pub batch_status : List String → TaskStatus
batch_status [] = TaskStatus.ready
batch_status (d ∷ ds) = TaskStatus.pending

unfoldable pub create_tasks_batch : ClusterState → List TaskPlan → ℕ → ClusterState × List Task
create_tasks_batch s [] now = (s, [])
create_tasks_batch s (plan ∷ plans) now =
    let task = plan_task plan (batch_status plan.depends_on) now in
    let (s', tasks) = create_tasks_batch (store_task task s) plans now in (s', task ∷ tasks)

-- The methods that look a task up, and write it or give up.
unfoldable pub edit_task : ClusterState → String → (Task → Option Task) → ClusterState × Bool
edit_task s task_id f = elim (get task_key task_id s.tasks) [
  | none ↦ (s, false)
  | some task ↦ elim (f task) [ none ↦ (s, false) | some task' ↦ (store_task task' s, true) ]
]

-- `task.updated_at = now; task.version += 1`
abbrev pub touch : ℕ → Task → Task
touch now t = record t { updated_at = now; version = t.version + 1 }

abbrev pub with_status : TaskStatus → ℕ → Task → Task
with_status status now t = record t { status = status; updated_at = now; version = t.version + 1 }

abbrev pub with_reason : String → Task → Task
with_reason reason t = if is_empty reason then t else record t { fail_reason = some reason }

unfoldable pub set_task_result : ClusterState → String → Option String → ℕ → ClusterState × Bool
set_task_result s task_id none now = (s, false)
set_task_result s task_id (some result) now =
    if is_empty (strip result)
    then (s, false)
    else edit_task s task_id (λ t. some (touch now (record t { result = some result })))

-- A task in a terminal state takes no other state, but for the worker's answer to a cancel request.
unfoldable pub status_edit : TaskStatus → String → ℕ → Task → Option Task
status_edit status reason now t =
    if is_terminal t.status && not (is_cancel_requested t.status && is_cancelled status)
    then none
    else some (with_reason reason (with_status status now t))

unfoldable pub set_task_status :
    ClusterState → String → TaskStatus → String → ℕ → ClusterState × Bool
set_task_status s task_id status reason now = edit_task s task_id (status_edit status reason now)

abbrev pub released : ℕ → Task → Task
released now t = record t {
  assigned_to = none;
  status = TaskStatus.ready;
  updated_at = now;
  version = t.version + 1;
}

unfoldable pub unassign_task : ClusterState → String → ℕ → ClusterState × Bool
unassign_task s task_id now = edit_task s task_id (λ t.
    if is_terminal t.status
    then none
    else if is_some (get_lease_by_task s task_id)
    then none
    else some (released now t))

unfoldable pub unblock_task : ClusterState → String → ℕ → ClusterState × Bool
unblock_task s task_id now =
    edit_task s task_id
      (λ t. if is_blocked t.status then some (with_status TaskStatus.pending now t) else none)

unfoldable pub unblock_to_ready : ClusterState → String → ℕ → ClusterState × Bool
unblock_to_ready s task_id now =
    edit_task s task_id
      (λ t. if is_blocked t.status then some (with_status TaskStatus.ready now t) else none)

unfoldable pub set_task_ballot : ClusterState → String → Option Ballot → ℕ → ClusterState × Bool
set_task_ballot s task_id ballot now =
    edit_task s task_id (λ t. some (touch now (record t { ballot = ballot })))

unfoldable pub set_task_cancel_requeue : ClusterState → String → Bool → ℕ → ClusterState × Bool
set_task_cancel_requeue s task_id requeue now =
    edit_task s task_id (λ t. some (touch now (record t { cancel_requeue = some requeue })))

unfoldable pub set_dependencies : ClusterState → String → List String → ℕ → ClusterState × Bool
set_dependencies s task_id depends_on now =
    edit_task s task_id (λ t. some (touch now (record t { depends_on = depends_on })))

-- The part of `requeue_task` under the tasks lock.
unfoldable pub requeue_edit : ℕ → String → ℕ → Task → Option Task
requeue_edit limit reason now t =
    if is_terminal t.status
    then none
    else if leb limit t.attempts
    then none
    else some (with_reason reason (released now (record t { attempts = t.attempts + 1 })))

-- `lease = get_lease_by_task(id); if lease: revoke_lease(lease.id)`
unfoldable pub revoke_lease_of : ClusterState → String → ClusterState
revoke_lease_of s task_id = elim (get_lease_by_task s task_id) [
  | none ↦ s
  | some lease ↦ (revoke_lease s lease.id).0
]

unfoldable pub requeue_task : ClusterState → String → String → ℕ → ClusterState × Bool
requeue_task s task_id reason now =
    let (s', done) = edit_task s task_id (requeue_edit s.task_retry_limit reason now) in
    if done then (revoke_lease_of s' task_id, true) else (s', false)
