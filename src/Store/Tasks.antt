-- ===== src/Store/Tasks.antt =====
-- The task methods of `ClusterStore` (hermes_cluster/state/cluster_store.py).
use hermes_agent_cluster.Prelude.{
  ℕ, ◌+◌, String, Bool, true, false, not, ◌&&◌, Option, none, some, List, [], ◌∷◌, map, ◌==◌, ltb,
  or_else, if◌then◌else◌, keep, member, is_empty, strip,
}
use hermes_agent_cluster.Table.{get}
use hermes_agent_cluster.Ballot.{Ballot}
use hermes_agent_cluster.Models.{
  Task, TaskStatus, task_key, is_terminal, is_blocked, is_pending, is_ready,
}
use hermes_agent_cluster.Scheduler.Lanes.{UnleasedRow, unleased_running_rows}
use hermes_agent_cluster.State.Tasks.{TaskPlan, plan_task}
use hermes_agent_cluster.Store.{ClusterStore, update_where, any_row, insert_or_ignore}
use hermes_agent_cluster.Store.Leases.{is_live_row, revoked, leased_task_ids}

-- `UPDATE tasks SET f WHERE p`, and whether it changed a row.
unfoldable pub update_tasks : ClusterStore → (Task → Bool) → (Task → Task) → ClusterStore × Bool
update_tasks d p f = (record d { tasks = update_where p f d.tasks }, any_row p d.tasks)

-- `status = 'ready', updated_at = now`, without a new version.
abbrev pub make_ready : ℕ → Task → Task
make_ready now t = record t { status = TaskStatus.ready; updated_at = now }

abbrev has_no_dependencies : TaskPlan → Bool
has_no_dependencies plan = elim plan.depends_on [ [] ↦ true | _ ∷ _ ↦ false ]

abbrev plan_id : TaskPlan → String
plan_id plan = plan.task_id

abbrev insert_plan : ℕ → TaskPlan → List Task → List Task
insert_plan now plan tasks = insert_or_ignore task_key (plan_task plan TaskStatus.pending now) tasks

unfoldable pub insert_plans : ℕ → List TaskPlan → List Task → List Task
insert_plans now [] tasks = tasks
insert_plans now (plan ∷ plans) tasks = insert_plans now plans (insert_plan now plan tasks)

unfoldable pub create_task : ClusterStore → TaskPlan → ℕ → ClusterStore × Task
create_task d plan now =
    let inserted = insert_plan now plan d.tasks in
    let tasks =
      if has_no_dependencies plan
      then update_where (λ t. t.id == plan.task_id && is_pending t.status) (make_ready now) inserted
      else inserted in
    (
      record d { tasks = tasks },
      or_else (get task_key plan.task_id tasks) (plan_task plan TaskStatus.pending now),
    )

unfoldable pub rows_of : List Task → List TaskPlan → List Task
rows_of tasks [] = []
rows_of tasks (plan ∷ plans) = elim (get task_key plan.task_id tasks) [
  | none ↦ rows_of tasks plans
  | some t ↦ t ∷ rows_of tasks plans
]

unfoldable pub create_tasks_batch : ClusterStore → List TaskPlan → ℕ → ClusterStore × List Task
create_tasks_batch d plans now =
    let inserted = insert_plans now plans d.tasks in
    let ids = map plan_id (keep has_no_dependencies plans) in
    let tasks =
      update_where (λ t. member t.id ids && is_pending t.status) (make_ready now) inserted in
    (record d { tasks = tasks }, rows_of tasks plans)

unfoldable pub unleased_running_tasks : ClusterStore → ℕ → List UnleasedRow
unleased_running_tasks d now = unleased_running_rows d.tasks (leased_task_ids d now) now

-- `updated_at = now, version = version + 1`
abbrev pub bumped : ℕ → Task → Task
bumped now t = record t { updated_at = now; version = t.version + 1 }

unfoldable pub set_task_result : ClusterStore → String → Option String → ℕ → ClusterStore × Bool
set_task_result d task_id none now = (d, false)
set_task_result d task_id (some result) now =
    if is_empty (strip result)
    then (d, false)
    else update_tasks d (λ t. t.id == task_id)
        (λ t. record t { result = some result; updated_at = now; version = t.version + 1 })

-- No condition on the task's state.
unfoldable pub set_task_status :
    ClusterStore → String → TaskStatus → String → ℕ → ClusterStore × Bool
set_task_status d task_id status fail_reason now =
    if is_empty fail_reason
    then update_tasks d (λ t. t.id == task_id)
        (λ t. record t { status = status; updated_at = now; version = t.version + 1 })
    else update_tasks d (λ t. t.id == task_id)
        (λ t. record t {
          status = status;
          updated_at = now;
          version = t.version + 1;
          fail_reason = some fail_reason;
        })

unfoldable pub unassign_task : ClusterStore → String → ℕ → ClusterStore × Bool
unassign_task d task_id now =
    update_tasks d
      (λ t.
        (t.id == task_id)
        && not (is_terminal t.status)
        && not (any_row (λ l. l.task_id == t.id && is_live_row now l) d.leases))
      (λ t. record t {
        assigned_to = none;
        status = TaskStatus.ready;
        updated_at = now;
        version = t.version + 1;
      })

abbrev moved_to : TaskStatus → ℕ → Task → Task
moved_to status now t = record t { status = status; updated_at = now; version = t.version + 1 }

unfoldable pub unblock_task : ClusterStore → String → ℕ → ClusterStore × Bool
unblock_task d task_id now =
    update_tasks d (λ t. t.id == task_id && is_blocked t.status) (moved_to TaskStatus.pending now)

unfoldable pub unblock_to_ready : ClusterStore → String → ℕ → ClusterStore × Bool
unblock_to_ready d task_id now =
    update_tasks d (λ t. t.id == task_id && is_blocked t.status) (moved_to TaskStatus.ready now)

unfoldable pub set_task_ballot : ClusterStore → String → Option Ballot → ℕ → ClusterStore × Bool
set_task_ballot d task_id ballot now =
    update_tasks d (λ t. t.id == task_id)
      (λ t. record t { ballot = ballot; updated_at = now; version = t.version + 1 })

unfoldable pub set_task_cancel_requeue : ClusterStore → String → Bool → ℕ → ClusterStore × Bool
set_task_cancel_requeue d task_id requeue now =
    update_tasks d (λ t. t.id == task_id)
      (λ t. record t { cancel_requeue = some requeue; updated_at = now; version = t.version + 1 })

-- `COALESCE(?, fail_reason)` of `reason or None`
abbrev reason_or : String → Option String → Option String
reason_or reason old = if is_empty reason then old else some reason

unfoldable pub requeue_task : ClusterStore → String → String → ℕ → ClusterStore × Bool
requeue_task d task_id reason now =
    let freed : ClusterStore = record d {
      leases = update_where (λ l. l.task_id == task_id && is_live_row now l) revoked d.leases;
    } in
    update_tasks freed
      (λ t. t.id == task_id && not (is_terminal t.status) && ltb t.attempts d.task_retry_limit)
      (λ t. record t {
        status = TaskStatus.ready;
        assigned_to = none;
        updated_at = now;
        version = t.version + 1;
        attempts = t.attempts + 1;
        fail_reason = reason_or reason t.fail_reason;
      })

unfoldable pub set_dependencies : ClusterStore → String → List String → ℕ → ClusterStore × Bool
set_dependencies d task_id depends_on now =
    let (d', done) =
      update_tasks d (λ t. t.id == task_id)
        (λ t. record t { depends_on = depends_on; updated_at = now; version = t.version + 1 }) in
    elim depends_on [
      | [] ↦ (d', done)
      | _ ∷ _ ↦ (
        (update_tasks d' (λ t. t.id == task_id && is_ready t.status)
            (λ t. record t { status = TaskStatus.pending })).0,
        done,
      )
    ]

unfoldable pub get_dependents : ClusterStore → String → List String
get_dependents d task_id = map task_key (keep (λ t. member task_id t.depends_on) d.tasks)
