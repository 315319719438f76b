-- ===== src/Store/Schedule.antt =====
-- `trigger_pending_tasks` and `schedule_pending_detailed` of `ClusterStore`
-- (hermes_cluster/state/cluster_store.py). The planner, and the expressions that the method shares
-- word for word with the in-memory one, are those of Scheduler, Affinity and State/Schedule.
use hermes_agent_cluster.Prelude.{
  ℕ, ◌+◌, ◌-◌, String, Bool, true, false, not, ◌&&◌, Option, none, some, List, [], ◌∷◌, ◌++◌, ◌==◌,
  ltb, drop, length, if◌then◌else◌, is_empty, keep, sorted,
}
use hermes_agent_cluster.Table.{get}
use hermes_agent_cluster.Models.{
  Node, Task, TaskStatus, SchedulingDecision, task_key, is_online, is_active, is_ready, is_pending,
  is_completed, scheduler_assigned_ttl,
}
use hermes_agent_cluster.Scheduler.{Counts, mark_picked}
use hermes_agent_cluster.Scheduler.Lanes.{lane_blocked_ready_ids}
use hermes_agent_cluster.Affinity.{choose_pinned}
use hermes_agent_cluster.Landing.{Hold, landing_artifact, hold_reason}
use hermes_agent_cluster.State.Schedule.{
  Assignment, add_one, serves_before, pinned_node, assignment, is_schedulable,
}
use hermes_agent_cluster.Store.{ClusterStore, update_where}
use hermes_agent_cluster.Store.Leases.{create_lease, leased_task_ids}
use hermes_agent_cluster.Store.Tasks.{make_ready}

abbrev pub max_decisions : ℕ
max_decisions = 200

-- The INSERT, and the DELETE of all but the last rows.
unfoldable pub record_decision : ClusterStore → SchedulingDecision → ClusterStore
record_decision d decision =
    let rows = d.decisions ++ decision ∷ [] in
    record d {
      decisions =
          if ltb max_decisions (length rows) then drop (length rows - max_decisions) rows else rows;
    }

-- `SELECT assigned_to ... WHERE status IN (active)`: the texts that are not empty.
unfoldable pub assigned_column : List Task → List String
assigned_column [] = []
assigned_column (t ∷ tasks) =
    let rest = assigned_column tasks in
    if is_active t.status
    then elim t.assigned_to [
      | none ↦ rest
      | some node_id ↦ if is_empty node_id then rest else node_id ∷ rest
    ]
    else rest

-- `COUNT(*) ... GROUP BY`
unfoldable pub group_counts : List String → Counts → Counts
group_counts [] counts = counts
group_counts (k ∷ ks) counts = group_counts ks (add_one k counts)

unfoldable pub ready_rows : ClusterStore → ℕ → List Task
ready_rows d now =
    keep (is_schedulable (leased_task_ids d now) (lane_blocked_ready_ids d.tasks))
      (sorted serves_before (keep (λ t. is_ready t.status) d.tasks))

-- `UPDATE tasks SET status = 'running' ... WHERE id = ?`, and the planner's mark.
unfoldable pub start_row : ClusterStore → Task → Node → ℕ → ClusterStore
start_row d t node now = record d {
  tasks =
      update_where (λ u. u.id == t.id)
        (λ u. record u {
          status = TaskStatus.running;
          assigned_to = some node.id;
          updated_at = now;
          version = u.version + 1;
        })
        d.tasks;
  fair_scheduler = mark_picked d.fair_scheduler node.id;
}

module _ (token : ℕ → String) (now : ℕ) where
  -- `none` is the IntegrityError of the lease's INSERT, which rolls the transaction back.
  unfoldable pub assign : ClusterStore → Task → Node → Bool → Option ClusterStore
  assign d t node pinned =
      elim (create_lease token (start_row d t node now) t.id node.id scheduler_assigned_ttl now) [
        | none ↦ none
        | some (d', lease) ↦ some (
            record_decision d' (record {
              task_id = t.id;
              task_title = t.title;
              priority = t.priority;
              node_id = node.id;
              score = 1000;
              reason = if pinned then "lane_affinity_pinned" else "least_loaded_capability_match";
              timestamp = now;
            }))
      ]

  unfoldable pub schedule_loop :
      List Node → List Task → Counts → ClusterStore → Option (ClusterStore × List Assignment)
  schedule_loop online [] counts d = some (d, [])
  schedule_loop online (t ∷ tasks) counts d =
      let (choice, pinned) =
        choose_pinned d.fair_scheduler t.requires counts (pinned_node d.lanes t) online in
      elim choice [
        | none ↦ schedule_loop online tasks counts d
        | some node ↦ elim (assign d t node pinned) [
          | none ↦ none
          | some d' ↦ elim (schedule_loop online tasks (add_one node.id counts) d') [
            | none ↦ none
            | some (d'', made) ↦ some (d'', assignment node t ∷ made)
          ]
        ]
      ]

  unfoldable pub schedule_on : List Node → ClusterStore → Option (ClusterStore × List Assignment)
  schedule_on [] d = some (d, [])
  schedule_on (node ∷ nodes) d =
      schedule_loop (node ∷ nodes) (ready_rows d now) (group_counts (assigned_column d.tasks) []) d

  unfoldable pub schedule_pending_detailed : ClusterStore → Option (ClusterStore × List Assignment)
  schedule_pending_detailed d = schedule_on (keep (λ n. is_online n.status) d.nodes) d

-- `dep_row is None or dep_row["status"] != completed`, for no dependency
unfoldable pub all_completed : List Task → List String → Bool
all_completed tasks [] = true
all_completed tasks (dep_id ∷ deps) = elim (get task_key dep_id tasks) [
  | none ↦ false
  | some dep ↦ if is_completed dep.status then all_completed tasks deps else false
]

-- `(full["fail_reason"] or "") != reason`
abbrev pub is_new_reason : Option String → String → Bool
is_new_reason none reason = not ("" == reason)
is_new_reason (some old) reason = not (old == reason)

module _ (message : Hold → String) (now : ℕ) where
  -- The gate of a candidate: the reason to hold it.
  unfoldable pub gate : List Task → Task → Option String
  gate tasks candidate = elim (landing_artifact candidate) [
    | none ↦ none
    | some artifact ↦ hold_reason message tasks candidate
  ]

  -- The body of the loop, on a row that was pending with its dependencies `depends`.
  unfoldable pub promote_row : List Task → String → List String → List Task × ℕ
  promote_row tasks task_id depends =
      if not (all_completed tasks depends) then (tasks, 0) else elim (get task_key task_id tasks) [
        | none ↦ (tasks, 1)
        | some full ↦ elim (gate tasks full) [
          | some reason ↦ (
            if is_new_reason full.fail_reason reason
                then update_where (λ t. t.id == task_id && is_pending t.status)
                    (λ t. record t { fail_reason = some reason; updated_at = now }) tasks
                else tasks,
            0,
          )
          | none ↦
              (update_where (λ t. t.id == task_id && is_pending t.status) (make_ready now) tasks, 1)
        ]
      ]

  unfoldable pub promote_rows : List Task → List Task → List Task × ℕ
  promote_rows [] tasks = (tasks, 0)
  promote_rows (row ∷ rows) tasks =
      let (tasks', n) = promote_row tasks row.id row.depends_on in
      let (tasks'', promoted) = promote_rows rows tasks' in (tasks'', n + promoted)

  unfoldable pub trigger_pending_tasks : ClusterStore → ClusterStore × ℕ
  trigger_pending_tasks d =
      let (tasks, promoted) = promote_rows (keep (λ t. is_pending t.status) d.tasks) d.tasks in
      (record d { tasks = tasks }, promoted)
