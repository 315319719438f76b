-- ===== src/State/Schedule.antt =====
-- `schedule_pending_detailed` of `ClusterState` (hermes_cluster/state/__init__.py).
pub mod Rule
pub mod Safety
pub mod ActiveLanes
pub mod Kept
pub mod Leased
use hermes_agent_cluster.Prelude.{
  ℕ, ◌+◌, String, Bool, true, false, not, ◌&&◌, ◌||◌, Option, none, some, List, [], ◌∷◌, ltb, leb,
  length, if◌then◌else◌, is_empty, keep, member, sorted,
}
use hermes_agent_cluster.Table.{get, put}
use hermes_agent_cluster.Models.{
  Node, Task, TaskStatus, task_key, is_online, is_active, is_ready, scheduler_assigned_ttl,
}
use hermes_agent_cluster.Scheduler.{Counts, count_key, get_count, mark_picked}
use hermes_agent_cluster.Scheduler.Lanes.{lane_blocked_ready_ids}
use hermes_agent_cluster.Affinity.{choose_pinned}
use hermes_agent_cluster.State.{ClusterState, Lane, lane_record_key}
use hermes_agent_cluster.State.Leases.{create_lease, active_leased_task_ids}
use hermes_agent_cluster.State.Log.{record_decision}

-- An entry of `new_assignments`.
pub record Assignment : Type 0 where
  pub task_id : String
  pub task_title : String
  pub node_id : String
  pub priority : ℕ

-- `counts[k] = counts.get(k, 0) + 1`
unfoldable pub add_one : String → Counts → Counts
add_one k counts = put count_key (k, get_count k counts + 1) counts

-- `t.status in ACTIVE_TASK_STATUSES and t.assigned_to`: the node whose slot the task occupies.
unfoldable pub occupies : Task → Option String
occupies t = elim t.assigned_to [
  | none ↦ none
  | some node_id ↦ if is_active t.status && not (is_empty node_id) then some node_id else none
]

unfoldable pub active_counts : List Task → Counts → Counts
active_counts [] counts = counts
active_counts (t ∷ tasks) counts =
    active_counts tasks
      (elim (occupies t) [ none ↦ counts | some node_id ↦ add_one node_id counts ])

-- The sort key `(priority, -created_at)`.
abbrev pub serves_before : Task → Task → Bool
serves_before a b =
    ltb a.priority b.priority || (leb a.priority b.priority && leb b.created_at a.created_at)

unfoldable pub is_schedulable : List String → List String → Task → Bool
is_schedulable leased lane_blocked t =
    is_ready t.status && not (member t.id leased) && not (member t.id lane_blocked)

unfoldable pub ready_tasks : ClusterState → ℕ → List Task
ready_tasks s now =
    sorted serves_before (
      keep (is_schedulable (active_leased_task_ids s now) (lane_blocked_ready_ids s.tasks)) s.tasks)

-- `lane_nodes.get(task.lane_key, "") if task.lane_key else ""`
unfoldable pub pinned_node : List Lane → Task → String
pinned_node lanes t =
    if is_empty t.lane_key
    then ""
    else elim (get lane_record_key t.lane_key lanes) [ none ↦ "" | some lane ↦ lane.node ]

unfoldable pub online_nodes : ClusterState → List Node
online_nodes s = keep (λ n. is_online n.status) s.nodes

abbrev pub started : Node → ℕ → Task → Task
started node now t = record t {
  status = TaskStatus.running;
  assigned_to = some node.id;
  updated_at = now;
  version = t.version + 1;
}

abbrev pub assignment : Node → Task → Assignment
assignment node t = record {
  task_id = t.id;
  task_title = t.title;
  node_id = node.id;
  priority = t.priority;
}

-- The task and the planner after an assignment.
abbrev pub start_task : ClusterState → Task → Node → ℕ → ClusterState
start_task s t node now = record s {
  tasks = put task_key (started node now t) s.tasks;
  fair_scheduler = mark_picked s.fair_scheduler node.id;
}

module _ (token : ℕ → String) (now : ℕ) where
  unfoldable pub assign : ClusterState → Task → Node → Bool → ClusterState
  assign s t node pinned =
      record_decision
        (create_lease token (start_task s t node now) t.id node.id scheduler_assigned_ttl now).0
        (record {
          task_id = t.id;
          task_title = t.title;
          priority = t.priority;
          node_id = node.id;
          score = 1000;
          reason = if pinned then "lane_affinity_pinned" else "least_loaded_capability_match";
          timestamp = now;
        })

  module _ (online : List Node) where
    -- The `for` loop: the new state, and the assignments in order.
    unfoldable pub schedule_loop :
        List Task → Counts → ClusterState → ClusterState × List Assignment
    schedule_loop [] counts s = (s, [])
    schedule_loop (t ∷ tasks) counts s =
        let (choice, pinned) =
          choose_pinned s.fair_scheduler t.requires counts (pinned_node s.lanes t) online in
        elim choice [
          | none ↦ schedule_loop tasks counts s
          | some node ↦
              let (s', made) =
                schedule_loop tasks (add_one node.id counts) (assign s t node pinned) in
              (s', assignment node t ∷ made)
        ]

  -- `if not online_nodes: return` stands above the loop.
  unfoldable pub schedule_on : List Node → ClusterState → ClusterState × List Assignment
  schedule_on [] s = (s, [])
  schedule_on (node ∷ nodes) s =
      schedule_loop (node ∷ nodes) (ready_tasks s now) (active_counts s.tasks []) s

  unfoldable pub schedule_pending_detailed : ClusterState → ClusterState × List Assignment
  schedule_pending_detailed s = schedule_on (online_nodes s) s

  unfoldable pub schedule_pending : ClusterState → ClusterState × ℕ
  schedule_pending s = let (s', made) = schedule_pending_detailed s in (s', length made)
