-- ===== src/State/Sync.antt =====
-- The sync methods of `ClusterState` (hermes_cluster/state/__init__.py).
pub mod Monotone
pub mod Replay
use hermes_agent_cluster.Prelude.{
  ℕ, ◌+◌, String, Bool, true, false, Option, none, some, List, [], ◌∷◌, leb, ltb, if◌then◌else◌,
  is_empty, or_else,
}
use hermes_agent_cluster.Table.{get, put}
use hermes_agent_cluster.Models.{Task, TaskStatus, TaskSync, SyncMessage, task_key}
use hermes_agent_cluster.State.{ClusterState}
use hermes_agent_cluster.State.Tasks.{store_task, set_task_status, edit_task}
use text.Mathlib.Text.{◌==◌}

-- `TaskStatus(text) if text in valid_statuses`: none for a text that is no status.
unfoldable pub parse_status : String → Option TaskStatus
parse_status text =
    if text == "pending"
    then some TaskStatus.pending
    else if text == "ready"
    then some TaskStatus.ready
    else if text == "assigned"
    then some TaskStatus.assigned
    else if text == "running"
    then some TaskStatus.running
    else if text == "completed"
    then some TaskStatus.completed
    else if text == "failed"
    then some TaskStatus.failed
    else if text == "blocked"
    then some TaskStatus.blocked
    else if text == "cancel_requested"
    then some TaskStatus.cancel_requested
    else if text == "cancelled"
    then some TaskStatus.cancelled
    else none

-- The task that a message makes of an unknown id; the other fields have their defaults.
abbrev pub synced_task : TaskSync → ℕ → Task
synced_task state now = record {
  id = state.task_id;
  title = state.title;
  requires = [];
  depends_on = [];
  priority = 3;
  status = or_else (parse_status state.status) TaskStatus.pending;
  assigned_to = state.assigned_to;
  created_at = now;
  updated_at = now;
  version = state.version;
  fail_reason = none;
  description = "";
  attempts = 0;
  lane_key = "";
  role = "author";
  result = none;
  issues = [];
  ballot = none;
  cancel_requeue = none;
}

-- `if assigned_to: t.assigned_to = assigned_to`
abbrev pub new_assignee : Option String → Option String → Option String
new_assignee none old = old
new_assignee (some node_id) old = if is_empty node_id then old else some node_id

-- What follows an accepted status.
abbrev pub adopt : TaskSync → Task → Task
adopt state t = record t {
  assigned_to = new_assignee state.assigned_to t.assigned_to;
  version = if ltb t.version state.version then state.version else t.version;
}

unfoldable pub apply_status : ClusterState → TaskSync → TaskStatus → ℕ → ClusterState
apply_status s state status now =
    let (s', accepted) = set_task_status s state.task_id status "" now in
    if accepted then (edit_task s' state.task_id (λ t. some (adopt state t))).0 else s'

unfoldable pub apply_task_state : ClusterState → TaskSync → ℕ → ClusterState
apply_task_state s state now = elim (get task_key state.task_id s.tasks) [
  | none ↦ store_task (synced_task state now) s
  | some task ↦ if leb state.version task.version then s else elim (parse_status state.status) [
    | none ↦ s
    | some status ↦ apply_status s state status now
  ]
]

abbrev pub apply_payload : ClusterState → Option TaskSync → ℕ → ClusterState
apply_payload s none now = s
apply_payload s (some state) now = apply_task_state s state now

unfoldable pub handle_sync_message : ClusterState → SyncMessage → ℕ → ClusterState × Bool
handle_sync_message s msg now =
    if leb msg.version s.sync_version
    then (s, false)
    else (apply_payload (record s { sync_version = msg.version }) msg.task_state now, true)

unfoldable pub handle_batch_sync : ClusterState → List SyncMessage → ℕ → ClusterState × ℕ
handle_batch_sync s [] now = (s, 0)
handle_batch_sync s (msg ∷ messages) now =
    let (s', applied) = handle_sync_message s msg now in
    let (s'', n) = handle_batch_sync s' messages now in (s'', if applied then n + 1 else n)
