-- ===== src/Scheduler/Lanes.antt =====
-- The lane guard of hermes_cluster/core/scheduler.py (`lane_blocked_ready_ids`), and the report of
-- running tasks without a lease (`unleased_running_rows`). A Python set of ids is a list of them.
pub mod Exclusion
use hermes_agent_cluster.Prelude.{
  ℕ, String, Bool, true, false, not, ◌&&◌, ◌||◌, Option, none, some, List, [], ◌∷◌, ◌++◌, map, ltb,
  leb, if◌then◌else◌, keep, member, is_empty, sorted, tail, or_else, ◌-◌,
}
use hermes_agent_cluster.Table.{get, put}
use hermes_agent_cluster.Models.{Task, TaskStatus, is_active, is_ready, is_running}

-- The tuple `(priority, created_at, id)` of a ready task.
pub record LaneEntry : Type 0 where
  pub priority : ℕ
  pub created_at : ℕ
  pub task_id : String

-- An item of the dict `by_lane`.
pub record LaneGroup : Type 0 where
  pub lane : String
  pub entries : List LaneEntry

abbrev pub group_key : LaneGroup → String
group_key g = g.lane

abbrev pub lane_entry : Task → LaneEntry
lane_entry t = record { priority = t.priority; created_at = t.created_at; task_id = t.id }

abbrev pub entry_id : LaneEntry → String
entry_id e = e.task_id

-- The sort key `(priority, created_at)`.
abbrev pub entry_le : LaneEntry → LaneEntry → Bool
entry_le a b =
    ltb a.priority b.priority || (leb a.priority b.priority && leb a.created_at b.created_at)

-- `lane and status == ready`, `lane and status in ACTIVE_TASK_STATUSES`
abbrev pub waits_on_lane : Task → Bool
waits_on_lane t = not (is_empty t.lane_key) && is_ready t.status

abbrev pub holds_lane : Task → Bool
holds_lane t = not (is_empty t.lane_key) && is_active t.status

abbrev pub lane_of : Task → String
lane_of t = t.lane_key

unfoldable pub active_lanes : List Task → List String
active_lanes tasks = map lane_of (keep holds_lane tasks)

-- `by_lane.setdefault(lane, []).append(entry)`
abbrev pub entries_of : Option LaneGroup → List LaneEntry
entries_of none = []
entries_of (some g) = g.entries

unfoldable pub add_entry : Task → List LaneGroup → List LaneGroup
add_entry t groups =
    put group_key
      (record {
        lane = t.lane_key;
        entries = entries_of (get group_key t.lane_key groups) ++ lane_entry t ∷ [];
      })
      groups

unfoldable pub by_lane : List Task → List LaneGroup → List LaneGroup
by_lane [] groups = groups
by_lane (t ∷ tasks) groups = by_lane tasks (if waits_on_lane t then add_entry t groups else groups)

-- Of a lane with an active task every ready task is blocked, of any other all but the first.
unfoldable pub blocked_of : List String → LaneGroup → List String
blocked_of active g =
    if member g.lane active
    then map entry_id g.entries
    else map entry_id (tail (sorted entry_le g.entries))

unfoldable pub blocked_ids : List String → List LaneGroup → List String
blocked_ids active [] = []
blocked_ids active (g ∷ groups) = blocked_of active g ++ blocked_ids active groups

unfoldable pub lane_blocked_ready_ids : List Task → List String
lane_blocked_ready_ids tasks = blocked_ids (active_lanes tasks) (by_lane tasks [])

-- A row of `unleased_running_rows`. Ages are in whole seconds in the code, in microseconds here.
pub record UnleasedRow : Type 0 where
  pub task_id : String
  pub assigned_to : String
  pub age : ℕ
  pub since_update : ℕ

unfoldable pub unleased_running_rows : List Task → List String → ℕ → List UnleasedRow
unleased_running_rows tasks leased now =
    map
      (λ t. record {
        task_id = t.id;
        assigned_to = or_else t.assigned_to "";
        age = now - t.created_at;
        since_update = now - t.updated_at;
      })
      (keep (λ t. is_running t.status && not (member t.id leased)) tasks)
