-- ===== src/State/Sessions.antt =====
-- The agent executor's records in `ClusterState` (hermes_cluster/state/__init__.py): the spawn of a
-- task, and the stateful lanes.
pub mod Created
use hermes_agent_cluster.Prelude.{
  ℕ, String, Bool, true, false, Option, none, some, List, [], ◌∷◌, is_empty, if◌then◌else◌, is_some,
  or_else,
}
use hermes_agent_cluster.Table.{get, put, remove}
use hermes_agent_cluster.State.{ClusterState, Spawn, Lane, spawn_key, lane_record_key}

unfoldable pub record_task_spawn : ClusterState → Spawn → ClusterState
record_task_spawn s spawn = record s { task_spawns = put spawn_key spawn s.task_spawns }

unfoldable pub get_task_spawn : ClusterState → String → Option Spawn
get_task_spawn s task_id = get spawn_key task_id s.task_spawns

unfoldable pub delete_task_spawn : ClusterState → String → ClusterState × Bool
delete_task_spawn s task_id = (
  record s { task_spawns = remove spawn_key task_id s.task_spawns },
  is_some (get spawn_key task_id s.task_spawns),
)

-- The arguments of `record_lane`.
pub record LaneEdit : Type 0 where
  pub lane_key : String
  pub session_id : String
  pub profile : String
  pub role : String
  pub node : String
  pub created_at : Option ℕ
  pub last_active_at : Option ℕ
  pub last_task_id : String

abbrev pub effective_created : Option Lane → Option ℕ → ℕ → ℕ
effective_created none created_at now = or_else created_at now
effective_created (some existing) created_at now = existing.created_at

unfoldable pub record_lane : ClusterState → LaneEdit → ℕ → ClusterState
record_lane s edit now = record s {
  lanes =
      put lane_record_key
        (record {
          lane_key = edit.lane_key;
          session_id = edit.session_id;
          profile = edit.profile;
          role = edit.role;
          node = edit.node;
          created_at =
              effective_created (get lane_record_key edit.lane_key s.lanes) edit.created_at now;
          last_active_at = or_else edit.last_active_at now;
          last_task_id = edit.last_task_id;
        })
        s.lanes;
}

unfoldable pub get_lane : ClusterState → String → Option Lane
get_lane s lane_key = get lane_record_key lane_key s.lanes

unfoldable pub touch_lane_last_task : ClusterState → String → String → ClusterState
touch_lane_last_task s lane_key task_id =
    if is_empty lane_key then s else elim (get lane_record_key lane_key s.lanes) [
      | none ↦ s
      | some lane ↦ record s {
        lanes = put lane_record_key (record lane { last_task_id = task_id }) s.lanes;
      }
    ]

unfoldable pub delete_lane : ClusterState → String → ClusterState × Bool
delete_lane s lane_key = (
  record s { lanes = remove lane_record_key lane_key s.lanes },
  is_some (get lane_record_key lane_key s.lanes),
)
