-- ===== src/Models.antt =====
-- hermes_cluster/models/__init__.py: the enums, and the records of nodes, tasks, leases, sync
-- messages, recovery events and scheduling decisions. Times are numbers of microseconds. Measured
-- floats (load, free disk, CPU fraction, score) are numbers of thousandths.
use hermes_agent_cluster.Prelude.{ℕ, ◌*◌, String, Bool, true, false, Option, List}
use hermes_agent_cluster.Ballot.{Ballot}

pub data NodeStatus : Type 0 where
  online degraded offline : NodeStatus

pub data TaskStatus : Type 0 where
  pending ready assigned running completed failed blocked cancel_requested cancelled : TaskStatus

pub data LeaseStatus : Type 0 where
  active expired revoked : LeaseStatus

pub data EventType : Type 0 where
  task_created task_assigned task_completed task_failed node_offline : EventType
  task_cancel_requested task_cancelled : EventType

pub data SyncEventType : Type 0 where
  task_created task_assigned task_completed task_failed : SyncEventType
  task_cancel_requested task_cancelled : SyncEventType

pub record Node : Type 0 where
  pub id : String
  pub name : String
  pub capabilities : List String
  pub status : NodeStatus
  pub last_heartbeat : ℕ
  pub load : ℕ
  pub max_concurrent : ℕ
  pub drained : Bool
  pub disk_free_gb : Option ℕ
  pub status_reason : String
  pub instance_token : String
  pub cpu_load_pct : Option ℕ
  pub lane_count : Option ℕ
  pub duplicate_executor : Option Bool

pub record Task : Type 0 where
  pub id : String
  pub title : String
  pub requires : List String
  pub depends_on : List String
  pub priority : ℕ
  pub status : TaskStatus
  pub assigned_to : Option String
  pub created_at : ℕ
  pub updated_at : ℕ
  pub version : ℕ
  pub fail_reason : Option String
  pub description : String
  pub attempts : ℕ
  pub lane_key : String
  pub role : String
  pub result : Option String
  pub issues : List String
  pub ballot : Option Ballot
  pub cancel_requeue : Option Bool

pub record Lease : Type 0 where
  pub id : String
  pub task_id : String
  pub node_id : String
  pub created_at : ℕ
  pub expires_at : ℕ
  pub status : LeaseStatus

-- `status` is the text that travelled; `parse_status` of State/Sync reads it.
pub record TaskSync : Type 0 where
  pub task_id : String
  pub title : String
  pub status : String
  pub assigned_to : Option String
  pub version : ℕ

pub record SyncMessage : Type 0 where
  pub version : ℕ
  pub sender_node : String
  pub task_state : Option TaskSync
  pub event_type : SyncEventType
  pub timestamp : ℕ

pub record RecoveryEvent : Type 0 where
  pub id : String
  pub task_id : String
  pub node_id : String
  pub action : String
  pub status : String
  pub message : Option String
  pub timestamp : ℕ

pub record SchedulingDecision : Type 0 where
  pub task_id : String
  pub task_title : String
  pub priority : ℕ
  pub node_id : String
  pub score : ℕ
  pub reason : String
  pub timestamp : ℕ

-- The tests `t.status == TaskStatus.s` that the code makes.
abbrev pub is_pending : TaskStatus → Bool
is_pending pending = true
is_pending _ = false

abbrev pub is_ready : TaskStatus → Bool
is_ready ready = true
is_ready _ = false

abbrev pub is_running : TaskStatus → Bool
is_running running = true
is_running _ = false

abbrev pub is_completed : TaskStatus → Bool
is_completed completed = true
is_completed _ = false

abbrev pub is_failed : TaskStatus → Bool
is_failed failed = true
is_failed _ = false

abbrev pub is_blocked : TaskStatus → Bool
is_blocked blocked = true
is_blocked _ = false

abbrev pub is_cancel_requested : TaskStatus → Bool
is_cancel_requested cancel_requested = true
is_cancel_requested _ = false

abbrev pub is_cancelled : TaskStatus → Bool
is_cancelled cancelled = true
is_cancelled _ = false

abbrev pub is_online : NodeStatus → Bool
is_online online = true
is_online _ = false

abbrev pub is_active_lease : LeaseStatus → Bool
is_active_lease active = true
is_active_lease _ = false

abbrev pub is_expired_lease : LeaseStatus → Bool
is_expired_lease expired = true
is_expired_lease _ = false

-- `ACTIVE_TASK_STATUSES` of core/scheduler.py: the states that occupy a slot of a node.
abbrev pub is_active : TaskStatus → Bool
is_active running = true
is_active assigned = true
is_active _ = false

-- `TERMINAL_TASK_STATUSES` of core/scheduler.py
abbrev pub is_terminal : TaskStatus → Bool
is_terminal completed = true
is_terminal failed = true
is_terminal cancelled = true
is_terminal cancel_requested = true
is_terminal _ = false

-- `LeaseConfig().ttl`, sixty seconds
abbrev pub scheduler_assigned_ttl : ℕ
scheduler_assigned_ttl = 60 * 1000000

-- Keys of the tables.
abbrev pub node_key : Node → String
node_key n = n.id

abbrev pub task_key : Task → String
task_key t = t.id

abbrev pub lease_key : Lease → String
lease_key l = l.id

pub data FederationClusterStatus : Type 0 where
  available unavailable : FederationClusterStatus

pub record RemoteCluster : Type 0 where
  pub id : String
  pub name : String
  pub endpoint : String
  pub status : FederationClusterStatus
  pub registered_at : ℕ
  pub last_ping : ℕ
  pub ping_latency : ℕ

pub record Hook : Type 0 where
  pub id : String
  pub url : String
  pub events : List EventType
  pub secret : Option String
  pub active : Bool
  pub created_at : ℕ
  pub updated_at : ℕ

pub data DeliveryStatus : Type 0 where
  delivered failed pending retrying : DeliveryStatus

-- The payload, which the code never reads, is its JSON text.
pub record Delivery : Type 0 where
  pub id : String
  pub hook_id : String
  pub event_type : String
  pub url : String
  pub payload : String
  pub status : DeliveryStatus
  pub status_code : ℕ
  pub error : String
  pub attempts : ℕ
  pub max_attempts : ℕ
  pub created_at : ℕ
  pub updated_at : ℕ

abbrev pub cluster_key : RemoteCluster → String
cluster_key c = c.id

abbrev pub hook_key : Hook → String
hook_key h = h.id
