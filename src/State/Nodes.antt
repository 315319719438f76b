-- ===== src/State/Nodes.antt =====
-- The node methods of `ClusterState` (hermes_cluster/state/__init__.py). The callbacks that two of
-- them run are no part of the state; an exception of theirs is dropped.
pub mod Drain
use hermes_agent_cluster.Prelude.{
  ℕ, String, Bool, true, false, Option, none, some, List, [], ◌∷◌, count, length, is_empty,
  if◌then◌else◌,
}
use hermes_agent_cluster.Table.{get, put}
use hermes_agent_cluster.Models.{Node, NodeStatus, node_key, is_online}
use hermes_agent_cluster.State.{ClusterState}

abbrev pub drained_or : Bool → Option Node → Bool
drained_or drained none = drained
drained_or drained (some existing) = if existing.drained then true else drained

-- The drain of a node that is already there outlives the new record.
unfoldable pub register_node : ClusterState → Node → ClusterState
register_node s node = record s {
  nodes =
      put node_key
        (record node { drained = drained_or node.drained (get node_key node.id s.nodes) }) s.nodes;
}

-- The methods that write the fields of a stored node.
unfoldable pub edit_node : ClusterState → String → (Node → Node) → ClusterState
edit_node s node_id f = elim (get node_key node_id s.nodes) [
  | none ↦ s
  | some node ↦ record s { nodes = put node_key (f node) s.nodes }
]

-- The arguments of `update_heartbeat`.
pub record Beat : Type 0 where
  pub load : ℕ
  pub disk_free_gb : Option ℕ
  pub status_reason : String
  pub cpu_load_pct : Option ℕ
  pub lane_count : Option ℕ
  pub duplicate_executor : Option Bool

-- `new if new is not None else old`
abbrev pub newer {ℓ} : {A : Type ℓ} → Option A → Option A → Option A
newer none old = old
newer (some new) old = some new

abbrev pub beat_node : Beat → ℕ → Node → Node
beat_node beat now n = record n {
  last_heartbeat = now;
  status = if is_empty beat.status_reason then NodeStatus.online else NodeStatus.degraded;
  status_reason = beat.status_reason;
  disk_free_gb = newer beat.disk_free_gb n.disk_free_gb;
  cpu_load_pct = newer beat.cpu_load_pct n.cpu_load_pct;
  lane_count = newer beat.lane_count n.lane_count;
  duplicate_executor = newer beat.duplicate_executor n.duplicate_executor;
  load = beat.load;
}

unfoldable pub update_heartbeat : ClusterState → String → Beat → ℕ → ClusterState
update_heartbeat s node_id beat now = edit_node s node_id (beat_node beat now)

unfoldable pub update_capabilities : ClusterState → String → List String → ClusterState
update_capabilities s node_id caps = edit_node s node_id (λ n. record n { capabilities = caps })

unfoldable pub set_drained : ClusterState → String → Bool → ClusterState
set_drained s node_id drained = edit_node s node_id (λ n. record n { drained = drained })

-- A negative ceiling, which the code raises to 0, is not modelled: the argument is a natural number.
unfoldable pub update_max_concurrent : ClusterState → String → ℕ → ClusterState
update_max_concurrent s node_id max_concurrent =
    edit_node s node_id (λ n. record n { max_concurrent = max_concurrent })

unfoldable pub update_instance_token : ClusterState → String → String → ClusterState
update_instance_token s node_id instance_token =
    edit_node s node_id (λ n. record n { instance_token = instance_token })

abbrev pub status_node : NodeStatus → String → Node → Node
status_node status reason n = record n {
  status = status;
  status_reason = if is_online status then "" else reason;
}

unfoldable pub set_node_status : ClusterState → String → NodeStatus → String → ClusterState
set_node_status s node_id status reason = edit_node s node_id (status_node status reason)

unfoldable pub node_count : ClusterState → ℕ
node_count s = length s.nodes

unfoldable pub online_count : ClusterState → ℕ
online_count s = count (λ n. is_online n.status) s.nodes
