-- ===== src/Store/Nodes.antt =====
-- The node methods of `ClusterStore` (hermes_cluster/state/cluster_store.py).
use hermes_agent_cluster.Prelude.{
  ℕ, String, Bool, false, Option, none, some, List, [], ◌∷◌, ◌++◌, ◌==◌, count, length, is_empty,
  if◌then◌else◌,
}
use hermes_agent_cluster.Table.{has}
use hermes_agent_cluster.Models.{Node, NodeStatus, node_key, is_online}
use hermes_agent_cluster.State.Nodes.{Beat}
use hermes_agent_cluster.Store.{ClusterStore, update_where}

-- The row that the INSERT makes: `drained` has its default.
abbrev pub inserted_node : Node → Node
inserted_node node = record node { drained = false }

-- The SET list of ON CONFLICT.
abbrev pub excluded_node : Node → Node → Node
excluded_node node old = record old {
  name = node.name;
  capabilities = node.capabilities;
  status = node.status;
  last_heartbeat = node.last_heartbeat;
  load = node.load;
  max_concurrent = node.max_concurrent;
  disk_free_gb = node.disk_free_gb;
  status_reason = node.status_reason;
  instance_token = node.instance_token;
  cpu_load_pct = node.cpu_load_pct;
  lane_count = node.lane_count;
  duplicate_executor = node.duplicate_executor;
}

unfoldable pub register_node : ClusterStore → Node → ClusterStore
register_node d node = record d {
  nodes =
      if has node_key node.id d.nodes
      then update_where (λ n. n.id == node.id) (excluded_node node) d.nodes
      else d.nodes ++ inserted_node node ∷ [];
}

-- `UPDATE nodes SET f WHERE id = ?`
unfoldable pub update_node : ClusterStore → String → (Node → Node) → ClusterStore
update_node d node_id f = record d { nodes = update_where (λ n. n.id == node_id) f d.nodes }

-- An optional column of the SET list.
abbrev pub set_given {ℓ} : {A : Type ℓ} → Option A → Option A → Option A
set_given none old = old
set_given (some new) old = some new

abbrev pub beat_row : Beat → ℕ → Node → Node
beat_row beat now n = record n {
  last_heartbeat = now;
  status = if is_empty beat.status_reason then NodeStatus.online else NodeStatus.degraded;
  load = beat.load;
  status_reason = beat.status_reason;
  disk_free_gb = set_given beat.disk_free_gb n.disk_free_gb;
  cpu_load_pct = set_given beat.cpu_load_pct n.cpu_load_pct;
  lane_count = set_given beat.lane_count n.lane_count;
  duplicate_executor = set_given beat.duplicate_executor n.duplicate_executor;
}

unfoldable pub update_heartbeat : ClusterStore → String → Beat → ℕ → ClusterStore
update_heartbeat d node_id beat now = update_node d node_id (beat_row beat now)

unfoldable pub update_capabilities : ClusterStore → String → List String → ClusterStore
update_capabilities d node_id caps = update_node d node_id (λ n. record n { capabilities = caps })

unfoldable pub set_drained : ClusterStore → String → Bool → ClusterStore
set_drained d node_id drained = update_node d node_id (λ n. record n { drained = drained })

-- A negative ceiling, which the code raises to 0, is not modelled: the argument is a natural number.
unfoldable pub update_max_concurrent : ClusterStore → String → ℕ → ClusterStore
update_max_concurrent d node_id max_concurrent =
    update_node d node_id (λ n. record n { max_concurrent = max_concurrent })

unfoldable pub update_instance_token : ClusterStore → String → String → ClusterStore
update_instance_token d node_id instance_token =
    update_node d node_id (λ n. record n { instance_token = instance_token })

unfoldable pub set_node_status : ClusterStore → String → NodeStatus → String → ClusterStore
set_node_status d node_id status reason =
    update_node d node_id
      (λ n. record n { status = status; status_reason = if is_online status then "" else reason })

unfoldable pub node_count : ClusterStore → ℕ
node_count d = length d.nodes

unfoldable pub online_count : ClusterStore → ℕ
online_count d = count (λ n. is_online n.status) d.nodes
