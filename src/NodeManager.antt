-- ===== src/NodeManager.antt =====
-- hermes_cluster/core/node_manager.py: `NodeManager` over the SQLite store: joining, leaving and
-- heartbeats. The listeners, the timeline (which the store drops) and the sender's thread are no
-- part of the state. A load is a number of thousandths.
pub mod Tokens
use hermes_agent_cluster.Prelude.{
  ℕ, ◌-◌, String, Bool, true, false, not, ◌&&◌, Option, none, some, List, [], ◌∷◌, ◌==◌, ltb, leb,
  min, if◌then◌else◌, is_empty, keep, concat,
}
use hermes_agent_cluster.Table.{get, put, remove}
use hermes_agent_cluster.Models.{Node, NodeStatus, node_key, is_online}
use hermes_agent_cluster.Health.{disk_reason, health_reason}
use hermes_agent_cluster.Store.{ClusterStore}
use hermes_agent_cluster.Store.Nodes.{
  register_node, update_heartbeat, update_capabilities, update_max_concurrent,
  update_instance_token, set_node_status,
}

pub record NodeManager : Type 0 where
  pub store : ClusterStore
  pub offline_after : ℕ
  pub min_free_disk_gb : ℕ
  pub max_cpu_load : ℕ
  pub cap_cache : List (String × List String)

abbrev pub cache_key : String × List String → String
cache_key entry = entry.0

-- What a worker reports of itself.
pub record Report : Type 0 where
  pub disk_free_gb : Option ℕ
  pub cpu_load_pct : Option ℕ
  pub lane_count : Option ℕ
  pub duplicate_executor : Option Bool

-- The arguments of `join`.
pub record Join : Type 0 where
  pub node_id : String
  pub name : String
  pub capabilities : List String
  pub load : ℕ
  pub max_concurrent : ℕ
  pub instance_token : String
  pub report : Report

-- The node, or the exceptions: a ValueError, and DuplicateInstanceJoin with both tokens.
pub data Joined : Type 0 where
  joined : Option Node → Joined
  node_id_required : Joined
  duplicate_instance : String → String → Joined

-- `f"{reason}; {h_reason}" if reason else h_reason`, if `h_reason`
abbrev pub both_reasons : String → String → String
both_reasons reason h_reason =
    if is_empty h_reason
    then reason
    else if is_empty reason
    then h_reason
    else concat reason (concat "; " h_reason)

module _ (fixed : ℕ → ℕ → String) (decimal seconds : ℕ → String) where
  unfoldable pub report_reason : NodeManager → ℕ → Report → String
  report_reason m max_concurrent report =
      both_reasons (disk_reason fixed decimal seconds report.disk_free_gb m.min_free_disk_gb) (
        health_reason fixed decimal seconds report.cpu_load_pct m.max_cpu_load report.lane_count
          max_concurrent report.duplicate_executor)

  unfoldable pub send_heartbeat : NodeManager → String → ℕ → Report → ℕ → NodeManager
  send_heartbeat m node_id load report now = elim (get node_key node_id m.store.nodes) [
    | none ↦ m
    | some node ↦ record m {
      store =
          update_heartbeat m.store node_id
            (record {
              load = min 1000 load;
              disk_free_gb = report.disk_free_gb;
              status_reason = report_reason m node.max_concurrent report;
              cpu_load_pct = report.cpu_load_pct;
              lane_count = report.lane_count;
              duplicate_executor = report.duplicate_executor;
            })
            now;
    }
  ]

  -- `if caps:`, `if max_concurrent:` and `if instance_token:` of a re-join.
  abbrev pub declare_caps : String → List String → ClusterStore → ClusterStore
  declare_caps node_id [] d = d
  declare_caps node_id (cap ∷ caps) d = update_capabilities d node_id (cap ∷ caps)

  abbrev pub declare_max : String → ℕ → ClusterStore → ClusterStore
  declare_max node_id n d = if leb n 0 then d else update_max_concurrent d node_id n

  abbrev pub declare_token : String → String → ClusterStore → ClusterStore
  declare_token node_id text d = if is_empty text then d else update_instance_token d node_id text

  unfoldable pub rejoin : NodeManager → Join → ℕ → NodeManager
  rejoin m j now =
      let beaten : NodeManager = send_heartbeat m j.node_id 0 j.report now in
      record beaten {
        store = declare_token j.node_id j.instance_token (
            declare_max j.node_id j.max_concurrent
              (declare_caps j.node_id j.capabilities beaten.store));
      }

  abbrev pub status_for : String → NodeStatus
  status_for reason = if is_empty reason then NodeStatus.online else NodeStatus.degraded

  unfoldable pub new_node : NodeManager → Join → ℕ → Node
  new_node m j now =
      let reason = report_reason m j.max_concurrent j.report in
      record {
        id = j.node_id;
        name = if is_empty j.name then j.node_id else j.name;
        capabilities = j.capabilities;
        status = status_for reason;
        last_heartbeat = now;
        load = j.load;
        max_concurrent = j.max_concurrent;
        drained = false;
        disk_free_gb = j.report.disk_free_gb;
        status_reason = reason;
        instance_token = j.instance_token;
        cpu_load_pct = j.report.cpu_load_pct;
        lane_count = j.report.lane_count;
        duplicate_executor = j.report.duplicate_executor;
      }

  unfoldable pub first_join : NodeManager → Join → ℕ → NodeManager
  first_join m j now = record m {
    store = register_node m.store (new_node m j now);
    cap_cache = put cache_key (j.node_id, j.capabilities) m.cap_cache;
  }

  -- A second executor on a node id whose holder is still heard of.
  unfoldable pub is_duplicate : NodeManager → Join → ℕ → Node → Bool
  is_duplicate m j now existing =
      not (is_empty j.instance_token)
      && not (is_empty existing.instance_token)
      && not (j.instance_token == existing.instance_token)
      && ltb (now - existing.last_heartbeat) m.offline_after

  unfoldable pub join : NodeManager → Join → ℕ → NodeManager × Joined
  join m j now =
      let again : NodeManager = rejoin m j now in
      if is_empty j.node_id
      then (m, node_id_required)
      else elim (get node_key j.node_id m.store.nodes) [
        | none ↦ (first_join m j now, joined (some (new_node m j now)))
        | some existing ↦
            if is_duplicate m j now existing
            then (m, duplicate_instance existing.instance_token j.instance_token)
            else (again, joined (get node_key j.node_id again.store.nodes))
      ]

unfoldable pub leave : NodeManager → String → NodeManager × Bool
leave m node_id = elim (get node_key node_id m.store.nodes) [
  | none ↦ (m, false)
  | some node ↦ (
    record m {
      store = set_node_status m.store node_id NodeStatus.offline "";
      cap_cache = remove cache_key node_id m.cap_cache;
    },
    true,
  )
]

unfoldable pub online_nodes : NodeManager → List Node
online_nodes m = keep (λ n. is_online n.status) m.store.nodes
