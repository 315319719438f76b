-- ===== src/Store/Mirror/Nodes.antt =====
-- The node methods of both stores (hermes_cluster/state/cluster_store.py and state/__init__.py) do
-- the same to the nodes.
use hermes_agent_cluster.Prelude.{
  ℕ, ◌≡◌, refl, ap, String, Bool, true, false, some, List, arith, inl, inr, Option-cases,
}
use hermes_agent_cluster.Table.{get, put}
use hermes_agent_cluster.Table.Laws.{IsKeyed, has-get, key-get, count-get-none}
use hermes_agent_cluster.Models.{Node, NodeStatus, node_key}
use hermes_agent_cluster.State.{ClusterState}
use hermes_agent_cluster.State.Nodes.{drained_or, edit_node}
use hermes_agent_cluster.State.Nodes as Memory
use hermes_agent_cluster.Store.Nodes.{excluded_node, inserted_node, update_node}
use hermes_agent_cluster.Store.Nodes as Rows
use hermes_agent_cluster.Store.Rows.{
  update_where-absent, update_where-get, update_where-hit, put-absent,
}
use hermes_agent_cluster.Store.Mirror.{view}

pub update_node-view :
    (s : ClusterState) (node_id : String) (f : Node → Node)
    → ((n : Node) → (f n).id ≡ n.id)
    → IsKeyed node_key s.nodes
    → update_node (view s) node_id f ≡ view (edit_node s node_id f)
unfolding update_node edit_node
update_node-view s node_id f kept keyed =
    rw (update_where-hit node_key node_id f s.nodes)
      (elim (Option-cases (get node_key node_id s.nodes)) [
        | inl e ↦
            rw
              (
                e,
                edit_node,
                update_where-absent node_key node_id (λ n. true) f s.nodes
                    (count-get-none node_key node_id s.nodes e),
              )
              refl
        | inr (node, e) ↦
            rw
              (
                e,
                edit_node,
                update_where-get node_key node_id (λ n. true) f s.nodes node kept keyed e,
              )
              refl
      ])

-- The row after ON CONFLICT, as the record that the in-memory store keeps.
excluded_node-kept :
    (node old : Node)
    → old.id ≡ node.id
    → excluded_node node old ≡ record node { drained = drained_or false (some old) }
excluded_node-kept node old same =
    let drain : old.drained ≡ drained_or false (some old) = ground arith in
    λ i. record node { id = same i; drained = drain i }

-- A node that is registered as not drained.
pub register_node-view :
    (s : ClusterState) (node : Node)
    → node.drained ≡ false
    → IsKeyed node_key s.nodes
    → Rows.register_node (view s) node ≡ view (Memory.register_node s node)
unfolding Rows.register_node Memory.register_node
register_node-view s node plain keyed = elim (Option-cases (get node_key node.id s.nodes)) [
  | inl e ↦
      rw
        (
          has-get node_key node.id s.nodes,
          e,
          put-absent node_key (record node { drained = node.drained }) s.nodes e,
          plain,
        )
        refl
  | inr (old, e) ↦
      rw
        (
          has-get node_key node.id s.nodes,
          e,
          plain,
          update_where-hit node_key node.id (excluded_node node) s.nodes,
          update_where-get node_key node.id (λ n. true) (excluded_node node) s.nodes old (λ n. refl)
              keyed e,
        )
        (ap (λ n. view (record s { nodes = put node_key n s.nodes }))
          (excluded_node-kept node old (key-get node_key node.id s.nodes old e)))
]

pub update_heartbeat-view :
    (s : ClusterState) (node_id : String) (beat : Memory.Beat) (now : ℕ)
    → IsKeyed node_key s.nodes
    → Rows.update_heartbeat (view s) node_id beat now
      ≡ view (Memory.update_heartbeat s node_id beat now)
unfolding Rows.update_heartbeat Memory.update_heartbeat
update_heartbeat-view s node_id beat now keyed =
    update_node-view s node_id (Rows.beat_row beat now) (λ n. refl) keyed

pub update_capabilities-view :
    (s : ClusterState) (node_id : String) (caps : List String)
    → IsKeyed node_key s.nodes
    → Rows.update_capabilities (view s) node_id caps
      ≡ view (Memory.update_capabilities s node_id caps)
unfolding Rows.update_capabilities Memory.update_capabilities
update_capabilities-view s node_id caps keyed = update_node-view s node_id _ (λ n. refl) keyed

pub set_drained-view :
    (s : ClusterState) (node_id : String) (drained : Bool)
    → IsKeyed node_key s.nodes
    → Rows.set_drained (view s) node_id drained ≡ view (Memory.set_drained s node_id drained)
unfolding Rows.set_drained Memory.set_drained
set_drained-view s node_id drained keyed = update_node-view s node_id _ (λ n. refl) keyed

pub update_max_concurrent-view :
    (s : ClusterState) (node_id : String) (max_concurrent : ℕ)
    → IsKeyed node_key s.nodes
    → Rows.update_max_concurrent (view s) node_id max_concurrent
      ≡ view (Memory.update_max_concurrent s node_id max_concurrent)
unfolding Rows.update_max_concurrent Memory.update_max_concurrent
update_max_concurrent-view s node_id max_concurrent keyed =
    update_node-view s node_id _ (λ n. refl) keyed

pub update_instance_token-view :
    (s : ClusterState) (node_id : String) (instance_token : String)
    → IsKeyed node_key s.nodes
    → Rows.update_instance_token (view s) node_id instance_token
      ≡ view (Memory.update_instance_token s node_id instance_token)
unfolding Rows.update_instance_token Memory.update_instance_token
update_instance_token-view s node_id instance_token keyed =
    update_node-view s node_id _ (λ n. refl) keyed

pub set_node_status-view :
    (s : ClusterState) (node_id : String) (status : NodeStatus) (reason : String)
    → IsKeyed node_key s.nodes
    → Rows.set_node_status (view s) node_id status reason
      ≡ view (Memory.set_node_status s node_id status reason)
unfolding Rows.set_node_status Memory.set_node_status
set_node_status-view s node_id status reason keyed = update_node-view s node_id _ (λ n. refl) keyed
