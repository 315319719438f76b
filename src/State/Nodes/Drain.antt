-- ===== src/State/Nodes/Drain.antt =====
-- The drain of a node is the operator's: no call on a worker's path ends it.
use hermes_agent_cluster.Prelude.{
  ℕ, ◌≡◌, refl, sym, subst, ◌∙◌, String, true, some, List, [], ◌∷◌, arith, inl, inr, Bool-cases,
  Option-cases, ◌==◌, eq_iff,
}
use hermes_agent_cluster.Table.{get}
use hermes_agent_cluster.Table.Laws.{get-put, key-get}
use hermes_agent_cluster.Models.{Node, NodeStatus, node_key}
use hermes_agent_cluster.State.{ClusterState}
use hermes_agent_cluster.State.Nodes.{
  register_node, edit_node, Beat, update_heartbeat, update_capabilities, update_max_concurrent,
  update_instance_token, set_node_status, drained_or,
}

-- What a worker's registrations and beats, and the watchdog, call.
pub data WorkerCall : Type 0 where
  register : Node → WorkerCall
  heartbeat : String → Beat → ℕ → WorkerCall
  capabilities : String → List String → WorkerCall
  ceiling : String → ℕ → WorkerCall
  token : String → String → WorkerCall
  status : String → NodeStatus → String → WorkerCall

unfoldable pub worker_call : ClusterState → WorkerCall → ClusterState
worker_call s (register node) = register_node s node
worker_call s (heartbeat node_id beat now) = update_heartbeat s node_id beat now
worker_call s (capabilities node_id caps) = update_capabilities s node_id caps
worker_call s (ceiling node_id n) = update_max_concurrent s node_id n
worker_call s (token node_id t) = update_instance_token s node_id t
worker_call s (status node_id st reason) = set_node_status s node_id st reason

unfoldable pub worker_calls : ClusterState → List WorkerCall → ClusterState
worker_calls s [] = s
worker_calls s (call ∷ calls) = worker_calls (worker_call s call) calls

-- The node is there, and drained.
abbrev pub IsDrained : String → ClusterState → Type 0
IsDrained node_id s =
    (node : Node) × (get node_key node_id s.nodes ≡ some node) × (node.drained ≡ true)

edit_node-IsDrained :
    (s : ClusterState) (node_id k : String) (f : Node → Node)
    → ((n : Node) → (f n).id ≡ n.id)
    → ((n : Node) → (f n).drained ≡ n.drained)
    → IsDrained k s
    → IsDrained k (edit_node s node_id f)
unfolding edit_node
edit_node-IsDrained s node_id k f ids drains (node, there, drained) =
    elim (Option-cases (get node_key node_id s.nodes)) [
      | inl e ↦ rw (e, edit_node) (node, there, drained)
      | inr (old, e) ↦ elim (Bool-cases (old.id == k)) [
        | inl hit ↦
            let named : node_id ≡ k =
              sym (key-get node_key node_id s.nodes old e) ∙ (eq_iff old.id k).0 hit in
            let found : get node_key k s.nodes ≡ some old =
              subst (λ j. get node_key j s.nodes ≡ some old) named e in
            rw (e, edit_node)
              (
                f old,
                ground (arith, get-put node_key k (f old) s.nodes, ids old),
                ground (arith, drains old),
              )
        | inr miss ↦
            rw (e, edit_node)
              (node, ground (arith, get-put node_key k (f old) s.nodes, ids old), drained)
      ]
    ]

register_node-IsDrained :
    (s : ClusterState) (new : Node) (k : String) → IsDrained k s → IsDrained k (register_node s new)
unfolding register_node
register_node-IsDrained s new k (node, there, drained) =
    let stored : Node = record new {
      drained = drained_or new.drained (get node_key new.id s.nodes);
    } in
    elim (Bool-cases (new.id == k)) [
      | inl hit ↦
          let same : new.id ≡ k = (eq_iff new.id k).0 hit in
          let found : get node_key new.id s.nodes ≡ some node =
            subst (λ j. get node_key j s.nodes ≡ some node) (sym same) there in
          (stored, ground (arith, get-put node_key k stored s.nodes), ground (arith))
      | inr miss ↦ (node, ground (arith, get-put node_key k stored s.nodes), drained)
    ]

worker_call-IsDrained :
    (s : ClusterState) (call : WorkerCall) (k : String)
    → IsDrained k s
    → IsDrained k (worker_call s call)
unfolding worker_call update_heartbeat update_capabilities update_max_concurrent
    update_instance_token set_node_status
worker_call-IsDrained s (register node) k d = register_node-IsDrained s node k d
worker_call-IsDrained s (heartbeat node_id beat now) k d =
    edit_node-IsDrained s node_id k _ (λ n. refl) (λ n. refl) d
worker_call-IsDrained s (capabilities node_id caps) k d =
    edit_node-IsDrained s node_id k _ (λ n. refl) (λ n. refl) d
worker_call-IsDrained s (ceiling node_id m) k d =
    edit_node-IsDrained s node_id k _ (λ n. refl) (λ n. refl) d
worker_call-IsDrained s (token node_id t) k d =
    edit_node-IsDrained s node_id k _ (λ n. refl) (λ n. refl) d
worker_call-IsDrained s (status node_id st reason) k d =
    edit_node-IsDrained s node_id k _ (λ n. refl) (λ n. refl) d

-- A drained node stays registered and drained through every sequence of registrations,
-- heartbeats, re-declarations and status writes, its own re-registrations included.
pub worker_calls-keeps_drain :
    (s : ClusterState) (calls : List WorkerCall) (node_id : String)
    → IsDrained node_id s
    → IsDrained node_id (worker_calls s calls)
unfolding worker_calls
worker_calls-keeps_drain s [] node_id d = d
worker_calls-keeps_drain s (call ∷ calls) node_id d =
    worker_calls-keeps_drain (worker_call s call) calls node_id
      (worker_call-IsDrained s call node_id d)
