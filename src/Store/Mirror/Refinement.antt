-- ===== src/Store/Mirror/Refinement.antt =====
-- The SQLite store (hermes_cluster/state/cluster_store.py) as a refinement of the in-memory one
-- (hermes_cluster/state/__init__.py), over any sequence of the calls of Store/Mirror/Runs.
use hermes_agent_cluster.Prelude.{
  ℕ, ◌≡◌, refl, String, Option, none, some, List, [], ◌∷◌, Bool-cases, Option-cases, map, false,
  is_empty, strip, All, inl, inr,
}
use hermes_agent_cluster.Table.{get}
use hermes_agent_cluster.Table.Laws.{IsKeyed, put-IsKeyed}
use hermes_agent_cluster.Models.{Task, node_key, task_key}
use hermes_agent_cluster.Landing.{Hold, hold_reason}
use hermes_agent_cluster.State.{ClusterState}
use hermes_agent_cluster.State.Nodes as Nodes
use hermes_agent_cluster.State.Tasks as Tasks
use hermes_agent_cluster.State.Tasks.Promotion as Promotion
use hermes_agent_cluster.State.Tasks.Promotion.{promotion, promotion_loop}
use hermes_agent_cluster.State.Leases.Index.{IsFreshSupply}
use hermes_agent_cluster.Store.{ClusterStore}
use hermes_agent_cluster.Store.Mirror.{view, IsSound}
use hermes_agent_cluster.Store.Mirror.Runs.{
  Call, Reply, memory_call, store_call, IsPlain, call-view, register_node, update_heartbeat,
  update_capabilities, set_drained, update_max_concurrent, update_instance_token, set_node_status,
  set_task_result, unblock_task, unblock_to_ready, set_task_ballot, set_task_cancel_requeue,
  create_lease, revoke_lease, get_active_leases, schedule_pending, trigger_pending_tasks,
}
use hermes_agent_cluster.Store.Mirror.Schedule.{schedule_pending-view}
use hermes_agent_cluster.Store.Mirror.Sound.{
  nodes-IsSound, tasks-IsSound, edit_node-IsSound, edit_task-IsSound, create_lease-IsSound,
  revoke_lease-IsSound, get_active_leases-IsSound,
}

module _ (message : Hold → String) (token : ℕ → String) where
  result-IsSound :
      (s : ClusterState) (task_id : String) (result : Option String) (now : ℕ)
      → IsSound token s
      → IsSound token (Tasks.set_task_result s task_id result now).0
  unfolding Tasks.set_task_result
  result-IsSound s task_id none now v = v
  result-IsSound s task_id (some result) now v = elim (Bool-cases (is_empty (strip result))) [
    | inl blank ↦ rw blank v
    | inr given ↦ rw given (edit_task-IsSound token s task_id _ v)
  ]

  promotion_loop-IsKeyed :
      (ids : List String) (tasks : List Task) (now : ℕ)
      → IsKeyed task_key tasks
      → IsKeyed task_key (promotion_loop (hold_reason message) ids tasks now).0
  unfolding promotion_loop
  promotion_loop-IsKeyed [] tasks now keyed = keyed
  promotion_loop-IsKeyed (task_id ∷ ids) tasks now keyed =
      elim (Option-cases (get task_key task_id tasks)) [
        | inl e ↦ rw (e, promotion_loop) (promotion_loop-IsKeyed ids tasks now keyed)
        | inr (t, e) ↦
            rw (e, promotion_loop)
              (promotion_loop-IsKeyed ids _ now
                (put-IsKeyed task_key (promotion (hold_reason message) tasks now t).0 tasks keyed))
      ]

  call-IsSound :
      IsFreshSupply token
      → (now : ℕ) (s : ClusterState) (call : Call) → IsSound token s
      → IsSound token (memory_call message token now s call).0
  unfolding memory_call Nodes.register_node Nodes.update_heartbeat Nodes.update_capabilities
      Nodes.set_drained Nodes.update_max_concurrent Nodes.update_instance_token
      Nodes.set_node_status Tasks.unblock_task Tasks.unblock_to_ready Tasks.set_task_ballot
      Tasks.set_task_cancel_requeue Promotion.trigger_pending_tasks
  call-IsSound fresh now s (register_node node) v =
      nodes-IsSound token s _ v (put-IsKeyed node_key _ s.nodes v.keyed_nodes)
  call-IsSound fresh now s (update_heartbeat node_id beat) v = edit_node-IsSound token s node_id _ v
  call-IsSound fresh now s (update_capabilities node_id caps) v =
      edit_node-IsSound token s node_id _ v
  call-IsSound fresh now s (set_drained node_id drained) v = edit_node-IsSound token s node_id _ v
  call-IsSound fresh now s (update_max_concurrent node_id n) v =
      edit_node-IsSound token s node_id _ v
  call-IsSound fresh now s (update_instance_token node_id text) v =
      edit_node-IsSound token s node_id _ v
  call-IsSound fresh now s (set_node_status node_id status reason) v =
      edit_node-IsSound token s node_id _ v
  call-IsSound fresh now s (set_task_result task_id result) v =
      result-IsSound s task_id result now v
  call-IsSound fresh now s (unblock_task task_id) v = edit_task-IsSound token s task_id _ v
  call-IsSound fresh now s (unblock_to_ready task_id) v = edit_task-IsSound token s task_id _ v
  call-IsSound fresh now s (set_task_ballot task_id ballot) v =
      edit_task-IsSound token s task_id _ v
  call-IsSound fresh now s (set_task_cancel_requeue task_id requeue) v =
      edit_task-IsSound token s task_id _ v
  call-IsSound fresh now s (create_lease task_id node_id ttl) v =
      create_lease-IsSound token fresh s task_id node_id ttl now v
  call-IsSound fresh now s (revoke_lease lease_id) v = revoke_lease-IsSound token s lease_id v
  call-IsSound fresh now s get_active_leases v = get_active_leases-IsSound token s now v
  call-IsSound fresh now s schedule_pending v = (schedule_pending-view token now fresh s v).1
  call-IsSound fresh now s trigger_pending_tasks v =
      tasks-IsSound token s
        (promotion_loop (hold_reason message) (map task_key s.tasks) s.tasks now).0 v
        (promotion_loop-IsKeyed (map task_key s.tasks) s.tasks now v.keyed_tasks)

  -- Calls at their times, with the replies in order.
  unfoldable pub memory_run : ClusterState → List (ℕ × Call) → ClusterState × List Reply
  memory_run s [] = (s, [])
  memory_run s ((now, call) ∷ calls) =
      let (s', reply) = memory_call message token now s call in
      let (s'', replies) = memory_run s' calls in (s'', reply ∷ replies)

  unfoldable pub store_run : ClusterStore → List (ℕ × Call) → Option (ClusterStore × List Reply)
  store_run d [] = some (d, [])
  store_run d ((now, call) ∷ calls) = elim (store_call message token now d call) [
    | none ↦ none
    | some (d', reply) ↦ elim (store_run d' calls) [
      | none ↦ none
      | some (d'', replies) ↦ some (d'', reply ∷ replies)
    ]
  ]

  -- Over any sequence of node, lease, scheduling and promotion calls and of the task calls that both
  -- stores guard alike, at any times, the SQLite store raises no error, gives the replies of the
  -- in-memory store and ends with its content: if no message of the landing gate is empty, no token
  -- is drawn twice, nodes register as not drained, and the run starts with one entry per id and a
  -- well-formed lease index.
  pub store_run-refines :
      ((h : Hold) → is_empty (message h) ≡ false)
      → IsFreshSupply token
      → (calls : List (ℕ × Call)) (s : ClusterState) → All (λ c. IsPlain c.1) calls
      → IsSound token s
      → store_run (view s) calls ≡ some (view (memory_run s calls).0, (memory_run s calls).1)
  unfolding store_run memory_run
  store_run-refines worded fresh [] s plain v = refl
  store_run-refines worded fresh ((now, call) ∷ calls) s plain v =
      let s' = (memory_call message token now s call).0 in
      let rest =
        store_run-refines worded fresh calls s' plain.1 (call-IsSound fresh now s call v) in
      rw (store_run, call-view message token now worded fresh s call plain.0 v, rest) refl
