-- ===== src/Store/Mirror/Runs.antt =====
-- Any sequence of calls of both stores (hermes_cluster/state/cluster_store.py and
-- state/__init__.py): node, lease, scheduling and promotion calls, and those on a task that both guard alike.
use hermes_agent_cluster.Prelude.{
  ℕ, ◌≡◌, ap, String, Bool, false, Option, none, some, List, is_empty,
}
use hermes_agent_cluster.Ballot.{Ballot}
use hermes_agent_cluster.Models.{Node, NodeStatus, Lease}
use hermes_agent_cluster.Landing.{Hold, hold_reason}
use hermes_agent_cluster.State.{ClusterState}
use hermes_agent_cluster.State.Nodes as MemoryNodes
use hermes_agent_cluster.State.Nodes.{Beat, edit_node}
use hermes_agent_cluster.State.Tasks as MemoryTasks
use hermes_agent_cluster.State.Tasks.Promotion as MemoryPromotion
use hermes_agent_cluster.State.Leases as MemoryLeases
use hermes_agent_cluster.State.Leases.Index.{IsFreshSupply}
use hermes_agent_cluster.State.Schedule as MemorySchedule
use hermes_agent_cluster.State.Schedule.{Assignment}
use hermes_agent_cluster.Store.{ClusterStore}
use hermes_agent_cluster.Store.Nodes as NodeRows
use hermes_agent_cluster.Store.Tasks as TaskRows
use hermes_agent_cluster.Store.Leases as LeaseRows
use hermes_agent_cluster.Store.Schedule as ScheduleRows
use hermes_agent_cluster.Store.Mirror.{view, IsSound}
use hermes_agent_cluster.Store.Mirror.Nodes
use hermes_agent_cluster.Store.Mirror.Tasks
use hermes_agent_cluster.Store.Mirror.Leases
use hermes_agent_cluster.Store.Mirror.Schedule
use hermes_agent_cluster.Store.Mirror.Promotion

-- A call of the API that both stores have, without the clock.
pub data Call : Type 0 where
  register_node : Node → Call
  update_heartbeat : String → Beat → Call
  update_capabilities : String → List String → Call
  set_drained : String → Bool → Call
  update_max_concurrent : String → ℕ → Call
  update_instance_token : String → String → Call
  set_node_status : String → NodeStatus → String → Call
  set_task_result : String → Option String → Call
  unblock_task : String → Call
  unblock_to_ready : String → Call
  set_task_ballot : String → Option Ballot → Call
  set_task_cancel_requeue : String → Bool → Call
  create_lease : String → String → ℕ → Call
  revoke_lease : String → Call
  get_active_leases : Call
  schedule_pending : Call
  trigger_pending_tasks : Call

-- What a call returns; the calls of the expiry callback are part of it.
pub data Reply : Type 0 where
  done : Reply
  answered : Bool → Reply
  leased : Lease → Reply
  listed : List Lease → List (String × String) → Reply
  assigned : List Assignment → Reply
  promoted : ℕ → Reply

abbrev silent {ℓ} : {S : Type ℓ} → S → S × Reply
silent s = (s, done)

abbrev reply {ℓ} : {S : Type ℓ} {A : Type 0} → (A → Reply) → S × A → S × Reply
reply f (s, a) = (s, f a)

abbrev listing : List Lease × List (String × String) → Reply
listing (active, expiry_calls) = listed active expiry_calls

-- A failed INSERT raises: there is no new state.
abbrev tried {ℓ} : {S : Type ℓ} {A : Type 0} → (A → Reply) → Option (S × A) → Option (S × Reply)
tried f none = none
tried f (some (s, a)) = some (s, f a)

-- The condition of a call: a node registers as not drained.
abbrev pub IsPlain : Call → Type 0
IsPlain (register_node node) = node.drained ≡ false
IsPlain _ = Unit

module _ (message : Hold → String) (token : ℕ → String) (now : ℕ) where
  unfoldable pub memory_call : ClusterState → Call → ClusterState × Reply
  memory_call s (register_node node) = silent (MemoryNodes.register_node s node)
  memory_call s (update_heartbeat node_id beat) =
      silent (MemoryNodes.update_heartbeat s node_id beat now)
  memory_call s (update_capabilities node_id caps) =
      silent (MemoryNodes.update_capabilities s node_id caps)
  memory_call s (set_drained node_id drained) = silent (MemoryNodes.set_drained s node_id drained)
  memory_call s (update_max_concurrent node_id n) =
      silent (MemoryNodes.update_max_concurrent s node_id n)
  memory_call s (update_instance_token node_id text) =
      silent (MemoryNodes.update_instance_token s node_id text)
  memory_call s (set_node_status node_id status reason) =
      silent (MemoryNodes.set_node_status s node_id status reason)
  memory_call s (set_task_result task_id result) =
      reply answered (MemoryTasks.set_task_result s task_id result now)
  memory_call s (unblock_task task_id) = reply answered (MemoryTasks.unblock_task s task_id now)
  memory_call s (unblock_to_ready task_id) =
      reply answered (MemoryTasks.unblock_to_ready s task_id now)
  memory_call s (set_task_ballot task_id ballot) =
      reply answered (MemoryTasks.set_task_ballot s task_id ballot now)
  memory_call s (set_task_cancel_requeue task_id requeue) =
      reply answered (MemoryTasks.set_task_cancel_requeue s task_id requeue now)
  memory_call s (create_lease task_id node_id ttl) =
      reply leased (MemoryLeases.create_lease token s task_id node_id ttl now)
  memory_call s (revoke_lease lease_id) = reply answered (MemoryLeases.revoke_lease s lease_id)
  memory_call s get_active_leases = reply listing (MemoryLeases.get_active_leases s now)
  memory_call s schedule_pending =
      reply assigned (MemorySchedule.schedule_pending_detailed token now s)
  memory_call s trigger_pending_tasks =
      reply promoted (MemoryPromotion.trigger_pending_tasks (hold_reason message) s now)

  unfoldable pub store_call : ClusterStore → Call → Option (ClusterStore × Reply)
  store_call d (register_node node) = some (silent (NodeRows.register_node d node))
  store_call d (update_heartbeat node_id beat) =
      some (silent (NodeRows.update_heartbeat d node_id beat now))
  store_call d (update_capabilities node_id caps) =
      some (silent (NodeRows.update_capabilities d node_id caps))
  store_call d (set_drained node_id drained) =
      some (silent (NodeRows.set_drained d node_id drained))
  store_call d (update_max_concurrent node_id n) =
      some (silent (NodeRows.update_max_concurrent d node_id n))
  store_call d (update_instance_token node_id text) =
      some (silent (NodeRows.update_instance_token d node_id text))
  store_call d (set_node_status node_id status reason) =
      some (silent (NodeRows.set_node_status d node_id status reason))
  store_call d (set_task_result task_id result) =
      some (reply answered (TaskRows.set_task_result d task_id result now))
  store_call d (unblock_task task_id) = some (reply answered (TaskRows.unblock_task d task_id now))
  store_call d (unblock_to_ready task_id) =
      some (reply answered (TaskRows.unblock_to_ready d task_id now))
  store_call d (set_task_ballot task_id ballot) =
      some (reply answered (TaskRows.set_task_ballot d task_id ballot now))
  store_call d (set_task_cancel_requeue task_id requeue) =
      some (reply answered (TaskRows.set_task_cancel_requeue d task_id requeue now))
  store_call d (create_lease task_id node_id ttl) =
      tried leased (LeaseRows.create_lease token d task_id node_id ttl now)
  store_call d (revoke_lease lease_id) = some (reply answered (LeaseRows.revoke_lease d lease_id))
  store_call d get_active_leases = some (reply listing (LeaseRows.get_active_leases d now))
  store_call d schedule_pending =
      tried assigned (ScheduleRows.schedule_pending_detailed token now d)
  store_call d trigger_pending_tasks =
      some (reply promoted (ScheduleRows.trigger_pending_tasks message now d))

  pub call-view :
      ((h : Hold) → is_empty (message h) ≡ false)
      → IsFreshSupply token
      → (s : ClusterState) (call : Call) → IsPlain call
      → IsSound token s
      → store_call (view s) call ≡ some (view (memory_call s call).0, (memory_call s call).1)
  unfolding store_call memory_call
  call-view worded fresh s (register_node node) plain v =
      ap (λ d. some (silent d)) (Nodes.register_node-view s node plain v.keyed_nodes)
  call-view worded fresh s (update_heartbeat node_id beat) plain v =
      ap (λ d. some (silent d)) (Nodes.update_heartbeat-view s node_id beat now v.keyed_nodes)
  call-view worded fresh s (update_capabilities node_id caps) plain v =
      ap (λ d. some (silent d)) (Nodes.update_capabilities-view s node_id caps v.keyed_nodes)
  call-view worded fresh s (set_drained node_id drained) plain v =
      ap (λ d. some (silent d)) (Nodes.set_drained-view s node_id drained v.keyed_nodes)
  call-view worded fresh s (update_max_concurrent node_id n) plain v =
      ap (λ d. some (silent d)) (Nodes.update_max_concurrent-view s node_id n v.keyed_nodes)
  call-view worded fresh s (update_instance_token node_id text) plain v =
      ap (λ d. some (silent d)) (Nodes.update_instance_token-view s node_id text v.keyed_nodes)
  call-view worded fresh s (set_node_status node_id status reason) plain v =
      ap (λ d. some (silent d)) (Nodes.set_node_status-view s node_id status reason v.keyed_nodes)
  call-view worded fresh s (set_task_result task_id result) plain v =
      ap (λ r. some (reply answered r))
        (Tasks.set_task_result-view s task_id result now v.keyed_tasks)
  call-view worded fresh s (unblock_task task_id) plain v =
      ap (λ r. some (reply answered r)) (Tasks.unblock_task-view s task_id now v.keyed_tasks)
  call-view worded fresh s (unblock_to_ready task_id) plain v =
      ap (λ r. some (reply answered r)) (Tasks.unblock_to_ready-view s task_id now v.keyed_tasks)
  call-view worded fresh s (set_task_ballot task_id ballot) plain v =
      ap (λ r. some (reply answered r))
        (Tasks.set_task_ballot-view s task_id ballot now v.keyed_tasks)
  call-view worded fresh s (set_task_cancel_requeue task_id requeue) plain v =
      ap (λ r. some (reply answered r))
        (Tasks.set_task_cancel_requeue-view s task_id requeue now v.keyed_tasks)
  call-view worded fresh s (create_lease task_id node_id ttl) plain v =
      ap (tried leased) (Leases.create_lease-view token s task_id node_id ttl now fresh v.indexed)
  call-view worded fresh s (revoke_lease lease_id) plain v =
      ap (λ r. some (reply answered r)) (Leases.revoke_lease-view s lease_id v.keyed_leases)
  call-view worded fresh s get_active_leases plain v =
      ap (λ r. some (reply listing r)) (Leases.get_active_leases-view s now v.keyed_leases)
  call-view worded fresh s schedule_pending plain v =
      ap (tried assigned) (Schedule.schedule_pending-view token now fresh s v).0
  call-view worded fresh s trigger_pending_tasks plain v =
      ap (λ r. some (reply promoted r))
        (Promotion.trigger_pending_tasks-agrees message now worded s v.keyed_tasks)
