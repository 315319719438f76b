-- ===== src/Examples/Store.antt =====
-- Tests and witnesses of the store's leases, tasks, nodes and lanes, and of recovery.
use hermes_agent_cluster.Prelude.{
  ◌≡◌, ◌↔◌, refl, true, false, none, some, [], ◌∷◌, arith, count, keep, member, concat,
}
use hermes_agent_cluster.Table.{get, has, put, remove}
use hermes_agent_cluster.Table.Laws.{IsKeyed}
use hermes_agent_cluster.Models.{
  NodeStatus, Task, TaskStatus, Lease, LeaseStatus, lease_key, task_key, is_active_lease,
}
use hermes_agent_cluster.State.{ClusterState, new_state, generate_id}
use hermes_agent_cluster.State.Leases.{
  create_lease, revoke_lease, get_active_leases, get_expired_leases, holds_task, get_lease_by_task,
}
use hermes_agent_cluster.State.Leases.Index.{IsIndexed, create_lease-IsIndexed}
use hermes_agent_cluster.State.Leases.Revoke.{IsRevoked, revoke_lease-IsRevoked}
use hermes_agent_cluster.State.Leases.Lookup.{get_lease_by_task_correct}
use hermes_agent_cluster.State.Leases.Expiry.{get_active_leases-exact}
use hermes_agent_cluster.State.Tasks.{set_task_status, edit_task, status_edit}
use hermes_agent_cluster.State.Tasks.Promotion.{trigger_pending_tasks}
use hermes_agent_cluster.State.Tasks.Promotion.Gate.{Gated, trigger_pending_tasks-Gated}
use hermes_agent_cluster.State.Nodes.Drain.{
  WorkerCall, IsDrained, worker_calls, worker_calls-keeps_drain,
}
use hermes_agent_cluster.State.Sessions.{LaneEdit}
use hermes_agent_cluster.State.Sessions.Created.{
  LaneCall, IsSince, lane_calls, lane_calls-keeps_created,
}
use hermes_agent_cluster.State.Log.{append_recovery_event}
use hermes_agent_cluster.State.Follows.{Follows}
use hermes_agent_cluster.State.History.{Step, Reaches, Reaches-Follows}
use hermes_agent_cluster.Recovery.{trigger_recovery, revoke_all_for_node, revoke_loop, log_event}
use hermes_agent_cluster.Recovery.Revoked.{revoke_all_for_node-inactive}
use hermes_agent_cluster.Recovery.Kept.{trigger_recovery-Follows}
use hermes_agent_cluster.Examples.{
  distinct, distinct-IsKeyed, unary, unary_injective, node_b, task_next, sample_lane, sample_lease,
  sample_state,
}

new_state-IsIndexed : IsIndexed unary new_state
unfolding count get
new_state-IsIndexed = record {
  drawn = tt;
  keyed = λ k. omega arith;
  entries = λ t entry e. absurd (ground arith);
}

abbrev leased_state : ClusterState
leased_state = (create_lease unary new_state "task_1" "node_a" 50 0).0

create_lease-IsIndexed_example : IsIndexed unary leased_state
create_lease-IsIndexed_example =
    create_lease-IsIndexed unary unary_injective new_state "task_1" "node_a" 50 0
      new_state-IsIndexed

leased_state-IsIndexed : IsIndexed unary leased_state
leased_state-IsIndexed =
    create_lease-IsIndexed unary unary_injective new_state "task_1" "node_a" 50 0
      new_state-IsIndexed

revoke_lease-IsRevoked_example :
    ((lease : Lease)
      → get lease_key "lease_" leased_state.leases ≡ some lease
      → IsRevoked unary leased_state (revoke_lease leased_state "lease_").0 lease
        × ((revoke_lease leased_state "lease_").1 ≡ true))
    × (get lease_key "lease_" leased_state.leases ≡ none
        → revoke_lease leased_state "lease_" ≡ (leased_state, false))
revoke_lease-IsRevoked_example =
    revoke_lease-IsRevoked unary leased_state "lease_" leased_state-IsIndexed

get_lease_by_task_correct_example :
    ((lease : Lease)
      → get_lease_by_task leased_state "task_1" ≡ some lease
      → holds_task "task_1" lease ≡ true)
    × ((get_lease_by_task leased_state "task_1" ≡ none)
        ↔ (count (holds_task "task_1") leased_state.leases ≡ 0))
get_lease_by_task_correct_example =
    get_lease_by_task_correct unary leased_state "task_1" leased_state-IsIndexed refl

get_active_leases-exact_example :
    let s : ClusterState = record new_state { leases = sample_lease ∷ [] } in
    let (s', (active, calls)) = get_active_leases s 60 in
    (keep (λ lease. is_active_lease lease.status) s'.leases ≡ active)
    × ((get_active_leases s' 60).1.1 ≡ [])
get_active_leases-exact_example =
    get_active_leases-exact (record new_state { leases = sample_lease ∷ [] }) 60

trigger_pending_tasks-Gated_example :
    (t : Task) × (get task_key "task_next"
        (trigger_pending_tasks (λ tasks u. none) sample_state 10).0.tasks
      ≡ some t)
    × Gated sample_state.tasks task_next t
trigger_pending_tasks-Gated_example =
    trigger_pending_tasks-Gated (λ tasks u. none) sample_state 10 "task_next" task_next
      (unfold get in refl)

worker_calls-keeps_drain_example : IsDrained "node_b" (
    worker_calls sample_state (
      WorkerCall.register (record node_b { drained = false })
      ∷ WorkerCall.status "node_b" NodeStatus.offline "gone"
      ∷ WorkerCall.capabilities "node_b" ("code" ∷ "gpu" ∷ [])
      ∷ []))
worker_calls-keeps_drain_example =
    worker_calls-keeps_drain sample_state
      (WorkerCall.register (record node_b { drained = false })
        ∷ WorkerCall.status "node_b" NodeStatus.offline "gone"
        ∷ WorkerCall.capabilities "node_b" ("code" ∷ "gpu" ∷ [])
        ∷ [])
      "node_b" (node_b, unfold get in refl, refl)

abbrev lane_edit : LaneEdit
lane_edit = record {
  lane_key = "lane";
  session_id = "s2";
  profile = "";
  role = "reviewer";
  node = "node_b";
  created_at = some 99;
  last_active_at = none;
  last_task_id = "task_1";
}

lane_calls-keeps_created_example : IsSince "lane" 5 (
    lane_calls sample_state
      (LaneCall.record_call lane_edit 100 ∷ LaneCall.touch_call "lane" "task_2" ∷ []))
lane_calls-keeps_created_example =
    lane_calls-keeps_created sample_state
      (LaneCall.record_call lane_edit 100 ∷ LaneCall.touch_call "lane" "task_2" ∷ []) "lane" 5
      (sample_lane, unfold get in refl, refl)

-- A completed task refuses another status.
finished_example : (set_task_status sample_state "task_done" TaskStatus.running "" 9).1 ≡ false
unfolding set_task_status edit_task status_edit get
finished_example = refl

store-tasks-IsKeyed : IsKeyed task_key sample_state.tasks
unfolding distinct has
store-tasks-IsKeyed = distinct-IsKeyed task_key sample_state.tasks refl

Reaches-Follows_example :
    Follows sample_state (set_task_status sample_state "task_1" TaskStatus.failed "lost" 9).0
Reaches-Follows_example =
    Reaches-Follows unary (λ tasks u. none) sample_state
      (set_task_status sample_state "task_1" TaskStatus.failed "lost" 9).0
      (Reaches.after Reaches.here (Step.sets_status "task_1" TaskStatus.failed "lost" 9))
      store-tasks-IsKeyed

trigger_recovery-Follows_example :
    Follows
      (record sample_state { leases = sample_lease ∷ [] })
      (trigger_recovery unary unary 60
        (record sample_state { leases = sample_lease ∷ [] })
        "node_a").0
trigger_recovery-Follows_example =
    trigger_recovery-Follows unary unary 60 (record sample_state { leases = sample_lease ∷ [] })
      "node_a" store-tasks-IsKeyed

abbrev revoked_lease : Lease
revoked_lease = record sample_lease { status = LeaseStatus.revoked }

revoked_lease-stored :
    get lease_key "lease_"
      (revoke_all_for_node unary unary 9
        (record sample_state { leases = sample_lease ∷ [] })
        "node_a").0.leases
    ≡ some revoked_lease
unfolding get put remove member keep revoke_all_for_node revoke_loop log_event get_active_leases
    get_expired_leases revoke_lease append_recovery_event generate_id concat
revoked_lease-stored = refl

revoke_all_for_node-inactive_example : is_active_lease revoked_lease.status ≡ false
revoke_all_for_node-inactive_example =
    revoke_all_for_node-inactive unary unary 9 (record sample_state { leases = sample_lease ∷ [] })
      "node_a" "lease_" revoked_lease revoked_lease-stored refl
