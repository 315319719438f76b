-- ===== src/Recovery/Kept.antt =====
-- Recovery against the tasks: what it may do to a stored task.
use hermes_agent_cluster.Prelude.{
  ℕ, ◌≡◌, refl, String, List, [], ◌∷◌, arith, inl, inr, Bool-cases, Option-cases, ltb, is_empty,
}
use hermes_agent_cluster.Table.Laws.{IsKeyed}
use hermes_agent_cluster.Models.{TaskStatus, Lease, task_key}
use hermes_agent_cluster.State.{ClusterState}
use hermes_agent_cluster.State.Leases.{get_active_leases, revoke_lease}
use hermes_agent_cluster.State.Log.{append_recovery_event}
use hermes_agent_cluster.State.Tasks.{set_task_status, unassign_task}
use hermes_agent_cluster.State.Tasks.Queries.{get_task}
use hermes_agent_cluster.State.Tasks.Invariant.{
  set_task_status-Evolves, unassign_task-Evolves, tasks-revoke_lease,
}
use hermes_agent_cluster.State.Schedule.{schedule_pending}
use hermes_agent_cluster.State.Follows.{
  Follows, Follows-trans, Follows-same, edit_task-IsKeyed, schedule_pending-Follows,
}
use hermes_agent_cluster.Recovery.{
  log_event, revoke_loop, revoke_all_for_node, assignee, fail_orphan, reschedule_one,
  reschedule_step, reschedule_orphaned, recover_tasks, trigger_recovery, revoked_message,
}

module _ (token decimal : ℕ → String) (now : ℕ) where
  tasks-log_event :
      (s : ClusterState) (task_id node_id action status message : String)
      → (log_event token decimal now s task_id node_id action status message).tasks ≡ s.tasks
  unfolding log_event append_recovery_event
  tasks-log_event s task_id node_id action status message = ground arith

  fail_orphan-Follows :
      (s : ClusterState) (task_id : String)
      → IsKeyed task_key s.tasks
      → Follows s (fail_orphan token decimal now s task_id)
  unfolding fail_orphan
  fail_orphan-Follows s task_id keyed =
      let reason : String = "no available node for reschedule" in
      let s' = (set_task_status s task_id TaskStatus.failed reason now).0 in
      let keyed' : IsKeyed task_key s'.tasks =
        unfold set_task_status in edit_task-IsKeyed s task_id _ keyed in
      Follows-trans
        (record {
          evolves = set_task_status-Evolves s task_id now TaskStatus.failed reason;
          keyed = keyed';
        })
        (Follows-same s' _
          (tasks-log_event s' task_id "" "mark_failed" "completed"
            "No available node for reschedule")
          keyed')

  reschedule_one-Follows :
      (s : ClusterState) (task_id : String)
      → IsKeyed task_key s.tasks
      → Follows s (reschedule_one token decimal now s task_id).0
  unfolding reschedule_one
  reschedule_one-Follows s task_id keyed =
      let s' = (schedule_pending token now s).0 in
      let node_id = assignee token decimal now (get_task s' task_id) in
      let first : Follows s s' = schedule_pending-Follows token now s keyed in
      let failed : Follows s (fail_orphan token decimal now s' task_id) =
        Follows-trans first (fail_orphan-Follows s' task_id first.keyed) in
      elim (Bool-cases (ltb 0 (schedule_pending token now s).1)) [
        | inr none_fits ↦ rw (none_fits, reschedule_one) failed
        | inl some_fit ↦ elim (Bool-cases (is_empty node_id)) [
          | inl parked ↦ rw (some_fit, parked, reschedule_one) failed
          | inr moved ↦
              rw (some_fit, moved, reschedule_one)
                (Follows-trans first (
                  Follows-same s' _ (tasks-log_event s' task_id "" "reschedule" "completed" _)
                    first.keyed))
        ]
      ]

  reschedule_step-Follows :
      (s : ClusterState) (task_id : String)
      → IsKeyed task_key s.tasks
      → Follows s (reschedule_step token decimal now s task_id).0
  unfolding reschedule_step
  reschedule_step-Follows s task_id keyed =
      let stay : Follows s s = Follows-same s s refl keyed in
      let s' = (unassign_task s task_id now).0 in
      let keyed' : IsKeyed task_key s'.tasks =
        unfold unassign_task in edit_task-IsKeyed s task_id _ keyed in
      elim (Option-cases (get_task s task_id)) [
        | inl missing ↦ rw (missing, reschedule_step) stay
        | inr (t, there) ↦ elim (Bool-cases (unassign_task s task_id now).1) [
          | inr refused ↦ rw (there, refused, reschedule_step) stay
          | inl released ↦
              rw (there, released, reschedule_step)
                (Follows-trans
                  (record { evolves = unassign_task-Evolves s task_id now; keyed = keyed' })
                  (reschedule_one-Follows s' task_id keyed'))
        ]
      ]

  reschedule_orphaned-Follows :
      (task_ids : List String) (s : ClusterState)
      → IsKeyed task_key s.tasks
      → Follows s (reschedule_orphaned token decimal now s task_ids).0
  unfolding reschedule_orphaned
  reschedule_orphaned-Follows [] s keyed = Follows-same s s refl keyed
  reschedule_orphaned-Follows (task_id ∷ task_ids) s keyed =
      let s' = (reschedule_step token decimal now s task_id).0 in
      let first : Follows s s' = reschedule_step-Follows s task_id keyed in
      Follows-trans first (reschedule_orphaned-Follows task_ids s' first.keyed)

  tasks-revoke_loop :
      (node_id : String) (leases : List Lease) (seen : List String) (s : ClusterState)
      → (revoke_loop token decimal now node_id leases seen s).0.tasks ≡ s.tasks
  unfolding revoke_loop
  tasks-revoke_loop node_id [] seen s = refl
  tasks-revoke_loop node_id (lease ∷ leases) seen s =
      let s' = (revoke_lease s lease.id).0 in
      let logged =
        log_event token decimal now s' lease.task_id node_id "revoke_lease" "completed"
          (revoked_message token decimal now lease) in
      ground (
        arith,
        tasks-revoke_lease s lease.id,
        tasks-revoke_loop node_id leases seen s,
        tasks-revoke_loop node_id leases (lease.id ∷ seen) s',
        tasks-revoke_loop node_id leases (lease.id ∷ seen) logged,
        tasks-log_event s' lease.task_id node_id "revoke_lease" "completed"
            (revoked_message token decimal now lease),
      )

  tasks-revoke_all_for_node :
      (s : ClusterState) (node_id : String)
      → (revoke_all_for_node token decimal now s node_id).0.tasks ≡ s.tasks
  unfolding revoke_all_for_node get_active_leases
  tasks-revoke_all_for_node s node_id = tasks-revoke_loop node_id _ [] _

  recover_tasks-Follows :
      (s : ClusterState) (node_id : String) (task_ids : List String)
      → IsKeyed task_key s.tasks
      → Follows s (recover_tasks token decimal now s node_id task_ids).0
  unfolding recover_tasks
  recover_tasks-Follows s node_id [] keyed =
      Follows-same s _
        (tasks-log_event s "" node_id "full_recovery" "completed" "No active leases to revoke")
        keyed
  recover_tasks-Follows s node_id (task_id ∷ task_ids) keyed =
      let s' = (reschedule_orphaned token decimal now s (task_id ∷ task_ids)).0 in
      let first : Follows s s' = reschedule_orphaned-Follows (task_id ∷ task_ids) s keyed in
      Follows-trans first
        (Follows-same s' _ (tasks-log_event s' "" node_id "full_recovery" _ _) first.keyed)

  -- The recovery of a node, in a task table with one entry per id, loses no task, never lowers a
  -- version and revives no terminal task, whatever leases the node left behind; the table keeps
  -- one entry per id.
  pub trigger_recovery-Follows :
      (s : ClusterState) (node_id : String)
      → IsKeyed task_key s.tasks
      → Follows s (trigger_recovery token decimal now s node_id).0
  unfolding trigger_recovery
  trigger_recovery-Follows s node_id keyed =
      let (s', revoked) = revoke_all_for_node token decimal now s node_id in
      let first : Follows s s' = Follows-same s s' (tasks-revoke_all_for_node s node_id) keyed in
      Follows-trans first (recover_tasks-Follows s' node_id revoked first.keyed)
