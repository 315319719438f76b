-- ===== src/Recovery.antt =====
-- hermes_cluster/recovery: what becomes of the leases and the tasks of a node that failed
-- (revoker.py, rescheduler.py, and `trigger_recovery` of manager.py). The counts in the messages
-- are written by Python's `str`, the parameter `decimal`.
pub mod Kept
pub mod Revoked
use hermes_agent_cluster.Prelude.{
  ℕ, ◌+◌, String, Bool, true, false, not, ◌&&◌, Option, none, some, List, [], ◌∷◌, ◌++◌, ltb, leb,
  concat, length, if◌then◌else◌, is_empty, member, ◌==◌,
}
use hermes_agent_cluster.Models.{Lease, Task, TaskStatus, RecoveryEvent}
use hermes_agent_cluster.State.{ClusterState, generate_id}
use hermes_agent_cluster.State.Leases.{get_active_leases, get_expired_leases, revoke_lease}
use hermes_agent_cluster.State.Tasks.{unassign_task, set_task_status}
use hermes_agent_cluster.State.Tasks.Queries.{get_task}
use hermes_agent_cluster.State.Schedule.{schedule_pending}
use hermes_agent_cluster.State.Log.{append_recovery_event}

module _ (token decimal : ℕ → String) (now : ℕ) where
  -- `append_recovery_event(RecoveryEvent(id=_gen_id(), ...))`
  unfoldable pub log_event :
      ClusterState → String → String → String → String → String → ClusterState
  log_event s task_id node_id action status message =
      append_recovery_event token (record s { generated = s.generated + 1 })
        (record {
          id = generate_id token "recovery" s.generated;
          task_id = task_id;
          node_id = node_id;
          action = action;
          status = status;
          message = some message;
          timestamp = now;
        })
        now

  abbrev pub revoked_message : Lease → String
  revoked_message lease =
      concat "Revoked lease " (concat lease.id (concat " for task " lease.task_id))

  -- The loop of `revoke_all_for_node`.
  unfoldable pub revoke_loop :
      String → List Lease → List String → ClusterState → ClusterState × List String
  revoke_loop node_id [] seen s = (s, [])
  revoke_loop node_id (lease ∷ leases) seen s =
      let skip = revoke_loop node_id leases seen s in
      let (s', success) = revoke_lease s lease.id in
      let refused = revoke_loop node_id leases (lease.id ∷ seen) s' in
      let (s'', revoked) =
        revoke_loop node_id leases (lease.id ∷ seen)
          (log_event s' lease.task_id node_id "revoke_lease" "completed" (revoked_message lease)) in
      if not (lease.node_id == node_id)
      then skip
      else if member lease.id seen
      then skip
      else if success
      then (s'', lease.task_id ∷ revoked)
      else refused

  unfoldable pub revoke_all_for_node : ClusterState → String → ClusterState × List String
  revoke_all_for_node s node_id =
      let (s', (active, calls)) = get_active_leases s now in
      revoke_loop node_id (active ++ get_expired_leases s') [] s'

  -- `task.assigned_to` of `task and task.assigned_to`, empty if there is none.
  abbrev pub assignee : Option Task → String
  assignee none = ""
  assignee (some task) = elim task.assigned_to [ none ↦ "" | some node_id ↦ node_id ]

  unfoldable pub fail_orphan : ClusterState → String → ClusterState
  fail_orphan s task_id =
      log_event
        (set_task_status s task_id TaskStatus.failed "no available node for reschedule" now).0
        task_id "" "mark_failed" "completed" "No available node for reschedule"

  -- The body of the loop of `reschedule_orphaned`, behind its two `continue`s.
  unfoldable pub reschedule_one : ClusterState → String → ClusterState × Bool
  reschedule_one s task_id =
      let (s', scheduled) = schedule_pending token now s in
      let node_id = assignee (get_task s' task_id) in
      if ltb 0 scheduled
      then if is_empty node_id then (fail_orphan s' task_id, false) else (
        log_event s' task_id "" "reschedule" "completed" (concat "Rescheduled to node " node_id),
        true,
      )
      else (fail_orphan s' task_id, false)

  unfoldable pub reschedule_step : ClusterState → String → ClusterState × Bool
  reschedule_step s task_id = elim (get_task s task_id) [
    | none ↦ (s, false)
    | some task ↦
        let (s', released) = unassign_task s task_id now in
        if released then reschedule_one s' task_id else (s, false)
  ]

  unfoldable pub reschedule_orphaned : ClusterState → List String → ClusterState × ℕ
  reschedule_orphaned s [] = (s, 0)
  reschedule_orphaned s (task_id ∷ task_ids) =
      let (s', done) = reschedule_step s task_id in
      let (s'', rescheduled) = reschedule_orphaned s' task_ids in
      (s'', if done then rescheduled + 1 else rescheduled)

  abbrev pub recovery_status : ℕ → ℕ → String
  recovery_status rescheduled revoked =
      if leb revoked rescheduled && leb rescheduled revoked then "completed" else "partial"

  abbrev pub recovery_message : ℕ → ℕ → String
  recovery_message rescheduled revoked = concat "Revoked " (
      concat (decimal revoked) (
        concat " leases, rescheduled "
          (concat (decimal rescheduled) (concat "/" (concat (decimal revoked) " tasks")))))

  -- The counts of the dict that `trigger_recovery` returns.
  pub record Recovered : Type 0 where
    pub revoked : ℕ
    pub rescheduled : ℕ

  unfoldable pub recover_tasks : ClusterState → String → List String → ClusterState × Recovered
  recover_tasks s node_id [] = (
    log_event s "" node_id "full_recovery" "completed" "No active leases to revoke",
    record { revoked = 0; rescheduled = 0 },
  )
  recover_tasks s node_id (task_id ∷ task_ids) =
      let (s', rescheduled) = reschedule_orphaned s (task_id ∷ task_ids) in
      let revoked = length (task_id ∷ task_ids) in
      (
        log_event s' "" node_id "full_recovery" (recovery_status rescheduled revoked)
            (recovery_message rescheduled revoked),
        record { revoked = revoked; rescheduled = rescheduled },
      )

  -- The totals that the manager itself keeps are not modelled.
  unfoldable pub trigger_recovery : ClusterState → String → ClusterState × Recovered
  trigger_recovery s node_id =
      let (s', revoked) = revoke_all_for_node s node_id in recover_tasks s' node_id revoked
