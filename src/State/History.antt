-- ===== src/State/History.antt =====
-- The life of the stored tasks over any sequence of the store's operations.
use hermes_agent_cluster.Prelude.{
  ℕ, ◌≡◌, refl, String, Bool, Option, none, some, List, inl, inr, Bool-cases, is_empty, strip,
}
use hermes_agent_cluster.Table.{get}
use hermes_agent_cluster.Table.Laws.{IsKeyed, put-IsKeyed}
use hermes_agent_cluster.Ballot.{Ballot}
use hermes_agent_cluster.Models.{Task, TaskStatus, SyncMessage, task_key}
use hermes_agent_cluster.State.{ClusterState}
use hermes_agent_cluster.State.Leases.{create_lease, revoke_lease, get_active_leases}
use hermes_agent_cluster.State.Tasks.{
  TaskPlan, create_task, set_task_result, set_task_status, unassign_task, unblock_task,
  unblock_to_ready, set_task_ballot, set_task_cancel_requeue, set_dependencies, requeue_task,
}
use hermes_agent_cluster.State.Tasks.Invariant.{
  set_task_status-Evolves, set_task_result-Evolves, unassign_task-Evolves, unblock_task-Evolves,
  unblock_to_ready-Evolves, set_task_ballot-Evolves, set_task_cancel_requeue-Evolves,
  set_dependencies-Evolves, requeue_task-Evolves, tasks-revoke_lease,
}
use hermes_agent_cluster.State.Sync.Monotone.{put-new-Evolves, handle_batch_sync-Evolves}
use hermes_agent_cluster.State.Sync.{handle_batch_sync}
use hermes_agent_cluster.State.Tasks.Promotion.{trigger_pending_tasks}
use hermes_agent_cluster.State.Tasks.Promotion.Gate.{
  trigger_pending_tasks-Gated, trigger_pending_tasks-IsKeyed,
}
use hermes_agent_cluster.State.Schedule.{schedule_pending}
use hermes_agent_cluster.State.Follows.{
  Follows, Follows-trans, Follows-same, edit_task-IsKeyed, schedule_pending-Follows,
  requeue_task-IsKeyed, handle_batch_sync-IsKeyed,
}

-- The operations, with their arguments. The code gives a new task a new id, so a creation over a
-- stored one is no step.
pub data Step (token : ℕ → String) (hold_reason : List Task → Task → Option String)
    (s : ClusterState) : ClusterState → Type 0 where
  creates :
      (plan : TaskPlan) (now : ℕ)
      → get task_key plan.task_id s.tasks ≡ none
      → Step token hold_reason s (create_task s plan now).0
  sets_status :
      (task_id : String) (status : TaskStatus) (reason : String) (now : ℕ)
      → Step token hold_reason s (set_task_status s task_id status reason now).0
  sets_result :
      (task_id : String) (result : Option String) (now : ℕ)
      → Step token hold_reason s (set_task_result s task_id result now).0
  unassigns :
      (task_id : String) (now : ℕ) → Step token hold_reason s (unassign_task s task_id now).0
  unblocks : (task_id : String) (now : ℕ) → Step token hold_reason s (unblock_task s task_id now).0
  readies :
      (task_id : String) (now : ℕ) → Step token hold_reason s (unblock_to_ready s task_id now).0
  sets_ballot :
      (task_id : String) (ballot : Option Ballot) (now : ℕ)
      → Step token hold_reason s (set_task_ballot s task_id ballot now).0
  sets_requeue :
      (task_id : String) (requeue : Bool) (now : ℕ)
      → Step token hold_reason s (set_task_cancel_requeue s task_id requeue now).0
  sets_dependencies :
      (task_id : String) (depends_on : List String) (now : ℕ)
      → Step token hold_reason s (set_dependencies s task_id depends_on now).0
  requeues :
      (task_id reason : String) (now : ℕ)
      → Step token hold_reason s (requeue_task s task_id reason now).0
  leases :
      (task_id node_id : String) (ttl now : ℕ)
      → Step token hold_reason s (create_lease token s task_id node_id ttl now).0
  revokes : (lease_id : String) → Step token hold_reason s (revoke_lease s lease_id).0
  expires : (now : ℕ) → Step token hold_reason s (get_active_leases s now).0
  schedules : (now : ℕ) → Step token hold_reason s (schedule_pending token now s).0
  triggers : (now : ℕ) → Step token hold_reason s (trigger_pending_tasks hold_reason s now).0
  syncs :
      (messages : List SyncMessage) (now : ℕ)
      → Step token hold_reason s (handle_batch_sync s messages now).0

pub data Reaches (token : ℕ → String) (hold_reason : List Task → Task → Option String)
    (s : ClusterState) : ClusterState → Type 0 where
  here : Reaches token hold_reason s s
  after :
      {t u : ClusterState}
      → Reaches token hold_reason s t
      → Step token hold_reason t u
      → Reaches token hold_reason s u

module _ (token : ℕ → String) (hold_reason : List Task → Task → Option String) where
  Step-Follows :
      (s s' : ClusterState) → Step token hold_reason s s' → IsKeyed task_key s.tasks → Follows s s'
  unfolding create_task set_task_status set_task_result unassign_task unblock_task unblock_to_ready
      set_task_ballot set_task_cancel_requeue set_dependencies get_active_leases create_lease
  Step-Follows s _ (creates plan now new) keyed = record {
    evolves = put-new-Evolves s.tasks _ new;
    keyed = put-IsKeyed task_key _ s.tasks keyed;
  }
  Step-Follows s _ (sets_status task_id status reason now) keyed = record {
    evolves = set_task_status-Evolves s task_id now status reason;
    keyed = edit_task-IsKeyed s task_id _ keyed;
  }
  Step-Follows s _ (sets_result task_id none now) keyed = Follows-same s s refl keyed
  Step-Follows s _ (sets_result task_id (some result) now) keyed = record {
    evolves = set_task_result-Evolves s task_id now (some result);
    keyed = elim (Bool-cases (is_empty (strip result))) [
      | inl blank ↦ rw blank keyed
      | inr said ↦ rw said (edit_task-IsKeyed s task_id _ keyed)
    ];
  }
  Step-Follows s _ (unassigns task_id now) keyed = record {
    evolves = unassign_task-Evolves s task_id now;
    keyed = edit_task-IsKeyed s task_id _ keyed;
  }
  Step-Follows s _ (unblocks task_id now) keyed = record {
    evolves = unblock_task-Evolves s task_id now;
    keyed = edit_task-IsKeyed s task_id _ keyed;
  }
  Step-Follows s _ (readies task_id now) keyed = record {
    evolves = unblock_to_ready-Evolves s task_id now;
    keyed = edit_task-IsKeyed s task_id _ keyed;
  }
  Step-Follows s _ (sets_ballot task_id ballot now) keyed = record {
    evolves = set_task_ballot-Evolves s task_id now ballot;
    keyed = edit_task-IsKeyed s task_id _ keyed;
  }
  Step-Follows s _ (sets_requeue task_id requeue now) keyed = record {
    evolves = set_task_cancel_requeue-Evolves s task_id now requeue;
    keyed = edit_task-IsKeyed s task_id _ keyed;
  }
  Step-Follows s _ (sets_dependencies task_id depends_on now) keyed = record {
    evolves = set_dependencies-Evolves s task_id now depends_on;
    keyed = edit_task-IsKeyed s task_id _ keyed;
  }
  Step-Follows s _ (requeues task_id reason now) keyed = record {
    evolves = requeue_task-Evolves s task_id now reason;
    keyed = requeue_task-IsKeyed s task_id reason now keyed;
  }
  Step-Follows s _ (leases task_id node_id ttl now) keyed = Follows-same s _ refl keyed
  Step-Follows s _ (revokes lease_id) keyed = Follows-same s _ (tasks-revoke_lease s lease_id) keyed
  Step-Follows s _ (expires now) keyed = Follows-same s _ refl keyed
  Step-Follows s _ (schedules now) keyed = schedule_pending-Follows token now s keyed
  Step-Follows s _ (triggers now) keyed = record {
    evolves = λ task_id t e.
        let (t', there, gated) = trigger_pending_tasks-Gated hold_reason s now task_id t e in
        (t', there, gated.step);
    keyed = trigger_pending_tasks-IsKeyed hold_reason s now keyed;
  }
  Step-Follows s _ (syncs messages now) keyed = record {
    evolves = handle_batch_sync-Evolves s messages now;
    keyed = handle_batch_sync-IsKeyed messages s now keyed;
  }

  -- From a task table with one entry per id: however the operations of the store follow each other,
  -- under any landing gate, a stored task is never lost, its version never falls, and a terminal
  -- status is left only from `cancel_requested` to `cancelled`; the table keeps one entry per id.
  pub Reaches-Follows :
      (s s' : ClusterState)
      → Reaches token hold_reason s s'
      → IsKeyed task_key s.tasks
      → Follows s s'
  Reaches-Follows s _ here keyed = Follows-same s s refl keyed
  Reaches-Follows s _ (after {t} {u} before step) keyed =
      let so_far : Follows s t = Reaches-Follows s t before keyed in
      Follows-trans so_far (Step-Follows t u step so_far.keyed)
