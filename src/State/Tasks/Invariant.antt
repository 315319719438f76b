-- ===== src/State/Tasks/Invariant.antt =====
-- Every task method of `ClusterState` takes the stored tasks a step further.
use hermes_agent_cluster.Prelude.{
  ℕ, ◌+◌, ◌≡◌, refl, String, Bool, false, Option, none, some, List, arith, Bool-cases, inl, inr,
  Option-cases, is_empty, strip,
}
use hermes_agent_cluster.Table.{get}
use hermes_agent_cluster.Ballot.{Ballot}
use hermes_agent_cluster.Models.{Task, TaskStatus, lease_key, is_terminal}
use hermes_agent_cluster.State.{ClusterState}
use hermes_agent_cluster.State.Leases.{revoke_lease, get_lease_by_task}
use hermes_agent_cluster.State.Tasks.{
  edit_task, status_edit, requeue_edit, set_task_result, set_task_status, unassign_task,
  unblock_task, unblock_to_ready, set_task_ballot, set_task_cancel_requeue, set_dependencies,
  requeue_task, revoke_lease_of,
}
use hermes_agent_cluster.State.Tasks.Steps.{TaskStep, Evolves, Evolves-refl, edit_task-Evolves}

status_edit-TaskStep :
    (status : TaskStatus) (reason : String) (now : ℕ) (t t' : Task)
    → status_edit status reason now t ≡ some t'
    → TaskStep t t'
unfolding status_edit
status_edit-TaskStep status reason now t t' e = record {
  same_id = ground arith;
  version = ground arith;
  kept = λ h. ground arith;
}

requeue_edit-TaskStep :
    (limit : ℕ) (reason : String) (now : ℕ) (t t' : Task)
    → requeue_edit limit reason now t ≡ some t'
    → TaskStep t t'
unfolding requeue_edit
requeue_edit-TaskStep limit reason now t t' e = record {
  same_id = ground arith;
  version = ground arith;
  kept = λ h. ground arith;
}

-- A write that leaves id and status alone and raises the version.
touched-TaskStep :
    (t t' : Task) → t'.id ≡ t.id → t'.status ≡ t.status → t'.version ≡ t.version + 1 → TaskStep t t'
touched-TaskStep t t' i st v = record { same_id = i; version = omega arith; kept = λ h. inl st }

-- A write of a task that was in no terminal state.
live-TaskStep :
    (t t' : Task)
    → is_terminal t.status ≡ false
    → t'.id ≡ t.id
    → t'.version ≡ t.version + 1
    → TaskStep t t'
live-TaskStep t t' live i v = record {
  same_id = i;
  version = omega arith;
  kept = λ h. absurd (ground arith);
}

pub tasks-revoke_lease : (s : ClusterState) (id : String) → (revoke_lease s id).0.tasks ≡ s.tasks
unfolding revoke_lease
tasks-revoke_lease s id = elim (Option-cases (get lease_key id s.leases)) [
  | inl e ↦ rw (e, revoke_lease) refl
  | inr (lease, e) ↦ rw (e, revoke_lease) refl
]

pub tasks-revoke_lease_of :
    (s : ClusterState) (id : String) → (revoke_lease_of s id).tasks ≡ s.tasks
unfolding revoke_lease_of
tasks-revoke_lease_of s id = elim (Option-cases (get_lease_by_task s id)) [
  | inl e ↦ rw (e, revoke_lease_of) refl
  | inr (lease, e) ↦ rw (e, revoke_lease_of) (tasks-revoke_lease s lease.id)
]

module _ (s : ClusterState) (task_id : String) (now : ℕ) where
  pub set_task_status-Evolves :
      (status : TaskStatus) (reason : String)
      → Evolves s.tasks (set_task_status s task_id status reason now).0.tasks
  unfolding set_task_status
  set_task_status-Evolves status reason =
      edit_task-Evolves s task_id _ (status_edit-TaskStep status reason now)

  pub set_task_result-Evolves :
      (result : Option String) → Evolves s.tasks (set_task_result s task_id result now).0.tasks
  unfolding set_task_result
  set_task_result-Evolves none = Evolves-refl s.tasks
  set_task_result-Evolves (some result) = elim (Bool-cases (is_empty (strip result))) [
    | inl blank ↦ rw blank (Evolves-refl s.tasks)
    | inr given ↦ rw given (
        edit_task-Evolves s task_id _
          (λ t t' e. touched-TaskStep t t' (ground arith) (ground arith) (ground arith)))
  ]

  pub unassign_task-Evolves : Evolves s.tasks (unassign_task s task_id now).0.tasks
  unfolding unassign_task
  unassign_task-Evolves =
      edit_task-Evolves s task_id _
        (λ t t' e. live-TaskStep t t' (ground arith) (ground arith) (ground arith))

  pub unblock_task-Evolves : Evolves s.tasks (unblock_task s task_id now).0.tasks
  unfolding unblock_task
  unblock_task-Evolves =
      edit_task-Evolves s task_id _
        (λ t t' e. live-TaskStep t t' (ground arith) (ground arith) (ground arith))

  pub unblock_to_ready-Evolves : Evolves s.tasks (unblock_to_ready s task_id now).0.tasks
  unfolding unblock_to_ready
  unblock_to_ready-Evolves =
      edit_task-Evolves s task_id _
        (λ t t' e. live-TaskStep t t' (ground arith) (ground arith) (ground arith))

  pub set_task_ballot-Evolves :
      (ballot : Option Ballot) → Evolves s.tasks (set_task_ballot s task_id ballot now).0.tasks
  unfolding set_task_ballot
  set_task_ballot-Evolves ballot =
      edit_task-Evolves s task_id _
        (λ t t' e. touched-TaskStep t t' (ground arith) (ground arith) (ground arith))

  pub set_task_cancel_requeue-Evolves :
      (requeue : Bool) → Evolves s.tasks (set_task_cancel_requeue s task_id requeue now).0.tasks
  unfolding set_task_cancel_requeue
  set_task_cancel_requeue-Evolves requeue =
      edit_task-Evolves s task_id _
        (λ t t' e. touched-TaskStep t t' (ground arith) (ground arith) (ground arith))

  pub set_dependencies-Evolves :
      (depends_on : List String)
      → Evolves s.tasks (set_dependencies s task_id depends_on now).0.tasks
  unfolding set_dependencies
  set_dependencies-Evolves depends_on =
      edit_task-Evolves s task_id _
        (λ t t' e. touched-TaskStep t t' (ground arith) (ground arith) (ground arith))

  -- The lease part of `requeue_task` changes no task.
  tasks-requeue_task :
      (reason : String)
      → (requeue_task s task_id reason now).0.tasks
        ≡ (edit_task s task_id (requeue_edit s.task_retry_limit reason now)).0.tasks
  unfolding requeue_task
  tasks-requeue_task reason =
      let (s', done) = edit_task s task_id (requeue_edit s.task_retry_limit reason now) in
      elim (Bool-cases done) [
        | inl yes_done ↦ rw yes_done (tasks-revoke_lease_of s' task_id)
        | inr not_done ↦ rw not_done refl
      ]

  pub requeue_task-Evolves :
      (reason : String) → Evolves s.tasks (requeue_task s task_id reason now).0.tasks
  requeue_task-Evolves reason =
      rw (tasks-requeue_task reason)
        (edit_task-Evolves s task_id _ (requeue_edit-TaskStep s.task_retry_limit reason now))
