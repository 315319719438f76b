-- ===== src/Store/Mirror/Tasks.antt =====
-- The task methods that both stores (hermes_cluster/state/cluster_store.py and state/__init__.py)
-- guard alike do the same to the tasks.
use hermes_agent_cluster.Prelude.{
  ℕ, ◌≡◌, refl, sym, ap, ◌∙◌, String, Bool, true, false, not, ◌&&◌, ◌↔◌, is_empty, strip, Option,
  none, some, arith, inl, inr, ◌==◌, Bool-cases, Option-cases, if◌then◌else◌,
}
use hermes_agent_cluster.Table.{get}
use hermes_agent_cluster.Table.Laws.{IsKeyed, count-get-none}
use hermes_agent_cluster.Ballot.{Ballot}
use hermes_agent_cluster.Models.{
  Task, TaskStatus, task_key, is_terminal, is_blocked, is_cancel_requested, is_cancelled,
}
use hermes_agent_cluster.State.{ClusterState}
use hermes_agent_cluster.State.Tasks.{edit_task}
use hermes_agent_cluster.State.Tasks as Memory
use hermes_agent_cluster.Store.{ClusterStore}
use hermes_agent_cluster.Store.Tasks.{update_tasks}
use hermes_agent_cluster.Store.Tasks as Rows
use hermes_agent_cluster.Store.Rows.{
  hit, update_where-absent, update_where-get, update_where-hit, any_row-absent, any_row-get,
  any_row-hit,
}
use hermes_agent_cluster.Store.Mirror.{view}

abbrev pub edit_if : (Task → Bool) → (Task → Task) → Task → Option Task
edit_if g f t = if g t then some (f t) else none

abbrev pub both : ClusterState × Bool → ClusterStore × Bool
both (s, done) = (view s, done)

pub update_tasks-view :
    (s : ClusterState) (task_id : String) (g : Task → Bool) (f : Task → Task)
    → ((t : Task) → (f t).id ≡ t.id)
    → IsKeyed task_key s.tasks
    → update_tasks (view s) (hit task_key task_id g) f ≡ both (edit_task s task_id (edit_if g f))
unfolding update_tasks edit_task
update_tasks-view s task_id g f kept keyed = elim (Option-cases (get task_key task_id s.tasks)) [
  | inl e ↦
      let gone = count-get-none task_key task_id s.tasks e in
      rw
        (
          e,
          edit_task,
          update_tasks,
          update_where-absent task_key task_id g f s.tasks gone,
          any_row-absent task_key task_id g s.tasks gone,
        )
        refl
  | inr (t, e) ↦
      rw
        (
          e,
          edit_task,
          update_tasks,
          update_where-get task_key task_id g f s.tasks t kept keyed e,
          any_row-get task_key task_id g s.tasks t keyed e,
        )
        (elim (Bool-cases (g t)) [ inl on ↦ rw on refl | inr off ↦ rw off refl ])
]

-- Without a condition besides the id.
pub update_row-view :
    (s : ClusterState) (task_id : String) (f : Task → Task)
    → ((t : Task) → (f t).id ≡ t.id)
    → IsKeyed task_key s.tasks
    → update_tasks (view s) (λ t. t.id == task_id) f ≡ both (edit_task s task_id (λ t. some (f t)))
unfolding update_tasks
update_row-view s task_id f kept keyed =
    rw (update_where-hit task_key task_id f s.tasks, any_row-hit task_key task_id s.tasks)
      (unfold update_tasks in update_tasks-view s task_id (λ t. true) f kept keyed)

pub set_task_result-view :
    (s : ClusterState) (task_id : String) (result : Option String) (now : ℕ)
    → IsKeyed task_key s.tasks
    → Rows.set_task_result (view s) task_id result now
      ≡ both (Memory.set_task_result s task_id result now)
unfolding Rows.set_task_result Memory.set_task_result
set_task_result-view s task_id none now keyed = refl
set_task_result-view s task_id (some result) now keyed =
    elim (Bool-cases (is_empty (strip result))) [
      | inl blank ↦ rw blank refl
      | inr given ↦ rw given (update_row-view s task_id _ (λ t. refl) keyed)
    ]

pub unblock_task-view :
    (s : ClusterState) (task_id : String) (now : ℕ)
    → IsKeyed task_key s.tasks
    → Rows.unblock_task (view s) task_id now ≡ both (Memory.unblock_task s task_id now)
unfolding Rows.unblock_task Memory.unblock_task
unblock_task-view s task_id now keyed =
    update_tasks-view s task_id (λ t. is_blocked t.status) _ (λ t. refl) keyed

pub unblock_to_ready-view :
    (s : ClusterState) (task_id : String) (now : ℕ)
    → IsKeyed task_key s.tasks
    → Rows.unblock_to_ready (view s) task_id now ≡ both (Memory.unblock_to_ready s task_id now)
unfolding Rows.unblock_to_ready Memory.unblock_to_ready
unblock_to_ready-view s task_id now keyed =
    update_tasks-view s task_id (λ t. is_blocked t.status) _ (λ t. refl) keyed

pub set_task_ballot-view :
    (s : ClusterState) (task_id : String) (ballot : Option Ballot) (now : ℕ)
    → IsKeyed task_key s.tasks
    → Rows.set_task_ballot (view s) task_id ballot now
      ≡ both (Memory.set_task_ballot s task_id ballot now)
unfolding Rows.set_task_ballot Memory.set_task_ballot
set_task_ballot-view s task_id ballot now keyed = update_row-view s task_id _ (λ t. refl) keyed

pub set_task_cancel_requeue-view :
    (s : ClusterState) (task_id : String) (requeue : Bool) (now : ℕ)
    → IsKeyed task_key s.tasks
    → Rows.set_task_cancel_requeue (view s) task_id requeue now
      ≡ both (Memory.set_task_cancel_requeue s task_id requeue now)
unfolding Rows.set_task_cancel_requeue Memory.set_task_cancel_requeue
set_task_cancel_requeue-view s task_id requeue now keyed =
    update_row-view s task_id _ (λ t. refl) keyed

edit_task-some :
    (s : ClusterState) (task_id : String) (f : Task → Option Task) (t t' : Task)
    → get task_key task_id s.tasks ≡ some t
    → f t ≡ some t'
    → edit_task s task_id f ≡ (Memory.store_task t' s, true)
unfolding edit_task
edit_task-some s task_id f t t' e h = rw (e, edit_task, h) refl

edit_task-none :
    (s : ClusterState) (task_id : String) (f : Task → Option Task) (t : Task)
    → get task_key task_id s.tasks ≡ some t
    → f t ≡ none
    → edit_task s task_id f ≡ (s, false)
unfolding edit_task
edit_task-none s task_id f t e h = rw (e, edit_task, h) refl

set_task_status-row :
    (s : ClusterState) (task_id : String) (status : TaskStatus) (reason : String) (now : ℕ)
    → IsKeyed task_key s.tasks
    → Rows.set_task_status (view s) task_id status reason now
      ≡ both (
          edit_task s task_id
            (λ t. some (Memory.with_reason reason (Memory.with_status status now t))))
unfolding Rows.set_task_status
set_task_status-row s task_id status reason now keyed = elim (Bool-cases (is_empty reason)) [
  | inl blank ↦ rw blank (update_row-view s task_id _ (λ t. refl) keyed)
  | inr given ↦ rw given (update_row-view s task_id _ (λ t. refl) keyed)
]

-- The two stores' `set_task_status` do the same to a stored task exactly when it is not terminal or
-- is one whose cancel request is answered; the SQLite store writes the status in all cases.
pub set_task_status-agrees :
    (s : ClusterState) (task_id : String) (status : TaskStatus) (reason : String) (now : ℕ)
    (t : Task)
    → IsKeyed task_key s.tasks
    → get task_key task_id s.tasks ≡ some t
    → (Rows.set_task_status (view s) task_id status reason now
        ≡ both (Memory.set_task_status s task_id status reason now))
      ↔ ((is_terminal t.status && not (is_cancel_requested t.status && is_cancelled status))
          ≡ false)
unfolding Memory.set_task_status
set_task_status-agrees s task_id status reason now t keyed e =
    let new : Task = Memory.with_reason reason (Memory.with_status status now t) in
    let written : Rows.set_task_status (view s) task_id status reason now
        ≡ both (Memory.store_task new s, true) =
      set_task_status-row s task_id status reason now keyed
      ∙ ap both (
          edit_task-some s task_id
            (λ u. some (Memory.with_reason reason (Memory.with_status status now u))) t new e
            refl) in
    let edit : Task → Option Task = Memory.status_edit status reason now in
    elim (Bool-cases
      (is_terminal t.status && not (is_cancel_requested t.status && is_cancelled status))) [
        | inl guarded ↦
            let refused : edit_task s task_id edit ≡ (s, false) =
              edit_task-none s task_id edit t e (unfold Memory.status_edit in rw guarded refl) in
            let done : true ≡ false
                → ((is_terminal t.status
                      && not (is_cancel_requested t.status && is_cancelled status))
                    ≡ false) =
              λ h. absurd (ground arith) in
            (
              λ same. done (ap (λ r. r.1) (sym written ∙ same ∙ ap both refused)),
              λ free. absurd (ground arith),
            )
        | inr free ↦
            let done : edit_task s task_id edit ≡ (Memory.store_task new s, true) =
              edit_task-some s task_id edit t new e (unfold Memory.status_edit in rw free refl) in
            (λ same. free, λ _. written ∙ sym (ap both done))
      ]
