-- ===== src/State/Follows.antt =====
-- The stored tasks across an operation: a step further, and still one per id.
use hermes_agent_cluster.Prelude.{
  ℕ, ◌≡◌, refl, sym, subst, String, Option, none, some, List, [], ◌∷◌, inl, inr, Bool-cases,
  Option-cases, leb,
}
use hermes_agent_cluster.Table.{get}
use hermes_agent_cluster.Table.Laws.{IsKeyed, put-IsKeyed}
use hermes_agent_cluster.Models.{Task, TaskStatus, TaskSync, SyncMessage, task_key}
use hermes_agent_cluster.State.{ClusterState}
use hermes_agent_cluster.State.Tasks.{edit_task, set_task_status, requeue_task, requeue_edit}
use hermes_agent_cluster.State.Tasks.Steps.{Evolves, Evolves-refl, Evolves-trans}
use hermes_agent_cluster.State.Tasks.Invariant.{tasks-revoke_lease_of}
use hermes_agent_cluster.State.Sync.{
  parse_status, apply_status, apply_task_state, handle_sync_message, handle_batch_sync,
}
use hermes_agent_cluster.State.Schedule.{schedule_pending, started}
use hermes_agent_cluster.State.Schedule.Rule.{schedule_pending_ind}
use hermes_agent_cluster.State.Schedule.Safety.{tasks-assign}
use hermes_agent_cluster.State.Schedule.Kept.{schedule-Evolves}

-- The tasks of `s'` are those of `s`, further on, and still one per id.
pub record Follows (s s' : ClusterState) : Type 0 where
  pub evolves : Evolves s.tasks s'.tasks
  pub keyed : IsKeyed task_key s'.tasks

pub Follows-trans : {s t u : ClusterState} → Follows s t → Follows t u → Follows s u
Follows-trans {s} {t} {u} a b = record {
  evolves = Evolves-trans s.tasks t.tasks u.tasks a.evolves b.evolves;
  keyed = b.keyed;
}

-- An operation that leaves the tasks alone.
pub Follows-same :
    (s s' : ClusterState) → s'.tasks ≡ s.tasks → IsKeyed task_key s.tasks → Follows s s'
Follows-same s s' e keyed = record {
  evolves = subst (λ ts. Evolves s.tasks ts) (sym e) (Evolves-refl s.tasks);
  keyed = subst (IsKeyed task_key) (sym e) keyed;
}

pub edit_task-IsKeyed :
    (s : ClusterState) (task_id : String) (f : Task → Option Task)
    → IsKeyed task_key s.tasks
    → IsKeyed task_key (edit_task s task_id f).0.tasks
unfolding edit_task
edit_task-IsKeyed s task_id f keyed = elim (Option-cases (get task_key task_id s.tasks)) [
  | inl e ↦ rw (e, edit_task) keyed
  | inr (t, e) ↦ elim (Option-cases (f t)) [
    | inl e' ↦ rw (e, e', edit_task) keyed
    | inr (t', e') ↦ rw (e, e', edit_task) (put-IsKeyed task_key t' s.tasks keyed)
  ]
]

pub schedule_pending-Follows :
    (token : ℕ → String) (now : ℕ) (s : ClusterState)
    → IsKeyed task_key s.tasks
    → Follows s (schedule_pending token now s).0
unfolding schedule_pending
schedule_pending-Follows token now s keyed =
    let (left, final, kept) =
      schedule_pending_ind token now s (λ _ _ s'. IsKeyed task_key s'.tasks)
        (record {
          parked = λ t tasks counts u k. k;
          assigned = λ t tasks counts u node pinned k e.
              rw tasks-assign (put-IsKeyed task_key (started node now t) u.tasks k);
        })
        keyed in
    record { evolves = schedule-Evolves token now s keyed; keyed = kept }

pub requeue_task-IsKeyed :
    (s : ClusterState) (task_id reason : String) (now : ℕ)
    → IsKeyed task_key s.tasks
    → IsKeyed task_key (requeue_task s task_id reason now).0.tasks
unfolding requeue_task
requeue_task-IsKeyed s task_id reason now keyed =
    let edit = requeue_edit s.task_retry_limit reason now in
    let s' = (edit_task s task_id edit).0 in
    let keyed' : IsKeyed task_key s'.tasks = edit_task-IsKeyed s task_id edit keyed in
    elim (Bool-cases (edit_task s task_id edit).1) [
      | inl done ↦
          rw (done, requeue_task)
            (subst (IsKeyed task_key) (sym (tasks-revoke_lease_of s' task_id)) keyed')
      | inr refused ↦ rw (refused, requeue_task) keyed'
    ]

apply_status-IsKeyed :
    (s : ClusterState) (state : TaskSync) (status : TaskStatus) (now : ℕ)
    → IsKeyed task_key s.tasks
    → IsKeyed task_key (apply_status s state status now).tasks
unfolding apply_status set_task_status
apply_status-IsKeyed s state status now keyed =
    let first : IsKeyed task_key (set_task_status s state.task_id status "" now).0.tasks =
      edit_task-IsKeyed s state.task_id _ keyed in
    elim (Bool-cases (set_task_status s state.task_id status "" now).1) [
      | inl accepted ↦
          rw (accepted, apply_status)
            (edit_task-IsKeyed (set_task_status s state.task_id status "" now).0 state.task_id _
              first)
      | inr refused ↦ rw (refused, apply_status) first
    ]

apply_task_state-IsKeyed :
    (s : ClusterState) (state : TaskSync) (now : ℕ)
    → IsKeyed task_key s.tasks
    → IsKeyed task_key (apply_task_state s state now).tasks
unfolding apply_task_state
apply_task_state-IsKeyed s state now keyed =
    elim (Option-cases (get task_key state.task_id s.tasks)) [
      | inl new ↦ rw (new, apply_task_state) (put-IsKeyed task_key _ s.tasks keyed)
      | inr (t, e) ↦ elim (Bool-cases (leb state.version t.version)) [
        | inl stale ↦ rw (e, stale, apply_task_state) keyed
        | inr fresh ↦ elim (Option-cases (parse_status state.status)) [
          | inl unknown ↦ rw (e, fresh, unknown, apply_task_state) keyed
          | inr (status, known) ↦
              rw (e, fresh, known, apply_task_state) (apply_status-IsKeyed s state status now keyed)
        ]
      ]
    ]

handle_sync_message-IsKeyed :
    (s : ClusterState) (msg : SyncMessage) (payload : Option TaskSync) (now : ℕ)
    → msg.task_state ≡ payload
    → IsKeyed task_key s.tasks
    → IsKeyed task_key (handle_sync_message s msg now).0.tasks
unfolding handle_sync_message
handle_sync_message-IsKeyed s msg none now e keyed =
    elim (Bool-cases (leb msg.version s.sync_version)) [
      | inl old ↦ rw (old, handle_sync_message) keyed
      | inr new ↦ rw (new, e, handle_sync_message) keyed
    ]
handle_sync_message-IsKeyed s msg (some state) now e keyed =
    elim (Bool-cases (leb msg.version s.sync_version)) [
      | inl old ↦ rw (old, handle_sync_message) keyed
      | inr new ↦
          rw (new, e, handle_sync_message)
            (apply_task_state-IsKeyed (record s { sync_version = msg.version }) state now keyed)
    ]

pub handle_batch_sync-IsKeyed :
    (messages : List SyncMessage) (s : ClusterState) (now : ℕ)
    → IsKeyed task_key s.tasks
    → IsKeyed task_key (handle_batch_sync s messages now).0.tasks
unfolding handle_batch_sync
handle_batch_sync-IsKeyed [] s now keyed = keyed
handle_batch_sync-IsKeyed (msg ∷ messages) s now keyed =
    handle_batch_sync-IsKeyed messages (handle_sync_message s msg now).0 now
      (handle_sync_message-IsKeyed s msg msg.task_state now refl keyed)
