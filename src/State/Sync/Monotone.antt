-- ===== src/State/Sync/Monotone.antt =====
-- What sync messages do to the store.
use hermes_agent_cluster.Prelude.{
  ℕ, ◌≡◌, refl, sym, subst, Option, none, some, List, [], ◌∷◌, arith, inl, inr, Bool-cases,
  Option-cases, ◌==◌, eq_iff, leb,
}
use hermes_agent_cluster.Table.{get, put}
use hermes_agent_cluster.Table.Laws.{get-put}
use hermes_agent_cluster.Models.{Task, TaskStatus, TaskSync, SyncMessage, task_key}
use hermes_agent_cluster.State.{ClusterState}
use hermes_agent_cluster.State.Tasks.{set_task_status}
use hermes_agent_cluster.State.Tasks.Steps.{
  TaskStep, TaskStep-refl, Evolves, Evolves-refl, Evolves-trans, edit_task-Evolves,
}
use hermes_agent_cluster.State.Tasks.Invariant.{set_task_status-Evolves}
use hermes_agent_cluster.State.Sync.{
  parse_status, synced_task, adopt, apply_status, apply_task_state, apply_payload,
  handle_sync_message, handle_batch_sync,
}

-- A write under a new id leaves what was there.
pub put-new-Evolves :
    (tasks : List Task) (new : Task)
    → get task_key new.id tasks ≡ none
    → Evolves tasks (put task_key new tasks)
put-new-Evolves tasks new fresh task_id t e = elim (Bool-cases (new.id == task_id)) [
  | inl hit ↦
      let same : get task_key new.id tasks ≡ some t =
        subst (λ k. get task_key k tasks ≡ some t) (sym ((eq_iff new.id task_id).0 hit)) e in
      absurd (ground arith)
  | inr miss ↦ (t, ground (arith, get-put task_key task_id new tasks), TaskStep-refl t)
]

adopt-TaskStep : (state : TaskSync) (t : Task) → TaskStep t (adopt state t)
adopt-TaskStep state t = record { same_id = refl; version = ground arith; kept = λ h. inl refl }

apply_status-Evolves :
    (s : ClusterState) (state : TaskSync) (status : TaskStatus) (now : ℕ)
    → Evolves s.tasks (apply_status s state status now).tasks
unfolding apply_status
apply_status-Evolves s state status now =
    let first : Evolves s.tasks (set_task_status s state.task_id status "" now).0.tasks =
      set_task_status-Evolves s state.task_id now status "" in
    elim (Bool-cases (set_task_status s state.task_id status "" now).1) [
      | inl accepted ↦
          rw (accepted, apply_status)
            (Evolves-trans s.tasks _ _ first (
              edit_task-Evolves (set_task_status s state.task_id status "" now).0 state.task_id _
                (λ t t' e. subst (TaskStep t) (ground arith) (adopt-TaskStep state t))))
      | inr refused ↦ rw (refused, apply_status) first
    ]

apply_task_state-Evolves :
    (s : ClusterState) (state : TaskSync) (now : ℕ)
    → Evolves s.tasks (apply_task_state s state now).tasks
unfolding apply_task_state
apply_task_state-Evolves s state now = elim (Option-cases (get task_key state.task_id s.tasks)) [
  | inl new ↦ rw (new, apply_task_state) (put-new-Evolves s.tasks (synced_task state now) new)
  | inr (t, e) ↦ elim (Bool-cases (leb state.version t.version)) [
    | inl stale ↦ rw (e, stale, apply_task_state) (Evolves-refl s.tasks)
    | inr fresh ↦ elim (Option-cases (parse_status state.status)) [
      | inl unknown ↦ rw (e, fresh, unknown, apply_task_state) (Evolves-refl s.tasks)
      | inr (status, known) ↦
          rw (e, fresh, known, apply_task_state) (apply_status-Evolves s state status now)
    ]
  ]
]

apply_payload-Evolves :
    (s : ClusterState) (state : Option TaskSync) (now : ℕ)
    → Evolves s.tasks (apply_payload s state now).tasks
apply_payload-Evolves s none now = Evolves-refl s.tasks
apply_payload-Evolves s (some state) now = apply_task_state-Evolves s state now

handle_sync_message-Evolves :
    (s : ClusterState) (msg : SyncMessage) (now : ℕ)
    → Evolves s.tasks (handle_sync_message s msg now).0.tasks
unfolding handle_sync_message
handle_sync_message-Evolves s msg now = elim (Bool-cases (leb msg.version s.sync_version)) [
  | inl old ↦ rw (old, handle_sync_message) (Evolves-refl s.tasks)
  | inr new ↦
      rw (new, handle_sync_message)
        (apply_payload-Evolves (record s { sync_version = msg.version }) msg.task_state now)
]

-- A batch of sync messages, stale, replayed and malformed ones included, keeps the stored tasks.
pub handle_batch_sync-Evolves :
    (s : ClusterState) (messages : List SyncMessage) (now : ℕ)
    → Evolves s.tasks (handle_batch_sync s messages now).0.tasks
unfolding handle_batch_sync
handle_batch_sync-Evolves s [] now = Evolves-refl s.tasks
handle_batch_sync-Evolves s (msg ∷ messages) now =
    let s' = (handle_sync_message s msg now).0 in
    Evolves-trans s.tasks s'.tasks _ (handle_sync_message-Evolves s msg now)
      (handle_batch_sync-Evolves s' messages now)
