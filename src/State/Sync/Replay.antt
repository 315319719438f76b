-- ===== src/State/Sync/Replay.antt =====
-- The counter `sync_version` against the messages that the store handled.
use hermes_agent_cluster.Prelude.{
  ℕ, ◌+◌, ◌≤◌, ◌≡◌, refl, ◌∙◌, String, true, Option, none, some, List, [], ◌∷◌, arith, inl, inr,
  Bool-cases, Option-cases, leb, if◌then◌else◌, All,
}
use hermes_agent_cluster.Table.{get}
use hermes_agent_cluster.Models.{Task, TaskStatus, TaskSync, SyncMessage, task_key}
use hermes_agent_cluster.State.{ClusterState}
use hermes_agent_cluster.State.Tasks.{set_task_status, edit_task}
use hermes_agent_cluster.State.Sync.{
  parse_status, apply_status, apply_task_state, apply_payload, handle_sync_message,
  handle_batch_sync,
}

sync_version-edit_task :
    (s : ClusterState) (task_id : String) (f : Task → Option Task)
    → (edit_task s task_id f).0.sync_version ≡ s.sync_version
unfolding edit_task
sync_version-edit_task s task_id f = elim (Option-cases (get task_key task_id s.tasks)) [
  | inl e ↦ rw (e, edit_task) refl
  | inr (t, e) ↦ elim (Option-cases (f t)) [
    | inl e' ↦ rw (e, e', edit_task) refl
    | inr (t', e') ↦ rw (e, e', edit_task) refl
  ]
]

sync_version-apply_status :
    (s : ClusterState) (state : TaskSync) (status : TaskStatus) (now : ℕ)
    → (apply_status s state status now).sync_version ≡ s.sync_version
unfolding apply_status set_task_status
sync_version-apply_status s state status now =
    let first : (set_task_status s state.task_id status "" now).0.sync_version ≡ s.sync_version =
      sync_version-edit_task s state.task_id _ in
    elim (Bool-cases (set_task_status s state.task_id status "" now).1) [
      | inl accepted ↦
          rw (accepted, apply_status)
            (sync_version-edit_task (set_task_status s state.task_id status "" now).0 state.task_id
                _
              ∙ first)
      | inr refused ↦ rw (refused, apply_status) first
    ]

sync_version-apply_task_state :
    (s : ClusterState) (state : TaskSync) (now : ℕ)
    → (apply_task_state s state now).sync_version ≡ s.sync_version
unfolding apply_task_state
sync_version-apply_task_state s state now =
    elim (Option-cases (get task_key state.task_id s.tasks)) [
      | inl new ↦ rw (new, apply_task_state) refl
      | inr (t, e) ↦ elim (Bool-cases (leb state.version t.version)) [
        | inl stale ↦ rw (e, stale, apply_task_state) refl
        | inr fresh ↦ elim (Option-cases (parse_status state.status)) [
          | inl unknown ↦ rw (e, fresh, unknown, apply_task_state) refl
          | inr (status, known) ↦
              rw (e, fresh, known, apply_task_state) (sync_version-apply_status s state status now)
        ]
      ]
    ]

sync_version-apply_payload :
    (s : ClusterState) (state : Option TaskSync) (now : ℕ)
    → (apply_payload s state now).sync_version ≡ s.sync_version
sync_version-apply_payload s none now = refl
sync_version-apply_payload s (some state) now = sync_version-apply_task_state s state now

abbrev raised : ℕ → ℕ → ℕ
raised old new = if leb new old then old else new

-- The highest version among the counter and the messages.
unfoldable pub highest : ℕ → List SyncMessage → ℕ
highest counter [] = counter
highest counter (msg ∷ messages) = highest (raised counter msg.version) messages

sync_version-handle :
    (s : ClusterState) (msg : SyncMessage) (now : ℕ)
    → let (s', applied) = handle_sync_message s msg now in
      (s'.sync_version ≡ raised s.sync_version msg.version)
      × ((if applied then 1 else 0) + s.sync_version ≤ s'.sync_version)
unfolding handle_sync_message
sync_version-handle s msg now = elim (Bool-cases (leb msg.version s.sync_version)) [
  | inl old ↦ rw (old, handle_sync_message) (refl, omega arith)
  | inr new ↦
      let same =
        sync_version-apply_payload (record s { sync_version = msg.version }) msg.task_state now in
      rw (new, handle_sync_message) (same, ground (arith, same))
]

highest-bounds :
    (counter : ℕ) (messages : List SyncMessage)
    → (counter ≤ highest counter messages)
      × All (λ m. m.version ≤ highest counter messages) messages
unfolding highest
highest-bounds counter [] = (omega arith, tt)
highest-bounds counter (msg ∷ messages) =
    let (above, all) = highest-bounds (raised counter msg.version) messages in
    (ground (arith, above), (ground (arith, above), all))

sync_version-batch :
    (s : ClusterState) (messages : List SyncMessage) (now : ℕ)
    → let (s', applied) = handle_batch_sync s messages now in
      (s'.sync_version ≡ highest s.sync_version messages)
      × (applied + s.sync_version ≤ s'.sync_version)
unfolding handle_batch_sync highest
sync_version-batch s [] now = (refl, omega arith)
sync_version-batch s (msg ∷ messages) now =
    let s' = (handle_sync_message s msg now).0 in
    let (step, more) = sync_version-handle s msg now in
    let (rest, total) = sync_version-batch s' messages now in
    (rw step at rest, ground (arith, more, total))

-- Messages that the counter has passed change nothing.
stale_batch :
    (s : ClusterState) (messages : List SyncMessage) (now : ℕ)
    → All (λ m. m.version ≤ s.sync_version) messages
    → handle_batch_sync s messages now ≡ (s, 0)
unfolding handle_batch_sync handle_sync_message
stale_batch s [] now old = refl
stale_batch s (msg ∷ messages) now old =
    let passed : leb msg.version s.sync_version ≡ true = ground (arith, old.0) in
    rw (passed, handle_batch_sync, handle_sync_message, stale_batch s messages now old.1) refl

-- After a batch the sync version is the highest among its old value and the versions of the messages,
-- it has risen by at least the number of messages counted as applied, and the same batch handled
-- again, at any time, changes nothing and counts no message.
pub handle_batch_sync-replayed :
    (s : ClusterState) (messages : List SyncMessage) (now later : ℕ)
    → let (s', applied) = handle_batch_sync s messages now in
      (s'.sync_version ≡ highest s.sync_version messages)
      × (applied + s.sync_version ≤ s'.sync_version)
      × (handle_batch_sync s' messages later ≡ (s', 0))
handle_batch_sync-replayed s messages now later =
    let s' = (handle_batch_sync s messages now).0 in
    let (version, total) = sync_version-batch s messages now in
    (
      version,
      total,
      stale_batch s' messages later (rw version (highest-bounds s.sync_version messages).1),
    )
