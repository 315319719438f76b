-- ===== src/State/Tasks/Promotion.antt =====
-- `trigger_pending_tasks` of `ClusterState` (hermes_cluster/state/__init__.py). The landing gate,
-- `hold_reason` of core/landing_gate.py, is the parameter `hold_reason`.
pub mod Gate
use hermes_agent_cluster.Prelude.{
  ℕ, ◌+◌, String, Bool, true, false, not, Option, none, some, List, [], ◌∷◌, map, ◌==◌,
  if◌then◌else◌, all_of,
}
use hermes_agent_cluster.Table.{get, put}
use hermes_agent_cluster.Models.{Task, TaskStatus, task_key, is_pending, is_completed}
use hermes_agent_cluster.State.{ClusterState}

-- `self._tasks.get(d) is not None and self._tasks[d].status == completed`
unfoldable pub is_done : List Task → String → Bool
is_done tasks dep_id = elim (get task_key dep_id tasks) [
  | none ↦ false
  | some dep ↦ is_completed dep.status
]

unfoldable pub dependencies_met : List Task → Task → Bool
dependencies_met tasks t = all_of (is_done tasks) t.depends_on

abbrev pub same_reason : Option String → String → Bool
same_reason none reason = false
same_reason (some old) reason = old == reason

abbrev pub hold_task : String → ℕ → Task → Task
hold_task reason now t =
    if same_reason t.fail_reason reason
    then t
    else record t { fail_reason = some reason; updated_at = now }

abbrev pub promote_task : ℕ → Task → Task
promote_task now t = record t { status = TaskStatus.ready; updated_at = now }

module _ (hold_reason : List Task → Task → Option String) where
  -- One round: the task as it is left, and the number of promotions.
  unfoldable pub promotion : List Task → ℕ → Task → Task × ℕ
  promotion tasks now t =
      if not (is_pending t.status)
      then (t, 0)
      else if not (dependencies_met tasks t)
      then (t, 0)
      else elim (hold_reason tasks t) [
        | some reason ↦ (hold_task reason now t, 0)
        | none ↦ (promote_task now t, 1)
      ]

  -- The loop over the keys: each round reads the tasks as the rounds before left them.
  unfoldable pub promotion_loop : List String → List Task → ℕ → List Task × ℕ
  promotion_loop [] tasks now = (tasks, 0)
  promotion_loop (task_id ∷ ids) tasks now = elim (get task_key task_id tasks) [
    | none ↦ promotion_loop ids tasks now
    | some t ↦
        let (t', n) = promotion tasks now t in
        let (tasks', promoted) = promotion_loop ids (put task_key t' tasks) now in
        (tasks', n + promoted)
  ]

  unfoldable pub trigger_pending_tasks : ClusterState → ℕ → ClusterState × ℕ
  trigger_pending_tasks s now =
      let (tasks, promoted) = promotion_loop (map task_key s.tasks) s.tasks now in
      (record s { tasks = tasks }, promoted)
