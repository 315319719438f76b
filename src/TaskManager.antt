-- ===== src/TaskManager.antt =====
-- hermes_cluster/task_manager.py: `TaskManager` over the SQLite store. Numbers that the code checks
-- or slices with (priority, offset, limit, ages) are natural numbers here. `str.lower` is the parameter
-- `lower`. Logging is no part.

pub mod Listing
pub mod Errors
pub mod Edits
pub mod Purge
use hermes_agent_cluster.Prelude.{
  ℕ, zero, suc, ◌+◌, ◌-◌, String, Bool, true, false, not, ◌&&◌, ◌||◌, Option, none, some, List, [],
  ◌∷◌, map, ◌==◌, ltb, leb, length, if◌then◌else◌, is_empty, strip, keep, member, drop, sorted,
  all_of, is_some,
}
use hermes_agent_cluster.Table.{get}
use hermes_agent_cluster.Models.{
  Task, TaskStatus, SchedulingDecision, task_key, node_key, is_online, is_ready, is_pending,
  is_completed, is_failed, is_active,
}
use hermes_agent_cluster.Landing.Text.{contains}
use hermes_agent_cluster.Sync.{str_lt}
use hermes_agent_cluster.Store.{ClusterStore, update_where}
use hermes_agent_cluster.Store.Tasks.{set_task_status}

pub data SortField : Type 0 where
  priority created_at updated_at status title : SortField

pub data SortOrder : Type 0 where
  asc desc : SortOrder

pub record TaskFilter : Type 0 where
  pub status : Option String
  pub assigned_to : Option String
  pub requires : Option String
  pub priority_min : Option ℕ
  pub priority_max : Option ℕ
  pub search : Option String
  pub sort_by : SortField
  pub sort_order : SortOrder
  pub offset : ℕ
  pub limit : ℕ

-- `TaskStatus.value`
abbrev pub status_value : TaskStatus → String
status_value TaskStatus.pending = "pending"
status_value TaskStatus.ready = "ready"
status_value TaskStatus.assigned = "assigned"
status_value TaskStatus.running = "running"
status_value TaskStatus.completed = "completed"
status_value TaskStatus.failed = "failed"
status_value TaskStatus.blocked = "blocked"
status_value TaskStatus.cancel_requested = "cancel_requested"
status_value TaskStatus.cancelled = "cancelled"

-- `if f.x: result = [t for t in result if ...]`: an empty text is no filter.
abbrev pub by_text : Option String → (String → Bool) → Bool
by_text none p = true
by_text (some text) p = if is_empty text then true else p text

abbrev pub by_number : Option ℕ → (ℕ → Bool) → Bool
by_number none p = true
by_number (some n) p = p n

abbrev pub same_text : Option String → String → Bool
same_text none text = false
same_text (some a) text = a == text

unfoldable pub apply_filters : (String → String) → List Task → TaskFilter → List Task
apply_filters lower tasks f =
    keep (λ t. by_text f.search (λ text. contains (lower text) (lower t.title)))
      (keep (λ t. by_number f.priority_max (λ n. leb t.priority n))
        (keep (λ t. by_number f.priority_min (λ n. leb n t.priority))
          (keep (λ t. by_text f.requires (λ text. member text t.requires))
            (keep (λ t. by_text f.assigned_to (λ text. same_text t.assigned_to text))
              (keep (λ t. by_text f.status (λ text. status_value t.status == text)) tasks)))))

-- `key(a) <= key(b)`
unfoldable pub key_le : (String → String) → SortField → Task → Task → Bool
key_le lower SortField.priority a b = leb a.priority b.priority
key_le lower SortField.created_at a b = leb a.created_at b.created_at
key_le lower SortField.updated_at a b = leb a.updated_at b.updated_at
key_le lower SortField.status a b = not (str_lt (status_value b.status) (status_value a.status))
key_le lower SortField.title a b = not (str_lt (lower b.title) (lower a.title))

unfoldable pub order_le : (String → String) → SortField → SortOrder → Task → Task → Bool
order_le lower field SortOrder.asc a b = key_le lower field a b
order_le lower field SortOrder.desc a b = key_le lower field b a

-- Python's sort is stable in both directions.
unfoldable pub apply_sort : (String → String) → List Task → SortField → SortOrder → List Task
apply_sort lower tasks field order = sorted (order_le lower field order) tasks

-- `xs[:n]`
unfoldable pub first {ℓ} : {A : Type ℓ} → ℕ → List A → List A
first zero xs = []
first (suc n) [] = []
first (suc n) (x ∷ xs) = x ∷ first n xs

unfoldable pub list_tasks : (String → String) → ClusterStore → Option TaskFilter → List Task
list_tasks lower d none = d.tasks
list_tasks lower d (some f) =
    first f.limit
      (drop f.offset (apply_sort lower (apply_filters lower d.tasks f) f.sort_by f.sort_order))

unfoldable pub cancel_task : ClusterStore → String → ℕ → ClusterStore × Bool
cancel_task d task_id now = elim (get task_key task_id d.tasks) [
  | none ↦ (d, false)
  | some task ↦
      if is_completed task.status || is_failed task.status
      then (d, false)
      else ((set_task_status d task_id TaskStatus.failed "cancelled" now).0, true)
]

-- The rows of three tables go in one transaction.
unfoldable pub delete_rows : ClusterStore → List String → ClusterStore
delete_rows d task_ids = record d {
  leases = keep (λ l. not (member l.task_id task_ids)) d.leases;
  decisions = keep (λ c. not (member c.task_id task_ids)) d.decisions;
  tasks = keep (λ t. not (member t.id task_ids)) d.tasks;
}

unfoldable pub delete_task : ClusterStore → String → ClusterStore × Bool
delete_task d task_id = elim (get task_key task_id d.tasks) [
  | none ↦ (d, false)
  | some task ↦ if is_active task.status then (d, false) else (delete_rows d (task_id ∷ []), true)
]

-- The rows of the SELECT, before the cutoff.
abbrev pub is_purgeable : ℕ → Task → Bool
is_purgeable cutoff t = (is_completed t.status || is_failed t.status) && ltb t.updated_at cutoff

-- `if not task_ids: return 0` stands above the deletes.
unfoldable pub purge_ids : ClusterStore → List String → ClusterStore × ℕ
purge_ids d [] = (d, 0)
purge_ids d (id ∷ ids) = (delete_rows d (id ∷ ids), length (id ∷ ids))

unfoldable pub purge_completed : ClusterStore → ℕ → ℕ → ClusterStore × ℕ
purge_completed d older_than now =
    purge_ids d (map task_key (keep (is_purgeable (now - older_than)) d.tasks))

unfoldable pub schedule_task_to_node : ClusterStore → String → String → ℕ → ClusterStore × Bool
schedule_task_to_node d task_id node_id now = elim (get task_key task_id d.tasks) [
  | none ↦ (d, false)
  | some task ↦
      if not (is_ready task.status || is_pending task.status)
      then (d, false)
      else elim (get node_key node_id d.nodes) [
        | none ↦ (d, false)
        | some node ↦
            if not (is_online node.status)
            then (d, false)
            else if not (all_of (λ cap. member cap node.capabilities) task.requires)
            then (d, false)
            else (
              record d {
                tasks =
                    update_where (λ t. t.id == task_id)
                      (λ t. record t {
                        status = TaskStatus.running;
                        assigned_to = some node_id;
                        updated_at = now;
                        version = t.version + 1;
                      })
                      d.tasks;
              },
              true,
            )
      ]
]

unfoldable pub bulk_cancel : ClusterStore → List String → ℕ → ClusterStore × ℕ
bulk_cancel d [] now = (d, 0)
bulk_cancel d (task_id ∷ ids) now =
    let (d', done) = cancel_task d task_id now in
    let (d'', n) = bulk_cancel d' ids now in (d'', if done then n + 1 else n)

unfoldable pub bulk_delete : ClusterStore → List String → ClusterStore × ℕ
bulk_delete d [] = (d, 0)
bulk_delete d (task_id ∷ ids) =
    let (d', done) = delete_task d task_id in
    let (d'', n) = bulk_delete d' ids in (d'', if done then n + 1 else n)
