-- ===== src/TaskManager/Edits.antt =====
-- `create_task`, `duplicate_task`, `update_task` and `retry_task` of `TaskManager`
-- (hermes_cluster/task_manager.py), and the errors that they raise. A priority in an error's text is
-- written by Python's `str`, the parameter `decimal`.
use hermes_agent_cluster.Prelude.{
  ℕ, ◌+◌, String, Bool, true, false, not, ◌||◌, Option, none, some, List, [], ◌∷◌, ◌==◌, ltb,
  if◌then◌else◌, is_empty, strip, concat, or_else, is_some,
}
use hermes_agent_cluster.Table.{get, has}
use hermes_agent_cluster.Models.{Task, TaskStatus, task_key, node_key, is_ready, is_failed}
use hermes_agent_cluster.Landing.{Hold}
use hermes_agent_cluster.State.{generate_id}
use hermes_agent_cluster.State.Tasks.{TaskPlan}
use hermes_agent_cluster.Store.{ClusterStore, update_where}
use hermes_agent_cluster.Store.Tasks as Rows
use hermes_agent_cluster.Store.Schedule.{trigger_pending_tasks}

-- A value, or the text of a ValueError.
pub data Result {ℓ} (A : Type ℓ) : Type ℓ where
  ok : A → Result A
  value_error : String → Result A

abbrev pub is_error {ℓ} : {A : Type ℓ} → Result A → Bool
is_error (ok a) = false
is_error (value_error text) = true

-- `not title or not title.strip()`
abbrev pub is_blank : String → Bool
is_blank title = is_empty title || is_empty (strip title)

-- `priority < 1 or priority > 5`: the priorities below 0, which raise too, are no part of the model.
abbrev pub is_bad_priority : ℕ → Bool
is_bad_priority priority = ltb priority 1 || ltb 5 priority

-- The arguments of `create_task`.
pub record NewTask : Type 0 where
  pub title : String
  pub requires : List String
  pub priority : ℕ
  pub depends_on : List String
  pub assign_to : Option String
  pub description : String

abbrev pub new_plan : String → NewTask → TaskPlan
new_plan task_id new = record {
  task_id = task_id;
  title = new.title;
  requires = new.requires;
  depends_on = [];
  priority = new.priority;
  lane_key = "";
  role = "author";
  description = new.description;
  issues = [];
}

-- `if depends_on: self._store.set_dependencies(...)`
unfoldable pub with_dependencies : ClusterStore → String → List String → ℕ → ClusterStore
with_dependencies d task_id [] now = d
with_dependencies d task_id (dep ∷ deps) now = (Rows.set_dependencies d task_id (dep ∷ deps) now).0

unfoldable pub store_new : ClusterStore → String → NewTask → ℕ → ClusterStore
store_new d task_id new now =
    with_dependencies (Rows.create_task d (new_plan task_id new) now).0 task_id new.depends_on now

-- `set_task_status`, and the assignee in a transaction of its own.
unfoldable pub assign_new : ClusterStore → String → String → ℕ → ClusterStore
assign_new d task_id node_id now =
    let started = (Rows.set_task_status d task_id TaskStatus.running "" now).0 in
    record started {
      tasks =
          update_where (λ t. t.id == task_id) (λ t. record t { assigned_to = some node_id })
            started.tasks;
    }

-- `assign_to` as a truth value.
abbrev pub target_of : Option String → Option String
target_of none = none
target_of (some node_id) = if is_empty node_id then none else some node_id

-- The fields of the task that the store's `create_task` returned, for a row that is gone.
abbrev pub stored_task : ClusterStore → String → Task → Task
stored_task d task_id task = or_else (get task_key task_id d.tasks) task

-- From `if assign_to` to the end.
unfoldable pub place_new :
    ClusterStore → String → Task → Option String → ℕ → ClusterStore × Result Task
place_new made task_id task none now = (made, ok (stored_task made task_id task))
place_new made task_id task (some node_id) now =
    let final : ClusterStore = assign_new made task_id node_id now in
    if has node_key node_id made.nodes
    then (final, ok (stored_task final task_id task))
    else (made, value_error (concat "Node " (concat node_id " not found")))

-- f"Priority must be 1-5, got {priority}"
abbrev priority_text : (ℕ → String) → ℕ → String
priority_text decimal priority = concat "Priority must be 1-5, got " (decimal priority)

module _ (token decimal : ℕ → String) where
  unfoldable pub create_task : ClusterStore → NewTask → ℕ → ClusterStore × Result Task
  unfolding generate_id
  create_task d new now =
      if is_blank new.title
      then (d, value_error "Task title cannot be empty")
      else if is_bad_priority new.priority
      then (d, value_error (priority_text decimal new.priority))
      else let task_id : String = generate_id token "task" d.generated in
        let drawn : ClusterStore = record d { generated = d.generated + 1 } in
        let task : Task = (Rows.create_task drawn (new_plan task_id new) now).1 in
        let made : ClusterStore = store_new drawn task_id new now in
        place_new made task_id task (target_of new.assign_to) now

  unfoldable pub duplicate_task :
      ClusterStore → String → String → ℕ → ClusterStore × Option (Result Task)
  duplicate_task d task_id title_suffix now = elim (get task_key task_id d.tasks) [
    | none ↦ (d, none)
    | some original ↦
        let (d', result) =
          create_task d
            (record {
              title = concat original.title title_suffix;
              requires = original.requires;
              priority = original.priority;
              depends_on = original.depends_on;
              assign_to = none;
              description = "";
            })
            now in
        (d', some result)
  ]

-- The arguments of `update_task`.
pub record TaskChange : Type 0 where
  pub title : Option String
  pub priority : Option ℕ
  pub requires : Option (List String)
  pub depends_on : Option (List String)

abbrev pub given_or {ℓ} : {A : Type ℓ} → Option A → A → A
given_or none old = old
given_or (some new) old = new

abbrev pub is_bad_title : Option String → Bool
is_bad_title none = false
is_bad_title (some title) = is_empty (strip title)

-- The text of the error on a new priority.
abbrev pub bad_change : (ℕ → String) → Option ℕ → Option String
bad_change decimal none = none
bad_change decimal (some priority) =
    if is_bad_priority priority then some (priority_text decimal priority) else none

-- The demotion of a ready task that gets dependencies.
abbrev pub demoted : Option (List String) → Task → Task
demoted (some (_ ∷ _)) t = if is_ready t.status then record t { status = TaskStatus.pending } else t
demoted _ t = t

-- The SET list of the UPDATE, which is empty if nothing is given.
abbrev pub has_change : TaskChange → Bool
has_change change =
    is_some change.title
    || is_some change.priority
    || is_some change.requires
    || is_some change.depends_on

abbrev pub changed : TaskChange → ℕ → Task → Task
changed change now t = record t {
  title = given_or change.title t.title;
  priority = given_or change.priority t.priority;
  requires = given_or change.requires t.requires;
  depends_on = given_or change.depends_on t.depends_on;
  updated_at = now;
  version = t.version + 1;
}

-- An error leaves the transaction without effect.
unfoldable pub update_task :
    (ℕ → String) → ClusterStore → String → TaskChange → ℕ → ClusterStore × Option (Result Task)
update_task decimal d task_id change now = elim (get task_key task_id d.tasks) [
  | none ↦ (d, none)
  | some task ↦
      let written : ClusterStore =
        if has_change change
        then record d {
          tasks =
              update_where (λ t. t.id == task_id) (λ t. changed change now t)
                (update_where (λ t. t.id == task_id) (demoted change.depends_on) d.tasks);
        }
        else d in
      if is_bad_title change.title
      then (d, some (value_error "Task title cannot be empty"))
      else elim (bad_change decimal change.priority) [
        | some text ↦ (d, some (value_error text))
        | none ↦ (written, some (ok (stored_task written task_id task)))
      ]
]

unfoldable pub retry_task : (Hold → String) → ClusterStore → String → ℕ → ClusterStore × Option Task
retry_task message d task_id now = elim (get task_key task_id d.tasks) [
  | none ↦ (d, none)
  | some task ↦
      if not (is_failed task.status)
      then (d, none)
      else let reset : ClusterStore =
          (Rows.set_task_status d task_id TaskStatus.pending "" now).0 in
        let kicked : ClusterStore = (trigger_pending_tasks message now reset).0 in
        (kicked, get task_key task_id kicked.tasks)
]
