-- ===== src/TaskManager/Errors.antt =====
-- When `TaskManager.create_task` (hermes_cluster/task_manager.py) raises, and what it leaves.
use hermes_agent_cluster.Prelude.{
  ℕ, ◌+◌, ◌≡◌, refl, sym, ap, ◌∙◌, String, Bool, true, false, not, ◌||◌, Option, none, some, List,
  [], ◌∷◌, ◌++◌, arith, inl, inr, eq_refl, Bool-cases,
}
use hermes_agent_cluster.Table.{has}
use hermes_agent_cluster.Models.{Task, TaskStatus, task_key, node_key}
use hermes_agent_cluster.State.{generate_id}
use hermes_agent_cluster.State.Tasks.{plan_task}
use hermes_agent_cluster.Store.{ClusterStore, update_where, insert_or_ignore}
use hermes_agent_cluster.Store.Tasks as Rows
use hermes_agent_cluster.TaskManager.Edits.{
  NewTask, is_error, is_blank, is_bad_priority, new_plan, with_dependencies, store_new, assign_new,
  target_of, place_new, create_task,
}

-- An update that keeps the ids keeps which ids there are.
has-update_where :
    (k : String) (p : Task → Bool) (f : Task → Task) (tasks : List Task)
    → ((t : Task) → (f t).id ≡ t.id)
    → has task_key k (update_where p f tasks) ≡ has task_key k tasks
unfolding has update_where
has-update_where k p f [] h = refl
has-update_where k p f (t ∷ tasks) h =
    rw (has-update_where k p f tasks h)
      (elim (Bool-cases (p t)) [ inl on ↦ rw (on, h t) refl | inr off ↦ rw off refl ])

has-append : (x : Task) (tasks : List Task) → has task_key x.id (tasks ++ x ∷ []) ≡ true
unfolding has
has-append x [] = rw (eq_refl x.id) refl
has-append x (t ∷ tasks) = ground (arith, has-append x tasks)

has-insert_or_ignore :
    (x : Task) (tasks : List Task) → has task_key x.id (insert_or_ignore task_key x tasks) ≡ true
unfolding insert_or_ignore
has-insert_or_ignore x tasks = elim (Bool-cases (has task_key x.id tasks)) [
  | inl there ↦ rw (there, insert_or_ignore) there
  | inr new ↦ rw (new, insert_or_ignore) (has-append x tasks)
]

has-create_task :
    (d : ClusterStore) (task_id : String) (new : NewTask) (now : ℕ)
    → has task_key task_id (Rows.create_task d (new_plan task_id new) now).0.tasks ≡ true
unfolding Rows.create_task
has-create_task d task_id new now =
    let task : Task = plan_task (new_plan task_id new) TaskStatus.pending now in
    has-update_where task_id _ (Rows.make_ready now) (insert_or_ignore task_key task d.tasks)
      (λ t. refl)
    ∙ has-insert_or_ignore task d.tasks

has-with_dependencies :
    (d : ClusterStore) (task_id : String) (deps : List String) (now : ℕ)
    → has task_key task_id (with_dependencies d task_id deps now).tasks
      ≡ has task_key task_id d.tasks
unfolding with_dependencies Rows.set_dependencies Rows.update_tasks
has-with_dependencies d task_id [] now = refl
has-with_dependencies d task_id (dep ∷ deps) now =
    has-update_where task_id _ _ _ (λ t. refl) ∙ has-update_where task_id _ _ d.tasks (λ t. refl)

has-store_new :
    (d : ClusterStore) (task_id : String) (new : NewTask) (now : ℕ)
    → has task_key task_id (store_new d task_id new now).tasks ≡ true
unfolding store_new
has-store_new d task_id new now =
    has-with_dependencies _ task_id new.depends_on now ∙ has-create_task d task_id new now

has-assign_new :
    (d : ClusterStore) (task_id node_id : String) (now : ℕ)
    → has task_key task_id (assign_new d task_id node_id now).tasks ≡ has task_key task_id d.tasks
unfolding assign_new Rows.set_task_status Rows.update_tasks
has-assign_new d task_id node_id now =
    has-update_where task_id _ _ _ (λ t. refl) ∙ has-update_where task_id _ _ d.tasks (λ t. refl)

-- The creation of tasks leaves the nodes.
nodes-with_dependencies :
    (d : ClusterStore) (task_id : String) (deps : List String) (now : ℕ)
    → (with_dependencies d task_id deps now).nodes ≡ d.nodes
unfolding with_dependencies Rows.set_dependencies Rows.update_tasks
nodes-with_dependencies d task_id [] now = refl
nodes-with_dependencies d task_id (dep ∷ deps) now = refl

nodes-store_new :
    (d : ClusterStore) (task_id : String) (new : NewTask) (now : ℕ)
    → (store_new d task_id new now).nodes ≡ d.nodes
unfolding store_new Rows.create_task
nodes-store_new d task_id new now = nodes-with_dependencies _ task_id new.depends_on now

-- Names a node that is not there.
abbrev pub is_unknown : ClusterStore → Option String → Bool
is_unknown d none = false
is_unknown d (some node_id) = not (has node_key node_id d.nodes)

place_new-outcome :
    (d made : ClusterStore) (task_id : String) (task : Task) (target : Option String) (now : ℕ)
    → made.nodes ≡ d.nodes
    → has task_key task_id made.tasks ≡ true
    → (is_error (place_new made task_id task target now).1 ≡ is_unknown d target)
      × (has task_key task_id (place_new made task_id task target now).0.tasks ≡ true)
unfolding place_new
place_new-outcome d made task_id task none now same there = (refl, there)
place_new-outcome d made task_id task (some node_id) now same there =
    let placed = has-assign_new made task_id node_id now ∙ there in
    let seen : has node_key node_id made.nodes ≡ has node_key node_id d.nodes =
      ap (λ ns. has node_key node_id ns) same in
    elim (Bool-cases (has node_key node_id made.nodes)) [
      | inl known ↦ rw (known, place_new) (ap not (sym known ∙ seen), placed)
      | inr unknown ↦ rw (unknown, place_new) (ap not (sym unknown ∙ seen), there)
    ]

-- For a priority that is not negative, `create_task` raises exactly when the title is blank, the
-- priority is not 1 to 5 (so 0 is refused), or the node that it names is unknown. With a valid title
-- and priority the task is stored even if the call raises for the node; otherwise the call changes
-- nothing.
pub create_task-outcome :
    (token decimal : ℕ → String) (d : ClusterStore) (new : NewTask) (now : ℕ)
    → let (d', result) = create_task token decimal d new now in
      let invalid = is_blank new.title || is_bad_priority new.priority in
      (is_error result ≡ (invalid || is_unknown d (target_of new.assign_to)))
      × (invalid ≡ true → d' ≡ d)
      × (invalid ≡ false → has task_key (generate_id token "task" d.generated) d'.tasks ≡ true)
unfolding create_task generate_id
create_task-outcome token decimal d new now = elim (Bool-cases (is_blank new.title)) [
  | inl blank ↦ rw (blank, create_task) (refl, λ _. refl, λ free. absurd (ground arith))
  | inr titled ↦ elim (Bool-cases (is_bad_priority new.priority)) [
    | inl bad ↦ rw (titled, bad, create_task) (refl, λ _. refl, λ free. absurd (ground arith))
    | inr good ↦
        let task_id : String = generate_id token "task" d.generated in
        let drawn : ClusterStore = record d { generated = d.generated + 1 } in
        let (fails, there) =
          place_new-outcome d (store_new drawn task_id new now) task_id
            (Rows.create_task drawn (new_plan task_id new) now).1 (target_of new.assign_to) now
            (nodes-store_new drawn task_id new now) (has-store_new drawn task_id new now) in
        rw (titled, good, create_task) (fails, λ bad. absurd (ground arith), λ _. there)
  ]
]
