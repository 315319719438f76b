-- ===== src/Examples/Stores.antt =====
-- Tests and witnesses of the SQLite store, the lease manager and the task manager.
use hermes_agent_cluster.Prelude.{
  ◌≡◌, ◌≢◌, ◌↔◌, ◌<◌, ◌-◌, ◌&&◌, refl, true, false, not, none, some, [], ◌∷◌, ℕ, List, arith, count,
  keep, min, length, All, In, String, lower,
}
use hermes_agent_cluster.Table.{get, has}
use hermes_agent_cluster.Models.{
  Task, TaskStatus, Lease, node_key, task_key, is_terminal, is_cancel_requested, is_cancelled,
}
use hermes_agent_cluster.Landing.{Hold}
use hermes_agent_cluster.State.Tasks as Memory
use hermes_agent_cluster.Store.Tasks as Rows
use hermes_agent_cluster.Store.Mirror.{view, IsSound}
use hermes_agent_cluster.Store.Mirror.Tasks.{both, set_task_status-agrees}
use hermes_agent_cluster.Store.Mirror.Runs.{Call}
use hermes_agent_cluster.Store.Mirror.Refinement.{memory_run, store_run, store_run-refines}
use hermes_agent_cluster.LeaseManager.{LeaseManager, Outcome, extend}
use hermes_agent_cluster.LeaseManager.Extend.{is_overdue, extend-blocked_iff}
use hermes_agent_cluster.TaskManager.{
  TaskFilter, SortField, SortOrder, list_tasks, purge_completed, is_purgeable,
}
use hermes_agent_cluster.TaskManager.Listing.{is_match, list_tasks-page}
use hermes_agent_cluster.TaskManager.Purge.{purge_completed-exact}
use hermes_agent_cluster.Examples.{
  distinct, distinct-IsKeyed, unary, unary_injective, node_a, task_done, sample_lease, sample_state,
}

sample_state-IsSound : IsSound unary sample_state
unfolding distinct has get count
sample_state-IsSound = record {
  keyed_nodes = distinct-IsKeyed node_key sample_state.nodes refl;
  keyed_tasks = distinct-IsKeyed task_key sample_state.tasks refl;
  keyed_leases = λ k. omega arith;
  indexed = record {
    drawn = tt;
    keyed = λ k. omega arith;
    entries = λ t entry e. absurd (ground arith);
  };
}

-- A node joins, a task is handed out with a lease, the lease runs out and is revoked.
abbrev sample_calls : List (ℕ × Call)
sample_calls =
    (10, Call.register_node node_a)
    ∷ (20, Call.schedule_pending)
    ∷ (30, Call.create_lease "task_2" "node_b" 5)
    ∷ (40, Call.get_active_leases)
    ∷ (50, Call.revoke_lease "lease_a")
    ∷ (55, Call.trigger_pending_tasks)
    ∷ (60, Call.set_task_result "task_1" (some "done"))
    ∷ []

abbrev gate_message : Hold → String
gate_message reason = "held"

store_run-refines_example :
    store_run gate_message unary (view sample_state) sample_calls
    ≡ some (
      view (memory_run gate_message unary sample_state sample_calls).0,
      (memory_run gate_message unary sample_state sample_calls).1,
    )
store_run-refines_example =
    store_run-refines gate_message unary (λ h. refl) unary_injective sample_calls sample_state
      (refl, (tt, (tt, (tt, (tt, (tt, (tt, tt))))))) sample_state-IsSound

task_done-stored : get task_key "task_done" sample_state.tasks ≡ some task_done
unfolding get
task_done-stored = refl

-- A completed task: the SQLite store sets it running, the in-memory one refuses.
set_task_status-agrees_example :
    (Rows.set_task_status (view sample_state) "task_done" TaskStatus.running "" 9
      ≡ both (Memory.set_task_status sample_state "task_done" TaskStatus.running "" 9))
    ↔ ((is_terminal task_done.status
          && not (is_cancel_requested task_done.status && is_cancelled TaskStatus.running))
        ≡ false)
set_task_status-agrees_example =
    set_task_status-agrees sample_state "task_done" TaskStatus.running "" 9 task_done
      sample_state-IsSound.keyed_tasks task_done-stored

abbrev sample_manager : LeaseManager
sample_manager = record {
  store = record (view sample_state) { leases = sample_lease ∷ [] };
  ttl = 60;
  active_count = 0;
  expired_count = 0;
  total_created = 1;
  total_revoked = 0;
  total_expired = 0;
}

-- The only lease has run out at 90.
extend-blocked_iff_example :
    (extend unary sample_manager "lease_" none 90 ≡ Outcome.blocked)
    ↔ (0 < count (is_overdue 90) sample_manager.store.leases)
extend-blocked_iff_example = extend-blocked_iff unary sample_manager "lease_" none 90 refl

abbrev sample_filter : TaskFilter
sample_filter = record {
  status = some "ready";
  assigned_to = none;
  requires = some "code";
  priority_min = some 2;
  priority_max = some 4;
  search = some "TASK";
  sort_by = SortField.title;
  sort_order = SortOrder.desc;
  offset = 1;
  limit = 5;
}

list_tasks-page_example :
    All
      (λ t. is_match lower sample_filter t ≡ true)
      (list_tasks lower (view sample_state) (some sample_filter))
    × (length (list_tasks lower (view sample_state) (some sample_filter))
        ≡ min 5 (count (is_match lower sample_filter) sample_state.tasks - 1))
list_tasks-page_example = list_tasks-page lower (view sample_state) sample_filter

purge_completed-exact_example :
    let (d', n) = purge_completed (view sample_state) 10 99 in
    let old = is_purgeable (99 - 10) in
    (d'.tasks ≡ keep (λ t. not (old t)) sample_state.tasks)
    × (n ≡ count old sample_state.tasks)
    × ((l : Lease) (t : Task)
        → In l d'.leases
        → In t sample_state.tasks
        → old t ≡ true
        → l.task_id ≢ t.id)
purge_completed-exact_example =
    purge_completed-exact (view sample_state) 10 99 sample_state-IsSound.keyed_tasks
