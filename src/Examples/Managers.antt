-- ===== src/Examples/Managers.antt =====
-- Tests and witnesses of task creation, joining and webhook delivery.
use hermes_agent_cluster.Prelude.{
  ◌≡◌, ◌||◌, refl, true, false, none, some, [], ◌∷◌, ℕ, String, Bool, Option, arith, leb,
  if◌then◌else◌,
}
use hermes_agent_cluster.Table.{get, has}
use hermes_agent_cluster.Models.{Node, node_key, task_key}
use hermes_agent_cluster.State.{generate_id}
use hermes_agent_cluster.Store.{ClusterStore}
use hermes_agent_cluster.Store.Mirror.{view}
use hermes_agent_cluster.TaskManager.Edits.{
  NewTask, is_error, is_blank, is_bad_priority, target_of, create_task,
}
use hermes_agent_cluster.TaskManager.Errors.{is_unknown, create_task-outcome}
use hermes_agent_cluster.NodeManager.{NodeManager, Join, join}
use hermes_agent_cluster.NodeManager.Tokens.{token_of, join-keeps_holder}
use hermes_agent_cluster.Dispatcher.{Dispatcher, Target}
use hermes_agent_cluster.Examples.{unary, node_a, node_b, sample_state}

-- The node is unknown: the call fails, and the task is there.
abbrev lost_task : NewTask
lost_task = record {
  title = "title";
  requires = [];
  priority = 3;
  depends_on = "task_1" ∷ [];
  assign_to = some "node_x";
  description = "";
}

abbrev stored_state : ClusterStore
stored_state = view sample_state

create_task-outcome_example :
    let (d', result) = create_task unary unary stored_state lost_task 7 in
    let invalid = is_blank lost_task.title || is_bad_priority lost_task.priority in
    (is_error result ≡ (invalid || is_unknown stored_state (target_of lost_task.assign_to)))
    × (invalid ≡ true → d' ≡ stored_state)
    × (invalid ≡ false
        → has task_key (generate_id unary "task" stored_state.generated) d'.tasks ≡ true)
create_task-outcome_example = create_task-outcome unary unary stored_state lost_task 7

abbrev fixed_text : ℕ → ℕ → String
fixed_text digits n = "0.0"

abbrev plain_text : ℕ → String
plain_text n = "0"

abbrev holder : Node
holder = record node_a { instance_token = "first"; last_heartbeat = 95 }

abbrev sample_manager : NodeManager
sample_manager = record {
  store = record stored_state { nodes = holder ∷ node_b ∷ [] };
  offline_after = 30;
  min_free_disk_gb = 5000;
  max_cpu_load = 0;
  cap_cache = [];
}

abbrev second_join : Join
second_join = record {
  node_id = "node_a";
  name = "";
  capabilities = "code" ∷ [];
  load = 0;
  max_concurrent = 2;
  instance_token = "second";
  report = record {
    disk_free_gb = none;
    cpu_load_pct = none;
    lane_count = none;
    duplicate_executor = none;
  };
}

holder-stored : get node_key "node_a" sample_manager.store.nodes ≡ some holder
unfolding get
holder-stored = refl

join-keeps_holder_example :
    token_of "node_a"
      (join fixed_text plain_text plain_text sample_manager second_join 100).0.store.nodes
    ≡ some "first"
join-keeps_holder_example =
    join-keeps_holder fixed_text plain_text plain_text sample_manager second_join 100 "node_a"
      holder holder-stored refl (omega arith)

abbrev sample_dispatcher : Dispatcher
sample_dispatcher = record { max_retries = 3; base_delay = 1000; max_delay = 30000 }

abbrev sample_target : Target
sample_target = record {
  delivery_id = "deliv_1";
  hook_id = "hook_1";
  event_type = "task_created";
  url = "http://localhost";
}

-- The first two requests fail.
abbrev third_time : ℕ → ℕ × Option String
third_time n = if leb n 2 then (503, none) else (204, none)

abbrev always : ℕ → Bool
always n = true
