-- ===== src/State/Schedule/ActiveLanes.antt =====
-- One active task per lane, across a whole call of `schedule_pending_detailed`.
use hermes_agent_cluster.Prelude.{
  ℕ, ◌+◌, ◌≤◌, ◌≡◌, String, Bool, true, false, ◌&&◌, List, arith, keep, member, count, All,
  All-always, All-keep_self, All-map, All-sorted, count-sorted, count-keep, count-le, and_true,
}
use hermes_agent_cluster.Table.Laws.{count-put_le, IsKeyed}
use hermes_agent_cluster.Models.{Node, Task, task_key, is_ready}
use hermes_agent_cluster.Scheduler.Lanes.{lane_blocked_ready_ids}
use hermes_agent_cluster.Scheduler.Lanes.Exclusion.{
  holds, waits_on, unblocked, lane_blocked-exclusive,
}
use hermes_agent_cluster.State.{ClusterState}
use hermes_agent_cluster.State.Leases.{active_leased_task_ids}
use hermes_agent_cluster.State.Schedule.{
  is_schedulable, ready_tasks, online_nodes, started, schedule_pending_detailed, serves_before,
}
use hermes_agent_cluster.State.Schedule.Safety.{tasks-assign}
use hermes_agent_cluster.State.Schedule.Rule.{Rule, schedule_pending_ind}

schedulable :
    (t : Task) (leased blocked : List String)
    → is_schedulable leased blocked t ≡ true
    → (is_ready t.status ≡ true) × (member t.id blocked ≡ false)
unfolding is_schedulable
schedulable t leased blocked h = ground arith

pub ready_tasks-ready :
    (s : ClusterState) (now : ℕ) → All (λ t. is_ready t.status ≡ true) (ready_tasks s now)
unfolding ready_tasks
ready_tasks-ready s now =
    let chosen : Task → Bool =
      is_schedulable (active_leased_task_ids s now) (lane_blocked_ready_ids s.tasks) in
    All-sorted serves_before (λ t. is_ready t.status ≡ true) (keep chosen s.tasks)
      (All-map (λ t h. (schedulable t _ _ h).0) (keep chosen s.tasks)
        (All-keep_self chosen s.tasks))

-- The tasks that the loop may still start in a lane, with those that hold it.
record OnePerLane (tasks : List Task) (s : ClusterState) : Type 0 where
  ready : All (λ t. is_ready t.status ≡ true) tasks
  exclusive : (lane : String) → count (waits_on lane) tasks + count (holds lane) s.tasks ≤ 1

OnePerLane-rule :
    (token : ℕ → String) (now : ℕ) (online : List Node)
    → Rule token now online (λ tasks _ s. OnePerLane tasks s)
unfolding count
OnePerLane-rule token now online = record {
  parked = λ t tasks counts s o. record {
    ready = o.ready.1;
    exclusive = λ lane. omega (arith, o.exclusive lane);
  };
  assigned = λ t tasks counts s node pinned o e. record {
    ready = o.ready.1;
    exclusive = λ lane. rw tasks-assign (
        ground (
          arith,
          count-put_le task_key (holds lane) (started node now t) s.tasks,
          o.exclusive lane,
          o.ready.0,
        ));
  };
}

-- What the call may start in a lane was not blocked there.
ready_tasks-unblocked :
    (s : ClusterState) (now : ℕ) (lane : String)
    → count (waits_on lane) (ready_tasks s now) ≤ count (unblocked lane s.tasks) s.tasks
unfolding ready_tasks
ready_tasks-unblocked s now lane =
    let chosen : Task → Bool =
      is_schedulable (active_leased_task_ids s now) (lane_blocked_ready_ids s.tasks) in
    let fewer : count (λ t. waits_on lane t && chosen t) s.tasks
        ≤ count (unblocked lane s.tasks) s.tasks =
      count-le (λ t. waits_on lane t && chosen t) (unblocked lane s.tasks) s.tasks
        (All-always _
          (λ t h.
            let (waiting, free) = and_true (waits_on lane t) (chosen t) h in
            let (r, u) = schedulable t _ _ free in ground arith)
          s.tasks) in
    omega (
      arith,
      fewer,
      count-sorted serves_before (waits_on lane) (keep chosen s.tasks),
      count-keep (waits_on lane) chosen s.tasks,
    )

-- If the task table has one entry per id and no lane has two running or assigned tasks, then no
-- lane has two after the call: two ready tasks of a lane are never started together, nor one
-- beside one that is active there.
pub schedule-one_per_lane :
    (token : ℕ → String) (now : ℕ) (s : ClusterState)
    → IsKeyed task_key s.tasks
    → ((lane : String) → count (holds lane) s.tasks ≤ 1)
    → (lane : String) → count (holds lane) (schedule_pending_detailed token now s).0.tasks ≤ 1
schedule-one_per_lane token now s keyed one lane =
    let (left, final, exclusive_left) =
      schedule_pending_ind token now s (λ tasks _ s'. OnePerLane tasks s')
        (OnePerLane-rule token now (online_nodes s))
        (record {
          ready = ready_tasks-ready s now;
          exclusive = λ l. omega (
            arith,
            ready_tasks-unblocked s now l,
            lane_blocked-exclusive l s.tasks keyed (one l),
          );
        }) in
    omega (arith, exclusive_left.exclusive lane)
