-- ===== src/Store/Mirror/Schedule.antt =====
-- `schedule_pending_detailed` of both stores (hermes_cluster/state/cluster_store.py and
-- state/__init__.py) makes the same assignments.
use hermes_agent_cluster.Prelude.{
  ℕ, ◌≡◌, refl, ap, ◌∙◌, String, Bool, true, false, Option, some, List, [], ◌∷◌, arith, inl, inr,
  Option-cases, keep, sorted, keep-sorted, keep-keep,
}
use hermes_agent_cluster.Table.{get}
use hermes_agent_cluster.Table.Laws.{IsKeyed, put-IsKeyed}
use hermes_agent_cluster.Models.{Node, Task, task_key, lease_key, is_ready, scheduler_assigned_ttl}
use hermes_agent_cluster.Scheduler.{Counts}
use hermes_agent_cluster.Affinity.{choose_pinned}
use hermes_agent_cluster.Scheduler.Lanes.{lane_blocked_ready_ids}
use hermes_agent_cluster.State.{ClusterState}
use hermes_agent_cluster.State.Leases.{create_lease, active_leased_task_ids}
use hermes_agent_cluster.State.Leases.Index.{IsFreshSupply}
use hermes_agent_cluster.State.Log as MemoryLog
use hermes_agent_cluster.State.Schedule.Kept.{Progress, Progress-rule, Progress-start}
use hermes_agent_cluster.State.Schedule.Leased.{start_task-IsIndexed, assign-IsIndexed}
use hermes_agent_cluster.State.Schedule as Memory
use hermes_agent_cluster.Store.Leases.{leased_task_ids}
use hermes_agent_cluster.Store.Schedule as Rows
use hermes_agent_cluster.Store.Rows.{update_where-get, update_where-hit}
use hermes_agent_cluster.Store.Mirror.{view, IsSound}
use hermes_agent_cluster.Store.Mirror.Leases.{both, create_lease-view}

serves_before_total :
    (a b : Task) → Memory.serves_before a b ≡ false → Memory.serves_before b a ≡ true
serves_before_total a b h = ground arith

serves_before_trans :
    (a b c : Task)
    → Memory.serves_before a b ≡ true
    → Memory.serves_before b c ≡ true
    → Memory.serves_before a c ≡ true
serves_before_trans a b c h k = ground arith

-- The query sorts before the rows are filtered, the in-memory store after.
ready_rows-view :
    (s : ClusterState) (now : ℕ) → Rows.ready_rows (view s) now ≡ Memory.ready_tasks s now
unfolding Rows.ready_rows Memory.ready_tasks leased_task_ids active_leased_task_ids
ready_rows-view s now =
    let p : Task → Bool =
      Memory.is_schedulable (active_leased_task_ids s now) (lane_blocked_ready_ids s.tasks) in
    keep-sorted Memory.serves_before serves_before_total serves_before_trans p
      (keep (λ t. is_ready t.status) s.tasks)
    ∙ ap (sorted Memory.serves_before) (
        keep-keep (λ t. is_ready t.status) p p s.tasks
          (λ t. unfold Memory.is_schedulable in ground arith))

group_counts-view :
    (tasks : List Task) (counts : Counts)
    → Rows.group_counts (Rows.assigned_column tasks) counts ≡ Memory.active_counts tasks counts
unfolding Rows.group_counts Rows.assigned_column Memory.active_counts Memory.occupies
group_counts-view [] counts = refl
group_counts-view (t ∷ tasks) counts = elim (Option-cases t.assigned_to) [
  | inl e ↦ ground (arith, group_counts-view tasks counts)
  | inr (node_id, e) ↦ ground (
    arith,
    group_counts-view tasks counts,
    group_counts-view tasks (Memory.add_one node_id counts),
  )
]

module _ (token : ℕ → String) (now : ℕ) (fresh : IsFreshSupply token) where
  start_row-view :
      (s : ClusterState) (t : Task) (node : Node)
      → IsKeyed task_key s.tasks
      → get task_key t.id s.tasks ≡ some t
      → Rows.start_row (view s) t node now ≡ view (Memory.start_task s t node now)
  unfolding Rows.start_row
  start_row-view s t node keyed e =
      rw
        (
          update_where-hit task_key t.id (Memory.started node now) s.tasks,
          update_where-get task_key t.id (λ u. true) (Memory.started node now) s.tasks t (λ u. refl)
              keyed e,
        )
        refl

  assign-view :
      (s : ClusterState) (t : Task) (node : Node) (pinned : Bool)
      → IsSound token s
      → get task_key t.id s.tasks ≡ some t
      → Rows.assign token now (view s) t node pinned
        ≡ some (view (Memory.assign token now s t node pinned))
  unfolding Rows.assign Memory.assign Rows.record_decision MemoryLog.record_decision
      MemoryLog.last_entries
  assign-view s t node pinned sound e =
      let begun : ClusterState = Memory.start_task s t node now in
      rw
        (
          Rows.assign,
          start_row-view s t node sound.keyed_tasks e,
          create_lease-view token begun t.id node.id scheduler_assigned_ttl now fresh
              (start_task-IsIndexed token fresh now s t node sound.indexed),
        )
        refl

  assign-IsSound :
      (s : ClusterState) (t : Task) (node : Node) (pinned : Bool)
      → IsSound token s
      → IsSound token (Memory.assign token now s t node pinned)
  unfolding Memory.assign MemoryLog.record_decision create_lease
  assign-IsSound s t node pinned sound = record {
    keyed_nodes = sound.keyed_nodes;
    keyed_tasks = put-IsKeyed task_key _ s.tasks sound.keyed_tasks;
    keyed_leases = put-IsKeyed lease_key _ s.leases sound.keyed_leases;
    indexed = assign-IsIndexed token fresh now s t node pinned sound.indexed;
  }

  schedule_loop-view :
      (online : List Node) (old tasks : List Task) (counts : Counts) (s : ClusterState)
      → IsSound token s
      → Progress old tasks s
      → (Rows.schedule_loop token now online tasks counts (view s)
          ≡ some (both (Memory.schedule_loop token now online tasks counts s)))
        × IsSound token (Memory.schedule_loop token now online tasks counts s).0
  unfolding Rows.schedule_loop Memory.schedule_loop
  schedule_loop-view online old [] counts s sound progress = (refl, sound)
  schedule_loop-view online old (t ∷ tasks) counts s sound progress =
      let (choice, pinned) =
        choose_pinned s.fair_scheduler t.requires counts (Memory.pinned_node s.lanes t) online in
      let rule = Progress-rule token now online old in
      elim (Option-cases choice) [
        | inl none_fits ↦
            rw (none_fits, Memory.schedule_loop, Rows.schedule_loop)
              (schedule_loop-view online old tasks counts s sound
                (rule.parked t tasks counts s progress))
        | inr (node, chosen) ↦
            let s1 = Memory.assign token now s t node pinned in
            let sound1 = assign-IsSound s t node pinned sound in
            let (same, final) =
              schedule_loop-view online old tasks (Memory.add_one node.id counts) s1 sound1 (
                rule.assigned t tasks counts s node pinned progress
                  (ap (λ (c : Option Node). (c, pinned)) chosen)) in
            rw
              (
                chosen,
                Memory.schedule_loop,
                Rows.schedule_loop,
                assign-view s t node pinned sound progress.current.0.1,
                same,
              )
              (refl, final)
      ]

  schedule_on-view :
      (present : List Node) (s : ClusterState)
      → IsSound token s
      → (Rows.schedule_on token now present (view s)
          ≡ some (both (Memory.schedule_on token now present s)))
        × IsSound token (Memory.schedule_on token now present s).0
  unfolding Rows.schedule_on Memory.schedule_on
  schedule_on-view [] s sound = (refl, sound)
  schedule_on-view (node ∷ nodes) s sound =
      rw (ready_rows-view s now, group_counts-view s.tasks [])
        (schedule_loop-view (node ∷ nodes) s.tasks (Memory.ready_tasks s now)
          (Memory.active_counts s.tasks []) s sound (Progress-start s now sound.keyed_tasks))

  pub schedule_pending-view :
      (s : ClusterState)
      → IsSound token s
      → (Rows.schedule_pending_detailed token now (view s)
          ≡ some (both (Memory.schedule_pending_detailed token now s)))
        × IsSound token (Memory.schedule_pending_detailed token now s).0
  unfolding Rows.schedule_pending_detailed Memory.schedule_pending_detailed Memory.online_nodes
  schedule_pending-view s sound = schedule_on-view (Memory.online_nodes s) s sound
