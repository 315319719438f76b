-- ===== src/State/Schedule/Leased.antt =====
-- The push path carries the proof of life of the pull path: a lease on every assignment.
use hermes_agent_cluster.Prelude.{
  ℕ, ◌+◌, ◌≤◌, ◌<◌, ◌≡◌, String, Bool, List, [], ◌∷◌, arith, inl, inr, All, Option-cases, count,
  to_ℕ, ◌==◌, eq_refl,
}
use hermes_agent_cluster.Table.Laws.{count-put_new}
use hermes_agent_cluster.Models.{Node, Task, lease_key, scheduler_assigned_ttl}
use hermes_agent_cluster.Scheduler.{Counts}
use hermes_agent_cluster.Affinity.{choose_pinned}
use hermes_agent_cluster.State.{ClusterState}
use hermes_agent_cluster.State.Leases.{new_lease, create_lease, holds_task}
use hermes_agent_cluster.State.Leases.Index.{
  IsFreshSupply, IsIndexed, create_lease-IsIndexed, get-new,
}
use hermes_agent_cluster.State.Log.{record_decision}
use hermes_agent_cluster.State.Schedule.{
  add_one, assign, start_task, pinned_node, schedule_loop, schedule_on, online_nodes, ready_tasks,
  active_counts, schedule_pending_detailed,
}

module _ (token : ℕ → String) (fresh : IsFreshSupply token) (now : ℕ) where
  pub start_task-IsIndexed :
      (s : ClusterState) (t : Task) (node : Node)
      → IsIndexed token s
      → IsIndexed token (start_task s t node now)
  start_task-IsIndexed s t node v = record { drawn = v.drawn; keyed = v.keyed; entries = v.entries }

  pub assign-IsIndexed :
      (s : ClusterState) (t : Task) (node : Node) (pinned : Bool)
      → IsIndexed token s
      → IsIndexed token (assign token now s t node pinned)
  unfolding assign record_decision
  assign-IsIndexed s t node pinned v =
      let w : IsIndexed token
          (create_lease token (start_task s t node now) t.id node.id scheduler_assigned_ttl now).0 =
        create_lease-IsIndexed token fresh (start_task s t node now) t.id node.id
          scheduler_assigned_ttl now (start_task-IsIndexed s t node v) in
      record { drawn = w.drawn; keyed = w.keyed; entries = w.entries }

  -- An assignment adds its own lease, and none is lost.
  count-assign :
      (s : ClusterState) (t : Task) (node : Node) (pinned : Bool) (task_id : String)
      → IsIndexed token s
      → count (holds_task task_id) (assign token now s t node pinned).leases
        ≡ to_ℕ (t.id == task_id) + count (holds_task task_id) s.leases
  unfolding assign record_decision create_lease new_lease
  count-assign s t node pinned task_id v =
      let counted =
        count-put_new lease_key (holds_task task_id)
          (new_lease token (start_task s t node now) t.id node.id scheduler_assigned_ttl now)
          s.leases (get-new token fresh s v) in
      ground arith

  -- Every assignment of the loop has its lease at the end.
  schedule_loop-leases :
      (online : List Node) (tasks : List Task) (counts : Counts) (s : ClusterState)
      → IsIndexed token s
      → let (s', made) = schedule_loop token now online tasks counts s in
        All (λ a. 0 < count (holds_task a.task_id) s'.leases) made
        × IsIndexed token s'
        × ((task_id : String)
            → count (holds_task task_id) s.leases ≤ count (holds_task task_id) s'.leases)
  unfolding schedule_loop
  schedule_loop-leases online [] counts s v = (tt, v, λ task_id. omega arith)
  schedule_loop-leases online (t ∷ tasks) counts s v =
      let (choice, pinned) =
        choose_pinned s.fair_scheduler t.requires counts (pinned_node s.lanes t) online in
      elim (Option-cases choice) [
        | inl none_fits ↦
            rw (none_fits, schedule_loop) (schedule_loop-leases online tasks counts s v)
        | inr (node, chosen) ↦
            let s1 = assign token now s t node pinned in
            let (made, w, grows) =
              schedule_loop-leases online tasks (add_one node.id counts) s1
                (assign-IsIndexed s t node pinned v) in
            rw (chosen, schedule_loop)
              (
                (omega (arith, first s t node pinned v, grows t.id), made),
                w,
                λ task_id. omega (arith, count-assign s t node pinned task_id v, grows task_id),
              )
      ]
    where
      first :
          (s : ClusterState) (t : Task) (node : Node) (pinned : Bool)
          → IsIndexed token s
          → 0 < count (holds_task t.id) (assign token now s t node pinned).leases
      first s t node pinned v = ground (arith, count-assign s t node pinned t.id v, eq_refl t.id)

  schedule_on-leases :
      (online : List Node) (s : ClusterState)
      → IsIndexed token s
      → let (s', made) = schedule_on token now online s in
        All (λ a. 0 < count (holds_task a.task_id) s'.leases) made × IsIndexed token s'
  unfolding schedule_on
  schedule_on-leases [] s v = (tt, v)
  schedule_on-leases (node ∷ nodes) s v =
      let (made, w, grows) =
        schedule_loop-leases (node ∷ nodes) (ready_tasks s now) (active_counts s.tasks []) s v in
      (made, w)

  -- If no token is drawn twice and the lease index is well-formed, every task that a scheduling pass
  -- hands out holds an active lease when the pass ends, so that recovery can find it; the index
  -- stays well-formed.
  pub schedule-leases :
      (s : ClusterState)
      → IsIndexed token s
      → let (s', made) = schedule_pending_detailed token now s in
        All (λ a. 0 < count (holds_task a.task_id) s'.leases) made × IsIndexed token s'
  unfolding schedule_pending_detailed
  schedule-leases s v = schedule_on-leases (online_nodes s) s v
