-- ===== src/Examples/Scheduling.antt =====
-- Tests and witnesses of the scheduler.
use hermes_agent_cluster.Prelude.{
  strip, ◌+◌, ◌≤◌, ◌<◌, ◌≡◌, ◌↔◌, refl, String, true, false, none, some, [], ◌∷◌, arith, In, All,
  count, max, keep, sorted, insert_sorted, all_of, member, concat, after_prefix, strip_left,
  strip_right, is_space,
}
use hermes_agent_cluster.Table.{get, put, has}
use hermes_agent_cluster.Table.Laws.{IsKeyed}
use hermes_agent_cluster.Models.{Node, node_key, task_key}
use hermes_agent_cluster.Scheduler.{
  new_scheduler, choose, choose_loop, consider, eligible, node_can_run, node_at_capacity, get_count,
  pick_key, key_lt,
}
use hermes_agent_cluster.Scheduler.Choice.{key, IsEligible, choose_sound, choose-none_iff}
use hermes_agent_cluster.Scheduler.Lanes.{
  lane_blocked_ready_ids, active_lanes, by_lane, add_entry, blocked_of, blocked_ids,
}
use hermes_agent_cluster.Scheduler.Lanes.Exclusion.{holds, unblocked, lane_blocked-exclusive}
use hermes_agent_cluster.Affinity.{
  pinned_loop, canonical_node_id, node_prefix, choose_pinned, same_node,
}
use hermes_agent_cluster.Affinity.Pins.{
  IsPinTo, is_named, choose_pinned_sound, choose_pinned_parked,
}
use hermes_agent_cluster.Affinity.Identity.{IsBare, same_node-prefixed}
use hermes_agent_cluster.State.Schedule.{online_nodes, schedule_pending_detailed}
use hermes_agent_cluster.State.Schedule.Safety.{schedule-capacity, occupies_node}
use hermes_agent_cluster.State.Schedule.ActiveLanes.{schedule-one_per_lane}
use hermes_agent_cluster.State.Leases.{holds_task}
use hermes_agent_cluster.State.Leases.Index.{IsIndexed}
use hermes_agent_cluster.State.Schedule.Leased.{schedule-leases}
use hermes_agent_cluster.Examples.{
  unary_injective, distinct, distinct-IsKeyed, node_a, node_b, sample_state, unary,
}

choice_of_two : choose new_scheduler ("code" ∷ []) [] (node_b ∷ node_a ∷ []) ≡ some node_a
unfolding choose choose_loop consider eligible node_can_run node_at_capacity get_count get pick_key
    all_of member
choice_of_two = refl

no_choice : choose new_scheduler ("code" ∷ []) [] (node_b ∷ []) ≡ none
unfolding choose choose_loop consider eligible node_can_run node_at_capacity get_count get pick_key
    all_of member
no_choice = refl

sample-nodes-IsKeyed : IsKeyed node_key sample_state.nodes
unfolding distinct has
sample-nodes-IsKeyed = distinct-IsKeyed node_key sample_state.nodes refl

sample-tasks-IsKeyed : IsKeyed task_key sample_state.tasks
unfolding distinct has
sample-tasks-IsKeyed = distinct-IsKeyed task_key sample_state.tasks refl

sample-one_per_lane : (lane : String) → count (holds lane) sample_state.tasks ≤ 1
unfolding count
sample-one_per_lane lane = omega arith

schedule-capacity_example :
    ((n : Node)
      → In n (online_nodes sample_state)
      → 0 < n.max_concurrent
      → count (occupies_node n.id) (schedule_pending_detailed unary 100 sample_state).0.tasks
        ≤ max (count (occupies_node n.id) sample_state.tasks) n.max_concurrent)
    × ((k : String)
        → ((n : Node) → In n (online_nodes sample_state) → n.id ≡ k → n.drained ≡ true)
        → count (occupies_node k) (schedule_pending_detailed unary 100 sample_state).0.tasks
          ≤ count (occupies_node k) sample_state.tasks)
schedule-capacity_example = schedule-capacity unary 100 sample_state sample-nodes-IsKeyed

schedule-one_per_lane_example :
    count (holds "lane") (schedule_pending_detailed unary 100 sample_state).0.tasks ≤ 1
schedule-one_per_lane_example =
    schedule-one_per_lane unary 100 sample_state sample-tasks-IsKeyed sample-one_per_lane "lane"

choose_sound_example :
    In node_a (node_b ∷ node_a ∷ [])
    × IsEligible new_scheduler ("code" ∷ []) [] node_a
    × All
        (λ m.
          IsEligible new_scheduler ("code" ∷ []) [] m
          → key_lt
              (key new_scheduler ("code" ∷ []) [] m)
              (key new_scheduler ("code" ∷ []) [] node_a)
            ≡ false)
        (node_b ∷ node_a ∷ [])
choose_sound_example =
    choose_sound new_scheduler ("code" ∷ []) [] (node_b ∷ node_a ∷ []) node_a choice_of_two

choose-none_iff_example :
    (choose new_scheduler ("code" ∷ []) [] (node_b ∷ []) ≡ none)
    ↔ All (λ m. ¬ IsEligible new_scheduler ("code" ∷ []) [] m) (node_b ∷ [])
choose-none_iff_example = choose-none_iff new_scheduler ("code" ∷ []) [] (node_b ∷ [])

lane_blocked-exclusive_example :
    count (unblocked "lane" sample_state.tasks) sample_state.tasks
      + count (holds "lane") sample_state.tasks
    ≤ 1
lane_blocked-exclusive_example =
    lane_blocked-exclusive "lane" sample_state.tasks sample-tasks-IsKeyed
      (sample-one_per_lane "lane")

-- The younger of the two ready tasks of the lane waits.
blocked_example : lane_blocked_ready_ids sample_state.tasks ≡ "task_2" ∷ []
unfolding lane_blocked_ready_ids active_lanes by_lane add_entry blocked_of blocked_ids keep get put
    sorted insert_sorted member
blocked_example = refl

IsBare-example : IsBare "n1"
unfolding strip_left strip_right is_space after_prefix
IsBare-example = record { trimmed = (refl, refl); named = refl; unprefixed = refl }

same_node-prefixed_example :
    (same_node (concat node_prefix "n1") "n1" ≡ true)
    × (same_node (concat node_prefix (concat node_prefix "n1")) "n1" ≡ false)
    × (same_node (concat node_prefix (concat node_prefix "n1")) (concat node_prefix "n1") ≡ false)
same_node-prefixed_example = same_node-prefixed "n1" IsBare-example

choose_pinned_sound_example :
    ((choose_pinned new_scheduler ("code" ∷ []) [] "a" (node_a ∷ node_b ∷ [])).1 ≡ true)
    × ((n : Node)
        → (choose_pinned new_scheduler ("code" ∷ []) [] "a" (node_a ∷ node_b ∷ [])).0 ≡ some n
        → IsPinTo new_scheduler ("code" ∷ []) [] "a" (node_a ∷ node_b ∷ []) n)
choose_pinned_sound_example =
    choose_pinned_sound new_scheduler ("code" ∷ []) [] "a" (node_a ∷ node_b ∷ []) refl

-- The drained node "node_b" parks the tasks of its lanes.
named_once : count (is_named new_scheduler ("code" ∷ []) [] "b") (node_a ∷ node_b ∷ []) ≤ 1
unfolding count same_node canonical_node_id strip strip_left strip_right is_space after_prefix
named_once = omega arith

parked : (choose_pinned new_scheduler ("code" ∷ []) [] "b" (node_a ∷ node_b ∷ [])).0 ≡ none
unfolding choose_pinned pinned_loop same_node canonical_node_id strip strip_left strip_right
    is_space after_prefix node_can_run
parked = refl

choose_pinned_parked_example :
    All
      (λ m.
        is_named new_scheduler ("code" ∷ []) [] "b" m ≡ true
        → eligible new_scheduler ("code" ∷ []) [] m ≡ false)
      (node_a ∷ node_b ∷ [])
choose_pinned_parked_example =
    choose_pinned_parked new_scheduler ("code" ∷ []) [] "b" (node_a ∷ node_b ∷ []) refl named_once
      parked

-- A store without leases.
sample_state-IsIndexed : IsIndexed unary sample_state
unfolding count get
sample_state-IsIndexed = record {
  drawn = tt;
  keyed = λ k. omega arith;
  entries = λ t entry e. absurd (ground arith);
}

schedule-leases_example :
    let (s', made) = schedule_pending_detailed unary 100 sample_state in
    All (λ a. 0 < count (holds_task a.task_id) s'.leases) made × IsIndexed unary s'
schedule-leases_example =
    schedule-leases unary unary_injective 100 sample_state sample_state-IsIndexed
