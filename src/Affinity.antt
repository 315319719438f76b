-- ===== src/Affinity.antt =====
-- hermes_cluster/core/lane_affinity.py: a task of a placed lane goes to the lane's node or waits.
pub mod Identity
pub mod Pins
use hermes_agent_cluster.Prelude.{
  String, Bool, true, false, not, Option, none, some, List, [], ◌∷◌, ◌==◌, if◌then◌else◌, is_empty,
  strip, after_prefix, or_else,
}
use hermes_agent_cluster.Models.{Node}
use hermes_agent_cluster.Scheduler.{
  FairScheduler, Counts, get_count, node_at_capacity, node_can_run, choose,
}

abbrev pub node_prefix : String
node_prefix = "node_"

-- At most one prefix is removed.
unfoldable pub canonical_node_id : String → String
canonical_node_id node_id = let s = strip node_id in or_else (after_prefix node_prefix s) s

unfoldable pub same_node : String → String → Bool
same_node a b =
    if is_empty a
    then false
    else if is_empty b
    then false
    else canonical_node_id a == canonical_node_id b

module _ (s : FairScheduler) (task_requires : List String) (active_counts : Counts)
    (pinned_node_id : String) where
  -- The `for` loop of `choose_pinned`: the first online node that the pin names decides.
  unfoldable pub pinned_loop : List Node → Option Node
  pinned_loop [] = none
  pinned_loop (node ∷ nodes) =
      if not (same_node node.id pinned_node_id)
      then pinned_loop nodes
      else if not (node_can_run task_requires node)
      then none
      else if node_at_capacity node (get_count node.id active_counts)
      then none
      else some node

  -- The flag tells a parked task, `(none, true)`, from one that no node can take.
  unfoldable pub choose_pinned : List Node → Option Node × Bool
  choose_pinned online_nodes =
      if is_empty pinned_node_id
      then (choose s task_requires active_counts online_nodes, false)
      else (pinned_loop online_nodes, true)
