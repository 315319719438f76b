-- ===== src/Scheduler.antt =====
-- hermes_cluster/core/scheduler.py: the fair, capacity-aware planner. The lane guard of the same
-- file is in Scheduler/Lanes; the theorems are in the other children.
pub mod Lanes
pub mod Choice
use hermes_agent_cluster.Prelude.{
  ℕ, zero, suc, ◌+◌, String, Bool, true, false, not, ◌&&◌, ◌||◌, Option, none, some, List, [], ◌∷◌,
  ltb, leb, if◌then◌else◌, all_of, member,
}
use hermes_agent_cluster.Table.{get, put}
use hermes_agent_cluster.Models.{Node}

-- A dict of numbers, such as `active_counts`.
abbrev pub Counts : Type 0
Counts = List (String × ℕ)

abbrev pub count_key : String × ℕ → String
count_key entry = entry.0

-- `counts.get(k, 0)`
unfoldable pub get_count : String → Counts → ℕ
get_count k counts = elim (get count_key k counts) [ none ↦ 0 | some entry ↦ entry.1 ]

unfoldable pub node_at_capacity : Node → ℕ → Bool
node_at_capacity node active_count =
    if leb node.max_concurrent 0 then false else leb node.max_concurrent active_count

unfoldable pub node_can_run : List String → Node → Bool
node_can_run task_requires node =
    if node.drained then false else all_of (λ cap. member cap node.capabilities) task_requires

pub record FairScheduler : Type 0 where
  pub pick_round : ℕ
  pub last_picked_at : Counts

-- `FairScheduler()`
abbrev pub new_scheduler : FairScheduler
new_scheduler = record { pick_round = 0; last_picked_at = [] }

-- `self._last_picked_at.get(node.id, -1)`, moved up by one.
unfoldable pub last_picked : FairScheduler → String → ℕ
last_picked s node_id = elim (get count_key node_id s.last_picked_at) [
  | none ↦ 0
  | some entry ↦ suc entry.1
]

-- The order of Python's pairs.
abbrev pub key_lt : ℕ × ℕ → ℕ × ℕ → Bool
key_lt (a, b) (c, d) = ltb a c || (leb a c && ltb b d)

module _ (s : FairScheduler) (task_requires : List String) (active_counts : Counts) where
  unfoldable pub eligible : Node → Bool
  eligible node =
      node_can_run task_requires node
      && not (node_at_capacity node (get_count node.id active_counts))

  unfoldable pub pick_key : Node → ℕ × ℕ
  pick_key node = (get_count node.id active_counts, last_picked s node.id)

  -- `best_key is None or key < best_key`
  abbrev pub beats : Node → Option Node → Bool
  beats node none = true
  beats node (some best) = key_lt (pick_key node) (pick_key best)

  -- One round of the `for` loop of `choose`; `best_key` is the key of `best`.
  unfoldable pub consider : Option Node → Node → Option Node
  consider best node = if eligible node then (if beats node best then some node else best) else best

  unfoldable pub choose_loop : Option Node → List Node → Option Node
  choose_loop best [] = best
  choose_loop best (node ∷ nodes) = choose_loop (consider best node) nodes

  unfoldable pub choose : List Node → Option Node
  choose online_nodes = choose_loop none online_nodes

unfoldable pub mark_picked : FairScheduler → String → FairScheduler
mark_picked s node_id = record {
  pick_round = s.pick_round + 1;
  last_picked_at = put count_key (node_id, s.pick_round) s.last_picked_at;
}
