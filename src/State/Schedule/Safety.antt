-- ===== src/State/Schedule/Safety.antt =====
-- The capacity of the nodes across a whole call of `schedule_pending_detailed`.
use hermes_agent_cluster.Prelude.{
  ℕ, ◌+◌, ◌≤◌, ◌<◌, ◌≡◌, refl, ap, subst, String, Bool, true, false, ◌&&◌, none, some, List, [],
  ◌∷◌, arith, inl, inr, Bool-cases, Option-cases, ◌==◌, eq_iff, keep, count, count-keep, is_empty,
  if◌then◌else◌, In, max, All-always, and_true, count-le,
}
use hermes_agent_cluster.Table.{get, put}
use hermes_agent_cluster.Table.Laws.{get-put, count-put_le, IsKeyed, IsKeyed-unique}
use hermes_agent_cluster.Models.{Node, Task, task_key, node_key, is_online}
use hermes_agent_cluster.Scheduler.{
  Counts, count_key, get_count, eligible, node_at_capacity, node_can_run,
}
use hermes_agent_cluster.Scheduler.Choice.{choose_sound}
use hermes_agent_cluster.Affinity.{choose_pinned}
use hermes_agent_cluster.Affinity.Pins.{choose_pinned_sound}
use hermes_agent_cluster.State.{ClusterState}
use hermes_agent_cluster.State.Leases.{create_lease}
use hermes_agent_cluster.State.Log.{record_decision}
use hermes_agent_cluster.State.Schedule.{
  add_one, occupies, active_counts, ready_tasks, online_nodes, started, assign, schedule_on,
  schedule_pending_detailed, pinned_node,
}
use hermes_agent_cluster.State.Schedule.Rule.{Rule, schedule_loop_ind}

-- The tasks that occupy a slot of a node.
abbrev pub occupies_node : String → Task → Bool
occupies_node node_id t = elim (occupies t) [ none ↦ false | some held ↦ held == node_id ]

pub get_count-add_one :
    (k j : String) (counts : Counts)
    → get_count j (add_one k counts)
      ≡ (if k == j then get_count j counts + 1 else get_count j counts)
unfolding add_one get_count
get_count-add_one k j counts =
    ground (arith, get-put count_key j (k, get_count k counts + 1) counts, eq_iff k j)

-- The loop that fills `active_counts` counts the tasks on each node.
active_counts-count :
    (node_id : String) (tasks : List Task) (counts : Counts)
    → get_count node_id (active_counts tasks counts)
      ≡ get_count node_id counts + count (occupies_node node_id) tasks
unfolding active_counts count
active_counts-count node_id [] counts = omega arith
active_counts-count node_id (t ∷ tasks) counts = elim (Option-cases (occupies t)) [
  | inl free ↦ ground (arith, active_counts-count node_id tasks counts)
  | inr (held, e) ↦
      rw (e, occupies_node)
        (ground (
          arith,
          active_counts-count node_id tasks (add_one held counts),
          get_count-add_one held node_id counts,
        ))
]

get_count-empty : (k : String) → get_count k [] ≡ 0
unfolding get_count get
get_count-empty k = refl

pub tasks-assign :
    (token : ℕ → String) (now : ℕ) (s : ClusterState) (t : Task) (node : Node) (pinned : Bool)
    → (assign token now s t node pinned).tasks ≡ put task_key (started node now t) s.tasks
unfolding assign record_decision create_lease
tasks-assign token now s t node pinned = refl

-- Whom the loop may choose: an online node that can run the task and has a free slot.
chosen-eligible :
    (s : ClusterState) (t : Task) (counts : Counts) (online : List Node) (node : Node)
    (pinned : Bool)
    → choose_pinned s.fair_scheduler t.requires counts (pinned_node s.lanes t) online
      ≡ (some node, pinned)
    → In node online × (eligible s.fair_scheduler t.requires counts node ≡ true)
chosen-eligible s t counts online node pinned e =
    elim (Bool-cases (is_empty (pinned_node s.lanes t))) [
      | inl unpinned ↦
          let (within, fits, _) =
            choose_sound s.fair_scheduler t.requires counts online node
              (unfold choose_pinned in ground arith) in
          (within, fits)
      | inr named ↦
          let pin =
            (choose_pinned_sound s.fair_scheduler t.requires counts (pinned_node s.lanes t) online
                named).1
              node (ap (λ c. c.0) e) in
          (pin.within, pin.fits)
    ]

eligible-room :
    (s : ClusterState) (t : Task) (counts : Counts) (node : Node)
    → eligible s.fair_scheduler t.requires counts node ≡ true
    → 0 < node.max_concurrent
    → get_count node.id counts < node.max_concurrent
unfolding eligible node_at_capacity
eligible-room s t counts node fits pos = ground arith

eligible-undrained :
    (s : ClusterState) (t : Task) (counts : Counts) (node : Node)
    → eligible s.fair_scheduler t.requires counts node ≡ true
    → node.drained ≡ false
unfolding eligible node_can_run
eligible-undrained s t counts node fits = ground arith

started-occupies :
    (node : Node) (now : ℕ) (t : Task) (k : String)
    → occupies_node k (started node now t) ≡ true
    → (node.id == k) ≡ true
unfolding occupies
started-occupies node now t k h = ground arith

-- Capacity. `base` is the number of tasks on each node when the call starts.
record Fits (online : List Node) (base : String → ℕ) (counts : Counts) (s : ClusterState)
    : Type 0 where
  counted : (k : String) → count (occupies_node k) s.tasks ≤ get_count k counts
  bounded :
      (n : Node)
      → In n online
      → 0 < n.max_concurrent
      → get_count n.id counts ≤ max (base n.id) n.max_concurrent
  others :
      (k : String)
      → ((n : Node) → In n online → n.id ≡ k → n.drained ≡ true)
      → get_count k counts ≡ base k

Fits-rule :
    (token : ℕ → String) (now : ℕ) (online : List Node) (base : String → ℕ)
    → IsKeyed node_key online
    → Rule token now online (λ _ counts s. Fits online base counts s)
Fits-rule token now online base keyed = record {
  parked = λ t tasks counts s f. f;
  assigned = λ t tasks counts s node pinned f e.
      let (within, fits) = chosen-eligible s t counts online node pinned e in
      record {
        counted = λ k. rw tasks-assign (
            ground (
              arith,
              count-put_le task_key (occupies_node k) (started node now t) s.tasks,
              f.counted k,
              get_count-add_one node.id k counts,
              started-occupies node now t k,
            ));
        bounded = λ n m pos. elim (Bool-cases (node.id == n.id)) [
          | inr other ↦ ground (arith, get_count-add_one node.id n.id counts, f.bounded n m pos)
          | inl hit ↦
              let same : node ≡ n =
                IsKeyed-unique node_key node n online keyed within m
                  ((eq_iff node.id n.id).0 hit) in
              let room : get_count n.id counts < n.max_concurrent =
                eligible-room s t counts n
                  (subst (λ x. eligible s.fair_scheduler t.requires counts x ≡ true) same fits)
                  pos in
              ground (arith, get_count-add_one node.id n.id counts)
        ];
        others = λ k absent. ground (
          arith,
          get_count-add_one node.id k counts,
          f.others k absent,
          absent node within,
          eq_iff node.id k,
          eligible-undrained s t counts node fits,
        );
      };
}

keep-IsKeyed :
    (p : Node → Bool) (xs : List Node) → IsKeyed node_key xs → IsKeyed node_key (keep p xs)
keep-IsKeyed p xs h k =
    let fewer : count (λ n. (node_key n == k) && p n) xs ≤ count (λ n. node_key n == k) xs =
      count-le (λ n. (node_key n == k) && p n) (λ n. node_key n == k) xs
        (All-always (λ n. ((node_key n == k) && p n) ≡ true → (node_key n == k) ≡ true)
          (λ n e. (and_true (node_key n == k) (p n) e).0) xs) in
    omega (arith, fewer, h k, count-keep (λ n. node_key n == k) p xs)

online_nodes-IsKeyed :
    (s : ClusterState) → IsKeyed node_key s.nodes → IsKeyed node_key (online_nodes s)
unfolding online_nodes
online_nodes-IsKeyed s keyed = keep-IsKeyed (λ n. is_online n.status) s.nodes keyed

-- The counts that the loop starts with.
initial-count :
    (tasks : List Task) (k : String)
    → get_count k (active_counts tasks []) ≡ count (occupies_node k) tasks
initial-count tasks k = omega (arith, active_counts-count k tasks [], get_count-empty k)

schedule_on-capacity :
    (token : ℕ → String) (now : ℕ) (s : ClusterState) (online : List Node)
    → IsKeyed node_key online
    → let s' = (schedule_on token now online s).0 in
      ((n : Node)
        → In n online
        → 0 < n.max_concurrent
        → count (occupies_node n.id) s'.tasks
          ≤ max (count (occupies_node n.id) s.tasks) n.max_concurrent)
      × ((k : String)
          → ((n : Node) → In n online → n.id ≡ k → n.drained ≡ true)
          → count (occupies_node k) s'.tasks ≤ count (occupies_node k) s.tasks)
unfolding schedule_on
schedule_on-capacity token now s [] keyed = (λ n m pos. elim m [ ], λ k absent. omega arith)
schedule_on-capacity token now s (x ∷ xs) keyed =
    let base : String → ℕ = λ k. count (occupies_node k) s.tasks in
    let (final, fits) =
      schedule_loop_ind token now (x ∷ xs) (λ _ counts s'. Fits (x ∷ xs) base counts s')
        (Fits-rule token now (x ∷ xs) base keyed) (ready_tasks s now) (active_counts s.tasks []) s
        (record {
          counted = λ k. omega (arith, initial-count s.tasks k);
          bounded = λ n m pos. omega (arith, initial-count s.tasks n.id);
          others = λ k absent. initial-count s.tasks k;
        }) in
    (
      λ n m pos. omega (arith, fits.counted n.id, fits.bounded n m pos),
      λ k absent. omega (arith, fits.counted k, fits.others k absent),
    )

-- No call pushes an online node with a limit past it, nor a node above its limit further up: the
-- node ends with at most the larger of its limit and of what it ran before. A node that is not
-- online, or is drained, gets no task. The node table has one entry per id.
pub schedule-capacity :
    (token : ℕ → String) (now : ℕ) (s : ClusterState)
    → IsKeyed node_key s.nodes
    → let s' = (schedule_pending_detailed token now s).0 in
      ((n : Node)
        → In n (online_nodes s)
        → 0 < n.max_concurrent
        → count (occupies_node n.id) s'.tasks
          ≤ max (count (occupies_node n.id) s.tasks) n.max_concurrent)
      × ((k : String)
          → ((n : Node) → In n (online_nodes s) → n.id ≡ k → n.drained ≡ true)
          → count (occupies_node k) s'.tasks ≤ count (occupies_node k) s.tasks)
unfolding schedule_pending_detailed
schedule-capacity token now s keyed =
    schedule_on-capacity token now s (online_nodes s) (online_nodes-IsKeyed s keyed)
