-- ===== src/Affinity/Pins.antt =====
-- What `choose_pinned` of core/lane_affinity.py promises.
use hermes_agent_cluster.Prelude.{
  ◌≡◌, String, Bool, true, false, none, some, List, [], ◌∷◌, arith, In, head, further, is_empty,
  Bool-cases, inl, inr, subst, if◌then◌else◌, ◌≤◌, count, All, All-map, All-count_zero, false,
}
use hermes_agent_cluster.Models.{Node}
use hermes_agent_cluster.Scheduler.{FairScheduler, Counts, eligible}
use hermes_agent_cluster.Affinity.{same_node, pinned_loop, choose_pinned}

module _ (s : FairScheduler) (task_requires : List String) (active_counts : Counts)
    (pinned_node_id : String) where
  -- What holds of a node that takes a pinned task.
  pub record IsPinTo (nodes : List Node) (n : Node) : Type 0 where
    pub within : In n nodes
    pub fits : eligible s task_requires active_counts n ≡ true
    pub named : same_node n.id pinned_node_id ≡ true

  abbrev pub is_named : Node → Bool
  is_named node = same_node node.id pinned_node_id

  -- The loop takes the first node that the pin names, if that node is eligible.
  pinned_loop_cases :
      (node : Node) (nodes : List Node)
      → pinned_loop s task_requires active_counts pinned_node_id (node ∷ nodes) ≡ (
          if is_named node
          then (if eligible s task_requires active_counts node then some node else none)
          else pinned_loop s task_requires active_counts pinned_node_id nodes)
  unfolding pinned_loop eligible
  pinned_loop_cases node nodes = ground arith

  pinned_loop-IsPinTo :
      (nodes : List Node) (n : Node)
      → pinned_loop s task_requires active_counts pinned_node_id nodes ≡ some n
      → IsPinTo nodes n
  unfolding pinned_loop
  pinned_loop-IsPinTo [] n h = absurd (ground arith)
  pinned_loop-IsPinTo (node ∷ nodes) n h = elim (Bool-cases (is_named node)) [
    | inr other ↦
        let rest = pinned_loop-IsPinTo nodes n (ground (arith, pinned_loop_cases node nodes)) in
        record { within = further rest.within; fits = rest.fits; named = rest.named }
    | inl named ↦
        let same : node ≡ n = ground (arith, pinned_loop_cases node nodes) in
        subst (IsPinTo (node ∷ nodes)) same (record {
          within = head;
          fits = ground (arith, pinned_loop_cases node nodes);
          named = named;
        })
  ]

  pinned_loop_parked :
      (nodes : List Node)
      → count is_named nodes ≤ 1
      → pinned_loop s task_requires active_counts pinned_node_id nodes ≡ none
      → All (λ m. is_named m ≡ true → eligible s task_requires active_counts m ≡ false) nodes
  unfolding count
  pinned_loop_parked [] h e = tt
  pinned_loop_parked (node ∷ nodes) h e = elim (Bool-cases (is_named node)) [
    | inl named ↦ (
      λ _. ground (arith, pinned_loop_cases node nodes),
      All-map (λ m other at. absurd (ground arith)) nodes
          (All-count_zero is_named nodes (ground arith)),
    )
    | inr other ↦ (
      λ at. absurd (ground arith),
      pinned_loop_parked nodes (ground arith) (ground (arith, pinned_loop_cases node nodes)),
    )
  ]

  -- A task with a pin is never handed to a substitute: the call says that it was pinned, and a node
  -- that takes the task is an online node that the pin names, can run the task and has a free slot.
  pub choose_pinned_sound :
      (nodes : List Node)
      → is_empty pinned_node_id ≡ false
      → ((choose_pinned s task_requires active_counts pinned_node_id nodes).1 ≡ true)
        × ((n : Node)
            → (choose_pinned s task_requires active_counts pinned_node_id nodes).0 ≡ some n
            → IsPinTo nodes n)
  unfolding choose_pinned
  choose_pinned_sound nodes h = (ground arith, λ n e. pinned_loop-IsPinTo nodes n (ground arith))

  -- If the pin names one online node at most, a task with that pin that gets no node is parked for
  -- a reason: no online node that the pin names can run it and has a free slot.
  pub choose_pinned_parked :
      (nodes : List Node)
      → is_empty pinned_node_id ≡ false
      → count is_named nodes ≤ 1
      → (choose_pinned s task_requires active_counts pinned_node_id nodes).0 ≡ none
      → All (λ m. is_named m ≡ true → eligible s task_requires active_counts m ≡ false) nodes
  unfolding choose_pinned
  choose_pinned_parked nodes h one e = pinned_loop_parked nodes one (ground arith)
