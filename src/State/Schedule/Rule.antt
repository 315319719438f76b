-- ===== src/State/Schedule/Rule.antt =====
-- A proof rule for the loop of `schedule_pending_detailed`.
use hermes_agent_cluster.Prelude.{
  ℕ, ◌≡◌, refl, ap, String, Bool, Option, some, List, [], ◌∷◌, Option-cases, inl, inr,
}
use hermes_agent_cluster.Models.{Node, Task}
use hermes_agent_cluster.Scheduler.{Counts}
use hermes_agent_cluster.Affinity.{choose_pinned}
use hermes_agent_cluster.State.{ClusterState}
use hermes_agent_cluster.State.Schedule.{
  add_one, assign, pinned_node, schedule_loop, schedule_on, schedule_pending_detailed, ready_tasks,
  active_counts, online_nodes,
}

-- What to show of an invariant `P` of the tasks left, the counts and the state.
pub record Rule {ℓ} (token : ℕ → String) (now : ℕ) (online : List Node)
    (P : List Task → Counts → ClusterState → Type ℓ) : Type ℓ where
  pub parked :
      (t : Task) (tasks : List Task) (counts : Counts) (s : ClusterState)
      → P (t ∷ tasks) counts s
      → P tasks counts s
  pub assigned :
      (t : Task) (tasks : List Task) (counts : Counts) (s : ClusterState) (node : Node)
      (pinned : Bool)
      → P (t ∷ tasks) counts s
      → choose_pinned s.fair_scheduler t.requires counts (pinned_node s.lanes t) online
        ≡ (some node, pinned)
      → P tasks (add_one node.id counts) (assign token now s t node pinned)

module _ {ℓ} (token : ℕ → String) (now : ℕ) (online : List Node)
    (P : List Task → Counts → ClusterState → Type ℓ) (rule : Rule token now online P) where
  -- The invariant holds at the end, with the counts that the loop ends with.
  pub schedule_loop_ind :
      (tasks : List Task) (counts : Counts) (s : ClusterState)
      → P tasks counts s
      → (final : Counts) × P [] final (schedule_loop token now online tasks counts s).0
  unfolding schedule_loop
  schedule_loop_ind [] counts s p = (counts, p)
  schedule_loop_ind (t ∷ tasks) counts s p =
      let (choice, pinned) =
        choose_pinned s.fair_scheduler t.requires counts (pinned_node s.lanes t) online in
      elim (Option-cases choice) [
        | inl none_fits ↦
            rw (none_fits, schedule_loop)
              (schedule_loop_ind tasks counts s (rule.parked t tasks counts s p))
        | inr (node, chosen) ↦
            rw (chosen, schedule_loop)
              (schedule_loop_ind tasks (add_one node.id counts) (assign token now s t node pinned) (
                rule.assigned t tasks counts s node pinned p
                  (ap (λ (c : Option Node). (c, pinned)) chosen)))
      ]

  schedule_on_ind :
      (present : List Node) (s : ClusterState)
      → present ≡ online
      → P (ready_tasks s now) (active_counts s.tasks []) s
      → (left : List Task) × (final : Counts) × P left final (schedule_on token now present s).0
  unfolding schedule_on
  schedule_on_ind [] s e p = (ready_tasks s now, active_counts s.tasks [], p)
  schedule_on_ind (node ∷ nodes) s e p = rw e (
      let (final, q) = schedule_loop_ind (ready_tasks s now) (active_counts s.tasks []) s p in
      ([], final, q))

-- The rule for a whole call: some tasks may be left when no node is online.
pub schedule_pending_ind {ℓ} :
    (token : ℕ → String) (now : ℕ) (s : ClusterState)
    (P : List Task → Counts → ClusterState → Type ℓ)
    → Rule token now (online_nodes s) P
    → P (ready_tasks s now) (active_counts s.tasks []) s
    → (left : List Task) × (final : Counts) × P left final (schedule_pending_detailed token now s).0
unfolding schedule_pending_detailed
schedule_pending_ind token now s P rule p =
    schedule_on_ind token now (online_nodes s) P rule (online_nodes s) s refl p
