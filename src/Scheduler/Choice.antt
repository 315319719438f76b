-- ===== src/Scheduler/Choice.antt =====
-- What `choose` of core/scheduler.py promises.
use hermes_agent_cluster.Prelude.{
  ℕ, ◌≡◌, refl, sym, ◌∙◌, subst, String, true, false, Option, none, some, List, [], ◌∷◌, arith, inl,
  inr, ◌⊎◌, ◌↔◌, In, head, further, All, All-map,
}
use hermes_agent_cluster.Models.{Node}
use hermes_agent_cluster.Scheduler.{
  FairScheduler, Counts, key_lt, eligible, pick_key, consider, choose_loop, choose,
}

module _ (s : FairScheduler) (task_requires : List String) (active_counts : Counts) where
  abbrev pub key : Node → ℕ × ℕ
  key = pick_key s task_requires active_counts

  abbrev pub IsEligible : Node → Type 0
  IsEligible node = eligible s task_requires active_counts node ≡ true

  abbrev loop : Option Node → List Node → Option Node
  loop = choose_loop s task_requires active_counts

  abbrev next : Option Node → Node → Option Node
  next = consider s task_requires active_counts

  -- `node` does not come before the best node of `best`.
  abbrev Under : Node → Option Node → Type 0
  Under node none = ⊥
  Under node (some best) = key_lt (key node) (key best) ≡ false

  Under-consider :
      (m : Node) (best : Option Node) (node : Node) → Under m best → Under m (next best node)
  unfolding consider
  Under-consider m none node h = absurd h
  Under-consider m (some b) node h = ground arith

  Under-consider_self :
      (best : Option Node) (node : Node) → IsEligible node → Under node (next best node)
  unfolding consider
  Under-consider_self none node h = ground arith
  Under-consider_self (some b) node h = ground arith

  consider_cases :
      (best : Option Node) (node : Node)
      → (next best node ≡ best) ⊎ (IsEligible node × (next best node ≡ some node))
  unfolding consider
  consider_cases none node = ground arith
  consider_cases (some b) node = ground arith

  Under-loop :
      (m : Node) (nodes : List Node) (best : Option Node) → Under m best → Under m (loop best nodes)
  unfolding choose_loop
  Under-loop m [] best h = h
  Under-loop m (node ∷ nodes) best h =
      Under-loop m nodes (next best node) (Under-consider m best node h)

  loop-least :
      (nodes : List Node) (best : Option Node)
      → All (λ node. IsEligible node → Under node (loop best nodes)) nodes
  unfolding choose_loop
  loop-least [] best = tt
  loop-least (node ∷ nodes) best = (
    λ h. Under-loop node nodes (next best node) (Under-consider_self best node h),
    loop-least nodes (next best node),
  )

  loop_source :
      (nodes : List Node) (best : Option Node) (n : Node)
      → loop best nodes ≡ some n
      → (best ≡ some n) ⊎ (In n nodes × IsEligible n)
  unfolding choose_loop
  loop_source [] best n h = inl h
  loop_source (node ∷ nodes) best n h = elim (loop_source nodes (next best node) n h) [
    | inr (within, fits) ↦ inr (further within, fits)
    | inl e ↦ elim (consider_cases best node) [
      | inl same ↦ inl (sym same ∙ e)
      | inr (fits, new) ↦
          let same : node ≡ n = ground arith in
          inr (subst (λ m. In m (node ∷ nodes)) same head, subst IsEligible same fits)
    ]
  ]

  -- A chosen node is one of the candidates, it declares every required capability, is not drained
  -- and has a free slot; and no candidate with these properties has fewer active tasks, or as many
  -- and an earlier last pick.
  pub choose_sound :
      (nodes : List Node) (n : Node)
      → choose s task_requires active_counts nodes ≡ some n
      → In n nodes × IsEligible n × All (λ m. IsEligible m → key_lt (key m) (key n) ≡ false) nodes
  unfolding choose
  choose_sound nodes n h = elim (loop_source nodes none n h) [
    | inl e ↦ absurd (ground arith)
    | inr (within, fits) ↦ (
      within,
      fits,
      subst (λ o. All (λ m. IsEligible m → Under m o) nodes) h (loop-least nodes none),
    )
  ]

  loop-none : (nodes : List Node) → All (λ m. ¬ IsEligible m) nodes → loop none nodes ≡ none
  unfolding choose_loop
  loop-none [] h = refl
  loop-none (node ∷ nodes) h = elim (consider_cases none node) [
    | inl same ↦ rw same (loop-none nodes h.1)
    | inr (fits, _) ↦ absurd (h.0 fits)
  ]

  -- No node is chosen exactly when no candidate is eligible.
  pub choose-none_iff :
      (nodes : List Node)
      → (choose s task_requires active_counts nodes ≡ none) ↔ All (λ m. ¬ IsEligible m) nodes
  unfolding choose
  choose-none_iff nodes = (
    λ h. All-map (λ m under fits. subst (Under m) h (under fits)) nodes (loop-least nodes none),
    loop-none nodes,
  )
