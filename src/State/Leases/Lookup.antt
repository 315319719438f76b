-- ===== src/State/Leases/Lookup.antt =====
-- `get_lease_by_task` against the table that its index abbreviates.
use hermes_agent_cluster.Prelude.{
  ℕ, ◌<◌, ◌≡◌, refl, subst, String, true, false, Option, none, some, List, [], ◌∷◌, arith, inl, inr,
  ◌↔◌, Bool-cases, Option-cases, eq_iff, is_empty, count,
}
use hermes_agent_cluster.Table.{get}
use hermes_agent_cluster.Table.Laws.{count-get_pos}
use hermes_agent_cluster.Models.{Lease, lease_key, is_active_lease}
use hermes_agent_cluster.State.{ClusterState, index_key}
use hermes_agent_cluster.State.Leases.{
  holds_task, scan_leases, active_or_none, indexed_lease, get_lease_by_task,
}
use hermes_agent_cluster.State.Leases.Index.{IsIndexed}

module _ (token : ℕ → String) where
  scan_leases-holds :
      (task_id : String) (leases : List Lease) (l : Lease)
      → scan_leases task_id leases ≡ some l
      → holds_task task_id l ≡ true
  unfolding scan_leases
  scan_leases-holds task_id [] l h = absurd (grind arith)
  scan_leases-holds task_id (x ∷ leases) l h = elim (Bool-cases (holds_task task_id x)) [
    | inl hit ↦ let same : x ≡ l = ground arith in subst (λ y. holds_task task_id y ≡ true) same hit
    | inr miss ↦ scan_leases-holds task_id leases l (ground arith)
  ]

  scan_leases-none :
      (task_id : String) (leases : List Lease)
      → (scan_leases task_id leases ≡ none) ↔ (count (holds_task task_id) leases ≡ 0)
  unfolding scan_leases count
  scan_leases-none task_id [] = (λ h. refl, λ h. refl)
  scan_leases-none task_id (x ∷ leases) =
      let (down, up) = scan_leases-none task_id leases in
      (λ h. ground (arith, down), λ h. ground (arith, up))

  active_or_none-some :
      (o : Option Lease) (l : Lease)
      → active_or_none o ≡ some l
      → (o ≡ some l) × (is_active_lease l.status ≡ true)
  active_or_none-some none l h = absurd (grind arith)
  active_or_none-some (some x) l h = ground arith

  indexed_lease-holds :
      (s : ClusterState) (task_id : String) (l : Lease)
      → IsIndexed token s
      → indexed_lease s task_id ≡ some l
      → (holds_task task_id l ≡ true) × (0 < count (holds_task task_id) s.leases)
  unfolding indexed_lease
  indexed_lease-holds s task_id l v h =
      elim (Option-cases (get index_key task_id s.task_lease_index)) [
        | inl e ↦ absurd (ground arith)
        | inr (entry, e) ↦
            let found : active_or_none (get lease_key entry.1 s.leases) ≡ some l = ground arith in
            let (there, active) = active_or_none-some (get lease_key entry.1 s.leases) l found in
            let named : l.task_id ≡ task_id = (v.entries task_id entry e).1 l there in
            let held : holds_task task_id l ≡ true = ground (arith, eq_iff l.task_id task_id) in
            (held, count-get_pos lease_key (holds_task task_id) entry.1 s.leases l there held)
      ]

  -- For a task id that is not empty, in a store whose index is well-formed, `get_lease_by_task` finds
  -- an active lease of the task, and finds one exactly when there is one.
  pub get_lease_by_task_correct :
      (s : ClusterState) (task_id : String)
      → IsIndexed token s
      → is_empty task_id ≡ false
      → ((lease : Lease)
          → get_lease_by_task s task_id ≡ some lease
          → holds_task task_id lease ≡ true)
        × ((get_lease_by_task s task_id ≡ none) ↔ (count (holds_task task_id) s.leases ≡ 0))
  unfolding get_lease_by_task
  get_lease_by_task_correct s task_id v named = elim (Option-cases (indexed_lease s task_id)) [
    | inl e ↦ (
      λ l h. scan_leases-holds task_id s.leases l (ground arith),
      (
        λ h. (scan_leases-none task_id s.leases).0 (ground arith),
        λ h. ground (arith, (scan_leases-none task_id s.leases).1 h),
      ),
    )
    | inr (lease, e) ↦ (
      λ l h. (indexed_lease-holds s task_id l v (ground arith)).0,
      (
        λ h. absurd (ground arith),
        λ h. absurd (omega (arith, (indexed_lease-holds s task_id lease v e).1)),
      ),
    )
  ]
