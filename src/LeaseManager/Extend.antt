-- ===== src/LeaseManager/Extend.antt =====
-- When `LeaseManager.extend` (hermes_cluster/lease/lease_manager.py) comes to an end.
use hermes_agent_cluster.Prelude.{
  ℕ, ◌<◌, ◌≡◌, ◌↔◌, refl, String, Bool, true, false, ◌&&◌, Option, List, [], ◌∷◌, map, arith, ltb,
  leb, keep, count, and_true, Bool-cases, Option-cases, inl, inr, is_empty,
}
use hermes_agent_cluster.Models.{Lease, is_active_lease}
use hermes_agent_cluster.Store.Leases as Rows
use hermes_agent_cluster.LeaseManager.{
  LeaseManager, returned, blocked, on_lease_expired, run_callbacks, scan_store, find_lease, renew,
  extend, effective_ttl,
}

-- A lease that is marked as active and has run out.
abbrev pub is_overdue : ℕ → Lease → Bool
is_overdue now l = is_active_lease l.status && leb l.expires_at now

abbrev overdue_rows : ℕ → List Lease → List Lease
overdue_rows now leases = keep (Rows.run_out now) (keep (λ l. is_active_lease l.status) leases)

overdue_rows-none :
    (now : ℕ) (leases : List Lease)
    → count (is_overdue now) leases ≡ 0
    → overdue_rows now leases ≡ []
unfolding keep count
overdue_rows-none now [] h = refl
overdue_rows-none now (l ∷ leases) h = ground (arith, overdue_rows-none now leases)

run_callbacks-blocked :
    (now : ℕ) (leases : List Lease) (m : LeaseManager)
    → 0 < count (is_overdue now) leases
    → run_callbacks true (map Rows.lease_call (overdue_rows now leases)) m ≡ blocked
unfolding keep count run_callbacks on_lease_expired
run_callbacks-blocked now [] m h = absurd (omega arith)
run_callbacks-blocked now (l ∷ leases) m h = elim (Bool-cases (is_overdue now l)) [
  | inl due ↦
      let (on, out) = and_true (is_active_lease l.status) (leb l.expires_at now) due in
      let late : Rows.run_out now l ≡ true = ground arith in rw (on, late) refl
  | inr fine ↦
      let rest = run_callbacks-blocked now leases m (ground arith) in
      elim (Bool-cases (is_active_lease l.status)) [
        | inr off ↦ rw off rest
        | inl on ↦ let kept : Rows.run_out now l ≡ false = ground arith in rw (on, kept) rest
      ]
]

renew-ends :
    (token : ℕ → String) (m : LeaseManager) (lease : Lease) (ttl now : ℕ)
    → renew token m lease ttl now ≡ blocked
    → ⊥
unfolding renew
renew-ends token m lease ttl now e =
    elim (Option-cases (Rows.create_lease token m.store lease.task_id lease.node_id ttl now)) [
      | inl taken ↦ ground (arith, rw (taken, renew) at e)
      | inr (made, there) ↦ ground (arith, rw (there, renew) at e)
    ]

scan_store-blocked :
    (m : LeaseManager) (now : ℕ)
    → 0 < count (is_overdue now) m.store.leases
    → scan_store true m now ≡ blocked
unfolding scan_store Rows.get_active_leases
scan_store-blocked m now due = rw (run_callbacks-blocked now m.store.leases m due, scan_store) refl

-- The manager after a scan that found nothing run out.
abbrev pub scanned : LeaseManager → ℕ → LeaseManager
scanned m now = record m { store = (Rows.get_active_leases m.store now).0 }

run_callbacks-returned :
    (m : LeaseManager) (now : ℕ) (leases : List Lease)
    → count (is_overdue now) leases ≡ 0
    → run_callbacks true (map Rows.lease_call (overdue_rows now leases)) m ≡ returned m
unfolding run_callbacks
run_callbacks-returned m now leases fine =
    rw (overdue_rows-none now leases fine, run_callbacks) refl

pub scan_store-returned :
    (m : LeaseManager) (now : ℕ)
    → count (is_overdue now) m.store.leases ≡ 0
    → scan_store true m now ≡ returned (scanned m now, (Rows.get_active_leases m.store now).1.0)
unfolding scan_store Rows.get_active_leases
scan_store-returned m now fine =
    rw (run_callbacks-returned m now m.store.leases fine, scan_store) refl

extend-ends :
    (token : ℕ → String) (m : LeaseManager) (lease_id : String) (additional_ttl : Option ℕ)
    (now : ℕ)
    → count (is_overdue now) m.store.leases ≡ 0
    → extend token m lease_id additional_ttl now ≡ blocked
    → ⊥
unfolding extend
extend-ends token m lease_id additional_ttl now fine e = elim (Bool-cases (is_empty lease_id)) [
  | inl blank ↦ ground (arith, rw (blank, extend) at e)
  | inr given ↦
      let active : List Lease = (Rows.get_active_leases m.store now).1.0 in
      elim (Option-cases (find_lease lease_id active)) [
        | inl absent ↦
            ground (arith, rw (given, scan_store-returned m now fine, absent, extend) at e)
        | inr (lease, there) ↦
            renew-ends token (scanned m now) lease (effective_ttl m additional_ttl) now
              (rw (given, scan_store-returned m now fine, there, extend) at e)
      ]
]

-- `extend` on an id that is not empty waits for ever exactly when some lease of the store is marked
-- as active and has run out: it takes its own lock a second time in the expiry callback.
pub extend-blocked_iff :
    (token : ℕ → String) (m : LeaseManager) (lease_id : String) (additional_ttl : Option ℕ)
    (now : ℕ)
    → is_empty lease_id ≡ false
    → (extend token m lease_id additional_ttl now ≡ blocked)
      ↔ (0 < count (is_overdue now) m.store.leases)
unfolding extend
extend-blocked_iff token m lease_id additional_ttl now given =
    elim (Bool-cases (ltb 0 (count (is_overdue now) m.store.leases))) [
      | inl due ↦
          (λ _. ground arith, λ late. rw (given, scan_store-blocked m now late, extend) refl)
      | inr fine ↦ (
        λ e. absurd (extend-ends token m lease_id additional_ttl now (ground arith) e),
        λ late. absurd (ground arith),
      )
    ]
