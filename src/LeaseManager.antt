-- ===== src/LeaseManager.antt =====
-- hermes_cluster/lease/lease_manager.py: `LeaseManager` over the SQLite store. The scanner thread is
-- a caller of `scan_once`; the registered callbacks are no part of the state, and an exception of
-- theirs is dropped. `self._lock` is a `threading.Lock`: a thread that holds it and takes it again
-- waits for ever.
pub mod Extend
use hermes_agent_cluster.Prelude.{
  ℕ, zero, suc, ◌+◌, String, Bool, true, false, Option, none, some, List, [], ◌∷◌, ◌==◌, length,
  is_empty, if◌then◌else◌,
}
use hermes_agent_cluster.Models.{Lease}
use hermes_agent_cluster.Store.{ClusterStore}
use hermes_agent_cluster.Store.Leases as Rows

pub record LeaseManager : Type 0 where
  pub store : ClusterStore
  pub ttl : ℕ
  pub active_count : ℕ
  pub expired_count : ℕ
  pub total_created : ℕ
  pub total_revoked : ℕ
  pub total_expired : ℕ

-- How a call ends: with a value, with an exception, or not at all.
pub data Outcome {ℓ} (A : Type ℓ) : Type ℓ where
  returned : A → Outcome A
  raised : String → Outcome A
  blocked : Outcome A

abbrev integrity_error : String
integrity_error = "IntegrityError"

-- `ttl or self._config.ttl`: a duration of zero is false.
abbrev pub effective_ttl : LeaseManager → Option ℕ → ℕ
effective_ttl m none = m.ttl
effective_ttl m (some zero) = m.ttl
effective_ttl m (some (suc ttl)) = suc ttl

unfoldable pub create :
    (ℕ → String) → LeaseManager → String → String → Option ℕ → ℕ → LeaseManager × Outcome Lease
create token m task_id node_id ttl now =
    if is_empty task_id
    then (m, raised "task_id is required")
    else if is_empty node_id
    then (m, raised "node_id is required")
    else elim (Rows.create_lease token m.store task_id node_id (effective_ttl m ttl) now) [
      | none ↦ (m, raised integrity_error)
      | some (store, lease) ↦
          (record m { store = store; total_created = m.total_created + 1 }, returned lease)
    ]

unfoldable pub revoke : LeaseManager → String → LeaseManager × Bool
revoke m lease_id =
    if is_empty lease_id
    then (m, false)
    else let (store, result) = Rows.revoke_lease m.store lease_id in
      (
        record m {
          store = store;
          total_revoked = if result then m.total_revoked + 1 else m.total_revoked;
        },
        result,
      )

unfoldable pub get_by_task : LeaseManager → String → Option Lease
get_by_task m task_id = if is_empty task_id then none else Rows.get_lease_by_task m.store task_id

-- `_on_lease_expired`, which takes the lock.
unfoldable pub on_lease_expired : Bool → LeaseManager → Outcome LeaseManager
on_lease_expired held m =
    if held then blocked else returned (record m { total_expired = m.total_expired + 1 })

-- The store runs it for each lease that it finds run out.
unfoldable pub run_callbacks : Bool → List (String × String) → LeaseManager → Outcome LeaseManager
run_callbacks held [] m = returned m
run_callbacks held (call ∷ calls) m = elim (on_lease_expired held m) [
  | blocked ↦ blocked
  | raised error ↦ raised error
  | returned m' ↦ run_callbacks held calls m'
]

-- `self._store.get_active_leases()`, by a thread that holds the lock or not.
unfoldable pub scan_store : Bool → LeaseManager → ℕ → Outcome (LeaseManager × List Lease)
scan_store held m now =
    let (store, (active, calls)) = Rows.get_active_leases m.store now in
    elim (run_callbacks held calls m) [
      | blocked ↦ blocked
      | raised error ↦ raised error
      | returned m' ↦ returned (record m' { store = store }, active)
    ]

unfoldable pub list_active : LeaseManager → ℕ → Outcome (LeaseManager × List Lease)
list_active m now = scan_store false m now

unfoldable pub scan_once : LeaseManager → ℕ → Outcome LeaseManager
scan_once m now = elim (scan_store false m now) [
  | blocked ↦ blocked
  | raised error ↦ raised error
  | returned (m', active) ↦ returned (record m' { active_count = length active })
]

unfoldable pub find_lease : String → List Lease → Option Lease
find_lease lease_id [] = none
find_lease lease_id (lease ∷ leases) =
    if lease.id == lease_id then some lease else find_lease lease_id leases

-- The body of the loop of `extend` at the lease with the id.
unfoldable pub renew :
    (ℕ → String) → LeaseManager → Lease → ℕ → ℕ → Outcome (LeaseManager × Option Lease)
renew token m lease ttl now =
    elim (Rows.create_lease token m.store lease.task_id lease.node_id ttl now) [
      | none ↦ raised integrity_error
      | some (store, new_lease) ↦
          returned (record m { store = (Rows.revoke_lease store lease.id).0 }, some new_lease)
    ]

-- Under the lock, from the look-up on.
unfoldable pub extend :
    (ℕ → String) → LeaseManager → String → Option ℕ → ℕ → Outcome (LeaseManager × Option Lease)
extend token m lease_id additional_ttl now =
    if is_empty lease_id then returned (m, none) else elim (scan_store true m now) [
      | blocked ↦ blocked
      | raised error ↦ raised error
      | returned (m', active) ↦ elim (find_lease lease_id active) [
        | none ↦ returned (m', none)
        | some lease ↦ renew token m' lease (effective_ttl m additional_ttl) now
      ]
    ]
