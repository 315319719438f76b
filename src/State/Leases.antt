-- ===== src/State/Leases.antt =====
-- The lease methods of `ClusterState` (hermes_cluster/state/__init__.py).
pub mod Index
pub mod Lookup
pub mod Expiry
pub mod Revoke
use hermes_agent_cluster.Prelude.{
  ℕ, ◌+◌, String, Bool, true, false, not, ◌&&◌, Option, none, some, List, [], ◌∷◌, map, ◌==◌, ltb,
  leb, if◌then◌else◌, keep, is_empty,
}
use hermes_agent_cluster.Table.{get, put, remove, has}
use hermes_agent_cluster.Models.{Lease, LeaseStatus, lease_key, is_active_lease, is_expired_lease}
use hermes_agent_cluster.State.{ClusterState, index_key, generate_id}

unfoldable pub new_lease : (ℕ → String) → ClusterState → String → String → ℕ → ℕ → Lease
unfolding generate_id
new_lease token s task_id node_id ttl now = record {
  id = generate_id token "lease" s.generated;
  task_id = task_id;
  node_id = node_id;
  created_at = now;
  expires_at = now + ttl;
  status = LeaseStatus.active;
}

unfoldable pub create_lease :
    (ℕ → String) → ClusterState → String → String → ℕ → ℕ → ClusterState × Lease
create_lease token s task_id node_id ttl now =
    let lease = new_lease token s task_id node_id ttl now in
    (
      record s {
        leases = put lease_key lease s.leases;
        task_lease_index = put index_key (task_id, lease.id) s.task_lease_index;
        generated = s.generated + 1;
      },
      lease,
    )

unfoldable pub revoke_lease : ClusterState → String → ClusterState × Bool
revoke_lease s lease_id = elim (get lease_key lease_id s.leases) [
  | none ↦ (s, false)
  | some lease ↦ (
    record s {
      leases = put lease_key (record lease { status = LeaseStatus.revoked }) s.leases;
      task_lease_index = remove index_key lease.task_id s.task_lease_index;
    },
    true,
  )
]

-- An active lease that has not, or that has, run out.
abbrev pub is_live : ℕ → Lease → Bool
is_live now lease = is_active_lease lease.status && ltb now lease.expires_at

abbrev pub is_overdue : ℕ → Lease → Bool
is_overdue now lease = is_active_lease lease.status && leb lease.expires_at now

abbrev pub mark_expired : ℕ → Lease → Lease
mark_expired now lease =
    if is_overdue now lease then record lease { status = LeaseStatus.expired } else lease

-- The pair that the expiry callback gets.
abbrev pub expiry_call : Lease → String × String
expiry_call lease = (lease.task_id, lease.node_id)

-- The active leases, after marking those that ran out; the calls of the expiry callback are the
-- second part of the result.
unfoldable pub get_active_leases :
    ClusterState → ℕ → ClusterState × (List Lease × List (String × String))
get_active_leases s now = (
  record s { leases = map (mark_expired now) s.leases },
  (keep (is_live now) s.leases, map expiry_call (keep (is_overdue now) s.leases)),
)

-- `lease.task_id == task_id and lease.status == active`
abbrev pub holds_task : String → Lease → Bool
holds_task task_id lease = lease.task_id == task_id && is_active_lease lease.status

unfoldable pub scan_leases : String → List Lease → Option Lease
scan_leases task_id [] = none
scan_leases task_id (lease ∷ leases) =
    if holds_task task_id lease then some lease else scan_leases task_id leases

abbrev pub active_or_none : Option Lease → Option Lease
active_or_none none = none
active_or_none (some lease) = if is_active_lease lease.status then some lease else none

-- The lease that the index names, if it is there and active.
unfoldable pub indexed_lease : ClusterState → String → Option Lease
indexed_lease s task_id = elim (get index_key task_id s.task_lease_index) [
  | none ↦ none
  | some (_, lease_id) ↦
      if is_empty lease_id then none else active_or_none (get lease_key lease_id s.leases)
]

unfoldable pub get_lease_by_task : ClusterState → String → Option Lease
get_lease_by_task s task_id = if is_empty task_id then none else elim (indexed_lease s task_id) [
  | some lease ↦ some lease
  | none ↦ scan_leases task_id s.leases
]

unfoldable pub get_expired_leases : ClusterState → List Lease
get_expired_leases s = keep (λ lease. is_expired_lease lease.status) s.leases

abbrev pub task_of : Lease → String
task_of lease = lease.task_id

-- `_active_leased_task_ids`
unfoldable pub active_leased_task_ids : ClusterState → ℕ → List String
active_leased_task_ids s now = map task_of (keep (is_live now) s.leases)
