-- ===== src/Store/Leases.antt =====
-- The lease methods of `ClusterStore` (hermes_cluster/state/cluster_store.py).
use hermes_agent_cluster.Prelude.{
  ℕ, ◌+◌, String, Bool, not, ◌&&◌, Option, none, some, List, [], ◌∷◌, map, ◌==◌, ltb, if◌then◌else◌,
  keep, member, is_empty,
}
use hermes_agent_cluster.Models.{Lease, LeaseStatus, lease_key, is_active_lease, is_expired_lease}
use hermes_agent_cluster.State.{generate_id}
use hermes_agent_cluster.Store.{ClusterStore, update_where, any_row, insert}

-- `none` is the IntegrityError of an id that is taken.
unfoldable pub create_lease :
    (ℕ → String) → ClusterStore → String → String → ℕ → ℕ → Option (ClusterStore × Lease)
unfolding generate_id
create_lease token d task_id node_id ttl now =
    let lease : Lease = record {
      id = generate_id token "lease" d.generated;
      task_id = task_id;
      node_id = node_id;
      created_at = now;
      expires_at = now + ttl;
      status = LeaseStatus.active;
    } in
    elim (insert lease_key lease d.leases) [
      | none ↦ none
      | some leases ↦ some (record d { leases = leases; generated = d.generated + 1 }, lease)
    ]

abbrev pub revoked : Lease → Lease
revoked lease = record lease { status = LeaseStatus.revoked }

unfoldable pub revoke_lease : ClusterStore → String → ClusterStore × Bool
revoke_lease d lease_id = (
  record d { leases = update_where (λ l. l.id == lease_id) revoked d.leases },
  any_row (λ l. l.id == lease_id) d.leases,
)

abbrev pub expired_row : Lease → Lease
expired_row lease = record lease { status = LeaseStatus.expired }

-- The `if` of the loop over the rows of status active.
abbrev pub runs_on : ℕ → Lease → Bool
runs_on now lease = ltb now lease.expires_at

abbrev pub run_out : ℕ → Lease → Bool
run_out now lease = not (ltb now lease.expires_at)

abbrev lease_id_of : Lease → String
lease_id_of lease = lease.id

abbrev pub lease_call : Lease → String × String
lease_call lease = (lease.task_id, lease.node_id)

-- The active leases, and the calls of the expiry callback in order.
unfoldable pub get_active_leases :
    ClusterStore → ℕ → ClusterStore × (List Lease × List (String × String))
get_active_leases d now =
    let rows = keep (λ l. is_active_lease l.status) d.leases in
    let expired = keep (run_out now) rows in
    let expired_ids = map lease_id_of expired in
    (
      record d { leases = update_where (λ l. member l.id expired_ids) expired_row d.leases },
      (keep (runs_on now) rows, map lease_call expired),
    )

-- The first row of a query.
abbrev pub first_row : List Lease → Option Lease
first_row [] = none
first_row (l ∷ ls) = some l

unfoldable pub get_lease_by_task : ClusterStore → String → Option Lease
get_lease_by_task d task_id =
    if is_empty task_id
    then none
    else first_row (keep (λ l. l.task_id == task_id && is_active_lease l.status) d.leases)

unfoldable pub get_expired_leases : ClusterStore → List Lease
get_expired_leases d = keep (λ l. is_expired_lease l.status) d.leases

-- `SELECT task_id FROM leases WHERE status = 'active' AND expires_at > now`
abbrev pub is_live_row : ℕ → Lease → Bool
is_live_row now l = is_active_lease l.status && ltb now l.expires_at

abbrev lease_task : Lease → String
lease_task lease = lease.task_id

unfoldable pub leased_task_ids : ClusterStore → ℕ → List String
leased_task_ids d now = map lease_task (keep (is_live_row now) d.leases)
