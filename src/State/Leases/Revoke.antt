-- ===== src/State/Leases/Revoke.antt =====
-- What `revoke_lease` of `ClusterState` (hermes_cluster/state/__init__.py) does to leases and index.
use hermes_agent_cluster.Prelude.{
  ℕ, ◌≡◌, refl, String, true, false, none, some, List, [], ◌∷◌, arith, ◌==◌, eq_iff, eq_refl,
}
use hermes_agent_cluster.Table.{get, remove}
use hermes_agent_cluster.Table.Laws.{get-put, get-remove_self}
use hermes_agent_cluster.Models.{Lease, LeaseStatus, lease_key}
use hermes_agent_cluster.State.{ClusterState, index_key}
use hermes_agent_cluster.State.Leases.{revoke_lease}
use hermes_agent_cluster.State.Leases.Index.{IsIndexed, revoke_lease-IsIndexed}

get-remove_other :
    (k j : String) (xs : List (String × String))
    → (k == j) ≡ false
    → get index_key j (remove index_key k xs) ≡ get index_key j xs
unfolding get remove
get-remove_other k j [] miss = refl
get-remove_other k j (x ∷ xs) miss =
    ground (
      arith,
      get-remove_other k j xs miss,
      eq_iff (index_key x) k,
      eq_iff (index_key x) j,
      eq_refl j,
    )

-- The lease is revoked, its task has no index entry, and the other leases and entries are as before.
pub record IsRevoked (token : ℕ → String) (s s' : ClusterState) (lease : Lease) : Type 0 where
  pub replaced :
      get lease_key lease.id s'.leases ≡ some (record lease { status = LeaseStatus.revoked })
  pub other_leases :
      (id : String)
      → (lease.id == id) ≡ false
      → get lease_key id s'.leases ≡ get lease_key id s.leases
  pub dropped : get index_key lease.task_id s'.task_lease_index ≡ none
  pub other_entries :
      (task_id : String)
      → (lease.task_id == task_id) ≡ false
      → get index_key task_id s'.task_lease_index ≡ get index_key task_id s.task_lease_index
  pub indexed : IsIndexed token s'

-- In a store whose index is well-formed, `revoke_lease` on a stored lease returns true, marks the lease
-- as revoked, drops the index entry of its task, leaves every other lease and entry as it was and
-- keeps the index well-formed; on an unknown id it returns false and changes nothing.
pub revoke_lease-IsRevoked :
    (token : ℕ → String) (s : ClusterState) (lease_id : String)
    → IsIndexed token s
    → ((lease : Lease)
        → get lease_key lease_id s.leases ≡ some lease
        → IsRevoked token s (revoke_lease s lease_id).0 lease
          × ((revoke_lease s lease_id).1 ≡ true))
      × (get lease_key lease_id s.leases ≡ none → revoke_lease s lease_id ≡ (s, false))
unfolding revoke_lease
revoke_lease-IsRevoked token s lease_id v = (
  λ lease e.
      let indexed = revoke_lease-IsIndexed token s lease_id v in
      let new : Lease = record lease { status = LeaseStatus.revoked } in
      rw (e, revoke_lease)
        (
          record {
            replaced = rw (get-put lease_key lease.id new s.leases, eq_refl lease.id) refl;
            other_leases = λ id miss. rw (get-put lease_key id new s.leases, miss) refl;
            dropped =
                get-remove_self index_key lease.task_id s.task_lease_index (v.keyed lease.task_id);
            other_entries =
                λ task_id miss. get-remove_other lease.task_id task_id s.task_lease_index miss;
            indexed = rw (e, revoke_lease) at indexed;
          },
          refl,
        ),
  λ e. rw (e, revoke_lease) refl,
)
