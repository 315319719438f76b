-- ===== src/Store/Mirror/Leases.antt =====
-- The lease methods of both stores (hermes_cluster/state/cluster_store.py and state/__init__.py) do
-- the same to the leases.
use hermes_agent_cluster.Prelude.{
  ℕ, ◌≡◌, refl, String, Bool, true, some, List, [], ◌∷◌, map, arith, inl, inr, Option-cases,
  if◌then◌else◌, keep, keep-keep, In, head, further, member,
}
use hermes_agent_cluster.Table.{get}
use hermes_agent_cluster.Table.Laws.{IsKeyed, count-get-none}
use hermes_agent_cluster.Table.Ids.{member-keep}
use hermes_agent_cluster.Models.{Lease, lease_key, is_active_lease}
use hermes_agent_cluster.State.{ClusterState}
use hermes_agent_cluster.State.Leases as Memory
use hermes_agent_cluster.State.Leases.Index.{IsIndexed, IsFreshSupply, get-new}
use hermes_agent_cluster.Store.{ClusterStore, update_where}
use hermes_agent_cluster.Store.Leases as Rows
use hermes_agent_cluster.Store.Rows.{
  update_where-absent, update_where-get, update_where-hit, any_row-absent, any_row-get, any_row-hit,
  insert-absent,
}
use hermes_agent_cluster.Store.Mirror.{view}

abbrev pub both {ℓ} : {A : Type ℓ} → ClusterState × A → ClusterStore × A
both (s, a) = (view s, a)

-- A new lease is a row under a new id, if no token is drawn twice.
pub create_lease-view :
    (token : ℕ → String) (s : ClusterState) (task_id node_id : String) (ttl now : ℕ)
    → IsFreshSupply token
    → IsIndexed token s
    → Rows.create_lease token (view s) task_id node_id ttl now
      ≡ some (both (Memory.create_lease token s task_id node_id ttl now))
unfolding Rows.create_lease Memory.create_lease Memory.new_lease
create_lease-view token s task_id node_id ttl now fresh indexed =
    let lease : Lease = Memory.new_lease token s task_id node_id ttl now in
    rw (Rows.create_lease, insert-absent lease_key lease s.leases (get-new token fresh s indexed))
      refl

pub revoke_lease-view :
    (s : ClusterState) (lease_id : String)
    → IsKeyed lease_key s.leases
    → Rows.revoke_lease (view s) lease_id ≡ both (Memory.revoke_lease s lease_id)
unfolding Rows.revoke_lease Memory.revoke_lease
revoke_lease-view s lease_id keyed =
    rw
      (
        update_where-hit lease_key lease_id Rows.revoked s.leases,
        any_row-hit lease_key lease_id s.leases,
      )
      (elim (Option-cases (get lease_key lease_id s.leases)) [
        | inl e ↦
            let gone = count-get-none lease_key lease_id s.leases e in
            rw
              (
                e,
                Memory.revoke_lease,
                update_where-absent lease_key lease_id (λ l. true) Rows.revoked s.leases gone,
                any_row-absent lease_key lease_id (λ l. true) s.leases gone,
              )
              refl
        | inr (l, e) ↦
            rw
              (
                e,
                Memory.revoke_lease,
                update_where-get lease_key lease_id (λ l. true) Rows.revoked s.leases l (λ x. refl)
                    keyed e,
                any_row-get lease_key lease_id (λ l. true) s.leases l keyed e,
              )
              refl
      ])

update_where-map :
    (p : Lease → Bool) (f g : Lease → Lease) (xs : List Lease)
    → ((x : Lease) → In x xs → (if p x then f x else x) ≡ g x)
    → update_where p f xs ≡ map g xs
unfolding update_where
update_where-map p f g [] h = refl
update_where-map p f g (x ∷ xs) h =
    rw (h x head, update_where-map p f g xs (λ y m. h y (further m))) refl

-- The update by the ids of the overdue rows marks those rows.
expired-update :
    (now : ℕ) (leases : List Lease)
    → IsKeyed lease_key leases
    → update_where
        (λ l. member l.id (map lease_key (keep (Memory.is_overdue now) leases)))
        Rows.expired_row
        leases
      ≡ map (Memory.mark_expired now) leases
expired-update now leases keyed =
    update_where-map _ Rows.expired_row (Memory.mark_expired now) leases
      (λ x m. rw (member-keep lease_key (Memory.is_overdue now) x leases keyed m) refl)

pub get_active_leases-view :
    (s : ClusterState) (now : ℕ)
    → IsKeyed lease_key s.leases
    → Rows.get_active_leases (view s) now ≡ both (Memory.get_active_leases s now)
unfolding Rows.get_active_leases Memory.get_active_leases
get_active_leases-view s now keyed =
    rw
      (
        keep-keep (λ l. is_active_lease l.status) (Rows.runs_on now) (Memory.is_live now) s.leases
            (λ x. refl),
        keep-keep (λ l. is_active_lease l.status) (Rows.run_out now) (Memory.is_overdue now)
            s.leases (λ x. ground arith),
        expired-update now s.leases keyed,
      )
      refl

-- The ids of the tasks with a live lease.
pub leased-view :
    (s : ClusterState) (now : ℕ)
    → Rows.leased_task_ids (view s) now ≡ Memory.active_leased_task_ids s now
unfolding Rows.leased_task_ids Memory.active_leased_task_ids
leased-view s now = refl
