-- ===== src/State/Leases/Expiry.antt =====
-- The lazy expiry of `get_active_leases`.
use hermes_agent_cluster.Prelude.{ℕ, ◌≡◌, refl, Bool, List, [], ◌∷◌, map, arith, keep}
use hermes_agent_cluster.Models.{Lease, is_active_lease}
use hermes_agent_cluster.State.{ClusterState}
use hermes_agent_cluster.State.Leases.{is_live, is_overdue, mark_expired, get_active_leases}

abbrev has_active_status : Lease → Bool
has_active_status lease = is_active_lease lease.status

live-mark_expired :
    (now : ℕ) (leases : List Lease)
    → keep has_active_status (map (mark_expired now) leases) ≡ keep (is_live now) leases
unfolding keep
live-mark_expired now [] = refl
live-mark_expired now (l ∷ leases) = ground (arith, live-mark_expired now leases)

mark_expired-none_overdue :
    (now : ℕ) (leases : List Lease) → keep (is_overdue now) (map (mark_expired now) leases) ≡ []
unfolding keep
mark_expired-none_overdue now [] = refl
mark_expired-none_overdue now (l ∷ leases) = ground (arith, mark_expired-none_overdue now leases)

-- After `get_active_leases` the leases with an active status are exactly those it returns, in
-- order, and none of them has run out; a second call at the same time runs no expiry callback.
pub get_active_leases-exact :
    (s : ClusterState) (now : ℕ)
    → let (s', (active, calls)) = get_active_leases s now in
      (keep has_active_status s'.leases ≡ active) × ((get_active_leases s' now).1.1 ≡ [])
unfolding get_active_leases
get_active_leases-exact s now =
    (live-mark_expired now s.leases, rw (mark_expired-none_overdue now s.leases) refl)
