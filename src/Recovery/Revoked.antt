-- ===== src/Recovery/Revoked.antt =====
-- `revoke_all_for_node` (hermes_cluster/recovery/revoker.py) against the stored leases.
use hermes_agent_cluster.Prelude.{
  ℕ, ◌≡◌, refl, sym, ◌∙◌, subst, String, true, false, some, List, [], ◌∷◌, map, arith, inl, inr,
  ◌==◌, eq_iff, Bool-cases, Option-cases, keep, keep-In, ◌++◌, In, head, further, member,
}
use hermes_agent_cluster.Table.{get}
use hermes_agent_cluster.Table.Laws.{get-put, key-get}
use hermes_agent_cluster.Table.Ids.{member-key}
use hermes_agent_cluster.Models.{Lease, LeaseStatus, lease_key, is_active_lease}
use hermes_agent_cluster.State.{ClusterState}
use hermes_agent_cluster.State.Leases.{get_active_leases, get_expired_leases, revoke_lease}
use hermes_agent_cluster.State.Leases.Expiry.{get_active_leases-exact}
use hermes_agent_cluster.State.Log.{append_recovery_event}
use hermes_agent_cluster.Recovery.{log_event, revoke_loop, revoke_all_for_node, revoked_message}

get-stored : (k : String) (xs : List Lease) (l : Lease) → get lease_key k xs ≡ some l → In l xs
unfolding get
get-stored k [] l e = absurd (ground arith)
get-stored k (x ∷ xs) l e = elim (Bool-cases (x.id == k)) [
  | inl hit ↦ let same : x ≡ l = ground arith in subst (λ y. In y (x ∷ xs)) same head
  | inr miss ↦ further (get-stored k xs l (ground arith))
]

In-join : (l : Lease) (xs ys : List Lease) → In l xs → In l (xs ++ ys)
In-join l [] ys m = elim m [ ]
In-join l (x ∷ xs) ys head = head
In-join l (x ∷ xs) ys (further m) = further (In-join l xs ys m)

-- The ids of the listed leases of the node.
abbrev ids_of : String → List Lease → List String
ids_of node_id leases = map lease_key (keep (λ l. l.node_id == node_id) leases)

-- The loop still has the active leases of the node before it, and those behind it are not active.
record Pending (node_id : String) (leases : List Lease) (seen : List String) (stored : List Lease)
    : Type 0 where
  listed :
      (k : String) (l : Lease)
      → get lease_key k stored ≡ some l
      → (l.node_id == node_id) ≡ true
      → is_active_lease l.status ≡ true
      → member k (ids_of node_id leases) ≡ true
  settled :
      (k : String) (l : Lease)
      → get lease_key k stored ≡ some l
      → member k seen ≡ true
      → is_active_lease l.status ≡ false

revoked_lease-inactive :
    (s : ClusterState) (k : String) (l : Lease)
    → get lease_key k (revoke_lease s k).0.leases ≡ some l
    → is_active_lease l.status ≡ false
unfolding revoke_lease
revoked_lease-inactive s k l e = elim (Option-cases (get lease_key k s.leases)) [
  | inl absent ↦ absurd (ground (arith, rw (absent, revoke_lease) at e))
  | inr (old, found) ↦
      let new : Lease = record old { status = LeaseStatus.revoked } in
      let named : old.id ≡ k = key-get lease_key k s.leases old found in
      let hit : (old.id == k) ≡ true = (eq_iff old.id k).1 named in
      let now_stored : some new ≡ some l =
        rw (found, revoke_lease, get-put lease_key k new s.leases, hit) at e in
      let same : new ≡ l = ground arith in subst (λ x. is_active_lease x.status ≡ false) same refl
]

revoked_here :
    (s : ClusterState) (id k : String) (l : Lease)
    → (id == k) ≡ true
    → get lease_key k (revoke_lease s id).0.leases ≡ some l
    → is_active_lease l.status ≡ false
revoked_here s id k l hit e = revoked_lease-inactive s id l (
    subst (λ x. get lease_key x (revoke_lease s id).0.leases ≡ some l) (sym ((eq_iff id k).0 hit))
      e)

revoked_lease-other :
    (s : ClusterState) (id k : String)
    → (id == k) ≡ false
    → get lease_key k (revoke_lease s id).0.leases ≡ get lease_key k s.leases
unfolding revoke_lease
revoked_lease-other s id k other = elim (Option-cases (get lease_key id s.leases)) [
  | inl absent ↦ rw (absent, revoke_lease) refl
  | inr (old, found) ↦
      let new : Lease = record old { status = LeaseStatus.revoked } in
      let named : old.id ≡ id = key-get lease_key id s.leases old found in
      rw (found, revoke_lease, get-put lease_key k new s.leases, named, other) refl
]

ids_of-tail :
    (node_id k : String) (lease : Lease) (leases : List Lease)
    → (lease.id == k) ≡ false
    → member k (ids_of node_id (lease ∷ leases)) ≡ true
    → member k (ids_of node_id leases) ≡ true
unfolding keep member
ids_of-tail node_id k lease leases miss h = elim (Bool-cases (lease.node_id == node_id)) [
  | inl here ↦ rw (here, miss) at h
  | inr other ↦ rw other at h
]

Pending-skip :
    (node_id : String) (lease : Lease) (leases : List Lease) (seen : List String)
    (stored : List Lease)
    → Pending node_id (lease ∷ leases) seen stored
    → (lease.node_id == node_id) ≡ false
    → Pending node_id leases seen stored
unfolding keep
Pending-skip node_id lease leases seen stored p other = record {
  listed = λ k l e m a. rw other at p.listed k l e m a;
  settled = p.settled;
}

Pending-seen :
    (node_id : String) (lease : Lease) (leases : List Lease) (seen : List String)
    (stored : List Lease)
    → Pending node_id (lease ∷ leases) seen stored
    → member lease.id seen ≡ true
    → Pending node_id leases seen stored
unfolding keep member
Pending-seen node_id lease leases seen stored p there = record {
  listed = λ k l e m a. elim (Bool-cases (lease.id == k)) [
    | inl hit ↦
        let again : member k seen ≡ true =
          subst (λ x. member x seen ≡ true) ((eq_iff lease.id k).0 hit) there in
        absurd (ground (arith, p.settled k l e again))
    | inr miss ↦ ids_of-tail node_id k lease leases miss (p.listed k l e m a)
  ];
  settled = p.settled;
}

Pending-revoked :
    (node_id : String) (lease : Lease) (leases : List Lease) (seen : List String) (s : ClusterState)
    → Pending node_id (lease ∷ leases) seen s.leases
    → Pending node_id leases (lease.id ∷ seen) (revoke_lease s lease.id).0.leases
unfolding keep member
Pending-revoked node_id lease leases seen s p = record {
  listed = λ k l e m a. elim (Bool-cases (lease.id == k)) [
    | inl hit ↦ absurd (ground (arith, revoked_here s lease.id k l hit e))
    | inr miss ↦
        ids_of-tail node_id k lease leases miss
          (p.listed k l (sym (revoked_lease-other s lease.id k miss) ∙ e) m a)
  ];
  settled = λ k l e b. elim (Bool-cases (lease.id == k)) [
    | inl hit ↦ revoked_here s lease.id k l hit e
    | inr miss ↦ p.settled k l (sym (revoked_lease-other s lease.id k miss) ∙ e) (rw miss at b)
  ];
}

module _ (token decimal : ℕ → String) (now : ℕ) where
  leases-log_event :
      (s : ClusterState) (task_id node_id action status message : String)
      → (log_event token decimal now s task_id node_id action status message).leases ≡ s.leases
  unfolding log_event append_recovery_event
  leases-log_event s task_id node_id action status message = ground arith

  revoke_loop-inactive :
      (node_id : String) (leases : List Lease) (seen : List String) (s : ClusterState)
      → Pending node_id leases seen s.leases
      → (k : String) (l : Lease)
      → get lease_key k (revoke_loop token decimal now node_id leases seen s).0.leases ≡ some l
      → (l.node_id == node_id) ≡ true
      → is_active_lease l.status ≡ false
  unfolding revoke_loop member keep
  revoke_loop-inactive node_id [] seen s p k l e m = elim (Bool-cases (is_active_lease l.status)) [
    | inl active ↦ absurd (ground (arith, p.listed k l e m active))
    | inr ended ↦ ended
  ]
  revoke_loop-inactive node_id (lease ∷ leases) seen s p k l e m =
      let s' = (revoke_lease s lease.id).0 in
      let p' : Pending node_id leases (lease.id ∷ seen) s'.leases =
        Pending-revoked node_id lease leases seen s p in
      let logged =
        log_event token decimal now s' lease.task_id node_id "revoke_lease" "completed"
          (revoked_message token decimal now lease) in
      elim (Bool-cases (lease.node_id == node_id)) [
        | inr other ↦
            revoke_loop-inactive node_id leases seen s
              (Pending-skip node_id lease leases seen s.leases p other) k l
              (rw (other, revoke_loop) at e) m
        | inl here ↦ elim (Bool-cases (member lease.id seen)) [
          | inl there ↦
              revoke_loop-inactive node_id leases seen s
                (Pending-seen node_id lease leases seen s.leases p there) k l
                (rw (here, there, revoke_loop) at e) m
          | inr new ↦ elim (Bool-cases (revoke_lease s lease.id).1) [
            | inl success ↦
                revoke_loop-inactive node_id leases (lease.id ∷ seen) logged
                  (rw
                    (leases-log_event s' lease.task_id node_id "revoke_lease" "completed"
                      (revoked_message token decimal now lease))
                    p')
                  k l (rw (here, new, success, revoke_loop) at e) m
            | inr refused ↦
                revoke_loop-inactive node_id leases (lease.id ∷ seen) s' p' k l
                  (rw (here, new, refused, revoke_loop) at e) m
          ]
        ]
      ]

  -- After `revoke_all_for_node`, whatever the leases were, no lease of the node that an id leads to
  -- is active.
  pub revoke_all_for_node-inactive :
      (s : ClusterState) (node_id k : String) (l : Lease)
      → get lease_key k (revoke_all_for_node token decimal now s node_id).0.leases ≡ some l
      → (l.node_id == node_id) ≡ true
      → is_active_lease l.status ≡ false
  unfolding revoke_all_for_node member
  revoke_all_for_node-inactive s node_id k l e m =
      let s' = (get_active_leases s now).0 in
      let active = (get_active_leases s now).1.0 in
      revoke_loop-inactive node_id (active ++ get_expired_leases s') [] s'
        (record {
          listed = λ k l e m a.
              let live : In l active =
                subst (λ xs. In l xs) (get_active_leases-exact s now).0
                  (keep-In (λ x. is_active_lease x.status) l s'.leases (get-stored k s'.leases l e)
                    a) in
              let named : l.id ≡ k = key-get lease_key k s'.leases l e in
              let all = active ++ get_expired_leases s' in
              subst (λ x. member x (ids_of node_id all) ≡ true) named
                (member-key lease_key l (keep (λ x. x.node_id == node_id) all)
                  (keep-In (λ x. x.node_id == node_id) l all (In-join l active _ live) m));
          settled = λ k l e b. absurd (ground arith);
        })
        k l e m
