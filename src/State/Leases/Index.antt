-- ===== src/State/Leases/Index.antt =====
-- The task index of the leases: what the lease methods keep of it.
use hermes_agent_cluster.Prelude.{
  ℕ, ◌+◌, ◌≤◌, ◌<◌, ◌≡◌, refl, sym, ◌∙◌, ap, subst, String, false, none, some, List, [], ◌∷◌, map,
  arith, inl, inr, Bool-cases, Option-cases, ◌==◌, eq_iff, All, All-map, concat,
  after_prefix-concat,
}
use mathlib.Core.Option
use hermes_agent_cluster.Table.{get, put, remove}
use hermes_agent_cluster.Table.Laws.{
  get-put, get-remove_self, IsKeyed, put-IsKeyed, remove-IsKeyed, key-get, get-map, get-remove,
  All-get, All-put,
}
use hermes_agent_cluster.Models.{Lease, LeaseStatus, lease_key}
use hermes_agent_cluster.State.{ClusterState, index_key, generate_id}
use hermes_agent_cluster.State.Leases.{
  new_lease, create_lease, revoke_lease, mark_expired, get_active_leases,
}

-- `secrets.token_hex` draws no text twice.
abbrev pub IsFreshSupply : (ℕ → String) → Type 0
IsFreshSupply token = (m n : ℕ) → token m ≡ token n → m ≡ n

module _ (token : ℕ → String) where
  id-mark_expired : (now : ℕ) (l : Lease) → (mark_expired now l).id ≡ l.id
  id-mark_expired now l = ground arith

  task-mark_expired : (now : ℕ) (l : Lease) → (mark_expired now l).task_id ≡ l.task_id
  task-mark_expired now l = ground arith

  -- An id of a lease among the first `n` that were drawn.
  abbrev pub IsOld : ℕ → String → Type 0
  IsOld n id = (k : ℕ) × (k < n) × (id ≡ generate_id token "lease" k)

  -- The ids of the leases and of the index entries are tokens drawn so far, the index has an entry
  -- per task at most, and an entry leads to no lease of another task.
  pub record IsIndexed (s : ClusterState) : Type 0 where
    pub drawn : All (λ lease. IsOld s.generated lease.id) s.leases
    pub keyed : IsKeyed index_key s.task_lease_index
    pub entries :
        (task_id : String) (entry : String × String)
        → get index_key task_id s.task_lease_index ≡ some entry
        → IsOld s.generated entry.1
          × ((lease : Lease)
              → get lease_key entry.1 s.leases ≡ some lease
              → lease.task_id ≡ task_id)

  generate_id_injective :
      IsFreshSupply token
      → (m n : ℕ) → generate_id token "lease" m ≡ generate_id token "lease" n
      → m ≡ n
  unfolding generate_id
  generate_id_injective fresh m n e = fresh m n (
      cc (
        after_prefix-concat "_" (token m),
        after_prefix-concat "_" (token n),
        after_prefix-concat "lease" (concat "_" (token m)),
        after_prefix-concat "lease" (concat "_" (token n)),
      ))

  -- A new id is the key of no lease.
  pub get-new :
      IsFreshSupply token
      → (s : ClusterState) → IsIndexed s
      → get lease_key (generate_id token "lease" s.generated) s.leases ≡ none
  get-new fresh s v =
      elim (Option-cases (get lease_key (generate_id token "lease" s.generated) s.leases)) [
        | inl e ↦ e
        | inr (lease, e) ↦
            let (k, lt, named) =
              All-get lease_key (λ l. IsOld s.generated l.id) _ s.leases lease v.drawn e in
            let same : lease.id ≡ generate_id token "lease" s.generated =
              key-get lease_key _ s.leases lease e in
            absurd (omega (arith, generate_id_injective fresh k s.generated (sym named ∙ same)))
      ]

  IsOld-mono : (m n : ℕ) (id : String) → m ≤ n → IsOld m id → IsOld n id
  IsOld-mono m n id h (k, lt, e) = (k, omega arith, e)

  -- Where the index points after a write of one lease and one entry.
  entry-put :
      IsFreshSupply token
      → (s : ClusterState) (new : Lease) (t : String) (entry : String × String) → IsIndexed s
      → new.id ≡ generate_id token "lease" s.generated
      → get index_key t (put index_key (new.task_id, new.id) s.task_lease_index) ≡ some entry
      → IsOld (s.generated + 1) entry.1
        × ((lease : Lease)
            → get lease_key entry.1 (put lease_key new s.leases) ≡ some lease
            → lease.task_id ≡ t)
  entry-put fresh s new t entry v named e = elim (Bool-cases (new.task_id == t)) [
    | inl hit ↦
        let same : entry.1 ≡ new.id =
          ground (arith, get-put index_key t (new.task_id, new.id) s.task_lease_index) in
        (
          (s.generated, omega arith, same ∙ named),
          λ lease el. ground (
            arith,
            get-put lease_key entry.1 new s.leases,
            eq_iff new.id entry.1,
            eq_iff new.task_id t,
          ),
        )
    | inr miss ↦
        let old : get index_key t s.task_lease_index ≡ some entry =
          ground (arith, get-put index_key t (new.task_id, new.id) s.task_lease_index) in
        let ((k, lt, drawn), leads) = v.entries t entry old in
        let other : (new.id == entry.1) ≡ false = elim (Bool-cases (new.id == entry.1)) [
          | inr no_match ↦ no_match
          | inl same ↦ absurd (
              omega (
                arith,
                generate_id_injective fresh k s.generated
                    (sym drawn ∙ sym ((eq_iff new.id entry.1).0 same) ∙ named),
              ))
        ] in
        (
          (k, omega arith, drawn),
          λ lease el. leads lease (ground (arith, get-put lease_key entry.1 new s.leases)),
        )
  ]

  -- If no token is drawn twice, `create_lease` keeps the invariant of the index: lease ids are tokens
  -- drawn so far, an entry per task, and an entry leads to no lease of another task.
  pub create_lease-IsIndexed :
      IsFreshSupply token
      → (s : ClusterState) (task_id node_id : String) (ttl now : ℕ) → IsIndexed s
      → IsIndexed (create_lease token s task_id node_id ttl now).0
  unfolding create_lease
  create_lease-IsIndexed fresh s task_id node_id ttl now v = record {
    drawn = All-put lease_key _ _ s.leases (unfold new_lease in (s.generated, omega arith, refl)) (
        All-map (λ l. IsOld-mono s.generated (s.generated + 1) l.id (omega arith)) s.leases
          v.drawn);
    keyed = put-IsKeyed index_key _ s.task_lease_index v.keyed;
    entries = λ t entry e.
        entry-put fresh s (new_lease token s task_id node_id ttl now) t entry v
          (unfold new_lease in refl) (unfold new_lease in e);
  }

  -- An entry that is left after a removal was there before.
  kept-entry :
      (s : ClusterState) (k t : String) (entry : String × String)
      → IsKeyed index_key s.task_lease_index
      → get index_key t (remove index_key k s.task_lease_index) ≡ some entry
      → get index_key t s.task_lease_index ≡ some entry
  kept-entry s k t entry keyed r = elim (Bool-cases (k == t)) [
    | inl hit ↦
        let same : k ≡ t = (eq_iff k t).0 hit in
        let gone : get index_key t (remove index_key k s.task_lease_index) ≡ none =
          subst (λ j. get index_key j (remove index_key k s.task_lease_index) ≡ none) same
            (get-remove_self index_key k s.task_lease_index (keyed k)) in
        absurd (ground arith)
    | inr miss ↦
        get-remove index_key k t s.task_lease_index entry r (λ same. ground (arith, eq_iff k t))
  ]

  -- A lease written over one of its own task leads where that one led.
  written-lease :
      (s : ClusterState) (old : Lease) (lease_id : String) (new : Lease) (k t : String)
      → new.id ≡ old.id
      → new.task_id ≡ old.task_id
      → get lease_key lease_id s.leases ≡ some old
      → ((l : Lease) → get lease_key k s.leases ≡ some l → l.task_id ≡ t)
      → (l : Lease) → get lease_key k (put lease_key new s.leases) ≡ some l
      → l.task_id ≡ t
  written-lease s old lease_id new k t same_id same_task e leads l el =
      elim (Bool-cases (new.id == k)) [
        | inl hit ↦
            let named : lease_id ≡ k =
              sym (key-get lease_key lease_id s.leases old e)
              ∙ sym same_id
              ∙ (eq_iff new.id k).0 hit in
            let led : old.task_id ≡ t =
              leads old (subst (λ j. get lease_key j s.leases ≡ some old) named e) in
            ground (arith, get-put lease_key k new s.leases)
        | inr miss ↦ leads l (ground (arith, get-put lease_key k new s.leases))
      ]

  -- `revoke_lease` keeps the invariant of the index, whether the lease is known or not.
  pub revoke_lease-IsIndexed :
      (s : ClusterState) (lease_id : String) → IsIndexed s → IsIndexed (revoke_lease s lease_id).0
  unfolding revoke_lease
  revoke_lease-IsIndexed s lease_id v = elim (Option-cases (get lease_key lease_id s.leases)) [
    | inl e ↦ rw (e, revoke_lease) v
    | inr (lease, e) ↦
        rw (e, revoke_lease)
          (record {
            drawn =
                All-put lease_key _ _ s.leases
                  (All-get lease_key _ lease_id s.leases lease v.drawn e) v.drawn;
            keyed = remove-IsKeyed index_key lease.task_id s.task_lease_index v.keyed;
            entries = λ t entry r.
                let old : get index_key t s.task_lease_index ≡ some entry =
                  kept-entry s lease.task_id t entry v.keyed r in
                let (drawn, leads) = v.entries t entry old in
                (
                  drawn,
                  λ l el.
                      written-lease s lease lease_id (record lease { status = LeaseStatus.revoked })
                        entry.1 t refl refl e leads l el,
                );
          })
  ]

  expired-lease :
      (s : ClusterState) (now : ℕ) (k t : String)
      → ((l : Lease) → get lease_key k s.leases ≡ some l → l.task_id ≡ t)
      → (l : Lease) → get lease_key k (map (mark_expired now) s.leases) ≡ some l
      → l.task_id ≡ t
  expired-lease s now k t leads l el = elim (Option-cases (get lease_key k s.leases)) [
    | inl none_there ↦ absurd (
        ground (
          arith,
          get-map lease_key (mark_expired now) k s.leases (id-mark_expired now),
          none_there,
        ))
    | inr (old, e) ↦
        let moved : get lease_key k (map (mark_expired now) s.leases)
            ≡ some (mark_expired now old) =
          get-map lease_key (mark_expired now) k s.leases (id-mark_expired now)
          ∙ ap (Option.map (mark_expired now)) e in
        let led : old.task_id ≡ t = leads old e in ground (arith, task-mark_expired now old)
  ]

  drawn-expired :
      (n now : ℕ) (leases : List Lease)
      → All (λ l. IsOld n l.id) leases
      → All (λ l. IsOld n l.id) (map (mark_expired now) leases)
  drawn-expired n now [] h = tt
  drawn-expired n now (l ∷ leases) h =
      (subst (IsOld n) (sym (id-mark_expired now l)) h.0, drawn-expired n now leases h.1)

  pub get_active_leases-IsIndexed :
      (s : ClusterState) (now : ℕ) → IsIndexed s → IsIndexed (get_active_leases s now).0
  unfolding get_active_leases
  get_active_leases-IsIndexed s now v = record {
    drawn = drawn-expired s.generated now s.leases v.drawn;
    keyed = v.keyed;
    entries = λ t entry e.
        let (drawn, leads) = v.entries t entry e in
        (drawn, λ l el. expired-lease s now entry.1 t leads l el);
  }
