-- ===== src/TaskManager/Purge.antt =====
-- What `TaskManager.purge_completed` (hermes_cluster/task_manager.py) deletes.
use hermes_agent_cluster.Prelude.{
  ℕ, ◌-◌, ◌≡◌, ◌≢◌, refl, sym, ap, subst, String, Bool, true, not, List, [], ◌∷◌, map, arith,
  length, keep, In, head, further, count, member, In-keep, keep-In,
}
use hermes_agent_cluster.Table.Laws.{IsKeyed}
use hermes_agent_cluster.Table.Ids.{member-key, member-keep}
use hermes_agent_cluster.Models.{Task, Lease, task_key}
use hermes_agent_cluster.Store.{ClusterStore}
use hermes_agent_cluster.TaskManager.{is_purgeable, delete_rows, purge_ids, purge_completed}

-- Two filters that agree on the entries.
keep-agree :
    (p q : Task → Bool) (xs : List Task)
    → ((x : Task) → In x xs → p x ≡ q x)
    → keep p xs ≡ keep q xs
unfolding keep
keep-agree p q [] h = refl
keep-agree p q (x ∷ xs) h = rw (h x head, keep-agree p q xs (λ y m. h y (further m))) refl

length-ids : (p : Task → Bool) (xs : List Task) → length (map task_key (keep p xs)) ≡ count p xs
unfolding keep count
length-ids p [] = refl
length-ids p (x ∷ xs) = ground (arith, length-ids p xs)

keep-all {ℓ} : {A : Type ℓ} (xs : List A) → keep (λ x. true) xs ≡ xs
unfolding keep
keep-all [] = refl
keep-all (x ∷ xs) = rw (keep-all xs) refl

-- The early return for no rows leaves what the deletes would leave.
purge_ids-rows :
    (d : ClusterStore) (ids : List String) → purge_ids d ids ≡ (delete_rows d ids, length ids)
unfolding purge_ids delete_rows member
purge_ids-rows d [] = rw (keep-all d.leases, keep-all d.decisions, keep-all d.tasks) refl
purge_ids-rows d (id ∷ ids) = refl

-- No lease that is left belongs to a deleted task.
leases-purged :
    (d : ClusterStore) (p : Task → Bool) (l : Lease) (t : Task)
    → In l (delete_rows d (map task_key (keep p d.tasks))).leases
    → In t d.tasks
    → p t ≡ true
    → l.task_id ≢ t.id
unfolding delete_rows
leases-purged d p l t left stored old same =
    let ids = map task_key (keep p d.tasks) in
    let (kept, free) = In-keep (λ k. not (member k.task_id ids)) l d.leases left in
    let named : member t.id ids ≡ true =
      member-key task_key t (keep p d.tasks) (keep-In p t d.tasks stored old) in
    let taken : member l.task_id ids ≡ true = subst (λ k. member k ids ≡ true) (sym same) named in
    absurd (ground arith)

-- `purge_completed`, in a task table with one entry per id, deletes exactly the completed and failed
-- tasks that were last changed before the cutoff and returns their number; the other tasks stay as
-- they are, and no lease of a deleted task is left.
pub purge_completed-exact :
    (d : ClusterStore) (older_than now : ℕ)
    → IsKeyed task_key d.tasks
    → let (d', n) = purge_completed d older_than now in
      let old = is_purgeable (now - older_than) in
      (d'.tasks ≡ keep (λ t. not (old t)) d.tasks)
      × (n ≡ count old d.tasks)
      × ((l : Lease) (t : Task) → In l d'.leases → In t d.tasks → old t ≡ true → l.task_id ≢ t.id)
unfolding purge_completed
purge_completed-exact d older_than now keyed =
    let old = is_purgeable (now - older_than) in
    rw (purge_ids-rows d (map task_key (keep old d.tasks))) (
      unfold delete_rows in
          keep-agree (λ t. not (member t.id (map task_key (keep old d.tasks)))) (λ t. not (old t))
            d.tasks (λ t m. ap not (member-keep task_key old t d.tasks keyed m)),
      length-ids old d.tasks,
      λ l t left stored gone. leases-purged d old l t left stored gone,
    )
