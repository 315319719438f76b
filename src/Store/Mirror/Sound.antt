-- ===== src/Store/Mirror/Sound.antt =====
-- The calls of the in-memory store (hermes_cluster/state/__init__.py) keep one entry per id, and the
-- lease index.
use hermes_agent_cluster.Prelude.{
  ℕ, ◌≡◌, refl, String, Option, List, [], ◌∷◌, map, ◌==◌, Option-cases, inl, inr, count, arith,
}
use hermes_agent_cluster.Table.{get}
use hermes_agent_cluster.Table.Laws.{IsKeyed, put-IsKeyed}
use hermes_agent_cluster.Models.{Node, Task, Lease, node_key, task_key, lease_key}
use hermes_agent_cluster.State.{ClusterState}
use hermes_agent_cluster.State.Nodes.{edit_node}
use hermes_agent_cluster.State.Tasks.{edit_task}
use hermes_agent_cluster.State.Leases as Memory
use hermes_agent_cluster.State.Leases.Index.{
  IsFreshSupply, create_lease-IsIndexed, revoke_lease-IsIndexed, get_active_leases-IsIndexed,
}
use hermes_agent_cluster.Store.Mirror.{IsSound}

count-map :
    (f : Lease → Lease) (k : String) (xs : List Lease)
    → ((x : Lease) → (f x).id ≡ x.id)
    → count (λ x. lease_key x == k) (map f xs) ≡ count (λ x. lease_key x == k) xs
unfolding count
count-map f k [] h = refl
count-map f k (x ∷ xs) h = ground (arith, h x, count-map f k xs h)

module _ (token : ℕ → String) where
  -- A write to the nodes, and one to the tasks.
  pub nodes-IsSound :
      (s : ClusterState) (nodes : List Node)
      → IsSound token s
      → IsKeyed node_key nodes
      → IsSound token (record s { nodes = nodes })
  nodes-IsSound s nodes v keyed = record {
    keyed_nodes = keyed;
    keyed_tasks = v.keyed_tasks;
    keyed_leases = v.keyed_leases;
    indexed = record {
      drawn = v.indexed.drawn;
      keyed = v.indexed.keyed;
      entries = v.indexed.entries;
    };
  }

  pub tasks-IsSound :
      (s : ClusterState) (tasks : List Task)
      → IsSound token s
      → IsKeyed task_key tasks
      → IsSound token (record s { tasks = tasks })
  tasks-IsSound s tasks v keyed = record {
    keyed_nodes = v.keyed_nodes;
    keyed_tasks = keyed;
    keyed_leases = v.keyed_leases;
    indexed = record {
      drawn = v.indexed.drawn;
      keyed = v.indexed.keyed;
      entries = v.indexed.entries;
    };
  }

  pub edit_node-IsSound :
      (s : ClusterState) (node_id : String) (f : Node → Node)
      → IsSound token s
      → IsSound token (edit_node s node_id f)
  unfolding edit_node
  edit_node-IsSound s node_id f v = elim (Option-cases (get node_key node_id s.nodes)) [
    | inl e ↦ rw (e, edit_node) v
    | inr (node, e) ↦
        rw (e, edit_node)
          (nodes-IsSound s _ v (put-IsKeyed node_key (f node) s.nodes v.keyed_nodes))
  ]

  pub edit_task-IsSound :
      (s : ClusterState) (task_id : String) (f : Task → Option Task)
      → IsSound token s
      → IsSound token (edit_task s task_id f).0
  unfolding edit_task
  edit_task-IsSound s task_id f v = elim (Option-cases (get task_key task_id s.tasks)) [
    | inl e ↦ rw (e, edit_task) v
    | inr (t, e) ↦ elim (Option-cases (f t)) [
      | inl refused ↦ rw (e, refused, edit_task) v
      | inr (t', written) ↦
          rw (e, written, edit_task)
            (tasks-IsSound s _ v (put-IsKeyed task_key t' s.tasks v.keyed_tasks))
    ]
  ]

  pub create_lease-IsSound :
      IsFreshSupply token
      → (s : ClusterState) (task_id node_id : String) (ttl now : ℕ) → IsSound token s
      → IsSound token (Memory.create_lease token s task_id node_id ttl now).0
  unfolding Memory.create_lease
  create_lease-IsSound fresh s task_id node_id ttl now v = record {
    keyed_nodes = v.keyed_nodes;
    keyed_tasks = v.keyed_tasks;
    keyed_leases = put-IsKeyed lease_key _ s.leases v.keyed_leases;
    indexed =
        unfold Memory.create_lease in
        create_lease-IsIndexed token fresh s task_id node_id ttl now v.indexed;
  }

  pub revoke_lease-IsSound :
      (s : ClusterState) (lease_id : String)
      → IsSound token s
      → IsSound token (Memory.revoke_lease s lease_id).0
  unfolding Memory.revoke_lease
  revoke_lease-IsSound s lease_id v =
      let indexed = revoke_lease-IsIndexed token s lease_id v.indexed in
      elim (Option-cases (get lease_key lease_id s.leases)) [
        | inl e ↦ rw (e, Memory.revoke_lease) v
        | inr (l, e) ↦
            rw (e, Memory.revoke_lease)
              (record {
                keyed_nodes = v.keyed_nodes;
                keyed_tasks = v.keyed_tasks;
                keyed_leases = put-IsKeyed lease_key _ s.leases v.keyed_leases;
                indexed = rw (e, Memory.revoke_lease) at indexed;
              })
      ]

  pub get_active_leases-IsSound :
      (s : ClusterState) (now : ℕ)
      → IsSound token s
      → IsSound token (Memory.get_active_leases s now).0
  unfolding Memory.get_active_leases
  get_active_leases-IsSound s now v = record {
    keyed_nodes = v.keyed_nodes;
    keyed_tasks = v.keyed_tasks;
    keyed_leases = λ k. omega (
      arith,
      count-map (Memory.mark_expired now) k s.leases (λ l. ground arith),
      v.keyed_leases k,
    );
    indexed = unfold Memory.get_active_leases in get_active_leases-IsIndexed token s now v.indexed;
  }
