-- ===== src/State/Registry.antt =====
-- The federation registry and the hook registry of `ClusterState`
-- (hermes_cluster/state/__init__.py).
use hermes_agent_cluster.Prelude.{
  ℕ, ◌+◌, String, Bool, true, Option, none, some, List, [], ◌∷◌, ◌++◌, map, ◌==◌, is_empty,
  if◌then◌else◌, is_some, keep,
}
use hermes_agent_cluster.Table.{get, put, remove}
use hermes_agent_cluster.Models.{
  RemoteCluster, FederationClusterStatus, Hook, Delivery, EventType, cluster_key, hook_key,
}
use hermes_agent_cluster.State.{ClusterState, generate_id}
use hermes_agent_cluster.State.Log.{last_entries}

unfoldable pub register_federation_cluster :
    ClusterState → String → String → String → ℕ → ClusterState × RemoteCluster
register_federation_cluster s cluster_id name endpoint now =
    let cluster : RemoteCluster = record {
      id = cluster_id;
      name = name;
      endpoint = endpoint;
      status = FederationClusterStatus.available;
      registered_at = now;
      last_ping = now;
      ping_latency = 0;
    } in
    (record s { clusters = put cluster_key cluster s.clusters }, cluster)

unfoldable pub remove_federation_cluster : ClusterState → String → ClusterState × Bool
remove_federation_cluster s cluster_id = (
  record s { clusters = remove cluster_key cluster_id s.clusters },
  is_some (get cluster_key cluster_id s.clusters),
)

-- `secret or None`
abbrev pub given : String → Option String
given secret = if is_empty secret then none else some secret

unfoldable pub register_hook :
    (ℕ → String) → ClusterState → String → List EventType → String → ℕ → ClusterState × Hook
register_hook token s url events secret now =
    let hook : Hook = record {
      id = generate_id token "hook" s.generated;
      url = url;
      events = events;
      secret = given secret;
      active = true;
      created_at = now;
      updated_at = now;
    } in
    (record s { hooks = put hook_key hook s.hooks; generated = s.generated + 1 }, hook)

unfoldable pub deregister_hook : ClusterState → String → ClusterState × Bool
deregister_hook s hook_id =
    (record s { hooks = remove hook_key hook_id s.hooks }, is_some (get hook_key hook_id s.hooks))

abbrev pub without_secret : Hook → Hook
without_secret h = record h { secret = none }

unfoldable pub list_hooks : ClusterState → List Hook
list_hooks s = map without_secret s.hooks

unfoldable pub get_hook_deliveries : ClusterState → String → List Delivery
get_hook_deliveries s hook_id = keep (λ d. d.hook_id == hook_id) s.deliveries

abbrev pub max_deliveries : ℕ
max_deliveries = 1000

unfoldable pub add_delivery : ClusterState → Delivery → ClusterState
add_delivery s delivery = record s {
  deliveries = last_entries max_deliveries (s.deliveries ++ delivery ∷ []);
}
