-- ===== src/Examples.antt =====
-- Sample clusters for the tests and the witnesses.
mod Scheduling
mod Store
mod Exchange
mod Landings
mod Stores
mod Managers
mod Guards
use hermes_agent_cluster.Prelude.{
  ℕ, zero, suc, ◌+◌, ◌≡◌, refl, ap, String, Bool, true, false, Option, none, some, List, [], ◌∷◌,
  arith, ◌&&◌, not, ◌==◌, count, subst, inl, inr, Bool-cases, eq_iff,
}
use hermes_agent_cluster.Table.{has}
use hermes_agent_cluster.Table.Laws.{IsKeyed}
use hermes_agent_cluster.Models.{
  Node, NodeStatus, Task, TaskStatus, Lease, LeaseStatus, SyncMessage, TaskSync, SyncEventType,
}
use hermes_agent_cluster.State.{ClusterState, Lane, new_state}

-- Tokens: the n-th is a text of n letters.
abbrev pub unary : ℕ → String
unary zero = ""
unary (suc n) = String.◌∷◌ "a" (unary n)

text_length : String → ℕ
text_length String.[] = 0
text_length (String.◌∷◌ c s) = suc (text_length s)

text_length-unary : (n : ℕ) → text_length (unary n) ≡ n
unfolding text_length
text_length-unary zero = refl
text_length-unary (suc n) = ap suc (text_length-unary n)

pub unary_injective : (m n : ℕ) → unary m ≡ unary n → m ≡ n
unary_injective m n e = omega (arith, text_length-unary m, text_length-unary n, ap text_length e)

unfoldable pub distinct {ℓ} : {A : Type ℓ} → (A → String) → List A → Bool
distinct key [] = true
distinct key (x ∷ xs) = not (has key (key x) xs) && distinct key xs

count-has {ℓ} :
    {A : Type ℓ} (key : A → String) (k : String) (xs : List A)
    → has key k xs ≡ false
    → count (λ x. key x == k) xs ≡ 0
unfolding has count
count-has key k [] h = refl
count-has key k (x ∷ xs) h = ground (arith, count-has key k xs)

pub distinct-IsKeyed {ℓ} :
    {A : Type ℓ} (key : A → String) (xs : List A) → distinct key xs ≡ true → IsKeyed key xs
unfolding distinct count
distinct-IsKeyed key [] h k = omega arith
distinct-IsKeyed key (x ∷ xs) h k = elim (Bool-cases (key x == k)) [
  | inl hit ↦
      let same : key x ≡ k = (eq_iff (key x) k).0 hit in
      let none_else : count (λ y. key y == k) xs ≡ 0 =
        count-has key k xs (subst (λ j. has key j xs ≡ false) same (ground arith)) in
      ground arith
  | inr miss ↦ ground (arith, distinct-IsKeyed key xs (ground arith) k)
]

abbrev pub sample_node : String → ℕ → Bool → Node
sample_node id max_concurrent drained = record {
  id = id;
  name = id;
  capabilities = "code" ∷ [];
  status = NodeStatus.online;
  last_heartbeat = 0;
  load = 0;
  max_concurrent = max_concurrent;
  drained = drained;
  disk_free_gb = none;
  status_reason = "";
  instance_token = "";
  cpu_load_pct = none;
  lane_count = none;
  duplicate_executor = none;
}

abbrev pub node_a : Node
node_a = sample_node "node_a" 1 false

abbrev pub node_b : Node
node_b = sample_node "node_b" 2 true

abbrev pub sample_task : String → TaskStatus → String → List String → Task
sample_task id status lane_key depends_on = record {
  id = id;
  title = id;
  requires = "code" ∷ [];
  depends_on = depends_on;
  priority = 3;
  status = status;
  assigned_to = none;
  created_at = 5;
  updated_at = 5;
  version = 1;
  fail_reason = none;
  description = "";
  attempts = 0;
  lane_key = lane_key;
  role = "author";
  result = none;
  issues = [];
  ballot = none;
  cancel_requeue = none;
}

abbrev pub task_1 : Task
task_1 = sample_task "task_1" TaskStatus.ready "lane" []

abbrev pub task_2 : Task
task_2 = sample_task "task_2" TaskStatus.ready "lane" []

abbrev pub task_done : Task
task_done = sample_task "task_done" TaskStatus.completed "" []

abbrev pub task_next : Task
task_next = sample_task "task_next" TaskStatus.pending "" ("task_done" ∷ [])

abbrev pub sample_lane : Lane
sample_lane = record {
  lane_key = "lane";
  session_id = "s1";
  profile = "";
  role = "author";
  node = "node_a";
  created_at = 5;
  last_active_at = 5;
  last_task_id = "";
}

abbrev pub sample_lease : Lease
sample_lease = record {
  id = "lease_";
  task_id = "task_1";
  node_id = "node_a";
  created_at = 0;
  expires_at = 50;
  status = LeaseStatus.active;
}

abbrev pub sample_state : ClusterState
sample_state = record new_state {
  nodes = node_a ∷ node_b ∷ [];
  tasks = task_1 ∷ task_2 ∷ task_done ∷ task_next ∷ [];
  lanes = sample_lane ∷ [];
}

abbrev pub sample_message : ℕ → String → SyncMessage
sample_message version status = record {
  version = version;
  sender_node = "node_b";
  task_state = some (record {
    task_id = "task_1";
    title = "task_1";
    status = status;
    assigned_to = some "node_b";
    version = 7;
  });
  event_type = SyncEventType.task_completed;
  timestamp = 9;
}
