-- ===== src/State/Log.antt =====
-- The scheduling decisions and the recovery log of `ClusterState`
-- (hermes_cluster/state/__init__.py).
use hermes_agent_cluster.Prelude.{
  ℕ, ◌+◌, ◌-◌, ◌≤◌, String, List, [], ◌∷◌, ◌++◌, arith, ltb, length, if◌then◌else◌, is_empty, count,
  ◌==◌, drop, length-drop,
}
use hermes_agent_cluster.Models.{RecoveryEvent, SchedulingDecision}
use hermes_agent_cluster.State.{ClusterState, generate_id}

abbrev pub max_decisions : ℕ
max_decisions = 200

-- `xs[-n:]` if the list has more than `n` entries
unfoldable pub last_entries {ℓ} : {A : Type ℓ} → ℕ → List A → List A
last_entries n xs = if ltb n (length xs) then drop (length xs - n) xs else xs

unfoldable pub record_decision : ClusterState → SchedulingDecision → ClusterState
record_decision s decision = record s {
  decisions = last_entries max_decisions (s.decisions ++ decision ∷ []);
}

unfoldable pub append_recovery_event :
    (ℕ → String) → ClusterState → RecoveryEvent → ℕ → ClusterState
append_recovery_event token s event now =
    if is_empty event.id
    then record s {
      recovery_events =
          s.recovery_events
          ++ record event { id = generate_id token "recovery" s.generated; timestamp = now } ∷ [];
      generated = s.generated + 1;
    }
    else record s { recovery_events = s.recovery_events ++ record event { timestamp = now } ∷ [] }

-- `by_action` of `recovery_stats`
unfoldable pub recovery_count : ClusterState → String → ℕ
recovery_count s action = count (λ event. event.action == action) s.recovery_events

pub length-last_entries {ℓ} : {A : Type ℓ} (n : ℕ) (xs : List A) → length (last_entries n xs) ≤ n
unfolding last_entries
length-last_entries n xs = ground (arith, length-drop (length xs - n) xs)
