-- ===== src/Dispatcher/Attempts.antt =====
-- How a delivery of hermes_cluster/hooks/dispatcher.py ends.
use hermes_agent_cluster.Prelude.{ℕ, suc, ◌+◌, ◌≤◌, ◌≡◌, String, Bool, Option, length, All}
use hermes_agent_cluster.Dispatcher.{Dispatcher, Target, Delivered, max_attempts}

module _ (d : Dispatcher) (target : Target) (decimal : ℕ → String) (send : ℕ → ℕ × Option String)
    (running : ℕ → Bool) where
  -- What holds of a delivery that begins with `attempt`.
  record IsBounded (attempt : ℕ) (r : Delivered) : Type 0 where
    counted : attempt + length r.delays ≡ r.final.attempts
    reports : length r.reported ≡ suc (length r.delays)
    limited : r.final.attempts ≤ max_attempts d
    waits : All (λ delay. delay ≤ d.max_delay) r.delays
