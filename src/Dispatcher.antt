-- ===== src/Dispatcher.antt =====
-- hermes_cluster/hooks/dispatcher.py: `Dispatcher.deliver`, the attempts to deliver a payload to a
-- webhook. The HTTP request of the n-th attempt, and the flag `_running` as it is read there, are
-- parameters, and so is the printing of a status code. Delays are numbers of milliseconds.
pub mod Attempts
use hermes_agent_cluster.Prelude.{
  ℕ, zero, suc, ◌+◌, ◌-◌, ◌*◌, String, Bool, true, false, not, ◌&&◌, Option, none, some, List, [],
  ◌∷◌, leb, ltb, min, if◌then◌else◌, concat,
}

pub data DeliveryStatus : Type 0 where
  pending success failed retry : DeliveryStatus

pub record DeliveryRecord : Type 0 where
  pub id : String
  pub hook_id : String
  pub event_type : String
  pub url : String
  pub status : DeliveryStatus
  pub status_code : ℕ
  pub error : String
  pub attempts : ℕ
  pub max_attempts : ℕ

pub record Dispatcher : Type 0 where
  pub max_retries : ℕ
  pub base_delay : ℕ
  pub max_delay : ℕ

-- `math.pow(2, n)`
unfoldable pub power : ℕ → ℕ
power zero = 1
power (suc n) = 2 * power n

unfoldable pub compute_backoff : Dispatcher → ℕ → ℕ
compute_backoff d attempt = min (d.base_delay * power (attempt - 1)) d.max_delay

-- The arguments of `deliver` that every record repeats.
pub record Target : Type 0 where
  pub delivery_id : String
  pub hook_id : String
  pub event_type : String
  pub url : String

-- A delivery: the records that the callback gets, the delays between the attempts, and the record
-- that is returned.
pub record Delivered : Type 0 where
  pub reported : List DeliveryRecord
  pub delays : List ℕ
  pub final : DeliveryRecord

abbrev pub max_attempts : Dispatcher → ℕ
max_attempts d = d.max_retries + 1

-- `200 <= status_code < 300` without an error
abbrev pub is_success : ℕ × Option String → Bool
is_success (code, none) = leb 200 code && ltb code 300
is_success (code, some error) = false

module _ (d : Dispatcher) (target : Target) (decimal : ℕ → String) where
  abbrev pub error_text : ℕ × Option String → String
  error_text (code, none) = concat "status " (decimal code)
  error_text (code, some error) = error

  abbrev pub attempt_record : DeliveryStatus → ℕ → String → ℕ → DeliveryRecord
  attempt_record status code error attempt = record {
    id = target.delivery_id;
    hook_id = target.hook_id;
    event_type = target.event_type;
    url = target.url;
    status = status;
    status_code = code;
    error = error;
    attempts = attempt;
    max_attempts = max_attempts d;
  }

  -- A record that ends the delivery.
  abbrev pub ends : DeliveryRecord → Delivered
  ends r = record { reported = r ∷ []; delays = []; final = r }

  abbrev pub retries : DeliveryRecord → ℕ → Delivered → Delivered
  retries r delay rest = record {
    reported = r ∷ rest.reported;
    delays = delay ∷ rest.delays;
    final = rest.final;
  }

  module _ (send : ℕ → ℕ × Option String) (running : ℕ → Bool) where
    -- The attempts from `attempt` on, `left` of them.
    unfoldable pub deliver_loop : ℕ → ℕ → Delivered
    deliver_loop zero attempt =
        ends (attempt_record DeliveryStatus.failed 0 "exhausted retries" (max_attempts d))
    deliver_loop (suc left) attempt =
        let answer = send attempt in
        let later = deliver_loop left (attempt + 1) in
        if not (running attempt)
        then ends (attempt_record DeliveryStatus.pending 0 "dispatcher stopped" attempt)
        else if is_success answer
        then ends (attempt_record DeliveryStatus.success answer.0 "" attempt)
        else if leb (max_attempts d) attempt
        then ends (attempt_record DeliveryStatus.failed answer.0 (error_text answer) attempt)
        else retries (attempt_record DeliveryStatus.retry answer.0 (error_text answer) attempt)
            (compute_backoff d attempt) later

    unfoldable pub deliver : Delivered
    deliver = deliver_loop (max_attempts d) 1
