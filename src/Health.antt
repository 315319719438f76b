-- ===== src/Health.antt =====
-- The rules that judge a node by what it reports: hermes_cluster/core/disk_preflight.py and
-- hermes_cluster/core/health_selfreport.py, and the check of hermes_cluster/core/watchdog.py, which
-- applies them. Measured numbers are in thousandths; Python's formatting of one with `n` decimals is
-- the parameter `fixed`, and of an integer `decimal`; `seconds` formats a duration in whole seconds.
pub mod Verdict
use hermes_agent_cluster.Prelude.{
  ℕ, ◌+◌, ◌-◌, String, Bool, true, false, Option, none, some, List, [], ◌∷◌, ltb, leb, concat,
  is_empty, if◌then◌else◌, ◌++◌, not, ◌==◌, or_else,
}

-- `DEFAULT_MIN_FREE_DISK_GB`
abbrev pub default_min_free_disk_gb : ℕ
default_min_free_disk_gb = 5000

unfoldable pub is_below_floor : Option ℕ → ℕ → Bool
is_below_floor none min_free_gb = false
is_below_floor (some free_gb) min_free_gb =
    if leb min_free_gb 0 then false else ltb free_gb min_free_gb

unfoldable pub effective_min_free_gb : Option ℕ → ℕ
effective_min_free_gb config_value = or_else config_value default_min_free_disk_gb

unfoldable pub is_cpu_saturated : Option ℕ → ℕ → Bool
is_cpu_saturated none max_cpu_load = false
is_cpu_saturated (some cpu) max_cpu_load =
    if leb max_cpu_load 0 then false else leb max_cpu_load cpu

unfoldable pub is_lane_backlog : Option ℕ → ℕ → Bool
is_lane_backlog none max_concurrent = false
is_lane_backlog (some lane_count) max_concurrent =
    if leb max_concurrent 0 then false else ltb max_concurrent lane_count

-- `"; ".join(parts)`
unfoldable pub join_parts : List String → String
join_parts [] = ""
join_parts (part ∷ []) = part
join_parts (part ∷ next ∷ parts) = concat part (concat "; " (join_parts (next ∷ parts)))

-- `HeartbeatNode` of the watchdog.
pub record HeartbeatNode : Type 0 where
  pub id : String
  pub last_heartbeat : ℕ
  pub status : String
  pub disk_free_gb : Option ℕ
  pub cpu_load_pct : Option ℕ
  pub lane_count : Option ℕ
  pub max_concurrent : ℕ
  pub duplicate_executor : Option Bool

-- The thresholds of a `Watchdog`; the delays are in microseconds, as the times are.
pub record Watchdog : Type 0 where
  pub degraded_after : ℕ
  pub offline_after : ℕ
  pub min_free_disk_gb : ℕ
  pub max_cpu_load : ℕ

-- A call `update_node_status(id, status, reason)` of the registry, and the event beside it.
pub record StatusChange : Type 0 where
  pub node_id : String
  pub status : String
  pub reason : String

-- `if part: parts.append(text)`
abbrev pub part_if : Bool → String → List String
part_if holds text = if holds then text ∷ [] else []

module _ (fixed : ℕ → ℕ → String) (decimal seconds : ℕ → String) where
  unfoldable pub disk_text : Option ℕ → ℕ → String
  disk_text free_gb min_free_gb = concat "disk below floor: " (
      concat (fixed 2 (or_else free_gb 0)) (
        concat " GB free < "
          (concat (fixed 1 min_free_gb) " GB (node.min_free_disk_gb, shared/claude-plugins#892)")))

  unfoldable pub disk_reason : Option ℕ → ℕ → String
  disk_reason free_gb min_free_gb =
      if not (is_below_floor free_gb min_free_gb) then "" else disk_text free_gb min_free_gb

  abbrev pub duplicate_text : String
  duplicate_text =
      "duplicate executor: another live executor shares this node id (#899) — lanes are being spawned twice"

  unfoldable pub backlog_text : Option ℕ → ℕ → String
  backlog_text lane_count max_concurrent = concat "lane backlog: " (
      concat (decimal (or_else lane_count 0)) (
        concat " live lanes > declared max_concurrent "
          (concat (decimal max_concurrent) " (#879 duplicate-executor fingerprint)")))

  unfoldable pub saturated_text : Option ℕ → ℕ → String
  saturated_text cpu max_cpu_load = concat "cpu saturated: " (
      concat (fixed 2 (or_else cpu 0))
        (concat " >= node.max_cpu_load " (concat (fixed 2 max_cpu_load) " (#879)")))

  unfoldable pub health_reason : Option ℕ → ℕ → Option ℕ → ℕ → Option Bool → String
  health_reason cpu max_cpu_load lane_count max_concurrent duplicate_executor = join_parts (
      part_if (or_else duplicate_executor false) duplicate_text
      ++ part_if (is_lane_backlog lane_count max_concurrent)
          (backlog_text lane_count max_concurrent)
      ++ part_if (is_cpu_saturated cpu max_cpu_load) (saturated_text cpu max_cpu_load))

  -- The branches of `_check` on one node: its new status, and why.
  unfoldable pub verdict : Watchdog → ℕ → HeartbeatNode → String × String
  verdict w now node =
      let reason =
        health_reason node.cpu_load_pct w.max_cpu_load node.lane_count node.max_concurrent
          node.duplicate_executor in
      if leb (node.last_heartbeat + w.offline_after) now
      then ("offline", "")
      else if leb (node.last_heartbeat + w.degraded_after) now
      then (
        "degraded",
        concat "heartbeat stale " (concat (seconds (now - node.last_heartbeat)) "s"),
      )
      else if is_below_floor node.disk_free_gb w.min_free_disk_gb
      then ("degraded", disk_text node.disk_free_gb w.min_free_disk_gb)
      else if not (is_empty reason)
      then ("degraded", reason)
      else ("online", "")

  -- The loop of `_check`: the changes that it reports, in order.
  unfoldable pub check : Watchdog → ℕ → List HeartbeatNode → List StatusChange
  check w now [] = []
  check w now (node ∷ nodes) =
      let (new_status, reason) = verdict w now node in
      let events = check w now nodes in
      if new_status == node.status
      then events
      else record { node_id = node.id; status = new_status; reason = reason } ∷ events
