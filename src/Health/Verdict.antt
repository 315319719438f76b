-- ===== src/Health/Verdict.antt =====
-- What the watchdog decides of a node.
use hermes_agent_cluster.Prelude.{
  ℕ, ◌+◌, ◌<◌, ◌≤◌, ◌≡◌, refl, String, Bool, true, false, not, ◌||◌, Option, arith, leb, is_empty,
  concat, or_else, Bool-cases, inl, inr, ◌↔◌, if◌then◌else◌, ◌==◌,
}
use hermes_agent_cluster.Health.{
  HeartbeatNode, Watchdog, is_below_floor, is_lane_backlog, is_cpu_saturated, join_parts,
  backlog_text, saturated_text, health_reason, verdict,
}

module _ (fixed : ℕ → ℕ → String) (decimal seconds : ℕ → String) where
  -- The composed reason is empty just where no rule fires.
  health_reason-is_empty :
      (cpu : Option ℕ) (max_cpu_load : ℕ) (lane_count : Option ℕ) (max_concurrent : ℕ)
      (duplicate : Option Bool)
      → is_empty
          (health_reason fixed decimal seconds cpu max_cpu_load lane_count max_concurrent duplicate)
        ≡ not (
            or_else duplicate false
            || is_lane_backlog lane_count max_concurrent
            || is_cpu_saturated cpu max_cpu_load)
  unfolding health_reason join_parts concat backlog_text saturated_text
  health_reason-is_empty cpu max_cpu_load lane_count max_concurrent duplicate =
      elim (Bool-cases (or_else duplicate false)) [
        | inl d ↦ elim (Bool-cases (is_lane_backlog lane_count max_concurrent)) [
          | inl b ↦ rw (d, b) refl
          | inr b ↦
              rw (d, b)
                (elim (Bool-cases (is_cpu_saturated cpu max_cpu_load)) [
                  | inl c ↦ rw c refl
                  | inr c ↦ rw c refl
                ])
        ]
        | inr d ↦ elim (Bool-cases (is_lane_backlog lane_count max_concurrent)) [
          | inl b ↦
              rw (d, b)
                (elim (Bool-cases (is_cpu_saturated cpu max_cpu_load)) [
                  | inl c ↦ rw c refl
                  | inr c ↦ rw c refl
                ])
          | inr b ↦
              rw (d, b)
                (elim (Bool-cases (is_cpu_saturated cpu max_cpu_load)) [
                  | inl c ↦ rw c refl
                  | inr c ↦ rw c refl
                ])
        ]
      ]

  -- The node's heartbeat is recent, and no rule on what it reported fires.
  pub record IsFit (w : Watchdog) (now : ℕ) (node : HeartbeatNode) : Type 0 where
    pub recent : now < node.last_heartbeat + w.degraded_after
    pub present : now < node.last_heartbeat + w.offline_after
    pub room : is_below_floor node.disk_free_gb w.min_free_disk_gb ≡ false
    pub single : or_else node.duplicate_executor false ≡ false
    pub no_backlog : is_lane_backlog node.lane_count node.max_concurrent ≡ false
    pub idle : is_cpu_saturated node.cpu_load_pct w.max_cpu_load ≡ false

  healthy :
      (w : Watchdog) (now : ℕ) (node : HeartbeatNode)
      → leb (node.last_heartbeat + w.degraded_after) now ≡ false
      → leb (node.last_heartbeat + w.offline_after) now ≡ false
      → is_below_floor node.disk_free_gb w.min_free_disk_gb ≡ false
      → let reason =
          health_reason fixed decimal seconds node.cpu_load_pct w.max_cpu_load node.lane_count
            node.max_concurrent node.duplicate_executor in
        let outcome : String × String =
          if not (is_empty reason) then ("degraded", reason) else ("online", "") in
        (outcome.0 == "online") ≡ true ↔ IsFit w now node
  healthy w now node recent present room =
      let reason =
        health_reason-is_empty node.cpu_load_pct w.max_cpu_load node.lane_count node.max_concurrent
          node.duplicate_executor in
      elim (Bool-cases (
        or_else node.duplicate_executor false
        || is_lane_backlog node.lane_count node.max_concurrent
        || is_cpu_saturated node.cpu_load_pct w.max_cpu_load)) [
          | inl fires ↦
              rw (reason, fires)
                (
                  λ h. absurd (ground arith),
                  λ f.
                      let single = f.single in
                      let no_backlog = f.no_backlog in let idle = f.idle in absurd (ground arith),
                )
          | inr quiet ↦
              rw (reason, quiet)
                (
                  λ h. record {
                    recent = ground arith;
                    present = ground arith;
                    room = room;
                    single = ground arith;
                    no_backlog = ground arith;
                    idle = ground arith;
                  },
                  λ f. refl,
                )
        ]

  -- The watchdog calls a node online exactly if its heartbeat is younger than both delays and
  -- neither the disk, the duplicate-executor, the lane nor the CPU rule fires.
  pub verdict-online_iff :
      (w : Watchdog) (now : ℕ) (node : HeartbeatNode)
      → ((verdict fixed decimal seconds w now node).0 == "online") ≡ true ↔ IsFit w now node
  unfolding verdict
  verdict-online_iff w now node =
      elim (Bool-cases (leb (node.last_heartbeat + w.offline_after) now)) [
        | inl gone ↦
            rw (gone, verdict)
              (λ h. absurd (ground arith), λ f. absurd (let p = f.present in ground arith))
        | inr present ↦ elim (Bool-cases (leb (node.last_heartbeat + w.degraded_after) now)) [
          | inl stale ↦
              rw (present, stale, verdict)
                (λ h. absurd (ground arith), λ f. absurd (let p = f.recent in ground arith))
          | inr recent ↦ elim (Bool-cases (is_below_floor node.disk_free_gb w.min_free_disk_gb)) [
            | inl full ↦
                rw (present, recent, full, verdict)
                  (λ h. absurd (ground arith), λ f. absurd (let p = f.room in ground arith))
            | inr room ↦
                rw (present, recent, room, verdict) (healthy w now node recent present room)
          ]
        ]
      ]

  -- The watchdog calls a node offline exactly if its last heartbeat is `offline_after` old.
  verdict-offline_iff :
      (w : Watchdog) (now : ℕ) (node : HeartbeatNode)
      → ((verdict fixed decimal seconds w now node).0 == "offline") ≡ true
        ↔ (node.last_heartbeat + w.offline_after ≤ now)
  unfolding verdict
  verdict-offline_iff w now node =
      elim (Bool-cases (leb (node.last_heartbeat + w.offline_after) now)) [
        | inl gone ↦ rw (gone, verdict) (λ h. ground arith, λ h. refl)
        | inr present ↦
            rw (present, verdict)
              (
                λ h. elim (Bool-cases (leb (node.last_heartbeat + w.degraded_after) now)) [
                  | inl stale ↦ absurd (ground (arith, rw stale at h))
                  | inr recent ↦
                      elim (Bool-cases (is_below_floor node.disk_free_gb w.min_free_disk_gb)) [
                        | inl full ↦ absurd (ground (arith, rw (recent, full) at h))
                        | inr room ↦
                            elim (Bool-cases (
                              is_empty (
                                health_reason fixed decimal seconds node.cpu_load_pct w.max_cpu_load
                                  node.lane_count node.max_concurrent node.duplicate_executor))) [
                                    | inl quiet ↦
                                        absurd (ground (arith, rw (recent, room, quiet) at h))
                                    | inr fires ↦
                                        absurd (ground (arith, rw (recent, room, fires) at h))
                                  ]
                      ]
                ],
                λ h. absurd (ground arith),
              )
      ]

  -- The report that a node is fit by holds at all times before.
  IsFit-earlier :
      (w : Watchdog) (now later : ℕ) (node : HeartbeatNode)
      → now ≤ later
      → IsFit w later node
      → IsFit w now node
  IsFit-earlier w now later node h f = record {
    recent = omega (arith, h, f.recent);
    present = omega (arith, h, f.present);
    room = f.room;
    single = f.single;
    no_backlog = f.no_backlog;
    idle = f.idle;
  }

  -- Time alone never improves a verdict: until the node reports again, one that is offline stays
  -- offline, and one that is not online stays not online. A node is offline exactly if its last
  -- heartbeat is `offline_after` old.
  pub verdict-worsens :
      (w : Watchdog) (now later : ℕ) (node : HeartbeatNode)
      → now ≤ later
      → (((verdict fixed decimal seconds w now node).0 == "offline") ≡ true
          ↔ (node.last_heartbeat + w.offline_after ≤ now))
        × (((verdict fixed decimal seconds w now node).0 == "offline") ≡ true
            → ((verdict fixed decimal seconds w later node).0 == "offline") ≡ true)
        × (((verdict fixed decimal seconds w now node).0 == "online") ≡ false
            → ((verdict fixed decimal seconds w later node).0 == "online") ≡ false)
  verdict-worsens w now later node h =
      let gone = verdict-offline_iff w now node in
      let gone_later = verdict-offline_iff w later node in
      (
        gone,
        λ off. gone_later.1 (omega (arith, h, gone.0 off)),
        λ bad. elim (Bool-cases ((verdict fixed decimal seconds w later node).0 == "online")) [
          | inr still ↦ still
          | inl well ↦
              let good =
                (verdict-online_iff w now node).1
                  (IsFit-earlier w now later node h ((verdict-online_iff w later node).0 well)) in
              absurd (ground (arith, good, bad))
        ],
      )
