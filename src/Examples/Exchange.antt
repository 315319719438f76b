-- ===== src/Examples/Exchange.antt =====
-- Tests and witnesses of the exchange between nodes, of the watchdog and of ballots.
use hermes_agent_cluster.Prelude.{
  ℕ, ◌+◌, ◌*◌, ◌≤◌, ◌<◌, ◌≡◌, ◌↔◌, refl, String, true, false, none, some, List, [], ◌∷◌, All,
  length, ◌==◌, arith, strip, strip_left, strip_right, is_space,
}
use hermes_agent_cluster.Models.{SyncMessage}
use hermes_agent_cluster.State.Sync.{handle_batch_sync}
use hermes_agent_cluster.State.Sync.Replay.{highest, handle_batch_sync-replayed}
use hermes_agent_cluster.Sync.{Stamp, str_lt, should_apply, SyncReceiver, receive_batch}
use hermes_agent_cluster.Sync.Order.{should_apply-linear}
use hermes_agent_cluster.Sync.Receipts.{is_store_rejected, receive_batch-counts}
use hermes_agent_cluster.Health.{HeartbeatNode, Watchdog, verdict}
use hermes_agent_cluster.Health.Verdict.{IsFit, verdict-worsens, verdict-online_iff}
use hermes_agent_cluster.Ballot.{
  Ballot, BallotError, raised, valid, record_answer, validate_answer, text_len, take_text,
}
use hermes_agent_cluster.Ballot.Answers.{IsAnswer, record_answer-once}
use hermes_agent_cluster.Examples.{sample_state, sample_message, unary}

abbrev messages : List SyncMessage
messages = sample_message 3 "completed" ∷ sample_message 2 "running" ∷ sample_message 4 "odd" ∷ []

handle_batch_sync-replayed_example :
    let (s', applied) = handle_batch_sync sample_state messages 9 in
    (s'.sync_version ≡ highest sample_state.sync_version messages)
    × (applied + sample_state.sync_version ≤ s'.sync_version)
    × (handle_batch_sync s' messages 20 ≡ (s', 0))
handle_batch_sync-replayed_example = handle_batch_sync-replayed sample_state messages 9 20

abbrev stamp : ℕ → ℕ → String → Stamp
stamp version timestamp sender = record {
  version = version;
  timestamp = timestamp;
  sender = sender;
}

later_sender : should_apply (stamp 1 5 "node_b") (stamp 1 5 "node_a") ≡ true
unfolding should_apply str_lt
later_sender = refl

-- The newer update has the earlier timestamp.
abbrev newer : Stamp
newer = stamp 7 1 "a"

abbrev older : Stamp
older = stamp 5 9 "b"

abbrev tied : Stamp
tied = stamp 5 9 "a"

should_apply-linear_example :
    (older.version < newer.version → should_apply newer older ≡ true)
    × (older.version ≡ newer.version
        → older.timestamp < newer.timestamp
        → should_apply newer older ≡ true)
    × (older.version ≡ newer.version
        → older.timestamp ≡ newer.timestamp
        → should_apply newer older ≡ str_lt older.sender newer.sender)
    × (should_apply newer newer ≡ false)
    × (should_apply newer older ≡ true → should_apply older newer ≡ false)
    × (should_apply newer older ≡ false → should_apply older newer ≡ false → newer ≡ older)
    × (should_apply newer older ≡ true
        → should_apply older tied ≡ true
        → should_apply newer tied ≡ true)
should_apply-linear_example = should_apply-linear newer older tied

abbrev receiver : SyncReceiver
receiver = record {
  store = sample_state;
  stats = record { received = 0; applied = 0; rejected_stale = 0 };
}

receive_batch-counts_example :
    let (r', reply) = receive_batch receiver messages 9 in
    (reply.accepted + reply.rejected ≡ length messages)
    × (r'.stats.applied ≡ receiver.stats.applied + reply.accepted)
    × (r'.stats.rejected_stale ≡ receiver.stats.rejected_stale + reply.rejected)
    × All (λ detail. is_store_rejected detail ≡ false) reply.details
    × (r'.stats.received ≡ receiver.stats.received + 2 * length messages)
receive_batch-counts_example = receive_batch-counts receiver messages 9

abbrev watched : HeartbeatNode
watched = record {
  id = "node_a";
  last_heartbeat = 90;
  status = "online";
  disk_free_gb = some 400;
  cpu_load_pct = none;
  lane_count = some 3;
  max_concurrent = 2;
  duplicate_executor = none;
}

abbrev watchdog : Watchdog
watchdog = record {
  degraded_after = 15;
  offline_after = 30;
  min_free_disk_gb = 500;
  max_cpu_load = 0;
}

abbrev as_text : ℕ → ℕ → String
as_text digits n = unary n

verdict-worsens_example :
    (((verdict as_text unary unary watchdog 100 watched).0 == "offline") ≡ true
      ↔ (watched.last_heartbeat + watchdog.offline_after ≤ 100))
    × (((verdict as_text unary unary watchdog 100 watched).0 == "offline") ≡ true
        → ((verdict as_text unary unary watchdog 130 watched).0 == "offline") ≡ true)
    × (((verdict as_text unary unary watchdog 100 watched).0 == "online") ≡ false
        → ((verdict as_text unary unary watchdog 130 watched).0 == "online") ≡ false)
verdict-worsens_example = verdict-worsens as_text unary unary watchdog 100 130 watched (omega arith)

verdict-online_iff_example :
    ((verdict as_text unary unary watchdog 100 watched).0 == "online") ≡ true
    ↔ IsFit as_text unary unary watchdog 100 watched
verdict-online_iff_example = verdict-online_iff as_text unary unary watchdog 100 watched

abbrev asked : Ballot
asked = record {
  question = "Merge?";
  options = "yes" ∷ "no" ∷ [];
  cls = "technical";
  lane_key = "lane";
  asked_at = "monday";
  decision_ref = "";
  decision_id = "";
  answer = none;
  answered_at = none;
  answered_by = "";
}

abbrev answered : Ballot
answered = record asked { answer = some "yes"; answered_at = some "tuesday"; answered_by = "owner" }

answered-asked : record_answer asked " yes " "owner" "tuesday" ≡ valid answered
unfolding record_answer validate_answer strip strip_left strip_right is_space text_len take_text
answered-asked = refl

record_answer-once_example :
    IsAnswer answered.answer
    × (text_len answered.answered_by ≤ 120)
    × (answered.question ≡ asked.question)
    × (answered.options ≡ asked.options)
    × ((late by when : String)
        → record_answer answered late by when ≡ raised BallotError.already_answered)
record_answer-once_example =
    record_answer-once asked answered " yes " "owner" "tuesday" answered-asked
