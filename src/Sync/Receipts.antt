-- ===== src/Sync/Receipts.antt =====
-- What the receiver counts.
use hermes_agent_cluster.Prelude.{
  ℕ, ◌+◌, ◌*◌, ◌≡◌, refl, Bool, true, false, List, [], ◌∷◌, arith, length, All, leb, if◌then◌else◌,
  Bool-cases, inl, inr,
}
use hermes_agent_cluster.Models.{SyncMessage}
use hermes_agent_cluster.State.Sync.{handle_sync_message}
use hermes_agent_cluster.Sync.{
  SyncReceiver, Reply, is_applied, receive_single, receive_all, receive_batch, tally_accepted,
  tally_rejected,
}

-- The reply to a message that the store turned down.
abbrev pub is_store_rejected : Reply → Bool
is_store_rejected (Reply.store_rejected version) = true
is_store_rejected _ = false

-- One message: one of the two counters moves, and the store never turns it down.
record Counted (r : SyncReceiver) (msg : SyncMessage) (now : ℕ) : Type 0 where
  received : (receive_single r msg now).0.stats.received ≡ r.stats.received + 1
  applied :
      (receive_single r msg now).0.stats.applied
      ≡ (if is_applied (receive_single r msg now).1 then r.stats.applied + 1 else r.stats.applied)
  stale : (receive_single r msg now).0.stats.rejected_stale ≡ (
      if is_applied (receive_single r msg now).1
      then r.stats.rejected_stale
      else r.stats.rejected_stale + 1)
  heeded : is_store_rejected (receive_single r msg now).1 ≡ false

receive_single-counts : (r : SyncReceiver) (msg : SyncMessage) (now : ℕ) → Counted r msg now
unfolding receive_single handle_sync_message
receive_single-counts r msg now = elim (Bool-cases (leb msg.version r.store.sync_version)) [
  | inl old ↦ record {
    received = rw (old, receive_single) refl;
    applied = rw (old, receive_single) refl;
    stale = rw (old, receive_single) refl;
    heeded = rw (old, receive_single) refl;
  }
  | inr new ↦ record {
    received = rw (new, receive_single, handle_sync_message) refl;
    applied = rw (new, receive_single, handle_sync_message) refl;
    stale = rw (new, receive_single, handle_sync_message) refl;
    heeded = rw (new, receive_single, handle_sync_message) refl;
  }
]

-- A batch: the counters after the loop.
record Tallied (r : SyncReceiver) (messages : List SyncMessage) (now : ℕ) : Type 0 where
  received : (receive_all r messages now).0.stats.received ≡ r.stats.received + length messages
  applied :
      (receive_all r messages now).0.stats.applied
      ≡ r.stats.applied + tally_accepted (receive_all r messages now).1
  stale :
      (receive_all r messages now).0.stats.rejected_stale
      ≡ r.stats.rejected_stale + tally_rejected (receive_all r messages now).1
  total :
      tally_accepted (receive_all r messages now).1 + tally_rejected (receive_all r messages now).1
      ≡ length messages
  heeded : All (λ reply. is_store_rejected reply ≡ false) (receive_all r messages now).1

receive_all-tallies :
    (r : SyncReceiver) (messages : List SyncMessage) (now : ℕ) → Tallied r messages now
unfolding receive_all
receive_all-tallies r [] now = record {
  received = omega arith;
  applied = omega arith;
  stale = omega arith;
  total = refl;
  heeded = tt;
}
receive_all-tallies r (msg ∷ messages) now =
    let one = receive_single-counts r msg now in
    let rest = receive_all-tallies (receive_single r msg now).0 messages now in
    record {
      received = ground (arith, one.received, rest.received);
      applied = ground (arith, one.applied, rest.applied);
      stale = ground (arith, one.stale, rest.stale);
      total = ground (arith, rest.total);
      heeded = (one.heeded, rest.heeded);
    }

-- A batch is answered message by message: the accepted and the rejected add up to the messages, and
-- the counters of applied and stale messages grow by just these. The receiver's own test is that of
-- the store, so the store turns none down that it lets through. The counter `received` grows by two
-- for each message: `receive_single` counts it, and `receive_batch` once more.
pub receive_batch-counts :
    (r : SyncReceiver) (messages : List SyncMessage) (now : ℕ)
    → let (r', reply) = receive_batch r messages now in
      (reply.accepted + reply.rejected ≡ length messages)
      × (r'.stats.applied ≡ r.stats.applied + reply.accepted)
      × (r'.stats.rejected_stale ≡ r.stats.rejected_stale + reply.rejected)
      × All (λ detail. is_store_rejected detail ≡ false) reply.details
      × (r'.stats.received ≡ r.stats.received + 2 * length messages)
unfolding receive_batch
receive_batch-counts r messages now =
    let t = receive_all-tallies r messages now in
    (t.total, t.applied, t.stale, t.heeded, omega (arith, t.received))
