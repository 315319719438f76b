-- ===== src/Sync.antt =====
-- hermes_cluster/sync/__init__.py: the last-writer-wins rule (`LWWResolver`) and the receiving side
-- (`SyncReceiver`), over the store of hermes_cluster/state/__init__.py.
pub mod Order
pub mod Receipts
use Prim.Native.Char.{code}
use hermes_agent_cluster.Prelude.{
  ℕ, ◌+◌, String, Bool, true, false, List, [], ◌∷◌, ltb, leb, length, if◌then◌else◌,
}
use hermes_agent_cluster.Models.{TaskSync, SyncMessage, SyncEventType}
use hermes_agent_cluster.State.{ClusterState}
use hermes_agent_cluster.State.Sync.{handle_sync_message}

-- `s < t` on texts: by the first character in which they differ.
unfoldable pub str_lt : String → String → Bool
str_lt String.[] String.[] = false
str_lt String.[] (String.◌∷◌ d t) = true
str_lt (String.◌∷◌ c s) String.[] = false
str_lt (String.◌∷◌ c s) (String.◌∷◌ d t) =
    let rest = str_lt s t in
    if ltb (code c) (code d) then true else if ltb (code d) (code c) then false else rest

-- The version, the timestamp and the sender of an update.
pub record Stamp : Type 0 where
  pub version : ℕ
  pub timestamp : ℕ
  pub sender : String

-- The timestamps of the code are integers; those that it sends are natural numbers.
unfoldable pub should_apply : Stamp → Stamp → Bool
should_apply remote local =
    if ltb local.version remote.version
    then true
    else if ltb remote.version local.version
    then false
    else if ltb local.timestamp remote.timestamp
    then true
    else if ltb remote.timestamp local.timestamp
    then false
    else str_lt local.sender remote.sender

unfoldable pub should_apply_task : TaskSync → ℕ → Bool
should_apply_task remote local_version =
    should_apply (record { version = remote.version; timestamp = 0; sender = "" })
      (record { version = local_version; timestamp = 0; sender = "" })

-- The dict `_stats`.
pub record Stats : Type 0 where
  pub received : ℕ
  pub applied : ℕ
  pub rejected_stale : ℕ

-- The dict that `receive_single` returns, by its `reason`.
pub data Reply : Type 0 where
  was_applied : ℕ → SyncEventType → Reply
  stale_version : ℕ → ℕ → Reply
  store_rejected : ℕ → Reply

-- `result["applied"]`
abbrev pub is_applied : Reply → Bool
is_applied (was_applied version event_type) = true
is_applied (stale_version remote local) = false
is_applied (store_rejected version) = false

pub record SyncReceiver : Type 0 where
  pub store : ClusterState
  pub stats : Stats

abbrev pub count_received : Stats → Stats
count_received st = record st { received = st.received + 1 }

abbrev pub count_applied : Stats → Stats
count_applied st = record st { applied = st.applied + 1 }

abbrev pub count_stale : Stats → Stats
count_stale st = record st { rejected_stale = st.rejected_stale + 1 }

unfoldable pub receive_single : SyncReceiver → SyncMessage → ℕ → SyncReceiver × Reply
receive_single r msg now =
    let stats = count_received r.stats in
    let (store, applied) = handle_sync_message r.store msg now in
    if leb msg.version r.store.sync_version
    then (
      record { store = r.store; stats = count_stale stats },
      stale_version msg.version r.store.sync_version,
    )
    else if applied
    then (
      record { store = store; stats = count_applied stats },
      was_applied msg.version msg.event_type,
    )
    else (record { store = store; stats = count_stale stats }, store_rejected msg.version)

-- The loop of `receive_batch`: the replies in order.
unfoldable pub receive_all : SyncReceiver → List SyncMessage → ℕ → SyncReceiver × List Reply
receive_all r [] now = (r, [])
receive_all r (msg ∷ messages) now =
    let (r', reply) = receive_single r msg now in
    let (r'', details) = receive_all r' messages now in (r'', reply ∷ details)

abbrev pub tally_accepted : List Reply → ℕ
tally_accepted [] = 0
tally_accepted (reply ∷ details) =
    if is_applied reply then tally_accepted details + 1 else tally_accepted details

abbrev pub tally_rejected : List Reply → ℕ
tally_rejected [] = 0
tally_rejected (reply ∷ details) =
    if is_applied reply then tally_rejected details else tally_rejected details + 1

-- The dict that `receive_batch` returns.
pub record BatchReply : Type 0 where
  pub accepted : ℕ
  pub rejected : ℕ
  pub total : ℕ
  pub details : List Reply

unfoldable pub receive_batch : SyncReceiver → List SyncMessage → ℕ → SyncReceiver × BatchReply
receive_batch r messages now =
    let (r', details) = receive_all r messages now in
    (
      record r' { stats = record r'.stats { received = r'.stats.received + length messages } },
      record {
        accepted = tally_accepted details;
        rejected = tally_rejected details;
        total = length messages;
        details = details;
      },
    )
