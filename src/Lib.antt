-- ===== src/Lib.antt =====
-- The verification library of the Hermes agent cluster.
--
-- The cluster hands tasks to worker nodes. A central store keeps the nodes, the tasks, the leases
-- by which a node holds a task, the stateful lanes and the logs; the planner picks a node for each
-- ready task; the watchdog judges nodes by their heartbeats; recovery takes the tasks of a lost
-- node back; sync messages carry task states between nodes; a ballot asks the owner for a decision.
-- The store is one object. Every method of it runs under its locks, so a method is one step here: a
-- function from the state to the new state, beside its result.
--
-- The parts, and the code that they model:
--   Prelude, Table      what the parts share: lists, texts, Python's `dict`
--   Models              hermes_cluster/models/__init__.py: enums and records
--   Scheduler           hermes_cluster/core/scheduler.py: `FairScheduler`, `node_can_run`,
--                       `node_at_capacity`; Scheduler/Lanes: `lane_blocked_ready_ids`
--   Affinity            hermes_cluster/core/lane_affinity.py: `same_node`, `choose_pinned`
--   State               hermes_cluster/state/__init__.py: the class `ClusterState`, with its
--                       methods on leases (State/Leases), tasks (State/Tasks), nodes (State/Nodes),
--                       logs (State/Log), scheduling (State/Schedule), sync (State/Sync), task spawns
--                       and lanes (State/Sessions), federation and hooks (State/Registry);
--                       State/Follows, State/History: any sequence of the operations
--                       on tasks
--   Sync                hermes_cluster/sync/__init__.py: `LWWResolver`, `SyncReceiver`
--   Health              hermes_cluster/core/disk_preflight.py, core/health_selfreport.py and the
--                       check of core/watchdog.py
--   Recovery            hermes_cluster/recovery: `Revoker`, `Rescheduler`, `trigger_recovery`
--   Ballot              hermes_cluster/core/ballot.py
--   Regex, Landing      hermes_cluster/core/landing_gate.py: the matcher for its patterns; the gate
--                       on landing tasks that `trigger_pending_tasks` asks
--   Store               hermes_cluster/state/cluster_store.py: the class `ClusterStore` over SQLite;
--                       Store/Mirror: the same calls on both stores
--   DeliverableGuard    hermes_cluster/core/deliverable_guard.py
--   LeaseManager        hermes_cluster/lease/lease_manager.py, over Store
--   TaskManager         hermes_cluster/task_manager.py, over Store
--   NodeManager         hermes_cluster/core/node_manager.py, over Store
--   Dispatcher          hermes_cluster/hooks/dispatcher.py: the attempts to deliver to a webhook
--   Examples            sample clusters, tests, and the theorems at them
--
-- Times are natural numbers of microseconds, and measured floats natural numbers of thousandths. A
-- method reads the clock once. Random tokens come from a supply `token`; where it matters, the
-- supply draws no token twice. Python's number formatting, the HTTP request of a webhook and the
-- wording of the message on a held landing are parameters; State's promotion takes any landing gate.
-- All loops are recursion on the list or the text that they run over, but for the depth-limited
-- search of `get_trigger_chain`, which is recursion on its `max_depth`: no fuel is used.
-- White space is Python's. The digits, letters and word characters of patterns are the ASCII ones, and so
-- is the case of letters in patterns and in the words that the landing gate compares; `str.lower` on
-- titles and on bodies, in TaskManager and DeliverableGuard, is a parameter.
-- A table of SQLite is the list of its rows in the order of their row ids. A query without ORDER BY
-- gives them in that order, and ORDER BY keeps it among equal rows.
--
-- Not modelled: the PostgreSQL store; of the SQLite store the sync messages, the recovery log, the
-- registries and the sessions; the HTTP routers and clients, threads, processes and files, the
-- dashboard, metering, intake and the reports; the hook manager and the full-state sync; of the task
-- manager the statistics and auto_schedule.
mod Prelude
pub mod Table
pub mod Regex
pub mod Ballot
pub mod Models
pub mod Scheduler
pub mod Affinity
pub mod State
pub mod Landing
pub mod Sync
pub mod Health
pub mod Recovery
pub mod Store
pub mod LeaseManager
pub mod TaskManager
pub mod NodeManager
pub mod DeliverableGuard
pub mod Dispatcher
mod Examples
