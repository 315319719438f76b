-- ===== src/State/Schedule/Kept.antt =====
-- What `schedule_pending_detailed` leaves of the stored tasks, and the leases that it makes.
use hermes_agent_cluster.Prelude.{
  ℕ, ◌≤◌, ◌≡◌, refl, String, Bool, true, false, some, List, [], ◌∷◌, arith, keep, count, All,
  All-always, All-keep, All-sorted, All-count_zero, count-sorted, count-keep, count-le, and_true,
  ◌&&◌, ◌==◌, eq_iff, eq_refl, In, head, further,
}
use hermes_agent_cluster.Table.{get}
use hermes_agent_cluster.Table.Laws.{get-put, IsKeyed, get-In}
use hermes_agent_cluster.Models.{Node, Task, task_key, is_ready}
use hermes_agent_cluster.Scheduler.Lanes.{lane_blocked_ready_ids}
use hermes_agent_cluster.State.{ClusterState}
use hermes_agent_cluster.State.Leases.{active_leased_task_ids}
use hermes_agent_cluster.State.Tasks.Steps.{
  TaskStep, Evolves, Evolves-refl, Evolves-trans, put-Evolves,
}
use hermes_agent_cluster.State.Schedule.{
  is_schedulable, ready_tasks, online_nodes, started, schedule_pending_detailed, serves_before,
  assign,
}
use hermes_agent_cluster.State.Schedule.Safety.{tasks-assign}
use hermes_agent_cluster.State.Schedule.ActiveLanes.{ready_tasks-ready}
use hermes_agent_cluster.State.Schedule.Rule.{Rule, schedule_pending_ind}

-- The loop's snapshot of a task is the stored task, and ready.
abbrev pub IsCurrent : ClusterState → Task → Type 0
IsCurrent s t = (is_ready t.status ≡ true) × (get task_key t.id s.tasks ≡ some t)

pub record Progress (old : List Task) (tasks : List Task) (s : ClusterState) : Type 0 where
  pub keyed : IsKeyed task_key tasks
  pub current : All (IsCurrent s) tasks
  pub evolves : Evolves old s.tasks

All-zip {ℓ κ μ ν} :
    {A : Type ℓ} (P : A → Type κ) (Q : A → Type μ) (R : A → Type ν) (xs : List A)
    → ((x : A) → P x → Q x → R x)
    → All P xs
    → All Q xs
    → All R xs
All-zip P Q R [] f hp hq = tt
All-zip P Q R (x ∷ xs) f hp hq = (f x hp.0 hq.0, All-zip P Q R xs f hp.1 hq.1)

started-TaskStep :
    (node : Node) (now : ℕ) (t : Task) → is_ready t.status ≡ true → TaskStep t (started node now t)
started-TaskStep node now t ready = record {
  same_id = refl;
  version = omega arith;
  kept = λ h. absurd (ground arith);
}

pub tail-IsKeyed :
    (t : Task) (tasks : List Task) → IsKeyed task_key (t ∷ tasks) → IsKeyed task_key tasks
unfolding count
tail-IsKeyed t tasks keyed k = omega (arith, keyed k)

-- The other tasks of the loop have other ids.
pub tail-others :
    (t : Task) (tasks : List Task)
    → IsKeyed task_key (t ∷ tasks)
    → All (λ u. (task_key u == t.id) ≡ false) tasks
unfolding count
tail-others t tasks keyed =
    All-count_zero (λ u. task_key u == t.id) tasks (ground (arith, keyed t.id, eq_refl t.id))

pub Progress-rule :
    (token : ℕ → String) (now : ℕ) (online : List Node) (old : List Task)
    → Rule token now online (λ tasks _ s. Progress old tasks s)
Progress-rule token now online old = record {
  parked = λ t tasks counts s p. record {
    keyed = tail-IsKeyed t tasks p.keyed;
    current = p.current.1;
    evolves = p.evolves;
  };
  assigned = λ t tasks counts s node pinned p e.
      let (ready, stored) = p.current.0 in
      record {
        keyed = tail-IsKeyed t tasks p.keyed;
        current =
            All-zip (IsCurrent s) (λ u. (task_key u == t.id) ≡ false)
              (IsCurrent (assign token now s t node pinned)) tasks
              (λ u c other. (
                c.0,
                rw tasks-assign (
                    ground (
                      arith,
                      get-put task_key u.id (started node now t) s.tasks,
                      c.1,
                      eq_iff t.id u.id,
                      eq_iff u.id t.id,
                    )),
              ))
              p.current.1 (tail-others t tasks p.keyed);
        evolves = rw tasks-assign (
            Evolves-trans old s.tasks _ p.evolves (
              put-Evolves s.tasks t (started node now t) stored
                (started-TaskStep node now t ready)));
      };
}

pub All-In {ℓ κ} :
    {A : Type ℓ} (P : A → Type κ) (xs : List A) → ((x : A) → In x xs → P x) → All P xs
All-In P [] f = tt
All-In P (x ∷ xs) f = (f x head, All-In P xs (λ y m. f y (further m)))

ready_tasks-IsKeyed :
    (s : ClusterState) (now : ℕ) → IsKeyed task_key s.tasks → IsKeyed task_key (ready_tasks s now)
unfolding ready_tasks
ready_tasks-IsKeyed s now keyed k =
    let chosen : Task → Bool =
      is_schedulable (active_leased_task_ids s now) (lane_blocked_ready_ids s.tasks) in
    let fewer : count (λ t. (task_key t == k) && chosen t) s.tasks
        ≤ count (λ t. task_key t == k) s.tasks =
      count-le (λ t. (task_key t == k) && chosen t) (λ t. task_key t == k) s.tasks
        (All-always _ (λ t h. (and_true (task_key t == k) (chosen t) h).0) s.tasks) in
    omega (
      arith,
      fewer,
      keyed k,
      count-sorted serves_before (λ t. task_key t == k) (keep chosen s.tasks),
      count-keep (λ t. task_key t == k) chosen s.tasks,
    )

ready_tasks-stored :
    (s : ClusterState) (now : ℕ)
    → IsKeyed task_key s.tasks
    → All (λ t. get task_key t.id s.tasks ≡ some t) (ready_tasks s now)
unfolding ready_tasks
ready_tasks-stored s now keyed =
    let chosen : Task → Bool =
      is_schedulable (active_leased_task_ids s now) (lane_blocked_ready_ids s.tasks) in
    All-sorted serves_before _ (keep chosen s.tasks) (
      All-keep (λ t. get task_key t.id s.tasks ≡ some t) chosen s.tasks
        (All-In (λ t. get task_key t.id s.tasks ≡ some t) s.tasks
          (λ t m. get-In task_key t s.tasks keyed m)))

pub Progress-start :
    (s : ClusterState) (now : ℕ) → IsKeyed task_key s.tasks → Progress s.tasks (ready_tasks s now) s
Progress-start s now keyed = record {
  keyed = ready_tasks-IsKeyed s now keyed;
  current =
      All-zip (λ t. is_ready t.status ≡ true) (λ t. get task_key t.id s.tasks ≡ some t)
        (IsCurrent s) (ready_tasks s now) (λ t r g. (r, g)) (ready_tasks-ready s now)
        (ready_tasks-stored s now keyed);
  evolves = Evolves-refl s.tasks;
}

-- A scheduling pass loses no task, never lowers a version and revives no terminal task, in a task
-- table with one entry per id.
pub schedule-Evolves :
    (token : ℕ → String) (now : ℕ) (s : ClusterState)
    → IsKeyed task_key s.tasks
    → Evolves s.tasks (schedule_pending_detailed token now s).0.tasks
schedule-Evolves token now s keyed =
    let (left, final, progress) =
      schedule_pending_ind token now s (λ tasks _ s'. Progress s.tasks tasks s')
        (Progress-rule token now (online_nodes s) s.tasks) (Progress-start s now keyed) in
    progress.evolves
