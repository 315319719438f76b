-- ===== src/State/Tasks/Promotion/Gate.antt =====
-- The dependency gate of `trigger_pending_tasks`.
use hermes_agent_cluster.Prelude.{
  ℕ, ◌≡◌, refl, sym, ap, ◌∙◌, subst, String, true, Option, none, some, List, [], ◌∷◌, map, arith,
  inl, inr, ◌⊎◌, Bool-cases, Option-cases, ◌==◌, eq_iff, all_of, All,
}
use hermes_agent_cluster.Table.{get, put}
use hermes_agent_cluster.Table.Laws.{IsKeyed, put-IsKeyed, get-put, key-get}
use hermes_agent_cluster.Models.{Task, TaskStatus, task_key, is_pending, is_completed}
use hermes_agent_cluster.State.{ClusterState}
use hermes_agent_cluster.State.Tasks.Steps.{TaskStep, TaskStep-refl, TaskStep-trans}
use hermes_agent_cluster.State.Tasks.Promotion.{
  is_done, dependencies_met, hold_task, promote_task, promotion, promotion_loop,
  trigger_pending_tasks,
}

-- The task is stored, and completed.
abbrev pub IsCompleted : List Task → String → Type 0
IsCompleted tasks task_id =
    (t : Task) × (get task_key task_id tasks ≡ some t) × (t.status ≡ TaskStatus.completed)

is_completed-path :
    (status : TaskStatus) → is_completed status ≡ true → status ≡ TaskStatus.completed
is_completed-path status h = ground arith

is_done-IsCompleted :
    (tasks : List Task) (task_id : String)
    → is_done tasks task_id ≡ true
    → IsCompleted tasks task_id
unfolding is_done
is_done-IsCompleted tasks task_id h = elim (Option-cases (get task_key task_id tasks)) [
  | inl e ↦ absurd (ground arith)
  | inr (t, e) ↦ (t, e, is_completed-path t.status (ground arith))
]

all_of-IsCompleted :
    (tasks : List Task) (ids : List String)
    → all_of (is_done tasks) ids ≡ true
    → All (IsCompleted tasks) ids
unfolding all_of
all_of-IsCompleted tasks [] h = tt
all_of-IsCompleted tasks (x ∷ ids) h =
    (is_done-IsCompleted tasks x (ground arith), all_of-IsCompleted tasks ids (ground arith))

-- What a task may become: it keeps its status, or it was pending with its dependencies completed,
-- and is ready.
pub record Gated (old : List Task) (t t' : Task) : Type 0 where
  pub step : TaskStep t t'
  pub same_needs : t'.depends_on ≡ t.depends_on
  pub gate :
      (t'.status ≡ t.status)
      ⊎ ((t.status ≡ TaskStatus.pending)
          × (t'.status ≡ TaskStatus.ready)
          × All (IsCompleted old) t.depends_on)

Gated-refl : (old : List Task) (t : Task) → Gated old t t
Gated-refl old t = record { step = TaskStep-refl t; same_needs = refl; gate = inl refl }

-- The tasks so far against those at the start.
record Promoting (old tasks : List Task) : Type 0 where
  moved :
      (task_id : String) (t : Task)
      → get task_key task_id old ≡ some t
      → (t' : Task) × (get task_key task_id tasks ≡ some t') × Gated old t t'
  known : (task_id : String) → get task_key task_id old ≡ none → get task_key task_id tasks ≡ none

Gated-completed :
    (old : List Task) (t t' : Task)
    → Gated old t t'
    → is_completed t'.status ≡ is_completed t.status
Gated-completed old t t' g = elim g.gate [
  | inl same ↦ ap is_completed same
  | inr (from, to, met) ↦ ap is_completed to ∙ sym (ap is_completed from)
]

is_done-Promoting :
    (old tasks : List Task) (task_id : String)
    → Promoting old tasks
    → is_done tasks task_id ≡ is_done old task_id
unfolding is_done
is_done-Promoting old tasks task_id p = elim (Option-cases (get task_key task_id old)) [
  | inl e ↦ rw (e, p.known task_id e, is_done) refl
  | inr (t, e) ↦
      let (t', e', g) = p.moved task_id t e in rw (e, e', is_done) (Gated-completed old t t' g)
]

all_of-is_done :
    (old tasks : List Task) (ids : List String)
    → Promoting old tasks
    → all_of (is_done tasks) ids ≡ all_of (is_done old) ids
unfolding all_of
all_of-is_done old tasks [] p = refl
all_of-is_done old tasks (x ∷ ids) p =
    rw (is_done-Promoting old tasks x p, all_of-is_done old tasks ids p) refl

is_pending-path : (status : TaskStatus) → is_pending status ≡ true → status ≡ TaskStatus.pending
is_pending-path status h = ground arith

module _ (hold_reason : List Task → Task → Option String) where
  held-Gated :
      (old : List Task) (now : ℕ) (t u : Task) (reason : String)
      → Gated old t u
      → Gated old t (hold_task reason now u)
  held-Gated old now t u reason g = record {
    step =
        TaskStep-trans g.step (record {
          same_id = ground arith;
          version = ground arith;
          kept = λ h. inl (ground arith);
        });
    same_needs = ground (arith, g.same_needs);
    gate = elim g.gate [
      | inl same ↦ inl (ground arith)
      | inr (from, to, m) ↦ inr (from, ground arith, m)
    ];
  }

  promoted-Gated :
      (old tasks : List Task) (now : ℕ) (t u : Task)
      → Promoting old tasks
      → Gated old t u
      → is_pending u.status ≡ true
      → all_of (is_done tasks) u.depends_on ≡ true
      → Gated old t (promote_task now u)
  unfolding dependencies_met
  promoted-Gated old tasks now t u p g waiting met = record {
    step =
        TaskStep-trans g.step
          (record { same_id = refl; version = omega arith; kept = λ h. absurd (ground arith) });
    same_needs = g.same_needs;
    gate = elim g.gate [
      | inl same ↦ inr (
        is_pending-path t.status (ap is_pending (sym same) ∙ waiting),
        refl,
        subst (λ ids. All (IsCompleted old) ids) g.same_needs
            (all_of-IsCompleted old u.depends_on
              (sym (all_of-is_done old tasks u.depends_on p) ∙ met)),
      )
      | inr (from, to, m) ↦ absurd (ground arith)
    ];
  }

  id-promotion :
      (tasks : List Task) (now : ℕ) (u : Task) → (promotion hold_reason tasks now u).0.id ≡ u.id
  unfolding promotion
  id-promotion tasks now u = ground arith

  -- One round on a task, as a move of it.
  promotion-Gated :
      (old tasks : List Task) (now : ℕ) (t u : Task)
      → Promoting old tasks
      → Gated old t u
      → Gated old t (promotion hold_reason tasks now u).0
  unfolding promotion dependencies_met
  promotion-Gated old tasks now t u p g = elim (Bool-cases (is_pending u.status)) [
    | inr started ↦ rw (started, promotion) g
    | inl waiting ↦ elim (Bool-cases (all_of (is_done tasks) u.depends_on)) [
      | inr unmet ↦ rw (waiting, unmet, promotion, dependencies_met) g
      | inl met ↦ elim (Option-cases (hold_reason tasks u)) [
        | inr (reason, e) ↦
            rw (waiting, met, e, promotion, dependencies_met) (held-Gated old now t u reason g)
        | inl free ↦
            rw (waiting, met, free, promotion, dependencies_met)
              (promoted-Gated old tasks now t u p g waiting met)
      ]
    ]
  ]

  -- The write of a round, against the start.
  put-Promoting :
      (old tasks : List Task) (now : ℕ) (task_id : String) (u : Task)
      → get task_key task_id tasks ≡ some u
      → Promoting old tasks
      → Promoting old (put task_key (promotion hold_reason tasks now u).0 tasks)
  put-Promoting old tasks now task_id u e p =
      let new : Task = (promotion hold_reason tasks now u).0 in
      let named : task_id ≡ u.id = sym (key-get task_key task_id tasks u e) in
      let kept_id : new.id ≡ u.id = id-promotion tasks now u in
      record {
        moved = λ k t there.
            let (t', now_there, g) = p.moved k t there in
            elim (Bool-cases (new.id == k)) [
              | inl hit ↦
                  let same : u ≡ t' = ground (arith, eq_iff new.id k) in
                  (
                    new,
                    ground (arith, get-put task_key k new tasks),
                    promotion-Gated old tasks now t u p (subst (Gated old t) (sym same) g),
                  )
              | inr miss ↦ (t', ground (arith, get-put task_key k new tasks), g)
            ];
        known = λ k absent.
            let gone = p.known k absent in
            elim (Bool-cases (new.id == k)) [
              | inl hit ↦ absurd (ground (arith, eq_iff new.id k))
              | inr miss ↦ ground (arith, get-put task_key k new tasks)
            ];
      }

  promotion_loop-Promoting :
      (ids : List String) (old tasks : List Task) (now : ℕ)
      → Promoting old tasks
      → Promoting old (promotion_loop hold_reason ids tasks now).0
  unfolding promotion_loop
  promotion_loop-Promoting [] old tasks now p = p
  promotion_loop-Promoting (task_id ∷ ids) old tasks now p =
      elim (Option-cases (get task_key task_id tasks)) [
        | inl e ↦ rw (e, promotion_loop) (promotion_loop-Promoting ids old tasks now p)
        | inr (u, e) ↦
            rw (e, promotion_loop)
              (promotion_loop-Promoting ids old
                (put task_key (promotion hold_reason tasks now u).0 tasks) now
                (put-Promoting old tasks now task_id u e p))
      ]

  -- `trigger_pending_tasks`, under any landing gate, keeps every task; it changes a status only
  -- from pending to ready, and only if every dependency of the task was stored and completed when
  -- the call began.
  pub trigger_pending_tasks-Gated :
      (s : ClusterState) (now : ℕ) (task_id : String) (t : Task)
      → get task_key task_id s.tasks ≡ some t
      → (t' : Task) × (get task_key task_id (trigger_pending_tasks hold_reason s now).0.tasks
          ≡ some t')
        × Gated s.tasks t t'
  unfolding trigger_pending_tasks
  trigger_pending_tasks-Gated s now task_id t e =
      (promotion_loop-Promoting (map task_key s.tasks) s.tasks s.tasks now (record {
        moved = λ k u there. (u, there, Gated-refl s.tasks u);
        known = λ k absent. absent;
      })).moved
        task_id t e

  promotion_loop-IsKeyed :
      (ids : List String) (tasks : List Task) (now : ℕ)
      → IsKeyed task_key tasks
      → IsKeyed task_key (promotion_loop hold_reason ids tasks now).0
  unfolding promotion_loop
  promotion_loop-IsKeyed [] tasks now keyed = keyed
  promotion_loop-IsKeyed (task_id ∷ ids) tasks now keyed =
      elim (Option-cases (get task_key task_id tasks)) [
        | inl e ↦ rw (e, promotion_loop) (promotion_loop-IsKeyed ids tasks now keyed)
        | inr (u, e) ↦
            let new : Task = (promotion hold_reason tasks now u).0 in
            rw (e, promotion_loop)
              (promotion_loop-IsKeyed ids (put task_key new tasks) now
                (put-IsKeyed task_key new tasks keyed))
      ]

  pub trigger_pending_tasks-IsKeyed :
      (s : ClusterState) (now : ℕ)
      → IsKeyed task_key s.tasks
      → IsKeyed task_key (trigger_pending_tasks hold_reason s now).0.tasks
  unfolding trigger_pending_tasks
  trigger_pending_tasks-IsKeyed s now keyed =
      promotion_loop-IsKeyed (map task_key s.tasks) s.tasks now keyed
