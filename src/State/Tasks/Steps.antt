-- ===== src/State/Tasks/Steps.antt =====
-- What may become of a stored task: its id stays, its version never falls, and a terminal status is
-- left only for `cancelled`, from `cancel_requested` (the invariant B1 of the code).
use hermes_agent_cluster.Prelude.{
  ◌≤◌, ◌≡◌, refl, sym, ◌∙◌, ap, subst, String, true, Option, some, List, arith, inl, inr, ◌⊎◌,
  Bool-cases, Option-cases, ◌==◌, eq_iff,
}
use hermes_agent_cluster.Table.{get, put}
use hermes_agent_cluster.Table.Laws.{get-put, key-get}
use hermes_agent_cluster.Models.{Task, TaskStatus, task_key, is_terminal}
use hermes_agent_cluster.State.{ClusterState}
use hermes_agent_cluster.State.Tasks.{edit_task}

pub record TaskStep (t t' : Task) : Type 0 where
  pub same_id : t'.id ≡ t.id
  pub version : t.version ≤ t'.version
  pub kept :
      is_terminal t.status ≡ true
      → (t'.status ≡ t.status)
        ⊎ ((t.status ≡ TaskStatus.cancel_requested) × (t'.status ≡ TaskStatus.cancelled))

pub TaskStep-refl : (t : Task) → TaskStep t t
TaskStep-refl t = record { same_id = refl; version = omega arith; kept = λ h. inl refl }

pub TaskStep-trans : {t u v : Task} → TaskStep t u → TaskStep u v → TaskStep t v
TaskStep-trans {t} {u} {v} a b = record {
  same_id = b.same_id ∙ a.same_id;
  version = omega arith;
  kept = λ h. elim (a.kept h) [
    | inl same ↦ elim (b.kept (ap is_terminal same ∙ h)) [
      | inl same' ↦ inl (same' ∙ same)
      | inr (from, to) ↦ inr (sym same ∙ from, to)
    ]
    | inr (from, to) ↦ elim (b.kept (ap is_terminal to)) [
      | inl same' ↦ inr (from, same' ∙ to)
      | inr (from', to') ↦ inr (from, to')
    ]
  ];
}

-- Every stored task is still stored, a step further.
abbrev pub Evolves : List Task → List Task → Type 0
Evolves tasks tasks' =
    (task_id : String) (t : Task)
    → get task_key task_id tasks ≡ some t
    → (t' : Task) × (get task_key task_id tasks' ≡ some t') × TaskStep t t'

pub Evolves-refl : (tasks : List Task) → Evolves tasks tasks
Evolves-refl tasks task_id t e = (t, e, TaskStep-refl t)

pub Evolves-trans : (xs ys zs : List Task) → Evolves xs ys → Evolves ys zs → Evolves xs zs
Evolves-trans xs ys zs f g task_id t e =
    let (u, eu, su) = f task_id t e in
    let (v, ev, sv) = g task_id u eu in (v, ev, TaskStep-trans su sv)

-- A write of a step of the stored task.
pub put-Evolves :
    (tasks : List Task) (old new : Task)
    → get task_key new.id tasks ≡ some old
    → TaskStep old new
    → Evolves tasks (put task_key new tasks)
put-Evolves tasks old new e step task_id t et = elim (Bool-cases (new.id == task_id)) [
  | inl hit ↦
      let same : old ≡ t = ground (arith, eq_iff new.id task_id) in
      (
        new,
        ground (arith, get-put task_key task_id new tasks),
        subst (λ u. TaskStep u new) same step,
      )
  | inr miss ↦ (t, ground (arith, get-put task_key task_id new tasks), TaskStep-refl t)
]

pub edit_task-Evolves :
    (s : ClusterState) (task_id : String) (f : Task → Option Task)
    → ((t t' : Task) → f t ≡ some t' → TaskStep t t')
    → Evolves s.tasks (edit_task s task_id f).0.tasks
unfolding edit_task
edit_task-Evolves s task_id f steps = elim (Option-cases (get task_key task_id s.tasks)) [
  | inl e ↦ rw (e, edit_task) (Evolves-refl s.tasks)
  | inr (t, e) ↦ elim (Option-cases (f t)) [
    | inl e' ↦ rw (e, e', edit_task) (Evolves-refl s.tasks)
    | inr (t', e') ↦
        let step : TaskStep t t' = steps t t' e' in
        rw (e, e', edit_task)
          (put-Evolves s.tasks t t'
            (subst (λ k. get task_key k s.tasks ≡ some t)
              (sym (key-get task_key task_id s.tasks t e) ∙ sym step.same_id) e)
            step)
  ]
]
