-- ===== src/Store/Mirror/Promotion.antt =====
-- `trigger_pending_tasks` of both stores (hermes_cluster/state/cluster_store.py and
-- state/__init__.py) promotes and holds the same tasks.
use hermes_agent_cluster.Prelude.{
  ℕ, ◌≡◌, refl, sym, ap, subst, String, true, false, not, ◌&&◌, Option, none, some, List, [], ◌∷◌,
  map, arith, inl, inr, ◌==◌, eq_iff, Bool-cases, Option-cases, keep, all_of, All, is_empty,
}
use hermes_agent_cluster.Table.{get, put}
use hermes_agent_cluster.Table.Laws.{IsKeyed, put-IsKeyed, get-put, get-In}
use hermes_agent_cluster.Models.{Task, task_key, is_pending, is_completed}
use hermes_agent_cluster.Landing.{Hold, landing_artifact, hold, hold_reason}
use hermes_agent_cluster.State.{ClusterState}
use hermes_agent_cluster.State.Tasks.Promotion as Memory
use hermes_agent_cluster.State.Schedule.Kept.{tail-IsKeyed, tail-others, All-In}
use hermes_agent_cluster.Store.{update_where}
use hermes_agent_cluster.Store.Tasks.{make_ready}
use hermes_agent_cluster.Store.Schedule as Rows
use hermes_agent_cluster.Store.Rows.{update_where-get}
use hermes_agent_cluster.Store.Mirror.{view}
use hermes_agent_cluster.Store.Mirror.Leases.{both}

put-same :
    (t : Task) (tasks : List Task) → get task_key t.id tasks ≡ some t → put task_key t tasks ≡ tasks
unfolding put get
put-same t [] e = absurd (ground arith)
put-same t (u ∷ tasks) e = elim (Bool-cases (u.id == t.id)) [
  | inl hit ↦ let same : u ≡ t = ground arith in rw hit (ap (λ x. x ∷ tasks) (sym same))
  | inr miss ↦ rw (miss, put-same t tasks (ground arith)) refl
]

all_completed-met :
    (tasks : List Task) (deps : List String)
    → Rows.all_completed tasks deps ≡ all_of (Memory.is_done tasks) deps
unfolding Rows.all_completed all_of Memory.is_done
all_completed-met tasks [] = refl
all_completed-met tasks (dep ∷ deps) = elim (Option-cases (get task_key dep tasks)) [
  | inl e ↦ rw (e, Rows.all_completed, Memory.is_done) refl
  | inr (t, e) ↦
      rw (e, Rows.all_completed, Memory.is_done, all_completed-met tasks deps)
        (elim (Bool-cases (is_completed t.status)) [ inl d ↦ rw d refl | inr d ↦ rw d refl ])
]

-- `(fail_reason or "") != reason` is `fail_reason != reason` for a reason with text.
is_new_reason-same :
    (old : Option String) (reason : String)
    → is_empty reason ≡ false
    → Rows.is_new_reason old reason ≡ not (Memory.same_reason old reason)
is_new_reason-same none reason text = elim (Bool-cases ("" == reason)) [
  | inl blank ↦
      let empty : "" ≡ reason = ground (arith, eq_iff "" reason) in
      let lost : is_empty reason ≡ true = subst (λ x. is_empty x ≡ true) empty refl in
      absurd (ground arith)
  | inr other ↦ rw other refl
]
is_new_reason-same (some old) reason text = refl

module _ (message : Hold → String) (now : ℕ)
    (worded : (h : Hold) → is_empty (message h) ≡ false) where
  gate-reason :
      (tasks : List Task) (t : Task) → Rows.gate message now tasks t ≡ hold_reason message tasks t
  unfolding Rows.gate hold_reason hold
  gate-reason tasks t = elim (Option-cases (landing_artifact t)) [
    | inl e ↦ rw (e, Rows.gate, hold_reason, hold) refl
    | inr (artifact, e) ↦ rw (e, Rows.gate) refl
  ]

  hold_reason-worded :
      (tasks : List Task) (t : Task) (reason : String)
      → hold_reason message tasks t ≡ some reason
      → is_empty reason ≡ false
  unfolding hold_reason
  hold_reason-worded tasks t reason e = elim (Option-cases (hold tasks t)) [
    | inl none_held ↦ absurd (ground arith)
    | inr (h, held) ↦ let same : message h ≡ reason = ground arith in rw (sym same) (worded h)
  ]

  -- One row, as a write of the in-memory loop.
  promote_row-view :
      (tasks : List Task) (t : Task)
      → IsKeyed task_key tasks
      → get task_key t.id tasks ≡ some t
      → is_pending t.status ≡ true
      → Rows.promote_row message now tasks t.id t.depends_on ≡ (
        put task_key (Memory.promotion (hold_reason message) tasks now t).0 tasks,
        (Memory.promotion (hold_reason message) tasks now t).1,
      )
  unfolding Rows.promote_row Memory.promotion Memory.dependencies_met
  promote_row-view tasks t keyed stored waiting =
      let met = all_completed-met tasks t.depends_on in
      let write : (f : Task → Task)
          → ((y : Task) → (f y).id ≡ y.id)
          → update_where (λ u. u.id == t.id && is_pending u.status) f tasks
            ≡ put task_key (f t) tasks =
        λ f kept.
          rw
            (
              update_where-get task_key t.id (λ u. is_pending u.status) f tasks t kept keyed stored,
              waiting,
            )
            refl in
      rw (met, waiting, Rows.promote_row, Memory.promotion, Memory.dependencies_met)
        (elim (Bool-cases (all_of (Memory.is_done tasks) t.depends_on)) [
          | inr unmet ↦ rw (unmet, put-same t tasks stored) refl
          | inl done ↦
              rw (done, stored, gate-reason tasks t)
                (elim (Option-cases (hold_reason message tasks t)) [
                  | inl free ↦ rw (free, write (make_ready now) (λ y. refl)) refl
                  | inr (reason, held) ↦
                      rw
                        (
                          held,
                          is_new_reason-same t.fail_reason reason
                              (hold_reason-worded tasks t reason held),
                        )
                        (elim (Bool-cases (Memory.same_reason t.fail_reason reason)) [
                          | inl same ↦ rw (same, put-same t tasks stored) refl
                          | inr new ↦
                              rw
                                (
                                  new,
                                  write
                                      (λ u. record u {
                                        fail_reason = some reason;
                                        updated_at = now;
                                      })
                                      (λ y. refl),
                                )
                                refl
                        ])
                ])
        ])

  promotion-settled :
      (tasks : List Task) (t : Task)
      → is_pending t.status ≡ false
      → Memory.promotion (hold_reason message) tasks now t ≡ (t, 0)
  unfolding Memory.promotion
  promotion-settled tasks t settled = rw (settled, Memory.promotion) refl

  -- The candidates that are left are stored as they were read.
  record Remaining (rows tasks : List Task) : Type 0 where
    distinct : IsKeyed task_key rows
    keyed : IsKeyed task_key tasks
    unchanged : All (λ t. get task_key t.id tasks ≡ some t) rows

  promotion-id :
      (tasks : List Task) (t : Task)
      → (Memory.promotion (hold_reason message) tasks now t).0.id ≡ t.id
  unfolding Memory.promotion
  promotion-id tasks t = ground arith

  still_stored :
      (t' : Task) (rows tasks : List Task)
      → All (λ u. (task_key u == t'.id) ≡ false) rows
      → All (λ u. get task_key u.id tasks ≡ some u) rows
      → All (λ u. get task_key u.id (put task_key t' tasks) ≡ some u) rows
  still_stored t' [] tasks others stored = tt
  still_stored t' (u ∷ rows) tasks others stored = (
    ground (
      arith,
      get-put task_key u.id t' tasks,
      others.0,
      stored.0,
      eq_iff t'.id u.id,
      eq_iff u.id t'.id,
    ),
    still_stored t' rows tasks others.1 stored.1,
  )

  Remaining-tail :
      (t : Task) (rows tasks : List Task)
      → Remaining (t ∷ rows) tasks
      → Remaining rows (put task_key (Memory.promotion (hold_reason message) tasks now t).0 tasks)
  Remaining-tail t rows tasks r = record {
    distinct = tail-IsKeyed t rows r.distinct;
    keyed =
        put-IsKeyed task_key (Memory.promotion (hold_reason message) tasks now t).0 tasks r.keyed;
    unchanged =
        still_stored (Memory.promotion (hold_reason message) tasks now t).0 rows tasks
          (rw (promotion-id tasks t) (tail-others t rows r.distinct)) r.unchanged.1;
  }

  promote_rows-view :
      (rows tasks : List Task)
      → Remaining rows tasks
      → Rows.promote_rows message now (keep (λ t. is_pending t.status) rows) tasks
        ≡ Memory.promotion_loop (hold_reason message) (map task_key rows) tasks now
  unfolding Rows.promote_rows Memory.promotion_loop keep
  promote_rows-view [] tasks r = refl
  promote_rows-view (t ∷ rows) tasks r = elim (Bool-cases (is_pending t.status)) [
    | inl waiting ↦
        rw
          (
            waiting,
            Rows.promote_rows,
            Memory.promotion_loop,
            r.unchanged.0,
            promote_row-view tasks t r.keyed r.unchanged.0 waiting,
            promote_rows-view rows
                (put task_key (Memory.promotion (hold_reason message) tasks now t).0 tasks)
                (Remaining-tail t rows tasks r),
          )
          refl
    | inr settled ↦
        let rest = promote_rows-view rows tasks (record {
          distinct = tail-IsKeyed t rows r.distinct;
          keyed = r.keyed;
          unchanged = r.unchanged.1;
        }) in
        rw
          (
            settled,
            Memory.promotion_loop,
            r.unchanged.0,
            promotion-settled tasks t settled,
            put-same t tasks r.unchanged.0,
            rest,
          )
          (ap
            (λ n.
              ((Memory.promotion_loop (hold_reason message) (map task_key rows) tasks now).0, n))
            (omega arith))
  ]

  -- The two stores promote and hold the same tasks, and count the same promotions, in a task table
  -- with one entry per id, where no message of the landing gate is empty.
  pub trigger_pending_tasks-agrees :
      (s : ClusterState)
      → IsKeyed task_key s.tasks
      → Rows.trigger_pending_tasks message now (view s)
        ≡ both (Memory.trigger_pending_tasks (hold_reason message) s now)
  unfolding Rows.trigger_pending_tasks Memory.trigger_pending_tasks
  trigger_pending_tasks-agrees s keyed =
      rw
        (promote_rows-view s.tasks s.tasks (record {
          distinct = keyed;
          keyed = keyed;
          unchanged =
              All-In (λ t. get task_key t.id s.tasks ≡ some t) s.tasks
                (λ t m. get-In task_key t s.tasks keyed m);
        }))
        refl
