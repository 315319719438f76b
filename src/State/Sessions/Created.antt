-- ===== src/State/Sessions/Created.antt =====
-- The age of a lane record.
use hermes_agent_cluster.Prelude.{
  ℕ, ◌≡◌, sym, ap, subst, ◌∙◌, String, some, List, [], ◌∷◌, arith, inl, inr, Bool-cases,
  Option-cases, ◌==◌, eq_iff, is_empty,
}
use hermes_agent_cluster.Table.{get, put}
use hermes_agent_cluster.Table.Laws.{get-put, key-get}
use hermes_agent_cluster.State.{ClusterState, Lane, lane_record_key}
use hermes_agent_cluster.State.Sessions.{
  LaneEdit, record_lane, touch_lane_last_task, effective_created,
}

-- The calls that write lanes while the lane lives.
pub data LaneCall : Type 0 where
  record_call : LaneEdit → ℕ → LaneCall
  touch_call : String → String → LaneCall

unfoldable pub lane_call : ClusterState → LaneCall → ClusterState
lane_call s (record_call edit now) = record_lane s edit now
lane_call s (touch_call lane_key task_id) = touch_lane_last_task s lane_key task_id

unfoldable pub lane_calls : ClusterState → List LaneCall → ClusterState
lane_calls s [] = s
lane_calls s (call ∷ calls) = lane_calls (lane_call s call) calls

-- The lane is recorded, and since `created`.
abbrev pub IsSince : String → ℕ → ClusterState → Type 0
IsSince lane_key created s =
    (lane : Lane) × (get lane_record_key lane_key s.lanes ≡ some lane) × (lane.created_at ≡ created)

-- A write over the lane of its key that keeps its age.
put-IsSince :
    (s : ClusterState) (new : Lane) (lane_key : String) (created : ℕ)
    → ((old : Lane)
        → get lane_record_key new.lane_key s.lanes ≡ some old
        → new.created_at ≡ old.created_at)
    → IsSince lane_key created s
    → IsSince lane_key created (record s { lanes = put lane_record_key new s.lanes })
put-IsSince s new lane_key created keeps (lane, there, since) =
    elim (Bool-cases (new.lane_key == lane_key)) [
      | inl hit ↦
          let found : get lane_record_key new.lane_key s.lanes ≡ some lane =
            subst (λ k. get lane_record_key k s.lanes ≡ some lane)
              (sym ((eq_iff new.lane_key lane_key).0 hit)) there in
          (
            new,
            ground (arith, get-put lane_record_key lane_key new s.lanes),
            keeps lane found ∙ since,
          )
      | inr miss ↦ (lane, ground (arith, get-put lane_record_key lane_key new s.lanes), since)
    ]

record_lane-IsSince :
    (s : ClusterState) (edit : LaneEdit) (now : ℕ) (lane_key : String) (created : ℕ)
    → IsSince lane_key created s
    → IsSince lane_key created (record_lane s edit now)
unfolding record_lane
record_lane-IsSince s edit now lane_key created d =
    put-IsSince s _ lane_key created (λ old e. ap (λ o. effective_created o edit.created_at now) e)
      d

touch_lane-IsSince :
    (s : ClusterState) (k task_id lane_key : String) (created : ℕ)
    → IsSince lane_key created s
    → IsSince lane_key created (touch_lane_last_task s k task_id)
unfolding touch_lane_last_task
touch_lane-IsSince s k task_id lane_key created d = elim (Bool-cases (is_empty k)) [
  | inl blank ↦ rw (blank, touch_lane_last_task) d
  | inr named ↦ elim (Option-cases (get lane_record_key k s.lanes)) [
    | inl e ↦ rw (named, e, touch_lane_last_task) d
    | inr (lane, e) ↦
        rw (named, e, touch_lane_last_task)
          (put-IsSince s (record lane { last_task_id = task_id }) lane_key created
            (λ old e'.
              let same : k ≡ lane.lane_key = sym (key-get lane_record_key k s.lanes lane e) in
              let found : get lane_record_key lane.lane_key s.lanes ≡ some lane =
                subst (λ j. get lane_record_key j s.lanes ≡ some lane) same e in
              ground arith)
            d)
  ]
]

-- "First created_at always wins": no upsert of a lane, whatever `created_at` it gives, and no
-- touch, of this lane or another, changes when a recorded lane was created.
pub lane_calls-keeps_created :
    (s : ClusterState) (calls : List LaneCall) (lane_key : String) (created : ℕ)
    → IsSince lane_key created s
    → IsSince lane_key created (lane_calls s calls)
unfolding lane_calls lane_call
lane_calls-keeps_created s [] lane_key created d = d
lane_calls-keeps_created s (record_call edit now ∷ calls) lane_key created d =
    lane_calls-keeps_created (record_lane s edit now) calls lane_key created
      (record_lane-IsSince s edit now lane_key created d)
lane_calls-keeps_created s (touch_call k task_id ∷ calls) lane_key created d =
    lane_calls-keeps_created (touch_lane_last_task s k task_id) calls lane_key created
      (touch_lane-IsSince s k task_id lane_key created d)
