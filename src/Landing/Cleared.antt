-- ===== src/Landing/Cleared.antt =====
-- What a landing that is not held has, for `hold_reason` of core/landing_gate.py.
use hermes_agent_cluster.Prelude.{
  ℕ, ◌≡◌, ◌≢◌, refl, ap, subst, inl, inr, String, true, false, not, ◌&&◌, Option, none, some, List,
  [], ◌∷◌, map, arith, ◌==◌, eq_iff, eq_refl, is_empty, strip, concat, or_else, In, head, further,
  In-cons, In-keep, keep-In, keep, member, Bool-cases, Option-cases,
}
use hermes_agent_cluster.Models.{Task, is_pending}
use hermes_agent_cluster.State.Tasks.Promotion.{dependencies_met, promotion}
use hermes_agent_cluster.Landing.{
  landing_artifact, parse_reviewer_verdict, reviewer_of, is_older, latest_of, latest_in,
  latest_reviewer, latest_reviewer_verdict, is_author, authoring_lanes, same_sha, any_sha,
  named_shas, Hold, verdict_hold, hold, hold_reason,
}

-- A sha that the verdict and the landing's title name.
abbrev pub SharesSha : String → List String → Type 0
SharesSha sha named = (s : String) × In s named × (same_sha sha s ≡ true)

any_sha-SharesSha :
    (sha : String) (named : List String) → any_sha sha named ≡ true → SharesSha sha named
unfolding any_sha
any_sha-SharesSha sha [] h = absurd (ground arith)
any_sha-SharesSha sha (s ∷ named) h = elim (Bool-cases (same_sha sha s)) [
  | inl hit ↦ (s, head, hit)
  | inr miss ↦
      let (found, m, e) = any_sha-SharesSha sha named (ground arith) in (found, further m, e)
]

latest_of-In :
    (best : Task) (ts all_tasks : List Task)
    → In best all_tasks
    → ((u : Task) → In u ts → In u all_tasks)
    → In (latest_of best ts) all_tasks
unfolding latest_of
latest_of-In best [] all_tasks m h = m
latest_of-In best (t ∷ ts) all_tasks m h = elim (Bool-cases (is_older best t)) [
  | inl e ↦ rw e (latest_of-In t ts all_tasks (h t head) (λ u mu. h u (further mu)))
  | inr e ↦ rw e (latest_of-In best ts all_tasks m (λ u mu. h u (further mu)))
]

is_older_trans : (t u v : Task) → is_older t u ≡ true → is_older t v ≡ false → is_older u v ≡ false
unfolding is_older
is_older_trans t u v h e = ground arith

is_older_asym : (t u : Task) → is_older t u ≡ true → is_older u t ≡ false
unfolding is_older
is_older_asym t u h = ground arith

is_older_irrefl : (t : Task) → is_older t t ≡ false
unfolding is_older
is_older_irrefl t = ground arith

latest_of-kept :
    (best : Task) (ts : List Task) (u : Task)
    → is_older best u ≡ false
    → is_older (latest_of best ts) u ≡ false
unfolding latest_of
latest_of-kept best [] u h = h
latest_of-kept best (t ∷ ts) u h = elim (Bool-cases (is_older best t)) [
  | inl e ↦ rw e (latest_of-kept t ts u (is_older_trans best t u e h))
  | inr e ↦ rw e (latest_of-kept best ts u h)
]

latest_of-latest :
    (best : Task) (ts : List Task) (u : Task) → In u ts → is_older (latest_of best ts) u ≡ false
unfolding latest_of
latest_of-latest best [] u m = elim m [ ]
latest_of-latest best (t ∷ ts) u m = elim (Bool-cases (is_older best t)) [
  | inl e ↦ rw e (
      In-cons (λ v. is_older (latest_of t ts) v ≡ false) u t ts m
        (latest_of-kept t ts t (is_older_irrefl t)) (latest_of-latest t ts u))
  | inr e ↦ rw e (
      In-cons (λ v. is_older (latest_of best ts) v ≡ false) u t ts m (latest_of-kept best ts t e)
        (latest_of-latest best ts u))
]

latest_of-latest_all :
    (best : Task) (ts : List Task) (u : Task)
    → In u (best ∷ ts)
    → is_older (latest_of best ts) u ≡ false
latest_of-latest_all best ts u m =
    In-cons (λ v. is_older (latest_of best ts) v ≡ false) u best ts m
      (latest_of-kept best ts best (is_older_irrefl best)) (latest_of-latest best ts u)

-- The latest of the artifact's reviewers.
pub record IsLatest (all_tasks : List Task) (repo n : String) (r : Task) : Type 0 where
  pub stored : In r all_tasks
  pub reviews : reviewer_of repo n r ≡ true
  pub latest : (u : Task) → In u all_tasks → reviewer_of repo n u ≡ true → is_older r u ≡ false

latest_in-IsLatest :
    (all_tasks found : List Task) (repo n : String) (r : Task)
    → ((u : Task) → In u found → In u all_tasks × (reviewer_of repo n u ≡ true))
    → ((u : Task) → In u all_tasks → reviewer_of repo n u ≡ true → In u found)
    → latest_in found ≡ some r
    → IsLatest all_tasks repo n r
latest_in-IsLatest all_tasks [] repo n r sound full e = absurd (ground arith)
latest_in-IsLatest all_tasks (t ∷ ts) repo n r sound full e =
    let same : latest_of t ts ≡ r = ground arith in
    let m : In (latest_of t ts) (t ∷ ts) = latest_of-In t ts (t ∷ ts) head (λ u mu. further mu) in
    subst (IsLatest all_tasks repo n) same (record {
      stored = (sound (latest_of t ts) m).0;
      reviews = (sound (latest_of t ts) m).1;
      latest = λ u mu h. latest_of-latest_all t ts u (full u mu h);
    })

latest_reviewer-IsLatest :
    (all_tasks : List Task) (repo n : String) (r : Task)
    → latest_reviewer all_tasks repo n ≡ some r
    → IsLatest all_tasks repo n r
unfolding latest_reviewer
latest_reviewer-IsLatest all_tasks repo n r e =
    latest_in-IsLatest all_tasks (keep (reviewer_of repo n) all_tasks) repo n r
      (λ u m. In-keep (reviewer_of repo n) u all_tasks m)
      (λ u m h. keep-In (reviewer_of repo n) u all_tasks m h) e

-- A passing verdict of the latest reviewer at a head that the landing's title names.
pub record IsPassed (all_tasks : List Task) (repo n title : String) : Type 0 where
  pub reviewer : Task
  pub is_latest : IsLatest all_tasks repo n reviewer
  pub sha : String
  pub verdict : parse_reviewer_verdict (or_else reviewer.result "") ≡ (some "PASS", some sha)
  pub shares : SharesSha sha (named_shas title)

-- No other task of the landing's lane carries the artifact, which is `target`.
abbrev pub IsForeign : List Task → Task → String → Type 0
IsForeign all_tasks t target =
    (u : Task)
    → In u all_tasks
    → u.id ≢ t.id
    → member target u.issues ≡ true
    → strip u.lane_key ≡ strip t.lane_key
    → is_empty (strip t.lane_key) ≡ true

pub record IsCleared (all_tasks : List Task) (t : Task) (repo n : String) : Type 0 where
  pub other_lane : strip t.lane_key ≢ concat repo (concat "!" n)
  pub foreign : IsForeign all_tasks t (concat repo (concat "!" n))
  pub passed : IsPassed all_tasks repo n t.title

verdict_hold-none :
    (target reviewer_id : String) (named : List String) (verdict sha : Option String)
    → verdict_hold target named (verdict, sha, reviewer_id) ≡ none
    → (s : String) × (verdict ≡ some "PASS") × (sha ≡ some s) × (any_sha s named ≡ true)
unfolding verdict_hold
verdict_hold-none target reviewer_id named none sha e = absurd (ground arith)
verdict_hold-none target reviewer_id named (some word) none e = absurd (ground arith)
verdict_hold-none target reviewer_id named (some word) (some s) e =
    (s, ap some ((eq_iff word "PASS").0 (ground arith)), refl, ground arith)

verdict_hold-IsPassed :
    (all_tasks : List Task) (repo n target title : String)
    → verdict_hold target (named_shas title) (latest_reviewer_verdict all_tasks repo n) ≡ none
    → IsPassed all_tasks repo n title
unfolding latest_reviewer_verdict verdict_hold
verdict_hold-IsPassed all_tasks repo n target title e =
    elim (Option-cases (latest_reviewer all_tasks repo n)) [
      | inl absent ↦
          absurd (ground (arith, rw (absent, latest_reviewer_verdict, verdict_hold) at e))
      | inr (r, there) ↦
          let v : Option String × Option String = parse_reviewer_verdict (or_else r.result "") in
          let (sha, passed, pinned, found) =
            verdict_hold-none target r.id (named_shas title) v.0 v.1
              (rw (there, latest_reviewer_verdict) at e) in
          record {
            reviewer = r;
            is_latest = latest_reviewer-IsLatest all_tasks repo n r there;
            sha = sha;
            verdict = ground (arith, passed, pinned);
            shares = any_sha-SharesSha sha (named_shas title) found;
          }
    ]

member-map :
    (f : Task → String) (u : Task) (us : List Task) → In u us → member (f u) (map f us) ≡ true
unfolding member
member-map f u [] m = elim m [ ]
member-map f u (v ∷ vs) head = rw (eq_refl (f u)) refl
member-map f u (v ∷ vs) (further m) = ground (arith, member-map f u vs m)

authoring_lanes-IsForeign :
    (all_tasks : List Task) (t : Task) (repo n : String)
    → (not (is_empty (strip t.lane_key))
        && member (strip t.lane_key) (authoring_lanes all_tasks repo n t.id))
      ≡ false
    → IsForeign all_tasks t (concat repo (concat "!" n))
unfolding authoring_lanes is_author
authoring_lanes-IsForeign all_tasks t repo n e u m other carries same =
    elim (Bool-cases (is_empty (strip t.lane_key))) [
      | inl blank ↦ blank
      | inr named ↦
          let reference : String = concat repo (concat "!" n) in
          let author : is_author reference t.id u ≡ true =
            ground (arith, eq_iff u.id t.id, ap is_empty same) in
          let lane : member (strip u.lane_key) (authoring_lanes all_tasks repo n t.id) ≡ true =
            member-map (λ v. strip v.lane_key) u (keep (is_author reference t.id) all_tasks)
              (keep-In (is_author reference t.id) u all_tasks m author) in
          absurd (
            ground (
              arith,
              subst (λ k. member k (authoring_lanes all_tasks repo n t.id) ≡ true) same lane,
            ))
    ]

hold-IsCleared :
    (all_tasks : List Task) (t : Task) (repo n : String)
    → landing_artifact t ≡ some (repo, n)
    → hold all_tasks t ≡ none
    → IsCleared all_tasks t repo n
unfolding hold
hold-IsCleared all_tasks t repo n artifact e =
    let target : String = concat repo (concat "!" n) in
    elim (Bool-cases (strip t.lane_key == target)) [
      | inl own ↦ absurd (ground (arith, rw (artifact, own, hold) at e))
      | inr differs ↦
          elim (Bool-cases (
            not (is_empty (strip t.lane_key))
            && member (strip t.lane_key) (authoring_lanes all_tasks repo n t.id))) [
              | inl author ↦ absurd (ground (arith, rw (artifact, differs, author, hold) at e))
              | inr free ↦ record {
                other_lane = λ same. absurd (ground (arith, eq_iff (strip t.lane_key) target));
                foreign = authoring_lanes-IsForeign all_tasks t repo n free;
                passed =
                    verdict_hold-IsPassed all_tasks repo n target t.title
                      (rw (artifact, differs, free, hold) at e);
              }
            ]
    ]

-- A round of `trigger_pending_tasks` that promotes a landing task finds it pending, with its
-- dependencies met, and cleared: its lane is not the artifact's own, no other task of a lane of its
-- name (if it has one) carries the artifact, and the latest of the artifact's completed reviewers
-- gave PASS at a sha that agrees with one in the landing's title.
pub promotion-IsCleared :
    (message : Hold → String) (all_tasks : List Task) (now : ℕ) (t : Task) (repo n : String)
    → landing_artifact t ≡ some (repo, n)
    → (promotion (hold_reason message) all_tasks now t).1 ≡ 1
    → (is_pending t.status ≡ true)
      × (dependencies_met all_tasks t ≡ true)
      × IsCleared all_tasks t repo n
unfolding promotion hold_reason
promotion-IsCleared message all_tasks now t repo n artifact e =
    elim (Bool-cases (is_pending t.status)) [
      | inr started ↦ absurd (ground (arith, rw (started, promotion) at e))
      | inl waiting ↦ elim (Bool-cases (dependencies_met all_tasks t)) [
        | inr unmet ↦ absurd (ground (arith, rw (waiting, unmet, promotion) at e))
        | inl met ↦ elim (Option-cases (hold all_tasks t)) [
          | inr (reason, held) ↦
              absurd (ground (arith, rw (waiting, met, held, promotion, hold_reason) at e))
          | inl free ↦ (waiting, met, hold-IsCleared all_tasks t repo n artifact free)
        ]
      ]
    ]
