-- ===== src/Landing.antt =====
-- hermes_cluster/core/landing_gate.py: which tasks are landings, what the reviewers of an artifact
-- said, and why a landing is held.
pub mod Text
pub mod Cleared
pub mod Lanes
use hermes_agent_cluster.Prelude.{
  ℕ, String, Bool, true, false, not, ◌&&◌, ◌||◌, Option, none, some, List, [], ◌∷◌, map, ltb, ◌==◌,
  if◌then◌else◌, is_empty, strip, concat, lower, upper, or_else, is_some, keep, member,
  after_prefix,
}
use hermes_agent_cluster.Regex.{match_start, search_from, find_all}
use hermes_agent_cluster.Models.{Task, is_completed}
use hermes_agent_cluster.Landing.Text.{
  land_lane_pattern, land_title_pattern, title_ref_pattern, sha_pattern, verdict_pattern,
  verdict_sha_pattern, number_pattern, artifact_ref_pattern, bundle_ref_pattern, repo_tail,
  strip_slashes, before_mark, after_mark, contains, dashed,
}

-- The two groups of a pattern.
abbrev pair_of : Option (List String) → Option (String × String)
pair_of (some (repo ∷ n ∷ [])) = some (repo, n)
pair_of _ = none

abbrev one_of : Option (List String) → Option String
one_of (some (n ∷ [])) = some n
one_of _ = none

-- `hits[-1]`, of the first group of each hit
abbrev pub last_group : List (List String) → Option String
last_group [] = none
last_group ((text ∷ groups) ∷ []) = some text
last_group ([] ∷ []) = none
last_group (hit ∷ next ∷ hits) = last_group (next ∷ hits)

abbrev pub first_groups : List (List String) → List String
first_groups [] = []
first_groups ([] ∷ hits) = first_groups hits
first_groups ((text ∷ groups) ∷ hits) = text ∷ first_groups hits

unfoldable pub land_lane : String → Option (String × String)
land_lane lane = elim (pair_of (match_start land_lane_pattern lane)) [
  | none ↦ none
  | some (repo, n) ↦ some (strip repo, n)
]

unfoldable pub title_ref : String → Option (String × String)
title_ref title =
    if not (is_some (match_start land_title_pattern (strip title)))
    then none
    else elim (pair_of (search_from title_ref_pattern none title)) [
      | none ↦ none
      | some (repo, n) ↦ some (strip_slashes repo, n)
    ]

unfoldable pub landing_artifact : Task → Option (String × String)
landing_artifact t = elim (land_lane t.lane_key) [
  | some artifact ↦ some artifact
  | none ↦ title_ref t.title
]

unfoldable pub parse_reviewer_verdict : String → Option String × Option String
parse_reviewer_verdict result =
    if is_empty result
    then (none, none)
    else elim (last_group (find_all verdict_pattern 0 none result)) [
      | none ↦ (none, none)
      | some word ↦ (
        some (dashed (upper word)),
        elim (last_group (find_all verdict_sha_pattern 0 none result)) [
          | none ↦ none
          | some sha ↦ some (lower sha)
        ],
      )
    ]

-- `if "!" in lane: ...`: the lane names the artifact.
unfoldable pub lane_names : String → String → String → Bool
lane_names lane tail n =
    contains "!" lane && elim (one_of (match_start number_pattern (after_mark lane))) [
      | none ↦ false
      | some number ↦ number == n && repo_tail (before_mark lane) == tail
    ]

unfoldable pub title_names : String → String → String → String → String → Bool
title_names title lane repo tail n =
    is_some (search_from (artifact_ref_pattern repo tail n) none title)
    || (is_some (search_from (bundle_ref_pattern n) none title)
        && (contains tail lane || contains tail title))

unfoldable pub reviewer_of : String → String → Task → Bool
reviewer_of repo n t =
    (lower (strip t.role) == "reviewer")
    && is_completed t.status
    && (lane_names t.lane_key (repo_tail repo) n
        || title_names t.title t.lane_key repo (repo_tail repo) n)

-- `key(t) < key(u)`; the ISO text of a time orders as the time does.
unfoldable pub is_older : Task → Task → Bool
is_older t u =
    if ltb t.updated_at u.updated_at
    then true
    else if ltb u.updated_at t.updated_at
    then false
    else ltb t.version u.version

-- `max(t ∷ ts, key=key)`: the first of the greatest.
unfoldable pub latest_of : Task → List Task → Task
latest_of best [] = best
latest_of best (t ∷ ts) = latest_of (if is_older best t then t else best) ts

abbrev pub latest_in : List Task → Option Task
latest_in [] = none
latest_in (t ∷ ts) = some (latest_of t ts)

unfoldable pub latest_reviewer : List Task → String → String → Option Task
latest_reviewer all_tasks repo n = latest_in (keep (reviewer_of repo n) all_tasks)

unfoldable pub latest_reviewer_verdict :
    List Task → String → String → Option String × Option String × String
latest_reviewer_verdict all_tasks repo n = elim (latest_reviewer all_tasks repo n) [
  | none ↦ (none, none, "")
  | some t ↦
      let (verdict, sha) = parse_reviewer_verdict (or_else t.result "") in (verdict, sha, t.id)
]

-- Is the lane one of another task that carries the reference?
unfoldable pub is_author : String → String → Task → Bool
is_author reference exclude_task_id t =
    not (t.id == exclude_task_id) && member reference t.issues && not (is_empty (strip t.lane_key))

abbrev task_lane : Task → String
task_lane t = strip t.lane_key

unfoldable pub authoring_lanes : List Task → String → String → String → List String
authoring_lanes all_tasks repo n exclude_task_id =
    map task_lane (keep (is_author (concat repo (concat "!" n)) exclude_task_id) all_tasks)

-- `a.startswith(b) or b.startswith(a)`
unfoldable pub same_sha : String → String → Bool
same_sha a b = is_some (after_prefix b a) || is_some (after_prefix a b)

unfoldable pub any_sha : String → List String → Bool
any_sha sha [] = false
any_sha sha (s ∷ named) = same_sha sha s || any_sha sha named

unfoldable pub named_shas : String → List String
named_shas title = map lower (first_groups (find_all sha_pattern 0 none title))

-- The gate that holds a landing, with the values that its message prints.
pub data Hold : Type 0 where
  is_reviewer_lane : String → String → Hold
  is_author_lane : String → String → Hold
  no_verdict : String → Hold
  not_passed : String → String → String → Hold
  no_sha : String → String → Hold
  other_sha : String → String → String → List String → Hold

abbrev pub sha_hold : String → String → String → List String → Option String → Option Hold
sha_hold target reviewer_id verdict named none = some (no_sha target reviewer_id)
sha_hold target reviewer_id verdict named (some sha) =
    if is_empty sha
    then some (no_sha target reviewer_id)
    else if any_sha sha named
    then none
    else some (other_sha sha target reviewer_id named)

unfoldable pub verdict_hold :
    String → List String → Option String × Option String × String → Option Hold
verdict_hold target named (none, sha, reviewer_id) = some (no_verdict target)
verdict_hold target named (some verdict, sha, reviewer_id) =
    if not (verdict == "PASS")
    then some (not_passed target verdict reviewer_id)
    else sha_hold target reviewer_id verdict named sha

unfoldable pub hold : List Task → Task → Option Hold
hold all_tasks t = elim (landing_artifact t) [
  | none ↦ none
  | some (repo, n) ↦
      let lane : String = strip t.lane_key in
      let target : String = concat repo (concat "!" n) in
      if lane == target
      then some (is_reviewer_lane lane target)
      else if not (is_empty lane) && member lane (authoring_lanes all_tasks repo n t.id)
      then some (is_author_lane lane target)
      else verdict_hold target (named_shas t.title) (latest_reviewer_verdict all_tasks repo n)
]

-- `hold_reason`: the message of the gate. `sorted(named)` goes through a set.
unfoldable pub hold_reason : (Hold → String) → List Task → Task → Option String
hold_reason message all_tasks t = elim (hold all_tasks t) [
  | none ↦ none
  | some reason ↦ some (message reason)
]
