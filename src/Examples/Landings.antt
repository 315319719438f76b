-- ===== src/Examples/Landings.antt =====
-- Tests and witnesses of the landing gate.
use hermes_agent_cluster.Prelude.{
  ◌≡◌, refl, some, none, true, [], ◌∷◌, String, List, or_else, strip, strip_right, strip_left,
  is_space, concat, is_hex, is_letter, is_word_char, lower, lower_char, paired, same_char, upper,
  upper_char, keep, member, after_prefix, is_char_of, is_digit, all_of,
}
use hermes_agent_cluster.Table.{has}
use hermes_agent_cluster.Models.{Task, TaskStatus, task_key, is_pending}
use hermes_agent_cluster.State.{ClusterState}
use hermes_agent_cluster.State.Tasks.Promotion.{dependencies_met, promotion}
use hermes_agent_cluster.State.Tasks.Promotion as Memory
use hermes_agent_cluster.Store.Schedule as Rows
use hermes_agent_cluster.Store.Mirror.{view}
use hermes_agent_cluster.Store.Mirror.Leases.{both}
use hermes_agent_cluster.Store.Mirror.Promotion.{trigger_pending_tasks-agrees}
use hermes_agent_cluster.Regex.{
  find_all, search_from, match_start, matches, run_from, words_from, word_from, is_text_end,
}
use hermes_agent_cluster.Landing.Text.{
  is_any, after_mark, after_slash, before_mark, contains, dashed, is_hex_letter, is_no_letter,
  is_ref_char, is_symbol, last_part, repo_tail, strip_slashes,
}
use hermes_agent_cluster.Landing.{
  any_sha, authoring_lanes, is_author, is_older, lane_names, latest_of, latest_reviewer,
  latest_reviewer_verdict, reviewer_of, same_sha, title_names, title_ref, verdict_hold, hold,
  landing_artifact, land_lane, named_shas, parse_reviewer_verdict, Hold, hold_reason,
}
use hermes_agent_cluster.Landing.Lanes.{every, land_lane-written}
use hermes_agent_cluster.Landing.Cleared.{IsCleared, promotion-IsCleared}
use hermes_agent_cluster.Examples.{distinct, distinct-IsKeyed, sample_task, sample_state}

abbrev landing : Task
landing = record (sample_task "task_l" TaskStatus.pending "acme#land-7" []) {
  title = "LANDING acme!7 at 37935ca0";
}

abbrev review : Task
review = record (sample_task "task_r" TaskStatus.completed "group/acme!7-rev2" []) {
  role = "Reviewer";
  result = some "**Verdict:** needs_changes, Verdict: PASS\n**Head SHA reviewed:** `37935CA094`";
}

abbrev board : List Task
board = landing ∷ review ∷ []

-- The lane or the title names the artifact; the last verdict and the last head count.
landing-test :
    (landing_artifact landing ≡ some ("acme", "7"))
    × (landing_artifact (record landing { lane_key = "" }) ≡ some ("acme", "7"))
    × (parse_reviewer_verdict (or_else review.result "") ≡ (some "PASS", some "37935ca094"))
    × (hold board landing ≡ none)
    × (hold (landing ∷ []) landing ≡ some (Hold.no_verdict "acme!7"))
unfolding strip strip_right strip_left is_space concat is_hex is_letter is_word_char lower
    lower_char paired same_char upper upper_char keep member after_prefix is_char_of is_digit all_of
    is_any after_mark after_slash before_mark contains dashed is_hex_letter is_no_letter is_ref_char
    is_symbol last_part repo_tail strip_slashes any_sha authoring_lanes is_author is_older
    lane_names latest_of latest_reviewer latest_reviewer_verdict reviewer_of same_sha title_names
    title_ref verdict_hold hold landing_artifact land_lane named_shas parse_reviewer_verdict
    find_all search_from match_start matches run_from words_from word_from is_text_end
landing-test = (refl, refl, refl, refl, refl)

abbrev message : Hold → String
message reason = "held"

promoted : (promotion (hold_reason message) board 9 landing).1 ≡ 1
unfolding promotion dependencies_met all_of hold_reason
promoted = rw (landing-test.3, hold_reason) refl

promotion-IsCleared_example :
    (is_pending landing.status ≡ true)
    × (dependencies_met board landing ≡ true)
    × IsCleared board landing "acme" "7"
promotion-IsCleared_example =
    promotion-IsCleared message board 9 landing "acme" "7" landing-test.0 promoted

repo_test : every is_any "acme/app" ≡ true
unfolding every is_any is_char_of same_char
repo_test = refl

digits_test : every is_digit "7" ≡ true
unfolding every is_digit
digits_test = refl

land_lane-written_example :
    land_lane (concat "acme/app" (concat "#land-" "7")) ≡ some (strip "acme/app", "7")
land_lane-written_example = land_lane-written "acme/app" "7" repo_test refl digits_test refl

abbrev board_state : ClusterState
board_state = record sample_state { tasks = board }

trigger_pending_tasks-agrees_example :
    Rows.trigger_pending_tasks message 9 (view board_state)
    ≡ both (Memory.trigger_pending_tasks (hold_reason message) board_state 9)
unfolding distinct has
trigger_pending_tasks-agrees_example =
    trigger_pending_tasks-agrees message 9 (λ h. refl) board_state
      (distinct-IsKeyed task_key board refl)
