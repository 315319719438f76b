-- ===== src/Examples/Guards.antt =====
-- Tests and witnesses of the deliverable guard.
use hermes_agent_cluster.Prelude.{
  ◌≡◌, ◌≤◌, refl, some, false, true, String, strip, strip_right, strip_left, is_space, lower,
  lower_char, paired, same_char, after_prefix,
}
use hermes_agent_cluster.Regex.{match_start, matches, words_from, word_from, run_from}
use hermes_agent_cluster.Landing.Text.{contains}
use hermes_agent_cluster.DeliverableGuard.{
  classify_non_deliverable, is_provider_shape, is_echo_of_brief, echo_leads, echo_tails, core_of,
  text_from, text_to, text_length, without_space, flat,
}
use hermes_agent_cluster.DeliverableGuard.Echo.{IsTrimmedEcho, classify-echo, classify-flag}

abbrev brief : String
brief =
    "Review the merge request 926 of the repository of plugins, run every test of it twice, then write the verdict with the head and the reasons to the result file."

-- The brief, cut in its first word.
abbrev echo : String
echo =
    "`eview the merge request 926 of the repository of plugins, run every test of it twice, then write the verdict with the head and the reasons to the result file."

echo-refused : classify_non_deliverable lower echo brief false ≡ some "brief_echo"
unfolding strip strip_right strip_left is_space lower lower_char paired same_char after_prefix
    match_start matches words_from word_from run_from contains classify_non_deliverable
    is_provider_shape is_echo_of_brief echo_leads echo_tails core_of text_from text_to text_length
    without_space
echo-refused = refl

classify-echo_example :
    (120 ≤ text_length (flat lower echo))
    × (120 ≤ text_length (flat lower brief))
    × IsTrimmedEcho (flat lower echo) (flat lower brief)
classify-echo_example = classify-echo lower echo brief false echo-refused

classify-flag_example :
    classify_non_deliverable lower "Note: API call failed after 3 retries: timeout" brief true
    ≡ classify_non_deliverable lower "Note: API call failed after 3 retries: timeout" brief false
classify-flag_example = classify-flag lower "Note: API call failed after 3 retries: timeout" brief
