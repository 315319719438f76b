-- ===== src/DeliverableGuard.antt =====
-- hermes_cluster/core/deliverable_guard.py: what is no deliverable of a worker. The patterns are those
-- of Regex, and a text is white space as in Prelude/Text.
pub mod Echo
use hermes_agent_cluster.Prelude.{
  ℕ, zero, suc, ◌+◌, ◌-◌, String, Bool, true, false, not, ◌&&◌, ◌||◌, Option, none, some, List, [],
  ◌∷◌, ltb, if◌then◌else◌, is_empty, is_space, is_some, strip, strip_left,
}
use hermes_agent_cluster.Regex.{Item, match_start, search_from}
use hermes_agent_cluster.Landing.Text.{literal, digits, contains}

-- `re.IGNORECASE`
abbrev folded : String → Item
folded text = Item.words false true (text ∷ [])

abbrev one_space : Item
one_space = Item.run false true is_space 1 (some 1)

-- `_PROVIDER_SHAPE`, behind its `^`
abbrev pub provider_shape : List Item
provider_shape = folded "api call failed after " ∷ digits ∷ folded " retries:" ∷ one_space ∷ []

-- `_NO_TURN_LINE`
abbrev no_turn_line : List Item
no_turn_line =
    literal "Session "
    ∷ Item.run false true (λ c. not (is_space c)) 1 none
    ∷ literal " found but has no messages. Starting fresh."
    ∷ []

unfoldable pub without_space : String → String
without_space String.[] = String.[]
without_space (String.◌∷◌ c s) =
    let rest = without_space s in if is_space c then rest else String.◌∷◌ c rest

-- `_flat`
abbrev pub flat : (String → String) → String → String
flat lower s = lower (without_space s)

abbrev pub echo_trim_budget : ℕ
echo_trim_budget = 16

abbrev pub echo_min_flat : ℕ
echo_min_flat = 120

unfoldable pub text_length : String → ℕ
text_length String.[] = 0
text_length (String.◌∷◌ c s) = text_length s + 1

-- `s[n:]`
unfoldable pub text_from : ℕ → String → String
text_from zero s = s
text_from (suc n) String.[] = String.[]
text_from (suc n) (String.◌∷◌ c s) = text_from n s

-- `s[:n]`
unfoldable pub text_to : ℕ → String → String
text_to zero s = String.[]
text_to (suc n) String.[] = String.[]
text_to (suc n) (String.◌∷◌ c s) = String.◌∷◌ c (text_to n s)

-- `head[: len(head) - tail] if tail else head`. A head that the loop meets has more characters than
-- the budget, so the difference is not below 0.
unfoldable pub core_of : String → ℕ → String
core_of head tail = text_to (text_length head - tail) head

-- The loop over `range`, from `tail`, for `rounds` rounds.
unfoldable pub echo_tails : String → String → ℕ → ℕ → Bool
echo_tails head brief tail zero = false
echo_tails head brief tail (suc rounds) =
    let rest = echo_tails head brief (tail + 1) rounds in
    let core = core_of head tail in
    if not (is_empty core) && contains core brief then true else rest

unfoldable pub echo_leads : String → String → ℕ → ℕ → Bool
echo_leads body brief lead zero = false
echo_leads body brief lead (suc rounds) =
    let rest = echo_leads body brief (lead + 1) rounds in
    let head = text_from lead body in
    if is_empty head
    then false
    else if echo_tails head brief 0 (echo_trim_budget + 1)
    then true
    else rest

unfoldable pub is_echo_of_brief : (String → String) → String → String → Bool
is_echo_of_brief lower content brief_text =
    let brief = flat lower brief_text in
    let body = flat lower content in
    if ltb (text_length body) echo_min_flat || ltb (text_length brief) echo_min_flat
    then false
    else echo_leads body brief 0 (echo_trim_budget + 1)

-- `_PROVIDER_SHAPE.search(content)` tries the start alone: `^` without `re.MULTILINE`.
unfoldable pub is_provider_shape : String → Bool → Bool
is_provider_shape content is_error_response =
    if is_some (match_start provider_shape (strip_left content))
    then true
    else if is_error_response
    then is_some (match_start provider_shape content)
    else false

unfoldable pub classify_non_deliverable : (String → String) → String → String → Bool → Option String
classify_non_deliverable lower content brief_text is_error_response =
    if is_empty content || is_empty (strip content)
    then none
    else if is_provider_shape content is_error_response
    then some "provider_error"
    else if is_echo_of_brief lower content brief_text
    then some "brief_echo"
    else none

unfoldable pub has_no_turn_stderr : String → Bool
has_no_turn_stderr stderr_text =
    not (is_empty stderr_text) && is_some (search_from no_turn_line none stderr_text)
