-- ===== src/Ballot.antt =====
-- hermes_cluster/core/ballot.py: decision ballots on the task row. A dict that came from outside may
-- lack a field or hold a value of another type; the model takes the fields at their types, and a
-- missing text as empty.
pub mod Answers
use hermes_agent_cluster.Prelude.{
  ℕ, zero, suc, ◌-◌, String, Bool, true, false, not, ◌&&◌, ◌||◌, Option, none, some, List, [], ◌∷◌,
  map, length, ltb, leb, if◌then◌else◌, is_empty, strip, ◌==◌,
}

-- The stored dict; `class` is spelled `cls`, as the code's own variable is.
pub record Ballot : Type 0 where
  pub question : String
  pub options : List String
  pub cls : String
  pub lane_key : String
  pub asked_at : String
  pub decision_ref : String
  pub decision_id : String
  pub answer : Option String
  pub answered_at : Option String
  pub answered_by : String

abbrev pub max_question : ℕ
max_question = 4000

abbrev pub max_option : ℕ
max_option = 500

abbrev pub max_options : ℕ
max_options = 10

abbrev pub max_answer : ℕ
max_answer = 4000

-- `len(s)`
unfoldable pub text_len : String → ℕ
text_len String.[] = 0
text_len (String.◌∷◌ c s) = suc (text_len s)

-- `s[:n]`
unfoldable pub take_text : ℕ → String → String
take_text zero s = String.[]
take_text (suc n) String.[] = String.[]
take_text (suc n) (String.◌∷◌ c s) = String.◌∷◌ c (take_text n s)

-- The `BallotError`s.
pub data BallotError : Type 0 where
  question_required question_too_long options_required too_many_options : BallotError
  empty_option option_too_long unknown_class asked_at_missing : BallotError
  already_answered invalid_answer : BallotError

pub data Checked : Type 0 where
  raised : BallotError → Checked
  valid : Ballot → Checked

-- The loop over the options: the error of the first bad one.
unfoldable pub option_error : List String → Option BallotError
option_error [] = none
option_error (o ∷ options) =
    let rest = option_error options in
    if is_empty (strip o)
    then some empty_option
    else if ltb max_option (text_len o)
    then some option_too_long
    else rest

abbrev pub default_class : String
default_class = "technical"

-- `b.get("class") or DEFAULT_CLASS`
abbrev pub class_of : Ballot → String
class_of b = if is_empty b.cls then default_class else b.cls

unfoldable pub validate_core : Ballot → Bool → Checked
validate_core b require_asked_at =
    if is_empty (strip b.question)
    then raised question_required
    else if ltb max_question (text_len b.question)
    then raised question_too_long
    else if leb (length b.options) 0
    then raised options_required
    else if ltb max_options (length b.options)
    then raised too_many_options
    else elim (option_error b.options) [
      | some error ↦ raised error
      | none ↦
          if not (class_of b == "technical" || class_of b == "product")
          then raised unknown_class
          else if require_asked_at && is_empty b.asked_at
          then raised asked_at_missing
          else valid (record b { cls = class_of b })
    ]

unfoldable pub validate_ballot : Ballot → Checked
validate_ballot raw = validate_core raw false

unfoldable pub validate_answer : String → Option String
validate_answer raw =
    let a = strip raw in if is_empty a || ltb max_answer (text_len a) then none else some a

-- `ballot.get("answer") not in (None, "")`
abbrev pub has_answer : Option String → Bool
has_answer none = false
has_answer (some answer) = not (is_empty answer)

-- `now` is the text of `_utcnow_iso()`.
unfoldable pub record_answer : Ballot → String → String → String → Checked
record_answer ballot answer answered_by now =
    if has_answer ballot.answer then raised already_answered else elim (validate_answer answer) [
      | none ↦ raised invalid_answer
      | some clean ↦ valid (record ballot {
        answer = some clean;
        answered_at = some now;
        answered_by = take_text 120 answered_by;
      })
    ]
