-- ===== src/Ballot/Answers.antt =====
-- One decision, one record: what `record_answer` of hermes_cluster/core/ballot.py does.
use hermes_agent_cluster.Prelude.{
  ℕ, zero, suc, ◌≤◌, ◌≡◌, String, true, Option, some, arith, Bool-cases, Option-cases, inl, inr,
}
use hermes_agent_cluster.Ballot.{
  Ballot, BallotError, raised, valid, text_len, take_text, max_answer, validate_answer, has_answer,
  record_answer,
}

-- An answer that may be stored: trimmed text, not empty and within the limit.
pub record IsAnswer (answer : Option String) : Type 0 where
  pub given : has_answer answer ≡ true
  pub bounded : (a : String) → answer ≡ some a → text_len a ≤ max_answer

validate_answer-IsAnswer : (raw a : String) → validate_answer raw ≡ some a → IsAnswer (some a)
unfolding validate_answer
validate_answer-IsAnswer raw a e = record { given = ground arith; bounded = λ b same. ground arith }

take_text-bound : (n : ℕ) (s : String) → text_len (take_text n s) ≤ n
unfolding take_text text_len
take_text-bound zero s = omega arith
take_text-bound (suc n) String.[] = omega arith
take_text-bound (suc n) (String.◌∷◌ c s) = omega (arith, take_text-bound n s)

-- A recorded ballot holds an answer within its limits, leaves the question and the options as
-- they were, and takes no second answer, whoever gives it.
pub record_answer-once :
    (ballot recorded : Ballot) (answer answered_by now : String)
    → record_answer ballot answer answered_by now ≡ valid recorded
    → IsAnswer recorded.answer
      × (text_len recorded.answered_by ≤ 120)
      × (recorded.question ≡ ballot.question)
      × (recorded.options ≡ ballot.options)
      × ((late by when : String)
          → record_answer recorded late by when ≡ raised BallotError.already_answered)
unfolding record_answer
record_answer-once ballot recorded answer answered_by now e =
    elim (Bool-cases (has_answer ballot.answer)) [
      | inl taken ↦ absurd (ground arith)
      | inr unanswered ↦ elim (Option-cases (validate_answer answer)) [
        | inl bad ↦ absurd (ground arith)
        | inr (clean, good) ↦
            let v : IsAnswer (some clean) = validate_answer-IsAnswer answer clean good in
            let stored : recorded.answer ≡ some clean = ground arith in
            (
              rw stored v,
              ground (arith, take_text-bound 120 answered_by),
              ground arith,
              ground arith,
              λ late by when. let g = v.given in ground arith,
            )
      ]
    ]
