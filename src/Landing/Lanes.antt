-- ===== src/Landing/Lanes.antt =====
-- The lane keys of landings, `<repo>#land-<n>`, as `_LAND_LANE_RE` of core/landing_gate.py reads them.
use Prim.Native.Char.{Char}
use hermes_agent_cluster.Prelude.{
  ℕ, ◌+◌, ◌-◌, ◌≡◌, refl, ap, String, Bool, true, false, ◌&&◌, Option, none, some, List, [], ◌∷◌,
  arith, inl, inr, Bool-cases, concat, strip, is_empty, same_char, is_digit, if◌then◌else◌,
}
use hermes_agent_cluster.Regex.{
  Item, Match, Rest, text_end, run_from, word_from, words_from, is_text_end, matches, match_start,
}
use hermes_agent_cluster.Landing.Text.{is_any, digits, literal}
use hermes_agent_cluster.Landing.{land_lane}

-- All characters of the text are of the class.
unfoldable pub every : (Char → Bool) → String → Bool
every p String.[] = true
every p (String.◌∷◌ c s) = p c && every p s

abbrev size : String → ℕ
size String.[] = 0
size (String.◌∷◌ c s) = 1 + size s

-- The pattern behind the repository.
abbrev land_tail : List Item
land_tail = literal "#land-" ∷ digits ∷ text_end ∷ []

run_from-digits :
    (before : Option Char) (n : String)
    → every is_digit n ≡ true
    → run_from true is_digit 0 none (matches (text_end ∷ [])) before n ≡ some (n, ([], size n))
unfolding every run_from matches is_text_end
run_from-digits before String.[] h = refl
run_from-digits before (String.◌∷◌ c s) h =
    let rest = run_from-digits (some c) s (ground arith) in ground arith

digits-match :
    (before : Option Char) (n : String)
    → every is_digit n ≡ true
    → is_empty n ≡ false
    → matches (digits ∷ text_end ∷ []) before n ≡ some (n ∷ [], size n)
unfolding every run_from matches
digits-match before String.[] h some_digit = absurd (ground arith)
digits-match before (String.◌∷◌ c s) h some_digit =
    let rest = run_from-digits (some c) s (ground arith) in ground arith

abbrev mark : Char
mark = "#"

is_digit-no_mark : (c : Char) → is_digit c ≡ true → same_char mark c ≡ false
unfolding is_digit same_char
is_digit-no_mark c h = ground arith

unfoldable markless : String → Bool
markless String.[] = true
markless (String.◌∷◌ c s) = if same_char mark c then false else markless s

digits-markless : (n : String) → every is_digit n ≡ true → markless n ≡ true
unfolding every markless
digits-markless String.[] h = refl
digits-markless (String.◌∷◌ c s) h = ground (arith, is_digit-no_mark c, digits-markless s)

word_from-none :
    (d c : Char) (word s : String) (k : Rest) (before : Option Char)
    → same_char d c ≡ false
    → word_from false (String.◌∷◌ d word) k before (String.◌∷◌ c s) ≡ none
unfolding word_from
word_from-none d c word s k before h = rw h refl

land_tail-none :
    (before : Option Char) (s : String) → markless s ≡ true → matches land_tail before s ≡ none
unfolding matches words_from word_from markless
land_tail-none before String.[] h = refl
land_tail-none before (String.◌∷◌ c s) h =
    let miss : same_char mark c ≡ false = ground arith in
    rw (miss, matches, words_from, word_from) refl

run-markless :
    (lo : ℕ) (before : Option Char) (s : String)
    → markless s ≡ true
    → run_from true is_any lo none (matches land_tail) before s ≡ none
unfolding run_from markless
run-markless lo before String.[] h = rw (land_tail-none before String.[] h) (ground arith)
run-markless lo before (String.◌∷◌ c s) h =
    let rest = run-markless (lo - 1) (some c) s (ground arith) in
    let stop = land_tail-none before (String.◌∷◌ c s) h in ground arith

land_tail-match :
    (before : Option Char) (n : String)
    → every is_digit n ≡ true
    → is_empty n ≡ false
    → matches land_tail before (concat "#land-" n) ≡ some (n ∷ [], 6 + size n)
unfolding matches words_from word_from concat same_char
land_tail-match before n h some_digit =
    rw (digits-match (some "-") n h some_digit, matches, words_from, word_from)
      (ap (λ k. some (n ∷ [], k)) (omega arith))

tail-markless : (n : String) → every is_digit n ≡ true → markless (concat "land-" n) ≡ true
unfolding markless concat same_char
tail-markless n h = digits-markless n h

same_size :
    (n : String)
    → ◌≡◌ {A = Option (String × Match)}
        (some ("", (n ∷ [], 6 + size n)))
        (some ("", (n ∷ [], 0 + (6 + size n))))
same_size n = ap (λ k. some ("", (n ∷ [], k))) (omega arith)

run-repo :
    (before : Option Char) (repo n : String)
    → every is_any repo ≡ true
    → every is_digit n ≡ true
    → is_empty n ≡ false
    → run_from true is_any 0 none (matches land_tail) before (concat repo (concat "#land-" n))
      ≡ some (repo, (n ∷ [], size repo + (6 + size n)))
unfolding run_from every concat
run-repo before String.[] n hr hn some_digit =
    let none_later = run-markless 0 (some mark) (concat "land-" n) (tail-markless n hn) in
    let stop = land_tail-match before n hn some_digit in
    rw (none_later, stop)
      (elim (Bool-cases (is_any mark)) [ inl e ↦ rw e (same_size n) | inr e ↦ rw e (same_size n) ])
run-repo before (String.◌∷◌ c repo) n hr hn some_digit =
    let rest = run-repo (some c) repo n (ground arith) hn some_digit in
    let fits : is_any c ≡ true = ground arith in
    rw (rest, fits) (ap (λ k. some (String.◌∷◌ c repo, (n ∷ [], k))) (omega arith))

run-land_lane :
    (before : Option Char) (repo n : String)
    → every is_any repo ≡ true
    → is_empty repo ≡ false
    → every is_digit n ≡ true
    → is_empty n ≡ false
    → run_from true is_any 1 none (matches land_tail) before (concat repo (concat "#land-" n))
      ≡ some (repo, (n ∷ [], size repo + (6 + size n)))
unfolding run_from every concat
run-land_lane before String.[] n hr some_repo hn some_digit = absurd (ground arith)
run-land_lane before (String.◌∷◌ c repo) n hr some_repo hn some_digit =
    let rest = run-repo (some c) repo n (ground arith) hn some_digit in
    let fits : is_any c ≡ true = ground arith in
    rw (rest, fits) (ap (λ k. some (String.◌∷◌ c repo, (n ∷ [], k))) (omega arith))

-- A repository and a number come back from the landing lane that is written with them, if the
-- repository is not empty and has no line break, and the number is one or more ASCII digits; white
-- space at the repository's ends is dropped. The repository may itself have a `#land-`.
pub land_lane-written :
    (repo n : String)
    → every is_any repo ≡ true
    → is_empty repo ≡ false
    → every is_digit n ≡ true
    → is_empty n ≡ false
    → land_lane (concat repo (concat "#land-" n)) ≡ some (strip repo, n)
unfolding land_lane match_start matches
land_lane-written repo n hr some_repo hn some_digit =
    let found = run-land_lane none repo n hr some_repo hn some_digit in
    rw (found, land_lane, match_start, matches) refl
