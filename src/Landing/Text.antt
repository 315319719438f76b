-- ===== src/Landing/Text.antt =====
-- The patterns of core/landing_gate.py, and the methods of `str` that it takes names apart with.
use Prim.Native.Char.{Char}
use hermes_agent_cluster.Prelude.{
  String, Bool, true, false, not, ◌||◌, Option, none, some, List, [], ◌∷◌, if◌then◌else◌, concat,
  is_empty, is_some, after_prefix, lower_char, is_char_of, is_digit, is_letter, is_hex,
  is_word_char, is_space,
}
use hermes_agent_cluster.Regex.{Item, run, words, text_end, boundary, not_behind, not_ahead}

-- A literal text, and the classes with their usual bounds.
abbrev pub literal : String → Item
literal text = words false false (text ∷ [])

abbrev pub digits : Item
digits = run true true is_digit 1 none

abbrev spaces : Item
spaces = run false true is_space 0 none

abbrev stars : Item
stars = run false true (is_char_of "*") 0 (some 2)

unfoldable pub is_any : Char → Bool
is_any c = not (is_char_of "\n" c)

unfoldable pub is_symbol : Char → Bool
is_symbol c = not (is_word_char c)

unfoldable pub is_ref_char : Char → Bool
is_ref_char c = is_word_char c || is_char_of "./-" c

unfoldable pub is_no_letter : Char → Bool
is_no_letter c = not (is_letter c)

-- `[0-9a-f]` under `re.IGNORECASE`
unfoldable pub is_hex_letter : Char → Bool
is_hex_letter c = is_hex (lower_char c)

-- `_LAND_LANE_RE`
abbrev pub land_lane_pattern : List Item
land_lane_pattern = run true true is_any 1 none ∷ literal "#land-" ∷ digits ∷ text_end ∷ []

-- `_LAND_TITLE_RE`
abbrev pub land_title_pattern : List Item
land_title_pattern =
    run false true is_symbol 0 none ∷ words true true ("land" ∷ "landing" ∷ []) ∷ boundary ∷ []

-- `([\w./-]+)!(\d+)`
abbrev pub title_ref_pattern : List Item
title_ref_pattern = run true true is_ref_char 1 none ∷ literal "!" ∷ digits ∷ []

-- `_SHA_RE`
abbrev pub sha_pattern : List Item
sha_pattern = not_behind is_hex ∷ run true true is_hex 7 (some 40) ∷ not_ahead is_hex ∷ []

-- `_VERDICT_RE`
abbrev pub verdict_pattern : List Item
verdict_pattern =
    words false true ("verdict" ∷ [])
    ∷ run false true is_no_letter 0 (some 4)
    ∷ stars
    ∷ spaces
    ∷ run false true (is_char_of ":") 0 (some 1)
    ∷ spaces
    ∷ stars
    ∷ spaces
    ∷ words true true
        ("pass" ∷ "needs-changes" ∷ "needs_changes" ∷ "needs-human" ∷ "incomplete-roster" ∷ [])
    ∷ []

-- `_VERDICT_SHA_RE`
abbrev pub verdict_sha_pattern : List Item
verdict_sha_pattern =
    words false true ("sha" ∷ "head sha" ∷ "head" ∷ [])
    ∷ stars
    ∷ spaces
    ∷ run false true is_letter 0 (some 12)
    ∷ stars
    ∷ spaces
    ∷ run false true (is_char_of ":") 0 (some 1)
    ∷ spaces
    ∷ stars
    ∷ spaces
    ∷ run false false (is_char_of ":") 0 (some 1)
    ∷ spaces
    ∷ run false true (is_char_of "*") 0 none
    ∷ spaces
    ∷ run false true (is_char_of "`") 0 (some 1)
    ∷ run true true is_hex_letter 7 (some 40)
    ∷ run false true (is_char_of "`") 0 (some 1)
    ∷ []

-- `^(\d+)`
abbrev pub number_pattern : List Item
number_pattern = digits ∷ []

-- `(?:repo|tail)!n\b`
abbrev pub artifact_ref_pattern : String → String → String → List Item
artifact_ref_pattern repo tail n =
    words false false (repo ∷ tail ∷ []) ∷ literal (concat "!" n) ∷ boundary ∷ []

-- `\b(?:MR|PR)\s*[#!]?\s*n\b`
abbrev pub bundle_ref_pattern : String → List Item
bundle_ref_pattern n =
    boundary
    ∷ words false false ("MR" ∷ "PR" ∷ [])
    ∷ spaces
    ∷ run false true (is_char_of "#!") 0 (some 1)
    ∷ spaces
    ∷ literal n
    ∷ boundary
    ∷ []

-- `s.rstrip("/")`
unfoldable pub strip_slashes : String → String
strip_slashes String.[] = String.[]
strip_slashes (String.◌∷◌ c s) =
    let rest = strip_slashes s in
    if is_empty rest
    then if is_char_of "/" c then String.[] else String.◌∷◌ c String.[]
    else String.◌∷◌ c rest

-- `s.split("/")[-1]`: `none` if there is no slash.
unfoldable pub after_slash : String → Option String
after_slash String.[] = none
after_slash (String.◌∷◌ c s) = elim (after_slash s) [
  | some tail ↦ some tail
  | none ↦ if is_char_of "/" c then some s else none
]

unfoldable pub last_part : String → String
last_part s = elim (after_slash s) [ none ↦ s | some tail ↦ tail ]

-- `repo.rstrip("/").split("/")[-1]`
unfoldable pub repo_tail : String → String
repo_tail repo = last_part (strip_slashes repo)

-- The parts of `lane.partition("!")`.
unfoldable pub before_mark : String → String
before_mark String.[] = String.[]
before_mark (String.◌∷◌ c s) =
    let rest = before_mark s in if is_char_of "!" c then String.[] else String.◌∷◌ c rest

unfoldable pub after_mark : String → String
after_mark String.[] = String.[]
after_mark (String.◌∷◌ c s) = if is_char_of "!" c then s else after_mark s

-- `part in s`
unfoldable pub contains : String → String → Bool
contains part String.[] = is_empty part
contains part (String.◌∷◌ c s) = is_some (after_prefix part (String.◌∷◌ c s)) || contains part s

-- `s.replace("_", "-")`
unfoldable pub dashed : String → String
dashed String.[] = String.[]
dashed (String.◌∷◌ c s) =
    if is_char_of "_" c then concat "-" (dashed s) else String.◌∷◌ c (dashed s)
