-- ===== src/Regex.antt =====
-- Python's `re`, as far as core/landing_gate.py uses it: a pattern is a sequence of items, matched by
-- backtracking in the order of `re`. The items are runs of a class of characters (greedy or lazy,
-- with bounds), alternatives of literal texts, and the assertions `$`, `\b`, `(?<!...)`, `(?!...)`.
use Prim.Native.Char.{Char}
use hermes_agent_cluster.Prelude.{
  ℕ, zero, suc, ◌-◌, String, Bool, true, false, not, ◌&&◌, Option, none, some, List, [], ◌∷◌, leb,
  if◌then◌else◌, same_char, lower_char, is_char_of, is_word_char,
}

pub data Item : Type 0 where
  -- `[...]{lo,hi}`: kept as a group or not, greedy or lazy; no upper bound for `none`.
  run : Bool → Bool → (Char → Bool) → ℕ → Option ℕ → Item
  -- `(a|b|...)`: kept as a group or not, with `re.IGNORECASE` or not.
  words : Bool → Bool → List String → Item
  text_end : Item
  boundary : Item
  not_behind : (Char → Bool) → Item
  not_ahead : (Char → Bool) → Item

-- The groups of a match, and the number of characters it covers.
abbrev pub Match : Type 0
Match = List String × ℕ

-- What the rest of the pattern does behind a character and before a text.
abbrev pub Rest : Type 0
Rest = Option Char → String → Option Match

abbrev pub first_of {ℓ} : {A : Type ℓ} → Option A → Option A → Option A
first_of (some a) other = some a
first_of none other = other

-- The text that an item took is beside the match of the rest.
abbrev untaken : Option Match → Option (String × Match)
untaken none = none
untaken (some (groups, used)) = some (String.[], (groups, used))

abbrev took : Char → Option (String × Match) → Option (String × Match)
took c none = none
took c (some (text, (groups, used))) = some (String.◌∷◌ c text, (groups, suc used))

abbrev group_if : Bool → Option (String × Match) → Option Match
group_if kept none = none
group_if true (some (text, (groups, used))) = some (text ∷ groups, used)
group_if false (some (text, (groups, used))) = some (groups, used)

abbrev allows : Option ℕ → Bool
allows none = true
allows (some hi) = leb 1 hi

abbrev one_less : Option ℕ → Option ℕ
one_less none = none
one_less (some hi) = some (hi - 1)

unfoldable pub run_from :
    Bool → (Char → Bool) → ℕ → Option ℕ → Rest → Option Char → String → Option (String × Match)
run_from greedy p lo hi k before String.[] = if leb lo 0 then untaken (k before String.[]) else none
run_from greedy p lo hi k before (String.◌∷◌ c s) =
    let rest = run_from greedy p (lo - 1) (one_less hi) k (some c) s in
    let more = if p c && allows hi then took c rest else none in
    let stop = if leb lo 0 then untaken (k before (String.◌∷◌ c s)) else none in
    if greedy then first_of more stop else first_of stop more

-- With `re.IGNORECASE` the letters of the pattern are written small.
abbrev same_letter : Bool → Char → Char → Bool
same_letter true c d = same_char c (lower_char d)
same_letter false c d = same_char c d

unfoldable pub word_from : Bool → String → Rest → Option Char → String → Option (String × Match)
word_from fold String.[] k before s = untaken (k before s)
word_from fold (String.◌∷◌ c word) k before String.[] = none
word_from fold (String.◌∷◌ c word) k before (String.◌∷◌ d s) =
    let rest = word_from fold word k (some d) s in
    if same_letter fold c d then took d rest else none

unfoldable pub words_from :
    Bool → List String → Rest → Option Char → String → Option (String × Match)
words_from fold [] k before s = none
words_from fold (word ∷ more) k before s =
    first_of (word_from fold word k before s) (words_from fold more k before s)

abbrev is_at : (Char → Bool) → Option Char → Bool
is_at p none = false
is_at p (some c) = p c

abbrev next_char : String → Option Char
next_char String.[] = none
next_char (String.◌∷◌ c s) = some c

-- `$` holds at the end, and before a line break that ends the text.
unfoldable pub is_text_end : String → Bool
is_text_end String.[] = true
is_text_end (String.◌∷◌ c String.[]) = is_char_of "\n" c
is_text_end _ = false

abbrev differ : Bool → Bool → Bool
differ true b = not b
differ false b = b

-- The pattern, at the place behind `before`: `pattern.match`.
unfoldable pub matches : List Item → Rest
matches [] before s = some ([], 0)
matches (run kept greedy p lo hi ∷ items) before s =
    group_if kept (run_from greedy p lo hi (matches items) before s)
matches (words kept fold alternatives ∷ items) before s =
    group_if kept (words_from fold alternatives (matches items) before s)
matches (text_end ∷ items) before s =
    let rest = matches items before s in if is_text_end s then rest else none
matches (boundary ∷ items) before s =
    let rest = matches items before s in
    if differ (is_at is_word_char before) (is_at is_word_char (next_char s)) then rest else none
matches (not_behind p ∷ items) before s =
    let rest = matches items before s in if is_at p before then none else rest
matches (not_ahead p ∷ items) before s =
    let rest = matches items before s in if is_at p (next_char s) then none else rest

-- The groups of `re.match(pattern, s)`.
unfoldable pub match_start : List Item → String → Option (List String)
match_start items s = elim (matches items none s) [
  | none ↦ none
  | some (groups, used) ↦ some groups
]

-- The groups of `re.search(pattern, s)`, behind `before`.
unfoldable pub search_from : List Item → Option Char → String → Option (List String)
search_from items before String.[] = elim (matches items before String.[]) [
  | none ↦ none
  | some (groups, used) ↦ some groups
]
search_from items before (String.◌∷◌ c s) = elim (matches items before (String.◌∷◌ c s)) [
  | none ↦ search_from items (some c) s
  | some (groups, used) ↦ some groups
]

-- `re.findall(pattern, s)` for a pattern that matches no empty text: `skip` characters belong to the
-- match before.
unfoldable pub find_all : List Item → ℕ → Option Char → String → List (List String)
find_all items skip before String.[] = []
find_all items (suc skip) before (String.◌∷◌ c s) = find_all items skip (some c) s
find_all items zero before (String.◌∷◌ c s) = elim (matches items before (String.◌∷◌ c s)) [
  | none ↦ find_all items 0 (some c) s
  | some (groups, used) ↦ groups ∷ find_all items (used - 1) (some c) s
]
