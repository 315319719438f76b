-- ===== src/Prelude/Text.antt =====
-- Python's methods on `str` that the code uses: `strip`, `startswith` with the slice behind the
-- prefix, truth and joining.
use Prim.Native.Char.{Char, code}
use Prim.Native.String.{String}
use Prim.Native.Nat.{ℕ}
use mathlib.Core.Path.{◌≡◌, refl}
use mathlib.Core.Bool.{Bool, true, false, ◌||◌, ◌&&◌}
use mathlib.Core.Option.{Option, none, some}
use native.Mathlib.Omega.{arith}
use hermes_agent_cluster.Prelude.Case.{same_char}
use hermes_agent_cluster.Prelude.Tests.{leb, if◌then◌else◌}

-- `not s`
abbrev pub is_empty : String → Bool
is_empty String.[] = true
is_empty (String.◌∷◌ c s) = false

abbrev is_nat : ℕ → ℕ → Bool
is_nat a n = leb a n && leb n a

-- The white space of `str.strip`, of `str.isspace` and of `\s` in a pattern: all of Unicode's.
unfoldable pub is_space : Char → Bool
is_space c =
    let n = code c in
    (leb 9 n && leb n 13)
    || (leb 28 n && leb n 32)
    || is_nat 133 n
    || is_nat 160 n
    || is_nat 5760 n
    || (leb 8192 n && leb n 8202)
    || (leb 8232 n && leb n 8233)
    || is_nat 8239 n
    || is_nat 8287 n
    || is_nat 12288 n

unfoldable pub strip_left : String → String
strip_left String.[] = String.[]
strip_left (String.◌∷◌ c s) = let rest = strip_left s in if is_space c then rest else String.◌∷◌ c s

unfoldable pub strip_right : String → String
strip_right String.[] = String.[]
strip_right (String.◌∷◌ c s) =
    let rest = strip_right s in if is_space c && is_empty rest then String.[] else String.◌∷◌ c rest

-- `s.strip()`
unfoldable pub strip : String → String
strip s = strip_right (strip_left s)

-- `s + t`, and the pieces of an f-string.
unfoldable pub concat : String → String → String
concat String.[] t = t
concat (String.◌∷◌ c s) t = String.◌∷◌ c (concat s t)

-- `s[len(p):]` if `s.startswith(p)`
unfoldable pub after_prefix : String → String → Option String
unfolding same_char
after_prefix String.[] s = some s
after_prefix (String.◌∷◌ c p) String.[] = none
after_prefix (String.◌∷◌ c p) (String.◌∷◌ d s) = if same_char c d then after_prefix p s else none

-- No white space at either end.
abbrev pub IsTrimmed : String → Type 0
IsTrimmed s = (strip_left s ≡ s) × (strip_right s ≡ s)

pub after_prefix-concat : (p s : String) → after_prefix p (concat p s) ≡ some s
unfolding after_prefix concat
after_prefix-concat String.[] s = refl
after_prefix-concat (String.◌∷◌ c p) s = ground (arith, after_prefix-concat p s)
