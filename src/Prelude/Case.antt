-- ===== src/Prelude/Case.antt =====
-- Python's `str.lower` and `str.upper` on ASCII letters, which are those that the code compares, and
-- tests of classes of characters. Letters and digits are the ASCII ones.
use Prim.Native.Nat.{compare, Ordering}
use Prim.Native.Char.{Char, code}
use Prim.Native.String.{String}
use mathlib.Core.Bool.{Bool, true, false, ◌||◌, ◌&&◌}
use hermes_agent_cluster.Prelude.Tests.{leb, if◌then◌else◌}

unfoldable pub same_char : Char → Char → Bool
same_char c d = elim (compare (code c) (code d)) [ Ordering.eq ↦ true | _ ↦ false ]

-- The character of `to` that stands where `c` stands in `from`.
unfoldable pub paired : String → String → Char → Char
unfolding same_char
paired (String.◌∷◌ a from) (String.◌∷◌ b to) c =
    let other = paired from to c in if same_char a c then b else other
paired _ _ c = c

abbrev pub capitals : String
capitals = "ABCDEFGHIJKLMNOPQRSTUVWXYZ"

abbrev pub small_letters : String
small_letters = "abcdefghijklmnopqrstuvwxyz"

unfoldable pub lower_char : Char → Char
unfolding paired
lower_char c = paired capitals small_letters c

unfoldable pub upper_char : Char → Char
unfolding paired
upper_char c = paired small_letters capitals c

-- `s.lower()`
unfoldable pub lower : String → String
unfolding lower_char
lower String.[] = String.[]
lower (String.◌∷◌ c s) = String.◌∷◌ (lower_char c) (lower s)

-- `s.upper()`
unfoldable pub upper : String → String
unfolding upper_char
upper String.[] = String.[]
upper (String.◌∷◌ c s) = String.◌∷◌ (upper_char c) (upper s)

unfoldable pub is_char_of : String → Char → Bool
unfolding same_char
is_char_of String.[] c = false
is_char_of (String.◌∷◌ d s) c = same_char d c || is_char_of s c

unfoldable pub is_digit : Char → Bool
is_digit c = leb 48 (code c) && leb (code c) 57

unfoldable pub is_letter : Char → Bool
is_letter c = (leb 65 (code c) && leb (code c) 90) || (leb 97 (code c) && leb (code c) 122)

-- `\w`
unfoldable pub is_word_char : Char → Bool
unfolding is_digit is_letter is_char_of same_char
is_word_char c = is_digit c || is_letter c || is_char_of "_" c

-- `[0-9a-f]`
unfoldable pub is_hex : Char → Bool
unfolding is_digit
is_hex c = is_digit c || (leb 97 (code c) && leb (code c) 102)
