-- ===== src/Prelude/Text.antt =====
-- The functions of Go's package strings that the program uses.
use Prim.Native.Nat.{ℕ}
use Prim.Native.Char.{Char, code, nul}
use Prim.Native.String
use Prim.Native.String.{String}
use mathlib.Core.Bool.{Bool, true, false, ◌||◌, ◌&&◌}
use text.Mathlib.Text.{◌==◌}
use nice_agent.Prelude.Tests.{leb, eqb, if◌then◌else◌}

-- `unicode.IsSpace`, by the character's number
is_space : ℕ → Bool
is_space c =
    (leb 9 c && leb c 13)
    || eqb c 32
    || eqb c 133
    || eqb c 160
    || eqb c 5760
    || (leb 8192 c && leb c 8202)
    || eqb c 8232
    || eqb c 8233
    || eqb c 8239
    || eqb c 8287
    || eqb c 12288

trim_left : String → String
unfolding is_space
trim_left String.[] = ""
trim_left (String.◌∷◌ c s) =
    let rest = trim_left s in if is_space (code c) then rest else String.◌∷◌ c s

trim_right : String → String
unfolding is_space
trim_right String.[] = ""
trim_right (String.◌∷◌ c s) =
    let rest = trim_right s in if is_space (code c) && rest == "" then "" else String.◌∷◌ c rest

-- `strings.TrimSpace`
unfoldable pub trim_space : String → String
unfolding trim_left trim_right
trim_space s = trim_right (trim_left s)

-- `strings.ToLower`, which maps each character by `lower`, the tables of package unicode
unfoldable pub to_lower : (Char → Char) → String → String
to_lower lower String.[] = ""
to_lower lower (String.◌∷◌ c s) = String.◌∷◌ (lower c) (to_lower lower s)

-- `strings.ToUpper`, in the same way
unfoldable pub to_upper : (Char → Char) → String → String
to_upper upper String.[] = ""
to_upper upper (String.◌∷◌ c s) = String.◌∷◌ (upper c) (to_upper upper s)

-- `strings.Contains(s, c)` for a text of one character, given by its number
unfoldable pub contains_char : ℕ → String → Bool
contains_char n String.[] = false
contains_char n (String.◌∷◌ c s) = eqb (code c) n || contains_char n s

-- `strings.HasPrefix(s, prefix)`
unfoldable pub has_prefix : String → String → Bool
has_prefix String.[] s = true
has_prefix (String.◌∷◌ c p) String.[] = false
has_prefix (String.◌∷◌ c p) (String.◌∷◌ d s) = eqb (code c) (code d) && has_prefix p s

-- `strings.Contains(s, part)`
unfoldable pub contains_text : String → String → Bool
contains_text part String.[] = has_prefix part ""
contains_text part (String.◌∷◌ c s) = has_prefix part (String.◌∷◌ c s) || contains_text part s

-- `strings.TrimRight(s, "/")`
unfoldable pub trim_right_slash : String → String
trim_right_slash String.[] = ""
trim_right_slash (String.◌∷◌ c s) =
    let rest = trim_right_slash s in if eqb (code c) 47 && rest == "" then "" else String.◌∷◌ c rest

-- "\x00"
abbrev nul_text : String
nul_text = String.◌∷◌ nul ""

-- `a + "\x00" + b`
unfoldable pub pair_key : String → String → String
pair_key a b = String.◌++◌ a (String.◌++◌ nul_text b)

-- `a + b`
abbrev pub concat : String → String → String
concat a b = String.◌++◌ a b
