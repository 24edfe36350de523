-- ===== src/Text.antt =====
-- What the code uses of Python's `str`: `not s`, `s.isspace()` by character, and `not s.strip()`.
use Prim.Native.Char.{code}
use Prim.Native.String
use enterprise_agent_securit.Prelude.{
  ℕ, String, Bool, true, false, ◌&&◌, ◌||◌, Option, none, some, leb, nat_eq, if◌then◌else◌, ◌==◌,
}

-- the code points that `str.strip` removes
unfoldable pub is_space : ℕ → Bool
is_space c =
    (leb 9 c && leb c 13)
    || (leb 28 c && leb c 32)
    || nat_eq c 133
    || nat_eq c 160
    || nat_eq c 5760
    || (leb 8192 c && leb c 8202)
    || nat_eq c 8232
    || nat_eq c 8233
    || nat_eq c 8239
    || nat_eq c 8287
    || nat_eq c 12288

-- `not s.strip()`
unfoldable pub is_blank : String → Bool
unfolding is_space
is_blank String.[] = true
is_blank (String.◌∷◌ c s) = is_space (code c) && is_blank s

-- `not s`
abbrev pub is_empty : String → Bool
is_empty s = s == ""

-- `o or other` for an optional text
unfoldable pub or_else : Option String → String → String
or_else none other = other
or_else (some s) other = if is_empty s then other else s

infixl 65 ◌⧺◌
-- concatenation of texts
abbrev pub ◌⧺◌ : String → String → String
s ⧺ t = String.◌++◌ s t

unfoldable pub lstrip : String → String
unfolding is_space
lstrip String.[] = String.[]
lstrip (String.◌∷◌ c s) = elim (is_space (code c)) [ true ↦ lstrip s | false ↦ String.◌∷◌ c s ]

-- a character before what is left of the text after it
abbrev pub before_rest : Bool → String → String → String
before_rest space kept String.[] = if space then String.[] else kept
before_rest space kept (String.◌∷◌ c s) = kept

unfoldable pub rstrip : String → String
unfolding is_space
rstrip String.[] = String.[]
rstrip (String.◌∷◌ c s) =
    let rest = rstrip s in before_rest (is_space (code c)) (String.◌∷◌ c rest) rest

-- `s.strip()`
unfoldable pub strip : String → String
unfolding lstrip rstrip
strip s = rstrip (lstrip s)
