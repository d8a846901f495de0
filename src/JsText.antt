-- ===== src/JsText.antt =====
-- JavaScript's text operations, as the program uses them, over the code points of a text.
-- `to_lower` is `toLowerCase` on ASCII: the ids and names that the program lowers are ASCII.
use Prim.Native.Char.{code}
use cam_protocol.Base.{
  ℕ, ◌+◌, String, Bool, true, false, ◌&&◌, Option, none, some, List, [], ◌∷◌, map, leb, ◌==◌,
  str_eq, if◌then◌else◌,
}

abbrev pub codes : String → List ℕ
codes String.[] = []
codes (String.◌∷◌ c s) = code c ∷ codes s

-- `s.length`, which counts UTF-16 units: a code point from 65536 on takes two.
unfoldable pub utf16_length : List ℕ → ℕ
utf16_length [] = 0
utf16_length (c ∷ cs) = (if leb 65536 c then 2 else 1) + utf16_length cs

-- `s.startsWith(t)`, called `is_prefix t s`.
unfoldable pub is_prefix : List ℕ → List ℕ → Bool
is_prefix [] s = true
is_prefix (c ∷ t) [] = false
is_prefix (c ∷ t) (d ∷ s) = c == d && is_prefix t s

-- `s.includes(t)`, called `includes t s`.
unfoldable pub includes : List ℕ → List ℕ → Bool
unfolding is_prefix
includes t [] = is_prefix t []
includes t (d ∷ s) = let later = includes t s in if is_prefix t (d ∷ s) then true else later

unfoldable pub lower_code : ℕ → ℕ
lower_code c = if leb b'A' c && leb c b'Z' then c + 32 else c

unfoldable pub to_lower : List ℕ → List ℕ
unfolding lower_code
to_lower = map lower_code

-- A text is falsy when it is empty.
abbrev pub is_truthy : String → Bool
is_truthy s = if str_eq s "" then false else true

-- An optional text as `if (x)` and `x || d` read it: missing and empty are alike.
abbrev pub truthy : Option String → Option String
truthy none = none
truthy (some s) = if str_eq s "" then none else some s

-- `x || d` for an optional text.
abbrev pub text_or : Option String → String → String
text_or none d = d
text_or (some s) d = if str_eq s "" then d else s

-- `array.includes(x)` on texts, and `set.has(x)` on a set by its elements.
unfoldable pub contains : String → List String → Bool
contains x [] = false
contains x (y ∷ ys) = if str_eq y x then true else contains x ys

-- `content.toLowerCase().includes(term.toLowerCase())`.
abbrev pub mentions : String → String → Bool
mentions content term = includes (to_lower (codes term)) (to_lower (codes content))
