-- ===== src/Http/Host.antt =====
-- net.SplitHostPort, and the texts of a Host header. The server refuses a header with characters
-- that are not ASCII, so a letter is an ASCII letter.
use Prim.Native.Char.{Char}
use osg_gateway.Base.{String, Bool, ◌&&◌, ◌||◌, Option, none, some, if◌then◌else◌, neg}
use osg_gateway.Base.Text.{is_empty, eq_char, contains_rune}

-- The texts before and after the first `c`.
unfoldable pub split_first : Char → String → Option (String × String)
split_first c String.[] = none
split_first c (String.◌∷◌ d s) =
    let rest = split_first c s in
    if eq_char d c
    then some ("", s)
    else elim rest [ none ↦ none | some (a, b) ↦ some (String.◌∷◌ d a, b) ]

-- The texts before and after the last `c`.
unfoldable pub split_last : Char → String → Option (String × String)
split_last c String.[] = none
split_last c (String.◌∷◌ d s) = elim (split_last c s) [
  | some (a, b) ↦ some (String.◌∷◌ d a, b)
  | none ↦ if eq_char d c then some ("", s) else none
]

abbrev has_bracket : String → Bool
has_bracket s = contains_rune s "[" || contains_rune s "]"

-- After the bracket that closes the host: a colon, and a port without one.
abbrev bracketed_port : String → String → Option (String × String)
bracketed_port host String.[] = none
bracketed_port host (String.◌∷◌ c port) =
    if eq_char c ":"
      && neg (contains_rune port ":")
      && neg (contains_rune host "[")
      && neg (has_bracket port)
    then some (host, port)
    else none

abbrev bracketed : Option (String × String) → Option (String × String)
bracketed none = none
bracketed (some (host, more)) = bracketed_port host more

abbrev plain : Option (String × String) → Option (String × String)
plain none = none
plain (some (host, port)) =
    if contains_rune host ":" || has_bracket host || has_bracket port
    then none
    else some (host, port)

-- net.SplitHostPort: the host and the port, `none` for its error.
unfoldable pub split_host_port : String → Option (String × String)
unfolding split_first split_last
split_host_port String.[] = none
split_host_port (String.◌∷◌ c s) =
    if eq_char c "[" then bracketed (split_first "]" s) else plain (split_last ":" (String.◌∷◌ c s))

-- if h, _, err := net.SplitHostPort(host); err == nil { host = h }
abbrev pub without_port : String → String
without_port s = elim (split_host_port s) [ none ↦ s | some (h, p) ↦ h ]

abbrev pub is_bracket : Char → Bool
is_bracket c = eq_char c "[" || eq_char c "]"

unfoldable trim_left_brackets : String → String
trim_left_brackets String.[] = ""
trim_left_brackets (String.◌∷◌ c s) =
    let rest = trim_left_brackets s in if is_bracket c then rest else String.◌∷◌ c s

unfoldable trim_right_brackets : String → String
trim_right_brackets String.[] = ""
trim_right_brackets (String.◌∷◌ c s) =
    let rest = trim_right_brackets s in
    if is_empty rest && is_bracket c then "" else String.◌∷◌ c rest

-- strings.Trim(h, "[]")
unfoldable pub trim_brackets : String → String
unfolding trim_left_brackets trim_right_brackets
trim_brackets s = trim_right_brackets (trim_left_brackets s)
