-- ===== src/Exec.antt =====
-- internal/httpapi/ssh_api.go: the command line of a relayed exec, and its captured output.
pub mod Quoting
pub mod Output
mod Tests
use Prim.Native.Char.{Char, code}
use Prim.Native.String.{len}
use osg_gateway.Base.{
  ℕ, ◌-◌, String, Bool, true, false, ◌&&◌, ◌||◌, List, [], ◌∷◌, if◌then◌else◌, leb, ltb,
}
use osg_gateway.Base.Text.{◌+++◌, is_empty, eq_char, contains_rune}

-- The characters of the loop of `shellQuote` that need no quotes.
unfoldable pub is_safe_char : Char → Bool
is_safe_char c =
    leb 97 (code c) && leb (code c) 122
    || leb 65 (code c) && leb (code c) 90
    || leb 48 (code c) && leb (code c) 57
    || contains_rune "@%+=:,./-_" c

unfoldable pub is_safe : String → Bool
unfolding is_safe_char
is_safe String.[] = true
is_safe (String.◌∷◌ c s) = is_safe_char c && is_safe s

-- strings.ReplaceAll(s, "'", `'\''`)
unfoldable pub replace_quotes : String → String
replace_quotes String.[] = ""
replace_quotes (String.◌∷◌ c s) =
    (if eq_char c "'" then "'\\''" else String.◌∷◌ c "") +++ replace_quotes s

unfoldable pub shell_quote : String → String
unfolding is_safe replace_quotes
shell_quote s =
    if is_empty s then "''" else if is_safe s then s else "'" +++ (replace_quotes s +++ "'")

-- strings.Join(parts, " ") of the quoted words
unfoldable pub shell_join : List String → String
unfolding shell_quote
shell_join [] = ""
shell_join (a ∷ []) = shell_quote a
shell_join (a ∷ b ∷ argv) = shell_quote a +++ (" " +++ shell_join (b ∷ argv))
