-- ===== src/Base/Text.antt =====
-- Go's package strings, over texts: the functions that the gateway calls with a slash or with a
pub mod Laws
-- constant. The bytes that they compare are ASCII, so characters do as well.
use Prim.Native.Char.{Char, code}
use Prim.Native.String.{String}
use mathlib.Core.Path.{◌≡◌, refl, ap, sym, ◌∙◌}
use mathlib.Core.Logic.{◌≢◌, inl, inr}
use mathlib.Core.Bool.{Bool, true, false, ◌&&◌, ◌||◌}
use mathlib.Core.Option.{Option, none, some}
use mathlib.Core.List.{List, [], ◌∷◌}
use native.Mathlib.Omega.{arith}
use text.Mathlib.Text.{◌==◌}
use text.Mathlib.TextEquality.{Char-path, eq_iff}
use osg_gateway.Base.Tests.{eqb, if◌then◌else◌, neg, is_some, Bool-cases}

abbrev pub is_empty : String → Bool
is_empty String.[] = true
is_empty (String.◌∷◌ c s) = false

abbrev pub eq_char : Char → Char → Bool
eq_char c d = eqb (code c) (code d)

pub eq_char-path : (c d : Char) → eq_char c d ≡ true → c ≡ d
eq_char-path c d h = Char-path c d (ground arith)

pub eq_char_refl : (c : Char) → eq_char c c ≡ true
eq_char_refl c = ground arith

-- strings.ContainsRune(s, c)
abbrev pub contains_rune : String → Char → Bool
contains_rune String.[] c = false
contains_rune (String.◌∷◌ d s) c = eq_char d c || contains_rune s c

-- s + t
infixr 5 ◌+++◌
abbrev pub ◌+++◌ : String → String → String
String.[] +++ t = t
(String.◌∷◌ c s) +++ t = String.◌∷◌ c (s +++ t)

pub text_append-nil : (s : String) → s +++ "" ≡ s
text_append-nil String.[] = refl
text_append-nil (String.◌∷◌ c s) = ap (String.◌∷◌ c) (text_append-nil s)

pub text_append_assoc : (s t u : String) → (s +++ t) +++ u ≡ s +++ (t +++ u)
text_append_assoc String.[] t u = refl
text_append_assoc (String.◌∷◌ c s) t u = ap (String.◌∷◌ c) (text_append_assoc s t u)

-- The rest of the text after a prefix, if it has it.
unfoldable pub strip_prefix : String → String → Option String
strip_prefix String.[] s = some s
strip_prefix (String.◌∷◌ c p) String.[] = none
strip_prefix (String.◌∷◌ c p) (String.◌∷◌ d s) =
    let rest = strip_prefix p s in if eq_char c d then rest else none

-- strings.HasPrefix(s, p)
abbrev pub has_prefix : String → String → Bool
has_prefix s p = is_some (strip_prefix p s)

abbrev pub or_else {ℓ} : {A : Type ℓ} → A → Option A → A
or_else a none = a
or_else a (some b) = b

-- strings.TrimPrefix(s, p)
abbrev pub trim_prefix : String → String → String
trim_prefix s p = or_else s (strip_prefix p s)

-- The text before a suffix, if it has it.
unfoldable pub strip_suffix : String → String → Option String
strip_suffix String.[] suf = if is_empty suf then some "" else none
strip_suffix (String.◌∷◌ c s) suf =
    let rest = strip_suffix s suf in
    if (String.◌∷◌ c s) == suf
    then some ""
    else elim rest [ none ↦ none | some t ↦ some (String.◌∷◌ c t) ]

-- strings.TrimLeft(s, "/")
unfoldable pub trim_left : String → String
trim_left String.[] = ""
trim_left (String.◌∷◌ c s) =
    let rest = trim_left s in if eq_char c "/" then rest else String.◌∷◌ c s

-- strings.TrimRight(s, "/")
unfoldable pub trim_right : String → String
trim_right String.[] = ""
trim_right (String.◌∷◌ c s) =
    let rest = trim_right s in if is_empty rest && eq_char c "/" then "" else String.◌∷◌ c rest

-- strings.Trim(s, "/")
abbrev pub trim : String → String
trim s = trim_right (trim_left s)

-- before, after, found := strings.Cut(s, "/"), with `after` where it is found
unfoldable pub cut : String → String × Option String
cut String.[] = ("", none)
cut (String.◌∷◌ c s) =
    let (before, after) = cut s in
    if eq_char c "/" then ("", some s) else (String.◌∷◌ c before, after)

abbrev pub push : Char → List String → List String
push c [] = String.◌∷◌ c "" ∷ []
push c (w ∷ ws) = String.◌∷◌ c w ∷ ws

-- strings.Split(s, "/")
unfoldable pub split : String → List String
split String.[] = "" ∷ []
split (String.◌∷◌ c s) = let rest = split s in if eq_char c "/" then "" ∷ rest else push c rest

-- strings.Join(parts, "/")
unfoldable pub join : List String → String
join [] = ""
join (p ∷ []) = p
join (p ∷ q ∷ ps) = p +++ ("/" +++ join (q ∷ ps))

-- strings.Contains(s, "/")
abbrev pub has_slash : String → Bool
has_slash s = contains_rune s "/"

-- The letter of `small` where `large` has the character.
abbrev letter_of : String → String → Char → Char
letter_of String.[] small c = c
letter_of (String.◌∷◌ d large) String.[] c = c
letter_of (String.◌∷◌ d large) (String.◌∷◌ e small) c =
    if eq_char d c then e else letter_of large small c

-- strings.ToLower, of an ASCII text
unfoldable pub to_lower : String → String
to_lower String.[] = ""
to_lower (String.◌∷◌ c s) =
    String.◌∷◌ (letter_of "ABCDEFGHIJKLMNOPQRSTUVWXYZ" "abcdefghijklmnopqrstuvwxyz" c) (to_lower s)
