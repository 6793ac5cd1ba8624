-- ===== src/Exec/Quoting.antt =====
-- The command line of an exec against the word splitting of a POSIX shell.
use Prim.Native.Char.{Char}
use osg_gateway.Base.{
  String, Bool, true, false, ◌≡◌, refl, sym, ◌∙◌, ap, &&-true, Bool-cases, inl, inr, arith, Option,
  none, some, List, [], ◌∷◌, if◌then◌else◌,
}
use osg_gateway.Base.Text.{
  ◌+++◌, text_append-nil, text_append_assoc, eq_char, eq_char-path, contains_rune,
}
use osg_gateway.Exec.{is_safe_char, is_safe, replace_quotes, shell_quote, shell_join}

abbrev single : Char → String
single c = String.◌∷◌ c ""

-- Where the shell is in a line: between words, in a word, between single quotes, or after a
-- backslash, with what it has read of the word.
pub data Mode : Type 0 where
  gap : Mode
  word quoted escaped : String → Mode

-- An unquoted character with a meaning of its own in the shell's grammar. A line that has one is
-- not the list of its words.
unfoldable pub is_special : Char → Bool
is_special c = contains_rune "|&;<>()$`\"*?[]#~!{}^\t\n\r" c

unfoldable pub read_plain : String → Char → Option Mode
unfolding is_special
read_plain w c =
    if eq_char c "'"
    then some (quoted w)
    else if eq_char c "\\"
    then some (escaped w)
    else if is_special c
    then none
    else some (word (w +++ single c))

-- The word that a character completes, if any, and the mode after it.
abbrev Reading : Type 0
Reading = Option String × Mode

abbrev going : Option Mode → Option Reading
going none = none
going (some m) = some (none, m)

unfoldable pub read_char : Mode → Char → Option Reading
unfolding read_plain
read_char gap c = if eq_char c " " then some (none, gap) else going (read_plain "" c)
read_char (word w) c = if eq_char c " " then some (some w, gap) else going (read_plain w c)
read_char (quoted w) c = some (none, if eq_char c "'" then word w else quoted (w +++ single c))
read_char (escaped w) c = some (none, if eq_char c "\n" then word w else word (w +++ single c))

abbrev emit : Option String → Option (List String) → Option (List String)
emit none ws = ws
emit (some w) none = none
emit (some w) (some ws) = some (w ∷ ws)

-- The words of a line, before any expansion, as the shell splits them; none where a quote is open
-- at the end or a special character stands unquoted.
unfoldable pub shell_words : Mode → String → Option (List String)
unfolding read_char
shell_words gap String.[] = some []
shell_words (word w) String.[] = some (w ∷ [])
shell_words (quoted w) String.[] = none
shell_words (escaped w) String.[] = none
shell_words m (String.◌∷◌ c s) = elim (read_char m c) [
  | none ↦ none
  | some (done, m') ↦ emit done (shell_words m' s)
]

-- A safe character is none of the shell's own: it joins the word.
safe_plain :
    (w : String) (c : Char)
    → is_safe_char c ≡ true
    → (eq_char c " " ≡ false) × (read_plain w c ≡ some (word (w +++ single c)))
unfolding is_safe_char is_special read_plain
safe_plain w c h = ground arith

safe_word :
    (w : String) (c : Char)
    → is_safe_char c ≡ true
    → read_char (word w) c ≡ some (none, word (w +++ single c))
unfolding read_char
safe_word w c h = let (space, plain) = safe_plain w c h in rw (space, plain)

safe_gap : (c : Char) → is_safe_char c ≡ true → read_char gap c ≡ some (none, word (single c))
unfolding read_char
safe_gap c h = let (space, plain) = safe_plain "" c h in rw (space, plain)

step_gap :
    (m : Mode) (c : Char) (s : String)
    → read_char gap c ≡ some (none, m)
    → shell_words gap (String.◌∷◌ c s) ≡ shell_words m s
unfolding shell_words
step_gap m c s h = rw (shell_words, h)

step_word :
    (w : String) (m : Mode) (c : Char) (s : String)
    → read_char (word w) c ≡ some (none, m)
    → shell_words (word w) (String.◌∷◌ c s) ≡ shell_words m s
unfolding shell_words
step_word w m c s h = rw (shell_words, h)

words-safe :
    (s w rest : String)
    → is_safe s ≡ true
    → shell_words (word w) (s +++ rest) ≡ shell_words (word (w +++ s)) rest
unfolding is_safe
words-safe String.[] w rest h = ap (λ v. shell_words (word v) rest) (sym (text_append-nil w))
words-safe (String.◌∷◌ c s) w rest h =
    let (plain, later) = &&-true (is_safe_char c) (is_safe s) h in
    step_word w _ c (s +++ rest) (safe_word w c plain)
    ∙ words-safe s (w +++ single c) rest later
    ∙ ap (λ v. shell_words (word v) rest) (text_append_assoc w (single c) s)

words-quoted :
    (s w rest : String)
    → shell_words (quoted w) (replace_quotes s +++ ("'" +++ rest))
      ≡ shell_words (word (w +++ s)) rest
unfolding replace_quotes shell_words read_char read_plain
words-quoted String.[] w rest = ap (λ v. shell_words (word v) rest) (sym (text_append-nil w))
words-quoted (String.◌∷◌ c s) w rest = elim (Bool-cases (eq_char c "'")) [
  | inl e ↦
      let same : c ≡ "'" = eq_char-path c "'" e in
      rw (e, same)
        (words-quoted s (w +++ "'") rest
          ∙ ap (λ v. shell_words (word v) rest) (text_append_assoc w "'" s))
  | inr e ↦
      rw (e, e)
        (words-quoted s (w +++ single c) rest
          ∙ ap (λ v. shell_words (word v) rest) (text_append_assoc w (single c) s))
]

words-empty : (rest : String) → shell_words gap ("''" +++ rest) ≡ shell_words (word "") rest
unfolding shell_words read_char read_plain
words-empty rest = refl

words-quoted_start :
    (s rest : String)
    → shell_words gap (("'" +++ (replace_quotes s +++ "'")) +++ rest) ≡ shell_words (word s) rest
unfolding shell_words read_char read_plain
words-quoted_start s rest =
    ap (shell_words (quoted "")) (text_append_assoc (replace_quotes s) "'" rest)
    ∙ words-quoted s "" rest

words-safe_start :
    (c : Char) (s rest : String)
    → is_safe (String.◌∷◌ c s) ≡ true
    → shell_words gap (String.◌∷◌ c s +++ rest) ≡ shell_words (word (String.◌∷◌ c s)) rest
unfolding is_safe
words-safe_start c s rest h =
    let (plain, later) = &&-true (is_safe_char c) (is_safe s) h in
    step_gap _ c (s +++ rest) (safe_gap c plain) ∙ words-safe s (single c) rest later

-- A quoted word is read as the word, whatever stands after it.
words-shell_quote :
    (a rest : String) → shell_words gap (shell_quote a +++ rest) ≡ shell_words (word a) rest
unfolding shell_quote
words-shell_quote String.[] rest = words-empty rest
words-shell_quote (String.◌∷◌ c s) rest = elim (Bool-cases (is_safe (String.◌∷◌ c s))) [
  | inl e ↦ rw e (words-safe_start c s rest e)
  | inr e ↦ rw e (words-quoted_start (String.◌∷◌ c s) rest)
]

-- The shell splits the command line of an exec into exactly its arguments, whatever characters they
-- have: the line is a sequence of plain words, with no expansion, operator or open quote.
pub words-shell_join : (argv : List String) → shell_words gap (shell_join argv) ≡ some argv
unfolding shell_join shell_words read_char
words-shell_join [] = refl
words-shell_join (a ∷ []) =
    ap (shell_words gap) (sym (text_append-nil (shell_quote a))) ∙ words-shell_quote a ""
words-shell_join (a ∷ b ∷ argv) =
    words-shell_quote a (" " +++ shell_join (b ∷ argv))
    ∙ ap (emit (some a)) (words-shell_join (b ∷ argv))
