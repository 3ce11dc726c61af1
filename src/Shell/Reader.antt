-- ===== src/Shell/Reader.antt =====
-- How a POSIX shell splits a line into words, for `shell_command_line` of crates/lmux/src/state.rs.
-- A first word that is an assignment, `name=...` with an unquoted name, is no word of the command.
-- Reserved words, aliases and what a line editor makes of control characters are no part of it.
use lmux.Prelude.{
  ℕ, Bool, false, not, ◌&&◌, ◌||◌, leb, Option, none, some, List, [], ◌∷◌, ◌++◌, ◌==◌, nat_eq, Text,
  if◌then◌else◌, contains, unwrap_or,
}
use lmux.Shell.{is_ascii_alphanumeric, all_bare}

-- The reader stands before the first word, in one that is an unquoted name so far, between words or
-- in another word, in a quotation or behind a backslash. A character that means something else to the
-- shell, outside a quotation, breaks it off, and so does an assignment.
pub data Reader : Type 0 where
  broken opening : Reader
  naming : Text → Reader
  plain : List Text → Option Text → Reader
  quoted escaped : List Text → Text → Reader

-- `| & ; < > ( ) $` and the backtick, the double quote, tab and newline, `* ? [ ] # ~ % { } ! ^`.
abbrev is_special : ℕ → Bool
is_special c = contains c (
    b'|' ∷ b'&' ∷ b';' ∷ b'<' ∷ b'>' ∷ b'(' ∷ b')' ∷ b'$' ∷ b'`' ∷ b'"' ∷ b'\t' ∷ b'\n' ∷ b'*'
    ∷ b'?' ∷ b'[' ∷ b']' ∷ b'#' ∷ b'~' ∷ b'%' ∷ b'{' ∷ b'}' ∷ b'!' ∷ b'^' ∷ [])

abbrev finish : List Text → Option Text → List Text
finish done none = done
finish done (some word) = done ++ word ∷ []

-- A name has letters, digits and `_`, and starts with no digit.
abbrev pub is_name_byte : ℕ → Bool
is_name_byte c = is_ascii_alphanumeric c || c == b'_'

abbrev pub is_name_start : ℕ → Bool
is_name_start c = is_name_byte c && not (leb b'0' c && leb c b'9')

abbrev pub plain_next : List Text → Option Text → ℕ → Reader
plain_next done cur c =
    if c == b' '
    then plain (finish done cur) none
    else if c == b'\''
    then quoted done (unwrap_or cur [])
    else if c == b'\\'
    then escaped done (unwrap_or cur [])
    else if is_special c
    then broken
    else plain done (some (unwrap_or cur [] ++ c ∷ []))

abbrev pub next : Reader → ℕ → Reader
next broken c = broken
next opening c =
    if c == b' ' then opening else if is_name_start c then naming (c ∷ []) else plain_next [] none c
next (naming cur) c =
    if c == b'='
    then broken
    else if is_name_byte c
    then naming (cur ++ c ∷ [])
    else plain_next [] (some cur) c
next (plain done cur) c = plain_next done cur c
next (quoted done cur) c = if c == b'\'' then plain done (some cur) else quoted done (cur ++ c ∷ [])
next (escaped done cur) c = plain done (some (cur ++ c ∷ []))

abbrev pub read : Reader → Text → Reader
read r [] = r
read r (c ∷ cs) = read (next r c) cs

abbrev pub result : Reader → Option (List Text)
result broken = none
result opening = some []
result (naming cur) = some (cur ∷ [])
result (plain done cur) = some (finish done cur)
result (quoted done cur) = none
result (escaped done cur) = none

-- The words of a line, `none` where the shell would do more than split it.
abbrev pub words : Text → Option (List Text)
words line = result (read opening line)

-- The text starts with bytes of a name and then `=`.
abbrev pub names : Text → Bool
names [] = false
names (c ∷ cs) = c == b'=' || (is_name_byte c && names cs)

-- The first argument has the form of an assignment, with no byte that is quoted.
abbrev pub opens_assignment : List Text → Bool
opens_assignment [] = false
opens_assignment ([] ∷ args) = false
opens_assignment ((c ∷ cs) ∷ args) = all_bare (c ∷ cs) && (is_name_start c && names cs)
