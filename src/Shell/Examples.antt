-- ===== src/Shell/Examples.antt =====
-- Tests of the quoting, and the theorem at concrete arguments.
use lmux.Prelude.{[], ◌∷◌, some, none, ◌≡◌, refl}
use lmux.Shell.{shell_command_line, shell_quote, replace_quotes, join}
use lmux.Shell.Reader.{words}
use lmux.Shell.Words.{words-shell_command_line}

-- `it's` becomes `'it'\''s'`.
quotes_a_quote :
    shell_quote (b'i' ∷ b't' ∷ b'\'' ∷ b's' ∷ [])
    ≡ b'\'' ∷ b'i' ∷ b't' ∷ b'\'' ∷ b'\\' ∷ b'\'' ∷ b'\'' ∷ b's' ∷ b'\'' ∷ []
unfolding shell_quote replace_quotes
quotes_a_quote = refl

unquoted_breaks_off : words (b'a' ∷ b';' ∷ b'b' ∷ []) ≡ none
unquoted_breaks_off = refl

assignment_is_no_word : words (shell_command_line ((b'A' ∷ b'=' ∷ b'b' ∷ []) ∷ [])) ≡ none
unfolding shell_command_line join shell_quote
assignment_is_no_word = refl

words-shell_command_line_example :
    words (shell_command_line ((b'l' ∷ b's' ∷ []) ∷ (b'$' ∷ b'\'' ∷ b' ' ∷ []) ∷ [] ∷ []))
    ≡ some ((b'l' ∷ b's' ∷ []) ∷ (b'$' ∷ b'\'' ∷ b' ' ∷ []) ∷ [] ∷ [])
words-shell_command_line_example =
    words-shell_command_line ((b'l' ∷ b's' ∷ []) ∷ (b'$' ∷ b'\'' ∷ b' ' ∷ []) ∷ [] ∷ [])
