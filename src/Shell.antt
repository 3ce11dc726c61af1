-- ===== src/Shell.antt =====
-- The command line that is typed into a pane made over the bus: `shell_command_line` and
-- `shell_quote` of crates/lmux/src/state.rs, on the bytes of the arguments.
pub mod Reader
pub mod Words
pub mod Examples
use lmux.Prelude.{
  ℕ, Bool, true, false, not, ◌&&◌, ◌||◌, List, [], ◌∷◌, ◌++◌, ◌==◌, nat_eq, Text, if◌then◌else◌,
  leb, is_empty, contains, map,
}

abbrev pub is_ascii_alphanumeric : ℕ → Bool
is_ascii_alphanumeric b =
    (leb b'0' b && leb b b'9') || (leb b'A' b && leb b b'Z') || (leb b'a' b && leb b b'z')

-- `/ . _ - : =`.
abbrev pub is_bare : ℕ → Bool
is_bare b = is_ascii_alphanumeric b || contains b (b'/' ∷ b'.' ∷ b'_' ∷ b'-' ∷ b':' ∷ b'=' ∷ [])

abbrev pub all_bare : Text → Bool
all_bare [] = true
all_bare (b ∷ bs) = is_bare b && all_bare bs

-- `replace('\'', "'\\''")`.
unfoldable pub replace_quotes : Text → Text
replace_quotes [] = []
replace_quotes (c ∷ cs) =
    let rest = replace_quotes cs in
    if c == b'\'' then b'\'' ∷ b'\\' ∷ b'\'' ∷ b'\'' ∷ rest else c ∷ rest

unfoldable pub shell_quote : Text → Text
shell_quote arg =
    if not (is_empty arg) && all_bare arg then arg else b'\'' ∷ (replace_quotes arg ++ b'\'' ∷ [])

-- `join(" ")`.
unfoldable pub join : List Text → Text
join [] = []
join (a ∷ []) = a
join (a ∷ b ∷ rest) = a ++ b' ' ∷ join (b ∷ rest)

unfoldable pub shell_command_line : List Text → Text
shell_command_line argv = join (map shell_quote argv)
