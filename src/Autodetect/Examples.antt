-- ===== src/Autodetect/Examples.antt =====
-- Tests of the matcher, after those of crates/lmux-anchor/src/autodetect.rs, and the theorems at
-- concrete rules.
use lmux.Prelude.{true, false, [], ◌∷◌, some, none, ◌≡◌, refl, Text}
use lmux.Autodetect.{AutodetectRule, matches, match_rule, match_of}
use lmux.Autodetect.Rules.{Wins, match_rule-Wins}

-- Needs `run` in the command.
abbrev runs : AutodetectRule
runs = record {
  name = b'r' ∷ [];
  match_spec = record { command_contains = (b'r' ∷ b'u' ∷ b'n' ∷ []) ∷ []; env_set = [] };
  hide_on_session_close = true;
}

-- Needs the variable `CI`.
abbrev in_ci : AutodetectRule
in_ci = record {
  name = b'c' ∷ [];
  match_spec = record { command_contains = []; env_set = (b'C' ∷ b'I' ∷ []) ∷ [] };
  hide_on_session_close = false;
}

abbrev npm_run : Text
npm_run = b'n' ∷ b'p' ∷ b'm' ∷ b' ' ∷ b'r' ∷ b'u' ∷ b'n' ∷ []

first_match_wins :
    match_rule (runs ∷ in_ci ∷ []) npm_run ((b'C' ∷ b'I' ∷ []) ∷ []) ≡ some (match_of runs)
unfolding match_rule matches
first_match_wins = refl

none_without_match : match_rule (runs ∷ in_ci ∷ []) (b'l' ∷ b's' ∷ []) [] ≡ none
unfolding match_rule matches
none_without_match = refl

match_rule-Wins_example :
    Wins (in_ci ∷ runs ∷ []) npm_run [] (match_rule (in_ci ∷ runs ∷ []) npm_run [])
match_rule-Wins_example = match_rule-Wins (in_ci ∷ runs ∷ []) npm_run []
