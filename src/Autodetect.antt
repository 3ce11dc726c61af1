-- ===== src/Autodetect.antt =====
-- Which panes become anchors by themselves: the matcher of crates/lmux-anchor/src/autodetect.rs and
-- the rules of crates/lmux-config/src/lib.rs. A `str` is its bytes.
pub mod Rules
pub mod Examples
use lmux.Prelude.{
  ℕ, Bool, true, false, ◌&&◌, ◌||◌, Option, none, some, List, [], ◌∷◌, ◌==◌, nat_eq, list_eq, Text,
  if◌then◌else◌, contains,
}

pub record MatchSpec : Type 0 where
  pub command_contains : List Text
  pub env_set : List Text

pub record AutodetectRule : Type 0 where
  pub name : Text
  pub match_spec : MatchSpec
  pub hide_on_session_close : Bool

pub record AutodetectMatch : Type 0 where
  pub rule_name : Text
  pub hide_on_session_close : Bool

abbrev pub starts_with : Text → Text → Bool
starts_with [] text = true
starts_with (n ∷ needle) [] = false
starts_with (n ∷ needle) (c ∷ text) = n == c && starts_with needle text

-- `str::contains`.
abbrev pub has_text : Text → Text → Bool
has_text [] needle = starts_with needle []
has_text (c ∷ text) needle = starts_with needle (c ∷ text) || has_text text needle

abbrev pub any_needle : Text → List Text → Bool
any_needle command [] = false
any_needle command (needle ∷ needles) = has_text command needle || any_needle command needles

abbrev pub any_key : List Text → List Text → Bool
any_key env_keys [] = false
any_key env_keys (needed ∷ rest) = contains needed env_keys || any_key env_keys rest

unfoldable pub matches : AutodetectRule → Text → List Text → Bool
matches rule command env_keys =
    let cmd_hit = any_needle command rule.match_spec.command_contains in
    let env_hit = any_key env_keys rule.match_spec.env_set in cmd_hit || env_hit

abbrev pub match_of : AutodetectRule → AutodetectMatch
match_of rule = record { rule_name = rule.name; hide_on_session_close = rule.hide_on_session_close }

unfoldable pub match_rule : List AutodetectRule → Text → List Text → Option AutodetectMatch
match_rule [] command env_keys = none
match_rule (rule ∷ rules) command env_keys =
    let rest = match_rule rules command env_keys in
    if matches rule command env_keys then some (match_of rule) else rest
