-- ===== src/State/Codec.antt =====
-- The text formats of serde_json and toml, which crates/lmux-state/src and crates/lmux-session/src
-- call: a parameter of the stores. For the named sessions it stands as well for the conversions that
-- serde derives, and for the adapters `cwds_serde`, `pane_titles_serde` and `pane_roots_serde` of
-- crates/lmux-session/src/lib.rs, which write the keys of a map as decimal texts.
use lmux.Prelude.{Text, Result}

pub record Codec (A E : Type 0) : Type 0 where
  pub encode : A → Result E Text
  pub decode : Text → Result E A
