-- ===== src/Bus.antt =====
-- The bus protocol: crates/lmux-bus/src. `Kinds` has the payload types, `Errors` the error type and
-- its wire codes, and `Codec` the length-prefixed frames. A `Uuid` is a number, and text is a list of
-- code points.
pub mod Kinds
pub mod Catalog
pub mod Requests
pub mod Errors
pub mod Codec
pub mod Frames
pub mod Examples
