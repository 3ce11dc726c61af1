-- ===== src/Terminal.antt =====
-- The terminal pane's own state machines: crates/lmux/src/pane.rs. `Bell` is the `BellScanner`,
-- `Transcript` the `TranscriptBuffer`.
pub mod Bell
pub mod Transcript
pub mod Examples
