-- ===== src/State.antt =====
-- Saved state: crates/lmux-state/src. `Disk` has the file-system calls that the source makes,
-- `AtomicWrite` the atomic writer, `Snapshot` the saved session format, `Load` its reader and writer.
pub mod Disk
pub mod AtomicWrite
pub mod Codec
pub mod Snapshot
pub mod Load
pub mod RoundTrip
pub mod Examples
