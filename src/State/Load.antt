-- ===== src/State/Load.antt =====
-- `save`, `load` and `rename_aside` of crates/lmux-state/src/lib.rs and `write_json` of
-- atomic_write.rs. The text of an error is kept as what it is made from.
use lmux.Prelude.{
  ℕ, Option, none, some, [], ◌∷◌, ◌++◌, ◌==◌, nat_eq, Text, if◌then◌else◌, Result, ok, err,
}
use lmux.State.Disk.{IoError, Disk, Io, throw, map_err, read, rename_file, to_string}
use lmux.State.AtomicWrite.{WriteError, write_bytes}
use lmux.State.Codec.{Codec}
use lmux.State.Snapshot.{SessionSnapshot}

abbrev pub schema_version : ℕ
schema_version = 1

pub data LoadError (E : Type 0) : Type 0 where
  read_failed : IoError → LoadError E
  unknown_schema : ℕ → LoadError E
  malformed : E → LoadError E

pub data LoadOutcome (R E : Type 0) : Type 0 where
  missing : LoadOutcome R E
  loaded : SessionSnapshot R → LoadOutcome R E
  corrupt : LoadError E → Option Text → LoadOutcome R E

pub data SaveError (E : Type 0) : Type 0 where
  json : E → SaveError E
  write : WriteError → SaveError E

unfoldable pub write_json : {A E : Type 0} → Codec A E → Text → A → Io (SaveError E) (Unit {0})
write_json c path value = elim (c.encode value) [
  | ok bytes ↦ map_err write (write_bytes path bytes)
  | err e ↦ throw (json e)
]

unfoldable pub save :
    {R E : Type 0}
    → Codec (SessionSnapshot R) E
    → Text
    → SessionSnapshot R
    → Io (SaveError E) (Unit {0})
unfolding write_json
save c path snap = write_json c path snap

-- `".bad."`.
abbrev pub bad_infix : Text
bad_infix = b'.' ∷ b'b' ∷ b'a' ∷ b'd' ∷ b'.' ∷ []

abbrev pub aside_name : Text → ℕ → Text
aside_name path ts = path ++ (bad_infix ++ to_string ts)

-- Where the file went, or `none` where the rename failed.
unfoldable pub rename_aside : Text → Disk → Option Text × Disk
rename_aside path d =
    let target = aside_name path d.clock in
    let (r, d') = rename_file path target d in
    elim r [ ok done ↦ (some target, d') | err e ↦ (none, d') ]

module _ {R E : Type 0} (c : Codec (SessionSnapshot R) E) where
  unfoldable pub set_aside : Text → LoadError E → Disk → LoadOutcome R E × Disk
  unfolding rename_aside
  set_aside path error d =
      let (renamed_to, d') = rename_aside path d in (corrupt error renamed_to, d')

  unfoldable pub parsed : Text → Result E (SessionSnapshot R) → Disk → LoadOutcome R E × Disk
  unfolding set_aside
  parsed path (ok snap) d =
      if snap.v == schema_version
      then (loaded snap, d)
      else set_aside path (unknown_schema snap.v) d
  parsed path (err e) d = set_aside path (malformed e) d

  unfoldable pub after_read : Text → Result IoError Text → Disk → LoadOutcome R E × Disk
  unfolding parsed
  after_read path (ok bytes) d = parsed path (c.decode bytes) d
  after_read path (err IoError.not_found) d = (missing, d)
  after_read path (err IoError.already_exists) d =
      (corrupt (read_failed IoError.already_exists) none, d)
  after_read path (err IoError.other) d = (corrupt (read_failed IoError.other) none, d)

  unfoldable pub load : Text → Disk → LoadOutcome R E × Disk
  unfolding after_read
  load path d = let (r, d') = read path d in after_read path r d'
