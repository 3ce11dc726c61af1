-- ===== src/Session/Migration.antt =====
-- The migration of the single saved session of v0.1: crates/lmux-session/src/migration.rs.
use lmux.Prelude.{ℕ, [], ◌∷◌, Text, ok, err}
use lmux.State.Disk.{Io, ◌>>◌, pure}
use lmux.State.Codec.{Codec}
use lmux.State.Snapshot.{SessionSnapshot}
use lmux.State.Load.{LoadError, LoadOutcome, missing, loaded, corrupt}
use lmux.Session.{Session, SessionIndex, from_v01_snapshot}
use lmux.Session.Store.{StoreError, load, save}

pub data MigrationOutcome (E : Type 0) : Type 0 where
  migrated not_needed : MigrationOutcome E
  source_corrupt : LoadError E → MigrationOutcome E

abbrev pub default_name : Text
default_name = b'd' ∷ b'e' ∷ b'f' ∷ b'a' ∷ b'u' ∷ b'l' ∷ b't' ∷ []

module _ {R E : Type 0} (c : Codec (Session R) E) (ci : Codec SessionIndex E)
    (cs : Codec (SessionSnapshot R) E) where
  abbrev pub migrate_from : ℕ → LoadOutcome R E → Io (StoreError E) (MigrationOutcome E)
  migrate_from now missing d = (ok not_needed, d)
  migrate_from now (corrupt error renamed_to) d = (ok (source_corrupt error), d)
  migrate_from now (loaded snap) d =
      (do save c ci (from_v01_snapshot default_name snap now); pure migrated) d

  -- The source is the file of `lmux_state::load`, under its own path.
  unfoldable pub migrate_v01_last_session : Text → ℕ → Io (StoreError E) (MigrationOutcome E)
  migrate_v01_last_session source_path now d =
      let (r, d') = load c ci default_name d in
      elim r [
        | ok session ↦ (ok not_needed, d')
        | err e ↦
            let (outcome, d'') = lmux.State.Load.load cs source_path d' in
            migrate_from now outcome d''
      ]
