-- ===== src/Session/Store.antt =====
-- The store of sessions: crates/lmux-session/src/store.rs, on the directory `sessions/`. The TOML
-- text is a parameter: `c` for sessions and `ci` for the index, each with `from_utf8_lossy` before
-- the parser. A log line is no part of the model.
use lmux.Prelude.{
  ℕ, ◌&&◌, ◌||◌, Bool, true, false, not, Option, none, some, List, [], ◌∷◌, ◌++◌, ◌==◌, nat_eq,
  list_eq, Text, if◌then◌else◌, ltb, leb, length, Result, ok, err, is_ok,
}
use lmux.State.Disk.{
  IoError, Disk, Io, ◌>>=◌, ◌>>◌, pure, throw, map_err, read, exists, remove_file, rename_file,
  read_dir,
}
use lmux.State.AtomicWrite.{WriteError, write_bytes}
use lmux.State.Load.{aside_name}
use lmux.State.Codec.{Codec}
use lmux.Session.{Session, SessionIndex, IndexEntry, empty, no_entries, touch, remove, rename}

pub data Reason : Type 0 where
  is_empty too_long leading_dot bad_character : Reason

pub data StoreError (E : Type 0) : Type 0 where
  invalid_name : Text → Reason → StoreError E
  session_exists session_missing : Text → StoreError E
  io : IoError → StoreError E
  atomic_write : WriteError → StoreError E
  toml_encode : E → StoreError E

-- `".toml"`.
abbrev pub extension : Text
extension = b'.' ∷ b't' ∷ b'o' ∷ b'm' ∷ b'l' ∷ []

abbrev pub session_path : Text → Text
session_path name = name ++ extension

abbrev pub index_name : Text
index_name = b'i' ∷ b'n' ∷ b'd' ∷ b'e' ∷ b'x' ∷ []

abbrev pub index_path : Text
index_path = index_name ++ extension

abbrev within : ℕ → ℕ → ℕ → Bool
within lo hi c = leb lo c && leb c hi

-- `is_ascii_alphanumeric`, `.`, `_` and `-`, on the bytes of the name: a byte of a character that is
-- not ASCII is at least 128.
abbrev permitted : ℕ → Bool
permitted c =
    within b'a' b'z' c
    || within b'A' b'Z' c
    || within b'0' b'9' c
    || (c == b'.')
    || (c == b'_')
    || (c == b'-')

abbrev all_permitted : Text → Bool
all_permitted [] = true
all_permitted (c ∷ s) = permitted c && all_permitted s

abbrev starts_with_dot : Text → Bool
starts_with_dot [] = false
starts_with_dot (c ∷ s) = c == b'.'

unfoldable pub validate_name : {E : Type 0} → Text → Result (StoreError E) (Unit {0})
validate_name [] = err (invalid_name [] is_empty)
validate_name (c ∷ s) =
    let name = c ∷ s in
    if ltb 64 (length name)
    then err (invalid_name name too_long)
    else if starts_with_dot name
    then err (invalid_name name leading_dot)
    else if all_permitted name
    then ok tt
    else err (invalid_name name bad_character)

unfoldable pub valid_name : Text → Bool
unfolding validate_name
valid_name name = is_ok (validate_name {E = Bool} name)

unfoldable pub rename_aside : {E : Type 0} → Text → Io E (Unit {0})
rename_aside path d = (ok tt, (rename_file path (aside_name path d.clock) d).1)

unfoldable pub strip_suffix : Text → Text → Option Text
strip_suffix suffix [] = if [] == suffix then some [] else none
strip_suffix suffix (x ∷ s) =
    let rest = strip_suffix suffix s in
    if (x ∷ s) == suffix then some [] else elim rest [ none ↦ none | some r ↦ some (x ∷ r) ]

-- What a failed read of a session is to the caller.
abbrev load_error : {E : Type 0} → Text → IoError → StoreError E
load_error name IoError.not_found = session_missing name
load_error name IoError.already_exists = io IoError.already_exists
load_error name IoError.other = io IoError.other

module _ {R E : Type 0} (c : Codec (Session R) E) (ci : Codec SessionIndex E) where
  -- A session of the directory that cannot be read or parsed is skipped.
  unfoldable pub visit : Text → SessionIndex → Disk → SessionIndex × Disk
  unfolding strip_suffix valid_name
  visit file index d =
      if file == index_path then (index, d) else elim (strip_suffix extension file) [
        | none ↦ (index, d)
        | some name ↦
            if not (valid_name name)
            then (index, d)
            else (let (r, d') = read file d in
                elim r [
                  | err e ↦ (index, d')
                  | ok bytes ↦ elim (c.decode bytes) [
                    | ok session ↦ (touch index name session.last_opened_at_unix_seconds, d')
                    | err e ↦ (index, d')
                  ]
                ])
      ]

  unfoldable pub visit_all : List Text → SessionIndex → Disk → SessionIndex × Disk
  visit_all [] index d = (index, d)
  visit_all (file ∷ files) index d =
      let (index', d') = visit file index d in visit_all files index' d'

  unfoldable pub rebuild_index_from_sessions : Disk → SessionIndex × Disk
  rebuild_index_from_sessions d =
      let (r, d') = read_dir d in
      elim r [ err e ↦ (no_entries, d') | ok files ↦ visit_all files no_entries d' ]

  abbrev pub index_of_bytes : Text → Io (StoreError E) SessionIndex
  index_of_bytes bytes d = elim (ci.decode bytes) [
    | ok index ↦ (ok index, d)
    | err e ↦
        let d' = (rename_aside {E = E} index_path d).1 in
        let (index, d'') = rebuild_index_from_sessions d' in (ok index, d'')
  ]

  abbrev pub index_read : Result IoError Text → Io (StoreError E) SessionIndex
  index_read (ok bytes) d = index_of_bytes bytes d
  index_read (err IoError.not_found) d = (ok no_entries, d)
  index_read (err IoError.already_exists) d = (err (io IoError.already_exists), d)
  index_read (err IoError.other) d = (err (io IoError.other), d)

  unfoldable pub read_index : Io (StoreError E) SessionIndex
  read_index d = let (r, d') = read index_path d in index_read r d'

  unfoldable pub write_index : SessionIndex → Io (StoreError E) (Unit {0})
  write_index index = elim (ci.encode index) [
    | ok text ↦ map_err atomic_write (write_bytes index_path text)
    | err e ↦ throw (toml_encode e)
  ]

  unfoldable pub write_session : Session R → Io (StoreError E) (Unit {0})
  write_session session = elim (c.encode session) [
    | ok text ↦ map_err atomic_write (write_bytes (session_path session.name) text)
    | err e ↦ throw (toml_encode e)
  ]

  unfoldable pub bump_index : Text → ℕ → Io (StoreError E) (Unit {0})
  bump_index name now = do index ← read_index; write_index (touch index name now)

  abbrev pub checked : Text → Io (StoreError E) (Unit {0})
  checked name d = (validate_name name, d)

  unfoldable pub create : Text → ℕ → Io (StoreError E) (Session R)
  create name now = do
    checked name
    there ← exists (session_path name)
    if there then throw (session_exists name) else pure tt
    write_session (empty name now)
    bump_index name now
    pure (empty name now)

  abbrev pub session_of_bytes : Text → Text → Io (StoreError E) (Session R)
  session_of_bytes name bytes d = elim (c.decode bytes) [
    | ok s ↦ (ok s, d)
    | err e ↦ (ok (empty name d.clock), (rename_aside {E = E} (session_path name) d).1)
  ]

  unfoldable pub load : Text → Io (StoreError E) (Session R)
  load name = do
    checked name
    bytes ← map_err (load_error name) (read (session_path name))
    session_of_bytes name bytes

  unfoldable pub rename_session : Text → Text → Io (StoreError E) (Unit {0})
  rename_session from to = do
    checked from
    checked to
    src ← exists (session_path from)
    if src then pure tt else throw (session_missing from)
    dst ← exists (session_path to)
    if dst then throw (session_exists to) else pure tt
    session ← load from
    write_session (record session { name = to })
    map_err io (remove_file (session_path from))
    index ← read_index
    write_index (rename index from to)

  unfoldable pub delete : Text → Io (StoreError E) (Unit {0})
  delete name = do
    checked name
    there ← exists (session_path name)
    if there then map_err io (remove_file (session_path name)) else pure tt
    index ← read_index
    write_index (remove index name)

  unfoldable pub list : Io (StoreError E) (List IndexEntry)
  list = do index ← read_index; pure index.entries

  unfoldable pub save : Session R → Io (StoreError E) (Unit {0})
  save session = do
    checked session.name
    write_session session
    bump_index session.name session.last_opened_at_unix_seconds
