-- ===== src/Session/Malformed.antt =====
-- The rename of a session whose file is malformed: `load` sets the file aside, so that it is no
-- longer there when `rename` removes it.
use lmux.Prelude.{
  false, none, some, List, ◌==◌, nat_eq, list_eq, list_beq_iff, Text, ok, err, lookup, erase,
  lookup-insert, lookup-erase, beq_self, ◌≡◌, arith, ap, ◌∙◌, Bool-cases, inl, inr,
}
use lmux.State.Disk.{IoError, Disk, read, exists, remove_file, rename_file}
use lmux.State.AtomicWrite.Atomic.{write_bytes-frame}
use lmux.State.AtomicWrite.Calm.{Calm, write_bytes-Calm}
use lmux.State.RoundTrip.{write_bytes-ok}
use lmux.State.Load.{aside_name}
use lmux.State.Codec.{Codec}
use lmux.Session.{Session, SessionIndex, empty}
use lmux.Session.Store.{
  StoreError, io, validate_name, session_path, rename_session, load, write_session, rename_aside,
}
use lmux.Session.Names.{session_path-NoTemp, session_path-not_aside}
use lmux.Session.Collision.{exists-there, exists-absent}

exists-clock : (E : Type 0) (name : Text) (d : Disk) → (exists {E = E} name d).1.clock ≡ d.clock
unfolding exists
exists-clock E name d = ground arith

different_of_lookup :
    (p q bytes : Text) (m : List (Text × Text))
    → lookup p m ≡ none
    → lookup q m ≡ some bytes
    → (p == q) ≡ false
different_of_lookup p q bytes m free at = elim (Bool-cases (p == q)) [
  | inl e ↦ let same : p ≡ q = (list_beq_iff p q).0 e in absurd cc
  | inr e ↦ e
]

module _ {R E : Type 0} (c : Codec (Session R) E) (ci : Codec SessionIndex E) where
  load-malformed :
      (name bytes : Text) (x : E) (d : Disk)
      → Calm d
      → validate_name {E = E} name ≡ ok tt
      → lookup (session_path name) d.files ≡ some bytes
      → c.decode bytes ≡ err x
      → ((load c ci name d).0 ≡ ok (empty name d.clock))
        × Calm (load c ci name d).1
        × (lookup (session_path name) (load c ci name d).1.files ≡ none)
  unfolding load read rename_aside rename_file
  load-malformed name bytes x d h valid at bad =
      let path = session_path name in
      let aside = aside_name path d.clock in
      (
        ground arith,
        ground arith,
        ground (
          arith,
          lookup-insert aside path bytes (erase path d.files),
          lookup-erase path path d.files,
          beq_self path,
          session_path-not_aside path name d.clock,
        ),
      )

  write_session-Calm :
      (s : Session R) (text : Text) (d : Disk)
      → Calm d
      → c.encode s ≡ ok text
      → ((write_session c ci s d).0 ≡ ok tt)
        × Calm (write_session c ci s d).1
        × (lookup (session_path s.name) (write_session c ci s d).1.files ≡ some text)
  unfolding write_session
  write_session-Calm s text d h good =
      let path = session_path s.name in
      let (r, calm) = write_bytes-Calm path text d h in
      (ground arith, ground arith, ground (arith, write_bytes-ok path text d))

  write_session-frame :
      (s : Session R) (text name : Text) (d : Disk)
      → c.encode s ≡ ok text
      → (session_path s.name == session_path name) ≡ false
      → lookup (session_path name) (write_session c ci s d).1.files
        ≡ lookup (session_path name) d.files
  unfolding write_session
  write_session-frame s text name d good other = ground (
    arith,
    write_bytes-frame (session_path name) (session_path s.name) text d other
        (session_path-NoTemp (session_path s.name) name d.pid),
  )

  remove_file-absent :
      (name : Text) (d : Disk)
      → Calm d
      → lookup name d.files ≡ none
      → ((remove_file name d).0 ≡ err IoError.not_found) × ((remove_file name d).1.files ≡ d.files)
  unfolding remove_file
  remove_file-absent name d h at = (ground arith, ground arith)

  -- Where no call fails, the rename of a session whose file is malformed, to a valid name that is
  -- free, reports that a file was not found, though it has written a session under the new name.
  pub rename-malformed :
      (from to bytes text : Text) (x : E) (d : Disk)
      → Calm d
      → validate_name {E = E} from ≡ ok tt
      → validate_name {E = E} to ≡ ok tt
      → lookup (session_path from) d.files ≡ some bytes
      → lookup (session_path to) d.files ≡ none
      → c.decode bytes ≡ err x
      → c.encode (record (empty {R = R} from d.clock) { name = to }) ≡ ok text
      → ((rename_session c ci from to d).0 ≡ err (io IoError.not_found))
        × (lookup (session_path to) (rename_session c ci from to d).1.files ≡ some text)
  unfolding rename_session
  rename-malformed from to bytes text x d h valid valid' at free bad good =
      let src = session_path from in
      let dst = session_path to in
      let (there, calm1, same1) = exists-there {E = StoreError E} src bytes d h at in
      let d1 = (exists {E = StoreError E} src d).1 in
      let (absent, calm2, same2) =
        exists-absent {E = StoreError E} dst d1 calm1 (ap (lookup dst) same1 ∙ free) in
      let d2 = (exists {E = StoreError E} dst d1).1 in
      let (loaded, calm3, gone) =
        load-malformed from bytes x d2 calm2 valid
          (ap (lookup src) same2 ∙ ap (lookup src) same1 ∙ at) bad in
      let fresh : Session R = record (empty {R = R} from d.clock) { name = to } in
      let same_clock : d2.clock ≡ d.clock =
        exists-clock (StoreError E) dst d1 ∙ exists-clock (StoreError E) src d in
      let d3 = (load c ci from d2).1 in
      let (written, calm4, at') = write_session-Calm fresh text d3 calm3 good in
      let d4 = (write_session c ci fresh d3).1 in
      let apart : (dst == src) ≡ false = different_of_lookup dst src bytes d.files free at in
      let kept = write_session-frame fresh text from d3 good apart in
      let (lost, same5) = remove_file-absent src d4 calm4 (kept ∙ gone) in
      (ground arith, ground arith)
