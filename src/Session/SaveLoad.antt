-- ===== src/Session/SaveLoad.antt =====
-- A session that is saved or created is the one that is loaded.
use lmux.Prelude.{
  ℕ, false, none, some, ◌==◌, list_eq, nat_eq, Text, ok, err, lookup, ◌≡◌, arith, inl, inr,
  Result-cases, ap, ◌∙◌,
}
use lmux.State.Disk.{Disk, exists, next_fault}
use lmux.State.RoundTrip.{read_file, write_bytes-ok}
use lmux.State.Codec.{Codec}
use lmux.Session.{Session, SessionIndex}
use lmux.Session.Store.{
  StoreError, validate_name, session_path, index_path, write_session, bump_index, save, load,
  create,
}
use lmux.Session.Frame.{bump_index-frame}

module _ {R E : Type 0} (c : Codec (Session R) E) (ci : Codec SessionIndex E) where
  write_session-ok :
      (s : Session R) (d : Disk)
      → (write_session c ci s d).0 ≡ ok tt
      → (text : Text) × (c.encode s ≡ ok text)
        × (lookup (session_path s.name) (write_session c ci s d).1.files ≡ some text)
  unfolding write_session
  write_session-ok s d h = elim (Result-cases (c.encode s)) [
    | inl (text, e) ↦ (text, e, ground (arith, write_bytes-ok (session_path s.name) text d))
    | inr (x, e) ↦ absurd (ground arith)
  ]

  load_file :
      (name text : Text) (s : Session R) (d : Disk)
      → validate_name {E = E} name ≡ ok tt
      → next_fault d.faults ≡ none
      → lookup (session_path name) d.files ≡ some text
      → c.decode text ≡ ok s
      → (load c ci name d).0 ≡ ok s
  unfolding load
  load_file name text s d valid quiet at good =
      let (r, same) = read_file (session_path name) text d quiet at in ground arith

  save-steps :
      (s : Session R) (d : Disk)
      → (save c ci s d).0 ≡ ok tt
      → (validate_name {E = E} s.name ≡ ok tt)
        × ((write_session c ci s d).0 ≡ ok tt)
        × ((save c ci s d).1
            ≡ (bump_index c ci s.name s.last_opened_at_unix_seconds (write_session c ci s d).1).1)
  unfolding save
  save-steps s d h = (ground arith, ground arith, ground arith)

  -- A session other than `index` whose `save` reports success is what `load` returns under its name,
  -- where the read does not fail and the text that the format makes of this session, if it makes
  -- one, is read back as this session.
  pub load-save_session :
      (s : Session R) (d : Disk)
      → ((text : Text) → c.encode s ≡ ok text → c.decode text ≡ ok s)
      → (index_path == session_path s.name) ≡ false
      → (save c ci s d).0 ≡ ok tt
      → next_fault (save c ci s d).1.faults ≡ none
      → (load c ci s.name (save c ci s d).1).0 ≡ ok s
  load-save_session s d round other done quiet =
      let (valid, written, after) = save-steps s d done in
      let (text, good, at) = write_session-ok s d written in
      load_file s.name text s (save c ci s d).1 valid quiet
        (ap (λ e. lookup (session_path s.name) e.files) after
          ∙ bump_index-frame c ci s.name other s.name s.last_opened_at_unix_seconds
              (write_session c ci s d).1
          ∙ at)
        (round text good)

  -- A session is not created over one that is there: the file keeps its content and `create` reports
  -- an error, where the test for the file does not fail.
  pub create-there :
      (name text : Text) (now : ℕ) (d : Disk)
      → next_fault d.faults ≡ none
      → lookup (session_path name) d.files ≡ some text
      → ((create c ci name now d).1.files ≡ d.files)
        × ((e : StoreError E) × ((create c ci name now d).0 ≡ err e))
  unfolding create exists
  create-there name text now d quiet at = elim (Result-cases (validate_name {E = E} name)) [
    | inl (done, valid) ↦ (ground arith, (StoreError.session_exists name, ground arith))
    | inr (e, invalid) ↦ (ground arith, (e, ground arith))
  ]
