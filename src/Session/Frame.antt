-- ===== src/Session/Frame.antt =====
-- The index's operations leave the sessions' files as they are.
use lmux.Prelude.{
  ℕ, false, List, [], ◌∷◌, ◌==◌, list_eq, nat_eq, Text, lookup, erase, lookup-insert, lookup-erase,
  ◌≡◌, refl, arith, inl, inr, Option-cases, Result-cases, ◌∙◌,
}
use lmux.State.Disk.{Disk, read, rename_file, read_dir}
use lmux.State.AtomicWrite.Atomic.{write_bytes-frame}
use lmux.State.Load.{aside_name}
use lmux.State.RoundTrip.{read_same}
use lmux.State.Codec.{Codec}
use lmux.Session.{Session, SessionIndex, touch}
use lmux.Session.Store.{
  session_path, index_path, rename_aside, visit, visit_all, rebuild_index_from_sessions, read_index,
  write_index, bump_index,
}
use lmux.Session.Names.{session_path-NoTemp, session_path-not_aside}

read_dir-same : (d : Disk) → (read_dir d).1.files ≡ d.files
unfolding read_dir
read_dir-same d = ground arith

rename_aside-frame :
    (E : Type 0) (q path : Text) (d : Disk)
    → (path == q) ≡ false
    → (aside_name path d.clock == q) ≡ false
    → lookup q (rename_aside {E = E} path d).1.files ≡ lookup q d.files
unfolding rename_aside rename_file
rename_aside-frame E q path d n m = elim (Option-cases (lookup path d.files)) [
  | inl e ↦ ground arith
  | inr (bytes, e) ↦ ground (
    arith,
    lookup-insert (aside_name path d.clock) q bytes (erase path d.files),
    lookup-erase path q d.files,
  )
]

module _ {R E : Type 0} (c : Codec (Session R) E) (ci : Codec SessionIndex E) where
  visit-same :
      (file : Text) (index : SessionIndex) (d : Disk) → (visit c ci file index d).1.files ≡ d.files
  unfolding visit
  visit-same file index d = ground (arith, read_same file d)

  visit_all-same :
      (files : List Text) (index : SessionIndex) (d : Disk)
      → (visit_all c ci files index d).1.files ≡ d.files
  unfolding visit_all
  visit_all-same [] index d = refl
  visit_all-same (file ∷ files) index d =
      visit_all-same files (visit c ci file index d).0 (visit c ci file index d).1
      ∙ visit-same file index d

  rebuild-same : (d : Disk) → (rebuild_index_from_sessions c ci d).1.files ≡ d.files
  unfolding rebuild_index_from_sessions
  rebuild-same d = elim (Result-cases (read_dir d).0) [
    | inl (files, e) ↦
        ground
          (arith, visit_all-same files (record { entries = [] }) (read_dir d).1, read_dir-same d)
    | inr (x, e) ↦ ground (arith, read_dir-same d)
  ]

  -- The name is not that of the index.
  module _ (name : Text) (other : (index_path == session_path name) ≡ false) where
    read_index-frame :
        (d : Disk)
        → lookup (session_path name) (read_index c ci d).1.files
          ≡ lookup (session_path name) d.files
    unfolding read_index
    read_index-frame d =
        let d' = (read index_path d).1 in
        let d'' = (rename_aside {E = E} index_path d').1 in
        ground (
          arith,
          read_same index_path d,
          rename_aside-frame E (session_path name) index_path d' other
              (session_path-not_aside index_path name d'.clock),
          rebuild-same d'',
        )

    write_index-frame :
        (index : SessionIndex) (d : Disk)
        → lookup (session_path name) (write_index c ci index d).1.files
          ≡ lookup (session_path name) d.files
    unfolding write_index
    write_index-frame index d = elim (Result-cases (ci.encode index)) [
      | inl (text, e) ↦ ground (
        arith,
        write_bytes-frame (session_path name) index_path text d other
            (session_path-NoTemp index_path name d.pid),
      )
      | inr (x, e) ↦ ground arith
    ]

    pub bump_index-frame :
        (n : Text) (now : ℕ) (d : Disk)
        → lookup (session_path name) (bump_index c ci n now d).1.files
          ≡ lookup (session_path name) d.files
    unfolding bump_index
    bump_index-frame n now d = elim (Result-cases (read_index c ci d).0) [
      | inl (index, e) ↦
          ground
            (arith, write_index-frame (touch index n now) (read_index c ci d).1, read_index-frame d)
      | inr (x, e) ↦ ground (arith, read_index-frame d)
    ]
