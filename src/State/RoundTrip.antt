-- ===== src/State/RoundTrip.antt =====
-- What is saved is what is loaded: the conversions of crates/lmux/src/state.rs and the file of
-- crates/lmux-state/src/lib.rs.
use lmux.Prelude.{
  ℕ, none, some, List, ◌==◌, nat_eq, list_eq, Text, Result, ok, err, lookup, erase, ◌≡◌, ◌⊎◌, inl,
  inr, refl, arith, ap, subst, ◌∙◌, lookup-insert, beq_self, Result-cases, Option-cases, Bool-cases,
}
use lmux.Layout.{Layout, Dir}
use lmux.Bus.Kinds.{PaneTitle, PaneTitleProvenance}
use lmux.State.Disk.{IoError, Disk, read, rename_file, next_fault}
use lmux.State.AtomicWrite.{write_bytes}
use lmux.State.AtomicWrite.Atomic.{write_bytes-atomic}
use lmux.State.Codec.{Codec}
use lmux.State.Snapshot.{
  SplitDir, LayoutNode, PaneTitleSnapshot, PaneTitleProvenanceSnapshot, SessionSnapshot,
  dir_to_snapshot, dir_from_snapshot, layout_to_snapshot, layout_from_snapshot,
  provenance_to_snapshot, provenance_from_snapshot, pane_title_to_snapshot,
  pane_title_from_snapshot,
}
use lmux.State.Load.{
  loaded, write_json, save, load, rename_aside, aside_name, schema_version, parsed, after_read,
  set_aside,
}

from-to_dir : (d : Dir) → dir_from_snapshot (dir_to_snapshot d) ≡ d
unfolding dir_to_snapshot dir_from_snapshot
from-to_dir Dir.horizontal = refl
from-to_dir Dir.vertical = refl

to-from_dir : (d : SplitDir) → dir_to_snapshot (dir_from_snapshot d) ≡ d
unfolding dir_to_snapshot dir_from_snapshot
to-from_dir SplitDir.horizontal = refl
to-from_dir SplitDir.vertical = refl

from-to_layout : {R : Type 0} (l : Layout R) → layout_from_snapshot (layout_to_snapshot l) ≡ l
unfolding layout_to_snapshot layout_from_snapshot
from-to_layout (Layout.leaf id) = refl
from-to_layout (Layout.split dir a b ratio) =
    rw (from-to_dir dir, from-to_layout a, from-to_layout b) refl

to-from_layout : {R : Type 0} (n : LayoutNode R) → layout_to_snapshot (layout_from_snapshot n) ≡ n
unfolding layout_to_snapshot layout_from_snapshot
to-from_layout (LayoutNode.leaf pane_id) = refl
to-from_layout (LayoutNode.split dir a b ratio) =
    rw (to-from_dir dir, to-from_layout a, to-from_layout b) refl

-- The conversions between the layout and its saved form are inverse to each other.
pub layout-snapshot :
    {R : Type 0} (l : Layout R) (n : LayoutNode R)
    → (layout_from_snapshot (layout_to_snapshot l) ≡ l)
      × (layout_to_snapshot (layout_from_snapshot n) ≡ n)
layout-snapshot l n = (from-to_layout l, to-from_layout n)

from-to_provenance :
    (p : PaneTitleProvenance) → provenance_from_snapshot (provenance_to_snapshot p) ≡ p
unfolding provenance_to_snapshot provenance_from_snapshot
from-to_provenance PaneTitleProvenance.default = refl
from-to_provenance PaneTitleProvenance.agent = refl
from-to_provenance PaneTitleProvenance.user = refl

to-from_provenance :
    (p : PaneTitleProvenanceSnapshot) → provenance_to_snapshot (provenance_from_snapshot p) ≡ p
unfolding provenance_to_snapshot provenance_from_snapshot
to-from_provenance PaneTitleProvenanceSnapshot.default = refl
to-from_provenance PaneTitleProvenanceSnapshot.agent = refl
to-from_provenance PaneTitleProvenanceSnapshot.user = refl

-- The conversions between a pane's title and its saved form are inverse to each other.
pub pane_title-snapshot :
    (t : PaneTitle) (s : PaneTitleSnapshot)
    → (pane_title_from_snapshot (pane_title_to_snapshot t) ≡ t)
      × (pane_title_to_snapshot (pane_title_from_snapshot s) ≡ s)
unfolding pane_title_to_snapshot pane_title_from_snapshot
pane_title-snapshot t s =
    (rw (from-to_provenance t.provenance) refl, rw (to-from_provenance s.provenance) refl)

-- A write that reports success has written the file.
pub write_bytes-ok :
    (path bytes : Text) (d : Disk)
    → (write_bytes path bytes d).0 ≡ ok tt
    → lookup path (write_bytes path bytes d).1.files ≡ some bytes
write_bytes-ok path bytes d h = elim (write_bytes-atomic path bytes d) [
  | inl new ↦ new
  | inr (old, (e, failed)) ↦ absurd cc
]

-- A read that does not fail.
pub read_file :
    (path bytes : Text) (d : Disk)
    → next_fault d.faults ≡ none
    → lookup path d.files ≡ some bytes
    → ((read path d).0 ≡ ok bytes) × ((read path d).1.files ≡ d.files)
unfolding read
read_file path bytes d h at = (ground arith, ground arith)

-- The rename to the side moves the bytes, or leaves them where they are.
rename_aside-keeps :
    (path bytes : Text) (d : Disk)
    → lookup path d.files ≡ some bytes
    → (lookup path (rename_aside path d).1.files ≡ some bytes)
      ⊎ (lookup (aside_name path d.clock) (rename_aside path d).1.files ≡ some bytes)
unfolding rename_aside rename_file
rename_aside-keeps path bytes d at =
    let target = aside_name path d.clock in
    elim (Option-cases (next_fault d.faults)) [
      | inl e ↦
          inr (
            ground (arith, lookup-insert target target bytes (erase path d.files), beq_self target))
      | inr (k, e) ↦ inl (ground arith)
    ]

pub read_same :
    (path : Text) (d : Disk) → ((read path d).1.files ≡ d.files) × ((read path d).1.clock ≡ d.clock)
unfolding read
read_same path d = (ground arith, ground arith)

read_fault :
    (path : Text) (k : ℕ) (d : Disk)
    → next_fault d.faults ≡ some k
    → (read path d).0 ≡ err IoError.other
unfolding read
read_fault path k d e = ground arith

module _ {R E : Type 0} (c : Codec (SessionSnapshot R) E) where
  load_file :
      (path bytes : Text) (snap : SessionSnapshot R) (d : Disk)
      → next_fault d.faults ≡ none
      → lookup path d.files ≡ some bytes
      → c.decode bytes ≡ ok snap
      → snap.v ≡ schema_version
      → (load c path d).0 ≡ loaded snap
  unfolding load after_read parsed
  load_file path bytes snap d h at good v =
      let (r, same) = read_file path bytes d h at in rw (r, good, v) refl

  -- A snapshot of the current version whose `save` reports success is what `load` returns, where the
  -- read does not fail and the text that the format makes of this snapshot, if it makes one, is read
  -- back as this snapshot.
  pub load-save :
      (path : Text) (snap : SessionSnapshot R) (d : Disk)
      → ((text : Text) → c.encode snap ≡ ok text → c.decode text ≡ ok snap)
      → snap.v ≡ schema_version
      → (save c path snap d).0 ≡ ok tt
      → next_fault (save c path snap d).1.faults ≡ none
      → (load c path (save c path snap d).1).0 ≡ loaded snap
  unfolding save write_json
  load-save path snap d round v done quiet = elim (Result-cases (c.encode snap)) [
    | inr (e, failed) ↦ absurd (ground arith)
    | inl (text, good) ↦
        load_file path text snap (save c path snap d).1 quiet
          (ground (arith, write_bytes-ok path text d)) (round text good) v
  ]

  -- The bytes are under the name, or under the name of the file set aside.
  abbrev pub Kept : Text → Text → ℕ → List (Text × Text) → Type 0
  Kept path bytes ts files =
      (lookup path files ≡ some bytes) ⊎ (lookup (aside_name path ts) files ≡ some bytes)

  parsed-Kept :
      (path bytes : Text) (r : Result E (SessionSnapshot R)) (d : Disk)
      → lookup path d.files ≡ some bytes
      → Kept path bytes d.clock (parsed c path r d).1.files
  unfolding parsed set_aside
  parsed-Kept path bytes (ok snap) d at = elim (Bool-cases (snap.v == schema_version)) [
    | inl e ↦ inl (rw e at)
    | inr e ↦ rw e (rename_aside-keeps path bytes d at)
  ]
  parsed-Kept path bytes (err x) d at = rename_aside-keeps path bytes d at

  -- Whatever is in a file, and whatever call fails, `load` does not lose it: the same bytes are
  -- afterwards under the same name, or under the name of the file set aside.
  pub load-keeps :
      (path bytes : Text) (d : Disk)
      → lookup path d.files ≡ some bytes
      → Kept path bytes d.clock (load c path d).1.files
  unfolding load after_read
  load-keeps path bytes d at =
      let d' = (read path d).1 in
      let here : lookup path d'.files ≡ some bytes = ap (lookup path) (read_same path d).0 ∙ at in
      elim (Option-cases (next_fault d.faults)) [
        | inl e ↦ rw ((read_file path bytes d e at).0) (
            subst (λ ts. Kept path bytes ts (parsed c path (c.decode bytes) d').1.files)
              ((read_same path d).1) (parsed-Kept path bytes (c.decode bytes) d' here))
        | inr (k, e) ↦ inl (rw (read_fault path k d e) here)
      ]
