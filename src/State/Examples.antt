-- ===== src/State/Examples.antt =====
-- Tests of the saved state, and the theorems at concrete directories.
use lmux.Prelude.{
  ℕ, Bool, true, false, Option, none, some, List, [], ◌∷◌, nat_eq, list_eq, Text, if◌then◌else◌,
  Result, ok, err, lookup, ◌≡◌, ◌≢◌, refl, arith, is_none, is_empty, ◌&&◌,
}
use lmux.Layout.{Layout, Dir}
use lmux.Bus.Kinds.{PaneTitle, PaneTitleProvenance}
use lmux.State.Disk.{Disk, read, rename_file, create_new, write_all, touch_nothing, to_string}
use lmux.State.AtomicWrite.{out_of_fuel, write_bytes, tmp_name, open_tmp, fill, replace_by}
use lmux.State.AtomicWrite.Atomic.{OldOrNew, write_bytes-atomic}
use lmux.State.AtomicWrite.Loop.{write_bytes-ends}
use lmux.State.AtomicWrite.Calm.{Calm, write_bytes-Calm}
use lmux.State.Codec.{Codec}
use lmux.State.Snapshot.{
  SplitDir, LayoutNode, PaneTitleSnapshot, PaneTitleProvenanceSnapshot, SessionSnapshot, anchors,
}
use lmux.State.Load.{
  LoadError, loaded, corrupt, save, write_json, load, rename_aside, parsed, after_read, set_aside,
}
use lmux.State.RoundTrip.{load-save}

abbrev path : Text
path = b's' ∷ []

abbrev old_text : Text
old_text = b'o' ∷ []

abbrev new_text : Text
new_text = b'n' ∷ b'w' ∷ []

abbrev disk : List (Option ℕ) → Disk
disk faults = record {
  files = (path, old_text) ∷ (b'q' ∷ [], b'z' ∷ []) ∷ [];
  faults = faults;
  clock = 7;
  temp_counter = 0;
  pid = 5;
}

abbrev calm : Disk
calm = disk []

-- The directory is made, the file is created, and the write fails after a byte.
abbrev full : Disk
full = disk (none ∷ none ∷ some 1 ∷ [])

writes : (write_bytes path new_text calm).0 ≡ ok tt
unfolding write_bytes open_tmp fill replace_by touch_nothing create_new write_all rename_file
    tmp_name to_string
writes = refl

writes_new : lookup path (write_bytes path new_text calm).1.files ≡ some new_text
unfolding write_bytes open_tmp fill replace_by touch_nothing create_new write_all rename_file
    tmp_name to_string
writes_new = refl

full_keeps_old : lookup path (write_bytes path new_text full).1.files ≡ some old_text
unfolding write_bytes open_tmp fill replace_by touch_nothing create_new write_all rename_file
    tmp_name to_string
full_keeps_old = refl

write_bytes-atomic_example : OldOrNew path new_text (some old_text) (write_bytes path new_text full)
write_bytes-atomic_example = write_bytes-atomic path new_text full

write_bytes-Calm_example :
    ((write_bytes path new_text calm).0 ≡ ok tt) × Calm (write_bytes path new_text calm).1
write_bytes-Calm_example = write_bytes-Calm path new_text calm refl

write_bytes-ends_example : (write_bytes path new_text full).0 ≢ err out_of_fuel
write_bytes-ends_example = write_bytes-ends path new_text full

-- A format for snapshots with one pane and nothing else.
abbrev bare : ℕ → ℕ → ℕ → SessionSnapshot ℕ
bare v created pane = record {
  v = v;
  created_at_unix_seconds = created;
  anchor_pane_id = none;
  anchor_pane_ids = [];
  layout = LayoutNode.leaf pane;
  cwds = [];
  pane_titles = [];
  terminal_tabs = [];
  pane_terminal_tab_roots = [];
}

abbrev only_pane : LayoutNode ℕ → Option ℕ
only_pane (LayoutNode.leaf pane) = some pane
only_pane (LayoutNode.split dir a b ratio) = none

abbrev is_bare : SessionSnapshot ℕ → Bool
is_bare s =
    is_none s.anchor_pane_id
    && is_empty s.anchor_pane_ids
    && is_empty s.cwds
    && is_empty s.pane_titles
    && is_empty s.terminal_tabs
    && is_empty s.pane_terminal_tab_roots

abbrev encode_bare : SessionSnapshot ℕ → Result Bool Text
encode_bare s =
    if is_bare s
    then elim (only_pane s.layout) [
      | none ↦ err true
      | some pane ↦ ok (s.v ∷ s.created_at_unix_seconds ∷ pane ∷ [])
    ]
    else err true

abbrev decode_bare : Text → Result Bool (SessionSnapshot ℕ)
decode_bare (v ∷ created ∷ pane ∷ []) = ok (bare v created pane)
decode_bare text = err false

abbrev bare_codec : Codec (SessionSnapshot ℕ) Bool
bare_codec = record { encode = encode_bare; decode = decode_bare }

abbrev sample : SessionSnapshot ℕ
sample = bare 1 42 3

abbrev later : Disk
unfolding save
later = (save bare_codec path sample calm).1

load-save_example : (load bare_codec path later).0 ≡ loaded sample
unfolding save write_json write_bytes open_tmp fill replace_by touch_nothing create_new write_all
    rename_file tmp_name to_string
load-save_example = load-save bare_codec path sample calm (λ text h. ground arith) refl refl refl

-- The old text is no snapshot, so the file goes to the side.

goes_aside :
    (load bare_codec path calm).0
    ≡ corrupt
        (LoadError.malformed false)
        (some (b's' ∷ b'.' ∷ b'b' ∷ b'a' ∷ b'd' ∷ b'.' ∷ b'7' ∷ []))
unfolding load after_read parsed set_aside read rename_aside rename_file to_string
goes_aside = refl

-- The list of anchors comes first, the single slot of older files second.
prefers_the_list :
    anchors (record sample { anchor_pane_id = some 2; anchor_pane_ids = 4 ∷ 5 ∷ [] }) ≡ 4 ∷ 5 ∷ []
unfolding anchors
prefers_the_list = refl

falls_back_to_the_slot : anchors (record sample { anchor_pane_id = some 2 }) ≡ 2 ∷ []
unfolding anchors
falls_back_to_the_slot = refl

abbrev tree : Layout ℕ
tree = Layout.split Dir.vertical (Layout.leaf 1) (Layout.leaf 2) 50

abbrev node : LayoutNode ℕ
node = LayoutNode.split SplitDir.horizontal (LayoutNode.leaf 1) (LayoutNode.leaf 2) 30

abbrev shown_title : PaneTitle
shown_title = record { title = old_text; provenance = PaneTitleProvenance.user; pinned = true }

abbrev saved_title : PaneTitleSnapshot
saved_title = record {
  title = new_text;
  provenance = PaneTitleProvenanceSnapshot.agent;
  pinned = false;
}
