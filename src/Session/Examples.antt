-- ===== src/Session/Examples.antt =====
-- Tests of the session store, after those of crates/lmux-session/src, and its theorems at concrete
-- directories.
use lmux.Prelude.{
  ℕ, Bool, true, false, some, List, [], ◌∷◌, nat_eq, list_eq, Text, if◌then◌else◌, Result, ok, err,
  lookup, ◌≡◌, refl, arith, is_empty, ◌&&◌, ◌++◌, ◌==◌, zero, suc, length, take, drop, sort_by,
  insert_by,
}
use lmux.State.Disk.{Disk, read, rename_file, create_new, write_all, touch_nothing, to_string}
use lmux.State.AtomicWrite.{write_bytes, tmp_name, open_tmp, fill, replace_by}
use lmux.State.Codec.{Codec}
use lmux.State.Snapshot.{LayoutNode, SplitDir}
use lmux.Session.{Session, SessionIndex, IndexEntry, no_entries, touch, set_time}
use lmux.Session.Store.{
  Reason, invalid_name, validate_name, valid_name, session_path, index_path, index_name, load, save,
  delete, write_session, bump_index, read_index, write_index,
}
use lmux.Session.SaveLoad.{load-save_session}
use lmux.Session.Collision.{delete-index}

abbrev work : Text
work = b'w' ∷ []

abbrev play : Text
play = b'p' ∷ []

abbrev entry : Text → ℕ → IndexEntry
entry name t = record { name = name; last_opened_at_unix_seconds = t }

abbrev two : SessionIndex
two = record { entries = entry work 9 ∷ entry play 4 ∷ [] }

bumps_to_the_front : touch two play 20 ≡ record { entries = entry play 20 ∷ entry work 9 ∷ [] }
unfolding touch set_time sort_by insert_by
bumps_to_the_front = refl

rejects_a_leading_dot :
    validate_name {E = Bool} (b'.' ∷ b'a' ∷ [])
    ≡ err (invalid_name (b'.' ∷ b'a' ∷ []) Reason.leading_dot)
unfolding validate_name
rejects_a_leading_dot = refl

rejects_a_slash : valid_name (b'a' ∷ b'/' ∷ b'b' ∷ []) ≡ false
unfolding valid_name validate_name
rejects_a_slash = refl

-- A format for sessions with nothing but a name, a layout and directories, as numbers.
abbrev plain : ℕ → ℕ → LayoutNode ℕ → List (ℕ × Text) → Text → Session ℕ
plain created last layout cwds name = record {
  name = name;
  created_at_unix_seconds = created;
  last_opened_at_unix_seconds = last;
  layout = layout;
  cwds = cwds;
  anchors = [];
  pane_titles = [];
  terminal_tabs = [];
  pane_terminal_tab_roots = [];
}

abbrev node : LayoutNode ℕ → Text → Text
node (LayoutNode.leaf pane) rest = 0 ∷ pane ∷ rest
node (LayoutNode.split SplitDir.horizontal a b ratio) rest = 1 ∷ ratio ∷ node a (node b rest)
node (LayoutNode.split SplitDir.vertical a b ratio) rest = 2 ∷ ratio ∷ node a (node b rest)

-- The trees that a text in Polish notation stands for.
abbrev nodes : Text → List (LayoutNode ℕ)
nodes [] = []
nodes (k ∷ []) = []
nodes (k ∷ v ∷ rest) =
    let stack = nodes rest in
    if k == 0 then LayoutNode.leaf v ∷ stack else elim stack [
      | [] ↦ []
      | a ∷ trees ↦ elim trees [
        | [] ↦ []
        | b ∷ others ↦
            LayoutNode.split (if k == 1 then SplitDir.horizontal else SplitDir.vertical) a b v
            ∷ others
      ]
    ]

-- A part of a text, with its length before it.
abbrev part : Text → Text → Text
part text rest = length text ∷ text ++ rest

abbrev cut : Text → Text × Text
cut [] = ([], [])
cut (n ∷ rest) = (take n rest, drop n rest)

abbrev paths : List (ℕ × Text) → Text
paths [] = []
paths ((pane, path) ∷ rest) = pane ∷ part path (paths rest)

abbrev read_paths : ℕ → Text → List (ℕ × Text)
read_paths zero text = []
read_paths (suc fuel) [] = []
read_paths (suc fuel) (pane ∷ text) =
    let rest = read_paths fuel (cut text).1 in (pane, (cut text).0) ∷ rest

abbrev is_plain : Session ℕ → Bool
is_plain s =
    is_empty s.anchors
    && is_empty s.pane_titles
    && is_empty s.terminal_tabs
    && is_empty s.pane_terminal_tab_roots

abbrev encode_plain : Session ℕ → Result Bool Text
encode_plain s =
    if is_plain s
    then ok (
        s.created_at_unix_seconds
        ∷ s.last_opened_at_unix_seconds
        ∷ part s.name (part (node s.layout []) (paths s.cwds)))
    else err true

abbrev decode_plain : Text → Result Bool (Session ℕ)
decode_plain (created ∷ last ∷ text) =
    let (name, rest) = cut text in
    let (tree, dirs) = cut rest in
    elim (nodes tree) [
      | [] ↦ err false
      | layout ∷ others ↦ ok (plain created last layout (read_paths (length dirs) dirs) name)
    ]
decode_plain text = err false

abbrev sessions : Codec (Session ℕ) Bool
sessions = record { encode = encode_plain; decode = decode_plain }

-- A format that only knows the index without entries again.
abbrev encode_index : SessionIndex → Result Bool Text
encode_index i = if is_empty i.entries then ok [] else ok (1 ∷ [])

abbrev decode_index : Text → Result Bool SessionIndex
decode_index [] = ok no_entries
decode_index (c ∷ s) = err false

abbrev indexes : Codec SessionIndex Bool
indexes = record { encode = encode_index; decode = decode_index }

abbrev disk : List (Text × Text) → Disk
disk files = record { files = files; faults = []; clock = 7; temp_counter = 0; pid = 5 }

-- Pane 1 above panes 2 and 3 side by side, two of them with a directory.
abbrev three_panes : Session ℕ
three_panes =
    plain 3 4
      (LayoutNode.split SplitDir.vertical (LayoutNode.leaf 1)
        (LayoutNode.split SplitDir.horizontal (LayoutNode.leaf 2) (LayoutNode.leaf 3) 25) 60)
      ((1, b'/' ∷ []) ∷ (3, b'/' ∷ b'a' ∷ []) ∷ []) work

reads_back : (text : Text) → encode_plain three_panes ≡ ok text → decode_plain text ≡ ok three_panes
reads_back text h = ground arith

abbrev saved : Disk
unfolding save
saved = (save sessions indexes three_panes (disk [])).1

load-save_session_example : (load sessions indexes work saved).0 ≡ ok three_panes
unfolding save write_session bump_index read_index write_index validate_name read write_bytes
    open_tmp fill replace_by touch_nothing create_new write_all rename_file tmp_name to_string touch
    sort_by set_time
load-save_session_example =
    load-save_session sessions indexes three_panes (disk []) reads_back refl refl refl

abbrev malformed : Disk
malformed = disk ((session_path work, 1 ∷ []) ∷ (index_path, 1 ∷ []) ∷ [])

delete-index_example :
    ((delete sessions indexes index_name malformed).0 ≡ ok tt)
    × (lookup index_path (delete sessions indexes index_name malformed).1.files ≡ some [])
delete-index_example = delete-index sessions indexes (1 ∷ []) [] malformed refl refl refl
