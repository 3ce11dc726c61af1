-- ===== src/Anchors.antt =====
-- Anchors: crates/lmux-anchor/src/lib.rs and registry.rs. The registry's `HashMap` is an association
-- list, in an order that no theorem fixes; a `&mut self` method returns the new registry with its
-- result. A `Uuid` is a number, given where the source draws a fresh one.
pub mod Lifecycle
pub mod Labels
pub mod Sidebar
pub mod Examples
use Prim.Native.Nat.{compare, Ordering}
use lmux.Prelude.{
  ℕ, Bool, true, false, not, ◌&&◌, ◌||◌, Option, none, some, List, [], ◌∷◌, ◌++◌, ◌==◌, nat_eq,
  list_eq, option_eq, Text, if◌then◌else◌, lookup, insert, erase, leb, Result, ok, err, ℤ, pos,
  lebℤ, saturating_suc, unwrap_or, sort_by, is_empty,
}

pub data AnchorState : Type 0 where
  live paused hidden dead : AnchorState

pub record Anchor : Type 0 where
  pub id : ℕ
  pub pane_id : Option ℕ
  pub argv : List Text
  pub cwd : Text
  pub state : AnchorState
  pub hide_on_session_close : Bool
  pub autodetect_rule : Option Text
  pub name : Option Text
  pub group : Option Text
  pub sort_key : Option ℤ

unfoldable pub new_manual : ℕ → ℕ → List Text → Text → Anchor
new_manual fresh pane_id argv cwd = record {
  id = fresh;
  pane_id = some pane_id;
  argv = argv;
  cwd = cwd;
  state = live;
  hide_on_session_close = false;
  autodetect_rule = none;
  name = none;
  group = none;
  sort_key = none;
}

unfoldable pub new_auto : ℕ → ℕ → List Text → Text → Text → Bool → Anchor
new_auto fresh pane_id argv cwd rule_name hide_on_session_close = record {
  id = fresh;
  pane_id = some pane_id;
  argv = argv;
  cwd = cwd;
  state = live;
  hide_on_session_close = hide_on_session_close;
  autodetect_rule = some rule_name;
  name = none;
  group = none;
  sort_key = none;
}

-- `"(anchor)"`.
abbrev pub anchor_placeholder : Text
anchor_placeholder = b'(' ∷ b'a' ∷ b'n' ∷ b'c' ∷ b'h' ∷ b'o' ∷ b'r' ∷ b')' ∷ []

abbrev first_arg : List Text → Text
first_arg [] = anchor_placeholder
first_arg (arg ∷ argv) = arg

unfoldable pub display_label : Anchor → Text
display_label a = unwrap_or a.name (first_arg a.argv)

-- `char::is_whitespace`, the code points with the Unicode property White_Space.
unfoldable pub is_whitespace : ℕ → Bool
is_whitespace c =
    leb 9 c && leb c 13
    || (c == 32
        || (c == 0x85
            || (c == 0xa0
                || (c == 0x1680
                    || (leb 0x2000 c && leb c 0x200a
                        || (c == 0x2028
                            || (c == 0x2029 || (c == 0x202f || (c == 0x205f || c == 0x3000)))))))))

unfoldable pub trim_start : Text → Text
trim_start [] = []
trim_start (c ∷ s) = let rest = trim_start s in if is_whitespace c then rest else c ∷ s

unfoldable pub trim_end : Text → Text
trim_end [] = []
trim_end (c ∷ s) =
    let rest = trim_end s in if is_whitespace c && is_empty rest then [] else c ∷ rest

unfoldable pub trim : Text → Text
unfolding trim_start trim_end is_whitespace
trim s = trim_end (trim_start s)

-- The closure of `rename` and `set_group`.
abbrev trimmed : Option Text → Option Text
trimmed none = none
trimmed (some s) = if is_empty (trim s) then none else some (trim s)

pub data RegistryError : Type 0 where
  not_found : ℕ → RegistryError
  invalid_transition : ℕ → AnchorState → AnchorState → RegistryError

abbrev pub Registry : Type 0
Registry = List (ℕ × Anchor)

abbrev pub Updated : Type 0
Updated = Registry × Result RegistryError Anchor

-- `insert` of registry.rs.
unfoldable pub insert_anchor : Registry → Anchor → Registry × ℕ
insert_anchor reg anchor = (insert anchor.id anchor reg, anchor.id)

abbrev pub get : Registry → ℕ → Option Anchor
get reg id = lookup id reg

unfoldable pub remove : Registry → ℕ → Updated
remove reg id = elim (lookup id reg) [
  | none ↦ (reg, err (not_found id))
  | some a ↦ (erase id reg, ok a)
]

-- The common part of the methods: `get_mut(&id).ok_or(NotFound(id))?`, and a change of that entry.
abbrev written : Registry → ℕ → Result RegistryError Anchor → Updated
written reg id (ok a) = (insert id a reg, ok a)
written reg id (err e) = (reg, err e)

abbrev with_entry : Registry → ℕ → (Anchor → Result RegistryError Anchor) → Updated
with_entry reg id change = elim (lookup id reg) [
  | none ↦ (reg, err (not_found id))
  | some a ↦ written reg id (change a)
]

abbrev pub state_beq : AnchorState → AnchorState → Bool
state_beq live live = true
state_beq paused paused = true
state_beq hidden hidden = true
state_beq dead dead = true
state_beq _ _ = false

unfoldable pub transition : Registry → ℕ → AnchorState → AnchorState → Updated
transition reg id from to = with_entry reg id λ a.
    if not (state_beq a.state from)
    then err (invalid_transition id a.state to)
    else ok (record a { state = to })

unfoldable pub pause : Registry → ℕ → Updated
unfolding transition
pause reg id = transition reg id live paused

unfoldable pub resume : Registry → ℕ → Updated
unfolding transition
resume reg id = transition reg id paused live

unfoldable pub hide : Registry → ℕ → Updated
hide reg id = with_entry reg id λ a.
    if not (state_beq a.state live || state_beq a.state paused)
    then err (invalid_transition id a.state hidden)
    else ok (record a { state = hidden; pane_id = none })

unfoldable pub reattach : Registry → ℕ → ℕ → Updated
reattach reg id pane_id = with_entry reg id λ a.
    if not (state_beq a.state hidden)
    then err (invalid_transition id a.state live)
    else ok (record a { state = live; pane_id = some pane_id })

unfoldable pub set_hidden : Registry → ℕ → Bool → Updated
set_hidden reg id is_hidden =
    let to = if is_hidden then hidden else live in
    with_entry reg id λ a.
      if not (state_beq a.state live || state_beq a.state hidden)
      then err (invalid_transition id a.state to)
      else ok (record a { state = to })

unfoldable pub mark_dead : Registry → ℕ → Updated
mark_dead reg id = with_entry reg id λ a. ok (record a { state = dead })

unfoldable pub rename : Registry → ℕ → Option Text → Updated
rename reg id name = with_entry reg id λ a. ok (record a { name = trimmed name })

unfoldable pub set_group : Registry → ℕ → Option Text → Updated
set_group reg id group = with_entry reg id λ a. ok (record a { group = trimmed group })

unfoldable pub set_sort_key : Registry → ℕ → Option ℤ → Updated
set_sort_key reg id sort_key = with_entry reg id λ a. ok (record a { sort_key = sort_key })
