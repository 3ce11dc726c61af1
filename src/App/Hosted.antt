-- ===== src/App/Hosted.antt =====
-- The windows of the Wayland host as panes: `on_toplevel_created` and `on_toplevel_closed` of
-- crates/lmux/src/state.rs. Whether there is a host to send commands to is an argument, as is the
-- pane that is made of the surface.
pub mod Kept
pub mod Examples
use lmux.Prelude.{
  ℕ, ◌+◌, Bool, true, false, not, ◌&&◌, Option, none, some, List, [], ◌∷◌, ◌==◌, nat_eq, option_eq,
  if◌then◌else◌, lookup, insert, erase, contains_key, map_values, or_else, unwrap_or,
}
use lmux.Layout.{Layout, Dir, leaves, replace_leaf, remove_leaf, is_leaf}
use lmux.App.{AppState, Pane}
use lmux.App.Anchors.{first}
use lmux.App.Panes.{next_pane_id, halved, drop_pane}

abbrev pub closed_if : ℕ → ℕ → Pane → Pane
closed_if pane id p = if id == pane && p.is_satellite then record p { has_exited = true } else p

-- `mark_closed`, on a pane that is a satellite.
abbrev pub mark_closed : ℕ → List (ℕ × Pane) → List (ℕ × Pane)
mark_closed pane panes = map_values (closed_if pane) panes

-- The first leaf of a workspace.
abbrev pub first_in : ℕ → List (ℕ × ℕ) → List ℕ → Option ℕ
first_in anchor pane_workspace [] = none
first_in anchor pane_workspace (id ∷ ids) =
    let rest = first_in anchor pane_workspace ids in
    if lookup id pane_workspace == some anchor then some id else rest

module _ {R : Type 0} where
  abbrev pub inherit_owner : AppState R → ℕ → ℕ → AppState R
  inherit_owner s target pane_id = elim (lookup target s.pane_workspace) [
    | none ↦ s
    | some owner ↦ record s { pane_workspace = insert pane_id owner s.pane_workspace }
  ]

  -- `on_toplevel_created` after the layout.
  abbrev pub register_satellite : AppState R → ℕ → ℕ → ℕ → Pane → AppState R
  register_satellite s target pane_id surface pane =
      let owned = inherit_owner s target pane_id in
      record owned {
        panes = insert pane_id pane owned.panes;
        pane_uuids = insert pane_id owned.fresh owned.pane_uuids;
        surface_to_pane = insert surface pane_id owned.surface_to_pane;
        fresh = owned.fresh + 1;
      }

  unfoldable pub on_toplevel_created : R → AppState R → Bool → ℕ → Pane → AppState R
  on_toplevel_created half s hosted surface pane =
      let pane_id = s.next_id in
      let target = s.focused in
      let taken = record s { next_id = next_pane_id pane_id } in
      let (layout, replaced) =
        replace_leaf taken.layout target (halved half Dir.vertical pane_id) in
      let split = record taken { layout = layout } in
      if not hosted
      then s
      else if contains_key target s.panes
      then (if not replaced then split else register_satellite split target pane_id surface pane)
      else register_satellite (record taken { layout = Layout.leaf pane_id }) target pane_id surface
          pane

  abbrev pub first_in_active : AppState R → Option ℕ
  first_in_active s = elim s.active_anchor [
    | none ↦ none
    | some anchor ↦ first_in anchor s.pane_workspace (leaves s.layout)
  ]

  abbrev pub focus_survivor : AppState R → ℕ → AppState R
  focus_survivor s pane_id =
      if s.focused == pane_id
      then record s {
        focused = unwrap_or (or_else (first_in_active s) (first (leaves s.layout))) pane_id;
      }
      else s

  -- `on_toplevel_closed` for the pane of the surface.
  unfoldable pub close_satellite : AppState R → ℕ → AppState R
  close_satellite s pane_id =
      let (layout, removed) = remove_leaf s.layout pane_id in
      let gone = drop_pane (record s { layout = layout }) pane_id in
      if is_leaf s.layout pane_id
      then s
      else focus_survivor (record gone { pane_workspace = erase pane_id gone.pane_workspace })
          pane_id

  abbrev pub closed_at : AppState R → ℕ → Option ℕ → AppState R
  closed_at s surface none = s
  closed_at s surface (some pane_id) =
      close_satellite
        (record s {
          surface_to_pane = erase surface s.surface_to_pane;
          panes = mark_closed pane_id s.panes;
        })
        pane_id

  unfoldable pub on_toplevel_closed : AppState R → ℕ → AppState R
  on_toplevel_closed s surface = closed_at s surface (lookup surface s.surface_to_pane)
