-- ===== src/App/Creating.antt =====
-- The invariant through new tabs and new anchors, and the place of a split:
-- `create_terminal_tab_for_anchor`, `create_new_anchor` and `split_focused` of crates/lmux/src/state.rs.
use lmux.Prelude.{
  ℕ, ◌+◌, ◌<◌, true, false, not, ◌||◌, Option, none, some, [], ◌∷◌, ◌==◌, nat_eq, option_eq,
  beq_self, if◌then◌else◌, lookup, insert, erase, contains, contains_key, lookup-insert,
  lookup-erase, ◌≡◌, refl, arith, Bool-cases, inl, inr, ap, ◌∙◌,
}
use lmux.Layout.{Dir, leaves, replace_leaf}
use lmux.Layout.Leaves.{splice, leaves-replace_leaf}
use lmux.App.{AppState, Pane, active_terminal_tab}
use lmux.App.Tabs.{ensure_terminal_tab_stack, remove_terminal_tab_metadata}
use lmux.App.Panes.{
  u32_max, next_pane_id, halved, forget_pane, inherit_workspace, split_focused, place_tab,
  place_made, create_new_anchor, as_root, create_terminal_tab_for_anchor,
}
use lmux.App.Consistent.{
  IsSound, IsConsistent, same-IsSound, remove_terminal_tab_metadata-IsSound,
  ensure_terminal_tab_stack-IsSound,
}
use lmux.App.Invariant.{tag_and_activate-IsConsistent}
use lmux.App.Splitting.{
  placed-IsSound, forgotten-IsSound, next-absent, leaves-halved, inherited-fields,
  inherited-workspace, split_focused-IsConsistent,
}

module _ {R : Type 0} where
  -- A split of a pane that there is, while there are ids left, puts the new pane right behind it in
  -- the layout, gives it the same workspace, and leaves the focus where it was.
  pub split_focused-splits :
      (half : R) (s : AppState R) (dir : Dir) (pane : Pane)
      → IsConsistent s
      → contains_key s.focused s.panes ≡ true
      → s.next_id < u32_max
      → let t = split_focused half s dir (some pane) in
        (leaves t.layout ≡ splice s.focused (s.focused ∷ s.next_id ∷ []) (leaves s.layout))
        × (lookup s.next_id t.panes ≡ some pane)
        × (lookup s.focused t.pane_workspace ≡ lookup s.focused s.pane_workspace)
        × (t.focused ≡ s.focused)
        × (t.next_id ≡ s.next_id + 1)
  unfolding split_focused
  split_focused-splits half s dir pane h there room =
      let target = s.focused in
      let new = s.next_id in
      let added : AppState R = record s {
        panes = insert new pane s.panes;
        pane_uuids = insert new s.fresh s.pane_uuids;
        fresh = s.fresh + 1;
      } in
      let (l, p, a, n, act, f) = inherited-fields added target new in
      let same = ap (λ t. replace_leaf t target (halved half dir new)) l in
      let (found, shape) = leaves-replace_leaf s.layout target (halved half dir new) in
      let hit : (replace_leaf (inherit_workspace added target new).layout target
            (halved half dir new)).1
          ≡ true =
        ap (λ t. t.1) same ∙ found ∙ h.0.placed target ∙ there in
      let apart : (target == new) ≡ false =
        ground (arith, next-absent s h.0, nat_eq.beq_iff target new) in
      rw hit (
        ap (λ t. leaves t.0) same
            ∙ shape
            ∙ ap (λ u. splice target u (leaves s.layout)) (leaves-halved half dir new target),
        ap (lookup new) p
            ∙ lookup-insert new new pane s.panes
            ∙ ap (λ t. if t then some pane else lookup new s.panes) (beq_self new),
        inherited-workspace added target new target apart,
        f,
        ap next_pane_id n ∙ ground arith,
      )

  free-IsSound :
      (s : AppState R) (id : ℕ)
      → contains id s.anchors ≡ false
      → IsSound s
      → IsSound (record s { pane_workspace = erase id s.pane_workspace })
  free-IsSound s id plain h = record {
    distinct = h.distinct;
    placed = h.placed;
    tagged = h.tagged;
    rooted =
        λ a x. ground (arith, lookup-erase id a s.pane_workspace, h.rooted a, nat_eq.beq_iff id a);
    above = h.above;
  }

  as_root-IsConsistent :
      (s : AppState R) (id : ℕ)
      → contains id s.anchors ≡ false
      → IsConsistent s
      → IsConsistent (as_root s id)
  unfolding as_root
  as_root-IsConsistent s id plain h =
      let loose : AppState R = record s { pane_workspace = erase id s.pane_workspace } in
      let cleared = remove_terminal_tab_metadata loose id in
      (
        same-IsSound cleared (as_root s id) refl refl refl refl refl
            (remove_terminal_tab_metadata-IsSound loose id (free-IsSound s id plain h.0)),
        unfold remove_terminal_tab_metadata in h.1,
      )

  split_focused-anchors :
      (half : R) (s : AppState R) (dir : Dir) (pane : Option Pane)
      → (split_focused half s dir pane).anchors ≡ s.anchors
  unfolding split_focused inherit_workspace forget_pane remove_terminal_tab_metadata
  split_focused-anchors half s dir none = refl
  split_focused-anchors half s dir (some pane) = ground arith

  -- `create_new_anchor` keeps the invariant while there are ids left.
  pub create_new_anchor-IsConsistent :
      (half : R) (s : AppState R) (pane : Option Pane)
      → IsConsistent s
      → s.next_id < u32_max
      → IsConsistent (create_new_anchor half s pane)
  unfolding create_new_anchor
  create_new_anchor-IsConsistent half s pane h room =
      let new = s.next_id in
      let split = split_focused half s Dir.vertical pane in
      let split-IsConsistent = split_focused-IsConsistent half s Dir.vertical pane h room in
      elim (Bool-cases (contains_key new split.panes)) [
        | inr miss ↦ rw miss split-IsConsistent
        | inl there ↦
            let plain : contains new split.anchors ≡ false = ground (
              arith,
              split_focused-anchors half s Dir.vertical pane,
              h.0.tagged new,
              next-absent s h.0,
            ) in
            rw there (
              tag_and_activate-IsConsistent (as_root split new) new
                (as_root-IsConsistent split new plain split-IsConsistent))
      ]

  place_tab-IsConsistent :
      (half : R) (s : AppState R) (anchor target : ℕ) (pane : Pane)
      → IsConsistent s
      → s.next_id < u32_max
      → IsConsistent (place_tab half s anchor target pane).0
  unfolding place_tab
  place_tab-IsConsistent half s anchor target pane h room =
      let new = s.next_id in
      let split = replace_leaf s.layout target (halved half Dir.vertical new) in
      let found = (leaves-replace_leaf s.layout target (halved half Dir.vertical new)).0 in
      let away : (id : ℕ)
          → (id == new) ≡ false
          → lookup id (insert new anchor s.pane_workspace) ≡ lookup id s.pane_workspace =
        λ id other. ground (arith, lookup-insert new id anchor s.pane_workspace) in
      elim (Bool-cases (split.1)) [
        | inl hit ↦ rw hit (
          placed-IsSound half Dir.vertical target pane s _ h.0 room (ground (arith, found)) refl
              refl refl away refl,
          h.1,
        )
        | inr miss ↦ rw miss (
            unfold forget_pane remove_terminal_tab_metadata in
            (
              forgotten-IsSound half Dir.vertical target pane s _ h.0 room (ground (arith, found))
                  refl refl refl away refl,
              h.1,
            ))
      ]

  place_made-IsConsistent :
      (half : R) (s : AppState R) (anchor target : ℕ) (pane : Option Pane)
      → IsConsistent s
      → s.next_id < u32_max
      → IsConsistent (place_made half s anchor target pane).0
  place_made-IsConsistent half s anchor target none h room = h
  place_made-IsConsistent half s anchor target (some pane) h room =
      place_tab-IsConsistent half s anchor target pane h room

  -- `create_terminal_tab_for_anchor` keeps the invariant while there are ids left.
  pub create_terminal_tab-IsConsistent :
      (half : R) (s : AppState R) (anchor : ℕ) (pane : Option Pane)
      → IsConsistent s
      → s.next_id < u32_max
      → IsConsistent (create_terminal_tab_for_anchor half s anchor pane).0
  unfolding create_terminal_tab_for_anchor
  create_terminal_tab-IsConsistent half s anchor pane h room =
      let stacked = ensure_terminal_tab_stack s anchor in
      let target = active_terminal_tab stacked anchor in
      let kept : IsConsistent stacked =
        (ensure_terminal_tab_stack-IsSound s anchor h.0, unfold ensure_terminal_tab_stack in h.1) in
      let left : stacked.next_id < u32_max = unfold ensure_terminal_tab_stack in room in
      elim (Bool-cases (not (contains anchor s.anchors) || not (contains_key anchor s.panes))) [
        | inl out ↦ rw out h
        | inr within ↦ elim (Bool-cases (contains_key target stacked.panes)) [
          | inr miss ↦ rw (within, miss) kept
          | inl there ↦
              rw (within, there) (place_made-IsConsistent half stacked anchor target pane kept left)
        ]
      ]
