-- ===== src/App/Hosted/Kept.antt =====
-- What `on_toplevel_created` and `on_toplevel_closed` of crates/lmux/src/state.rs keep.
use lmux.Prelude.{
  ℕ, ◌<◌, Bool, true, false, some, ◌==◌, nat_eq, option_eq, lookup, insert, erase, contains,
  contains_key, without, lookup-insert, lookup-erase, lookup-map_values, without_id,
  contains-without, Distinct-without, ◌≡◌, ◌↔◌, refl, arith, Bool-cases, Option-cases, inl, inr, ap,
  ◌∙◌, sym, subst, beq_self,
}
use lmux.Layout.{Layout, Dir, leaves, replace_leaf, remove_leaf, is_leaf}
use lmux.Layout.Leaves.{leaves-leaf, leaves-replace_leaf}
use lmux.Layout.Remove.{remove_leaf-found, leaves-remove_leaf}
use lmux.App.{AppState, Pane}
use lmux.App.Tabs.{remove_terminal_tab_metadata}
use lmux.App.Panes.{u32_max, next_pane_id, halved, drop_pane}
use lmux.App.Consistent.{IsConsistent, same-IsSound}
use lmux.App.Splitting.{placed-IsSound}
use lmux.App.Hosted.{
  closed_if, mark_closed, inherit_owner, register_satellite, on_toplevel_created, focus_survivor,
  close_satellite, closed_at, on_toplevel_closed,
}

module _ {R : Type 0} where
  inherit_owner-fields :
      (s : AppState R) (target new : ℕ)
      → let t = inherit_owner s target new in
        (t.layout ≡ s.layout)
        × (t.panes ≡ s.panes)
        × (t.anchors ≡ s.anchors)
        × (t.next_id ≡ s.next_id)
        × (t.active_anchor ≡ s.active_anchor)
        × ((id : ℕ) → (id == new) ≡ false → lookup id t.pane_workspace ≡ lookup id s.pane_workspace)
  inherit_owner-fields s target new = elim (Option-cases (lookup target s.pane_workspace)) [
    | inl e ↦ (
      ground arith,
      ground arith,
      ground arith,
      ground arith,
      ground arith,
      λ id other. ground arith,
    )
    | inr (owner, e) ↦ (
      ground arith,
      ground arith,
      ground arith,
      ground arith,
      ground arith,
      λ id other. ground (arith, lookup-insert new id owner s.pane_workspace),
    )
  ]

  -- A window that appears while the focus is on a pane, and there are ids left, keeps the invariant.
  pub on_toplevel_created-IsConsistent :
      (half : R) (s : AppState R) (hosted : Bool) (surface : ℕ) (pane : Pane)
      → IsConsistent s
      → contains_key s.focused s.panes ≡ true
      → s.next_id < u32_max
      → IsConsistent (on_toplevel_created half s hosted surface pane)
  unfolding on_toplevel_created
  on_toplevel_created-IsConsistent half s false surface pane h live room = h
  on_toplevel_created-IsConsistent half s true surface pane h live room =
      let new = s.next_id in
      let target = s.focused in
      let split = replace_leaf s.layout target (halved half Dir.vertical new) in
      let hit : split.1 ≡ true =
        (leaves-replace_leaf s.layout target (halved half Dir.vertical new)).0
        ∙ h.0.placed target
        ∙ live in
      let taken : AppState R = record s { next_id = next_pane_id new; layout = split.0 } in
      let (l, p, a, n, act, w) = inherit_owner-fields taken target new in
      rw (live, hit)
        (
          placed-IsSound half Dir.vertical target pane s
              (register_satellite taken target new surface pane) h.0 room (h.0.placed target ∙ live)
              l (ap (insert new pane) p) a w n,
          λ b x. rw a (h.1 b (sym act ∙ x)),
        )

  -- While the focus is on no pane, a new window becomes the only leaf, and the other panes stay among
  -- the panes.
  on_toplevel_created-loses :
      (half : R) (s : AppState R) (surface id : ℕ) (pane : Pane)
      → IsConsistent s
      → contains_key id s.panes ≡ true
      → contains_key s.focused s.panes ≡ false
      → let t = on_toplevel_created half s true surface pane in
        (contains id (leaves t.layout) ≡ false) × (contains_key id t.panes ≡ true)
  unfolding on_toplevel_created
  on_toplevel_created-loses half s surface id pane h left gone =
      let new = s.next_id in
      let alone : AppState R = record s { next_id = next_pane_id new; layout = Layout.leaf new } in
      let (l, p, a, n, act, w) = inherit_owner-fields alone s.focused new in
      let old : (id == new) ≡ false = ground (arith, h.0.above id left, nat_eq.beq_iff id new) in
      rw gone (
        ap (λ t. contains id (leaves t)) l
            ∙ ap (contains id) (leaves-leaf R new)
            ∙ ground (arith, old, nat_eq.beq_iff new id, nat_eq.beq_iff id new),
        ap (λ t. contains_key id (insert new pane t)) p
            ∙ ground (arith, old, lookup-insert new id pane s.panes),
      )

  -- For a window of the host that appears in a consistent state with a pane, while there are ids left:
  -- the state is consistent afterwards exactly if the focus was on a pane.
  pub on_toplevel_created-IsConsistent_iff :
      (half : R) (s : AppState R) (surface id : ℕ) (pane : Pane)
      → IsConsistent s
      → contains_key id s.panes ≡ true
      → s.next_id < u32_max
      → IsConsistent (on_toplevel_created half s true surface pane)
        ↔ (contains_key s.focused s.panes ≡ true)
  on_toplevel_created-IsConsistent_iff half s surface id pane h left room = (
    λ k. elim (Bool-cases (contains_key s.focused s.panes)) [
      | inl live ↦ live
      | inr gone ↦
          let (off, there) = on_toplevel_created-loses half s surface id pane h left gone in
          absurd (ground (arith, off, there, k.0.placed id))
    ],
    λ live. on_toplevel_created-IsConsistent half s true surface pane h live room,
  )

  marked-IsConsistent :
      (s : AppState R) (pane surface : ℕ)
      → IsConsistent s
      → IsConsistent (record s {
        surface_to_pane = erase surface s.surface_to_pane;
        panes = mark_closed pane s.panes;
      })
  marked-IsConsistent s pane surface h =
      let same : (id : ℕ) → contains_key id (mark_closed pane s.panes) ≡ contains_key id s.panes =
        λ id. ground (arith, lookup-map_values (closed_if pane) id s.panes) in
      (
        record {
          distinct = h.0.distinct;
          placed = λ id. ground (arith, same id, h.0.placed id);
          tagged = λ a x. ground (arith, same a, h.0.tagged a);
          rooted = h.0.rooted;
          above = λ id x. ground (arith, same id, h.0.above id);
        },
        h.1,
      )

  focus_survivor-IsConsistent :
      (s : AppState R) (pane : ℕ) → IsConsistent s → IsConsistent (focus_survivor s pane)
  focus_survivor-IsConsistent s pane h = (
    same-IsSound s (focus_survivor s pane) (ground arith) (ground arith) (ground arith)
        (ground arith) (ground arith) h.0,
    λ a x. ground (arith, h.1 a),
  )

  gone-IsConsistent :
      (s t : AppState R) (pane : ℕ)
      → IsConsistent s
      → contains pane s.anchors ≡ false
      → t.layout ≡ (remove_leaf s.layout pane).0
      → leaves t.layout ≡ without pane (leaves s.layout)
      → t.panes ≡ erase pane s.panes
      → t.anchors ≡ s.anchors
      → t.pane_workspace ≡ erase pane s.pane_workspace
      → t.next_id ≡ s.next_id
      → t.active_anchor ≡ s.active_anchor
      → IsConsistent t
  gone-IsConsistent s t pane h plain l shape p a w n act = (
    record {
      distinct = rw shape (Distinct-without pane (leaves s.layout) h.0.distinct);
      placed = λ id. ground (
        arith,
        shape,
        contains-without pane id (leaves s.layout),
        lookup-erase pane id s.panes,
        h.0.placed id,
        nat_eq.beq_iff id pane,
        nat_eq.beq_iff pane id,
      );
      tagged =
          λ b x. ground (arith, lookup-erase pane b s.panes, h.0.tagged b, nat_eq.beq_iff pane b);
      rooted = λ b x.
          ground (arith, lookup-erase pane b s.pane_workspace, h.0.rooted b, nat_eq.beq_iff pane b);
      above = λ id x. ground (arith, lookup-erase pane id s.panes, h.0.above id);
    },
    λ b x. rw a (h.1 b (sym act ∙ x)),
  )

  close_satellite-IsConsistent :
      (s : AppState R) (pane : ℕ)
      → IsConsistent s
      → contains pane s.anchors ≡ false
      → IsConsistent (close_satellite s pane)
  unfolding close_satellite drop_pane remove_terminal_tab_metadata
  close_satellite-IsConsistent s pane h plain =
      let cut = (remove_leaf s.layout pane).0 in
      let dropped = drop_pane (record s { layout = cut }) pane in
      let gone : AppState R = record dropped {
        pane_workspace = erase pane dropped.pane_workspace;
      } in
      elim (Bool-cases (is_leaf s.layout pane)) [
        | inl last ↦ rw last h
        | inr more ↦
            let shape : leaves cut ≡ without pane (leaves s.layout) =
              elim (Bool-cases ((remove_leaf s.layout pane).1)) [
                | inl hit ↦ leaves-remove_leaf s.layout pane h.0.distinct hit
                | inr miss ↦
                    ap leaves ((remove_leaf-found s.layout pane).1 miss)
                    ∙ sym (
                        without_id pane (leaves s.layout)
                          (ground (arith, (remove_leaf-found s.layout pane).0)))
              ] in
            rw more (
              focus_survivor-IsConsistent gone pane
                (gone-IsConsistent s gone pane h plain refl shape refl refl refl refl refl))
      ]

  -- A window that closes keeps the invariant if its pane is no anchor.
  pub on_toplevel_closed-IsConsistent :
      (s : AppState R) (surface : ℕ)
      → IsConsistent s
      → ((pane : ℕ)
          → lookup surface s.surface_to_pane ≡ some pane
          → contains pane s.anchors ≡ false)
      → IsConsistent (on_toplevel_closed s surface)
  unfolding on_toplevel_closed
  on_toplevel_closed-IsConsistent s surface h plain =
      elim (Option-cases (lookup surface s.surface_to_pane)) [
        | inl nothing ↦ subst (λ o. IsConsistent (closed_at s surface o)) (sym nothing) h
        | inr (pane, found) ↦
            let marked : AppState R = record s {
              surface_to_pane = erase surface s.surface_to_pane;
              panes = mark_closed pane s.panes;
            } in
            subst (λ o. IsConsistent (closed_at s surface o)) (sym found)
              (close_satellite-IsConsistent marked pane (marked-IsConsistent s pane surface h)
                (plain pane found))
      ]

  -- A window whose pane is an anchor, and not alone on the screen, leaves the anchor when it closes,
  -- and no pane for it.
  pub on_toplevel_closed-stale :
      (s : AppState R) (surface pane : ℕ)
      → lookup surface s.surface_to_pane ≡ some pane
      → contains pane s.anchors ≡ true
      → is_leaf s.layout pane ≡ false
      → (contains pane (on_toplevel_closed s surface).anchors ≡ true)
        × (contains_key pane (on_toplevel_closed s surface).panes ≡ false)
  unfolding on_toplevel_closed close_satellite drop_pane remove_terminal_tab_metadata
  on_toplevel_closed-stale s surface pane found anchor more =
      subst
        (λ o.
          (contains pane (closed_at s surface o).anchors ≡ true)
          × (contains_key pane (closed_at s surface o).panes ≡ false))
        (sym found)
        (
          ground arith,
          ground (arith, lookup-erase pane pane (mark_closed pane s.panes), beq_self pane),
        )
