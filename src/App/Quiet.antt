-- ===== src/App/Quiet.antt =====
-- The next pane's id and the grants through the operations of crates/lmux/src/state.rs that take no
-- id.
use lmux.Prelude.{
  ℕ, ◌%◌, Option, none, some, List, [], ◌∷◌, nat_eq, option_eq, length, ◌≡◌, refl, arith,
  Option-cases, inl, inr, ◌∙◌,
}
use lmux.Layout.{remove_leaf}
use lmux.App.{AppState}
use lmux.App.Tabs.{ensure_terminal_tab_stack, remove_terminal_tab_metadata}
use lmux.App.Anchors.{
  first, set_active_anchor, tag_anchor_core, close_terminal_pane_without_focus, close_all, orphans,
  close_orphan_terminal_panes, first_terminal_leaf, tag_and_activate, seed_anchor,
  activate_some_anchor, ensure_anchor_invariant, add_anchor, restore_anchor, drop_anchor,
  replace_active, remove_anchor, nth_or, next_place, cycle_among, cycle_active_anchor,
}
use lmux.App.Panes.{disown, drop_pane, close_focused, close_exited_pane}

module _ {R : Type 0} where
  -- No id is taken, and no grant touched.
  abbrev pub Quiet : AppState R → AppState R → Type 0
  Quiet s t = (t.next_id ≡ s.next_id) × (t.grants ≡ s.grants)

  Quiet-trans : (s t u : AppState R) → Quiet s t → Quiet t u → Quiet s u
  Quiet-trans s t u (n, g) (n', g') = (n' ∙ n, g' ∙ g)

  pub set_active_anchor-Quiet :
      (s : AppState R) (target : Option ℕ) → Quiet s (set_active_anchor s target)
  unfolding set_active_anchor
  set_active_anchor-Quiet s target = ground arith

  tag_anchor_core-Quiet : (s : AppState R) (target : ℕ) → Quiet s (tag_anchor_core s target).0
  unfolding tag_anchor_core
  tag_anchor_core-Quiet s target = ground arith

  pub ensure_tab-Quiet : (s : AppState R) (a : ℕ) → Quiet s (ensure_terminal_tab_stack s a)
  unfolding ensure_terminal_tab_stack
  ensure_tab-Quiet s a = (refl, refl)

  remove_tab-Quiet : (s : AppState R) (a : ℕ) → Quiet s (remove_terminal_tab_metadata s a)
  unfolding remove_terminal_tab_metadata
  remove_tab-Quiet s a = (refl, refl)

  pub tag_and_activate-Quiet : (s : AppState R) (a : ℕ) → Quiet s (tag_and_activate s a)
  unfolding tag_and_activate
  tag_and_activate-Quiet s a =
      let tagged = (tag_anchor_core s a).0 in
      ground (
        arith,
        tag_anchor_core-Quiet s a,
        ensure_tab-Quiet tagged a,
        set_active_anchor-Quiet (ensure_terminal_tab_stack tagged a) (some a),
      )

  seed_anchor-Quiet : (s : AppState R) (seed : ℕ) → Quiet s (seed_anchor s seed)
  unfolding seed_anchor remove_terminal_tab_metadata
  seed_anchor-Quiet s seed = tag_and_activate-Quiet _ seed

  activate_some_anchor-Quiet : (s : AppState R) → Quiet s (activate_some_anchor s)
  unfolding activate_some_anchor
  activate_some_anchor-Quiet s = elim (Option-cases (first s.anchors)) [
    | inr (next, e) ↦ ground (arith, set_active_anchor-Quiet s (some next))
    | inl e ↦ elim (Option-cases (first_terminal_leaf s)) [
      | inl f ↦ ground arith
      | inr (seed, f) ↦ ground (arith, seed_anchor-Quiet s seed)
    ]
  ]

  pub ensure_anchor_invariant-Quiet : (s : AppState R) → Quiet s (ensure_anchor_invariant s)
  unfolding ensure_anchor_invariant
  ensure_anchor_invariant-Quiet s =
      let idle : AppState R = record s { active_anchor = none } in
      ground (arith, activate_some_anchor-Quiet s, activate_some_anchor-Quiet idle)

  close_terminal_pane-Quiet :
      (s : AppState R) (pane : ℕ) → Quiet s (close_terminal_pane_without_focus s pane).0
  unfolding close_terminal_pane_without_focus remove_terminal_tab_metadata
  close_terminal_pane-Quiet s pane = ground arith

  close_all-Quiet : (ids : List ℕ) (s : AppState R) → Quiet s (close_all ids s)
  unfolding close_all
  close_all-Quiet [] s = (refl, refl)
  close_all-Quiet (id ∷ ids) s =
      let one = (close_terminal_pane_without_focus s id).0 in
      Quiet-trans s one (close_all ids one) (close_terminal_pane-Quiet s id)
        (close_all-Quiet ids one)

  close_orphan-Quiet : (s : AppState R) → Quiet s (close_orphan_terminal_panes s)
  unfolding close_orphan_terminal_panes
  close_orphan-Quiet s = close_all-Quiet (orphans s s.panes) s

  pub add_anchor-Quiet : (s : AppState R) (target : ℕ) → Quiet s (add_anchor s target)
  unfolding add_anchor
  add_anchor-Quiet s target =
      let tagged = (tag_anchor_core s target).0 in
      let closed = close_orphan_terminal_panes tagged in
      ground (
        arith,
        tag_anchor_core-Quiet s target,
        close_orphan-Quiet tagged,
        ensure_tab-Quiet closed target,
        set_active_anchor-Quiet (ensure_terminal_tab_stack closed target) (some target),
      )

  pub restore_anchor-Quiet : (s : AppState R) (target : ℕ) → Quiet s (restore_anchor s target)
  unfolding restore_anchor
  restore_anchor-Quiet s target =
      ground (
        arith,
        tag_anchor_core-Quiet s target,
        ensure_tab-Quiet (tag_anchor_core s target).0 target,
      )

  replace_active-Quiet : (s : AppState R) (target : ℕ) → Quiet s (replace_active s target)
  unfolding replace_active
  replace_active-Quiet s target = ground (arith, set_active_anchor-Quiet s (first s.anchors))

  drop_anchor-Quiet : (s : AppState R) (target : ℕ) → Quiet s (drop_anchor s target)
  unfolding drop_anchor
  drop_anchor-Quiet s target = (refl, refl)

  pub remove_anchor-Quiet : (s : AppState R) (target : ℕ) → Quiet s (remove_anchor s target)
  unfolding remove_anchor
  remove_anchor-Quiet s target =
      let closed = close_orphan_terminal_panes (drop_anchor s target) in
      ground (
        arith,
        ensure_anchor_invariant-Quiet (replace_active closed target),
        replace_active-Quiet closed target,
        close_orphan-Quiet (drop_anchor s target),
        drop_anchor-Quiet s target,
      )

  cycle_among-Quiet : (s : AppState R) (ids : List ℕ) → Quiet s (cycle_among s ids)
  unfolding cycle_among
  cycle_among-Quiet s [] = add_anchor-Quiet s s.focused
  cycle_among-Quiet s (a ∷ rest) =
      let next = nth_or a (a ∷ rest) (next_place s % length (a ∷ rest)) in
      ground (arith, set_active_anchor-Quiet s (some next))

  pub cycle_active_anchor-Quiet : (s : AppState R) → Quiet s (cycle_active_anchor s)
  unfolding cycle_active_anchor
  cycle_active_anchor-Quiet s = cycle_among-Quiet s s.anchors

  disown-Quiet : (s : AppState R) (target : ℕ) → Quiet s (disown s target)
  unfolding disown
  disown-Quiet s target =
      ground (arith, replace_active-Quiet (drop_anchor s target) target, drop_anchor-Quiet s target)

  drop_pane-Quiet : (s : AppState R) (target : ℕ) → Quiet s (drop_pane s target)
  unfolding drop_pane remove_terminal_tab_metadata
  drop_pane-Quiet s target = (refl, refl)

  settle-Quiet :
      (s : AppState R) → Quiet s (ensure_anchor_invariant (close_orphan_terminal_panes s))
  settle-Quiet s =
      let closed = close_orphan_terminal_panes s in
      Quiet-trans s closed (ensure_anchor_invariant closed) (close_orphan-Quiet s)
        (ensure_anchor_invariant-Quiet closed)

  pub close_focused-Quiet : (s : AppState R) → Quiet s (close_focused s)
  unfolding close_focused
  close_focused-Quiet s =
      let cut : AppState R = record s { layout = (remove_leaf s.layout s.focused).0 } in
      let left = disown cut s.focused in
      ground (
        arith,
        settle-Quiet (drop_pane left s.focused),
        settle-Quiet left,
        drop_pane-Quiet left s.focused,
        disown-Quiet cut s.focused,
      )

  pub close_exited_pane-Quiet : (s : AppState R) (target : ℕ) → Quiet s (close_exited_pane s target)
  unfolding close_exited_pane
  close_exited_pane-Quiet s target =
      let cut : AppState R = record s { layout = (remove_leaf s.layout target).0 } in
      let left = disown cut target in
      ground (
        arith,
        settle-Quiet (drop_pane left target),
        drop_pane-Quiet left target,
        disown-Quiet cut target,
      )
