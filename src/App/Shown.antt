-- ===== src/App/Shown.antt =====
-- The screen through each step of the application, crates/lmux/src/state.rs.
use lmux.Prelude.{
  ℕ, Bool, true, not, ◌||◌, Option, none, some, List, [], ◌∷◌, ◌==◌, nat_eq, option_eq, lookup,
  contains, contains_key, length, ◌%◌, retain, ◌≡◌, refl, arith, Bool-cases, inl, inr, ap, ◌∙◌, sym,
  subst,
}
use lmux.Layout.{Dir, Edge, leaves, remove_leaf, is_leaf, replace_leaf}
use lmux.Layout.Remove.{remove_leaf-found, leaves-remove_leaf}
use lmux.Layout.Reparent.{count-reparent}
use lmux.App.{AppState, Pane, active_terminal_tab}
use lmux.App.Tabs.{ensure_terminal_tab_stack, activate_terminal_tab, remove_terminal_tab_metadata}
use lmux.App.Anchors.{
  nth_or, next_place, set_active_anchor, tag_anchor_core, close_orphan_terminal_panes,
  ensure_anchor_invariant, add_anchor, restore_anchor, drop_anchor, replace_active, remove_anchor,
  cycle_among, cycle_active_anchor,
}
use lmux.App.Panes.{
  halved, forget_pane, split_focused, as_root, create_new_anchor, place_tab, place_made,
  create_terminal_tab_for_anchor, tab_at, create_terminal_tab_for_focused, disown, drop_pane,
  exited, close_focused, close_exited_pane, set_focused, cycle_focus, reparent_pane,
}
use lmux.App.Consistent.{
  IsSound, IsConsistent, tag_anchor_core-IsSound, ensure_terminal_tab_stack-IsSound,
}
use lmux.App.Tagging.{drop_anchor-IsSound}
use lmux.App.Closing.{replace_active-fields, disown-fields, closed-IsSound}
use lmux.App.Owned.{tag_and_activate-shown, ensure_anchor_invariant-Settles}
use lmux.App.Screen.{
  Shows, Kept, Kept-trans, stays, without-retain, close_orphan-Kept, spliced-Shows,
  split_focused-Shows,
}
use lmux.App.Making.Steps.{create_pane_from_bus-Steps}
use lmux.App.Runs.{Op, step}

of_Kept : (xs ys : List ℕ) → Kept xs ys → Shows xs ys
of_Kept xs ys (keep, e) = Shows.closes keep e

module _ {R : Type 0} where
  set_active_anchor-layout :
      (s : AppState R) (a : Option ℕ) → (set_active_anchor s a).layout ≡ s.layout
  unfolding set_active_anchor
  set_active_anchor-layout s a = ground arith

  tag_anchor_core-layout : (s : AppState R) (a : ℕ) → (tag_anchor_core s a).0.layout ≡ s.layout
  unfolding tag_anchor_core
  tag_anchor_core-layout s a = ground arith

  ensure_tab-layout : (s : AppState R) (a : ℕ) → (ensure_terminal_tab_stack s a).layout ≡ s.layout
  unfolding ensure_terminal_tab_stack
  ensure_tab-layout s a = refl

  as_root-layout : (s : AppState R) (a : ℕ) → (as_root s a).layout ≡ s.layout
  unfolding as_root remove_terminal_tab_metadata
  as_root-layout s a = refl

  create_new_anchor-layout :
      (half : R) (s : AppState R) (pane : Option Pane)
      → (create_new_anchor half s pane).layout ≡ (split_focused half s Dir.vertical pane).layout
  unfolding create_new_anchor
  create_new_anchor-layout half s pane =
      let split = split_focused half s Dir.vertical pane in
      ground (
        arith,
        tag_and_activate-shown (as_root split s.next_id) s.next_id,
        as_root-layout split s.next_id,
      )

  place_tab-layout :
      (half : R) (s : AppState R) (anchor target : ℕ) (pane : Pane)
      → (place_tab half s anchor target pane).0.layout
        ≡ (replace_leaf s.layout target (halved half Dir.vertical s.next_id)).0
  unfolding place_tab forget_pane remove_terminal_tab_metadata
  place_tab-layout half s anchor target pane = ground arith

  place_made-Shows :
      (half : R) (s : AppState R) (anchor target : ℕ) (pane : Option Pane)
      → IsSound s
      → Shows (leaves s.layout) (leaves (place_made half s anchor target pane).0.layout)
  place_made-Shows half s anchor target none h = stays refl
  place_made-Shows half s anchor target (some pane) h =
      spliced-Shows half Dir.vertical target s (place_tab half s anchor target pane).0 h
        (place_tab-layout half s anchor target pane)

  create_tab-Shows :
      (half : R) (s : AppState R) (anchor : ℕ) (pane : Option Pane)
      → IsSound s
      → Shows
          (leaves s.layout)
          (leaves (create_terminal_tab_for_anchor half s anchor pane).0.layout)
  unfolding create_terminal_tab_for_anchor
  create_tab-Shows half s anchor pane h =
      let stacked = ensure_terminal_tab_stack s anchor in
      let target = active_terminal_tab stacked anchor in
      let same = ap leaves (ensure_tab-layout s anchor) in
      let made =
        place_made-Shows half stacked anchor target pane
          (ensure_terminal_tab_stack-IsSound s anchor h) in
      elim (Bool-cases (not (contains anchor s.anchors) || not (contains_key anchor s.panes))) [
        | inl out ↦ rw out (stays refl)
        | inr within ↦ elim (Bool-cases (contains_key target stacked.panes)) [
          | inr miss ↦ rw (within, miss) (stays same)
          | inl there ↦
              rw (within, there)
                (subst
                  (λ xs. Shows xs (leaves (place_made half stacked anchor target pane).0.layout))
                  same made)
        ]
      ]

  tab_at-Shows :
      (half : R) (s : AppState R) (pane : Option Pane) (anchor : Option ℕ)
      → IsSound s
      → Shows (leaves s.layout) (leaves (tab_at half s pane anchor).0.layout)
  tab_at-Shows half s pane none h = stays refl
  tab_at-Shows half s pane (some anchor) h = create_tab-Shows half s anchor pane h

  -- What follows `close_orphan_terminal_panes` leaves the layout.
  orphans-Kept :
      (s t : AppState R)
      → IsSound s
      → t.layout ≡ (close_orphan_terminal_panes s).layout
      → Kept (leaves s.layout) (leaves t.layout)
  orphans-Kept s t h e = let (keep, shape) = close_orphan-Kept s h in (keep, ap leaves e ∙ shape)

  add_anchor-Shows :
      (s : AppState R) (target : ℕ)
      → IsSound s
      → Shows (leaves s.layout) (leaves (add_anchor s target).layout)
  unfolding add_anchor
  add_anchor-Shows s target h =
      let tagged = (tag_anchor_core s target).0 in
      let same = ap leaves (tag_anchor_core-layout s target) in
      let closed = close_orphan_terminal_panes tagged in
      let stacked = ensure_terminal_tab_stack closed target in
      let last = set_active_anchor stacked (some target) in
      let (keep, shape) =
        orphans-Kept tagged last (tag_anchor_core-IsSound s target h)
          (set_active_anchor-layout stacked (some target) ∙ ensure_tab-layout closed target) in
      elim (Bool-cases (tag_anchor_core s target).1) [
        | inr e ↦ rw e (stays same)
        | inl e ↦ rw e (Shows.closes keep (shape ∙ ap (retain keep) same))
      ]

  restore_anchor-layout : (s : AppState R) (a : ℕ) → (restore_anchor s a).layout ≡ s.layout
  unfolding restore_anchor
  restore_anchor-layout s a =
      ground (arith, tag_anchor_core-layout s a, ensure_tab-layout (tag_anchor_core s a).0 a)

  remove_anchor-Shows :
      (s : AppState R) (target : ℕ)
      → IsSound s
      → Shows (leaves s.layout) (leaves (remove_anchor s target).layout)
  unfolding remove_anchor
  remove_anchor-Shows s target h =
      let dropped = drop_anchor s target in
      let closed = close_orphan_terminal_panes dropped in
      let next = replace_active closed target in
      let (keep, shape) =
        orphans-Kept dropped (ensure_anchor_invariant next) (drop_anchor-IsSound s target h)
          ((ensure_anchor_invariant-Settles next).1 ∙ (replace_active-fields closed target).0) in
      elim (Bool-cases (contains target s.anchors)) [
        | inr miss ↦ rw miss (stays refl)
        | inl there ↦ rw there (Shows.closes keep (unfold drop_anchor in shape))
      ]

  cycle_among-Shows :
      (s : AppState R) (ids : List ℕ)
      → IsSound s
      → Shows (leaves s.layout) (leaves (cycle_among s ids).layout)
  unfolding cycle_among
  cycle_among-Shows s [] h = add_anchor-Shows s s.focused h
  cycle_among-Shows s (a ∷ rest) h =
      let next = nth_or a (a ∷ rest) (next_place s % length (a ∷ rest)) in
      stays (ap leaves (ground (arith, set_active_anchor-layout s (some next))))

  drop_pane-layout : (s : AppState R) (a : ℕ) → (drop_pane s a).layout ≡ s.layout
  unfolding drop_pane remove_terminal_tab_metadata
  drop_pane-layout s a = refl

  -- A pane is cut out, and then its orphans.
  closed-Shows :
      (s t : AppState R) (target : ℕ)
      → IsSound s
      → (remove_leaf s.layout target).1 ≡ true
      → let gone =
          drop_pane
            (disown (record s { layout = (remove_leaf s.layout target).0 }) target)
            target in
        t.layout ≡ (ensure_anchor_invariant (close_orphan_terminal_panes gone)).layout
        → Shows (leaves s.layout) (leaves t.layout)
  closed-Shows s t target h hit e =
      let cut : AppState R = record s { layout = (remove_leaf s.layout target).0 } in
      let gone = drop_pane (disown cut target) target in
      let first_cut : Kept (leaves s.layout) (leaves gone.layout) = (
        λ x. not (x == target),
        ap leaves (drop_pane-layout (disown cut target) target ∙ (disown-fields cut target).0)
            ∙ leaves-remove_leaf s.layout target h.distinct hit
            ∙ without-retain target (leaves s.layout),
      ) in
      of_Kept (leaves s.layout) (leaves t.layout) (
        Kept-trans (leaves s.layout) (leaves gone.layout) (leaves t.layout) first_cut (
          orphans-Kept gone t (closed-IsSound s target h hit)
            (e ∙ (ensure_anchor_invariant-Settles (close_orphan_terminal_panes gone)).1)))

  close_focused-Shows :
      (s : AppState R) → IsSound s → Shows (leaves s.layout) (leaves (close_focused s).layout)
  unfolding close_focused
  close_focused-Shows s h =
      let target = s.focused in
      let cut : AppState R = record s { layout = (remove_leaf s.layout target).0 } in
      elim (Bool-cases (is_leaf s.layout target)) [
        | inl e ↦ rw e (stays refl)
        | inr e ↦ elim (Bool-cases ((remove_leaf s.layout target).1)) [
          | inr miss ↦ rw (e, miss, (remove_leaf-found s.layout target).1 miss) (stays refl)
          | inl hit ↦
              let there : contains_key target (disown cut target).panes ≡ true = ground (
                arith,
                (disown-fields cut target).1,
                remove_leaf-found s.layout target,
                h.placed target,
              ) in
              rw (e, hit, there)
                (closed-Shows s
                  (ensure_anchor_invariant
                    (close_orphan_terminal_panes (drop_pane (disown cut target) target)))
                  target h hit refl)
        ]
      ]

  close_exited_pane-Shows :
      (s : AppState R) (target : ℕ)
      → IsSound s
      → Shows (leaves s.layout) (leaves (close_exited_pane s target).layout)
  unfolding close_exited_pane
  close_exited_pane-Shows s target h =
      let cut : AppState R = record s { layout = (remove_leaf s.layout target).0 } in
      let gone = drop_pane (disown cut target) target in
      let kept = ensure_anchor_invariant (close_orphan_terminal_panes gone) in
      elim (Bool-cases (is_leaf s.layout target)) [
        | inl e ↦ rw e (stays refl)
        | inr e ↦ elim (Bool-cases (exited (lookup target s.panes))) [
          | inr runs ↦ rw (e, runs) (stays refl)
          | inl over ↦ elim (Bool-cases ((remove_leaf s.layout target).1)) [
            | inr miss ↦ rw (e, over, miss, (remove_leaf-found s.layout target).1 miss) (stays refl)
            | inl hit ↦
                elim (Bool-cases
                  (kept.focused == target || not (contains_key kept.focused kept.panes))) [
                    | inl away ↦ rw (e, over, hit, away) (closed-Shows s kept target h hit refl)
                    | inr here ↦ rw (e, over, hit, here) (closed-Shows s kept target h hit refl)
                  ]
          ]
        ]
      ]

  reparent_pane-Shows :
      (half : R) (s : AppState R) (source target : ℕ) (edge : Edge)
      → Shows (leaves s.layout) (leaves (reparent_pane half s source target edge).layout)
  unfolding reparent_pane
  reparent_pane-Shows half s source target edge = elim (Bool-cases (source == target)) [
    | inl e ↦ rw e (stays refl)
    | inr e ↦ elim (Bool-cases (lookup source s.pane_workspace == lookup target s.pane_workspace)) [
      | inl f ↦ rw (e, f) (Shows.moves (count-reparent half s.layout source target edge))
      | inr f ↦ rw (e, f) (stays refl)
    ]
  ]

  set_focused-layout : (s : AppState R) (id : ℕ) → (set_focused s id).layout ≡ s.layout
  unfolding set_focused
  set_focused-layout s id = ground arith

  cycle_focus-layout : (s : AppState R) (forward : Bool) → (cycle_focus s forward).layout ≡ s.layout
  unfolding cycle_focus
  cycle_focus-layout s forward = ground arith

  show_tab-layout :
      (s : AppState R) (anchor tab : ℕ) → (activate_terminal_tab s anchor tab).0.layout ≡ s.layout
  unfolding activate_terminal_tab
  show_tab-layout s anchor tab = ground arith

  -- Every step of the application from a consistent state is one step of the screen: it opens one pane,
  -- right behind a pane that is shown, or closes panes and leaves the others in their order, or
  -- rearranges the panes.
  pub step-Shows :
      (half : R) (op : Op) (s : AppState R)
      → IsConsistent s
      → Shows (leaves s.layout) (leaves (step half op s).layout)
  unfolding step create_terminal_tab_for_focused cycle_active_anchor
  step-Shows half (Op.split dir pane) s h = split_focused-Shows half s dir pane h.0
  step-Shows half (Op.make_anchor pane) s h =
      subst (λ l. Shows (leaves s.layout) (leaves l)) (sym (create_new_anchor-layout half s pane))
        (split_focused-Shows half s Dir.vertical pane h.0)
  step-Shows half (Op.make_tab pane) s h = tab_at-Shows half s pane _ h.0
  step-Shows half (Op.make_tab_for anchor pane) s h = create_tab-Shows half s anchor pane h.0
  step-Shows half (Op.show_tab anchor tab) s h = stays (ap leaves (show_tab-layout s anchor tab))
  step-Shows half (Op.tag pane) s h = add_anchor-Shows s pane h.0
  step-Shows half (Op.restore pane) s h = stays (ap leaves (restore_anchor-layout s pane))
  step-Shows half (Op.untag pane) s h = remove_anchor-Shows s pane h.0
  step-Shows half (Op.focus pane) s h = stays (ap leaves (set_focused-layout s pane))
  step-Shows half (Op.child_exits pane) s h = stays refl
  step-Shows half (Op.reap pane) s h = close_exited_pane-Shows s pane h.0
  step-Shows half (Op.activate target) s h = stays (ap leaves (set_active_anchor-layout s target))
  step-Shows half (Op.move source target edge) s h = reparent_pane-Shows half s source target edge
  step-Shows half (Op.next_focus forward) s h = stays (ap leaves (cycle_focus-layout s forward))
  step-Shows half Op.next_anchor s h = cycle_among-Shows s s.anchors h.0
  step-Shows half Op.close s h = close_focused-Shows s h.0
  step-Shows half Op.ensure s h = stays (ap leaves (ensure_anchor_invariant-Settles s).1)
  step-Shows half (Op.bus_pane r pane child write) s h =
      (create_pane_from_bus-Steps half s r pane child write h.0).0
