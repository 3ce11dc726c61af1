-- ===== src/App/Tagging.antt =====
-- The invariant through the operations on anchors of crates/lmux/src/state.rs.
use lmux.Prelude.{
  ℕ, not, some, List, [], ◌∷◌, ◌==◌, nat_eq, option_eq, length, ◌%◌, contains, contains-without,
  lookup-retain_map, arith, Bool-cases, inl, inr,
}
use lmux.App.{AppState}
use lmux.App.Tabs.{ensure_terminal_tab_stack}
use lmux.App.Anchors.{
  tag_anchor_core, close_orphan_terminal_panes, first, add_anchor, restore_anchor, drop_anchor,
  replace_active, remove_anchor, cycle_active_anchor, cycle_among, next_place, nth_or,
}
use lmux.App.Consistent.{
  IsSound, ActiveIsAnchor, IsConsistent, set_active_anchor-IsSound,
  set_active_anchor-ActiveIsAnchor, ensure_terminal_tab_stack-IsSound, tag_anchor_core-IsSound,
  tag_anchor_core-ActiveIsAnchor, close_orphan_terminal_panes-IsSound,
  close_orphan_terminal_panes-anchors,
}
use lmux.App.Invariant.{ensure_anchor_invariant-lem}

module _ {R : Type 0} where
  pub drop_anchor-IsSound :
      (s : AppState R) (target : ℕ) → IsSound s → IsSound (drop_anchor s target)
  unfolding drop_anchor
  drop_anchor-IsSound s target h = record {
    distinct = h.distinct;
    placed = h.placed;
    tagged = λ a x. ground (arith, contains-without target a s.anchors, h.tagged a);
    rooted = λ a x. ground (
      arith,
      contains-without target a s.anchors,
      lookup-retain_map (λ (pane owner : ℕ). not (owner == target)) a s.pane_workspace,
      h.rooted a,
    );
    above = h.above;
  }

  pub replace_active-IsSound :
      (s : AppState R) (target : ℕ) → IsSound s → IsSound (replace_active s target)
  unfolding replace_active
  replace_active-IsSound s target h = elim (Bool-cases (s.active_anchor == some target)) [
    | inl e ↦ rw e (set_active_anchor-IsSound s (first s.anchors) h)
    | inr e ↦ rw e h
  ]

  pub remove_anchor-IsConsistent :
      (s : AppState R) (target : ℕ) → IsConsistent s → IsConsistent (remove_anchor s target)
  unfolding remove_anchor
  remove_anchor-IsConsistent s target h = elim (Bool-cases (contains target s.anchors)) [
    | inr miss ↦ rw miss h
    | inl there ↦
        let closed = close_orphan_terminal_panes (drop_anchor s target) in
        rw there
          (ensure_anchor_invariant-lem (replace_active closed target) (
            replace_active-IsSound closed target (
              close_orphan_terminal_panes-IsSound (drop_anchor s target)
                (drop_anchor-IsSound s target h.0)))).0
  ]

  pub restore_anchor-IsConsistent :
      (s : AppState R) (target : ℕ) → IsConsistent s → IsConsistent (restore_anchor s target)
  unfolding restore_anchor
  restore_anchor-IsConsistent s target h =
      let tagged = (tag_anchor_core s target).0 in
      let sound = tag_anchor_core-IsSound s target h.0 in
      let active = tag_anchor_core-ActiveIsAnchor s target h.1 in
      elim (Bool-cases (tag_anchor_core s target).1) [
        | inl e ↦ rw e (
          ensure_terminal_tab_stack-IsSound tagged target sound,
          unfold ensure_terminal_tab_stack in active,
        )
        | inr e ↦ rw e (sound, active)
      ]

  pub add_anchor-IsConsistent :
      (s : AppState R) (target : ℕ) → IsConsistent s → IsConsistent (add_anchor s target)
  unfolding add_anchor
  add_anchor-IsConsistent s target h =
      let tagged = (tag_anchor_core s target).0 in
      let sound = tag_anchor_core-IsSound s target h.0 in
      let active = tag_anchor_core-ActiveIsAnchor s target h.1 in
      let closed = close_orphan_terminal_panes tagged in
      let (anchors, kept) = close_orphan_terminal_panes-anchors tagged in
      let stacked = ensure_terminal_tab_stack closed target in
      let closed-ActiveIsAnchor : ActiveIsAnchor closed = λ a x. ground (arith, active a) in
      elim (Bool-cases (tag_anchor_core s target).1) [
        | inr e ↦ rw e (sound, active)
        | inl e ↦ rw e (
          set_active_anchor-IsSound stacked (some target) (
              ensure_terminal_tab_stack-IsSound closed target
                (close_orphan_terminal_panes-IsSound tagged sound)),
          set_active_anchor-ActiveIsAnchor stacked (some target)
              (unfold ensure_terminal_tab_stack in closed-ActiveIsAnchor),
        )
      ]

  cycle_among-IsConsistent :
      (s : AppState R) (ids : List ℕ) → IsConsistent s → IsConsistent (cycle_among s ids)
  unfolding cycle_among
  cycle_among-IsConsistent s [] h = add_anchor-IsConsistent s s.focused h
  cycle_among-IsConsistent s (a ∷ rest) h =
      let next = nth_or a (a ∷ rest) (next_place s % length (a ∷ rest)) in
      elim (Bool-cases (some next == s.active_anchor)) [
        | inl e ↦ rw e h
        | inr e ↦ rw e (
          set_active_anchor-IsSound s (some next) h.0,
          set_active_anchor-ActiveIsAnchor s (some next) h.1,
        )
      ]

  pub cycle_active_anchor-IsConsistent :
      (s : AppState R) → IsConsistent s → IsConsistent (cycle_active_anchor s)
  unfolding cycle_active_anchor
  cycle_active_anchor-IsConsistent s h = cycle_among-IsConsistent s s.anchors h
