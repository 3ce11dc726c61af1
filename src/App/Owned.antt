-- ===== src/App/Owned.antt =====
-- The orphans in the state after `remove_anchor` and `close_focused` of crates/lmux/src/state.rs.
use lmux.Prelude.{
  ℕ, true, false, Option, none, some, List, [], ◌∷◌, ◌==◌, nat_eq, option_eq, beq_self, lookup,
  lookup-erase, contains, contains_key, ◌≡◌, refl, arith, Bool-cases, Option-cases, inl, inr, ap,
  ◌∙◌, sym, subst,
}
use lmux.Layout.{leaves, remove_leaf, is_leaf}
use lmux.Layout.Remove.{remove_leaf-found}
use lmux.App.Panes.{disown, drop_pane, close_focused}
use lmux.App.{AppState, Pane, is_terminal, first_terminal}
use lmux.App.Tabs.{ensure_terminal_tab_stack, remove_terminal_tab_metadata}
use lmux.App.Anchors.{
  first, first_terminal_leaf, is_orphan, set_active_anchor, tag_anchor_core, tag_and_activate,
  seed_anchor, activate_some_anchor, ensure_anchor_invariant, close_orphan_terminal_panes,
}
use lmux.App.Consistent.{IsSound, IsConsistent, close_orphan_terminal_panes-IsSound}
use lmux.App.Invariant.{
  HasActive, first-none, activate-next, activate-nothing, activate-seed, ensure-active, ensure-none,
  ensure-stale, ensure_anchor_invariant-lem,
}
use lmux.App.Closing.{disown-fields, closed-IsSound}
use lmux.App.Orphans.{NoOrphan, close_orphan_terminal_panes-lem, close_orphan-gone}

module _ {R : Type 0} where
  -- An orphan is alone on the screen.
  abbrev OrphanAlone : AppState R → Type 0
  OrphanAlone s =
      (id : ℕ) (p : Pane)
      → lookup id s.panes ≡ some p
      → is_orphan s (id, p) ≡ true
      → leaves s.layout ≡ id ∷ []

  -- The panes stay, and no pane becomes an orphan.
  abbrev Settles : AppState R → AppState R → Type 0
  Settles s t =
      (t.panes ≡ s.panes)
      × (t.layout ≡ s.layout)
      × ((id : ℕ) (p : Pane) → is_orphan t (id, p) ≡ true → is_orphan s (id, p) ≡ true)

  set_active_anchor-Settles : (s : AppState R) (a : Option ℕ) → Settles s (set_active_anchor s a)
  unfolding set_active_anchor
  set_active_anchor-Settles s a = (ground arith, ground arith, λ id p h. ground arith)

  pub tag_and_activate-shown :
      (s : AppState R) (a : ℕ)
      → ((tag_and_activate s a).panes ≡ s.panes) × ((tag_and_activate s a).layout ≡ s.layout)
  unfolding tag_and_activate tag_anchor_core set_active_anchor ensure_terminal_tab_stack
  tag_and_activate-shown s a = (ground arith, ground arith)

  seed_anchor-shown :
      (s : AppState R) (a : ℕ)
      → ((seed_anchor s a).panes ≡ s.panes) × ((seed_anchor s a).layout ≡ s.layout)
  unfolding seed_anchor remove_terminal_tab_metadata
  seed_anchor-shown s a = tag_and_activate-shown _ a

  -- Without anchors each terminal is an orphan.
  bare-orphan :
      (s t : AppState R) (id : ℕ) (p : Pane)
      → s.anchors ≡ []
      → is_orphan t (id, p) ≡ true
      → is_orphan s (id, p) ≡ true
  bare-orphan s t id p bare h = ground arith

  activate_some_anchor-Settles : (s : AppState R) → Settles s (activate_some_anchor s)
  activate_some_anchor-Settles s = elim (Option-cases (first s.anchors)) [
    | inr (next, e) ↦
        subst (Settles s) (sym (activate-next s next e)) (set_active_anchor-Settles s (some next))
    | inl e ↦ elim (Option-cases (first_terminal_leaf s)) [
      | inl f ↦ subst (Settles s) (sym (activate-nothing s e f)) ((refl, refl, λ id p h. h))
      | inr (seed, f) ↦
          let (panes, layout) = seed_anchor-shown s seed in
          subst (Settles s) (sym (activate-seed s seed e f)) (
            (
              panes,
              layout,
              λ id p h. bare-orphan s (seed_anchor s seed) id p (first-none s.anchors e) h,
            ))
    ]
  ]

  pub ensure_anchor_invariant-Settles : (s : AppState R) → Settles s (ensure_anchor_invariant s)
  ensure_anchor_invariant-Settles s = elim (Option-cases s.active_anchor) [
    | inl e ↦ subst (Settles s) (sym (ensure-none s e)) (activate_some_anchor-Settles s)
    | inr (a, e) ↦ elim (Bool-cases (contains a s.anchors)) [
      | inl inside ↦
          subst (Settles s) (sym (ensure-active s a e inside)) ((refl, refl, λ id p h. h))
      | inr gone ↦
          subst (Settles s) (sym (ensure-stale s a e gone))
            (activate_some_anchor-Settles (record s { active_anchor = none }))
    ]
  ]

  first_terminal-none :
      (s : AppState R) (ids : List ℕ) (id : ℕ)
      → first_terminal s ids ≡ none
      → contains id ids ≡ true
      → is_terminal (lookup id s.panes) ≡ false
  first_terminal-none s [] id h here = cc
  first_terminal-none s (k ∷ ids) id h here = elim (Bool-cases (k == id)) [
    | inl e ↦ ground (arith, nat_eq.beq_iff k id)
    | inr e ↦ ground (arith, first_terminal-none s ids id, nat_eq.beq_iff id k, nat_eq.beq_iff k id)
  ]

  -- In a consistent state with an active anchor, a pane that is alone is an anchor.
  settled-owned : (t : AppState R) → IsConsistent t → HasActive t → OrphanAlone t → NoOrphan t
  unfolding first_terminal_leaf
  settled-owned t h (inl (a, e)) alone id p there = elim (Bool-cases (is_orphan t (id, p))) [
    | inr owned ↦ owned
    | inl orphan ↦
        let only = alone id p there orphan in
        absurd (
          ground
            (arith, h.1 a e, h.0.tagged a, h.0.placed a, nat_eq.beq_iff a id, nat_eq.beq_iff id a))
  ]
  settled-owned t h (inr bare) alone id p there = elim (Bool-cases (is_orphan t (id, p))) [
    | inr owned ↦ owned
    | inl orphan ↦
        let placed : contains id (leaves t.layout) ≡ true = ground (arith, h.0.placed id) in
        absurd (ground (arith, first_terminal-none t (leaves t.layout) id bare placed))
  ]

  -- `ensure_anchor_invariant` leaves no orphan where one could only be alone on the screen.
  ensure-NoOrphan :
      (s : AppState R) → IsSound s → OrphanAlone s → NoOrphan (ensure_anchor_invariant s)
  ensure-NoOrphan s h alone =
      let t = ensure_anchor_invariant s in
      let (panes, layout, stays) = ensure_anchor_invariant-Settles s in
      let (kept, active) = ensure_anchor_invariant-lem s h in
      let alone' : OrphanAlone t = λ id p there orphan.
        ap leaves layout ∙ alone id p (ap (lookup id) (sym panes) ∙ there) (stays id p orphan) in
      settled-owned t kept active alone'

  closed-OrphanAlone : (s : AppState R) → IsSound s → OrphanAlone (close_orphan_terminal_panes s)
  closed-OrphanAlone s h id p there orphan = close_orphan_terminal_panes-lem s id p h there orphan

  -- What closing a pane ends with.
  settle-owned :
      (s : AppState R) (target : ℕ)
      → IsSound s
      → contains_key target s.panes ≡ false
      → let t = ensure_anchor_invariant (close_orphan_terminal_panes s) in
        HasActive t × NoOrphan t × (contains_key target t.panes ≡ false)
  settle-owned s target h gone =
      let closed = close_orphan_terminal_panes s in
      let sound = close_orphan_terminal_panes-IsSound s h in
      (
        (ensure_anchor_invariant-lem closed sound).1,
        ensure-NoOrphan closed sound (closed-OrphanAlone s h),
        ap (contains_key target) (ensure_anchor_invariant-Settles closed).0
            ∙ close_orphan-gone s target gone,
      )

  drop_pane-gone :
      (s : AppState R) (target : ℕ) → contains_key target (drop_pane s target).panes ≡ false
  unfolding drop_pane remove_terminal_tab_metadata
  drop_pane-gone s target = ground (arith, lookup-erase target target s.panes, beq_self target)

  -- In a consistent state that shows the focused pane and another one, `close_focused` takes the focused
  -- pane out, and leaves an active anchor, wherever the layout shows a terminal, and each terminal an
  -- anchor or in the workspace of one.
  pub close_focused-owned :
      (s : AppState R)
      → IsConsistent s
      → contains_key s.focused s.panes ≡ true
      → is_leaf s.layout s.focused ≡ false
      → (contains_key s.focused (close_focused s).panes ≡ false)
        × HasActive (close_focused s)
        × NoOrphan (close_focused s)
  unfolding close_focused first_terminal_leaf
  close_focused-owned s h there more =
      let target = s.focused in
      let cut : AppState R = record s { layout = (remove_leaf s.layout target).0 } in
      let gone = drop_pane (disown cut target) target in
      let hit : (remove_leaf s.layout target).1 ≡ true =
        ground (arith, remove_leaf-found s.layout target, h.0.placed target) in
      let known : contains_key target (disown cut target).panes ≡ true =
        ap (contains_key target) (disown-fields cut target).1 ∙ there in
      let (active, owned, away) =
        settle-owned gone target (closed-IsSound s target h.0 hit)
          (drop_pane-gone (disown cut target) target) in
      rw (more, hit, known) (away, active, owned)
