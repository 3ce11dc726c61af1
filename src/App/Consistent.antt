-- ===== src/App/Consistent.antt =====
-- The invariant of `AppState`, crates/lmux/src/state.rs, and the steps that its operations share.
use lmux.Prelude.{
  ℕ, ◌<◌, true, false, Option, none, some, List, [], ◌∷◌, nat_eq, option_eq, lookup, contains,
  contains_key, lookup-insert, lookup-erase, contains-set_insert, contains-without, Distinct,
  Distinct-without, ◌≡◌, refl, arith, Bool-cases, inl, inr, ◌∙◌, sym, subst, All,
}
use lmux.Layout.{leaves, remove_leaf}
use lmux.Layout.Remove.{remove_leaf-found, leaves-remove_leaf}
use lmux.App.{AppState, Pane}
use lmux.App.Tabs.{ensure_terminal_tab_stack, remove_terminal_tab_metadata}
use lmux.App.Anchors.{
  set_active_anchor, is_owned_by_other, tag_anchor_core, close_terminal_pane_without_focus,
  close_all, orphans, is_orphan, close_orphan_terminal_panes,
}

-- The panes are the leaves of the layout, each once; an anchor is a pane, and its own workspace; the
-- next pane's id is above all ids.
pub record IsSound {R : Type 0} (s : AppState R) : Type 0 where
  pub distinct : Distinct (leaves s.layout)
  pub placed : (id : ℕ) → contains id (leaves s.layout) ≡ contains_key id s.panes
  pub tagged : (a : ℕ) → contains a s.anchors ≡ true → contains_key a s.panes ≡ true
  pub rooted : (a : ℕ) → contains a s.anchors ≡ true → lookup a s.pane_workspace ≡ some a
  pub above : (id : ℕ) → contains_key id s.panes ≡ true → id < s.next_id

-- The active anchor is an anchor.
abbrev pub ActiveIsAnchor : {R : Type 0} → AppState R → Type 0
ActiveIsAnchor s = (a : ℕ) → s.active_anchor ≡ some a → contains a s.anchors ≡ true

abbrev pub IsConsistent : {R : Type 0} → AppState R → Type 0
IsConsistent s = IsSound s × ActiveIsAnchor s

module _ {R : Type 0} where
  -- The fields that the invariant is about.
  pub same-IsSound :
      (s t : AppState R)
      → t.layout ≡ s.layout
      → t.panes ≡ s.panes
      → t.anchors ≡ s.anchors
      → t.pane_workspace ≡ s.pane_workspace
      → t.next_id ≡ s.next_id
      → IsSound s
      → IsSound t
  same-IsSound s t l p a w n h = record {
    distinct = rw l h.distinct;
    placed = λ id. rw (l, p) (h.placed id);
    tagged = λ b x. rw p (h.tagged b (subst (λ t. contains b t ≡ true) a x));
    rooted = λ b x. rw w (h.rooted b (subst (λ t. contains b t ≡ true) a x));
    above = λ id x. rw n (h.above id (subst (λ t. contains_key id t ≡ true) p x));
  }

  pub set_active_anchor-IsSound :
      (s : AppState R) (target : Option ℕ) → IsSound s → IsSound (set_active_anchor s target)
  unfolding set_active_anchor
  set_active_anchor-IsSound s target h =
      same-IsSound s (set_active_anchor s target) (ground arith) (ground arith) (ground arith)
        (ground arith) (ground arith) h

  pub set_active_anchor-ActiveIsAnchor :
      (s : AppState R) (target : Option ℕ)
      → ActiveIsAnchor s
      → ActiveIsAnchor (set_active_anchor s target)
  unfolding set_active_anchor
  set_active_anchor-ActiveIsAnchor s none h a x = ground (arith, h a)
  set_active_anchor-ActiveIsAnchor s (some id) h a x = ground (arith, h a)

  pub remove_terminal_tab_metadata-IsSound :
      (s : AppState R) (pane : ℕ) → IsSound s → IsSound (remove_terminal_tab_metadata s pane)
  unfolding remove_terminal_tab_metadata
  remove_terminal_tab_metadata-IsSound s pane h =
      same-IsSound s (remove_terminal_tab_metadata s pane) refl refl refl refl refl h

  pub ensure_terminal_tab_stack-IsSound :
      (s : AppState R) (pane : ℕ) → IsSound s → IsSound (ensure_terminal_tab_stack s pane)
  unfolding ensure_terminal_tab_stack
  ensure_terminal_tab_stack-IsSound s pane h =
      same-IsSound s (ensure_terminal_tab_stack s pane) refl refl refl refl refl h

  pub tag_anchor_core-IsSound :
      (s : AppState R) (target : ℕ) → IsSound s → IsSound (tag_anchor_core s target).0
  unfolding tag_anchor_core
  tag_anchor_core-IsSound s target h = elim (Bool-cases (contains_key target s.panes)) [
    | inr miss ↦ rw miss h
    | inl there ↦ elim (Bool-cases (is_owned_by_other s target)) [
      | inl owned ↦ rw (there, owned) h
      | inr free ↦ elim (Bool-cases (contains target s.anchors)) [
        | inl old ↦ rw (there, free, old) h
        | inr new ↦
            rw (there, free, new)
              (record {
                distinct = h.distinct;
                placed = h.placed;
                tagged = λ a x. ground (
                  arith,
                  contains-set_insert target a s.anchors,
                  nat_eq.beq_iff target a,
                  h.tagged a,
                );
                rooted = λ a x. ground (
                  arith,
                  contains-set_insert target a s.anchors,
                  lookup-insert target a target s.pane_workspace,
                  nat_eq.beq_iff target a,
                  h.rooted a,
                );
                above = h.above;
              })
      ]
    ]
  ]

  pub tag_anchor_core-ActiveIsAnchor :
      (s : AppState R) (target : ℕ) → ActiveIsAnchor s → ActiveIsAnchor (tag_anchor_core s target).0
  unfolding tag_anchor_core
  tag_anchor_core-ActiveIsAnchor s target h a x =
      ground (arith, contains-set_insert target a s.anchors, h a)

  -- A pane that is no anchor is closed.
  pub close_terminal_pane-IsSound :
      (s : AppState R) (pane : ℕ)
      → contains pane s.anchors ≡ false
      → IsSound s
      → IsSound (close_terminal_pane_without_focus s pane).0
  unfolding close_terminal_pane_without_focus remove_terminal_tab_metadata
  close_terminal_pane-IsSound s pane plain h = elim (Bool-cases ((remove_leaf s.layout pane).1)) [
    | inr miss ↦ rw (miss, (remove_leaf-found s.layout pane).1 miss) h
    | inl hit ↦
        let shape = leaves-remove_leaf s.layout pane h.distinct hit in
        rw hit (record {
          distinct = rw shape (Distinct-without pane (leaves s.layout) h.distinct);
          placed = λ id. ground (
            arith,
            shape,
            contains-without pane id (leaves s.layout),
            lookup-erase pane id s.panes,
            h.placed id,
            nat_eq.beq_iff id pane,
            nat_eq.beq_iff pane id,
          );
          tagged = λ a x.
              ground (arith, lookup-erase pane a s.panes, nat_eq.beq_iff pane a, h.tagged a x);
          rooted = λ a x.
              ground
                (arith, lookup-erase pane a s.pane_workspace, nat_eq.beq_iff pane a, h.rooted a x);
          above = λ id x. ground (arith, lookup-erase pane id s.panes, h.above id);
        })
  ]

  pub close_terminal_pane-anchors :
      (s : AppState R) (pane : ℕ)
      → ((close_terminal_pane_without_focus s pane).0.anchors ≡ s.anchors)
        × ((close_terminal_pane_without_focus s pane).0.active_anchor ≡ s.active_anchor)
  unfolding close_terminal_pane_without_focus remove_terminal_tab_metadata
  close_terminal_pane-anchors s pane = (ground arith, ground arith)

  close_all-IsSound :
      (ids : List ℕ) (s : AppState R)
      → All (λ id. contains id s.anchors ≡ false) ids
      → IsSound s
      → IsSound (close_all ids s)
  unfolding close_all
  close_all-IsSound [] s plain h = h
  close_all-IsSound (id ∷ ids) s plain h =
      let s' = (close_terminal_pane_without_focus s id).0 in
      close_all-IsSound ids s'
        (subst (λ t. All (λ id. contains id t ≡ false) ids)
          (sym (close_terminal_pane-anchors s id).0) plain.1)
        (close_terminal_pane-IsSound s id plain.0 h)

  pub close_all-anchors :
      (ids : List ℕ) (s : AppState R)
      → ((close_all ids s).anchors ≡ s.anchors)
        × ((close_all ids s).active_anchor ≡ s.active_anchor)
  unfolding close_all
  close_all-anchors [] s = (refl, refl)
  close_all-anchors (id ∷ ids) s =
      let s' = (close_terminal_pane_without_focus s id).0 in
      let (a, b) = close_all-anchors ids s' in
      let (c, d) = close_terminal_pane-anchors s id in (a ∙ c, b ∙ d)

  pub orphans-plain :
      (s : AppState R) (ps : List (ℕ × Pane))
      → All (λ id. contains id s.anchors ≡ false) (orphans s ps)
  unfolding orphans
  orphans-plain s [] = tt
  orphans-plain s ((pane, p) ∷ ps) = elim (Bool-cases (is_orphan s (pane, p))) [
    | inl e ↦ rw e ((ground arith, orphans-plain s ps))
    | inr e ↦ rw e (orphans-plain s ps)
  ]

  pub close_orphan_terminal_panes-IsSound :
      (s : AppState R) → IsSound s → IsSound (close_orphan_terminal_panes s)
  unfolding close_orphan_terminal_panes
  close_orphan_terminal_panes-IsSound s h =
      close_all-IsSound (orphans s s.panes) s (orphans-plain s s.panes) h

  pub close_orphan_terminal_panes-anchors :
      (s : AppState R)
      → ((close_orphan_terminal_panes s).anchors ≡ s.anchors)
        × ((close_orphan_terminal_panes s).active_anchor ≡ s.active_anchor)
  unfolding close_orphan_terminal_panes
  close_orphan_terminal_panes-anchors s = close_all-anchors (orphans s s.panes) s
