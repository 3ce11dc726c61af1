-- ===== src/App/Orphans.antt =====
-- Terminals without an anchor: `close_orphan_terminal_panes` of crates/lmux/src/state.rs.
use lmux.Prelude.{
  ℕ, true, false, some, List, [], ◌∷◌, ◌==◌, nat_eq, option_eq, beq_self, lookup, contains,
  contains_key, lookup-erase, All, ◌≡◌, ◌⊎◌, refl, arith, Bool-cases, Option-cases, inl, inr, ap,
  ◌∙◌, sym, subst,
}
use lmux.Layout.{Layout, leaves, remove_leaf, remove_leaf_in, is_leaf}
use lmux.Layout.Remove.{remove_leaf-found, is_leaf-leaves}
use lmux.App.{AppState, Pane}
use lmux.App.Tabs.{remove_terminal_tab_metadata}
use lmux.App.Anchors.{
  is_orphan, orphans, close_all, close_terminal_pane_without_focus, close_orphan_terminal_panes,
}
use lmux.App.Consistent.{
  IsSound, close_terminal_pane-IsSound, close_terminal_pane-anchors, close_all-anchors,
  orphans-plain,
}

module _ {R : Type 0} where
  -- Each terminal is an anchor, or in the workspace of one.
  abbrev pub NoOrphan : AppState R → Type 0
  NoOrphan s = (id : ℕ) (p : Pane) → lookup id s.panes ≡ some p → is_orphan s (id, p) ≡ false

  -- The pane is closed, or the only one on the screen.
  abbrev Ended : AppState R → ℕ → Type 0
  Ended s id = (contains_key id s.panes ≡ false) ⊎ (is_leaf s.layout id ≡ true)

  orphans-all :
      (s : AppState R) (ps : List (ℕ × Pane)) (id : ℕ) (p : Pane)
      → lookup id ps ≡ some p
      → is_orphan s (id, p) ≡ true
      → contains id (orphans s ps) ≡ true
  unfolding orphans
  orphans-all s [] id p h orphan = cc
  orphans-all s ((k, q) ∷ ps) id p h orphan = elim (Bool-cases (k == id)) [
    | inl e ↦ ground (arith, nat_eq.beq_iff k id)
    | inr e ↦ ground (arith, orphans-all s ps id p)
  ]

  -- A pane that stays keeps its workspace.
  close_terminal_pane-keeps :
      (s : AppState R) (pane id : ℕ) (p : Pane)
      → lookup id (close_terminal_pane_without_focus s pane).0.panes ≡ some p
      → (lookup id s.panes ≡ some p)
        × (lookup id (close_terminal_pane_without_focus s pane).0.pane_workspace
            ≡ lookup id s.pane_workspace)
  unfolding close_terminal_pane_without_focus remove_terminal_tab_metadata
  close_terminal_pane-keeps s pane id p h = (
    ground (arith, lookup-erase pane id s.panes),
    ground (arith, lookup-erase pane id s.panes, lookup-erase pane id s.pane_workspace),
  )

  close_all-keeps :
      (ids : List ℕ) (s : AppState R) (id : ℕ) (p : Pane)
      → lookup id (close_all ids s).panes ≡ some p
      → (lookup id s.panes ≡ some p)
        × (lookup id (close_all ids s).pane_workspace ≡ lookup id s.pane_workspace)
  unfolding close_all
  close_all-keeps [] s id p h = (h, refl)
  close_all-keeps (pane ∷ ids) s id p h =
      let s' = (close_terminal_pane_without_focus s pane).0 in
      let (there, same) = close_all-keeps ids s' id p h in
      let (there', same') = close_terminal_pane-keeps s pane id p there in (there', same ∙ same')

  leaf-remove_leaf :
      (l : Layout R) (id pane : ℕ)
      → is_leaf l id ≡ true
      → ((remove_leaf l pane).1 ≡ false) × (is_leaf (remove_leaf l pane).0 id ≡ true)
  unfolding remove_leaf remove_leaf_in
  leaf-remove_leaf (Layout.leaf k) id pane h = (ground arith, ground arith)
  leaf-remove_leaf (Layout.split dir a b ratio) id pane h = cc

  pub close_terminal_pane-layout :
      (s : AppState R) (pane : ℕ)
      → (close_terminal_pane_without_focus s pane).0.layout ≡ (remove_leaf s.layout pane).0
  unfolding close_terminal_pane_without_focus remove_terminal_tab_metadata
  close_terminal_pane-layout s pane = ground arith

  -- The pane that is alone on the screen stays so.
  alone-stays :
      (ids : List ℕ) (s : AppState R) (id : ℕ)
      → is_leaf s.layout id ≡ true
      → is_leaf (close_all ids s).layout id ≡ true
  unfolding close_all
  alone-stays [] s id alone = alone
  alone-stays (pane ∷ ids) s id alone =
      alone-stays ids (close_terminal_pane_without_focus s pane).0 id (
        ap (λ l. is_leaf l id) (close_terminal_pane-layout s pane)
        ∙ (leaf-remove_leaf s.layout id pane alone).1)

  gone-stays :
      (ids : List ℕ) (s : AppState R) (id : ℕ)
      → contains_key id s.panes ≡ false
      → contains_key id (close_all ids s).panes ≡ false
  gone-stays ids s id gone = elim (Option-cases (lookup id (close_all ids s).panes)) [
    | inl e ↦ ground arith
    | inr (p, e) ↦ ground (arith, close_all-keeps ids s id p e)
  ]

  close_terminal_pane-ends :
      (s : AppState R) (id : ℕ) → IsSound s → Ended (close_terminal_pane_without_focus s id).0 id
  unfolding close_terminal_pane_without_focus remove_terminal_tab_metadata
  close_terminal_pane-ends s id h = elim (Bool-cases ((remove_leaf s.layout id).1)) [
    | inl hit ↦ rw hit (inl (ground (arith, lookup-erase id id s.panes, beq_self id)))
    | inr miss ↦
        let (found, same) = remove_leaf-found s.layout id in
        rw miss (elim (Bool-cases (is_leaf s.layout id)) [
          | inl alone ↦ inr (ap (λ l. is_leaf l id) (same miss) ∙ alone)
          | inr more ↦ inl (ground (arith, found, h.placed id))
        ])
  ]

  close_all-ends :
      (ids : List ℕ) (s : AppState R) (id : ℕ)
      → contains id ids ≡ true
      → All (λ pane. contains pane s.anchors ≡ false) ids
      → IsSound s
      → Ended (close_all ids s) id
  unfolding close_all
  close_all-ends [] s id h plain sound = cc
  close_all-ends (pane ∷ ids) s id h plain sound =
      let s' = (close_terminal_pane_without_focus s pane).0 in
      let plain' =
        subst (λ t. All (λ k. contains k t ≡ false) ids)
          (sym (close_terminal_pane-anchors s pane).0) plain.1 in
      elim (Bool-cases (pane == id)) [
        | inl e ↦
            let here = (nat_eq.beq_iff pane id).0 e in
            elim (subst (Ended s') here (close_terminal_pane-ends s pane sound)) [
              | inl gone ↦ inl (gone-stays ids s' id gone)
              | inr alone ↦ inr (alone-stays ids s' id alone)
            ]
        | inr e ↦
            close_all-ends ids s' id
              (ground (arith, nat_eq.beq_iff id pane, nat_eq.beq_iff pane id)) plain'
              (close_terminal_pane-IsSound s pane plain.0 sound)
      ]

  -- After `close_orphan_terminal_panes` a terminal that no anchor owns is the only pane on the screen.
  pub close_orphan_terminal_panes-lem :
      (s : AppState R) (id : ℕ) (p : Pane)
      → IsSound s
      → lookup id (close_orphan_terminal_panes s).panes ≡ some p
      → is_orphan (close_orphan_terminal_panes s) (id, p) ≡ true
      → leaves (close_orphan_terminal_panes s).layout ≡ id ∷ []
  unfolding close_orphan_terminal_panes
  close_orphan_terminal_panes-lem s id p sound there orphan =
      let ids = orphans s s.panes in
      let (was, same) = close_all-keeps ids s id p there in
      let anchors = (close_all-anchors ids s).0 in
      let before : is_orphan s (id, p) ≡ true = ground arith in
      elim (close_all-ends ids s id (orphans-all s s.panes id p was before)
        (orphans-plain s s.panes) sound) [
          | inl gone ↦ absurd (ground arith)
          | inr alone ↦ is_leaf-leaves (close_all ids s).layout id alone
        ]

  pub close_orphan-gone :
      (s : AppState R) (id : ℕ)
      → contains_key id s.panes ≡ false
      → contains_key id (close_orphan_terminal_panes s).panes ≡ false
  unfolding close_orphan_terminal_panes
  close_orphan-gone s id gone = gone-stays (orphans s s.panes) s id gone
