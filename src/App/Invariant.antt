-- ===== src/App/Invariant.antt =====
-- The invariant through `ensure_anchor_invariant` of crates/lmux/src/state.rs.
use lmux.Prelude.{
  ℕ, true, false, Option, none, some, List, [], ◌∷◌, ◌==◌, nat_eq, option_eq, beq_self, erase,
  contains, contains_key, lookup-erase, contains-set_insert, ◌≡◌, ◌⊎◌, refl, arith, Bool-cases,
  Option-cases, inl, inr, ap, ◌∙◌, sym, subst,
}
use lmux.Layout.{leaves}
use lmux.App.{AppState, first_terminal}
use lmux.App.Tabs.{ensure_terminal_tab_stack, remove_terminal_tab_metadata}
use lmux.App.Anchors.{
  set_active_anchor, is_owned_by_other, tag_anchor_core, first, first_terminal_leaf,
  tag_and_activate, seed_anchor, activate_some_anchor, ensure_anchor_invariant,
}
use lmux.App.Consistent.{
  IsSound, ActiveIsAnchor, IsConsistent, same-IsSound, set_active_anchor-IsSound,
  set_active_anchor-ActiveIsAnchor, remove_terminal_tab_metadata-IsSound,
  ensure_terminal_tab_stack-IsSound, tag_anchor_core-IsSound, tag_anchor_core-ActiveIsAnchor,
}

-- There is an active anchor, or no terminal that could be one.
abbrev pub HasActive : {R : Type 0} → AppState R → Type 0
HasActive s = ((a : ℕ) × (s.active_anchor ≡ some a)) ⊎ (first_terminal_leaf s ≡ none)

first-contains : (xs : List ℕ) (a : ℕ) → first xs ≡ some a → contains a xs ≡ true
first-contains [] a h = cc
first-contains (x ∷ xs) a h = ground arith

pub first-none : (xs : List ℕ) → first xs ≡ none → xs ≡ []
first-none [] h = refl
first-none (x ∷ xs) h = cc

module _ {R : Type 0} where
  first_terminal-there :
      (s : AppState R) (ids : List ℕ) (a : ℕ)
      → first_terminal s ids ≡ some a
      → contains_key a s.panes ≡ true
  first_terminal-there s [] a h = cc
  first_terminal-there s (id ∷ ids) a h = ground (arith, first_terminal-there s ids a)

  set_active_anchor-some :
      (s : AppState R) (a : ℕ)
      → contains a s.anchors ≡ true
      → (set_active_anchor s (some a)).active_anchor ≡ some a
  unfolding set_active_anchor
  set_active_anchor-some s a h = elim (Bool-cases (s.active_anchor == some a)) [
    | inl e ↦ ground arith
    | inr e ↦ ground arith
  ]

  -- The pane gets the tag, and keeps the other anchors.
  tag_anchor_core-done :
      (s : AppState R) (a : ℕ)
      → contains_key a s.panes ≡ true
      → is_owned_by_other s a ≡ false
      → contains a s.anchors ≡ false
      → ((tag_anchor_core s a).1 ≡ true) × (contains a (tag_anchor_core s a).0.anchors ≡ true)
  unfolding tag_anchor_core
  tag_anchor_core-done s a there free new =
      (ground arith, ground (arith, contains-set_insert a a s.anchors, beq_self a))

  set_active_anchor-anchors :
      (s : AppState R) (t : Option ℕ) → (set_active_anchor s t).anchors ≡ s.anchors
  unfolding set_active_anchor
  set_active_anchor-anchors s t = ground arith

  ensure_terminal_tab_stack-anchors :
      (s : AppState R) (a : ℕ) → (ensure_terminal_tab_stack s a).anchors ≡ s.anchors
  unfolding ensure_terminal_tab_stack
  ensure_terminal_tab_stack-anchors s a = refl

  cleared-fields :
      (s : AppState R) (a : ℕ)
      → ((remove_terminal_tab_metadata s a).panes ≡ s.panes)
        × ((remove_terminal_tab_metadata s a).anchors ≡ s.anchors)
        × ((remove_terminal_tab_metadata s a).pane_workspace ≡ s.pane_workspace)
  unfolding remove_terminal_tab_metadata
  cleared-fields s a = (refl, refl, refl)

  -- A tagged pane becomes the active anchor.
  pub tag_and_activate-lem :
      (s : AppState R) (a : ℕ)
      → IsSound s
      → contains_key a s.panes ≡ true
      → is_owned_by_other s a ≡ false
      → contains a s.anchors ≡ false
      → IsSound (tag_and_activate s a)
        × ((tag_and_activate s a).active_anchor ≡ some a)
        × (contains a (tag_and_activate s a).anchors ≡ true)
  unfolding tag_and_activate
  tag_and_activate-lem s a h there free new =
      let (done, inside) = tag_anchor_core-done s a there free new in
      let tagged = (tag_anchor_core s a).0 in
      let stacked = ensure_terminal_tab_stack tagged a in
      let within : contains a stacked.anchors ≡ true =
        ap (contains a) (ensure_terminal_tab_stack-anchors tagged a) ∙ inside in
      rw done (
        set_active_anchor-IsSound stacked (some a)
            (ensure_terminal_tab_stack-IsSound tagged a (tag_anchor_core-IsSound s a h)),
        set_active_anchor-some stacked a within,
        ap (contains a) (set_active_anchor-anchors stacked (some a)) ∙ within,
      )

  pub tag_and_activate-IsConsistent :
      (s : AppState R) (a : ℕ) → IsConsistent s → IsConsistent (tag_and_activate s a)
  unfolding tag_and_activate
  tag_and_activate-IsConsistent s a h =
      let tagged = (tag_anchor_core s a).0 in
      let stacked = ensure_terminal_tab_stack tagged a in
      let sound = tag_anchor_core-IsSound s a h.0 in
      let active = tag_anchor_core-ActiveIsAnchor s a h.1 in
      elim (Bool-cases ((tag_anchor_core s a).1)) [
        | inr e ↦ rw e (sound, active)
        | inl e ↦ rw e (
          set_active_anchor-IsSound stacked (some a)
              (ensure_terminal_tab_stack-IsSound tagged a sound),
          set_active_anchor-ActiveIsAnchor stacked (some a)
              (unfold ensure_terminal_tab_stack in active),
        )
      ]

  seed_anchor-lem :
      (s : AppState R) (seed : ℕ)
      → IsSound s
      → s.anchors ≡ []
      → contains_key seed s.panes ≡ true
      → IsSound (seed_anchor s seed)
        × ((seed_anchor s seed).active_anchor ≡ some seed)
        × (contains seed (seed_anchor s seed).anchors ≡ true)
  unfolding seed_anchor
  seed_anchor-lem s seed h empty there =
      let loose : AppState R = record s { pane_workspace = erase seed s.pane_workspace } in
      let loose-IsSound : IsSound loose = record {
        distinct = h.distinct;
        placed = h.placed;
        tagged = h.tagged;
        rooted = λ a x. absurd (ground arith);
        above = h.above;
      } in
      let cleared = remove_terminal_tab_metadata loose seed in
      let (panes, anchors, workspace) = cleared-fields loose seed in
      let there' : contains_key seed cleared.panes ≡ true = ap (contains_key seed) panes ∙ there in
      let free : is_owned_by_other cleared seed ≡ false =
        ground (arith, lookup-erase seed seed s.pane_workspace, beq_self seed) in
      let new : contains seed cleared.anchors ≡ false = ground arith in
      tag_and_activate-lem cleared seed
        (remove_terminal_tab_metadata-IsSound loose seed loose-IsSound) there' free new

  pub active_is :
      (s : AppState R) (a : ℕ)
      → s.active_anchor ≡ some a
      → contains a s.anchors ≡ true
      → ActiveIsAnchor s
  active_is s a e inside b x = ground arith

  -- What the branches of `activate_some_anchor` and `ensure_anchor_invariant` give.
  pub activate-next :
      (s : AppState R) (next : ℕ)
      → first s.anchors ≡ some next
      → activate_some_anchor s ≡ set_active_anchor s (some next)
  unfolding activate_some_anchor
  activate-next s next e = ground arith

  pub activate-nothing :
      (s : AppState R)
      → first s.anchors ≡ none
      → first_terminal_leaf s ≡ none
      → activate_some_anchor s ≡ s
  unfolding activate_some_anchor
  activate-nothing s e f = ground arith

  pub activate-seed :
      (s : AppState R) (seed : ℕ)
      → first s.anchors ≡ none
      → first_terminal_leaf s ≡ some seed
      → activate_some_anchor s ≡ seed_anchor s seed
  unfolding activate_some_anchor
  activate-seed s seed e f = ground arith

  abbrev Settled : AppState R → Type 0
  Settled s = IsConsistent s × HasActive s

  activate_some_anchor-lem :
      (s : AppState R) → IsSound s → s.active_anchor ≡ none → Settled (activate_some_anchor s)
  activate_some_anchor-lem s h idle = elim (Option-cases (first s.anchors)) [
    | inr (next, e) ↦
        let inside = first-contains s.anchors next e in
        let chosen = set_active_anchor-some s next inside in
        let t = set_active_anchor s (some next) in
        let within = ap (contains next) (set_active_anchor-anchors s (some next)) ∙ inside in
        subst Settled (sym (activate-next s next e)) (
          (set_active_anchor-IsSound s (some next) h, active_is t next chosen within),
          inl (next, chosen),
        )
    | inl e ↦ elim (Option-cases (first_terminal_leaf s)) [
      | inl bare ↦
          subst Settled (sym (activate-nothing s e bare))
            ((h, λ a x. absurd (ground arith)), inr bare)
      | inr (seed, f) ↦
          let there =
            first_terminal-there s (leaves s.layout) seed (unfold first_terminal_leaf in f) in
          let (sound, chosen, inside) = seed_anchor-lem s seed h (first-none s.anchors e) there in
          subst Settled (sym (activate-seed s seed e f))
            ((sound, active_is (seed_anchor s seed) seed chosen inside), inl (seed, chosen))
    ]
  ]

  pub ensure-active :
      (s : AppState R) (a : ℕ)
      → s.active_anchor ≡ some a
      → contains a s.anchors ≡ true
      → ensure_anchor_invariant s ≡ s
  unfolding ensure_anchor_invariant
  ensure-active s a e inside = ground arith

  pub ensure-none :
      (s : AppState R) → s.active_anchor ≡ none → ensure_anchor_invariant s ≡ activate_some_anchor s
  unfolding ensure_anchor_invariant
  ensure-none s e = ground arith

  pub ensure-stale :
      (s : AppState R) (a : ℕ)
      → s.active_anchor ≡ some a
      → contains a s.anchors ≡ false
      → ensure_anchor_invariant s ≡ activate_some_anchor (record s { active_anchor = none })
  unfolding ensure_anchor_invariant
  ensure-stale s a e gone = ground arith

  -- From any state in which the panes, the layout and the anchors agree, `ensure_anchor_invariant`
  -- keeps that, makes the active anchor a tagged one, and leaves none active only where the layout
  -- shows no terminal.
  pub ensure_anchor_invariant-lem :
      (s : AppState R)
      → IsSound s
      → IsConsistent (ensure_anchor_invariant s) × HasActive (ensure_anchor_invariant s)
  ensure_anchor_invariant-lem s h =
      let idle : AppState R = record s { active_anchor = none } in
      let activated =
        activate_some_anchor-lem idle (same-IsSound s idle refl refl refl refl refl h) refl in
      elim (Option-cases s.active_anchor) [
        | inl e ↦ subst Settled (sym (ensure-none s e)) (activate_some_anchor-lem s h e)
        | inr (a, e) ↦ elim (Bool-cases (contains a s.anchors)) [
          | inl inside ↦
              subst Settled (sym (ensure-active s a e inside))
                ((h, active_is s a e inside), inl (a, e))
          | inr gone ↦ subst Settled (sym (ensure-stale s a e gone)) activated
        ]
      ]
