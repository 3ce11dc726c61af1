-- ===== src/App/Closing.antt =====
-- The invariant through closing and moving panes: `close_focused`, `close_exited_pane` and
-- `reparent_pane` of crates/lmux/src/state.rs.
use lmux.Prelude.{
  ℕ, true, false, not, ◌||◌, some, ◌==◌, nat_eq, option_eq, lookup, contains, contains_key,
  lookup-erase, without, contains-without, without_id, Distinct-without, lookup-retain_map,
  count-le_one, contains_of_count, count_pos, Distinct-of_count, ◌≡◌, refl, arith, Bool-cases, inl,
  inr, ap, ◌∙◌, sym,
}
use lmux.Layout.{Edge, leaves, remove_leaf, is_leaf, reparent}
use lmux.Layout.Remove.{remove_leaf-found, leaves-remove_leaf}
use lmux.Layout.Reparent.{count-reparent}
use lmux.App.{AppState}
use lmux.App.Tabs.{remove_terminal_tab_metadata}
use lmux.App.Anchors.{
  set_active_anchor, close_orphan_terminal_panes, ensure_anchor_invariant, drop_anchor,
  replace_active,
}
use lmux.App.Panes.{disown, drop_pane, close_focused, close_exited_pane, exited, reparent_pane}
use lmux.App.Consistent.{IsSound, IsConsistent, same-IsSound, close_orphan_terminal_panes-IsSound}
use lmux.App.Invariant.{ensure_anchor_invariant-lem}

module _ {R : Type 0} where
  pub replace_active-fields :
      (s : AppState R) (target : ℕ)
      → ((replace_active s target).layout ≡ s.layout)
        × ((replace_active s target).panes ≡ s.panes)
        × ((replace_active s target).anchors ≡ s.anchors)
        × ((replace_active s target).pane_workspace ≡ s.pane_workspace)
        × ((replace_active s target).next_id ≡ s.next_id)
  unfolding replace_active set_active_anchor
  replace_active-fields s target =
      (ground arith, ground arith, ground arith, ground arith, ground arith)

  -- What closing a pane takes out of the state.
  pub disown-fields :
      (s : AppState R) (target : ℕ)
      → ((disown s target).layout ≡ s.layout)
        × ((disown s target).panes ≡ s.panes)
        × ((disown s target).anchors ≡ without target s.anchors)
        × ((disown s target).next_id ≡ s.next_id)
  unfolding disown drop_anchor
  disown-fields s target = elim (Bool-cases (contains target s.anchors)) [
    | inl e ↦ rw e (
        let (l, p, a, w, n) = replace_active-fields (drop_anchor s target) target in
        unfold drop_anchor in (l, p, a, n))
    | inr e ↦ rw e (refl, refl, sym (without_id target s.anchors e), refl)
  ]

  disown-workspace :
      (s : AppState R) (target a : ℕ)
      → (target == a) ≡ false
      → lookup a s.pane_workspace ≡ some a
      → lookup a (disown s target).pane_workspace ≡ some a
  unfolding disown drop_anchor
  disown-workspace s target a other h = elim (Bool-cases (contains target s.anchors)) [
    | inl e ↦
        rw (e, (replace_active-fields (drop_anchor s target) target).3)
          (ground (
            arith,
            lookup-retain_map (λ (pane owner : ℕ). not (owner == target)) a s.pane_workspace,
            nat_eq.beq_iff a target,
          ))
    | inr e ↦ rw e (ground (arith, lookup-erase target a s.pane_workspace))
  ]

  -- A pane that is out of the layout and of the maps.
  pub closed-IsSound :
      (s : AppState R) (target : ℕ)
      → IsSound s
      → (remove_leaf s.layout target).1 ≡ true
      → IsSound
          (drop_pane (disown (record s { layout = (remove_leaf s.layout target).0 }) target) target)
  unfolding drop_pane remove_terminal_tab_metadata
  closed-IsSound s target h hit =
      let cut : AppState R = record s { layout = (remove_leaf s.layout target).0 } in
      let (l, p, a, n) = disown-fields cut target in
      let shape = ap leaves l ∙ leaves-remove_leaf s.layout target h.distinct hit in
      let gone = disown cut target in
      let was : (b : ℕ)
          → contains b gone.anchors ≡ true
          → (contains b s.anchors ≡ true) × ((target == b) ≡ false) =
        λ b x. ground (
          arith,
          contains-without target b s.anchors,
          nat_eq.beq_iff target b,
          nat_eq.beq_iff b target,
        ) in
      record {
        distinct = rw shape (Distinct-without target (leaves s.layout) h.distinct);
        placed = λ id. ground (
          arith,
          shape,
          contains-without target id (leaves s.layout),
          lookup-erase target id gone.panes,
          h.placed id,
          nat_eq.beq_iff id target,
          nat_eq.beq_iff target id,
        );
        tagged = λ b x. ground (arith, lookup-erase target b gone.panes, was b x, h.tagged b);
        rooted = λ b x. disown-workspace cut target b (was b x).1 (h.rooted b (was b x).0);
        above = λ id x. ground (arith, lookup-erase target id gone.panes, h.above id);
      }

  -- What closing ends with.
  settled :
      (s : AppState R) (focus : ℕ)
      → IsSound s
      → IsConsistent
          (record (ensure_anchor_invariant (close_orphan_terminal_panes s)) { focused = focus })
  settled s focus h =
      let closed = close_orphan_terminal_panes s in
      let kept = (ensure_anchor_invariant-lem closed (close_orphan_terminal_panes-IsSound s h)).0 in
      (
        same-IsSound (ensure_anchor_invariant closed)
            (record (ensure_anchor_invariant closed) { focused = focus }) refl refl refl refl refl
            kept.0,
        kept.1,
      )

  pub close_focused-IsConsistent :
      (s : AppState R) → IsConsistent s → IsConsistent (close_focused s)
  unfolding close_focused
  close_focused-IsConsistent s h =
      let target = s.focused in
      let cut : AppState R = record s { layout = (remove_leaf s.layout target).0 } in
      elim (Bool-cases (is_leaf s.layout target)) [
        | inl e ↦ rw e h
        | inr e ↦ elim (Bool-cases ((remove_leaf s.layout target).1)) [
          | inr miss ↦ rw (e, miss, (remove_leaf-found s.layout target).1 miss) h
          | inl hit ↦
              let sound = closed-IsSound s target h.0 hit in
              let there : contains_key target (disown cut target).panes ≡ true = ground (
                arith,
                (disown-fields cut target).1,
                remove_leaf-found s.layout target,
                h.0.placed target,
              ) in
              rw (e, hit, there) (settled (drop_pane (disown cut target) target) _ sound)
        ]
      ]

  pub close_exited_pane-IsConsistent :
      (s : AppState R) (target : ℕ) → IsConsistent s → IsConsistent (close_exited_pane s target)
  unfolding close_exited_pane
  close_exited_pane-IsConsistent s target h =
      let cut : AppState R = record s { layout = (remove_leaf s.layout target).0 } in
      let gone = drop_pane (disown cut target) target in
      let kept = ensure_anchor_invariant (close_orphan_terminal_panes gone) in
      elim (Bool-cases (is_leaf s.layout target)) [
        | inl e ↦ rw e h
        | inr e ↦ elim (Bool-cases (exited (lookup target s.panes))) [
          | inr runs ↦ rw (e, runs) h
          | inl over ↦ elim (Bool-cases ((remove_leaf s.layout target).1)) [
            | inr miss ↦ rw (e, over, miss, (remove_leaf-found s.layout target).1 miss) h
            | inl hit ↦
                elim (Bool-cases
                  (kept.focused == target || not (contains_key kept.focused kept.panes))) [
                    | inl moves ↦
                        rw (e, over, hit, moves) (settled gone _ (closed-IsSound s target h.0 hit))
                    | inr stays ↦
                        rw (e, over, hit, stays)
                          (settled gone kept.focused (closed-IsSound s target h.0 hit))
                  ]
          ]
        ]
      ]

  pub reparent_pane-IsConsistent :
      (half : R) (s : AppState R) (source target : ℕ) (edge : Edge)
      → IsConsistent s
      → IsConsistent (reparent_pane half s source target edge)
  unfolding reparent_pane
  reparent_pane-IsConsistent half s source target edge h =
      let moved = (reparent half s.layout source target edge).0 in
      let same = count-reparent half s.layout source target edge in
      let sound : IsSound (record s { layout = moved }) = record {
        distinct =
            Distinct-of_count (leaves moved)
              λ x. ground (arith, same x, count-le_one (leaves s.layout) h.0.distinct x);
        placed = λ id. ground (
          arith,
          same id,
          count_pos id (leaves s.layout),
          count_pos id (leaves moved),
          contains_of_count id (leaves s.layout),
          contains_of_count id (leaves moved),
          h.0.placed id,
        );
        tagged = h.0.tagged;
        rooted = h.0.rooted;
        above = h.0.above;
      } in
      elim (Bool-cases (source == target)) [
        | inl e ↦ rw e h
        | inr e ↦
            elim (Bool-cases (lookup source s.pane_workspace == lookup target s.pane_workspace)) [
              | inl f ↦ rw (e, f) (sound, h.1)
              | inr f ↦ rw (e, f) h
            ]
      ]
