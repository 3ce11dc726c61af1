-- ===== src/App/Control/Hiding.antt =====
-- Hiding, and pausing, and what they leave behind where the registry refuses.
use lmux.Prelude.{
  ℕ, Bool, true, false, some, [], ◌∷◌, nat_eq, lookup, lookup-insert, contains, contains-set_insert,
  contains-without, beq_self, ok, err, ◌≡◌, refl, arith, ap, ◌∙◌, sym,
}
use lmux.Anchors.{Anchor, AnchorState, RegistryError, state_beq, pause, set_hidden, transition}
use lmux.App.{AppState}
use lmux.App.Control.{Signal, Target, ControlError, pause_anchor, hide_anchor, reattach_anchor}

module _ {R : Type 0} where
  hide_anchor-live :
      (s : AppState R) (pane id : ℕ) (a : Anchor)
      → lookup pane s.pane_anchor_ids ≡ some id
      → lookup id s.anchor_registry ≡ some a
      → a.state ≡ AnchorState.live
      → contains pane s.hidden_anchors ≡ false
      → let after = (hide_anchor s pane).0 in
        ((hide_anchor s pane).1 ≡ ok tt)
        × (contains pane after.hidden_anchors ≡ true)
        × (lookup id after.anchor_registry ≡ some (record a { state = AnchorState.hidden }))
        × (after.pane_anchor_ids ≡ s.pane_anchor_ids)
  unfolding hide_anchor set_hidden
  hide_anchor-live s pane id a tagged known live shown = (
    ground arith,
    ground (arith, contains-set_insert pane pane s.hidden_anchors, beq_self pane),
    ground (
      arith,
      lookup-insert id id (record a { state = AnchorState.hidden }) s.anchor_registry,
      beq_self id,
    ),
    ground arith,
  )

  reattach_anchor-hidden :
      (s : AppState R) (pane id : ℕ) (a : Anchor)
      → lookup pane s.pane_anchor_ids ≡ some id
      → lookup id s.anchor_registry ≡ some a
      → a.state ≡ AnchorState.hidden
      → contains pane s.hidden_anchors ≡ true
      → let after = (reattach_anchor s pane).0 in
        ((reattach_anchor s pane).1 ≡ ok tt)
        × (contains pane after.hidden_anchors ≡ false)
        × (lookup id after.anchor_registry ≡ some (record a { state = AnchorState.live }))
  unfolding reattach_anchor set_hidden
  reattach_anchor-hidden s pane id a tagged known hidden inside = (
    ground arith,
    ground (arith, contains-without pane pane s.hidden_anchors, beq_self pane),
    ground (
      arith,
      lookup-insert id id (record a { state = AnchorState.live }) s.anchor_registry,
      beq_self id,
    ),
  )

  -- Hiding a live anchor that shows, and attaching it again: both succeed, in between the registry says
  -- hidden and the pane is in the set, and afterwards the registry holds the anchor as it was and the
  -- pane is out of the set.
  pub reattach-hide_anchor :
      (s : AppState R) (pane id : ℕ) (a : Anchor)
      → lookup pane s.pane_anchor_ids ≡ some id
      → lookup id s.anchor_registry ≡ some a
      → a.state ≡ AnchorState.live
      → contains pane s.hidden_anchors ≡ false
      → let hidden = (hide_anchor s pane).0 in
        let back = (reattach_anchor hidden pane).0 in
        ((hide_anchor s pane).1 ≡ ok tt)
        × (contains pane hidden.hidden_anchors ≡ true)
        × (lookup id hidden.anchor_registry ≡ some (record a { state = AnchorState.hidden }))
        × ((reattach_anchor hidden pane).1 ≡ ok tt)
        × (contains pane back.hidden_anchors ≡ false)
        × (lookup id back.anchor_registry ≡ some a)
  reattach-hide_anchor s pane id a tagged known live shown =
      let hidden = (hide_anchor s pane).0 in
      let (done, inside, now, ids) = hide_anchor-live s pane id a tagged known live shown in
      let (done', outside, then') =
        reattach_anchor-hidden hidden pane id (record a { state = AnchorState.hidden })
          (ap (lookup pane) ids ∙ tagged) now refl inside in
      (
        done,
        inside,
        now,
        done',
        outside,
        then' ∙ ap (λ t. some (record a { state = t })) (sym live),
      )

  -- Hiding a paused anchor that shows fails, and still puts the pane into the set of hidden ones, so
  -- that hiding it again succeeds, while the registry keeps it paused.
  pub hide_anchor-paused :
      (s : AppState R) (pane id : ℕ) (a : Anchor)
      → lookup pane s.pane_anchor_ids ≡ some id
      → lookup id s.anchor_registry ≡ some a
      → a.state ≡ AnchorState.paused
      → contains pane s.hidden_anchors ≡ false
      → let after = (hide_anchor s pane).0 in
        ((hide_anchor s pane).1
          ≡ err (
              ControlError.registry
                (RegistryError.invalid_transition id AnchorState.paused AnchorState.hidden)))
        × (contains pane after.hidden_anchors ≡ true)
        × (lookup id after.anchor_registry ≡ some a)
        × ((hide_anchor after pane).1 ≡ ok tt)
  unfolding hide_anchor set_hidden
  hide_anchor-paused s pane id a tagged known paused shown = (
    ground (arith, contains-set_insert pane pane s.hidden_anchors, beq_self pane),
    ground (arith, contains-set_insert pane pane s.hidden_anchors, beq_self pane),
    ground (arith, contains-set_insert pane pane s.hidden_anchors, beq_self pane),
    ground (arith, contains-set_insert pane pane s.hidden_anchors, beq_self pane),
  )

  -- Pausing an anchor that is not live fails, and yet has stopped the child by then.
  pub pause_anchor-refused :
      (kill : Target → Signal → Bool) (s : AppState R) (pane id pid : ℕ) (a : Anchor)
      → lookup pane s.pane_anchor_ids ≡ some id
      → lookup id s.anchor_registry ≡ some a
      → state_beq a.state AnchorState.live ≡ false
      → kill (Target.group pid) Signal.sigstop ≡ true
      → pause_anchor kill s pane (some pid) ≡ (
        s,
        (Target.group pid, Signal.sigstop) ∷ [],
        err (
            ControlError.registry (RegistryError.invalid_transition id a.state AnchorState.paused)),
      )
  unfolding pause_anchor pause transition
  pause_anchor-refused kill s pane id pid a tagged known busy stops = ground arith
