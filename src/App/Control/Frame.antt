-- ===== src/App/Control/Frame.antt =====
-- What pausing, resuming, hiding and reattaching an anchor leave of the state: crates/lmux/src/state.rs.
use lmux.Prelude.{ℕ, Bool, Option, nat_eq, ◌≡◌, arith, sym, ◌∙◌}
use lmux.App.{AppState}
use lmux.App.Consistent.{IsConsistent, same-IsSound}
use lmux.App.Control.{Signal, Target, pause_anchor, resume_anchor, hide_anchor, reattach_anchor}

module _ {R : Type 0} where
  -- All but the registry and the set of hidden anchors.
  abbrev pub SameRest : AppState R → AppState R → Type 0
  SameRest s t =
      (t.layout ≡ s.layout)
      × (t.panes ≡ s.panes)
      × (t.anchors ≡ s.anchors)
      × (t.pane_workspace ≡ s.pane_workspace)
      × (t.next_id ≡ s.next_id)
      × (t.active_anchor ≡ s.active_anchor)
      × (t.grants ≡ s.grants)

  pub SameRest-IsConsistent : (s t : AppState R) → SameRest s t → IsConsistent s → IsConsistent t
  SameRest-IsConsistent s t (l, p, a, w, n, act, g) h =
      (same-IsSound s t l p a w n h.0, λ b x. rw a (h.1 b (sym act ∙ x)))

  pub pause_anchor-SameRest :
      (kill : Target → Signal → Bool) (s : AppState R) (pane : ℕ) (child : Option ℕ)
      → SameRest s (pause_anchor kill s pane child).0
  unfolding pause_anchor
  pause_anchor-SameRest kill s pane child = ground arith

  pub resume_anchor-SameRest :
      (kill : Target → Signal → Bool) (s : AppState R) (pane : ℕ) (child : Option ℕ)
      → SameRest s (resume_anchor kill s pane child).0
  unfolding resume_anchor
  resume_anchor-SameRest kill s pane child = ground arith

  pub hide_anchor-SameRest : (s : AppState R) (pane : ℕ) → SameRest s (hide_anchor s pane).0
  unfolding hide_anchor
  hide_anchor-SameRest s pane = ground arith

  pub reattach_anchor-SameRest : (s : AppState R) (pane : ℕ) → SameRest s (reattach_anchor s pane).0
  unfolding reattach_anchor
  reattach_anchor-SameRest s pane = ground arith
