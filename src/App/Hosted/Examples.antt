-- ===== src/App/Hosted/Examples.antt =====
-- Tests of the host's windows, and the theorems at concrete states.
use lmux.Prelude.{
  ℕ, ◌<◌, true, false, some, [], ◌∷◌, nat_eq, lookup, contains, contains_key, ◌≡◌, ◌↔◌, refl, arith,
}
use lmux.Layout.{Layout, Dir, replace_leaf, replace_leaf_with}
use lmux.App.{AppState, Pane, new}
use lmux.App.Consistent.{IsConsistent}
use lmux.App.Hosted.{on_toplevel_created, on_toplevel_closed}
use lmux.App.Hosted.Kept.{
  on_toplevel_created-IsConsistent, on_toplevel_created-IsConsistent_iff,
  on_toplevel_closed-IsConsistent,
}
use lmux.App.Panes.{u32_max, halved}
use lmux.App.Runs.{new-IsConsistent}

abbrev window : Pane
window = record { is_satellite = true; has_exited = false; argv = []; cwd = [] }

abbrev terminal : Pane
terminal = record { is_satellite = false; has_exited = false; argv = []; cwd = [] }

abbrev start : AppState ℕ
start = new 1 terminal 0

start-IsConsistent : IsConsistent start
start-IsConsistent = new-IsConsistent 1 terminal 0

start-live : contains_key start.focused start.panes ≡ true
unfolding new
start-live = refl

start-room : start.next_id < u32_max
unfolding new
start-room = omega arith

on_toplevel_created-IsConsistent_example : IsConsistent (on_toplevel_created 50 start true 7 window)
on_toplevel_created-IsConsistent_example =
    on_toplevel_created-IsConsistent 50 start true 7 window start-IsConsistent start-live start-room

-- What is left when a second anchor was made, the first one shown, the focus moved on to the second
-- one's pane, and the second anchor removed.
abbrev lost : AppState ℕ
lost = record start {
  focused = 2;
  next_id = 3;
  anchors = 1 ∷ [];
  pane_workspace = (1, 1) ∷ [];
  active_anchor = some 1;
}

lost-IsConsistent : IsConsistent lost
unfolding new
lost-IsConsistent = (
  record {
    distinct = start-IsConsistent.0.distinct;
    placed = start-IsConsistent.0.placed;
    tagged = λ a x. ground (arith, nat_eq.beq_iff 1 a, nat_eq.beq_iff a 1);
    rooted = λ a x. ground (arith, nat_eq.beq_iff 1 a, nat_eq.beq_iff a 1);
    above = λ id x. ground (arith, start-IsConsistent.0.above id x);
  },
  λ a x. ground (arith, nat_eq.beq_iff 1 a, nat_eq.beq_iff a 1),
)

lost-live : contains_key 1 lost.panes ≡ true
unfolding new
lost-live = refl

lost-room : lost.next_id < u32_max
lost-room = omega arith

on_toplevel_created-IsConsistent_iff_example :
    IsConsistent (on_toplevel_created 50 lost true 7 window)
    ↔ (contains_key lost.focused lost.panes ≡ true)
on_toplevel_created-IsConsistent_iff_example =
    on_toplevel_created-IsConsistent_iff 50 lost 7 1 window lost-IsConsistent lost-live lost-room

-- A terminal, and a window beside it.
abbrev both : AppState ℕ
both = on_toplevel_created 50 start true 7 window

both-IsConsistent : IsConsistent both
both-IsConsistent =
    on_toplevel_created-IsConsistent 50 start true 7 window start-IsConsistent start-live start-room

both-plain :
    (pane : ℕ) → lookup 7 both.surface_to_pane ≡ some pane → contains pane both.anchors ≡ false
unfolding on_toplevel_created new replace_leaf replace_leaf_with halved
both-plain pane h = refl

on_toplevel_closed-IsConsistent_example : IsConsistent (on_toplevel_closed both 7)
on_toplevel_closed-IsConsistent_example =
    on_toplevel_closed-IsConsistent both 7 both-IsConsistent both-plain

-- A window that is an anchor.
abbrev tagged : AppState ℕ
tagged = record start {
  panes = (1, terminal) ∷ (2, window) ∷ [];
  layout = Layout.split Dir.vertical (Layout.leaf 1) (Layout.leaf 2) 50;
  anchors = 1 ∷ 2 ∷ [];
  surface_to_pane = (7, 2) ∷ [];
}
