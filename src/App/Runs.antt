-- ===== src/App/Runs.antt =====
-- A run of the application: the handlers of the keys, the mouse, the bus and the child processes of
-- crates/lmux/src/state.rs, one after the other.
use lmux.Prelude.{
  ℕ, ◌+◌, ◌≤◌, ◌<◌, Bool, true, Option, none, some, List, [], ◌∷◌, ◌==◌, nat_eq, option_eq,
  if◌then◌else◌, Text, Result, contains_key, length, map_values, lookup-map_values, ◌≡◌, refl,
  arith,
}
use lmux.Layout.{Dir, Edge}
use lmux.Layout.Leaves.{leaves-leaf}
use lmux.App.{AppState, Pane, new}
use lmux.App.Tabs.{activate_terminal_tab}
use lmux.App.Anchors.{
  set_active_anchor, ensure_anchor_invariant, add_anchor, restore_anchor, remove_anchor,
  cycle_active_anchor,
}
use lmux.App.Panes.{
  u32_max, split_focused, create_new_anchor, create_terminal_tab_for_anchor,
  create_terminal_tab_for_focused, tab_at, close_focused, close_exited_pane, set_focused,
  cycle_focus, reparent_pane,
}
use lmux.App.Consistent.{
  IsConsistent, same-IsSound, set_active_anchor-IsSound, set_active_anchor-ActiveIsAnchor,
}
use lmux.App.Invariant.{ensure_anchor_invariant-lem}
use lmux.App.Tagging.{
  remove_anchor-IsConsistent, restore_anchor-IsConsistent, add_anchor-IsConsistent,
  cycle_active_anchor-IsConsistent,
}
use lmux.App.Splitting.{split_focused-IsConsistent}
use lmux.App.Creating.{create_new_anchor-IsConsistent, create_terminal_tab-IsConsistent}
use lmux.App.Closing.{
  close_focused-IsConsistent, close_exited_pane-IsConsistent, reparent_pane-IsConsistent,
}
use lmux.Bus.Kinds.{AgentIdentity}
use lmux.Bus.Catalog.{PaneNew}
use lmux.App.Access.{Failure}
use lmux.App.Making.{create_pane_from_bus}
use lmux.App.Making.Kept.{create_pane_from_bus-IsConsistent}
use lmux.App.Making.Steps.{create_pane_from_bus-Steps}
use lmux.App.Ids.{split_focused-next, create_new_anchor-next, create_terminal_tab-next}
use lmux.App.Quiet.{
  add_anchor-Quiet, restore_anchor-Quiet, remove_anchor-Quiet, cycle_active_anchor-Quiet,
  close_focused-Quiet, close_exited_pane-Quiet, ensure_anchor_invariant-Quiet,
}

-- A child's exit sets the flag of its pane, which only `poll_child_exits` reads.
abbrev pub marked : ℕ → ℕ → Pane → Pane
marked pane id p = if id == pane then record p { has_exited = true } else p

abbrev pub mark_exited : ℕ → List (ℕ × Pane) → List (ℕ × Pane)
mark_exited pane panes = map_values (marked pane) panes

-- A step; a made pane is `none` where the system fails to start its shell.
pub data Op : Type 0 where
  split : Dir → Option Pane → Op
  make_anchor make_tab : Option Pane → Op
  make_tab_for : ℕ → Option Pane → Op
  show_tab : ℕ → ℕ → Op
  tag restore untag focus child_exits reap : ℕ → Op
  activate : Option ℕ → Op
  move : ℕ → ℕ → Edge → Op
  next_focus : Bool → Op
  next_anchor close ensure : Op
  bus_pane : PaneNew → Option Pane → Option AgentIdentity → (Text → Result Failure (Unit {0})) → Op

unfoldable pub step : {R : Type 0} → R → Op → AppState R → AppState R
step half (split dir pane) s = split_focused half s dir pane
step half (make_anchor pane) s = create_new_anchor half s pane
step half (make_tab pane) s = (create_terminal_tab_for_focused half s pane).0
step half (make_tab_for anchor pane) s = (create_terminal_tab_for_anchor half s anchor pane).0
step half (show_tab anchor tab) s = (activate_terminal_tab s anchor tab).0
step half (tag pane) s = add_anchor s pane
step half (restore pane) s = restore_anchor s pane
step half (untag pane) s = remove_anchor s pane
step half (focus pane) s = set_focused s pane
step half (child_exits pane) s = record s { panes = mark_exited pane s.panes }
step half (reap pane) s = close_exited_pane s pane
step half (activate target) s = set_active_anchor s target
step half (move source target edge) s = reparent_pane half s source target edge
step half (next_focus forward) s = cycle_focus s forward
step half next_anchor s = cycle_active_anchor s
step half close s = close_focused s
step half ensure s = ensure_anchor_invariant s
step half (bus_pane r pane child write) s = (create_pane_from_bus half s r pane child write).0

-- The steps of a run, the first one first.
unfoldable pub run : {R : Type 0} → R → List Op → AppState R → AppState R
run half [] s = s
run half (op ∷ ops) s = run half ops (step half op s)

contains_key-mark_exited :
    (id pane : ℕ) (panes : List (ℕ × Pane))
    → contains_key id (mark_exited pane panes) ≡ contains_key id panes
contains_key-mark_exited id pane panes = ground (arith, lookup-map_values (marked pane) id panes)

kept_le : {m n : ℕ} → m ≡ n → m ≤ n + 1
kept_le e = omega arith

module _ {R : Type 0} where
  -- The steps that leave the fields of the invariant.
  show_tab-IsConsistent :
      (s : AppState R) (anchor tab : ℕ)
      → IsConsistent s
      → IsConsistent (activate_terminal_tab s anchor tab).0
  unfolding activate_terminal_tab
  show_tab-IsConsistent s anchor tab h = (
    same-IsSound s (activate_terminal_tab s anchor tab).0 (ground arith) (ground arith)
        (ground arith) (ground arith) (ground arith) h.0,
    λ a x. ground (arith, h.1 a),
  )

  set_focused-IsConsistent :
      (s : AppState R) (id : ℕ) → IsConsistent s → IsConsistent (set_focused s id)
  unfolding set_focused
  set_focused-IsConsistent s id h = (
    same-IsSound s (set_focused s id) (ground arith) (ground arith) (ground arith) (ground arith)
        (ground arith) h.0,
    λ a x. ground (arith, h.1 a),
  )

  cycle_focus-IsConsistent :
      (s : AppState R) (forward : Bool) → IsConsistent s → IsConsistent (cycle_focus s forward)
  unfolding cycle_focus
  cycle_focus-IsConsistent s forward h = (
    same-IsSound s (cycle_focus s forward) (ground arith) (ground arith) (ground arith)
        (ground arith) (ground arith) h.0,
    λ a x. ground (arith, h.1 a),
  )

  child_exits-IsConsistent :
      (s : AppState R) (pane : ℕ)
      → IsConsistent s
      → IsConsistent (record s { panes = mark_exited pane s.panes })
  child_exits-IsConsistent s pane h =
      let same = λ (id : ℕ). contains_key-mark_exited id pane s.panes in
      (
        record {
          distinct = h.0.distinct;
          placed = λ id. ground (arith, same id, h.0.placed id);
          tagged = λ a x. ground (arith, same a, h.0.tagged a);
          rooted = h.0.rooted;
          above = λ id x. ground (arith, same id, h.0.above id);
        },
        h.1,
      )

  tab_at-IsConsistent :
      (half : R) (s : AppState R) (pane : Option Pane) (anchor : Option ℕ)
      → IsConsistent s
      → s.next_id < u32_max
      → IsConsistent (tab_at half s pane anchor).0
  tab_at-IsConsistent half s pane none h room = h
  tab_at-IsConsistent half s pane (some anchor) h room =
      create_terminal_tab-IsConsistent half s anchor pane h room

  tab_at-next :
      (half : R) (s : AppState R) (pane : Option Pane) (anchor : Option ℕ)
      → (tab_at half s pane anchor).0.next_id ≤ s.next_id + 1
  tab_at-next half s pane none = omega arith
  tab_at-next half s pane (some anchor) = create_terminal_tab-next half s anchor pane

  -- A step keeps the invariant while there is an id left.
  step-IsConsistent :
      (half : R) (op : Op) (s : AppState R)
      → IsConsistent s
      → s.next_id < u32_max
      → IsConsistent (step half op s)
  unfolding step create_terminal_tab_for_focused
  step-IsConsistent half (split dir pane) s h room =
      split_focused-IsConsistent half s dir pane h room
  step-IsConsistent half (make_anchor pane) s h room =
      create_new_anchor-IsConsistent half s pane h room
  step-IsConsistent half (make_tab pane) s h room = tab_at-IsConsistent half s pane _ h room
  step-IsConsistent half (make_tab_for anchor pane) s h room =
      create_terminal_tab-IsConsistent half s anchor pane h room
  step-IsConsistent half (show_tab anchor tab) s h room = show_tab-IsConsistent s anchor tab h
  step-IsConsistent half (tag pane) s h room = add_anchor-IsConsistent s pane h
  step-IsConsistent half (restore pane) s h room = restore_anchor-IsConsistent s pane h
  step-IsConsistent half (untag pane) s h room = remove_anchor-IsConsistent s pane h
  step-IsConsistent half (focus pane) s h room = set_focused-IsConsistent s pane h
  step-IsConsistent half (child_exits pane) s h room = child_exits-IsConsistent s pane h
  step-IsConsistent half (reap pane) s h room = close_exited_pane-IsConsistent s pane h
  step-IsConsistent half (activate target) s h room =
      (set_active_anchor-IsSound s target h.0, set_active_anchor-ActiveIsAnchor s target h.1)
  step-IsConsistent half (move source target edge) s h room =
      reparent_pane-IsConsistent half s source target edge h
  step-IsConsistent half (next_focus forward) s h room = cycle_focus-IsConsistent s forward h
  step-IsConsistent half next_anchor s h room = cycle_active_anchor-IsConsistent s h
  step-IsConsistent half close s h room = close_focused-IsConsistent s h
  step-IsConsistent half ensure s h room = (ensure_anchor_invariant-lem s h.0).0
  step-IsConsistent half (bus_pane r pane child write) s h room =
      create_pane_from_bus-IsConsistent half s r pane child write h room

  -- A step uses one id at most.
  step-next :
      (half : R) (op : Op) (s : AppState R)
      → IsConsistent s
      → (step half op s).next_id ≤ s.next_id + 1
  unfolding step create_terminal_tab_for_focused set_active_anchor reparent_pane set_focused
      cycle_focus activate_terminal_tab
  step-next half (split dir pane) s h = split_focused-next half s dir pane
  step-next half (make_anchor pane) s h = create_new_anchor-next half s pane
  step-next half (make_tab pane) s h = tab_at-next half s pane _
  step-next half (make_tab_for anchor pane) s h = create_terminal_tab-next half s anchor pane
  step-next half (show_tab anchor tab) s h = ground arith
  step-next half (tag pane) s h = kept_le ((add_anchor-Quiet s pane).0)
  step-next half (restore pane) s h = kept_le ((restore_anchor-Quiet s pane).0)
  step-next half (untag pane) s h = kept_le ((remove_anchor-Quiet s pane).0)
  step-next half (focus pane) s h = ground arith
  step-next half (child_exits pane) s h = omega arith
  step-next half (reap pane) s h = kept_le ((close_exited_pane-Quiet s pane).0)
  step-next half (activate target) s h = ground arith
  step-next half (move source target edge) s h = ground arith
  step-next half (next_focus forward) s h = ground arith
  step-next half next_anchor s h = kept_le ((cycle_active_anchor-Quiet s).0)
  step-next half close s h = kept_le ((close_focused-Quiet s).0)
  step-next half ensure s h = kept_le ((ensure_anchor_invariant-Quiet s).0)
  step-next half (bus_pane r pane child write) s h =
      (create_pane_from_bus-Steps half s r pane child write h.0).1

  -- Whatever steps a run takes from a consistent state, of those that split, tag, untag, close, move,
  -- focus and activate panes, tabs and anchors and that make panes over the bus, the state stays
  -- consistent as long as the run is no longer than there are ids left: the layout shows each pane
  -- once and shows exactly the panes that there are, each anchor is a pane and its own workspace, no
  -- pane has an id that is yet to be given, and the active anchor is a tagged one.
  pub run-IsConsistent :
      (half : R) (ops : List Op) (s : AppState R)
      → IsConsistent s
      → s.next_id + length ops ≤ u32_max
      → IsConsistent (run half ops s)
  unfolding run
  run-IsConsistent half [] s h room = h
  run-IsConsistent half (op ∷ ops) s h room =
      let used = step-next half op s h in
      run-IsConsistent half ops (step half op s) (step-IsConsistent half op s h (omega arith))
        (omega arith)

  -- The application starts consistent, with one pane.
  pub new-IsConsistent :
      (id : ℕ) (first : Pane) (fresh : ℕ) → IsConsistent (new {R = R} id first fresh)
  unfolding new
  new-IsConsistent id first fresh = (
    record {
      distinct = rw (leaves-leaf R id) (refl, tt);
      placed = λ k. ground (arith, leaves-leaf R id);
      tagged = λ a x. cc;
      rooted = λ a x. cc;
      above = λ k x. ground (arith, nat_eq.beq_iff id k);
    },
    λ a x. cc,
  )
