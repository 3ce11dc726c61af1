-- ===== src/App/Control.antt =====
-- Pausing, hiding, naming and ordering tagged anchors: crates/lmux/src/state.rs. `libc::kill` is a
-- parameter that says whether a call succeeds; what is sent is part of the result, oldest first. What
-- `child_pid` gives for the pane is an argument.
pub mod Frame
pub mod Hiding
pub mod Ordering
use lmux.Prelude.{
  ℕ, suc, Bool, true, false, not, Option, none, some, List, [], ◌∷◌, ◌==◌, nat_eq, Text,
  if◌then◌else◌, lookup, contains, set_insert, without, Result, ok, err, ℤ, pos,
}
use lmux.Anchors.{
  Anchor, RegistryError, get, pause, resume, set_hidden, rename, set_group, set_sort_key,
}
use lmux.App.{AppState}

pub data Signal : Type 0 where
  sigstop sigcont : Signal

pub data Target : Type 0 where
  group process : ℕ → Target

pub data ControlError : Type 0 where
  not_an_anchor no_live_child : ℕ → ControlError
  kill_failed : ℕ → Signal → ControlError
  registry : RegistryError → ControlError

abbrev pub Outcome : Type 0
Outcome = Result ControlError Unit

abbrev pub Controlled : Type 0 → Type 0
Controlled R = AppState R × List (Target × Signal) × Outcome

abbrev pub with_result : {A : Type 0} → Result RegistryError A → Outcome
with_result (ok a) = ok tt
with_result (err e) = err (registry e)

-- The calls that are made, and the result: the group first, and the process where that fails.
abbrev pub send_signal_to_group :
    (Target → Signal → Bool) → ℕ → Signal → List (Target × Signal) × Outcome
send_signal_to_group kill pid sig =
    if kill (group pid) sig
    then ((group pid, sig) ∷ [], ok tt)
    else if kill (process pid) sig
    then ((group pid, sig) ∷ (process pid, sig) ∷ [], ok tt)
    else ((group pid, sig) ∷ (process pid, sig) ∷ [], err (kill_failed pid sig))

module _ {R : Type 0} where
  -- The signal is sent before the registry is asked.
  abbrev pub signalled :
      AppState R → List (Target × Signal) × Outcome → lmux.Anchors.Updated → Controlled R
  signalled s (sent, err e) updated = (s, sent, err e)
  signalled s (sent, ok u) (reg, r) = (record s { anchor_registry = reg }, sent, with_result r)

  unfoldable pub pause_anchor : (Target → Signal → Bool) → AppState R → ℕ → Option ℕ → Controlled R
  pause_anchor kill s pane child = elim (lookup pane s.pane_anchor_ids) [
    | none ↦ (s, [], err (not_an_anchor pane))
    | some id ↦ elim child [
      | none ↦ (s, [], err (no_live_child pane))
      | some pid ↦ signalled s (send_signal_to_group kill pid sigstop) (pause s.anchor_registry id)
    ]
  ]

  unfoldable pub resume_anchor : (Target → Signal → Bool) → AppState R → ℕ → Option ℕ → Controlled R
  resume_anchor kill s pane child = elim (lookup pane s.pane_anchor_ids) [
    | none ↦ (s, [], err (not_an_anchor pane))
    | some id ↦ elim child [
      | none ↦ (s, [], err (no_live_child pane))
      | some pid ↦ signalled s (send_signal_to_group kill pid sigcont) (resume s.anchor_registry id)
    ]
  ]

  -- The pane is put into the set before the registry is asked, and stays there when that refuses.
  unfoldable pub hide_anchor : AppState R → ℕ → AppState R × Outcome
  hide_anchor s pane = elim (lookup pane s.pane_anchor_ids) [
    | none ↦ (s, err (not_an_anchor pane))
    | some id ↦
        if contains pane s.hidden_anchors
        then (s, ok tt)
        else let (reg, r) = set_hidden s.anchor_registry id true in
          (
            record s { hidden_anchors = set_insert pane s.hidden_anchors; anchor_registry = reg },
            with_result r,
          )
  ]

  unfoldable pub reattach_anchor : AppState R → ℕ → AppState R × Outcome
  reattach_anchor s pane = elim (lookup pane s.pane_anchor_ids) [
    | none ↦ (s, err (not_an_anchor pane))
    | some id ↦
        if not (contains pane s.hidden_anchors)
        then (s, ok tt)
        else let (reg, r) = set_hidden s.anchor_registry id false in
          (
            record s { hidden_anchors = without pane s.hidden_anchors; anchor_registry = reg },
            with_result r,
          )
  ]

  unfoldable pub anchor_for_pane : AppState R → ℕ → Option Anchor
  anchor_for_pane s pane = elim (lookup pane s.pane_anchor_ids) [
    | none ↦ none
    | some id ↦ get s.anchor_registry id
  ]

  unfoldable pub rename_anchor_for_pane : AppState R → ℕ → Option Text → AppState R
  rename_anchor_for_pane s pane name = elim (lookup pane s.pane_anchor_ids) [
    | none ↦ s
    | some id ↦ record s { anchor_registry = (rename s.anchor_registry id name).0 }
  ]

  unfoldable pub regroup_anchor_for_pane : AppState R → ℕ → Option Text → AppState R
  regroup_anchor_for_pane s pane to = elim (lookup pane s.pane_anchor_ids) [
    | none ↦ s
    | some id ↦ record s { anchor_registry = (set_group s.anchor_registry id to).0 }
  ]

  unfoldable pub set_anchor_sort_key_for_pane : AppState R → ℕ → Option ℤ → AppState R
  set_anchor_sort_key_for_pane s pane key = elim (lookup pane s.pane_anchor_ids) [
    | none ↦ s
    | some id ↦ record s { anchor_registry = (set_sort_key s.anchor_registry id key).0 }
  ]

  -- The loop of `reorder_anchors_in_group`, from the place that `idx` has reached.
  abbrev pub reorder_from : ℕ → List ℕ → AppState R → AppState R
  reorder_from idx [] s = s
  reorder_from idx (pane ∷ panes) s =
      reorder_from (suc idx) panes (set_anchor_sort_key_for_pane s pane (some (pos idx)))

  unfoldable pub reorder_anchors_in_group : AppState R → List ℕ → AppState R
  reorder_anchors_in_group s panes = reorder_from 0 panes s
