-- ===== src/App/Making/Steps.antt =====
-- `create_pane_from_bus` of crates/lmux/src/state.rs as a step of the application: its split of the
-- layout and the id that it takes.
use lmux.Prelude.{
  ℕ, ◌+◌, ◌≤◌, Option, none, some, nat_eq, Text, insert, contains_key, or_else, Result, ok, err,
  ◌≡◌, refl, arith, Bool-cases, inl, inr, ap, ◌∙◌,
}
use lmux.Bus.Kinds.{AgentIdentity}
use lmux.Bus.Catalog.{PaneNew}
use lmux.Grants.{owner_anchor}
use lmux.Layout.{leaves, replace_leaf}
use lmux.App.{AppState, Pane}
use lmux.App.Access.{Failure}
use lmux.App.Tabs.{remove_terminal_tab_metadata}
use lmux.App.Panes.{next_pane_id, halved, forget_pane}
use lmux.App.Consistent.{IsSound}
use lmux.App.Ids.{next_pane_id-bound}
use lmux.App.Making.{
  split_dir, type_command, bus_target, owned_by, started, described, make_beside, make_at,
  create_pane_from_bus,
}
use lmux.App.Making.Kept.{described-SameFrame, owned_by-fields}
use lmux.App.Screen.{Shows, stays, spliced-Shows}

module _ {R : Type 0} where
  started-fields :
      (s : AppState R) (id uuid : ℕ) (owner : Option ℕ) (r : PaneNew)
      (typed : Result Failure (Unit {0}))
      → ((started s id uuid owner r typed).0.layout ≡ s.layout)
        × ((started s id uuid owner r typed).0.next_id ≡ s.next_id)
  started-fields s id uuid owner r (err e) = (refl, refl)
  started-fields s id uuid owner r (ok done) = elim (Bool-cases r.activate) [
    | inl active ↦ rw active (refl, refl)
    | inr idle ↦ rw idle (refl, refl)
  ]

  make_beside-fields :
      (half : R) (s : AppState R) (r : PaneNew) (target : ℕ) (pane : Pane)
      (child : Option AgentIdentity) (write : Text → Result Failure (Unit {0}))
      → let t = (make_beside half s r target pane child write).0 in
        (t.layout
          ≡ (replace_leaf s.layout target (halved half (split_dir r.placement) s.next_id)).0)
        × (t.next_id ≡ next_pane_id s.next_id)
  unfolding make_beside forget_pane remove_terminal_tab_metadata
  make_beside-fields half s r target pane child write =
      let new = s.next_id in
      let dir = split_dir r.placement in
      let agent = or_else r.agent child in
      let owner = owner_anchor target s.anchors s.pane_workspace in
      let added : AppState R = record s {
        panes = insert new pane s.panes;
        pane_uuids = insert new s.fresh s.pane_uuids;
        fresh = s.fresh + 1;
      } in
      let made = owned_by added new owner in
      let (l, p, a, n, act, u, f, ids, w, own) = owned_by-fields added new owner in
      let split = replace_leaf made.layout target (halved half dir new) in
      let same = ap (λ t. (replace_leaf t target (halved half dir new)).0) l in
      let placed : AppState R = record made {
        next_id = next_pane_id made.next_id;
        layout = split.0;
      } in
      let full = described placed new target owner r agent in
      let (l', p', a', w', n', act', u', f', ids') =
        described-SameFrame placed new target owner r agent in
      let typed = type_command r.argv pane write in
      elim (Bool-cases (split.1)) [
        | inl hit ↦ rw hit (
          (started-fields full new s.fresh owner r typed).0 ∙ l' ∙ same,
          (started-fields full new s.fresh owner r typed).1 ∙ n' ∙ ap next_pane_id n,
        )
        | inr miss ↦ rw miss (same, ap next_pane_id n)
      ]

  -- The step of the screen, and the next id.
  abbrev pub Steps : AppState R → AppState R → Type 0
  Steps s t = Shows (leaves s.layout) (leaves t.layout) × (t.next_id ≤ s.next_id + 1)

  same-Steps : (s : AppState R) → Steps s s
  same-Steps s = (stays refl, omega arith)

  make_beside-Steps :
      (half : R) (s : AppState R) (r : PaneNew) (target : ℕ) (pane : Pane)
      (child : Option AgentIdentity) (write : Text → Result Failure (Unit {0}))
      → IsSound s
      → Steps s (make_beside half s r target pane child write).0
  make_beside-Steps half s r target pane child write h =
      let (l, n) = make_beside-fields half s r target pane child write in
      (
        spliced-Shows half (split_dir r.placement) target s
            (make_beside half s r target pane child write).0 h l,
        ground (arith, n, next_pane_id-bound s.next_id),
      )

  make_at-Steps :
      (half : R) (s : AppState R) (r : PaneNew) (pane : Option Pane) (child : Option AgentIdentity)
      (write : Text → Result Failure (Unit {0})) (target : Result Failure ℕ)
      → IsSound s
      → Steps s (make_at half s r pane child write target).0
  make_at-Steps half s r pane child write (err e) h = same-Steps s
  make_at-Steps half s r none child write (ok target) h =
      elim (Bool-cases (contains_key target s.panes)) [
        | inl live ↦ rw live (same-Steps s)
        | inr dead ↦ rw dead (same-Steps s)
      ]
  make_at-Steps half s r (some p) child write (ok target) h =
      elim (Bool-cases (contains_key target s.panes)) [
        | inl live ↦ rw live (make_beside-Steps half s r target p child write h)
        | inr dead ↦ rw dead (same-Steps s)
      ]

  pub create_pane_from_bus-Steps :
      (half : R) (s : AppState R) (r : PaneNew) (pane : Option Pane) (child : Option AgentIdentity)
      (write : Text → Result Failure (Unit {0}))
      → IsSound s
      → Steps s (create_pane_from_bus half s r pane child write).0
  unfolding create_pane_from_bus
  create_pane_from_bus-Steps half s r pane child write h =
      make_at-Steps half s r pane child write (bus_target s r.target_anchor) h
