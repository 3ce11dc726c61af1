-- ===== src/App/Making/Kept.antt =====
-- What `create_pane_from_bus` of crates/lmux/src/state.rs makes, and what it keeps.
use lmux.Prelude.{
  ℕ, ◌+◌, ◌<◌, Bool, false, Option, none, some, ◌==◌, nat_eq, option_eq, Text, lookup, insert,
  erase, contains_key, or_else, Result, ok, err, lookup-insert, ◌≡◌, refl, arith, Bool-cases, inl,
  inr, ap, ◌∙◌, sym, beq_self,
}
use lmux.Bus.Kinds.{AgentIdentity, PanePlacement}
use lmux.Bus.Catalog.{PaneNew}
use lmux.Grants.{owner_anchor}
use lmux.Layout.{replace_leaf}
use lmux.Layout.Leaves.{leaves-replace_leaf}
use lmux.App.{AppState, Pane}
use lmux.App.Access.{Failure}
use lmux.App.Tabs.{ensure_terminal_tab_stack, remove_terminal_tab_metadata}
use lmux.App.Panes.{u32_max, next_pane_id, halved, forget_pane}
use lmux.App.Consistent.{IsConsistent, same-IsSound}
use lmux.App.Splitting.{placed-IsSound, forgotten-IsSound}
use lmux.App.Making.{
  split_dir, type_command, bus_target, owned_by, titled, with_agent, tabbed, started, described,
  make_beside, make_at, create_pane_from_bus,
}

module _ {R : Type 0} where
  -- The fields that a description of a pane leaves.
  abbrev pub SameFrame : AppState R → AppState R → Type 0
  SameFrame s t =
      (t.layout ≡ s.layout)
      × (t.panes ≡ s.panes)
      × (t.anchors ≡ s.anchors)
      × (t.pane_workspace ≡ s.pane_workspace)
      × (t.next_id ≡ s.next_id)
      × (t.active_anchor ≡ s.active_anchor)
      × (t.pane_uuids ≡ s.pane_uuids)
      × (t.focused ≡ s.focused)
      × (t.pane_anchor_ids ≡ s.pane_anchor_ids)

  SameFrame-trans : (s t u : AppState R) → SameFrame s t → SameFrame t u → SameFrame s u
  SameFrame-trans s t u (a, b, c, d, e, f, g, h, i) (a', b', c', d', e', f', g', h', i') =
      (a' ∙ a, b' ∙ b, c' ∙ c, d' ∙ d, e' ∙ e, f' ∙ f, g' ∙ g, h' ∙ h, i' ∙ i)

  titled-SameFrame :
      (s : AppState R) (id : ℕ) (title : Option Text) (agent : Option AgentIdentity)
      → SameFrame s (titled s id title agent)
  titled-SameFrame s id none agent = ground arith
  titled-SameFrame s id (some t) agent = ground arith

  with_agent-SameFrame :
      (s : AppState R) (id : ℕ) (agent : Option AgentIdentity) (purpose : Option Text)
      → SameFrame s (with_agent s id agent purpose)
  with_agent-SameFrame s id none purpose = ground arith
  with_agent-SameFrame s id (some a) purpose = ground arith

  tabbed-SameFrame :
      (s : AppState R) (id target : ℕ) (owner : Option ℕ) (placement : PanePlacement)
      (activate : Bool)
      → SameFrame s (tabbed s id target owner placement activate)
  tabbed-SameFrame s id target none placement activate = ground arith
  tabbed-SameFrame s id target (some o) PanePlacement.tab activate = ground arith
  tabbed-SameFrame s id target (some o) PanePlacement.split_right activate = ground arith
  tabbed-SameFrame s id target (some o) PanePlacement.split_down activate = ground arith

  pub described-SameFrame :
      (s : AppState R) (id target : ℕ) (owner : Option ℕ) (r : PaneNew)
      (agent : Option AgentIdentity)
      → SameFrame s (described s id target owner r agent)
  unfolding described
  described-SameFrame s id target owner r agent =
      let t = titled s id r.title agent in
      let u = with_agent t id agent r.purpose in
      let v = tabbed u id target owner r.placement r.activate in
      SameFrame-trans s t v (titled-SameFrame s id r.title agent) (
        SameFrame-trans t u v (with_agent-SameFrame t id agent r.purpose)
          (tabbed-SameFrame u id target owner r.placement r.activate))

  pub owned_by-fields :
      (s : AppState R) (id : ℕ) (owner : Option ℕ)
      → let t = owned_by s id owner in
        (t.layout ≡ s.layout)
        × (t.panes ≡ s.panes)
        × (t.anchors ≡ s.anchors)
        × (t.next_id ≡ s.next_id)
        × (t.active_anchor ≡ s.active_anchor)
        × (t.pane_uuids ≡ s.pane_uuids)
        × (t.focused ≡ s.focused)
        × (t.pane_anchor_ids ≡ s.pane_anchor_ids)
        × ((k : ℕ) → (k == id) ≡ false → lookup k t.pane_workspace ≡ lookup k s.pane_workspace)
        × (lookup id t.pane_workspace ≡ or_else owner (lookup id s.pane_workspace))
  unfolding ensure_terminal_tab_stack
  owned_by-fields s id none =
      (refl, refl, refl, refl, refl, refl, refl, refl, λ k other. refl, refl)
  owned_by-fields s id (some owner) = (
    refl,
    refl,
    refl,
    refl,
    refl,
    refl,
    refl,
    refl,
    λ k other. ground (arith, lookup-insert id k owner s.pane_workspace),
    ground (arith, lookup-insert id id owner s.pane_workspace, beq_self id),
  )

  SameFrame-IsConsistent : (s t : AppState R) → SameFrame s t → IsConsistent s → IsConsistent t
  SameFrame-IsConsistent s t (l, p, a, w, n, act, u, f, ids) h =
      (same-IsSound s t l p a w n h.0, λ b x. rw a (h.1 b (sym act ∙ x)))

  started-IsConsistent :
      (s : AppState R) (id uuid : ℕ) (owner : Option ℕ) (r : PaneNew)
      (typed : Result Failure (Unit {0}))
      → IsConsistent s
      → IsConsistent (started s id uuid owner r typed).0
  started-IsConsistent s id uuid owner r (err e) h = h
  started-IsConsistent s id uuid owner r (ok done) h = elim (Bool-cases r.activate) [
    | inl active ↦
        rw active (same-IsSound s (record s { focused = id }) refl refl refl refl refl h.0, h.1)
    | inr idle ↦ rw idle h
  ]

  make_beside-IsConsistent :
      (half : R) (s : AppState R) (r : PaneNew) (target : ℕ) (pane : Pane)
      (child : Option AgentIdentity) (write : Text → Result Failure (Unit {0}))
      → IsConsistent s
      → s.next_id < u32_max
      → IsConsistent (make_beside half s r target pane child write).0
  unfolding make_beside
  make_beside-IsConsistent half s r target pane child write h room =
      let new = s.next_id in
      let dir = split_dir r.placement in
      let agent = or_else r.agent child in
      let owner = owner_anchor target s.anchors s.pane_workspace in
      let added : AppState R = record s {
        panes = insert new pane s.panes;
        pane_uuids = insert new s.fresh s.pane_uuids;
        fresh = s.fresh + 1;
      } in
      let made = owned_by added new owner in
      let (l, p, a, n, act, u, f, ids, w, own) = owned_by-fields added new owner in
      let split = replace_leaf made.layout target (halved half dir new) in
      let found = (leaves-replace_leaf s.layout target (halved half dir new)).0 in
      let same = ap (λ t. replace_leaf t target (halved half dir new)) l in
      let placed : AppState R = record made {
        next_id = next_pane_id made.next_id;
        layout = split.0;
      } in
      let full = described placed new target owner r agent in
      elim (Bool-cases (split.1)) [
        | inl hit ↦ rw hit (
            started-IsConsistent full new s.fresh owner r (type_command r.argv pane write) (
              SameFrame-IsConsistent placed full
                (described-SameFrame placed new target owner r agent)
                (
                  placed-IsSound half dir target pane s placed h.0 room (ground (arith, found))
                      (ap (λ t. t.0) same) p a w (ap next_pane_id n),
                  λ b x. rw a (h.1 b (sym act ∙ x)),
                )))
        | inr miss ↦ rw miss (
          forgotten-IsSound half dir target pane s (forget_pane placed new) h.0 room
              (ground (arith, found))
              (unfold forget_pane remove_terminal_tab_metadata in ap (λ t. t.0) same)
              (unfold forget_pane remove_terminal_tab_metadata in ap (erase new) p)
              (unfold forget_pane remove_terminal_tab_metadata in a)
              (unfold forget_pane remove_terminal_tab_metadata in w)
              (unfold forget_pane remove_terminal_tab_metadata in ap next_pane_id n),
          unfold forget_pane remove_terminal_tab_metadata in λ b x. rw a (h.1 b (sym act ∙ x)),
        )
      ]

  make_at-IsConsistent :
      (half : R) (s : AppState R) (r : PaneNew) (pane : Option Pane) (child : Option AgentIdentity)
      (write : Text → Result Failure (Unit {0})) (target : Result Failure ℕ)
      → IsConsistent s
      → s.next_id < u32_max
      → IsConsistent (make_at half s r pane child write target).0
  make_at-IsConsistent half s r pane child write (err e) h room = h
  make_at-IsConsistent half s r none child write (ok target) h room =
      elim (Bool-cases (contains_key target s.panes)) [
        | inl live ↦ rw live h
        | inr dead ↦ rw dead h
      ]
  make_at-IsConsistent half s r (some p) child write (ok target) h room =
      elim (Bool-cases (contains_key target s.panes)) [
        | inl live ↦ rw live (make_beside-IsConsistent half s r target p child write h room)
        | inr dead ↦ rw dead h
      ]

  -- `create_pane_from_bus` keeps the invariant while there are ids left.
  pub create_pane_from_bus-IsConsistent :
      (half : R) (s : AppState R) (r : PaneNew) (pane : Option Pane) (child : Option AgentIdentity)
      (write : Text → Result Failure (Unit {0}))
      → IsConsistent s
      → s.next_id < u32_max
      → IsConsistent (create_pane_from_bus half s r pane child write).0
  unfolding create_pane_from_bus
  create_pane_from_bus-IsConsistent half s r pane child write h room =
      make_at-IsConsistent half s r pane child write (bus_target s r.target_anchor) h room
