-- ===== src/App/Unasked.antt =====
-- The grants through the operations of crates/lmux/src/state.rs that make panes.
use lmux.Prelude.{
  ℕ, ◌+◌, Option, none, some, nat_eq, option_eq, insert, ◌≡◌, refl, Bool, Bool-cases, Text, Result,
  ok, err, or_else, arith, inl, inr, ◌∙◌,
}
use lmux.Layout.{Dir, replace_leaf}
use lmux.App.{AppState, Pane}
use lmux.App.Tabs.{ensure_terminal_tab_stack, remove_terminal_tab_metadata}
use lmux.Bus.Kinds.{AgentIdentity, PanePlacement}
use lmux.Bus.Catalog.{PaneNew}
use lmux.Grants.{owner_anchor}
use lmux.App.Access.{Failure}
use lmux.App.Making.{
  split_dir, type_command, bus_target, owned_by, titled, with_agent, tabbed, started, described,
  make_beside, make_at, create_pane_from_bus,
}
use lmux.App.Quiet.{tag_and_activate-Quiet}
use lmux.App.Panes.{
  halved, next_pane_id, inherit_workspace, forget_pane, split_focused, as_root, create_new_anchor,
}

module _ {R : Type 0} where
  inherited-grants :
      (s : AppState R) (target new : ℕ) → (inherit_workspace s target new).grants ≡ s.grants
  unfolding inherit_workspace
  inherited-grants s target new = ground arith

  split_focused-grants :
      (half : R) (s : AppState R) (dir : Dir) (pane : Option Pane)
      → (split_focused half s dir pane).grants ≡ s.grants
  unfolding split_focused forget_pane remove_terminal_tab_metadata
  split_focused-grants half s dir none = refl
  split_focused-grants half s dir (some pane) =
      let added : AppState R = record s {
        panes = insert s.next_id pane s.panes;
        pane_uuids = insert s.next_id s.fresh s.pane_uuids;
        fresh = s.fresh + 1;
      } in
      ground (arith, inherited-grants added s.focused s.next_id)

  pub create_new_anchor-grants :
      (half : R) (s : AppState R) (pane : Option Pane)
      → (create_new_anchor half s pane).grants ≡ s.grants
  unfolding create_new_anchor as_root remove_terminal_tab_metadata
  create_new_anchor-grants half s pane =
      let split = split_focused half s Dir.vertical pane in
      ground (
        arith,
        split_focused-grants half s Dir.vertical pane,
        tag_and_activate-Quiet (as_root split s.next_id) s.next_id,
      )

  owned_by-grants : (s : AppState R) (id : ℕ) (o : Option ℕ) → (owned_by s id o).grants ≡ s.grants
  unfolding ensure_terminal_tab_stack
  owned_by-grants s id none = refl
  owned_by-grants s id (some owner) = refl

  titled-grants :
      (s : AppState R) (id : ℕ) (title : Option Text) (agent : Option AgentIdentity)
      → (titled s id title agent).grants ≡ s.grants
  titled-grants s id none agent = refl
  titled-grants s id (some t) agent = refl

  with_agent-grants :
      (s : AppState R) (id : ℕ) (agent : Option AgentIdentity) (purpose : Option Text)
      → (with_agent s id agent purpose).grants ≡ s.grants
  with_agent-grants s id none purpose = refl
  with_agent-grants s id (some a) purpose = refl

  tabbed-grants :
      (s : AppState R) (id target : ℕ) (owner : Option ℕ) (placement : PanePlacement)
      (activate : Bool)
      → (tabbed s id target owner placement activate).grants ≡ s.grants
  tabbed-grants s id target none placement activate = refl
  tabbed-grants s id target (some o) PanePlacement.tab activate = refl
  tabbed-grants s id target (some o) PanePlacement.split_right activate = refl
  tabbed-grants s id target (some o) PanePlacement.split_down activate = refl

  described-grants :
      (s : AppState R) (id target : ℕ) (owner : Option ℕ) (r : PaneNew)
      (agent : Option AgentIdentity)
      → (described s id target owner r agent).grants ≡ s.grants
  unfolding described
  described-grants s id target owner r agent =
      let t = titled s id r.title agent in
      let u = with_agent t id agent r.purpose in
      tabbed-grants u id target owner r.placement r.activate
      ∙ with_agent-grants t id agent r.purpose
      ∙ titled-grants s id r.title agent

  started-grants :
      (s : AppState R) (id uuid : ℕ) (owner : Option ℕ) (r : PaneNew)
      (typed : Result Failure (Unit {0}))
      → (started s id uuid owner r typed).0.grants ≡ s.grants
  started-grants s id uuid owner r (err e) = refl
  started-grants s id uuid owner r (ok done) = ground arith

  make_beside-grants :
      (half : R) (s : AppState R) (r : PaneNew) (target : ℕ) (pane : Pane)
      (child : Option AgentIdentity) (write : Text → Result Failure (Unit {0}))
      → (make_beside half s r target pane child write).0.grants ≡ s.grants
  unfolding make_beside forget_pane remove_terminal_tab_metadata
  make_beside-grants half s r target pane child write =
      let new = s.next_id in
      let agent = or_else r.agent child in
      let owner = owner_anchor target s.anchors s.pane_workspace in
      let added : AppState R = record s {
        panes = insert new pane s.panes;
        pane_uuids = insert new s.fresh s.pane_uuids;
        fresh = s.fresh + 1;
      } in
      let made = owned_by added new owner in
      let split = replace_leaf made.layout target (halved half (split_dir r.placement) new) in
      let placed : AppState R = record made {
        next_id = next_pane_id made.next_id;
        layout = split.0;
      } in
      let full = described placed new target owner r agent in
      let kept = owned_by-grants added new owner in
      elim (Bool-cases (split.1)) [
        | inl hit ↦ rw hit (
            started-grants full new s.fresh owner r (type_command r.argv pane write)
            ∙ described-grants placed new target owner r agent
            ∙ kept)
        | inr miss ↦ rw miss kept
      ]

  make_at-grants :
      (half : R) (s : AppState R) (r : PaneNew) (pane : Option Pane) (child : Option AgentIdentity)
      (write : Text → Result Failure (Unit {0})) (target : Result Failure ℕ)
      → (make_at half s r pane child write target).0.grants ≡ s.grants
  make_at-grants half s r pane child write (err e) = refl
  make_at-grants half s r none child write (ok target) = ground arith
  make_at-grants half s r (some p) child write (ok target) =
      ground (arith, make_beside-grants half s r target p child write)

  pub create_pane_from_bus-grants :
      (half : R) (s : AppState R) (r : PaneNew) (pane : Option Pane) (child : Option AgentIdentity)
      (write : Text → Result Failure (Unit {0}))
      → (create_pane_from_bus half s r pane child write).0.grants ≡ s.grants
  unfolding create_pane_from_bus
  create_pane_from_bus-grants half s r pane child write =
      make_at-grants half s r pane child write (bus_target s r.target_anchor)
