-- ===== src/Dispatch/Arms.antt =====
-- The arms of `handle_deferred`, crates/lmux/src/bus.rs, and of the operations behind them: what
-- holds of the state before and of the state after each operation holds of the state that is left.
use lmux.Prelude.{
  ℕ, ℤ, pos, negsuc, Bool, Option, none, some, nat_eq, Text, Result, ok, err, contains, leb, lookup,
  insert, Bool-cases, inl, inr,
}
use lmux.Bus.Kinds.{AgentIdentity, GrantScope}
use lmux.Grants.{Outcome}
use lmux.App.{AppState, Pane}
use lmux.App.Access.{
  Wording, Command, Failure, ask_pinned, authorize_pane_access, answered, guarded_at,
  is_pinned_title, new_title, retitle, rename_at, title_change,
}
use lmux.App.Anchors.{add_anchor}
use lmux.App.Panes.{u32_max}
use lmux.Dispatch.{Outside, Handled, at_anchor, tag_pane, tag_owner, tag_self, resolve_owning_pane}

-- What is to hold, and the state before.
module _ {R : Type 0} (P : AppState R → Type 0) (s : AppState R) where
  pub at_anchor-all :
      (id : ℕ) (next : ℕ → Handled R) (o : Option ℕ)
      → P s
      → ((p : ℕ) → P (next p).0)
      → P (at_anchor s id next o).0
  at_anchor-all id next none h each = h
  at_anchor-all id next (some p) h each = each p

  pub tag_pane-all :
      (id : ℕ) (o : Option ℕ) → P s → ((p : ℕ) → P (add_anchor s p)) → P (tag_pane s id o).0
  tag_pane-all id none h each = h
  tag_pane-all id (some p) h each = elim (Bool-cases (contains p s.anchors)) [
    | inl anchor ↦ rw anchor h
    | inr plain ↦ rw plain (each p)
  ]

  tag_owner-all :
      (source : ℕ) (o : Option ℕ)
      → P s
      → ((p : ℕ) → P (add_anchor s p))
      → P (tag_owner s source o).0
  tag_owner-all source none h each = h
  tag_owner-all source (some p) h each = each p

  pub tag_self-all :
      (out : Outside) (pid : ℤ) → P s → ((p : ℕ) → P (add_anchor s p)) → P (tag_self s out pid).0
  tag_self-all out (negsuc n) h each = h
  tag_self-all out (pos pid) h each = elim (Bool-cases (leb pid u32_max)) [
    | inl fits ↦
        rw fits (tag_owner-all pid (resolve_owning_pane out.child_pid out.read_ppid s pid) h each)
    | inr large ↦ rw large h
  ]

  module _ (wording : Wording → Text) (now : ℕ) where
    answered-all :
        {A : Type 0} (uuid : ℕ) (command : Command) (answer : Pane → Result Failure A) (pane : ℕ)
        (outcome : Outcome)
        → P s
        → P (answered wording now uuid command answer pane (s, outcome)).0
    answered-all uuid command answer pane (err e) h = h
    answered-all uuid command answer pane (ok u) h = h

    retitle-all :
        (uuid : ℕ) (title : Text) (pin : Bool) (agent : Option AgentIdentity) (pane : ℕ)
        (outcome : Outcome)
        → P s
        → P (ask_pinned wording now s pane uuid title agent)
        → P (record s { pane_titles = insert pane (new_title title pin agent) s.pane_titles })
        → P (retitle wording now uuid title pin agent pane (s, outcome)).0
    retitle-all uuid title pin agent pane (err e) h asked changed = h
    retitle-all uuid title pin agent pane (ok u) h asked changed =
        elim (Bool-cases (is_pinned_title (lookup pane s.pane_titles))) [
          | inl pinned ↦ rw pinned asked
          | inr loose ↦ rw loose changed
        ]

module _ {R : Type 0} (P : AppState R → Type 0) (wording : Wording → Text) (now : ℕ)
    (s : AppState R) where
  pub guarded_at-all :
      {A : Type 0} (uuid : ℕ) (scope : GrantScope) (agent : Option AgentIdentity) (why : Wording)
      (command : Command) (answer : Pane → Result Failure A) (o : Option ℕ)
      → P s
      → ((pane : ℕ) → P (authorize_pane_access wording now s pane uuid scope agent why).0)
      → P (guarded_at wording now s uuid scope agent why command answer o).0
  guarded_at-all uuid scope agent why command answer none h checked = h
  guarded_at-all uuid scope agent why command answer (some pane) h checked =
      let access = authorize_pane_access wording now s pane uuid scope agent why in
      answered-all P access.0 wording now uuid command answer pane access.1 (checked pane)

  pub rename_at-all :
      (uuid : ℕ) (title : Text) (pin : Bool) (agent : Option AgentIdentity) (o : Option ℕ)
      → P s
      → ((pane : ℕ)
          → let t =
              (authorize_pane_access wording now s pane uuid GrantScope.rename agent
                title_change).0 in
            P t
            × P (ask_pinned wording now t pane uuid title agent)
            × P (record t { pane_titles = insert pane (new_title title pin agent) t.pane_titles }))
      → P (rename_at wording now s uuid title pin agent o).0
  rename_at-all uuid title pin agent none h checked = h
  rename_at-all uuid title pin agent (some pane) h checked =
      let access =
        authorize_pane_access wording now s pane uuid GrantScope.rename agent title_change in
      let (kept, asked, changed) = checked pane in
      retitle-all P access.0 wording now uuid title pin agent pane access.1 kept asked changed
