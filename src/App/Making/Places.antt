-- ===== src/App/Making/Places.antt =====
-- Where `create_pane_from_bus` of crates/lmux/src/state.rs puts the new pane, and what it answers.
use lmux.Prelude.{
  ℕ, ◌+◌, Bool, true, Option, none, some, [], ◌∷◌, nat_eq, option_eq, Text, if◌then◌else◌, lookup,
  insert, contains, contains_key, or_else, Result, ok, err, lookup-insert, ◌≡◌, refl, Bool-cases,
  inl, inr, ap, ◌∙◌, sym, subst, beq_self,
}
use lmux.Bus.Kinds.{AgentIdentity}
use lmux.Bus.Catalog.{PaneNew, PaneNewResult}
use lmux.Grants.{owner_anchor}
use lmux.Layout.{leaves, replace_leaf}
use lmux.Layout.Leaves.{splice, leaves-replace_leaf}
use lmux.App.{AppState, Pane}
use lmux.App.Access.{Failure}
use lmux.App.Panes.{next_pane_id, halved}
use lmux.App.Splitting.{leaves-halved}
use lmux.App.Making.{
  split_dir, type_command, bus_target, owned_by, anchor_uuid_or_nil, started, described,
  make_beside, make_at, create_pane_from_bus,
}
use lmux.App.Making.Kept.{described-SameFrame, owned_by-fields}

-- The answer, where the command has been typed or not.
abbrev pub answer_of : ℕ → ℕ → PaneNew → Result Failure (Unit {0}) → Result Failure PaneNewResult
answer_of uuid anchor r (err e) = err e
answer_of uuid anchor r (ok done) =
    ok (record { pane_id = uuid; anchor_id = anchor; placement = r.placement })

abbrev pub focus_of : ℕ → ℕ → Bool → Result Failure (Unit {0}) → ℕ
focus_of old new activate (err e) = old
focus_of old new activate (ok done) = if activate then new else old

module _ {R : Type 0} where
  -- The new pane of a request, in the state and the answer after it.
  abbrev pub Placed :
      AppState R
      → PaneNew
      → ℕ
      → Pane
      → Result Failure (Unit {0})
      → AppState R × Result Failure PaneNewResult
      → Type 0
  Placed s r target pane typed (t, answer) =
      let new = s.next_id in
      let owner = owner_anchor target s.anchors s.pane_workspace in
      (leaves t.layout ≡ splice target (target ∷ new ∷ []) (leaves s.layout))
      × (lookup new t.panes ≡ some pane)
      × (lookup new t.pane_uuids ≡ some s.fresh)
      × (lookup new t.pane_workspace ≡ or_else owner (lookup new s.pane_workspace))
      × (t.focused ≡ focus_of s.focused new r.activate typed)
      × (answer ≡ answer_of s.fresh (anchor_uuid_or_nil s owner) r typed)

  anchor_uuid-same :
      (s t : AppState R) (owner : Option ℕ)
      → t.pane_anchor_ids ≡ s.pane_anchor_ids
      → anchor_uuid_or_nil t owner ≡ anchor_uuid_or_nil s owner
  anchor_uuid-same s t none e = refl
  anchor_uuid-same s t (some owner) e = rw e refl

  started-Placed :
      (s t : AppState R) (r : PaneNew) (target : ℕ) (pane : Pane)
      (typed : Result Failure (Unit {0}))
      → leaves t.layout ≡ splice target (target ∷ s.next_id ∷ []) (leaves s.layout)
      → lookup s.next_id t.panes ≡ some pane
      → lookup s.next_id t.pane_uuids ≡ some s.fresh
      → lookup s.next_id t.pane_workspace
        ≡ or_else
            (owner_anchor target s.anchors s.pane_workspace)
            (lookup s.next_id s.pane_workspace)
      → t.focused ≡ s.focused
      → t.pane_anchor_ids ≡ s.pane_anchor_ids
      → Placed s r target pane typed
          (started t s.next_id s.fresh (owner_anchor target s.anchors s.pane_workspace) r typed)
  started-Placed s t r target pane (err e) l p u w f ids = (l, p, u, w, f, refl)
  started-Placed s t r target pane (ok done) l p u w f ids =
      let same = anchor_uuid-same s t (owner_anchor target s.anchors s.pane_workspace) ids in
      elim (Bool-cases r.activate) [
        | inl active ↦ rw (active, same) (l, p, u, w, refl, refl)
        | inr idle ↦ rw (idle, same) (l, p, u, w, f, refl)
      ]

  make_beside-Placed :
      (half : R) (s : AppState R) (r : PaneNew) (target : ℕ) (pane : Pane)
      (child : Option AgentIdentity) (write : Text → Result Failure (Unit {0}))
      → contains target (leaves s.layout) ≡ true
      → Placed s r target pane
          (type_command r.argv pane write)
          (make_beside half s r target pane child write)
  unfolding make_beside
  make_beside-Placed half s r target pane child write here =
      let new = s.next_id in
      let dir = split_dir r.placement in
      let agent = or_else r.agent child in
      let owner = owner_anchor target s.anchors s.pane_workspace in
      let added : AppState R = record s {
        panes = insert new pane s.panes;
        pane_uuids = insert new s.fresh s.pane_uuids;
        fresh = s.fresh + 1;
      } in
      let made = owned_by added new owner in
      let (l, p, a, n, act, u, f, ids, w, own) = owned_by-fields added new owner in
      let split = replace_leaf made.layout target (halved half dir new) in
      let (found, shape) = leaves-replace_leaf s.layout target (halved half dir new) in
      let same = ap (λ t. replace_leaf t target (halved half dir new)) l in
      let hit : split.1 ≡ true = ap (λ t. t.1) same ∙ found ∙ here in
      let placed : AppState R = record made {
        next_id = next_pane_id made.next_id;
        layout = split.0;
      } in
      let full = described placed new target owner r agent in
      let (l', p', a', w', n', act', u', f', ids') =
        described-SameFrame placed new target owner r agent in
      rw hit (
        started-Placed s full r target pane (type_command r.argv pane write)
          (ap leaves l'
            ∙ ap (λ t. leaves t.0) same
            ∙ shape
            ∙ ap (λ t. splice target t (leaves s.layout)) (leaves-halved half dir new target))
          (ap (lookup new) (p' ∙ p)
            ∙ lookup-insert new new pane s.panes
            ∙ ap (λ t. if t then some pane else lookup new s.panes) (beq_self new))
          (ap (lookup new) (u' ∙ u)
            ∙ lookup-insert new new s.fresh s.pane_uuids
            ∙ ap (λ t. if t then some s.fresh else lookup new s.pane_uuids) (beq_self new))
          (ap (lookup new) w' ∙ own) (f' ∙ f) (ids' ∙ ids))

  -- A request whose target is a live pane that stands in the layout, when a pane can be made for it,
  -- puts the new pane right behind the target in the layout, with a new uuid and in the workspace that
  -- owns the target, if there is one (without one, the entry that the new id has in the workspaces
  -- stays as it is). It is so even if the command cannot be typed into the new pane: the answer is
  -- then that error. Otherwise the answer names the new uuid and the owner's, and the new pane has
  -- the focus if the request asks for it.
  pub create_pane_from_bus-Placed :
      (half : R) (s : AppState R) (r : PaneNew) (target : ℕ) (pane : Pane)
      (child : Option AgentIdentity) (write : Text → Result Failure (Unit {0}))
      → bus_target s r.target_anchor ≡ ok target
      → contains_key target s.panes ≡ true
      → contains target (leaves s.layout) ≡ true
      → Placed s r target pane
          (type_command r.argv pane write)
          (create_pane_from_bus half s r (some pane) child write)
  unfolding create_pane_from_bus
  create_pane_from_bus-Placed half s r target pane child write aimed live here =
      subst
        (λ o.
          Placed s r target pane (type_command r.argv pane write)
            (make_at half s r (some pane) child write o))
        (sym aimed) (rw live (make_beside-Placed half s r target pane child write here))
