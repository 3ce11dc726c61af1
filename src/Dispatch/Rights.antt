-- ===== src/Dispatch/Rights.antt =====
-- Nothing that comes over the bus grants anything: crates/lmux/src/bus.rs and
-- crates/lmux/src/agent_control.rs.
use lmux.Prelude.{
  ℕ, true, false, Option, none, some, ◌==◌, nat_eq, option_eq, Text, lookup, insert, lookup-insert,
  ◌≡◌, refl, arith, Bool-cases, Option-cases, inl, inr, ap, ◌∙◌, sym, subst, ◌⊎◌,
}
use lmux.Bus.Kinds.{AgentIdentity, GrantScope, GrantRequest}
use lmux.Grants.{
  GrantRecord, Grants, GrantState, is_active, pending, revoked, denied, allowed_once, allowed_until,
  settle, existing_grant_decision, find_grant, decide_or_ask, authorize_pane_access,
  register_grant_request, Desk, Ask, own_pane, same_workspace, target_anchor_of, request_for,
  Outcome,
}

-- Each grant that is active at some moment was there before, as it is.
abbrev pub IsNarrower : Grants → Grants → Type 0
IsNarrower old new =
    (id : ℕ) (r : GrantRecord) (now : ℕ)
    → lookup id new ≡ some r
    → is_active now r.state ≡ true
    → lookup id old ≡ some r

pub same-IsNarrower : (old new : Grants) → new ≡ old → IsNarrower old new
same-IsNarrower old new e id r now at active = ap (lookup id) (sym e) ∙ at

pub IsNarrower-trans : (a b c : Grants) → IsNarrower a b → IsNarrower b c → IsNarrower a c
IsNarrower-trans a b c first second id r now at active =
    first id r now (second id r now at active) active

pub insert-IsNarrower :
    (grants : Grants) (id : ℕ) (q : GrantRecord)
    → ((now : ℕ) → is_active now q.state ≡ false)
    → IsNarrower grants (insert id q grants)
insert-IsNarrower grants id q idle k r now at active = elim (Bool-cases (id == k)) [
  | inr other ↦ ground (arith, lookup-insert id k q grants)
  | inl hit ↦ absurd (
      let same : some q ≡ some r = ground (arith, lookup-insert id k q grants) in
      let alike : is_active now q.state ≡ is_active now r.state =
        ap (λ o. elim o [ none ↦ false | some x ↦ is_active now x.state ]) same in
      ground (arith, idle now))
]

settle-IsNarrower :
    (state : GrantState) (id : ℕ) (scope : GrantScope) (now : ℕ) (r : GrantRecord) (grants : Grants)
    → IsNarrower grants (settle state id scope now r grants).0
settle-IsNarrower allowed_once id scope now r grants =
    insert-IsNarrower grants id (record r { state = revoked }) λ now. refl
settle-IsNarrower (allowed_until expires_at) id scope now r grants =
    same-IsNarrower grants grants refl
settle-IsNarrower pending id scope now r grants = same-IsNarrower grants grants refl
settle-IsNarrower denied id scope now r grants = same-IsNarrower grants grants refl
settle-IsNarrower revoked id scope now r grants = same-IsNarrower grants grants refl

existing-cases :
    (grants : Grants) (agent : AgentIdentity) (scope : GrantScope) (anchor : Option ℕ) (pane : ℕ)
    (window : Option Text) (now : ℕ)
    → let found = existing_grant_decision grants agent scope anchor pane window now in
      (found.0 ≡ grants)
      ⊎ ((id : ℕ) × (r : GrantRecord) × (found.0 ≡ (settle r.state id scope now r grants).0))
unfolding existing_grant_decision
existing-cases grants agent scope anchor pane window now =
    elim (Option-cases (find_grant grants agent scope anchor pane window)) [
      | inl nothing ↦ inl (ground arith)
      | inr (id, found) ↦ elim (Option-cases (lookup id grants)) [
        | inl gone ↦ inl (ground arith)
        | inr (r, at) ↦ inr (id, r, ground arith)
      ]
    ]

existing-IsNarrower :
    (grants : Grants) (agent : AgentIdentity) (scope : GrantScope) (anchor : Option ℕ) (pane : ℕ)
    (window : Option Text) (now : ℕ)
    → IsNarrower grants (existing_grant_decision grants agent scope anchor pane window now).0
existing-IsNarrower grants agent scope anchor pane window now =
    elim (existing-cases grants agent scope anchor pane window now) [
      | inl same ↦ same-IsNarrower grants _ same
      | inr (id, r, e) ↦
          subst (IsNarrower grants) (sym e) (settle-IsNarrower r.state id scope now r grants)
    ]

pub register-IsNarrower :
    (grants : Grants) (request : GrantRequest)
    → IsNarrower grants (register_grant_request grants request).0
unfolding register_grant_request
register-IsNarrower grants request =
    insert-IsNarrower grants request.grant_id (record { request = request; state = pending })
      λ now. refl

decide_or_ask-IsNarrower :
    (d : Desk) (a : Ask) (agent : AgentIdentity) (grants grants' : Grants) (result : Option Outcome)
    → IsNarrower grants grants'
    → IsNarrower grants (decide_or_ask d a agent (grants', result)).0
decide_or_ask-IsNarrower d a agent grants grants' (some o) h = h
decide_or_ask-IsNarrower d a agent grants grants' none h =
    IsNarrower-trans grants grants' (register_grant_request grants' (request_for d a agent)).0 h
      (register-IsNarrower grants' (request_for d a agent))

-- The check of an access makes no grant active.
pub authorize-IsNarrower :
    (d : Desk) (grants : Grants) (a : Ask) (agent : Option AgentIdentity)
    → IsNarrower grants (authorize_pane_access d grants a agent).0
unfolding authorize_pane_access
authorize-IsNarrower d grants a none = same-IsNarrower grants grants refl
authorize-IsNarrower d grants a (some agent) = elim (Bool-cases (own_pane d a agent)) [
  | inl own ↦ rw own (same-IsNarrower grants grants refl)
  | inr foreign ↦ elim (Bool-cases (same_workspace d a agent)) [
    | inl near ↦ rw (foreign, near) (same-IsNarrower grants grants refl)
    | inr far ↦
        let found =
          existing_grant_decision grants agent a.scope (target_anchor_of d a) a.target_pane_uuid
            a.target_window d.now in
        rw (foreign, far)
          (decide_or_ask-IsNarrower d a agent grants found.0 found.1 (
            existing-IsNarrower grants agent a.scope (target_anchor_of d a) a.target_pane_uuid
              a.target_window d.now))
  ]
]
