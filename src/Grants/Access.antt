-- ===== src/Grants/Access.antt =====
-- Who may touch a pane: `authorize_pane_access` and the grants that it uses up or puts on record.
use lmux.Prelude.{
  ok, err, ℕ, true, false, Option, none, some, [], ◌∷◌, nat_eq, list_eq, beq_self, ◌⊎◌, inl, inr,
  ◌≡◌, refl, arith, option_eq, Text, lookup, insert, keys, Distinct, contains_of_lookup,
  lookup-insert, Bool-cases, Option-cases,
}
use lmux.Bus.Kinds.{AgentIdentity, GrantScope, scope_eq}
use lmux.Bus.Errors.{unauthorized, grant_denied}
use lmux.Grants.{
  GrantRecord, Grants, grant_matches, find_grant, is_active, Desk, Ask, own_pane, same_workspace,
  target_anchor_of, authorize_pane_access, allowed_once, revoked, pending, request_for, was_revoked,
  is_pending, grant_required, GrantState, settle, window_target_matches,
}

-- The parameters of a search for a grant.
module _ (agent : AgentIdentity) (scope : GrantScope) (anchor : Option ℕ) (pane : ℕ)
    (window : Option Text) where
  find_grant-lookup :
      (grants : Grants) (id : ℕ)
      → Distinct (keys grants)
      → find_grant grants agent scope anchor pane window ≡ some id
      → (r : GrantRecord) × (lookup id grants ≡ some r)
        × (grant_matches r agent scope anchor pane window ≡ true)
  unfolding find_grant
  find_grant-lookup [] id d h = cc
  find_grant-lookup ((j, r) ∷ grants) id d h =
      elim (Bool-cases (grant_matches r agent scope anchor pane window)) [
        | inl hit ↦ (r, ground arith, hit)
        | inr miss ↦
            let ih = find_grant-lookup grants id d.1 (ground arith) in
            (ih.0, ground (arith, contains_of_lookup id grants ih.0 ih.1), ih.2)
      ]

  -- The search reads requests, never states.
  pub find_grant-set_state :
      (grants : Grants) (id : ℕ) (r : GrantRecord) (state : GrantState)
      → lookup id grants ≡ some r
      → find_grant (insert id (record r { state = state }) grants) agent scope anchor pane window
        ≡ find_grant grants agent scope anchor pane window
  unfolding find_grant grant_matches
  find_grant-set_state [] id r state h = cc
  find_grant-set_state ((j, q) ∷ grants) id r state h =
      ground (arith, find_grant-set_state grants id r state)

  find_grant-new :
      (grants : Grants) (id : ℕ) (r : GrantRecord)
      → find_grant grants agent scope anchor pane window ≡ none
      → lookup id grants ≡ none
      → grant_matches r agent scope anchor pane window ≡ true
      → find_grant (insert id r grants) agent scope anchor pane window ≡ some id
  unfolding find_grant
  find_grant-new [] id r h n m = ground arith
  find_grant-new ((j, q) ∷ grants) id r h n m = ground (arith, find_grant-new grants id r)

-- A grant on record that lets the agent do what it asks, at this moment.
abbrev pub Granted : Desk → Grants → Ask → AgentIdentity → Type 0
Granted d grants a agent =
    (id : ℕ) × (r : GrantRecord) × (lookup id grants ≡ some r)
    × (grant_matches r agent a.scope (target_anchor_of d a) a.target_pane_uuid a.target_window
        ≡ true)
    × (is_active d.now r.state ≡ true)

-- The search of `authorize_pane_access`.
abbrev pub found_grant : Desk → Grants → Ask → AgentIdentity → Option ℕ
found_grant d grants a agent =
    find_grant grants agent a.scope (target_anchor_of d a) a.target_pane_uuid a.target_window

window_self : (w : Option Text) → window_target_matches w w ≡ true
window_self none = refl
window_self (some w) = beq_self w

settle-active :
    (state : GrantState) (id : ℕ) (scope : GrantScope) (now : ℕ) (r : GrantRecord) (grants : Grants)
    → (settle state id scope now r grants).1 ≡ ok tt
    → is_active now state ≡ true
settle-active allowed_once id scope now r grants h = refl
settle-active (GrantState.allowed_until e) id scope now r grants h = ground arith
settle-active pending id scope now r grants h = cc
settle-active GrantState.denied id scope now r grants h = cc
settle-active revoked id scope now r grants h = cc

-- The request that is put on record is met by the question that it came from.
request_for-matches :
    (d : Desk) (a : Ask) (agent : AgentIdentity) (state : GrantState)
    → grant_matches
        (record { request = request_for d a agent; state = state })
        agent
        a.scope
        (target_anchor_of d a)
        a.target_pane_uuid
        a.target_window
      ≡ true
unfolding grant_matches
request_for-matches d a agent state = ground (
  arith,
  beq_self agent.id,
  beq_self a.scope,
  beq_self a.target_pane_uuid,
  window_self a.target_window,
)

-- An agent gets access only to its own pane, inside its own workspace, or by a grant that names it
-- (by identity, scope and window, and by pane or anchor) and is active at this moment.
pub authorize-cause :
    (d : Desk) (grants : Grants) (a : Ask) (agent : AgentIdentity)
    → Distinct (keys grants)
    → (authorize_pane_access d grants a (some agent)).1 ≡ ok tt
    → (own_pane d a agent ≡ true) ⊎ (same_workspace d a agent ≡ true) ⊎ Granted d grants a agent
unfolding authorize_pane_access
authorize-cause d grants a agent distinct h = elim (Option-cases (found_grant d grants a agent)) [
  | inl nothing ↦ ground arith
  | inr (id, found) ↦
      let (r, at, matching) =
        find_grant-lookup agent a.scope (target_anchor_of d a) a.target_pane_uuid a.target_window
          grants id distinct found in
      elim (Bool-cases (own_pane d a agent)) [
        | inl own ↦ inl own
        | inr not_own ↦ elim (Bool-cases (same_workspace d a agent)) [
          | inl same ↦ inr (inl same)
          | inr other ↦
              let settled : (settle r.state id a.scope d.now r grants).1 ≡ ok tt = ground arith in
              inr
                (inr (id, r, at, matching, settle-active r.state id a.scope d.now r grants settled))
        ]
      ]
]

-- Outside its own pane and workspace an agent whose first matching grant is an allow-once one gets
-- access once: the grant is then revoked, and the same request is denied at any later time.
pub authorize-once :
    (d : Desk) (grants : Grants) (a : Ask) (agent : AgentIdentity) (id : ℕ) (r : GrantRecord)
    (now fresh : ℕ)
    → own_pane d a agent ≡ false
    → same_workspace d a agent ≡ false
    → found_grant d grants a agent ≡ some id
    → lookup id grants ≡ some r
    → r.state ≡ allowed_once
    → let used = insert id (record r { state = revoked }) grants in
      (authorize_pane_access d grants a (some agent) ≡ (used, ok tt))
      × (authorize_pane_access (record d { now = now; fresh = fresh }) used a (some agent)
          ≡ (used, err (grant_denied (was_revoked id a.scope))))
unfolding authorize_pane_access
authorize-once d grants a agent id r now fresh own same found at once =
    let kept =
      find_grant-set_state agent a.scope (target_anchor_of d a) a.target_pane_uuid a.target_window
        grants id r revoked at in
    (
      ground arith,
      ground (arith, kept, lookup-insert id id (record r { state = revoked }) grants, beq_self id),
    )

-- Outside its own pane and workspace an agent with no matching grant is refused: one pending request
-- is put on record under the fresh id, and asking again is refused with no second request.
pub authorize-asks_once :
    (d : Desk) (grants : Grants) (a : Ask) (agent : AgentIdentity) (now fresh : ℕ)
    → own_pane d a agent ≡ false
    → same_workspace d a agent ≡ false
    → found_grant d grants a agent ≡ none
    → lookup d.fresh grants ≡ none
    → let asked =
        insert d.fresh (record { request = request_for d a agent; state = pending }) grants in
      (authorize_pane_access d grants a (some agent)
        ≡ (asked, err (unauthorized (grant_required d.fresh))))
      × (authorize_pane_access (record d { now = now; fresh = fresh }) asked a (some agent)
          ≡ (asked, err (unauthorized (is_pending d.fresh a.scope))))
unfolding authorize_pane_access
authorize-asks_once d grants a agent now fresh own same nothing new =
    let r : GrantRecord = record { request = request_for d a agent; state = pending } in
    let hit =
      find_grant-new agent a.scope (target_anchor_of d a) a.target_pane_uuid a.target_window grants
        d.fresh r nothing new (request_for-matches d a agent pending) in
    (ground arith, ground (arith, hit, lookup-insert d.fresh d.fresh r grants, beq_self d.fresh))
