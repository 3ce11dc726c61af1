-- ===== src/Grants/Decide.antt =====
-- The user's decision on a grant, and what it does to the agent's next request.
use lmux.Prelude.{
  ok, err, ℕ, false, none, some, ◌==◌, nat_eq, beq_self, ◌≡◌, arith, if◌then◌else◌, lookup,
  lookup-insert, ltb,
}
use lmux.Bus.Kinds.{AgentIdentity, GrantScope, GrantDecision, allow_once, allow_until, deny, revoke}
use lmux.Bus.Errors.{unauthorized, grant_denied, domain}
use lmux.Grants.{
  GrantRecord, Grants, Desk, Ask, Outcome, own_pane, same_workspace, decide_grant, decided,
  authorize_pane_access, was_denied, was_revoked, is_expired, unknown_grant, target_anchor_of,
}
use lmux.Grants.Access.{found_grant, find_grant-set_state}

-- A decision on an unknown grant is an error and changes nothing.
pub decide_grant-unknown :
    (grants : Grants) (id : ℕ) (decision : GrantDecision)
    → lookup id grants ≡ none
    → decide_grant grants id decision ≡ (grants, err (domain (unknown_grant id)))
unfolding decide_grant
decide_grant-unknown grants id decision h = ground arith

-- A decision on a known grant sets its state, keeps its request, and leaves every other grant as it
-- was.
pub decide_grant-known :
    (grants : Grants) (id : ℕ) (decision : GrantDecision) (r : GrantRecord) (j : ℕ)
    → lookup id grants ≡ some r
    → ((decide_grant grants id decision).1 ≡ ok tt)
      × (lookup j (decide_grant grants id decision).0
          ≡ (if id == j then some (record r { state = decided decision }) else lookup j grants))
unfolding decide_grant
decide_grant-known grants id decision r j h =
    ground (arith, lookup-insert id j (record r { state = decided decision }) grants)

-- What the agent is told on its next request.
abbrev pub verdict : GrantDecision → ℕ → GrantScope → ℕ → Outcome
verdict allow_once id scope now = ok tt
verdict (allow_until e) id scope now =
    if ltb now e then ok tt else err (unauthorized (is_expired id scope))
verdict deny id scope now = err (grant_denied (was_denied id scope))
verdict revoke id scope now = err (grant_denied (was_revoked id scope))

-- The decision on the grant that a request finds is what the request gets: access after `allow_once`,
-- access before the expiry after `allow_until` and the error "expired" from then on, and a denial
-- after `deny` and `revoke`.
pub authorize-decide_grant :
    (d : Desk) (grants : Grants) (a : Ask) (agent : AgentIdentity) (id : ℕ) (r : GrantRecord)
    (decision : GrantDecision)
    → own_pane d a agent ≡ false
    → same_workspace d a agent ≡ false
    → found_grant d grants a agent ≡ some id
    → lookup id grants ≡ some r
    → (authorize_pane_access d (decide_grant grants id decision).0 a (some agent)).1
      ≡ verdict decision id a.scope d.now
unfolding authorize_pane_access decide_grant
authorize-decide_grant d grants a agent id r decision own same found at = ground (
  arith,
  find_grant-set_state agent a.scope (target_anchor_of d a) a.target_pane_uuid a.target_window
      grants id r (decided decision) at,
  lookup-insert id id (record r { state = decided decision }) grants,
  beq_self id,
)
