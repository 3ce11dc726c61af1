-- ===== src/Grants/Examples.antt =====
-- Tests of the agent access control, and the theorems at one agent that reaches for a foreign pane.
use lmux.Prelude.{ok, err, true, none, some, [], ◌∷◌, nat_eq, ◌≡◌, ◌⊎◌, refl, insert}
use lmux.Bus.Kinds.{AgentIdentity, read_output}
use lmux.Bus.Errors.{unauthorized, grant_denied}
use lmux.Grants.{
  Grants, GrantRecord, Desk, Ask, pending, allowed_once, revoked, request_for,
  authorize_pane_access, own_pane, same_workspace, was_revoked, grant_required, find_grant,
  grant_matches, owner_anchor, first_agent_anchor,
}
use lmux.Grants.Access.{authorize-cause, authorize-once, Granted}

abbrev codex : AgentIdentity
codex = record { id = b'c' ∷ b'x' ∷ []; name = none }

-- The agent runs in pane 1 of workspace 1, and asks for pane 2 of workspace 2.
abbrev desk : Desk
desk = record {
  pane_agents = (1, record { agent = codex; purpose = none }) ∷ [];
  anchors = 1 ∷ 2 ∷ [];
  pane_workspace = (1, 1) ∷ (2, 2) ∷ [];
  pane_anchor_ids = (1, 101) ∷ (2, 102) ∷ [];
  now = 1000;
  fresh = 7;
}

abbrev ask : Ask
ask = record {
  target_pane = 2;
  target_pane_uuid = 202;
  scope = read_output;
  target_window = none;
  reason = b't' ∷ [];
}

abbrev asked : GrantRecord
asked = record { request = request_for desk ask codex; state = pending }

abbrev allowed : Grants
allowed = (7, record { request = request_for desk ask codex; state = allowed_once }) ∷ []

first_ask :
    authorize_pane_access desk [] ask (some codex)
    ≡ ((7, asked) ∷ [], err (unauthorized (grant_required 7)))
unfolding authorize_pane_access find_grant owner_anchor first_agent_anchor
first_ask = refl

authorize-cause_example :
    (own_pane desk ask codex ≡ true)
    ⊎ (same_workspace desk ask codex ≡ true)
    ⊎ Granted desk allowed ask codex
unfolding authorize_pane_access find_grant grant_matches owner_anchor first_agent_anchor
authorize-cause_example = authorize-cause desk allowed ask codex (refl, tt) refl

authorize-once_example :
    let used = insert 7 (record asked { state = revoked }) allowed in
    (authorize_pane_access desk allowed ask (some codex) ≡ (used, ok tt))
    × (authorize_pane_access (record desk { now = 2000; fresh = 8 }) used ask (some codex)
        ≡ (used, err (grant_denied (was_revoked 7 read_output))))
unfolding find_grant grant_matches owner_anchor first_agent_anchor
authorize-once_example =
    authorize-once desk allowed ask codex 7 (record asked { state = allowed_once }) 2000 8 refl refl
      refl refl refl
