-- ===== src/Grants.antt =====
-- Agent access control: crates/lmux/src/agent_control.rs. A `HashMap` is an association list, in an
-- order that no theorem fixes; a `&mut` map is returned new. `Uuid::new_v4()` and the clock are
-- arguments, `fresh` and `now`.
pub mod Access
pub mod Decide
pub mod Views
pub mod Examples
use lmux.Prelude.{
  Result, ok, err, ℕ, ◌%◌, Bool, true, false, not, ◌&&◌, ◌||◌, Option, none, some, List, [], ◌∷◌,
  ◌==◌, nat_eq, list_eq, option_eq, Text, if◌then◌else◌, lookup, insert, contains, or_else, is_some,
  ltb, length, retain, map,
}
use lmux.Bus.Kinds.{
  AgentIdentity, AgentPaneStatus, PaneTitle, GrantScope, GrantDecision, allow_once, allow_until,
  deny, revoke, GrantRequest, scope_eq,
}
use lmux.Bus.Errors.{BusError, unauthorized, grant_denied, domain}

pub record AgentPaneMetadata : Type 0 where
  pub agent : AgentIdentity
  pub purpose : Option Text

pub data GrantState : Type 0 where
  pending allowed_once : GrantState
  allowed_until : ℕ → GrantState
  denied revoked : GrantState

pub record GrantRecord : Type 0 where
  pub request : GrantRequest
  pub state : GrantState

pub record GrantView : Type 0 where
  pub grant_id : ℕ
  pub requester : AgentIdentity
  pub scope : GrantScope
  pub reason : Option Text
  pub pending : Bool
  pub active : Bool

-- What the texts of the errors are formatted from.
pub data Message : Type 0 where
  unknown_grant : ℕ → Message
  grant_required : ℕ → Message
  is_expired is_pending was_denied was_revoked : ℕ → GrantScope → Message

abbrev pub Grants : Type 0
Grants = List (ℕ × GrantRecord)

abbrev pub Outcome : Type 0
Outcome = Result (BusError Message) (Unit {0})

abbrev pub is_active : ℕ → GrantState → Bool
is_active now allowed_once = true
is_active now (allowed_until expires_at) = ltb now expires_at
is_active now _ = false

abbrev pub is_pending_state : GrantState → Bool
is_pending_state pending = true
is_pending_state _ = false

-- `filter_map` over the panes of the agents.
abbrev status_of :
    List (ℕ × ℕ) → List (ℕ × PaneTitle) → ℕ × AgentPaneMetadata → Option AgentPaneStatus
status_of pane_uuids pane_titles (pane, meta) = elim (lookup pane pane_uuids) [
  | none ↦ none
  | some uuid ↦ some (record {
    pane_id = uuid;
    agent = meta.agent;
    title = elim (lookup pane pane_titles) [ none ↦ none | some t ↦ some t.title ];
    purpose = meta.purpose;
  })
]

abbrev push_some : {A : Type 0} → Option A → List A → List A
push_some none xs = xs
push_some (some x) xs = x ∷ xs

unfoldable pub agent_status_for_anchor :
    ℕ
    → List (ℕ × AgentPaneMetadata)
    → List (ℕ × ℕ)
    → List (ℕ × ℕ)
    → List (ℕ × PaneTitle)
    → List AgentPaneStatus
agent_status_for_anchor anchor [] pane_workspace pane_uuids pane_titles = []
agent_status_for_anchor anchor ((pane, meta) ∷ panes) pane_workspace pane_uuids pane_titles =
    let rest = agent_status_for_anchor anchor panes pane_workspace pane_uuids pane_titles in
    if not (pane == anchor) && not (lookup pane pane_workspace == some anchor)
    then rest
    else push_some (status_of pane_uuids pane_titles (pane, meta)) rest

abbrev targets : ℕ → ℕ × GrantRecord → Bool
targets anchor_id entry = entry.1.request.target_anchor == some anchor_id

-- `count() as u32`.
abbrev pub as_u32 : ℕ → ℕ
as_u32 n = n % 4294967296

unfoldable pub pending_grants_for_anchor : Grants → ℕ → ℕ
pending_grants_for_anchor grants anchor_id =
    as_u32 (length (retain (λ e. targets anchor_id e && is_pending_state e.1.state) grants))

unfoldable pub active_grants_for_anchor : Grants → ℕ → ℕ → ℕ
active_grants_for_anchor grants anchor_id now =
    as_u32 (length (retain (λ e. targets anchor_id e && is_active now e.1.state) grants))

abbrev view_of : GrantRequest → Bool → Bool → GrantView
view_of r p a = record {
  grant_id = r.grant_id;
  requester = r.requester;
  scope = r.scope;
  reason = r.reason;
  pending = p;
  active = a;
}

abbrev view_at : ℕ → GrantRequest → GrantState → Option GrantView
view_at now r pending = some (view_of r true false)
view_at now r allowed_once = some (view_of r false true)
view_at now r (allowed_until expires_at) =
    if ltb now expires_at then some (view_of r false true) else none
view_at now r _ = none

unfoldable pub grant_views_for_anchor : Grants → ℕ → ℕ → List GrantView
grant_views_for_anchor [] anchor_id now = []
grant_views_for_anchor ((id, r) ∷ grants) anchor_id now =
    let rest = grant_views_for_anchor grants anchor_id now in
    if targets anchor_id (id, r) then push_some (view_at now r.request r.state) rest else rest

unfoldable pub register_grant_request : Grants → GrantRequest → Grants × GrantRequest
register_grant_request grants request =
    (insert request.grant_id (record { request = request; state = pending }) grants, request)

abbrev pub decided : GrantDecision → GrantState
decided allow_once = allowed_once
decided (allow_until expires_at_unix_seconds) = allowed_until expires_at_unix_seconds
decided deny = denied
decided revoke = revoked

unfoldable pub decide_grant : Grants → ℕ → GrantDecision → Grants × Outcome
decide_grant grants grant_id decision = elim (lookup grant_id grants) [
  | none ↦ (grants, err (domain (unknown_grant grant_id)))
  | some r ↦ (insert grant_id (record r { state = decided decision }) grants, ok tt)
]

abbrev pub same_agent : AgentIdentity → AgentIdentity → Bool
same_agent a b = a.id == b.id

unfoldable pub owner_anchor : ℕ → List ℕ → List (ℕ × ℕ) → Option ℕ
owner_anchor pane anchors pane_workspace =
    or_else (lookup pane pane_workspace) (if contains pane anchors then some pane else none)

-- `then(..)?` gives the owner of a pane of the agent, and goes on where it has none.
unfoldable pub first_agent_anchor :
    AgentIdentity → List (ℕ × AgentPaneMetadata) → List ℕ → List (ℕ × ℕ) → Option ℕ
unfolding owner_anchor
first_agent_anchor agent [] anchors pane_workspace = none
first_agent_anchor agent ((pane, meta) ∷ panes) anchors pane_workspace =
    let rest = first_agent_anchor agent panes anchors pane_workspace in
    if same_agent meta.agent agent
    then or_else (owner_anchor pane anchors pane_workspace) rest
    else rest

abbrev pub window_target_matches : Option Text → Option Text → Bool
window_target_matches none none = true
window_target_matches (some expected) (some actual) = expected == actual
window_target_matches _ _ = false

unfoldable pub grant_matches :
    GrantRecord → AgentIdentity → GrantScope → Option ℕ → ℕ → Option Text → Bool
grant_matches r agent scope target_anchor target_pane target_window =
    same_agent r.request.requester agent
    && (r.request.scope == scope
        && (window_target_matches r.request.target_window target_window
            && (r.request.target_pane == some target_pane
                || is_some target_anchor && r.request.target_anchor == target_anchor)))

-- `find_map` over the entries.
unfoldable pub find_grant :
    Grants → AgentIdentity → GrantScope → Option ℕ → ℕ → Option Text → Option ℕ
find_grant [] agent scope target_anchor target_pane target_window = none
find_grant ((id, r) ∷ grants) agent scope target_anchor target_pane target_window =
    if grant_matches r agent scope target_anchor target_pane target_window
    then some id
    else find_grant grants agent scope target_anchor target_pane target_window

-- The `match record.state` of `existing_grant_decision`: an allow-once grant is used up.
abbrev pub settle : GrantState → ℕ → GrantScope → ℕ → GrantRecord → Grants → Grants × Outcome
settle allowed_once id scope now r grants = (insert id (record r { state = revoked }) grants, ok tt)
settle (allowed_until expires_at) id scope now r grants =
    (grants, if ltb now expires_at then ok tt else err (unauthorized (is_expired id scope)))
settle pending id scope now r grants = (grants, err (unauthorized (is_pending id scope)))
settle denied id scope now r grants = (grants, err (grant_denied (was_denied id scope)))
settle revoked id scope now r grants = (grants, err (grant_denied (was_revoked id scope)))

unfoldable pub existing_grant_decision :
    Grants → AgentIdentity → GrantScope → Option ℕ → ℕ → Option Text → ℕ → Grants × Option Outcome
existing_grant_decision grants agent scope target_anchor target_pane target_window now =
    elim (find_grant grants agent scope target_anchor target_pane target_window) [
      | none ↦ (grants, none)
      | some id ↦ elim (lookup id grants) [
        | none ↦ (grants, none)
        | some r ↦
            let (grants', result) = settle r.state id scope now r grants in (grants', some result)
      ]
    ]

-- The state that the check reads: the maps of `AppState`, the clock and the next fresh id.
pub record Desk : Type 0 where
  pub pane_agents : List (ℕ × AgentPaneMetadata)
  pub anchors : List ℕ
  pub pane_workspace : List (ℕ × ℕ)
  pub pane_anchor_ids : List (ℕ × ℕ)
  pub now : ℕ
  pub fresh : ℕ

-- What an agent asks for.
pub record Ask : Type 0 where
  pub target_pane : ℕ
  pub target_pane_uuid : ℕ
  pub scope : GrantScope
  pub target_window : Option Text
  pub reason : Text

abbrev pub own_pane : Desk → Ask → AgentIdentity → Bool
own_pane d a agent = elim (lookup a.target_pane d.pane_agents) [
  | none ↦ false
  | some meta ↦ same_agent meta.agent agent
]

abbrev pub anchor_id_of : Desk → Option ℕ → Option ℕ
anchor_id_of d none = none
anchor_id_of d (some pane) = lookup pane d.pane_anchor_ids

abbrev pub target_anchor_of : Desk → Ask → Option ℕ
target_anchor_of d a = anchor_id_of d (owner_anchor a.target_pane d.anchors d.pane_workspace)

abbrev pub same_workspace : Desk → Ask → AgentIdentity → Bool
same_workspace d a agent =
    is_some (owner_anchor a.target_pane d.anchors d.pane_workspace)
    && owner_anchor a.target_pane d.anchors d.pane_workspace
      == first_agent_anchor agent d.pane_agents d.anchors d.pane_workspace

abbrev pub request_for : Desk → Ask → AgentIdentity → GrantRequest
request_for d a agent = record {
  grant_id = d.fresh;
  requester = agent;
  scope = a.scope;
  source_anchor =
      anchor_id_of d (first_agent_anchor agent d.pane_agents d.anchors d.pane_workspace);
  target_anchor = target_anchor_of d a;
  target_pane = some a.target_pane_uuid;
  target_window = a.target_window;
  reason = some a.reason;
}

-- The end of `authorize_pane_access`: an old grant decides, or a request is put on record.
abbrev pub decide_or_ask : Desk → Ask → AgentIdentity → Grants × Option Outcome → Grants × Outcome
decide_or_ask d a agent (grants', some result) = (grants', result)
decide_or_ask d a agent (grants', none) = (
  (register_grant_request grants' (request_for d a agent)).0,
  err (unauthorized (grant_required d.fresh)),
)

unfoldable pub authorize_pane_access : Desk → Grants → Ask → Option AgentIdentity → Grants × Outcome
unfolding existing_grant_decision register_grant_request
authorize_pane_access d grants a none = (grants, ok tt)
authorize_pane_access d grants a (some agent) =
    if own_pane d a agent
    then (grants, ok tt)
    else if same_workspace d a agent
    then (grants, ok tt)
    else decide_or_ask d a agent (
        existing_grant_decision grants agent a.scope (target_anchor_of d a) a.target_pane_uuid
          a.target_window d.now)
