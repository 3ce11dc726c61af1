-- ===== src/Dispatch.antt =====
-- The requests on panes, anchors and grants that come over the bus: `handle_deferred` of
-- crates/lmux/src/bus.rs, behind `authorize_public_request` of the same file, and
-- `resolve_owning_pane` of crates/lmux/src/state.rs. What the operating system and the terminals
-- answer is a record of parameters.
pub mod Arms
pub mod Attach
pub mod Owner
pub mod Kept
pub mod Rights
pub mod Served
pub mod Examples
use lmux.Prelude.{
  ℕ, suc, zero, ◌+◌, ℤ, pos, negsuc, Bool, true, false, Option, none, some, List, [], ◌∷◌, ◌==◌,
  nat_eq, Text, if◌then◌else◌, contains, ltb, leb, Result, ok, err,
}
use lmux.Bus.Errors.{BusError}
use lmux.Bus.Kinds.{AgentIdentity, GrantDecision, GrantRequest, TranscriptRange}
use lmux.Bus.Catalog.{Kind, PaneNew, PaneNewResult}
use lmux.Bus.Requests.{RequestContext, Refusal, authorize_public_request}
use lmux.Grants.{Message, register_grant_request, decide_grant, Outcome}
use lmux.App.{AppState, Pane}
use lmux.App.Access.{
  Wording, Failure, pane_for_anchor_id, pane_for_uuid, pane_transcript_tail,
  pane_transcript_capture, send_input_to_pane, rename_pane,
}
use lmux.App.Anchors.{set_active_anchor, add_anchor, remove_anchor}
use lmux.App.Control.{
  Signal, Target, ControlError, Controlled, pause_anchor, resume_anchor, hide_anchor,
  reattach_anchor,
}
use lmux.App.Control
use lmux.App.Panes.{u32_max, create_new_anchor}
use lmux.App.Making.{create_pane_from_bus}

-- The requests, by the `Kind` of each.
pub data Request : Type 0 where
  anchor_pause anchor_resume anchor_hide anchor_reattach anchor_untag : ℕ → Request
  anchor_activate anchor_tag : ℕ → Request
  anchor_tag_self anchor_new : Request
  pane_new : PaneNew → Request
  pane_tail : ℕ → ℕ → Option AgentIdentity → Request
  pane_capture : ℕ → Option ℕ → Option ℕ → Option AgentIdentity → Request
  pane_send_input : ℕ → Text → Option AgentIdentity → Request
  pane_rename : ℕ → Text → Bool → Option AgentIdentity → Request
  grant_request : GrantRequest → Request
  grant_decide : ℕ → GrantDecision → Request

abbrev pub kind_of : Request → Kind
kind_of (anchor_pause id) = Kind.anchor_pause id
kind_of (anchor_resume id) = Kind.anchor_resume id
kind_of (anchor_hide id) = Kind.anchor_hide id
kind_of (anchor_reattach id) = Kind.anchor_reattach id
kind_of (anchor_untag id) = Kind.anchor_untag id
kind_of (anchor_activate id) = Kind.anchor_activate id
kind_of (anchor_tag id) = Kind.anchor_tag id
kind_of anchor_tag_self = Kind.anchor_tag_self
kind_of anchor_new = Kind.anchor_new
kind_of (pane_new r) = Kind.pane_new r
kind_of (pane_tail id lines agent) = Kind.pane_tail id lines agent
kind_of (pane_capture id since max agent) = Kind.pane_capture id since max agent
kind_of (pane_send_input id text agent) = Kind.pane_send_input id text agent
kind_of (pane_rename id title pin agent) = Kind.pane_rename id title pin agent
kind_of (grant_request r) = Kind.grant_request r
kind_of (grant_decide id decision) = Kind.grant_decide id decision

-- The errors, by where they come from.
pub data Problem : Type 0 where
  refused : BusError Refusal → Problem
  failed : Failure → Problem
  not_decided : BusError Message → Problem
  not_controlled : ControlError → Problem
  unknown_anchor unknown_pane already_anchor no_owner : ℕ → Problem
  invalid_pid : ℤ → Problem

-- The answers. An `ok` of the source names the command, which is the request's.
pub data Answer : Type 0 where
  done : Answer
  made : PaneNewResult → Answer
  transcript : TranscriptRange → Answer
  tagged_self : ℕ → Answer
  registered : ℕ → Bool → Answer

pub record Outside : Type 0 where
  pub now : ℕ
  pub wording : Wording → Text
  pub new_pane : Option Pane
  pub child_agent : Option AgentIdentity
  pub write : Text → Result Failure (Unit {0})
  pub send : Text → Pane → Result Failure (Unit {0})
  pub tail : ℕ → Pane → Result Failure TranscriptRange
  pub capture : Option ℕ → Option ℕ → Pane → Result Failure TranscriptRange
  pub kill : Target → Signal → Bool
  pub child_pid : ℕ → Option ℕ
  pub read_ppid : ℕ → Option ℕ

-- The pane whose child is this process.
abbrev pub leader : (ℕ → Option ℕ) → List (ℕ × Pane) → ℕ → Option ℕ
leader child_pid [] cur = none
leader child_pid ((id, p) ∷ panes) cur =
    let rest = leader child_pid panes cur in
    elim (child_pid id) [ none ↦ rest | some pid ↦ if pid == cur then some id else rest ]

-- The loop of `resolve_owning_pane`, with the rounds that are left.
unfoldable pub owner_from : (ℕ → Option ℕ) → (ℕ → Option ℕ) → List (ℕ × Pane) → ℕ → ℕ → Option ℕ
owner_from child_pid read_ppid panes zero cur = none
owner_from child_pid read_ppid panes (suc rounds) cur = elim (leader child_pid panes cur) [
  | some id ↦ some id
  | none ↦ elim (read_ppid cur) [
    | none ↦ none
    | some ppid ↦ if leb ppid 1 then none else owner_from child_pid read_ppid panes rounds ppid
  ]
]

abbrev pub Handled : Type 0 → Type 0
Handled R = AppState R × Result Problem Answer

abbrev pub answered :
    {E A : Type 0} → (E → Problem) → (A → Answer) → Result E A → Result Problem Answer
answered problem answer (ok a) = ok (answer a)
answered problem answer (err e) = err (problem e)

module _ {R : Type 0} where
  abbrev pub resolve_owning_pane : (ℕ → Option ℕ) → (ℕ → Option ℕ) → AppState R → ℕ → Option ℕ
  resolve_owning_pane child_pid read_ppid s source =
      owner_from child_pid read_ppid s.panes 64 source

  -- `pane_for_anchor_id(..).ok_or_else(..)?`, and what follows.
  abbrev pub at_anchor : AppState R → ℕ → (ℕ → Handled R) → Option ℕ → Handled R
  at_anchor s id next none = (s, err (unknown_anchor id))
  at_anchor s id next (some pane) = next pane

  abbrev pub controlled : AppState R × lmux.App.Control.Outcome → Handled R
  controlled (s, result) = (s, answered not_controlled (λ u. done) result)

  abbrev pub signalled : Controlled R → Handled R
  signalled (s, sent, result) = controlled (s, result)

  abbrev pub tag_pane : AppState R → ℕ → Option ℕ → Handled R
  tag_pane s id none = (s, err (unknown_pane id))
  tag_pane s id (some pane) =
      if contains pane s.anchors
      then (s, err (already_anchor pane))
      else (add_anchor s pane, ok done)

  abbrev pub tag_owner : AppState R → ℕ → Option ℕ → Handled R
  tag_owner s source none = (s, err (no_owner source))
  tag_owner s source (some pane) = (add_anchor s pane, ok (tagged_self pane))

  -- `u32::try_from` of the client's pid.
  abbrev pub tag_self : AppState R → Outside → ℤ → Handled R
  tag_self s out (pos pid) =
      if leb pid u32_max
      then tag_owner s pid (resolve_owning_pane out.child_pid out.read_ppid s pid)
      else (s, err (invalid_pid (pos pid)))
  tag_self s out (negsuc n) = (s, err (invalid_pid (negsuc n)))

  abbrev pub failing : {A : Type 0} → (A → Answer) → AppState R × Result Failure A → Handled R
  failing answer (s, result) = (s, answered failed answer result)

  abbrev pub reached :
      {A : Type 0} → (A → Answer) → AppState R × List ℕ × Result Failure A → Handled R
  reached answer (s, calls, result) = (s, answered failed answer result)

  unfoldable pub handle_deferred : R → Outside → RequestContext → AppState R → Request → Handled R
  handle_deferred half out ctx s (anchor_pause id) =
      at_anchor s id (λ p. signalled (pause_anchor out.kill s p (out.child_pid p)))
        (pane_for_anchor_id s id)
  handle_deferred half out ctx s (anchor_resume id) =
      at_anchor s id (λ p. signalled (resume_anchor out.kill s p (out.child_pid p)))
        (pane_for_anchor_id s id)
  handle_deferred half out ctx s (anchor_hide id) =
      at_anchor s id (λ p. controlled (hide_anchor s p)) (pane_for_anchor_id s id)
  handle_deferred half out ctx s (anchor_reattach id) =
      at_anchor s id (λ p. controlled (reattach_anchor s p)) (pane_for_anchor_id s id)
  handle_deferred half out ctx s (anchor_untag id) =
      at_anchor s id (λ p. (remove_anchor s p, ok done)) (pane_for_anchor_id s id)
  handle_deferred half out ctx s (anchor_activate id) =
      at_anchor s id (λ p. (set_active_anchor s (some p), ok done)) (pane_for_anchor_id s id)
  handle_deferred half out ctx s (anchor_tag id) = tag_pane s id (pane_for_uuid s id)
  handle_deferred half out ctx s anchor_tag_self = tag_self s out ctx.pid
  handle_deferred half out ctx s anchor_new = (create_new_anchor half s out.new_pane, ok done)
  handle_deferred half out ctx s (pane_new r) =
      failing made (create_pane_from_bus half s r out.new_pane out.child_agent out.write)
  handle_deferred half out ctx s (pane_tail id lines agent) =
      reached transcript (pane_transcript_tail out.wording out.now s id agent (out.tail lines))
  handle_deferred half out ctx s (pane_capture id since max agent) =
      reached transcript
        (pane_transcript_capture out.wording out.now s id agent (out.capture since max))
  handle_deferred half out ctx s (pane_send_input id text agent) =
      reached (λ u. done) (send_input_to_pane out.wording out.now s id agent (out.send text))
  handle_deferred half out ctx s (pane_rename id title pin agent) =
      failing (λ u. done) (rename_pane out.wording out.now s id title pin agent)
  handle_deferred half out ctx s (grant_request r) = (
    record s { grants = (register_grant_request s.grants r).0 },
    ok (registered (register_grant_request s.grants r).1.grant_id true),
  )
  handle_deferred half out ctx s (grant_decide id decision) = (
    record s { grants = (decide_grant s.grants id decision).0 },
    answered not_decided (λ u. done) (decide_grant s.grants id decision).1,
  )

  abbrev pub admitted :
      R
      → Outside
      → RequestContext
      → AppState R
      → Request
      → Result (BusError Refusal) (Unit {0})
      → Handled R
  admitted half out ctx s r (err e) = (s, err (refused e))
  admitted half out ctx s r (ok u) = handle_deferred half out ctx s r

  -- A request from the bus: refused at once, or handled.
  unfoldable pub serve : R → Outside → RequestContext → AppState R → Request → Handled R
  serve half out ctx s r = admitted half out ctx s r (authorize_public_request ctx (kind_of r))

  -- The requests of a session of the bus, the first one first.
  unfoldable pub serve_all : R → List (Outside × RequestContext × Request) → AppState R → AppState R
  serve_all half [] s = s
  serve_all half ((out, ctx, r) ∷ rs) s = serve_all half rs (serve half out ctx s r).0
