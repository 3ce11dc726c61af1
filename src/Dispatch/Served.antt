-- ===== src/Dispatch/Served.antt =====
-- The grants through the requests of the bus: crates/lmux/src/bus.rs.
use lmux.Prelude.{
  ℕ, Bool, false, Option, none, some, List, [], ◌∷◌, nat_eq, Text, Result, ◌≡◌, refl, Bool-cases,
  inl, inr, ◌&&◌,
}
use lmux.Bus.Kinds.{AgentIdentity, GrantScope}
use lmux.Bus.Requests.{
  RequestContext, authorize_public_request, is_grant_decide, is_mcp,
  agent_sensitive_request_missing_identity,
}
use lmux.App.{AppState, Pane}
use lmux.App.Access.{
  Wording, Command, Failure, pane_for_anchor_id, pane_for_uuid, desk_of, ask_for, pinned_request,
  ask_pinned, authorize_pane_access, guarded_at, rename_at, rename_pane, pane_transcript_tail,
  pane_transcript_capture, send_input_to_pane, title_change, tail_read, capture_read,
  terminal_input, pane_tail, pane_capture, pane_send_input,
}
use lmux.App.Control.{pause_anchor, resume_anchor, hide_anchor, reattach_anchor}
use lmux.App.Control.Frame.{
  pause_anchor-SameRest, resume_anchor-SameRest, hide_anchor-SameRest, reattach_anchor-SameRest,
}
use lmux.App.Anchors.{set_active_anchor, add_anchor, remove_anchor}
use lmux.App.Making.{create_pane_from_bus}
use lmux.App.Panes.{create_new_anchor}
use lmux.App.Quiet.{set_active_anchor-Quiet, add_anchor-Quiet, remove_anchor-Quiet}
use lmux.App.Unasked.{create_new_anchor-grants, create_pane_from_bus-grants}
use lmux.Dispatch.{Request, Outside, kind_of, handle_deferred, serve, serve_all}
use lmux.Dispatch.Arms.{at_anchor-all, tag_pane-all, tag_self-all, guarded_at-all, rename_at-all}
use lmux.Dispatch.Rights.{
  IsNarrower, same-IsNarrower, IsNarrower-trans, authorize-IsNarrower, register-IsNarrower,
}

-- A request that is not a decision.
abbrev Asks : Request → Type 0
Asks r = is_grant_decide (kind_of r) ≡ false

module _ {R : Type 0} where
  abbrev pub Narrows : AppState R → AppState R → Type 0
  Narrows s t = IsNarrower s.grants t.grants

  same-Narrows : (s t : AppState R) → t.grants ≡ s.grants → Narrows s t
  same-Narrows s t e = same-IsNarrower s.grants t.grants e

  module _ (wording : Wording → Text) (now : ℕ) where
    access-Narrows :
        (s : AppState R) (pane uuid : ℕ) (scope : GrantScope) (agent : Option AgentIdentity)
        (why : Wording)
        → Narrows s (authorize_pane_access wording now s pane uuid scope agent why).0
    unfolding authorize_pane_access
    access-Narrows s pane uuid scope agent why =
        authorize-IsNarrower (desk_of s now) s.grants (ask_for wording pane uuid scope why) agent

    guarded_at-Narrows :
        {A : Type 0}
        → (s : AppState R) (uuid : ℕ) (scope : GrantScope) (agent : Option AgentIdentity)
          (why : Wording) (command : Command) (answer : Pane → Result Failure A) (o : Option ℕ)
        → Narrows s (guarded_at wording now s uuid scope agent why command answer o).0
    guarded_at-Narrows s uuid scope agent why command answer o =
        guarded_at-all (Narrows s) wording now s uuid scope agent why command answer o
          (same-Narrows s s refl) λ pane. access-Narrows s pane uuid scope agent why

    ask_pinned-Narrows :
        (s : AppState R) (pane uuid : ℕ) (title : Text) (agent : Option AgentIdentity)
        → Narrows s (ask_pinned wording now s pane uuid title agent)
    ask_pinned-Narrows s pane uuid title none = same-Narrows s s refl
    ask_pinned-Narrows s pane uuid title (some agent) =
        register-IsNarrower s.grants (pinned_request wording now s pane uuid title agent)

    rename_at-Narrows :
        (s : AppState R) (uuid : ℕ) (title : Text) (pin : Bool) (agent : Option AgentIdentity)
        (o : Option ℕ)
        → Narrows s (rename_at wording now s uuid title pin agent o).0
    rename_at-Narrows s uuid title pin agent o =
        rename_at-all (Narrows s) wording now s uuid title pin agent o (same-Narrows s s refl)
          λ pane.
            let t =
              (authorize_pane_access wording now s pane uuid GrantScope.rename agent
                title_change).0 in
            let checked = access-Narrows s pane uuid GrantScope.rename agent title_change in
            (
              checked,
              IsNarrower-trans s.grants t.grants
                  (ask_pinned wording now t pane uuid title agent).grants checked
                  (ask_pinned-Narrows t pane uuid title agent),
              checked,
            )

  add_anchor-Narrows : (s : AppState R) (p : ℕ) → Narrows s (add_anchor s p)
  add_anchor-Narrows s p = same-Narrows s (add_anchor s p) (add_anchor-Quiet s p).1

  handle-Narrows :
      (half : R) (out : Outside) (ctx : RequestContext) (s : AppState R) (r : Request)
      → Asks r
      → Narrows s (handle_deferred half out ctx s r).0
  unfolding handle_deferred pane_transcript_tail pane_transcript_capture send_input_to_pane
      rename_pane
  handle-Narrows half out ctx s (Request.anchor_pause id) h =
      at_anchor-all (Narrows s) s id _ (pane_for_anchor_id s id) (same-Narrows s s refl) λ p.
        same-Narrows s (pause_anchor out.kill s p (out.child_pid p)).0
          (pause_anchor-SameRest out.kill s p (out.child_pid p)).6
  handle-Narrows half out ctx s (Request.anchor_resume id) h =
      at_anchor-all (Narrows s) s id _ (pane_for_anchor_id s id) (same-Narrows s s refl) λ p.
        same-Narrows s (resume_anchor out.kill s p (out.child_pid p)).0
          (resume_anchor-SameRest out.kill s p (out.child_pid p)).6
  handle-Narrows half out ctx s (Request.anchor_hide id) h =
      at_anchor-all (Narrows s) s id _ (pane_for_anchor_id s id) (same-Narrows s s refl)
        λ p. same-Narrows s (hide_anchor s p).0 (hide_anchor-SameRest s p).6
  handle-Narrows half out ctx s (Request.anchor_reattach id) h =
      at_anchor-all (Narrows s) s id _ (pane_for_anchor_id s id) (same-Narrows s s refl)
        λ p. same-Narrows s (reattach_anchor s p).0 (reattach_anchor-SameRest s p).6
  handle-Narrows half out ctx s (Request.anchor_untag id) h =
      at_anchor-all (Narrows s) s id _ (pane_for_anchor_id s id) (same-Narrows s s refl)
        λ p. same-Narrows s (remove_anchor s p) (remove_anchor-Quiet s p).1
  handle-Narrows half out ctx s (Request.anchor_activate id) h =
      at_anchor-all (Narrows s) s id _ (pane_for_anchor_id s id) (same-Narrows s s refl)
        λ p. same-Narrows s (set_active_anchor s (some p)) (set_active_anchor-Quiet s (some p)).1
  handle-Narrows half out ctx s (Request.anchor_tag id) h =
      tag_pane-all (Narrows s) s id (pane_for_uuid s id) (same-Narrows s s refl)
        (add_anchor-Narrows s)
  handle-Narrows half out ctx s Request.anchor_tag_self h =
      tag_self-all (Narrows s) s out ctx.pid (same-Narrows s s refl) (add_anchor-Narrows s)
  handle-Narrows half out ctx s Request.anchor_new h =
      same-Narrows s (create_new_anchor half s out.new_pane)
        (create_new_anchor-grants half s out.new_pane)
  handle-Narrows half out ctx s (Request.pane_new r) h =
      same-Narrows s (create_pane_from_bus half s r out.new_pane out.child_agent out.write).0
        (create_pane_from_bus-grants half s r out.new_pane out.child_agent out.write)
  handle-Narrows half out ctx s (Request.pane_tail id lines agent) h =
      guarded_at-Narrows out.wording out.now s id GrantScope.read_output agent tail_read pane_tail
        (out.tail lines) (pane_for_uuid s id)
  handle-Narrows half out ctx s (Request.pane_capture id since max agent) h =
      guarded_at-Narrows out.wording out.now s id GrantScope.read_output agent capture_read
        pane_capture (out.capture since max) (pane_for_uuid s id)
  handle-Narrows half out ctx s (Request.pane_send_input id text agent) h =
      guarded_at-Narrows out.wording out.now s id GrantScope.send_input agent terminal_input
        pane_send_input (out.send text) (pane_for_uuid s id)
  handle-Narrows half out ctx s (Request.pane_rename id title pin agent) h =
      rename_at-Narrows out.wording out.now s id title pin agent (pane_for_uuid s id)
  handle-Narrows half out ctx s (Request.grant_request r) h = register-IsNarrower s.grants r
  handle-Narrows half out ctx s (Request.grant_decide id decision) h = absurd (cc)

  serve-Narrows :
      (half : R) (out : Outside) (ctx : RequestContext) (s : AppState R) (r : Request)
      → Narrows s (serve half out ctx s r).0
  unfolding serve authorize_public_request
  serve-Narrows half out ctx s r = elim (Bool-cases (is_grant_decide (kind_of r))) [
    | inl decides ↦ rw decides (same-Narrows s s refl)
    | inr asks ↦
        elim (Bool-cases
          (is_mcp ctx.client && agent_sensitive_request_missing_identity (kind_of r))) [
            | inl missing ↦ rw (asks, missing) (same-Narrows s s refl)
            | inr named ↦ rw (asks, named) (handle-Narrows half out ctx s r asks)
          ]
  ]

  -- Whatever requests on panes, anchors and grants come over the bus, from whatever clients, and
  -- whatever the operating system and the terminals answer: each grant that is active at some moment
  -- after them was there before them, with the same requester and the same decision. The bus makes no
  -- grant active.
  pub serve_all-Narrows :
      (half : R) (rs : List (Outside × RequestContext × Request)) (s : AppState R)
      → IsNarrower s.grants (serve_all half rs s).grants
  unfolding serve_all
  serve_all-Narrows half [] s = same-Narrows s s refl
  serve_all-Narrows half ((out, ctx, r) ∷ rs) s =
      let t = (serve half out ctx s r).0 in
      IsNarrower-trans s.grants t.grants (serve_all half rs t).grants
        (serve-Narrows half out ctx s r) (serve_all-Narrows half rs t)
