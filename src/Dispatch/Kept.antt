-- ===== src/Dispatch/Kept.antt =====
-- The invariant of the application through the requests of the bus: crates/lmux/src/bus.rs.
use lmux.Prelude.{
  ℕ, ◌+◌, ◌≤◌, ◌<◌, Bool, Option, none, some, List, [], ◌∷◌, nat_eq, Text, Result, ok, err, length,
  ◌≡◌, refl, arith, sym, ◌∙◌,
}
use lmux.Bus.Kinds.{AgentIdentity, GrantScope}
use lmux.Bus.Errors.{BusError}
use lmux.Bus.Requests.{RequestContext, Refusal, authorize_public_request}
use lmux.App.{AppState, Pane}
use lmux.App.Access.{
  Wording, Command, Failure, pane_for_anchor_id, pane_for_uuid, ask_pinned, authorize_pane_access,
  guarded_at, rename_at, rename_pane, pane_transcript_tail, pane_transcript_capture,
  send_input_to_pane, title_change, tail_read, capture_read, terminal_input, pane_tail,
  pane_capture, pane_send_input,
}
use lmux.App.Control.Frame.{
  SameRest, pause_anchor-SameRest, resume_anchor-SameRest, hide_anchor-SameRest,
  reattach_anchor-SameRest,
}
use lmux.App.Control.{pause_anchor, resume_anchor, hide_anchor, reattach_anchor}
use lmux.App.Anchors.{set_active_anchor, add_anchor}
use lmux.App.Panes.{u32_max}
use lmux.App.Consistent.{
  IsConsistent, same-IsSound, set_active_anchor-IsSound, set_active_anchor-ActiveIsAnchor,
}
use lmux.App.Tagging.{remove_anchor-IsConsistent, add_anchor-IsConsistent}
use lmux.App.Creating.{create_new_anchor-IsConsistent}
use lmux.App.Ids.{create_new_anchor-next}
use lmux.App.Quiet.{add_anchor-Quiet, remove_anchor-Quiet}
use lmux.App.Making.Steps.{create_pane_from_bus-Steps}
use lmux.App.Making.Kept.{create_pane_from_bus-IsConsistent}
use lmux.Dispatch.Arms.{at_anchor-all, tag_pane-all, tag_self-all, guarded_at-all, rename_at-all}
use lmux.Dispatch.{Request, Outside, kind_of, handle_deferred, admitted, serve, serve_all}

module _ {R : Type 0} where
  -- The frame of the invariant.
  abbrev SameShape : AppState R → AppState R → Type 0
  SameShape s t =
      (t.layout ≡ s.layout)
      × (t.panes ≡ s.panes)
      × (t.anchors ≡ s.anchors)
      × (t.pane_workspace ≡ s.pane_workspace)
      × (t.next_id ≡ s.next_id)
      × (t.active_anchor ≡ s.active_anchor)

  SameShape-IsConsistent : (s t : AppState R) → SameShape s t → IsConsistent s → IsConsistent t
  SameShape-IsConsistent s t (l, p, a, w, n, act) h =
      (same-IsSound s t l p a w n h.0, λ b x. rw a (h.1 b (sym act ∙ x)))

  module _ (wording : Wording → Text) (now : ℕ) where
    guarded_at-SameShape :
        {A : Type 0}
        → (s : AppState R) (uuid : ℕ) (scope : GrantScope) (agent : Option AgentIdentity)
          (why : Wording) (command : Command) (answer : Pane → Result Failure A) (o : Option ℕ)
        → SameShape s (guarded_at wording now s uuid scope agent why command answer o).0
    unfolding authorize_pane_access
    guarded_at-SameShape s uuid scope agent why command answer o =
        guarded_at-all (SameShape s) wording now s uuid scope agent why command answer o
          (ground arith) λ pane. ground arith

    ask_pinned-SameShape :
        (s t : AppState R) (pane uuid : ℕ) (title : Text) (agent : Option AgentIdentity)
        → SameShape s t
        → SameShape s (ask_pinned wording now t pane uuid title agent)
    ask_pinned-SameShape s t pane uuid title none h = h
    ask_pinned-SameShape s t pane uuid title (some agent) h = h

    rename_at-SameShape :
        (s : AppState R) (uuid : ℕ) (title : Text) (pin : Bool) (agent : Option AgentIdentity)
        (o : Option ℕ)
        → SameShape s (rename_at wording now s uuid title pin agent o).0
    unfolding authorize_pane_access
    rename_at-SameShape s uuid title pin agent o =
        rename_at-all (SameShape s) wording now s uuid title pin agent o (ground arith) λ pane.
          let t =
            (authorize_pane_access wording now s pane uuid GrantScope.rename agent
              title_change).0 in
          let same : SameShape s t = ground arith in
          (same, ask_pinned-SameShape s t pane uuid title agent same, same)

  -- What a request keeps: the invariant, and all ids but one.
  abbrev pub Keeps : AppState R → AppState R → Type 0
  Keeps s t = IsConsistent t × (t.next_id ≤ s.next_id + 1)

  pub same-Keeps : (s : AppState R) → IsConsistent s → Keeps s s
  same-Keeps s h = (h, omega arith)

  shaped-Keeps : (s t : AppState R) → SameShape s t → IsConsistent s → Keeps s t
  shaped-Keeps s t (l, p, a, w, n, act) h =
      (SameShape-IsConsistent s t (l, p, a, w, n, act) h, ground (arith, n))

  rest-Keeps : (s t : AppState R) → SameRest s t → IsConsistent s → Keeps s t
  rest-Keeps s t (l, p, a, w, n, act, g) h = shaped-Keeps s t (l, p, a, w, n, act) h

  add_anchor-Keeps : (s : AppState R) (p : ℕ) → IsConsistent s → Keeps s (add_anchor s p)
  add_anchor-Keeps s p h = (add_anchor-IsConsistent s p h, ground (arith, add_anchor-Quiet s p))

  activate-Keeps :
      (s : AppState R) (p : ℕ) → IsConsistent s → Keeps s (set_active_anchor s (some p))
  unfolding set_active_anchor
  activate-Keeps s p h = (
    (set_active_anchor-IsSound s (some p) h.0, set_active_anchor-ActiveIsAnchor s (some p) h.1),
    ground arith,
  )

  pub handle-Keeps :
      (half : R) (out : Outside) (ctx : RequestContext) (s : AppState R) (r : Request)
      → IsConsistent s
      → s.next_id < u32_max
      → Keeps s (handle_deferred half out ctx s r).0
  unfolding handle_deferred pane_transcript_tail pane_transcript_capture send_input_to_pane
      rename_pane
  handle-Keeps half out ctx s (Request.anchor_pause id) h room =
      at_anchor-all (Keeps s) s id _ (pane_for_anchor_id s id) (same-Keeps s h) λ p.
        rest-Keeps s (pause_anchor out.kill s p (out.child_pid p)).0
          (pause_anchor-SameRest out.kill s p (out.child_pid p)) h
  handle-Keeps half out ctx s (Request.anchor_resume id) h room =
      at_anchor-all (Keeps s) s id _ (pane_for_anchor_id s id) (same-Keeps s h) λ p.
        rest-Keeps s (resume_anchor out.kill s p (out.child_pid p)).0
          (resume_anchor-SameRest out.kill s p (out.child_pid p)) h
  handle-Keeps half out ctx s (Request.anchor_hide id) h room =
      at_anchor-all (Keeps s) s id _ (pane_for_anchor_id s id) (same-Keeps s h)
        λ p. rest-Keeps s (hide_anchor s p).0 (hide_anchor-SameRest s p) h
  handle-Keeps half out ctx s (Request.anchor_reattach id) h room =
      at_anchor-all (Keeps s) s id _ (pane_for_anchor_id s id) (same-Keeps s h)
        λ p. rest-Keeps s (reattach_anchor s p).0 (reattach_anchor-SameRest s p) h
  handle-Keeps half out ctx s (Request.anchor_untag id) h room =
      at_anchor-all (Keeps s) s id _ (pane_for_anchor_id s id) (same-Keeps s h)
        λ p. (remove_anchor-IsConsistent s p h, ground (arith, remove_anchor-Quiet s p))
  handle-Keeps half out ctx s (Request.anchor_activate id) h room =
      at_anchor-all (Keeps s) s id _ (pane_for_anchor_id s id) (same-Keeps s h)
        λ p. activate-Keeps s p h
  handle-Keeps half out ctx s (Request.anchor_tag id) h room =
      tag_pane-all (Keeps s) s id (pane_for_uuid s id) (same-Keeps s h) λ p. add_anchor-Keeps s p h
  handle-Keeps half out ctx s Request.anchor_tag_self h room =
      tag_self-all (Keeps s) s out ctx.pid (same-Keeps s h) λ p. add_anchor-Keeps s p h
  handle-Keeps half out ctx s Request.anchor_new h room = (
    create_new_anchor-IsConsistent half s out.new_pane h room,
    create_new_anchor-next half s out.new_pane,
  )
  handle-Keeps half out ctx s (Request.pane_new r) h room = (
    create_pane_from_bus-IsConsistent half s r out.new_pane out.child_agent out.write h room,
    (create_pane_from_bus-Steps half s r out.new_pane out.child_agent out.write h.0).1,
  )
  handle-Keeps half out ctx s (Request.pane_tail id lines agent) h room =
      shaped-Keeps s _
        (guarded_at-SameShape out.wording out.now s id GrantScope.read_output agent tail_read
          pane_tail (out.tail lines) (pane_for_uuid s id))
        h
  handle-Keeps half out ctx s (Request.pane_capture id since max agent) h room =
      shaped-Keeps s _
        (guarded_at-SameShape out.wording out.now s id GrantScope.read_output agent capture_read
          pane_capture (out.capture since max) (pane_for_uuid s id))
        h
  handle-Keeps half out ctx s (Request.pane_send_input id text agent) h room =
      shaped-Keeps s _
        (guarded_at-SameShape out.wording out.now s id GrantScope.send_input agent terminal_input
          pane_send_input (out.send text) (pane_for_uuid s id))
        h
  handle-Keeps half out ctx s (Request.pane_rename id title pin agent) h room =
      shaped-Keeps s _
        (rename_at-SameShape out.wording out.now s id title pin agent (pane_for_uuid s id)) h
  handle-Keeps half out ctx s (Request.grant_request r) h room =
      shaped-Keeps s _ (refl, refl, refl, refl, refl, refl) h
  handle-Keeps half out ctx s (Request.grant_decide id decision) h room =
      shaped-Keeps s _ (refl, refl, refl, refl, refl, refl) h

  admitted-Keeps :
      (half : R) (out : Outside) (ctx : RequestContext) (s : AppState R) (r : Request)
      (o : Result (BusError Refusal) (Unit {0}))
      → IsConsistent s
      → s.next_id < u32_max
      → Keeps s (admitted half out ctx s r o).0
  admitted-Keeps half out ctx s r (err e) h room = same-Keeps s h
  admitted-Keeps half out ctx s r (ok u) h room = handle-Keeps half out ctx s r h room

  -- Whatever requests on panes, anchors and grants come over the bus, from whatever clients, and
  -- whatever the operating system and the terminals answer, a consistent application stays consistent,
  -- as long as there are no more requests than ids left.
  pub serve_all-IsConsistent :
      (half : R) (rs : List (Outside × RequestContext × Request)) (s : AppState R)
      → IsConsistent s
      → s.next_id + length rs ≤ u32_max
      → IsConsistent (serve_all half rs s)
  unfolding serve_all serve
  serve_all-IsConsistent half [] s h room = h
  serve_all-IsConsistent half ((out, ctx, r) ∷ rs) s h room =
      let once = serve half out ctx s r in
      let (kept, used) =
        admitted-Keeps half out ctx s r (authorize_public_request ctx (kind_of r)) h
          (omega arith) in
      serve_all-IsConsistent half rs once.0 kept (omega arith)
