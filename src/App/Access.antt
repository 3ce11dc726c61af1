-- ===== src/App/Access.antt =====
-- What the bus asks of a pane: crates/lmux/src/state.rs. The texts of the errors and of the reasons
-- are formatted by the standard library: `wording` is a parameter, and an error has the data of its
-- text. What the terminal of a pane answers is an argument, and
-- which terminals are called is part of the result.
pub mod Guard
pub mod Examples
pub mod Titles
use lmux.Prelude.{
  ℕ, ◌+◌, Bool, true, false, not, ◌&&◌, Option, none, some, List, [], ◌∷◌, ◌==◌, nat_eq, Text,
  if◌then◌else◌, lookup, insert, erase, contains, contains_key, is_some, is_none, is_empty, or_else,
  Result, ok, err,
}
use lmux.Anchors.{trim}
use lmux.Bus.Errors.{BusError}
use lmux.Bus.Kinds.{
  AgentIdentity, PaneTitle, PaneTitleProvenance, GrantScope, GrantRequest, TranscriptRange,
}
use lmux.Grants.{Desk, Ask, Message, register_grant_request, decide_grant, Outcome}
use lmux.Grants
use lmux.App.{AppState, Pane}

-- What a reason says.
pub data Wording : Type 0 where
  tail_read capture_read terminal_input title_change : Wording
  pinned_change : Text → Text → Wording

pub data Command : Type 0 where
  pane_tail pane_capture pane_send_input pane_rename pane_new : Command

pub data Complaint : Type 0 where
  of_grant : Message → Complaint
  unknown_pane unknown_anchor : Command → ℕ → Complaint
  is_pinned not_live not_in_layout : ℕ → Complaint
  allocation_failed not_a_terminal input_failed : Complaint

abbrev pub Failure : Type 0
Failure = BusError Complaint

-- `?` on an error of the grants.
abbrev pub lifted : BusError Message → Failure
lifted (BusError.frame_too_large c len max) = BusError.frame_too_large c len max
lifted (BusError.version_mismatch c got expected) = BusError.version_mismatch c got expected
lifted (BusError.unknown_kind c m) = BusError.unknown_kind c (of_grant m)
lifted (BusError.peer_denied c) = BusError.peer_denied c
lifted (BusError.bad_request m) = BusError.bad_request (of_grant m)
lifted (BusError.domain m) = BusError.domain (of_grant m)
lifted (BusError.unauthorized m) = BusError.unauthorized (of_grant m)
lifted (BusError.grant_denied m) = BusError.grant_denied (of_grant m)
lifted (BusError.transcript_unavailable m) = BusError.transcript_unavailable (of_grant m)
lifted (BusError.stale_sequence m) = BusError.stale_sequence (of_grant m)
lifted (BusError.user_pinned_title m) = BusError.user_pinned_title (of_grant m)
lifted (BusError.json m) = BusError.json (of_grant m)
lifted (BusError.io m) = BusError.io (of_grant m)

-- `find_map` for the key of a value.
abbrev pub key_of : ℕ → List (ℕ × ℕ) → Option ℕ
key_of id [] = none
key_of id ((k, v) ∷ m) = let rest = key_of id m in if v == id then some k else rest

abbrev pub is_pinned_title : Option PaneTitle → Bool
is_pinned_title none = false
is_pinned_title (some t) = t.pinned

abbrev pub title_of : Option PaneTitle → Text
title_of none = []
title_of (some t) = t.title

abbrev pub ask_for : (Wording → Text) → ℕ → ℕ → GrantScope → Wording → Ask
ask_for wording pane uuid scope why = record {
  target_pane = pane;
  target_pane_uuid = uuid;
  scope = scope;
  target_window = none;
  reason = wording why;
}

abbrev pub new_title : Text → Bool → Option AgentIdentity → PaneTitle
new_title title pin agent = record {
  title = title;
  provenance =
      if is_some agent && not pin then PaneTitleProvenance.agent else PaneTitleProvenance.user;
  pinned = if pin then true else is_none agent;
}

-- `title.map(trim).filter(not empty)`.
abbrev pub filled : Option Text → Option Text
filled none = none
filled (some title) = if is_empty (trim title) then none else some (trim title)

-- The call of a pane's terminal, if the map has the pane, with the panes whose terminal was called.
abbrev pub reply :
    {A : Type 0}
    → ℕ
    → Command
    → (Pane → Result Failure A)
    → ℕ
    → Option Pane
    → List ℕ × Result Failure A
reply uuid command answer pane none =
    ([], err (BusError.transcript_unavailable (unknown_pane command uuid)))
reply uuid command answer pane (some p) = (pane ∷ [], answer p)

module _ {R : Type 0} where
  abbrev pub pane_for_anchor_id : AppState R → ℕ → Option ℕ
  pane_for_anchor_id s id = key_of id s.pane_anchor_ids

  abbrev pub pane_for_uuid : AppState R → ℕ → Option ℕ
  pane_for_uuid s uuid = key_of uuid s.pane_uuids

  abbrev pub anchor_uuid_for_pane : AppState R → ℕ → Option ℕ
  anchor_uuid_for_pane s pane = lookup pane s.pane_anchor_ids

  abbrev pub desk_of : AppState R → ℕ → Desk
  desk_of s now = record {
    pane_agents = s.pane_agents;
    anchors = s.anchors;
    pane_workspace = s.pane_workspace;
    pane_anchor_ids = s.pane_anchor_ids;
    now = now;
    fresh = s.fresh;
  }

  module _ (wording : Wording → Text) (now : ℕ) where
    unfoldable pub authorize_pane_access :
        AppState R → ℕ → ℕ → GrantScope → Option AgentIdentity → Wording → AppState R × Outcome
    authorize_pane_access s pane uuid scope agent why =
        let (grants, result) =
          lmux.Grants.authorize_pane_access (desk_of s now) s.grants
            (ask_for wording pane uuid scope why) agent in
        (record s { grants = grants; fresh = s.fresh + 1 }, result)

    -- The common part of `pane_transcript_tail`, `pane_transcript_capture` and `send_input_to_pane`:
    -- once the access has been checked, and from the start.
    abbrev pub answered :
        {A : Type 0}
        → ℕ
        → Command
        → (Pane → Result Failure A)
        → ℕ
        → AppState R × Outcome
        → AppState R × List ℕ × Result Failure A
    answered uuid command answer pane (s, err e) = (s, [], err (lifted e))
    answered uuid command answer pane (s, ok granted) =
        let (calls, result) = reply uuid command answer pane (lookup pane s.panes) in
        (s, calls, result)

    abbrev pub guarded_at :
        {A : Type 0}
        → AppState R
        → ℕ
        → GrantScope
        → Option AgentIdentity
        → Wording
        → Command
        → (Pane → Result Failure A)
        → Option ℕ
        → AppState R × List ℕ × Result Failure A
    guarded_at s uuid scope agent why command answer none =
        (s, [], err (BusError.transcript_unavailable (unknown_pane command uuid)))
    guarded_at s uuid scope agent why command answer (some pane) =
        answered uuid command answer pane (authorize_pane_access s pane uuid scope agent why)

    abbrev pub guarded :
        {A : Type 0}
        → AppState R
        → ℕ
        → GrantScope
        → Option AgentIdentity
        → Wording
        → Command
        → (Pane → Result Failure A)
        → AppState R × List ℕ × Result Failure A
    guarded s uuid scope agent why command answer =
        guarded_at s uuid scope agent why command answer (pane_for_uuid s uuid)

    unfoldable pub pane_transcript_tail :
        AppState R
        → ℕ
        → Option AgentIdentity
        → (Pane → Result Failure TranscriptRange)
        → AppState R × List ℕ × Result Failure TranscriptRange
    pane_transcript_tail s uuid agent answer =
        guarded s uuid GrantScope.read_output agent tail_read pane_tail answer

    unfoldable pub pane_transcript_capture :
        AppState R
        → ℕ
        → Option AgentIdentity
        → (Pane → Result Failure TranscriptRange)
        → AppState R × List ℕ × Result Failure TranscriptRange
    pane_transcript_capture s uuid agent answer =
        guarded s uuid GrantScope.read_output agent capture_read pane_capture answer

    unfoldable pub send_input_to_pane :
        AppState R
        → ℕ
        → Option AgentIdentity
        → (Pane → Result Failure (Unit {0}))
        → AppState R × List ℕ × Result Failure (Unit {0})
    send_input_to_pane s uuid agent answer =
        guarded s uuid GrantScope.send_input agent terminal_input pane_send_input answer

    -- The request that a refused change of a pinned title leaves.
    abbrev pub pinned_request : AppState R → ℕ → ℕ → Text → AgentIdentity → GrantRequest
    pinned_request s pane uuid title agent = record {
      grant_id = s.fresh;
      requester = agent;
      scope = GrantScope.rename;
      source_anchor = none;
      target_anchor =
          lmux.Grants.anchor_id_of (desk_of s now)
            (lmux.Grants.owner_anchor pane s.anchors s.pane_workspace);
      target_pane = some uuid;
      target_window = none;
      reason = some (wording (pinned_change (title_of (lookup pane s.pane_titles)) title));
    }

    abbrev pub ask_pinned : AppState R → ℕ → ℕ → Text → Option AgentIdentity → AppState R
    ask_pinned s pane uuid title none = s
    ask_pinned s pane uuid title (some agent) = record s {
      grants = (register_grant_request s.grants (pinned_request s pane uuid title agent)).0;
      fresh = s.fresh + 1;
    }

    -- `rename_pane` after the check of the access.
    abbrev pub retitle :
        ℕ
        → Text
        → Bool
        → Option AgentIdentity
        → ℕ
        → AppState R × Outcome
        → AppState R × Result Failure (Unit {0})
    retitle uuid title pin agent pane (s, err e) = (s, err (lifted e))
    retitle uuid title pin agent pane (s, ok granted) =
        if is_pinned_title (lookup pane s.pane_titles)
        then (ask_pinned s pane uuid title agent, err (BusError.user_pinned_title (is_pinned uuid)))
        else (
          record s { pane_titles = insert pane (new_title title pin agent) s.pane_titles },
          ok tt,
        )

    -- `rename_pane` once the pane of the uuid has been looked up.
    abbrev pub rename_at :
        AppState R
        → ℕ
        → Text
        → Bool
        → Option AgentIdentity
        → Option ℕ
        → AppState R × Result Failure (Unit {0})
    rename_at s uuid title pin agent none =
        (s, err (BusError.domain (unknown_pane pane_rename uuid)))
    rename_at s uuid title pin agent (some pane) =
        retitle uuid title pin agent pane
          (authorize_pane_access s pane uuid GrantScope.rename agent title_change)

    unfoldable pub rename_pane :
        AppState R → ℕ → Text → Bool → Option AgentIdentity → AppState R × Result Failure (Unit {0})
    rename_pane s uuid title pin agent = rename_at s uuid title pin agent (pane_for_uuid s uuid)

  unfoldable pub rename_pane_title_for_user : AppState R → ℕ → Option Text → AppState R × Bool
  rename_pane_title_for_user s pane title =
      if not (contains_key pane s.panes) then (s, false) else (
        elim (filled title) [
          | some t ↦ record s {
            pane_titles =
                insert pane
                  (record { title = t; provenance = PaneTitleProvenance.user; pinned = true })
                  s.pane_titles;
          }
          | none ↦ record s { pane_titles = erase pane s.pane_titles }
        ],
        true,
      )
