-- ===== src/App/Access/Guard.antt =====
-- Who may read and write a pane over the bus: crates/lmux/src/state.rs.
use lmux.Prelude.{
  ℕ, true, List, [], ◌∷◌, Option, none, some, nat_eq, option_eq, Text, lookup, keys, Distinct, ok,
  err, Result, ◌≡◌, refl, ◌⊎◌, inl, inr, Option-cases, sym, subst, ap,
}
use lmux.Bus.Kinds.{AgentIdentity, GrantScope, TranscriptRange}
use lmux.Grants.{Outcome, own_pane, same_workspace}
use lmux.Grants.Access.{Granted, authorize-cause}
use lmux.App.{AppState, Pane}
use lmux.App.Access.{
  Wording, Command, Failure, pane_for_uuid, desk_of, ask_for, authorize_pane_access, reply,
  answered, guarded_at, guarded, pane_transcript_tail, pane_transcript_capture, send_input_to_pane,
  tail_read, capture_read, terminal_input, pane_tail, pane_capture, pane_send_input,
}

-- Which terminals were called, and the result.
abbrev pub called :
    {R A : Type 0} → AppState R × List ℕ × Result Failure A → List ℕ × Result Failure A
called (s, calls, result) = (calls, result)

module _ {R : Type 0} (wording : Wording → Text) where
  -- Why an agent may do what it asks of a pane.
  abbrev pub Allowed : ℕ → AppState R → ℕ → ℕ → GrantScope → Wording → Option AgentIdentity → Type 0
  Allowed now s pane uuid scope why none = Unit
  Allowed now s pane uuid scope why (some agent) =
      let d = desk_of s now in
      let a = ask_for wording pane uuid scope why in
      (own_pane d a agent ≡ true) ⊎ (same_workspace d a agent ≡ true) ⊎ Granted d s.grants a agent

  -- Either no terminal is called and the result is an error; or the terminal of the live pane of this
  -- uuid is called, once and no other, the caller may touch that pane, and the result is the
  -- terminal's, whatever it is.
  abbrev pub Reached :
      {A : Type 0}
      → ℕ
      → AppState R
      → ℕ
      → GrantScope
      → Wording
      → Option AgentIdentity
      → (Pane → Result Failure A)
      → List ℕ × Result Failure A
      → Type 0
  Reached now s uuid scope why agent answer (calls, result) =
      ((calls ≡ []) × (e : Failure) × (result ≡ err e))
      ⊎ ((pane : ℕ) × (p : Pane) × (calls ≡ pane ∷ [])
          × (result ≡ answer p)
          × (pane_for_uuid s uuid ≡ some pane)
          × (lookup pane s.panes ≡ some p)
          × Allowed now s pane uuid scope why agent)

  authorize-Allowed :
      (now : ℕ) (s : AppState R) (pane uuid : ℕ) (scope : GrantScope) (why : Wording)
      (agent : Option AgentIdentity)
      → Distinct (keys s.grants)
      → (authorize_pane_access wording now s pane uuid scope agent why).1 ≡ ok tt
      → Allowed now s pane uuid scope why agent
  unfolding authorize_pane_access
  authorize-Allowed now s pane uuid scope why none distinct h = tt
  authorize-Allowed now s pane uuid scope why (some agent) distinct h =
      authorize-cause (desk_of s now) s.grants (ask_for wording pane uuid scope why) agent distinct
        h

  authorize-panes :
      (now : ℕ) (s : AppState R) (pane uuid : ℕ) (scope : GrantScope) (agent : Option AgentIdentity)
      (why : Wording)
      → (authorize_pane_access wording now s pane uuid scope agent why).0.panes ≡ s.panes
  unfolding authorize_pane_access
  authorize-panes now s pane uuid scope agent why = refl

  module _ {A : Type 0} (command : Command) (answer : Pane → Result Failure A) where
    reply-Reached :
        (now : ℕ) (s : AppState R) (uuid : ℕ) (scope : GrantScope) (why : Wording)
        (agent : Option AgentIdentity) (pane : ℕ) (o : Option Pane)
        → pane_for_uuid s uuid ≡ some pane
        → lookup pane s.panes ≡ o
        → Allowed now s pane uuid scope why agent
        → Reached now s uuid scope why agent answer (reply uuid command answer pane o)
    reply-Reached now s uuid scope why agent pane none found gone allowed = inl (refl, _, refl)
    reply-Reached now s uuid scope why agent pane (some p) found live allowed =
        inr (pane, p, refl, refl, found, live, allowed)

    answered-Reached :
        (now : ℕ) (s t : AppState R) (uuid : ℕ) (scope : GrantScope) (why : Wording)
        (agent : Option AgentIdentity) (pane : ℕ) (outcome : Outcome)
        → pane_for_uuid s uuid ≡ some pane
        → t.panes ≡ s.panes
        → (outcome ≡ ok tt → Allowed now s pane uuid scope why agent)
        → Reached now s uuid scope why agent answer
            (called (answered wording now uuid command answer pane (t, outcome)))
    answered-Reached now s t uuid scope why agent pane (err e) found same may = inl (refl, _, refl)
    answered-Reached now s t uuid scope why agent pane (ok u) found same may =
        reply-Reached now s uuid scope why agent pane (lookup pane t.panes) found
          (ap (lookup pane) (sym same)) (may refl)

    guarded-Reached :
        (now : ℕ) (s : AppState R) (uuid : ℕ) (scope : GrantScope) (why : Wording)
        (agent : Option AgentIdentity)
        → Distinct (keys s.grants)
        → Reached now s uuid scope why agent answer
            (called (guarded wording now s uuid scope agent why command answer))
    guarded-Reached now s uuid scope why agent distinct =
        let Goal : Option ℕ → Type 0 = λ o.
          Reached now s uuid scope why agent answer
            (called (guarded_at wording now s uuid scope agent why command answer o)) in
        elim (Option-cases (pane_for_uuid s uuid)) [
          | inl unknown ↦ subst Goal (sym unknown) (inl (refl, _, refl))
          | inr (pane, found) ↦
              let access = authorize_pane_access wording now s pane uuid scope agent why in
              subst Goal (sym found) (
                answered-Reached now s access.0 uuid scope why agent pane access.1 found
                  (authorize-panes now s pane uuid scope agent why)
                  (authorize-Allowed now s pane uuid scope why agent distinct))
        ]

  -- A request to send input to a pane over the bus calls the terminal of no pane and is an error; or
  -- it calls the terminal of the live pane with this uuid, once and no other, whatever the terminal
  -- answers, and then, where an agent sends, the pane is the agent's own, or in the agent's
  -- workspace, or a grant to send input that names this agent and this pane or its anchor is active
  -- at this moment. The same holds of reading the output of a pane, with a grant to read, by its tail
  -- and from a sequence number on. The ids of the grants on record are distinct.
  pub send_input_to_pane-Reached :
      (now : ℕ) (s : AppState R) (uuid : ℕ) (agent : Option AgentIdentity)
      (send : Pane → Result Failure (Unit {0})) (read : Pane → Result Failure TranscriptRange)
      → Distinct (keys s.grants)
      → Reached now s uuid GrantScope.send_input terminal_input agent send
          (called (send_input_to_pane wording now s uuid agent send))
        × Reached now s uuid GrantScope.read_output tail_read agent read
            (called (pane_transcript_tail wording now s uuid agent read))
        × Reached now s uuid GrantScope.read_output capture_read agent read
            (called (pane_transcript_capture wording now s uuid agent read))
  unfolding send_input_to_pane pane_transcript_tail pane_transcript_capture
  send_input_to_pane-Reached now s uuid agent send read distinct = (
    guarded-Reached pane_send_input send now s uuid GrantScope.send_input terminal_input agent
        distinct,
    guarded-Reached pane_tail read now s uuid GrantScope.read_output tail_read agent distinct,
    guarded-Reached pane_capture read now s uuid GrantScope.read_output capture_read agent distinct,
  )
