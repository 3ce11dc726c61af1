-- ===== src/Bus/Kinds.antt =====
-- Payload types of crates/lmux-bus/src/kinds.rs.
use lmux.Prelude.{ℕ, Bool, true, false, Option, List, Text, Eq, ◌≡◌, ◌↔◌, arith}

pub record AgentIdentity : Type 0 where
  pub id : Text
  pub name : Option Text

pub data PaneTitleProvenance : Type 0 where
  default agent user : PaneTitleProvenance

pub record PaneTitle : Type 0 where
  pub title : Text
  pub provenance : PaneTitleProvenance
  pub pinned : Bool

-- Where a new terminal pane goes.
pub data PanePlacement : Type 0 where
  tab split_right split_down : PanePlacement

pub record TranscriptLine : Type 0 where
  pub sequence : ℕ
  pub unix_millis : ℕ
  pub text : Text

pub record TranscriptRange : Type 0 where
  pub pane_id : ℕ
  pub first_sequence : ℕ
  pub last_sequence : ℕ
  pub truncated : Bool
  pub lines : List TranscriptLine

pub data GrantScope : Type 0 where
  read_output send_input rename attach_window : GrantScope

pub data GrantDecision : Type 0 where
  allow_once : GrantDecision
  allow_until : ℕ → GrantDecision
  deny revoke : GrantDecision

pub record AgentPaneStatus : Type 0 where
  pub pane_id : ℕ
  pub agent : AgentIdentity
  pub title : Option Text
  pub purpose : Option Text

pub record GrantRequest : Type 0 where
  pub grant_id : ℕ
  pub requester : AgentIdentity
  pub scope : GrantScope
  pub source_anchor : Option ℕ
  pub target_anchor : Option ℕ
  pub target_pane : Option ℕ
  pub target_window : Option Text
  pub reason : Option Text

abbrev pub scope_beq : GrantScope → GrantScope → Bool
scope_beq read_output read_output = true
scope_beq send_input send_input = true
scope_beq rename rename = true
scope_beq attach_window attach_window = true
scope_beq _ _ = false

pub scope_beq_iff : (a b : GrantScope) → (scope_beq a b ≡ true) ↔ (a ≡ b)
scope_beq_iff a b = ground arith

instance abbrev pub scope_eq : Eq GrantScope
scope_eq = record { beq = scope_beq; beq_iff = scope_beq_iff }
