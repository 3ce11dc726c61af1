-- ===== src/Dispatch/Attach.antt =====
-- Which window belongs to a program that was just started: `launch_attach_candidate_matches` of
-- crates/lmux/src/bus.rs, with its helpers, and the polling of the `SatelliteLaunchAttach` request.
-- `str::to_lowercase` is a parameter, and what the compositor lists at each poll is an argument.
pub mod Chosen
use lmux.Prelude.{
  ℕ, Bool, true, false, ◌||◌, Option, none, some, List, [], ◌∷◌, ◌++◌, ◌==◌, nat_eq, list_eq,
  option_eq, Text, if◌then◌else◌, contains, is_empty, map, ltb, unwrap_or, Result, ok, err,
}
use lmux.Anchors.{trim}
use lmux.Autodetect.{has_text}
use lmux.Bus.Catalog.{WindowCandidateBackend, WindowAppIdentity, WindowCandidate}

-- What `{:?}` prints.
unfoldable pub backend_debug : WindowCandidateBackend → Text
backend_debug WindowCandidateBackend.macos = b'M' ∷ b'a' ∷ b'c' ∷ b'o' ∷ b's' ∷ []
backend_debug WindowCandidateBackend.kwin = b'K' ∷ b'w' ∷ b'i' ∷ b'n' ∷ []
backend_debug WindowCandidateBackend.x11 = b'X' ∷ b'1' ∷ b'1' ∷ []
backend_debug WindowCandidateBackend.hyprland =
    b'H' ∷ b'y' ∷ b'p' ∷ b'r' ∷ b'l' ∷ b'a' ∷ b'n' ∷ b'd' ∷ []
backend_debug WindowCandidateBackend.sway = b'S' ∷ b'w' ∷ b'a' ∷ b'y' ∷ []
backend_debug WindowCandidateBackend.noop = b'N' ∷ b'o' ∷ b'o' ∷ b'p' ∷ []
backend_debug WindowCandidateBackend.unsupported =
    b'U' ∷ b'n' ∷ b's' ∷ b'u' ∷ b'p' ∷ b'p' ∷ b'o' ∷ b'r' ∷ b't' ∷ b'e' ∷ b'd' ∷ []

unfoldable pub window_candidate_key : WindowCandidate → Text
window_candidate_key window = backend_debug window.backend ++ b':' ∷ window.backend_window_id

abbrev pub identity_text : WindowAppIdentity → Text
identity_text (WindowAppIdentity.bundle_id value) = value
identity_text (WindowAppIdentity.desktop_entry value) = value
identity_text (WindowAppIdentity.wm_class value) = value
identity_text (WindowAppIdentity.app_id value) = value
identity_text (WindowAppIdentity.other value) = value

abbrev pub window_app_identity_text : WindowCandidate → Option Text
window_app_identity_text window = elim window.app_identity [
  | none ↦ none
  | some identity ↦ some (identity_text identity)
]

-- `timeout_ms`, within its bounds.
abbrev pub launch_timeout : Option ℕ → ℕ
launch_timeout timeout_ms =
    let asked = unwrap_or timeout_ms 5000 in
    if ltb asked 250 then 250 else if ltb 30000 asked then 30000 else asked

module _ (to_lowercase : Text → Text) where
  unfoldable pub hint_matches : Option Text → Option Text → Bool
  hint_matches value none = false
  hint_matches none (some hint) = false
  hint_matches (some value) (some hint) =
      if is_empty (trim hint)
      then false
      else has_text (to_lowercase value) (to_lowercase (trim hint))

  module _ (before : List Text) (spawned_pid : ℕ) (title_hint app_hint : Option Text) where
    unfoldable pub launch_attach_candidate_matches : WindowCandidate → Bool
    launch_attach_candidate_matches window =
        if window.pid == some spawned_pid
        then true
        else if contains (window_candidate_key window) before
        then false
        else hint_matches window.title title_hint
          || hint_matches (window_app_identity_text window) app_hint

    unfoldable pub find_candidate : List WindowCandidate → Option WindowCandidate
    find_candidate [] = none
    find_candidate (window ∷ windows) =
        if launch_attach_candidate_matches window then some window else find_candidate windows

-- What the polling comes to; it is unfinished where the polls that are given end before.
pub data Waited (E : Type 0) : Type 0 where
  chosen : WindowCandidate → Waited E
  timed_out unfinished : Waited E
  list_failed : E → Waited E

-- The loop: a poll is what the compositor lists, and whether the deadline has passed after it.
unfoldable pub wait_for :
    {E : Type 0}
    → (List WindowCandidate → Option WindowCandidate)
    → List (Result E (List WindowCandidate) × Bool)
    → Waited E
wait_for find [] = Waited.unfinished
wait_for find ((err e, late) ∷ polls) = Waited.list_failed e
wait_for find ((ok windows, late) ∷ polls) =
    let rest = wait_for find polls in
    elim (find windows) [
      | some window ↦ Waited.chosen window
      | none ↦ if late then Waited.timed_out else rest
    ]
