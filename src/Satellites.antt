-- ===== src/Satellites.antt =====
-- Which anchor owns which GUI window: the maps' functions of crates/lmux/src/state/support.rs, and
-- `SatelliteWindowId` of crates/lmux-compositor/src/lib.rs. A `HashMap` is an association list, in an
-- order that no theorem fixes; a `&mut` map is returned new.
pub mod Ownership
pub mod Examples
use lmux.Prelude.{
  ℕ, Bool, true, false, not, ◌&&◌, Option, none, some, List, [], ◌∷◌, ◌++◌, ◌==◌, nat_eq, list_eq,
  option_eq, Text, if◌then◌else◌, lookup, contains, retain, or_else, unwrap_or,
}

pub data WindowBackend : Type 0 where
  kwin x11 hyprland sway macos noop : WindowBackend
  unknown : Text → WindowBackend

pub record SatelliteWindowId : Type 0 where
  pub backend : WindowBackend
  pub request_id : Option ℕ
  pub pid : Option ℕ
  pub backend_window_id : Text
  pub bundle_id : Option Text
  pub title : Option Text

abbrev pub Windows : Type 0
Windows = List (ℕ × List SatelliteWindowId)

-- The windows to hide and those to show.
unfoldable pub satellite_visibility_for_active :
    Option ℕ → Windows → List SatelliteWindowId × List SatelliteWindowId
satellite_visibility_for_active active [] = ([], [])
satellite_visibility_for_active active ((anchor, windows) ∷ rest) =
    let (hide, show) = satellite_visibility_for_active active rest in
    if some anchor == active then (hide, windows ++ show) else (windows ++ hide, show)

-- The first anchor that has the tab.
unfoldable pub tab_owner : List ℕ → ℕ → List (ℕ × List ℕ) → Option ℕ
tab_owner anchors tab_root [] = none
tab_owner anchors tab_root ((anchor, tabs) ∷ rest) =
    let later = tab_owner anchors tab_root rest in
    if contains anchor anchors && contains tab_root tabs then some anchor else later

abbrev only_among : List ℕ → Option ℕ → Option ℕ
only_among anchors none = none
only_among anchors (some owner) = if contains owner anchors then some owner else none

unfoldable pub owning_anchor_for_terminal_pane :
    ℕ → List ℕ → List (ℕ × ℕ) → List (ℕ × List ℕ) → List (ℕ × ℕ) → Option ℕ
owning_anchor_for_terminal_pane pane anchors pane_workspace tabs_by_anchor tab_roots =
    if contains pane anchors
    then some pane
    else or_else (only_among anchors (lookup pane pane_workspace))
        (tab_owner anchors (unwrap_or (lookup pane tab_roots) pane) tabs_by_anchor)

abbrev pub retain_windows : (SatelliteWindowId → Bool) → Windows → Windows
retain_windows p [] = []
retain_windows p ((anchor, windows) ∷ rest) = (anchor, retain p windows) ∷ retain_windows p rest

unfoldable pub remove_satellite_request : Windows → ℕ → Windows
remove_satellite_request m request_id =
    retain_windows (λ w. not (w.request_id == some request_id)) m

unfoldable pub remove_satellite_backend_window : Windows → Text → Windows
remove_satellite_backend_window m id = retain_windows (λ w. not (w.backend_window_id == id)) m

-- `entry(anchor).or_default().push(window)`.
unfoldable pub push_window : ℕ → SatelliteWindowId → Windows → Windows
push_window anchor window [] = (anchor, window ∷ []) ∷ []
push_window anchor window ((a, windows) ∷ rest) =
    if a == anchor
    then (a, windows ++ window ∷ []) ∷ rest
    else (a, windows) ∷ push_window anchor window rest

unfoldable pub forget_request : Windows → Option ℕ → Windows
forget_request m none = m
forget_request m (some request_id) = remove_satellite_request m request_id

unfoldable pub insert_satellite_window_for_anchor : Windows → ℕ → SatelliteWindowId → Windows
insert_satellite_window_for_anchor m anchor window =
    push_window anchor window (
      remove_satellite_backend_window (forget_request m window.request_id) window.backend_window_id)
