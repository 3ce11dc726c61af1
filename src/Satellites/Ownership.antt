-- ===== src/Satellites/Ownership.antt =====
-- A window has one owner, and each window is either hidden or shown.
use lmux.Prelude.{
  ℕ, ◌+◌, Bool, not, Option, List, [], ◌∷◌, ◌==◌, nat_eq, list_eq, option_eq, beq_self, Text,
  lookup, retain, unwrap_or, tally, tally-append, ◌≡◌, refl, arith,
}
use lmux.Satellites.{
  SatelliteWindowId, Windows, satellite_visibility_for_active, remove_satellite_backend_window,
  push_window, forget_request, insert_satellite_window_for_anchor,
}

abbrev pub has_id : Text → SatelliteWindowId → Bool
has_id id w = w.backend_window_id == id

-- The number of windows of all anchors with a property.
abbrev pub total : (SatelliteWindowId → Bool) → Windows → ℕ
total p [] = 0
total p ((anchor, windows) ∷ rest) = tally p windows + total p rest

-- The windows of an anchor.
abbrev pub windows_of : ℕ → Windows → List SatelliteWindowId
windows_of anchor m = unwrap_or (lookup anchor m) []

none_retained :
    (id : Text) (ws : List SatelliteWindowId)
    → tally (has_id id) (retain (λ w. not (w.backend_window_id == id)) ws) ≡ 0
none_retained id [] = refl
none_retained id (w ∷ ws) = ground (arith, none_retained id ws)

total-removed :
    (m : Windows) (id : Text) → total (has_id id) (remove_satellite_backend_window m id) ≡ 0
unfolding remove_satellite_backend_window
total-removed [] id = refl
total-removed ((a, ws) ∷ rest) id = ground (arith, none_retained id ws, total-removed rest id)

total-push_window :
    (p : SatelliteWindowId → Bool) (anchor : ℕ) (w : SatelliteWindowId) (m : Windows)
    → total p (push_window anchor w m) ≡ total p m + tally p (w ∷ [])
unfolding push_window
total-push_window p anchor w [] = ground arith
total-push_window p anchor w ((a, ws) ∷ rest) =
    ground (arith, tally-append p ws (w ∷ []), total-push_window p anchor w rest)

tally-push_window :
    (p : SatelliteWindowId → Bool) (anchor : ℕ) (w : SatelliteWindowId) (m : Windows)
    → tally p (windows_of anchor (push_window anchor w m))
      ≡ tally p (windows_of anchor m) + tally p (w ∷ [])
unfolding push_window
tally-push_window p anchor w [] = ground (arith, beq_self anchor)
tally-push_window p anchor w ((a, ws) ∷ rest) =
    ground (arith, tally-append p ws (w ∷ []), tally-push_window p anchor w rest)

tally-le_total :
    (p : SatelliteWindowId → Bool) (anchor : ℕ) (m : Windows)
    → total p m ≡ 0
    → tally p (windows_of anchor m) ≡ 0
tally-le_total p anchor [] h = refl
tally-le_total p anchor ((a, ws) ∷ rest) h = ground (arith, tally-le_total p anchor rest)

-- After a window is given to an anchor, that anchor has it once, and no other entry of the map has a
-- window of the same backend id, whoever owned it before.
pub insert_satellite_window-once :
    (m : Windows) (anchor : ℕ) (w : SatelliteWindowId)
    → let m' = insert_satellite_window_for_anchor m anchor w in
      (tally (has_id w.backend_window_id) (windows_of anchor m') ≡ 1)
      × (total (has_id w.backend_window_id) m' ≡ 1)
unfolding insert_satellite_window_for_anchor
insert_satellite_window-once m anchor w =
    let kept =
      remove_satellite_backend_window (forget_request m w.request_id) w.backend_window_id in
    let gone = total-removed (forget_request m w.request_id) w.backend_window_id in
    let own = beq_self w.backend_window_id in
    (
      ground (
        arith,
        own,
        tally-push_window (has_id w.backend_window_id) anchor w kept,
        tally-le_total (has_id w.backend_window_id) anchor kept gone,
      ),
      ground (arith, own, total-push_window (has_id w.backend_window_id) anchor w kept),
    )

-- Each window is either hidden or shown: of the windows with any property, as many as there are.
pub tally-satellite_visibility :
    (p : SatelliteWindowId → Bool) (active : Option ℕ) (m : Windows)
    → tally p (satellite_visibility_for_active active m).0
        + tally p (satellite_visibility_for_active active m).1
      ≡ total p m
unfolding satellite_visibility_for_active
tally-satellite_visibility p active [] = refl
tally-satellite_visibility p active ((a, ws) ∷ rest) =
    let (hide, show) = satellite_visibility_for_active active rest in
    ground (
      arith,
      tally-append p ws hide,
      tally-append p ws show,
      tally-satellite_visibility p active rest,
    )
