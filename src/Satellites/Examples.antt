-- ===== src/Satellites/Examples.antt =====
-- Tests of the windows' owners, after those of crates/lmux/src/state.rs, and the theorem at a
-- concrete map.
use lmux.Prelude.{none, some, [], ◌∷◌, ◌≡◌, refl, tally}
use lmux.Satellites.{
  SatelliteWindowId, Windows, WindowBackend, insert_satellite_window_for_anchor,
  satellite_visibility_for_active, remove_satellite_backend_window, push_window, forget_request,
  remove_satellite_request,
}
use lmux.Satellites.Ownership.{has_id, total, windows_of, insert_satellite_window-once}

abbrev editor : SatelliteWindowId
editor = record {
  backend = WindowBackend.macos;
  request_id = some 3;
  pid = some 100;
  backend_window_id = b'e' ∷ [];
  bundle_id = none;
  title = none;
}

abbrev owned : Windows
owned = (1, editor ∷ []) ∷ []

moves_to_the_new_anchor :
    insert_satellite_window_for_anchor owned 2 editor ≡ (1, []) ∷ (2, editor ∷ []) ∷ []
unfolding insert_satellite_window_for_anchor remove_satellite_backend_window push_window
    forget_request remove_satellite_request
moves_to_the_new_anchor = refl

hides_the_others : satellite_visibility_for_active (some 2) owned ≡ (editor ∷ [], [])
unfolding satellite_visibility_for_active
hides_the_others = refl

insert_satellite_window-once_example :
    (tally (has_id (b'e' ∷ [])) (windows_of 2 (insert_satellite_window_for_anchor owned 2 editor))
      ≡ 1)
    × (total (has_id (b'e' ∷ [])) (insert_satellite_window_for_anchor owned 2 editor) ≡ 1)
insert_satellite_window-once_example = insert_satellite_window-once owned 2 editor
