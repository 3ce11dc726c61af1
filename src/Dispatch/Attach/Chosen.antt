-- ===== src/Dispatch/Attach/Chosen.antt =====
-- The window that `SatelliteLaunchAttach` of crates/lmux/src/bus.rs chooses.
use lmux.Prelude.{
  ℕ, Bool, true, false, ◌||◌, Option, none, some, List, [], ◌∷◌, ◌++◌, ◌==◌, nat_eq, list_eq,
  option_eq, Text, if◌then◌else◌, contains, map, Result, ok, err, All, ◌≡◌, refl, arith, Bool-cases,
  Option-cases, inl, inr, ◌⊎◌, ap, ◌∙◌, sym, subst, ◌↔◌,
}
use lmux.Bus.Catalog.{WindowCandidateBackend, WindowCandidate}
use lmux.Dispatch.Attach.{
  backend_debug, window_candidate_key, window_app_identity_text, hint_matches,
  launch_attach_candidate_matches, find_candidate, Waited, wait_for,
}

-- The two candidates are one window.
abbrev pub SameWindow : WindowCandidate → WindowCandidate → Type 0
SameWindow a b = (a.backend ≡ b.backend) × (a.backend_window_id ≡ b.backend_window_id)

-- The backend that a name begins like, and what follows a colon.
abbrev of_name : Text → WindowCandidateBackend
of_name [] = WindowCandidateBackend.unsupported
of_name (c ∷ cs) =
    if c == b'M'
    then WindowCandidateBackend.macos
    else if c == b'K'
    then WindowCandidateBackend.kwin
    else if c == b'X'
    then WindowCandidateBackend.x11
    else if c == b'H'
    then WindowCandidateBackend.hyprland
    else if c == b'S'
    then WindowCandidateBackend.sway
    else if c == b'N'
    then WindowCandidateBackend.noop
    else WindowCandidateBackend.unsupported

abbrev after_colon : Text → Text
after_colon [] = []
after_colon (c ∷ cs) = let rest = after_colon cs in if c == b':' then cs else rest

named :
    (b : WindowCandidateBackend) (id : Text)
    → (of_name (backend_debug b ++ b':' ∷ id) ≡ b)
      × (after_colon (backend_debug b ++ b':' ∷ id) ≡ id)
unfolding backend_debug
named WindowCandidateBackend.macos id = (refl, refl)
named WindowCandidateBackend.kwin id = (refl, refl)
named WindowCandidateBackend.x11 id = (refl, refl)
named WindowCandidateBackend.hyprland id = (refl, refl)
named WindowCandidateBackend.sway id = (refl, refl)
named WindowCandidateBackend.noop id = (refl, refl)
named WindowCandidateBackend.unsupported id = (refl, refl)

-- The key names the window.
window_candidate_key-SameWindow :
    (a b : WindowCandidate) → window_candidate_key a ≡ window_candidate_key b → SameWindow a b
unfolding window_candidate_key
window_candidate_key-SameWindow a b e =
    let here = named a.backend a.backend_window_id in
    let there = named b.backend b.backend_window_id in
    (sym here.0 ∙ ap of_name e ∙ there.0, sym here.1 ∙ ap after_colon e ∙ there.1)

key-of_same :
    (a b : WindowCandidate) → SameWindow a b → window_candidate_key a ≡ window_candidate_key b
unfolding window_candidate_key
key-of_same a b (backend, id) =
    ap (λ t. backend_debug t ++ b':' ∷ a.backend_window_id) backend
    ∙ ap (λ t. backend_debug b.backend ++ b':' ∷ t) id

-- The window is none of those.
abbrev pub IsNew : WindowCandidate → List WindowCandidate → Type 0
IsNew window listed = All (λ w. ¬ SameWindow window w) listed

text_iff : (a b : Text) → ((a == b) ≡ true) ↔ (a ≡ b)
text_iff = (list_eq {A = ℕ}).beq_iff

IsNew-of_key :
    (window : WindowCandidate) (listed : List WindowCandidate)
    → contains (window_candidate_key window) (map window_candidate_key listed) ≡ false
    → IsNew window listed
IsNew-of_key window [] h = tt
IsNew-of_key window (w ∷ ws) h =
    let mine = window_candidate_key window in
    let its = window_candidate_key w in
    (
      λ same.
          let equal : (its == mine) ≡ true =
            (text_iff its mine).1 (sym (key-of_same window w same)) in
          ground arith,
      IsNew-of_key window ws (ground arith),
    )

contains-of_IsNew :
    (window : WindowCandidate) (listed : List WindowCandidate)
    → IsNew window listed
    → contains (window_candidate_key window) (map window_candidate_key listed) ≡ false
contains-of_IsNew window [] h = refl
contains-of_IsNew window (w ∷ ws) (other, rest) =
    let mine = window_candidate_key window in
    let its = window_candidate_key w in
    elim (Bool-cases (its == mine)) [
      | inl equal ↦
          absurd
            (other (window_candidate_key-SameWindow window w (sym ((text_iff its mine).0 equal))))
      | inr differ ↦ ground (arith, contains-of_IsNew window ws rest)
    ]

module _ (to_lowercase : Text → Text) (before : List WindowCandidate) (pid : ℕ)
    (title_hint app_hint : Option Text) where
  -- The window of the program that was started, as the request describes it: it has the program's
  -- process, or it was not listed before and its title or its application has the hint.
  abbrev pub Belongs : WindowCandidate → Type 0
  Belongs w =
      (w.pid ≡ some pid)
      ⊎ (IsNew w before
          × ((hint_matches to_lowercase w.title title_hint
                || hint_matches to_lowercase (window_app_identity_text w) app_hint)
              ≡ true))

  abbrev matching : WindowCandidate → Bool
  matching =
      launch_attach_candidate_matches to_lowercase (map window_candidate_key before) pid title_hint
        app_hint

  -- The test on the keys, which are texts, accepts exactly the windows that belong to the program.
  pub matches-Belongs : (w : WindowCandidate) → (matching w ≡ true) ↔ Belongs w
  unfolding launch_attach_candidate_matches
  matches-Belongs w = (
    λ h. elim (Bool-cases (w.pid == some pid)) [
      | inl own ↦ inl (ground (arith, nat_eq.beq_iff))
      | inr other ↦ inr (IsNew-of_key w before (ground arith), ground arith)
    ],
    λ b. elim b [
      | inl own ↦ ground (arith, nat_eq.beq_iff pid pid)
      | inr (new, hinted) ↦ ground (arith, contains-of_IsNew w before new)
    ],
  )

  -- The first window of a listing that belongs to the program, or that there is none.
  abbrev pub Picks : List WindowCandidate → Option WindowCandidate → Type 0
  Picks listed none = All (λ w. ¬ Belongs w) listed
  Picks listed (some w) =
      (earlier : List WindowCandidate) × (later : List WindowCandidate) × (listed
        ≡ earlier ++ w ∷ later)
      × All (λ v. ¬ Belongs v) earlier
      × Belongs w

  abbrev pub choose : List WindowCandidate → Option WindowCandidate
  choose = find_candidate to_lowercase (map window_candidate_key before) pid title_hint app_hint

  not_Belongs : (w : WindowCandidate) → matching w ≡ false → ¬ Belongs w
  not_Belongs w h b = let yes_it_does = (matches-Belongs w).1 b in ground arith

  later-Picks :
      (w : WindowCandidate) (ws : List WindowCandidate) (o : Option WindowCandidate)
      → ¬ Belongs w
      → Picks ws o
      → Picks (w ∷ ws) o
  later-Picks w ws none other h = (other, h)
  later-Picks w ws (some v) other (earlier, later, e, none_before, b) =
      (w ∷ earlier, later, ap (λ t. w ∷ t) e, (other, none_before), b)

  choose-Picks : (ws : List WindowCandidate) → Picks ws (choose ws)
  unfolding find_candidate
  choose-Picks [] = tt
  choose-Picks (w ∷ ws) = elim (Bool-cases (matching w)) [
    | inl hit ↦ rw (hit, Picks) ([], ws, refl, tt, (matches-Belongs w).0 hit)
    | inr miss ↦
        rw (miss, Picks) (later-Picks w ws (choose ws) (not_Belongs w miss) (choose-Picks ws))
  ]

  -- How the polling ends: at the first listing that fails or has a window of the program, with the
  -- first such window, or after the first poll past the deadline.
  abbrev pub Ends : {E : Type 0} → List (Result E (List WindowCandidate) × Bool) → Waited E → Type 0
  Ends [] o = o ≡ Waited.unfinished
  Ends ((err e, late) ∷ polls) o = o ≡ Waited.list_failed e
  Ends ((ok ws, true) ∷ polls) o =
      ((w : WindowCandidate) × (o ≡ Waited.chosen w) × Picks ws (some w))
      ⊎ (Picks ws none × (o ≡ Waited.timed_out))
  Ends ((ok ws, false) ∷ polls) o =
      ((w : WindowCandidate) × (o ≡ Waited.chosen w) × Picks ws (some w))
      ⊎ (Picks ws none × Ends polls o)

  -- The polling of a launch ends at the first listing that fails, with its error, or at the first one
  -- that has a window of the program, with the first such window, or, where a poll after the deadline
  -- has none, with a timeout; it goes on as long as there is none of these. A window belongs to the
  -- program if it has the program's process, or if it was not listed before the launch, by its backend
  -- and its id there, and has the hinted title or application.
  pub wait_for-Ends :
      {E : Type 0} (polls : List (Result E (List WindowCandidate) × Bool))
      → Ends polls (wait_for choose polls)
  unfolding wait_for
  wait_for-Ends [] = refl
  wait_for-Ends ((err e, late) ∷ polls) = refl
  wait_for-Ends ((ok ws, true) ∷ polls) = elim (Option-cases (choose ws)) [
    | inr (w, e) ↦ inl (w, ground arith, subst (Picks ws) e (choose-Picks ws))
    | inl e ↦ inr (subst (Picks ws) e (choose-Picks ws), ground arith)
  ]
  wait_for-Ends {E} ((ok ws, false) ∷ polls) = elim (Option-cases (choose ws)) [
    | inr (w, e) ↦ inl (w, ground arith, subst (Picks ws) e (choose-Picks ws))
    | inl e ↦
        let on : wait_for {E = E} choose ((ok ws, false) ∷ polls) ≡ wait_for choose polls =
          ground arith in
        inr
          (subst (Picks ws) e (choose-Picks ws), subst (Ends polls) (sym on) (wait_for-Ends polls))
  ]
