-- ===== src/Anchors/Examples.antt =====
-- Tests of the anchor registry, after those of crates/lmux-anchor/src/registry.rs, and the theorems
-- at a registry with three anchors.
use lmux.Prelude.{
  err, Bool, true, false, none, some, List, [], ◌∷◌, ◌++◌, nat_eq, ◌≡◌, refl, Text, lookup, pos,
  negsuc, lebℤ, is_empty, All, tally, ◌≤◌,
}
use lmux.Anchors.{
  live, paused, hidden, dead, Anchor, Registry, new_manual, pause, rename, set_hidden,
  display_label, not_found, invalid_transition, trim,
}
use lmux.Anchors.Lifecycle.{hide_op, apply, ◌⟶◌, SameOrigin, apply-⟶}
use lmux.Anchors.Labels.{Blank, starts_blank, ends_blank, trim_lem, rename-name}
use lmux.Anchors.Sidebar.{grouped_for_sidebar, next_anchor_sort_key_for, key_of, Bucket}
use lmux.Anchors.Sidebar.Groups.{
  grouped_for_sidebar_ordered, IsTidy, shown_tally, times_shown, values,
}
use lmux.Anchors.Sidebar.Precedence.{GroupBefore, InOrder}
use lmux.Anchors.Sidebar.SortKeys.{next_anchor_sort_key-beyond}

abbrev bash : List Text
bash = (b'b' ∷ b'a' ∷ b's' ∷ b'h' ∷ []) ∷ []

abbrev services : Text
services = b's' ∷ b'v' ∷ []

-- An anchor that runs, a dead one, and one in a group, floated to the top.
abbrev running : Anchor
running = record {
  id = 1;
  pane_id = some 101;
  argv = bash;
  cwd = b'/' ∷ [];
  state = live;
  hide_on_session_close = false;
  autodetect_rule = none;
  name = none;
  group = none;
  sort_key = none;
}

abbrev crashed : Anchor
crashed = record running { id = 2; pane_id = some 102; state = dead }

abbrev floated : Anchor
floated = record running { id = 3; group = some services; sort_key = some (negsuc 0) }

abbrev registry : Registry
registry = (1, running) ∷ (2, crashed) ∷ (3, floated) ∷ []

new_manual_label : display_label (new_manual 1 101 bash []) ≡ b'b' ∷ b'a' ∷ b's' ∷ b'h' ∷ []
unfolding new_manual display_label
new_manual_label = refl

set_hidden_rejected_from_paused :
    (set_hidden (pause registry 1).0 1 true).1 ≡ err (invalid_transition 1 paused hidden)
unfolding set_hidden pause
set_hidden_rejected_from_paused = refl

not_found_surfaces : pause registry 9 ≡ (registry, err (not_found 9))
unfolding pause
not_found_surfaces = refl

apply-⟶_example :
    (b : Anchor) × (lookup 1 (apply registry 1 hide_op).0 ≡ some b)
    × (live ⟶ b.state)
    × SameOrigin running b
apply-⟶_example = apply-⟶ registry 1 hide_op 1 running refl

-- `" a b "`.
abbrev padded : Text
padded = 32 ∷ b'a' ∷ 32 ∷ b'b' ∷ 32 ∷ []

trim_lem_example :
    (before after : Text) × (padded ≡ before ++ (trim padded ++ after))
    × Blank before
    × Blank after
    × (starts_blank (trim padded) ≡ false)
    × (ends_blank (trim padded) ≡ false)
trim_lem_example = trim_lem padded

rename-name_example :
    (is_empty (trim padded) ≡ false)
    × (starts_blank (trim padded) ≡ false)
    × (ends_blank (trim padded) ≡ false)
    × (display_label (record running { name = some (trim padded) }) ≡ trim padded)
unfolding rename trim
rename-name_example =
    rename-name registry 1 (some padded) running (record running { name = some (trim padded) })
      (trim padded) refl refl refl

abbrev floats_up : Anchor → Bool
floats_up a = lebℤ (key_of a) (negsuc 0)

grouped_for_sidebar_ordered_example :
    InOrder (λ (x : Bucket) (y : Bucket). GroupBefore x.0 y.0) (grouped_for_sidebar registry)
    × All IsTidy (grouped_for_sidebar registry)
    × (times_shown (some services) (grouped_for_sidebar registry) ≤ 1)
    × (shown_tally floats_up (grouped_for_sidebar registry) ≡ tally floats_up (values registry))
grouped_for_sidebar_ordered_example = grouped_for_sidebar_ordered registry (some services) floats_up

next_anchor_sort_key-beyond_example :
    lebℤ (next_anchor_sort_key_for (1 ∷ 3 ∷ []) registry none) (pos 0) ≡ false
next_anchor_sort_key-beyond_example =
    next_anchor_sort_key-beyond (1 ∷ 3 ∷ []) registry 1 running refl refl refl
