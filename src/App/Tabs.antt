-- ===== src/App/Tabs.antt =====
-- The terminal tabs of an anchor: `ensure_terminal_tab_stack`, `activate_terminal_tab` and
-- `remove_terminal_tab_metadata` of crates/lmux/src/state.rs.
use lmux.Prelude.{
  ℕ, Bool, true, false, not, ◌&&◌, Option, none, some, List, [], ◌∷◌, ◌==◌, nat_eq, if◌then◌else◌,
  lookup, insert, erase, contains, contains_key, retain, retain_map, map_values, is_empty,
}
use lmux.App.{AppState}

-- `entry(k).or_insert(v)`.
unfoldable pub or_insert : {V : Type 0} → ℕ → V → List (ℕ × V) → List (ℕ × V)
or_insert k v m = if contains_key k m then m else insert k v m

abbrev pub has_tab : ℕ → Option (List ℕ) → Bool
has_tab tab none = false
has_tab tab (some tabs) = contains tab tabs

abbrev pub first_or : ℕ → Option (List ℕ) → ℕ
first_or d none = d
first_or d (some []) = d
first_or d (some (tab ∷ tabs)) = tab

-- The stacks without the pane; an empty stack goes, and so does one of no anchor.
unfoldable pub stacks_without : List ℕ → ℕ → List (ℕ × List ℕ) → List (ℕ × List ℕ)
stacks_without anchors pane stacks =
    retain_map (λ anchor tabs. not (is_empty tabs) && contains anchor anchors)
      (map_values (λ anchor tabs. retain (λ tab. not (tab == pane)) tabs) stacks)

-- The active tab of an anchor without a stack goes; one that was the pane is the first of the stack.
unfoldable pub active_without : ℕ → List (ℕ × List ℕ) → List (ℕ × ℕ) → List (ℕ × ℕ)
active_without pane stacks active =
    map_values (λ anchor tab. if tab == pane then first_or anchor (lookup anchor stacks) else tab)
      (retain_map (λ anchor tab. contains_key anchor stacks) active)

module _ {R : Type 0} where
  unfoldable pub ensure_terminal_tab_stack : AppState R → ℕ → AppState R
  ensure_terminal_tab_stack s anchor = record s {
    terminal_tabs_by_anchor = or_insert anchor (anchor ∷ []) s.terminal_tabs_by_anchor;
    active_terminal_tab_by_anchor = or_insert anchor anchor s.active_terminal_tab_by_anchor;
    pane_terminal_tab_roots = or_insert anchor anchor s.pane_terminal_tab_roots;
  }

  unfoldable pub activate_terminal_tab : AppState R → ℕ → ℕ → AppState R × Bool
  activate_terminal_tab s anchor tab_root =
      if not (has_tab tab_root (lookup anchor s.terminal_tabs_by_anchor)) then (s, false) else (
        record s {
          active_terminal_tab_by_anchor = insert anchor tab_root s.active_terminal_tab_by_anchor;
        },
        true,
      )

  unfoldable pub remove_terminal_tab_metadata : AppState R → ℕ → AppState R
  remove_terminal_tab_metadata s pane =
      let stacks = stacks_without s.anchors pane s.terminal_tabs_by_anchor in
      record s {
        pane_terminal_tab_roots = erase pane s.pane_terminal_tab_roots;
        terminal_tabs_by_anchor = stacks;
        active_terminal_tab_by_anchor = active_without pane stacks s.active_terminal_tab_by_anchor;
      }
