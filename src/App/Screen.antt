-- ===== src/App/Screen.antt =====
-- What the user sees of the state: the panes from left to right and from top to bottom, the steps
-- that a screen may take, and `split_focused` and `close_orphan_terminal_panes` of
-- crates/lmux/src/state.rs seen so.
use lmux.Prelude.{
  ℕ, Bool, true, false, not, ◌&&◌, Option, none, some, List, [], ◌∷◌, ◌==◌, nat_eq, option_eq,
  contains, count, retain, without, All, ◌≡◌, refl, arith, Bool-cases, inl, inr, ap, ◌∙◌, sym,
  subst,
}
use lmux.Layout.{Dir, leaves, remove_leaf, replace_leaf}
use lmux.Layout.Leaves.{splice, leaves-replace_leaf, splice_id}
use lmux.Layout.Remove.{remove_leaf-found, leaves-remove_leaf}
use lmux.App.{AppState, Pane}
use lmux.App.Tabs.{remove_terminal_tab_metadata}
use lmux.App.Anchors.{
  orphans, close_all, close_terminal_pane_without_focus, close_orphan_terminal_panes,
}
use lmux.App.Panes.{halved, forget_pane, inherit_workspace, split_focused}
use lmux.App.Consistent.{
  IsSound, close_terminal_pane-IsSound, close_terminal_pane-anchors, orphans-plain,
}
use lmux.App.Splitting.{leaves-halved, next-absent}
use lmux.App.Orphans.{close_terminal_pane-layout}

-- A step of the screen opens a pane right behind another one, closes panes and leaves the others in
-- their order, or rearranges the panes that it shows.
pub data Shows (xs ys : List ℕ) : Type 0 where
  opens :
      (target new : ℕ)
      → contains target xs ≡ true
      → contains new xs ≡ false
      → ys ≡ splice target (target ∷ new ∷ []) xs
      → Shows xs ys
  closes : (keep : ℕ → Bool) → ys ≡ retain keep xs → Shows xs ys
  moves : ((x : ℕ) → count x ys ≡ count x xs) → Shows xs ys

pub stays : {xs ys : List ℕ} → ys ≡ xs → Shows xs ys
stays e = Shows.moves λ x. ap (count x) e

pub retain-retain :
    (p q : ℕ → Bool) (xs : List ℕ) → retain p (retain q xs) ≡ retain (λ x. q x && p x) xs
retain-retain p q [] = refl
retain-retain p q (x ∷ xs) = ground (arith, retain-retain p q xs)

pub without-retain : (t : ℕ) (xs : List ℕ) → without t xs ≡ retain (λ x. not (x == t)) xs
without-retain t [] = refl
without-retain t (x ∷ xs) = ground (arith, without-retain t xs)

retain_all : (xs : List ℕ) → retain (λ x. true) xs ≡ xs
retain_all [] = refl
retain_all (x ∷ xs) = ap (λ t. x ∷ t) (retain_all xs)

-- Some of the panes are left.
abbrev pub Kept : List ℕ → List ℕ → Type 0
Kept xs ys = (keep : ℕ → Bool) × (ys ≡ retain keep xs)

pub Kept-trans : (xs ys zs : List ℕ) → Kept xs ys → Kept ys zs → Kept xs zs
Kept-trans xs ys zs (q, e) (p, f) = (λ x. q x && p x, f ∙ ap (retain p) e ∙ retain-retain p q xs)

module _ {R : Type 0} where
  close_terminal_pane-Kept :
      (s : AppState R) (pane : ℕ)
      → IsSound s
      → Kept (leaves s.layout) (leaves (close_terminal_pane_without_focus s pane).0.layout)
  close_terminal_pane-Kept s pane h =
      let shape = ap leaves (close_terminal_pane-layout s pane) in
      elim (Bool-cases ((remove_leaf s.layout pane).1)) [
        | inl hit ↦ (
          λ x. not (x == pane),
          shape
              ∙ leaves-remove_leaf s.layout pane h.distinct hit
              ∙ without-retain pane (leaves s.layout),
        )
        | inr miss ↦ (
          λ x. true,
          shape
              ∙ ap leaves ((remove_leaf-found s.layout pane).1 miss)
              ∙ sym (retain_all (leaves s.layout)),
        )
      ]

  close_all-Kept :
      (ids : List ℕ) (s : AppState R)
      → All (λ id. contains id s.anchors ≡ false) ids
      → IsSound s
      → Kept (leaves s.layout) (leaves (close_all ids s).layout)
  unfolding close_all
  close_all-Kept [] s plain h = (λ x. true, sym (retain_all (leaves s.layout)))
  close_all-Kept (pane ∷ ids) s plain h =
      let s' = (close_terminal_pane_without_focus s pane).0 in
      let plain' =
        subst (λ t. All (λ k. contains k t ≡ false) ids)
          (sym (close_terminal_pane-anchors s pane).0) plain.1 in
      Kept-trans (leaves s.layout) (leaves s'.layout) (leaves (close_all ids s').layout)
        (close_terminal_pane-Kept s pane h)
        (close_all-Kept ids s' plain' (close_terminal_pane-IsSound s pane plain.0 h))

  pub close_orphan-Kept :
      (s : AppState R)
      → IsSound s
      → Kept (leaves s.layout) (leaves (close_orphan_terminal_panes s).layout)
  unfolding close_orphan_terminal_panes
  close_orphan-Kept s h = close_all-Kept (orphans s s.panes) s (orphans-plain s s.panes) h

  -- A new pane beside a leaf, or nothing.
  pub spliced-Shows :
      (half : R) (dir : Dir) (target : ℕ) (s t : AppState R)
      → IsSound s
      → t.layout ≡ (replace_leaf s.layout target (halved half dir s.next_id)).0
      → Shows (leaves s.layout) (leaves t.layout)
  spliced-Shows half dir target s t h l =
      let new = s.next_id in
      let shape : leaves t.layout ≡ splice target (target ∷ new ∷ []) (leaves s.layout) =
        ap leaves l
        ∙ (leaves-replace_leaf s.layout target (halved half dir new)).1
        ∙ ap (λ u. splice target u (leaves s.layout)) (leaves-halved half dir new target) in
      elim (Bool-cases (contains target (leaves s.layout))) [
        | inl here ↦ Shows.opens target new here (h.placed new ∙ next-absent s h) shape
        | inr away ↦ stays (shape ∙ splice_id target (target ∷ new ∷ []) (leaves s.layout) away)
      ]

  split_focused-layout :
      (half : R) (s : AppState R) (dir : Dir) (pane : Pane)
      → (split_focused half s dir (some pane)).layout
        ≡ (replace_leaf s.layout s.focused (halved half dir s.next_id)).0
  unfolding split_focused forget_pane remove_terminal_tab_metadata inherit_workspace
  split_focused-layout half s dir pane = ground arith

  pub split_focused-Shows :
      (half : R) (s : AppState R) (dir : Dir) (pane : Option Pane)
      → IsSound s
      → Shows (leaves s.layout) (leaves (split_focused half s dir pane).layout)
  split_focused-Shows half s dir none h = unfold split_focused in stays refl
  split_focused-Shows half s dir (some pane) h =
      spliced-Shows half dir s.focused s (split_focused half s dir (some pane)) h
        (split_focused-layout half s dir pane)
