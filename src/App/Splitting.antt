-- ===== src/App/Splitting.antt =====
-- The invariant through `split_focused` of crates/lmux/src/state.rs.
use lmux.Prelude.{
  ℕ, ◌+◌, ◌<◌, true, false, ◌||◌, Option, none, some, List, [], ◌∷◌, ◌++◌, ◌==◌, nat_eq, option_eq,
  lookup, insert, erase, contains, contains_key, lookup-insert, lookup-erase, count, count-le_one,
  count_zero, Distinct-of_count, Distinct, ◌≡◌, arith, Bool-cases, Option-cases, inl, inr, ap, ◌∙◌,
}
use lmux.Layout.{Layout, Dir, leaves, replace_leaf}
use lmux.Layout.Leaves.{splice, leaves-replace_leaf, leaves-leaf, leaves-split, splice_id}
use lmux.App.{AppState, Pane}
use lmux.App.Tabs.{remove_terminal_tab_metadata}
use lmux.App.Panes.{u32_max, next_pane_id, halved, forget_pane, inherit_workspace, split_focused}
use lmux.App.Consistent.{IsSound, IsConsistent}

count-splice :
    (x target new : ℕ) (xs : List ℕ)
    → contains target xs ≡ true
    → count x (splice target (target ∷ new ∷ []) xs) ≡ count x xs + count x (new ∷ [])
count-splice x target new [] h = cc
count-splice x target new (y ∷ ys) h = ground (
  arith,
  nat_eq.beq_iff y target,
  nat_eq.beq_iff y x,
  nat_eq.beq_iff target x,
  count-splice x target new ys,
)

contains-splice :
    (x target new : ℕ) (xs : List ℕ)
    → contains target xs ≡ true
    → contains x (splice target (target ∷ new ∷ []) xs) ≡ (new == x || contains x xs)
contains-splice x target new [] h = cc
contains-splice x target new (y ∷ ys) h = ground (
  arith,
  nat_eq.beq_iff y target,
  nat_eq.beq_iff y x,
  nat_eq.beq_iff target x,
  contains-splice x target new ys,
)

Distinct-splice :
    (target new : ℕ) (xs : List ℕ)
    → contains target xs ≡ true
    → contains new xs ≡ false
    → Distinct xs
    → Distinct (splice target (target ∷ new ∷ []) xs)
Distinct-splice target new xs h away d =
    Distinct-of_count (splice target (target ∷ new ∷ []) xs) λ x. ground (
      arith,
      count-splice x target new xs h,
      count-le_one xs d x,
      count_zero new xs away,
      nat_eq.beq_iff new x,
    )

module _ {R : Type 0} where
  pub leaves-halved :
      (half : R) (dir : Dir) (new id : ℕ) → leaves (halved half dir new id) ≡ id ∷ new ∷ []
  unfolding halved
  leaves-halved half dir new id =
      leaves-split dir (Layout.leaf id) (Layout.leaf new) half
      ∙ ap (λ t. t ++ leaves {R = R} (Layout.leaf new)) (leaves-leaf R id)
      ∙ ap (λ t. id ∷ t) (leaves-leaf R new)

  pub next-absent : (s : AppState R) → IsSound s → contains_key s.next_id s.panes ≡ false
  next-absent s h = elim (Bool-cases (contains_key s.next_id s.panes)) [
    | inl e ↦ absurd (let small = h.above s.next_id e in omega arith)
    | inr e ↦ e
  ]

  -- A new pane beside a leaf. The workspace may say anything of the new pane.
  pub placed-IsSound :
      (half : R) (dir : Dir) (target : ℕ) (pane : Pane) (s t : AppState R)
      → IsSound s
      → s.next_id < u32_max
      → contains target (leaves s.layout) ≡ true
      → t.layout ≡ (replace_leaf s.layout target (halved half dir s.next_id)).0
      → t.panes ≡ insert s.next_id pane s.panes
      → t.anchors ≡ s.anchors
      → ((id : ℕ)
          → (id == s.next_id) ≡ false
          → lookup id t.pane_workspace ≡ lookup id s.pane_workspace)
      → t.next_id ≡ next_pane_id s.next_id
      → IsSound t
  placed-IsSound half dir target pane s t h room here l p a w n =
      let new = s.next_id in
      let shape : leaves t.layout ≡ splice target (target ∷ new ∷ []) (leaves s.layout) =
        ap leaves l
        ∙ (leaves-replace_leaf s.layout target (halved half dir new)).1
        ∙ ap (λ u. splice target u (leaves s.layout)) (leaves-halved half dir new target) in
      let away : contains new (leaves s.layout) ≡ false = h.placed new ∙ next-absent s h in
      record {
        distinct = rw shape (Distinct-splice target new (leaves s.layout) here away h.distinct);
        placed = λ id. ground (
          arith,
          shape,
          contains-splice id target new (leaves s.layout) here,
          lookup-insert new id pane s.panes,
          h.placed id,
        );
        tagged = λ b x. ground (arith, lookup-insert new b pane s.panes, h.tagged b);
        rooted = λ b x. ground (arith, h.tagged b, h.rooted b, w b, h.above b);
        above = λ id x. ground (arith, lookup-insert new id pane s.panes, h.above id);
      }

  -- A new pane that found no leaf is forgotten.
  pub forgotten-IsSound :
      (half : R) (dir : Dir) (target : ℕ) (pane : Pane) (s t : AppState R)
      → IsSound s
      → s.next_id < u32_max
      → contains target (leaves s.layout) ≡ false
      → t.layout ≡ (replace_leaf s.layout target (halved half dir s.next_id)).0
      → t.panes ≡ erase s.next_id (insert s.next_id pane s.panes)
      → t.anchors ≡ s.anchors
      → ((id : ℕ)
          → (id == s.next_id) ≡ false
          → lookup id t.pane_workspace ≡ lookup id s.pane_workspace)
      → t.next_id ≡ next_pane_id s.next_id
      → IsSound t
  forgotten-IsSound half dir target pane s t h room away l p a w n =
      let new = s.next_id in
      let shape : leaves t.layout ≡ leaves s.layout =
        ap leaves l
        ∙ (leaves-replace_leaf s.layout target (halved half dir new)).1
        ∙ splice_id target (leaves (halved half dir new target)) (leaves s.layout) away in
      record {
        distinct = rw shape h.distinct;
        placed = λ id. ground (
          arith,
          shape,
          lookup-erase new id (insert new pane s.panes),
          lookup-insert new id pane s.panes,
          h.placed id,
          next-absent s h,
          nat_eq.beq_iff new id,
        );
        tagged = λ b x. ground (
          arith,
          lookup-erase new b (insert new pane s.panes),
          lookup-insert new b pane s.panes,
          h.tagged b,
          next-absent s h,
          nat_eq.beq_iff new b,
        );
        rooted = λ b x. ground (arith, h.tagged b, h.rooted b, w b, h.above b);
        above = λ id x. ground (
          arith,
          lookup-erase new id (insert new pane s.panes),
          lookup-insert new id pane s.panes,
          h.above id,
        );
      }

  pub inherited-workspace :
      (s : AppState R) (target new id : ℕ)
      → (id == new) ≡ false
      → lookup id (inherit_workspace s target new).pane_workspace ≡ lookup id s.pane_workspace
  unfolding inherit_workspace
  inherited-workspace s target new id other = elim (Option-cases (lookup target s.pane_workspace)) [
    | inl e ↦ ground arith
    | inr (owner, e) ↦ ground (arith, lookup-insert new id owner s.pane_workspace)
  ]

  pub inherited-fields :
      (s : AppState R) (target new : ℕ)
      → ((inherit_workspace s target new).layout ≡ s.layout)
        × ((inherit_workspace s target new).panes ≡ s.panes)
        × ((inherit_workspace s target new).anchors ≡ s.anchors)
        × ((inherit_workspace s target new).next_id ≡ s.next_id)
        × ((inherit_workspace s target new).active_anchor ≡ s.active_anchor)
        × ((inherit_workspace s target new).focused ≡ s.focused)
  unfolding inherit_workspace
  inherited-fields s target new = elim (Option-cases (lookup target s.pane_workspace)) [
    | inl e ↦ (ground arith, ground arith, ground arith, ground arith, ground arith, ground arith)
    | inr (owner, e) ↦
        (ground arith, ground arith, ground arith, ground arith, ground arith, ground arith)
  ]

  -- `split_focused` keeps the invariant while there are ids left.
  pub split_focused-IsConsistent :
      (half : R) (s : AppState R) (dir : Dir) (pane : Option Pane)
      → IsConsistent s
      → s.next_id < u32_max
      → IsConsistent (split_focused half s dir pane)
  unfolding split_focused
  split_focused-IsConsistent half s dir none h room = h
  split_focused-IsConsistent half s dir (some pane) h room =
      let target = s.focused in
      let new = s.next_id in
      let added : AppState R = record s {
        panes = insert new pane s.panes;
        pane_uuids = insert new s.fresh s.pane_uuids;
        fresh = s.fresh + 1;
      } in
      let made = inherit_workspace added target new in
      let (l, p, a, n, act, f) = inherited-fields added target new in
      let split = replace_leaf made.layout target (halved half dir new) in
      let found = (leaves-replace_leaf s.layout target (halved half dir new)).0 in
      let same = ap (λ t. replace_leaf t target (halved half dir new)) l in
      let placed : AppState R = record made {
        next_id = next_pane_id made.next_id;
        layout = split.0;
      } in
      elim (Bool-cases (split.1)) [
        | inl hit ↦ rw hit (
          placed-IsSound half dir target pane s placed h.0 room (ground (arith, found))
              (ap (λ t. t.0) same) p a (inherited-workspace added target new) (ap next_pane_id n),
          λ b x. ground (arith, h.1 b),
        )
        | inr miss ↦ rw miss (
          forgotten-IsSound half dir target pane s (forget_pane placed new) h.0 room
              (ground (arith, found))
              (unfold forget_pane remove_terminal_tab_metadata in ap (λ t. t.0) same)
              (unfold forget_pane remove_terminal_tab_metadata in ap (erase new) p)
              (unfold forget_pane remove_terminal_tab_metadata in a)
              (unfold forget_pane remove_terminal_tab_metadata in
                inherited-workspace added target new)
              (unfold forget_pane remove_terminal_tab_metadata in ap next_pane_id n),
          unfold forget_pane remove_terminal_tab_metadata in λ b x. ground (arith, h.1 b),
        )
      ]
