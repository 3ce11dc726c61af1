-- ===== src/Layout/Reparent.antt =====
-- Moving a pane by drag and drop: `Layout::reparent`.
use lmux.Prelude.{
  ℕ, ◌+◌, true, false, not, ◌&&◌, List, [], ◌∷◌, ◌==◌, nat_eq, ◌≡◌, arith, if◌then◌else◌, contains,
  count, count-append, Distinct, without, count_pos, contains_of_count,
}
use lmux.Layout.{
  horizontal, vertical, Layout, leaf, leaves, Edge, top, right, bottom, left, placed_at, reparent,
  remove_leaf,
}
use lmux.Layout.Leaves.{leaves-leaf, leaves-split, splice, leaves-replace_leaf}
use lmux.Layout.Remove.{remove_leaf-found, count-remove_leaf, leaves-remove_leaf, is_leaf-leaves}

-- The two panes of the new split, in traversal order.
abbrev pub dropped : Edge → ℕ → ℕ → List ℕ
dropped top source target = source ∷ target ∷ []
dropped bottom source target = target ∷ source ∷ []
dropped left source target = source ∷ target ∷ []
dropped right source target = target ∷ source ∷ []

count-splice :
    (x target : ℕ) (new xs : List ℕ)
    → contains target xs ≡ true
    → count x (splice target new xs) + count x (target ∷ []) ≡ count x xs + count x new
count-splice x target new [] h = cc
count-splice x target new (y ∷ xs) h =
    ground (arith, count-splice x target new xs, count-append x new xs)

count-dropped :
    (x : ℕ) (edge : Edge) (source target : ℕ)
    → count x (dropped edge source target) ≡ count x (source ∷ []) + count x (target ∷ [])
count-dropped x top s t = ground arith
count-dropped x right s t = ground arith
count-dropped x bottom s t = ground arith
count-dropped x left s t = ground arith

module _ {R : Type 0} (half : R) where
  leaves-placed_at :
      (edge : Edge) (source target : ℕ)
      → leaves (placed_at half edge source target) ≡ dropped edge source target
  unfolding placed_at
  leaves-placed_at top s t =
      ground
        (arith, leaves-split horizontal (leaf s) (leaf t) half, leaves-leaf R s, leaves-leaf R t)
  leaves-placed_at right s t =
      ground (arith, leaves-split vertical (leaf t) (leaf s) half, leaves-leaf R s, leaves-leaf R t)
  leaves-placed_at bottom s t =
      ground
        (arith, leaves-split horizontal (leaf t) (leaf s) half, leaves-leaf R s, leaves-leaf R t)
  leaves-placed_at left s t =
      ground (arith, leaves-split vertical (leaf s) (leaf t) half, leaves-leaf R s, leaves-leaf R t)

  -- Both panes are there: the removal succeeds and leaves the target in the tree.
  target_stays :
      (l : Layout R) (source target : ℕ)
      → (source == target) ≡ false
      → contains source (leaves l) ≡ true
      → contains target (leaves l) ≡ true
      → ((remove_leaf l source).1 ≡ true)
        × (contains target (leaves (remove_leaf l source).0) ≡ true)
  target_stays l source target ne hs ht = ground (
    arith,
    remove_leaf-found l source,
    is_leaf-leaves l source,
    count-remove_leaf l source target,
    count_pos target (leaves l),
    contains_of_count target (leaves (remove_leaf l source).0),
  )

  -- `reparent` succeeds exactly if the two panes are different and both in the tree, so the rollback
  -- is never taken; when it fails the tree is as it was.
  pub reparent-succeeds :
      (l : Layout R) (source target : ℕ) (edge : Edge)
      → ((reparent half l source target edge).1
          ≡ (not (source == target) && (contains source (leaves l) && contains target (leaves l))))
        × ((reparent half l source target edge).0 ≡ (
            if (reparent half l source target edge).1
            then (reparent half l source target edge).0
            else l))
  unfolding reparent
  reparent-succeeds l source target edge =
      let removed = (remove_leaf l source).0 in
      let f = λ (t : ℕ). placed_at half edge source t in
      ground (arith, target_stays l source target, leaves-replace_leaf removed target f)

  -- `reparent` neither loses nor duplicates a pane, whatever it returns.
  pub count-reparent :
      (l : Layout R) (source target : ℕ) (edge : Edge) (x : ℕ)
      → count x (leaves (reparent half l source target edge).0) ≡ count x (leaves l)
  unfolding reparent
  count-reparent l source target edge x =
      let removed = (remove_leaf l source).0 in
      let f = λ (t : ℕ). placed_at half edge source t in
      ground (
        arith,
        target_stays l source target,
        leaves-replace_leaf removed target f,
        leaves-placed_at edge source target,
        count-splice x target (dropped edge source target) (leaves removed),
        count-dropped x edge source target,
        count-remove_leaf l source x,
      )

  -- In a tree that shows each pane once, a successful `reparent` takes the source out of its place
  -- and puts it just before (top, left) or just after (bottom, right) the target; all other panes
  -- keep their order.
  pub leaves-reparent :
      (l : Layout R) (source target : ℕ) (edge : Edge)
      → Distinct (leaves l)
      → (reparent half l source target edge).1 ≡ true
      → leaves (reparent half l source target edge).0
        ≡ splice target (dropped edge source target) (without source (leaves l))
  unfolding reparent
  leaves-reparent l source target edge d h =
      let removed = (remove_leaf l source).0 in
      let f = λ (t : ℕ). placed_at half edge source t in
      ground (
        arith,
        target_stays l source target,
        leaves-replace_leaf removed target f,
        leaves-placed_at edge source target,
        leaves-remove_leaf l source d,
      )
