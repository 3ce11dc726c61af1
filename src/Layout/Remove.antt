-- ===== src/Layout/Remove.antt =====
-- What `remove_leaf` does to the panes, and the loop over the satellites of a snapshot.
use mathlib.Core.List.{append-nil}
use lmux.Prelude.{
  ℕ, ◌+◌, ◌≤◌, true, false, not, ◌&&◌, List, [], ◌∷◌, ◌==◌, nat_eq, ◌≡◌, refl, arith, contains,
  contains-append, count, count-append, count-le_one, Distinct, without, without-append, without_id,
  ap, sym, ◌∙◌, count_pos, retain, Distinct-without, contains-without,
}
use lmux.Layout.{
  Dir, Layout, leaf, split, leaves, is_leaf, remove_leaf_in, remove_leaf, strip_satellites,
}
use lmux.Layout.Leaves.{leaves-leaf, leaves-split}

module _ {R : Type 0} where
  pub is_leaf-leaves : (l : Layout R) (t : ℕ) → is_leaf l t ≡ true → leaves l ≡ t ∷ []
  is_leaf-leaves (leaf id) t h = ground (arith, leaves-leaf R id)
  is_leaf-leaves (split dir a b ratio) t h = cc

  remove_leaf_in-found :
      (l : Layout R) (t : ℕ) → (remove_leaf_in l t).1 ≡ (contains t (leaves l) && not (is_leaf l t))
  unfolding remove_leaf_in
  remove_leaf_in-found (leaf id) t = ground (arith, leaves-leaf R id)
  remove_leaf_in-found (split dir a b ratio) t = ground (
    arith,
    leaves-split dir a b ratio,
    contains-append t (leaves a) (leaves b),
    is_leaf-leaves a t,
    is_leaf-leaves b t,
    remove_leaf_in-found a t,
    remove_leaf_in-found b t,
  )

  remove_leaf_in-same :
      (l : Layout R) (t : ℕ) → (remove_leaf_in l t).1 ≡ false → (remove_leaf_in l t).0 ≡ l
  unfolding remove_leaf_in
  remove_leaf_in-same (leaf id) t h = refl
  remove_leaf_in-same (split dir a b ratio) t h =
      ground (arith, remove_leaf_in-same a t, remove_leaf_in-same b t)

  remove_leaf_in-count :
      (l : Layout R) (t x : ℕ)
      → (remove_leaf_in l t).1 ≡ true
      → count x (leaves l) ≡ count x (leaves (remove_leaf_in l t).0) + count x (t ∷ [])
  unfolding remove_leaf_in
  remove_leaf_in-count (leaf id) t x h = cc
  remove_leaf_in-count (split dir a b ratio) t x h =
      let r = remove_leaf_in a t in
      let s = remove_leaf_in b t in
      ground (
        arith,
        leaves-split dir a b ratio,
        leaves-split dir r.0 b ratio,
        leaves-split dir r.0 s.0 ratio,
        count-append x (leaves a) (leaves b),
        count-append x (leaves r.0) (leaves b),
        count-append x (leaves r.0) (leaves s.0),
        is_leaf-leaves a t,
        is_leaf-leaves b t,
        remove_leaf_in-same a t,
        remove_leaf_in-count a t x,
        remove_leaf_in-count b t x,
      )

  -- `remove_leaf` succeeds exactly where the target is a leaf below the root, and leaves the tree
  -- as it was otherwise.
  pub remove_leaf-found :
      (l : Layout R) (t : ℕ)
      → ((remove_leaf l t).1 ≡ (contains t (leaves l) && not (is_leaf l t)))
        × ((remove_leaf l t).1 ≡ false → (remove_leaf l t).0 ≡ l)
  unfolding remove_leaf
  remove_leaf-found l t = ground (arith, remove_leaf_in-found l t, remove_leaf_in-same l t)

  -- A successful `remove_leaf` takes one occurrence of the target out, and no other pane.
  pub count-remove_leaf :
      (l : Layout R) (t x : ℕ)
      → (remove_leaf l t).1 ≡ true
      → count x (leaves l) ≡ count x (leaves (remove_leaf l t).0) + count x (t ∷ [])
  unfolding remove_leaf
  count-remove_leaf l t x h = ground (arith, remove_leaf_in-count l t x)

  below_left :
      (dir : Dir) (a b : Layout R) (ratio : R)
      → ((x : ℕ) → count x (leaves (split dir a b ratio)) ≤ 1)
      → (x : ℕ) → count x (leaves a) ≤ 1
  below_left dir a b ratio d x =
      ground (arith, leaves-split dir a b ratio, count-append x (leaves a) (leaves b), d x)

  below_right :
      (dir : Dir) (a b : Layout R) (ratio : R)
      → ((x : ℕ) → count x (leaves (split dir a b ratio)) ≤ 1)
      → (x : ℕ) → count x (leaves b) ≤ 1
  below_right dir a b ratio d x =
      ground (arith, leaves-split dir a b ratio, count-append x (leaves a) (leaves b), d x)

  remove_leaf_in-leaves :
      (l : Layout R) (t : ℕ)
      → ((x : ℕ) → count x (leaves l) ≤ 1)
      → (remove_leaf_in l t).1 ≡ true
      → leaves (remove_leaf_in l t).0 ≡ without t (leaves l)
  unfolding remove_leaf_in
  remove_leaf_in-leaves (leaf id) t d h = cc
  remove_leaf_in-leaves (split dir a b ratio) t d h =
      let r = remove_leaf_in a t in
      let s = remove_leaf_in b t in
      ground (
        arith,
        leaves-split dir a b ratio,
        leaves-split dir r.0 b ratio,
        leaves-split dir r.0 s.0 ratio,
        without-append t (leaves a) (leaves b),
        count-append t (leaves a) (leaves b),
        count_pos t (leaves a),
        count_pos t (leaves b),
        without_id t (leaves a),
        without_id t (leaves b),
        append-nil (leaves a),
        d t,
        is_leaf-leaves a t,
        is_leaf-leaves b t,
        remove_leaf_in-same a t,
        remove_leaf_in-found a t,
        remove_leaf_in-found b t,
        remove_leaf_in-leaves a t (below_left dir a b ratio d),
        remove_leaf_in-leaves b t (below_right dir a b ratio d),
      )

  -- Of a tree that shows each pane once, a successful `remove_leaf` leaves the other panes in their
  -- order.
  pub leaves-remove_leaf :
      (l : Layout R) (t : ℕ)
      → Distinct (leaves l)
      → (remove_leaf l t).1 ≡ true
      → leaves (remove_leaf l t).0 ≡ without t (leaves l)
  unfolding remove_leaf
  leaves-remove_leaf l t d h = ground (arith, remove_leaf_in-leaves l t (count-le_one (leaves l) d))

-- The panes of `xs` that are not among `ids`.
abbrev pub others : List ℕ → List ℕ → List ℕ
others ids xs = retain (λ x. not (contains x ids)) xs

others-without : (id : ℕ) (ids xs : List ℕ) → others ids (without id xs) ≡ others (id ∷ ids) xs
others-without id ids [] = refl
others-without id ids (x ∷ xs) = ground (arith, others-without id ids xs)

others_nil : (xs : List ℕ) → others [] xs ≡ xs
others_nil [] = refl
others_nil (x ∷ xs) = ap (λ ys. x ∷ ys) (others_nil xs)

module _ {R : Type 0} where
  -- One round of the loop, in a tree with a pane `p` that stays.
  strip_step :
      (l : Layout R) (id p : ℕ)
      → Distinct (leaves l)
      → contains p (leaves l) ≡ true
      → (id == p) ≡ false
      → leaves (remove_leaf l id).0 ≡ without id (leaves l)
  strip_step l id p d here other = ground (
    arith,
    remove_leaf-found l id,
    is_leaf-leaves l id,
    leaves-remove_leaf l id d,
    without_id id (leaves l),
  )

  -- The saved tree of a layout that shows each pane once, and shows a pane `p` that is no satellite:
  -- it shows exactly the panes that are no satellites, in their order, whatever the order in which
  -- the satellites are taken out.
  pub leaves-strip_satellites :
      (l : Layout R) (ids : List ℕ) (p : ℕ)
      → Distinct (leaves l)
      → contains p (leaves l) ≡ true
      → contains p ids ≡ false
      → leaves (strip_satellites l ids) ≡ others ids (leaves l)
  unfolding strip_satellites
  leaves-strip_satellites l [] p d here away = sym (others_nil (leaves l))
  leaves-strip_satellites l (id ∷ ids) p d here away =
      let next = (remove_leaf l id).0 in
      let step : leaves next ≡ without id (leaves l) = strip_step l id p d here (ground arith) in
      let ih =
        leaves-strip_satellites next ids p (rw step (Distinct-without id (leaves l) d))
          (rw step (ground (arith, contains-without id p (leaves l)))) (ground arith) in
      ih ∙ ap (others ids) step ∙ others-without id ids (leaves l)
