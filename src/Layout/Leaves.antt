-- ===== src/Layout/Leaves.antt =====
-- The in-order traversal `leaves`, and the splice that `replace_leaf` makes.
use lmux.Prelude.{
  ℕ, Bool, false, Option, none, some, List, [], ◌∷◌, ◌++◌, ◌==◌, nat_eq, ◌≡◌, refl, arith,
  if◌then◌else◌, contains, contains-append,
}
use mathlib.Core.List.{append_assoc, append-nil}
use lmux.Layout.{Layout, leaf, split, collect_leaves, leaves, replace_leaf_with, replace_leaf}

module _ {R : Type 0} where
  collect_leaves-append :
      (l : Layout R) (out : List ℕ) → collect_leaves l out ≡ out ++ collect_leaves l []
  unfolding collect_leaves
  collect_leaves-append (leaf id) out = refl
  collect_leaves-append (split dir a b ratio) out = cc (
    collect_leaves-append b (collect_leaves a out),
    collect_leaves-append a out,
    collect_leaves-append b (collect_leaves a []),
    append_assoc out (collect_leaves a []) (collect_leaves b []),
  )

  -- The left or top child's panes come first.
  pub leaves-split :
      (dir : _) (a b : Layout R) (ratio : R) → leaves (split dir a b ratio) ≡ leaves a ++ leaves b
  unfolding leaves collect_leaves
  leaves-split dir a b ratio = collect_leaves-append b (collect_leaves a [])

pub leaves-leaf : (R : Type 0) (id : ℕ) → leaves {R = R} (leaf id) ≡ id ∷ []
unfolding leaves collect_leaves
leaves-leaf R id = refl

-- The first `target` of a list gives way to `new`.
abbrev pub splice : ℕ → List ℕ → List ℕ → List ℕ
splice target new [] = []
splice target new (x ∷ xs) = if x == target then new ++ xs else x ∷ splice target new xs

pub splice-append :
    (target : ℕ) (new xs ys : List ℕ)
    → splice target new (xs ++ ys)
      ≡ (if contains target xs then splice target new xs ++ ys else xs ++ splice target new ys)
splice-append target new [] ys = refl
splice-append target new (x ∷ xs) ys =
    ground (arith, splice-append target new xs ys, append_assoc new xs ys)

pub splice_id :
    (target : ℕ) (new xs : List ℕ) → contains target xs ≡ false → splice target new xs ≡ xs
splice_id target new [] h = refl
splice_id target new (x ∷ xs) h = ground (arith, splice_id target new xs)

module _ {R : Type 0} where
  abbrev Replaced : Layout R → ℕ → (ℕ → Layout R) → Layout R × Option (ℕ → Layout R) × Bool → Type 0
  Replaced l target f r =
      (r.2 ≡ contains target (leaves l))
      × (r.1 ≡ (if contains target (leaves l) then none else some f))
      × (leaves r.0 ≡ splice target (leaves (f target)) (leaves l))

  replace_leaf_with_lem :
      (l : Layout R) (target : ℕ) (f : ℕ → Layout R)
      → Replaced l target f (replace_leaf_with l target (some f))
  unfolding replace_leaf_with
  replace_leaf_with_lem (leaf id) target f =
      ground (arith, leaves-leaf R id, append-nil (leaves (f target)))
  replace_leaf_with_lem (split dir a b ratio) target f =
      let r = replace_leaf_with a target (some f) in
      let s = replace_leaf_with b target (some f) in
      ground (
        arith,
        leaves-split dir a b ratio,
        leaves-split dir r.0 b ratio,
        leaves-split dir r.0 s.0 ratio,
        contains-append target (leaves a) (leaves b),
        splice-append target (leaves (f target)) (leaves a) (leaves b),
        splice_id target (leaves (f target)) (leaves a),
        replace_leaf_with_lem a target f,
        replace_leaf_with_lem b target f,
      )

  -- `replace_leaf` returns whether the target stands in the tree, and puts the panes of `f target`
  -- in the place of its first occurrence, all others keeping their order.
  pub leaves-replace_leaf :
      (l : Layout R) (target : ℕ) (f : ℕ → Layout R)
      → ((replace_leaf l target f).1 ≡ contains target (leaves l))
        × (leaves (replace_leaf l target f).0 ≡ splice target (leaves (f target)) (leaves l))
  unfolding replace_leaf
  leaves-replace_leaf l target f = let h = replace_leaf_with_lem l target f in (h.0, h.2)
