-- ===== src/Prelude/Sorting.antt =====
-- `slice::sort_by`, a stable sort: insertion from the right, with an element put before its equals.
use Prim.Native.Nat.{ℕ, suc, ◌+◌}
use mathlib.Core.Path.{◌≡◌, refl, ap, ◌∙◌}
use mathlib.Core.Bool.{Bool, true, false}
use mathlib.Core.List.{List, [], ◌∷◌, ◌++◌}
use native.Mathlib.Omega.{arith}
use lmux.Prelude.Tests.{if◌then◌else◌, Bool-cases}
use mathlib.Core.Logic.{inl, inr}
use lmux.Prelude.Lists.{All}

module _ {ℓ} {A : Type ℓ} where
  -- How many elements pass a test.
  abbrev pub tally : (A → Bool) → List A → ℕ
  tally p [] = 0
  tally p (x ∷ xs) = let rest = tally p xs in if p x then suc rest else rest

  pub tally-append : (p : A → Bool) (xs ys : List A) → tally p (xs ++ ys) ≡ tally p xs + tally p ys
  tally-append p [] ys = omega arith
  tally-append p (x ∷ xs) ys = ground (arith, tally-append p xs ys)

module _ {ℓ} {A : Type ℓ} (le : A → A → Bool) where
  unfoldable pub insert_by : A → List A → List A
  insert_by x [] = x ∷ []
  insert_by x (y ∷ ys) = let rest = y ∷ insert_by x ys in if le x y then x ∷ y ∷ ys else rest

  unfoldable pub sort_by : List A → List A
  unfolding insert_by
  sort_by [] = []
  sort_by (x ∷ xs) = insert_by x (sort_by xs)

  -- Each element is related to all that follow it.
  abbrev pub Sorted : List A → Type 0
  Sorted [] = Unit
  Sorted (x ∷ xs) = All (λ y. le x y ≡ true) xs × Sorted xs

  All-insert_by {κ} :
      (P : A → Type κ) (x : A) (xs : List A) → P x → All P xs → All P (insert_by x xs)
  unfolding insert_by
  All-insert_by P x [] h hs = (h, tt)
  All-insert_by P x (y ∷ ys) h hs = elim (Bool-cases (le x y)) [
    | inl e ↦ rw e (h, hs)
    | inr e ↦ rw e (hs.0, All-insert_by P x ys h hs.1)
  ]

  pub All-sort_by {κ} : (P : A → Type κ) (xs : List A) → All P xs → All P (sort_by xs)
  unfolding sort_by
  All-sort_by P [] h = tt
  All-sort_by P (x ∷ xs) h = All-insert_by P x (sort_by xs) h.0 (All-sort_by P xs h.1)

  All-le :
      ((a b c : A) → le a b ≡ true → le b c ≡ true → le a c ≡ true)
      → (x y : A) (ys : List A) → le x y ≡ true
      → All (λ z. le y z ≡ true) ys
      → All (λ z. le x z ≡ true) ys
  All-le trans x y [] h hs = tt
  All-le trans x y (z ∷ zs) h hs = (trans x y z h hs.0, All-le trans x y zs h hs.1)

  -- The order: any two elements are comparable, and it is transitive.
  pub record IsOrder : Type ℓ where
    pub total : (a b : A) → le a b ≡ false → le b a ≡ true
    pub trans : (a b c : A) → le a b ≡ true → le b c ≡ true → le a c ≡ true

  Sorted-insert_by : IsOrder → (x : A) (xs : List A) → Sorted xs → Sorted (insert_by x xs)
  unfolding insert_by
  Sorted-insert_by o x [] s = (tt, tt)
  Sorted-insert_by o x (y ∷ ys) s = elim (Bool-cases (le x y)) [
    | inl e ↦ rw e ((e, All-le o.trans x y ys e s.0), s)
    | inr e ↦
        rw e
          (All-insert_by (λ z. le y z ≡ true) x ys (o.total x y e) s.0, Sorted-insert_by o x ys s.1)
  ]

  pub Sorted-sort_by : IsOrder → (xs : List A) → Sorted (sort_by xs)
  unfolding sort_by
  Sorted-sort_by o [] = tt
  Sorted-sort_by o (x ∷ xs) = Sorted-insert_by o x (sort_by xs) (Sorted-sort_by o xs)

  -- Sorting an ordered list changes nothing.
  insert_by_front : (x : A) (xs : List A) → All (λ y. le x y ≡ true) xs → insert_by x xs ≡ x ∷ xs
  unfolding insert_by
  insert_by_front x [] h = refl
  insert_by_front x (y ∷ ys) h = rw (h.0)

  pub sort_by_id : (xs : List A) → Sorted xs → sort_by xs ≡ xs
  unfolding sort_by
  sort_by_id [] s = refl
  sort_by_id (x ∷ xs) s = ap (insert_by x) (sort_by_id xs s.1) ∙ insert_by_front x xs s.0

  tally-insert_by :
      (p : A → Bool) (x : A) (xs : List A) → tally p (insert_by x xs) ≡ tally p (x ∷ xs)
  unfolding insert_by
  tally-insert_by p x [] = refl
  tally-insert_by p x (y ∷ ys) = ground (arith, tally-insert_by p x ys)

  -- Sorting keeps the elements, as often as they stand.
  pub tally-sort_by : (p : A → Bool) (xs : List A) → tally p (sort_by xs) ≡ tally p xs
  unfolding sort_by
  tally-sort_by p [] = refl
  tally-sort_by p (x ∷ xs) = ground (arith, tally-insert_by p x (sort_by xs), tally-sort_by p xs)
