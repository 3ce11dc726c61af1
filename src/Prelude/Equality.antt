-- ===== src/Prelude/Equality.antt =====
-- `PartialEq` as an interface: a Boolean test and its law, with the instances that the program uses.
use Prim.Native.Nat.{ℕ, suc, ◌+◌, ◌≤◌, ◌<◌}
use mathlib.Core.Path.{◌≡◌, refl}
use mathlib.Core.Logic.{◌↔◌, inl, inr}
use mathlib.Core.Bool.{Bool, true, false, ◌&&◌, ◌||◌}
use mathlib.Core.Option.{Option, none, some}
use mathlib.Core.List.{List, [], ◌∷◌, ◌++◌}
use native.Mathlib.Omega.{arith}
use lmux.Prelude.Tests.{nat_beq, nat_beq_iff, if◌then◌else◌, Bool-cases}

pub record Eq {ℓ} (T : Type ℓ) : Type ℓ where
  pub beq : T → T → Bool
  pub beq_iff : (x y : T) → (beq x y ≡ true) ↔ (x ≡ y)

infix 50 ◌==◌
abbrev pub ◌==◌ {ℓ} : {A : Type ℓ} ⦃e : Eq A⦄ → A → A → Bool
◌==◌ ⦃e⦄ = e.beq

pub beq_self {ℓ} : {A : Type ℓ} ⦃e : Eq A⦄ (a : A) → (a == a) ≡ true
beq_self ⦃e⦄ a = (e.beq_iff a a).1 refl

instance abbrev pub nat_eq : Eq ℕ
nat_eq = record { beq = nat_beq; beq_iff = nat_beq_iff }

module _ {ℓ} {A : Type ℓ} ⦃e : Eq A⦄ where
  abbrev pub list_beq : List A → List A → Bool
  list_beq [] [] = true
  list_beq [] (y ∷ ys) = false
  list_beq (x ∷ xs) [] = false
  list_beq (x ∷ xs) (y ∷ ys) = x == y && list_beq xs ys

  pub list_beq_iff : (xs ys : List A) → (list_beq xs ys ≡ true) ↔ (xs ≡ ys)
  list_beq_iff [] [] = ground arith
  list_beq_iff [] (y ∷ ys) = ground arith
  list_beq_iff (x ∷ xs) [] = ground arith
  list_beq_iff (x ∷ xs) (y ∷ ys) = ground (arith, e.beq_iff x y, list_beq_iff xs ys)

  instance abbrev pub list_eq : Eq (List A)
  list_eq = record { beq = list_beq; beq_iff = list_beq_iff }

  abbrev pub option_beq : Option A → Option A → Bool
  option_beq none none = true
  option_beq none (some y) = false
  option_beq (some x) none = false
  option_beq (some x) (some y) = x == y

  pub option_beq_iff : (x y : Option A) → (option_beq x y ≡ true) ↔ (x ≡ y)
  option_beq_iff none none = ground arith
  option_beq_iff none (some y) = ground arith
  option_beq_iff (some x) none = ground arith
  option_beq_iff (some x) (some y) = ground (arith, e.beq_iff x y)

  instance abbrev pub option_eq : Eq (Option A)
  option_eq = record { beq = option_beq; beq_iff = option_beq_iff }

  -- `slice::contains`.
  abbrev pub contains : A → List A → Bool
  contains a [] = false
  contains a (x ∷ xs) = x == a || contains a xs

-- Text as its code points.
abbrev pub Text : Type 0
Text = List ℕ

-- No element stands twice.
abbrev pub Distinct {ℓ} : {A : Type ℓ} ⦃e : Eq A⦄ → List A → Type 0
Distinct [] = Unit
Distinct (x ∷ xs) = (contains x xs ≡ false) × Distinct xs

module _ {ℓ} {A : Type ℓ} ⦃e : Eq A⦄ where
  -- How often a value stands in a list.
  abbrev pub count : A → List A → ℕ
  count a [] = 0
  count a (x ∷ xs) = let rest = count a xs in if x == a then suc rest else rest

  pub count-append : (a : A) (xs ys : List A) → count a (xs ++ ys) ≡ count a xs + count a ys
  count-append a [] ys = omega arith
  count-append a (x ∷ xs) ys = ground (arith, count-append a xs ys)

  pub contains-append :
      (a : A) (xs ys : List A) → contains a (xs ++ ys) ≡ (contains a xs || contains a ys)
  contains-append a [] ys = refl
  contains-append a (x ∷ xs) ys = ground (arith, contains-append a xs ys)

  pub count_zero : (a : A) (xs : List A) → contains a xs ≡ false → count a xs ≡ 0
  count_zero a [] h = refl
  count_zero a (x ∷ xs) h = ground (arith, count_zero a xs)

  pub count_pos : (a : A) (xs : List A) → contains a xs ≡ true → 0 < count a xs
  count_pos a [] h = cc
  count_pos a (x ∷ xs) h = ground (arith, count_pos a xs)

  pub contains_of_count : (a : A) (xs : List A) → 0 < count a xs → contains a xs ≡ true
  contains_of_count a [] h = elim h [ ]
  contains_of_count a (x ∷ xs) h = ground (arith, contains_of_count a xs)

  -- A list is duplicate-free exactly if no value stands twice.
  pub count-le_one : (xs : List A) → Distinct xs → (a : A) → count a xs ≤ 1
  count-le_one [] d a = omega arith
  count-le_one (x ∷ xs) d a =
      ground (arith, e.beq_iff x a, count_zero x xs, count_zero a xs, count-le_one xs d.1 a)

  pub Distinct-of_count : (xs : List A) → ((a : A) → count a xs ≤ 1) → Distinct xs
  Distinct-of_count [] h = tt
  Distinct-of_count (x ∷ xs) h = (
    elim (Bool-cases (contains x xs)) [
      | inl twice ↦ absurd (ground (arith, h x, count_pos x xs, beq_self x))
      | inr once ↦ once
    ],
    Distinct-of_count xs (λ a. ground (arith, h a)),
  )

  abbrev pub without : A → List A → List A
  without a [] = []
  without a (x ∷ xs) = let rest = without a xs in if x == a then rest else x ∷ rest

  pub without-append :
      (a : A) (xs ys : List A) → without a (xs ++ ys) ≡ without a xs ++ without a ys
  without-append a [] ys = refl
  without-append a (x ∷ xs) ys = ground (arith, without-append a xs ys)

  pub without_id : (a : A) (xs : List A) → contains a xs ≡ false → without a xs ≡ xs
  without_id a [] h = refl
  without_id a (x ∷ xs) h = ground (arith, without_id a xs)

  pub contains-without :
      (a b : A) (xs : List A)
      → contains b (without a xs) ≡ (if b == a then false else contains b xs)
  contains-without a b [] = ground arith
  contains-without a b (x ∷ xs) =
      ground (arith, e.beq_iff x a, e.beq_iff x b, e.beq_iff b a, contains-without a b xs)

  pub Distinct-without : (a : A) (xs : List A) → Distinct xs → Distinct (without a xs)
  Distinct-without a [] d = tt
  Distinct-without a (x ∷ xs) d = elim (Bool-cases (x == a)) [
    | inl same ↦ rw same (Distinct-without a xs d.1)
    | inr other ↦ rw other (ground (arith, contains-without a x xs), Distinct-without a xs d.1)
  ]
