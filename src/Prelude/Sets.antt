-- ===== src/Prelude/Sets.antt =====
-- A `BTreeSet` of numbers as an ascending list.
use mathlib.Core.Path.{◌≡◌}
use mathlib.Core.Bool.{◌||◌}
use mathlib.Core.List.{List, [], ◌∷◌}
use Prim.Native.Nat.{ℕ}
use native.Mathlib.Omega.{arith}
use lmux.Prelude.Tests.{if◌then◌else◌, ltb}
use lmux.Prelude.Equality.{◌==◌, nat_eq, contains}

unfoldable pub set_insert : ℕ → List ℕ → List ℕ
set_insert a [] = a ∷ []
set_insert a (x ∷ xs) =
    let rest = set_insert a xs in
    if a == x then x ∷ xs else if ltb a x then a ∷ x ∷ xs else x ∷ rest

pub contains-set_insert :
    (a b : ℕ) (xs : List ℕ) → contains b (set_insert a xs) ≡ (a == b || contains b xs)
unfolding set_insert
contains-set_insert a b [] = ground arith
contains-set_insert a b (x ∷ xs) = ground (arith, nat_eq.beq_iff a x, contains-set_insert a b xs)
