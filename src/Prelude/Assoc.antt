-- ===== src/Prelude/Assoc.antt =====
-- `HashMap` and `BTreeMap` as association lists. No theorem assumes an order of the entries.
use mathlib.Core.Path.{◌≡◌, refl}
use mathlib.Core.Bool.{Bool, true}
use mathlib.Core.Option.{Option, none, some}
use mathlib.Core.List.{List, [], ◌∷◌, ◌++◌}
use native.Mathlib.Omega.{arith}
use lmux.Prelude.Tests.{if◌then◌else◌, is_some}
use lmux.Prelude.Equality.{Eq, ◌==◌, contains}

abbrev pub keep_some {κ} : {V : Type κ} → (V → Bool) → Option V → Option V
keep_some p none = none
keep_some p (some v) = if p v then some v else none

abbrev pub map_some {κ} : {V : Type κ} → (V → V) → Option V → Option V
map_some f none = none
map_some f (some v) = some (f v)

module _ {ℓ κ} {K : Type ℓ} {V : Type κ} ⦃e : Eq K⦄ where
  abbrev pub lookup : K → List (K × V) → Option V
  lookup k [] = none
  lookup k ((j, v) ∷ m) = if j == k then some v else lookup k m

  abbrev pub insert : K → V → List (K × V) → List (K × V)
  insert k v [] = (k, v) ∷ []
  insert k v ((j, w) ∷ m) = if j == k then (k, v) ∷ m else (j, w) ∷ insert k v m

  -- Drops each entry under the key.
  abbrev pub erase : K → List (K × V) → List (K × V)
  erase k [] = []
  erase k ((j, w) ∷ m) = let rest = erase k m in if j == k then rest else (j, w) ∷ rest

  pub lookup-insert :
      (k j : K) (v : V) (m : List (K × V))
      → lookup j (insert k v m) ≡ (if k == j then some v else lookup j m)
  lookup-insert k j v [] = refl
  lookup-insert k j v ((i, w) ∷ m) =
      ground (arith, e.beq_iff k j, e.beq_iff i k, e.beq_iff i j, lookup-insert k j v m)

  pub lookup-erase :
      (k j : K) (m : List (K × V)) → lookup j (erase k m) ≡ (if k == j then none else lookup j m)
  lookup-erase k j [] = ground arith
  lookup-erase k j ((i, w) ∷ m) =
      ground (arith, e.beq_iff k j, e.beq_iff i k, e.beq_iff i j, lookup-erase k j m)

  abbrev pub keys : List (K × V) → List K
  keys [] = []
  keys ((j, w) ∷ m) = j ∷ keys m

  pub contains_of_lookup :
      (k : K) (m : List (K × V)) (v : V) → lookup k m ≡ some v → contains k (keys m) ≡ true
  contains_of_lookup k [] v h = cc
  contains_of_lookup k ((j, w) ∷ m) v h = ground (arith, contains_of_lookup k m v)

  pub keys-insert :
      (k : K) (v : V) (m : List (K × V))
      → keys (insert k v m) ≡ (if contains k (keys m) then keys m else keys m ++ k ∷ [])
  keys-insert k v [] = refl
  keys-insert k v ((j, w) ∷ m) = ground (arith, e.beq_iff j k, keys-insert k v m)

  abbrev pub contains_key : K → List (K × V) → Bool
  contains_key k m = is_some (lookup k m)

  -- `HashMap::retain`. A key that goes is erased, so that a second entry under it does not show.
  unfoldable pub retain_map : (K → V → Bool) → List (K × V) → List (K × V)
  retain_map p [] = []
  retain_map p ((k, v) ∷ m) =
      let rest = retain_map p m in if p k v then (k, v) ∷ rest else erase k rest

  pub lookup-retain_map :
      (p : K → V → Bool) (j : K) (m : List (K × V))
      → lookup j (retain_map p m) ≡ keep_some (p j) (lookup j m)
  unfolding retain_map
  lookup-retain_map p j [] = refl
  lookup-retain_map p j ((k, v) ∷ m) =
      ground (arith, e.beq_iff k j, lookup-erase k j (retain_map p m), lookup-retain_map p j m)

  -- A change of each value, by `values_mut` or `iter_mut`.
  unfoldable pub map_values : (K → V → V) → List (K × V) → List (K × V)
  map_values f [] = []
  map_values f ((k, v) ∷ m) = (k, f k v) ∷ map_values f m

  pub lookup-map_values :
      (f : K → V → V) (j : K) (m : List (K × V))
      → lookup j (map_values f m) ≡ map_some (f j) (lookup j m)
  unfolding map_values
  lookup-map_values f j [] = refl
  lookup-map_values f j ((k, v) ∷ m) = ground (arith, e.beq_iff k j, lookup-map_values f j m)
