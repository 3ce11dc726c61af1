-- ===== src/Anchors/Sidebar/Precedence.antt =====
-- The order of the sidebar in words, apart from the comparisons of
-- crates/lmux-anchor/src/registry.rs: what stands before what, as relations.
use lmux.Prelude.{
  ◌<◌, true, Bool, Option, none, some, List, [], ◌∷◌, ◌≡◌, ◌⊎◌, inl, inr, refl, arith, Text,
  unwrap_or, ℤ, pos, negsuc, lebℤ, ltb, Bool-cases, All, Sorted,
}
use lmux.Anchors.{Anchor, display_label}
use lmux.Anchors.Sidebar.{Bucket, text_le, key_of, anchor_le, bucket_le}

-- A text is equal to another or before it: at the first difference it ends or has the smaller
-- character.
abbrev AtMost : Text → Text → Type 0
AtMost [] t = Unit
AtMost (c ∷ s) [] = ⊥
AtMost (c ∷ s) (d ∷ t) = (c < d) ⊎ ((c ≡ d) × AtMost s t)

-- The order of the integers.
abbrev Smaller : ℤ → ℤ → Type 0
Smaller (pos a) (pos b) = a < b
Smaller (pos a) (negsuc b) = ⊥
Smaller (negsuc a) (pos b) = Unit
Smaller (negsuc a) (negsuc b) = b < a

-- The key that the user gave, or 0.
abbrev key_or_zero : Option ℤ → ℤ
key_or_zero none = pos 0
key_or_zero (some k) = k

abbrev given_key : Anchor → ℤ
given_key a = key_or_zero a.sort_key

-- The smaller key is first, and under equal keys the label that is first.
abbrev pub Before : Anchor → Anchor → Type 0
Before a b =
    Smaller (given_key a) (given_key b)
    ⊎ ((given_key a ≡ given_key b) × AtMost (display_label a) (display_label b))

-- Names in order, and whatever has no group last.
abbrev pub GroupBefore : Option Text → Option Text → Type 0
GroupBefore (some x) (some y) = AtMost x y
GroupBefore x none = Unit
GroupBefore none (some y) = ⊥

-- Each element is before all that follow it.
abbrev pub InOrder : {A : Type 0} → (A → A → Type 0) → List A → Type 0
InOrder R [] = Unit
InOrder R (x ∷ xs) = All (R x) xs × InOrder R xs

text_le-AtMost : (s t : Text) → text_le s t ≡ true → AtMost s t
text_le-AtMost [] t h = tt
text_le-AtMost (c ∷ s) [] h = absurd cc
text_le-AtMost (c ∷ s) (d ∷ t) h = elim (Bool-cases (ltb c d)) [
  | inl e ↦ inl (ground arith)
  | inr e ↦ inr (ground arith, text_le-AtMost s t (ground arith))
]

lebℤ-Smaller : (x y : ℤ) → lebℤ x y ≡ true → Smaller x y ⊎ (x ≡ y)
lebℤ-Smaller (pos a) (pos b) h = elim (Bool-cases (ltb a b)) [
  | inl e ↦ inl (ground arith)
  | inr e ↦ inr (ground arith)
]
lebℤ-Smaller (pos a) (negsuc b) h = absurd cc
lebℤ-Smaller (negsuc a) (pos b) h = inl tt
lebℤ-Smaller (negsuc a) (negsuc b) h = elim (Bool-cases (ltb b a)) [
  | inl e ↦ inl (ground arith)
  | inr e ↦ inr (ground arith)
]

lebℤ-refl : (x : ℤ) → lebℤ x x ≡ true
lebℤ-refl x = ground arith

unwrap_or_zero : (k : Option ℤ) → unwrap_or k (pos 0) ≡ key_or_zero k
unwrap_or_zero none = refl
unwrap_or_zero (some k) = refl

key_of_lem : (a : Anchor) → key_of a ≡ given_key a
key_of_lem a = unwrap_or_zero a.sort_key

pub anchor_le-Before : (a b : Anchor) → anchor_le a b ≡ true → Before a b
unfolding anchor_le
anchor_le-Before a b h =
    let x = key_of_lem a in
    let y = key_of_lem b in
    elim (lebℤ-Smaller (given_key a) (given_key b) (ground arith)) [
      | inl e ↦ inl e
      | inr e ↦ inr (
        e,
        text_le-AtMost (display_label a) (display_label b)
            (ground (arith, lebℤ-refl (given_key b))),
      )
    ]

pub bucket_le-GroupBefore : (a b : Bucket) → bucket_le a b ≡ true → GroupBefore a.0 b.0
bucket_le-GroupBefore (some x, s) (some y, t) h = text_le-AtMost x y h
bucket_le-GroupBefore (some x, s) (none, t) h = tt
bucket_le-GroupBefore (none, s) (some y, t) h = absurd cc
bucket_le-GroupBefore (none, s) (none, t) h = tt

module _ {A : Type 0} (le : A → A → Bool) (R : A → A → Type 0) where
  All-InOrder :
      ((a b : A) → le a b ≡ true → R a b)
      → (x : A) (xs : List A) → All (λ y. le x y ≡ true) xs
      → All (R x) xs
  All-InOrder f x [] h = tt
  All-InOrder f x (y ∷ ys) h = (f x y h.0, All-InOrder f x ys h.1)

  pub Sorted-InOrder :
      ((a b : A) → le a b ≡ true → R a b) → (xs : List A) → Sorted le xs → InOrder R xs
  Sorted-InOrder f [] s = tt
  Sorted-InOrder f (x ∷ xs) s = (All-InOrder f x xs s.0, Sorted-InOrder f xs s.1)
