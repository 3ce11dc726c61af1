-- ===== src/Anchors/Labels.antt =====
-- The texts of an anchor: `trim` as `rename` and `set_group` use it, and the label.
use lmux.Prelude.{
  ℕ, Bool, true, false, ◌&&◌, Option, none, some, [], ◌∷◌, ◌++◌, nat_eq, ◌≡◌, refl, arith, ap, ◌∙◌,
  Text, if◌then◌else◌, All, is_empty, lookup, lookup-insert, beq_self, Bool-cases, inl, inr,
}
use lmux.Anchors.{
  Anchor, Registry, trim, trim_start, trim_end, is_whitespace, rename, display_label,
}

abbrev pub Blank : Text → Type 0
Blank s = All (λ c. is_whitespace c ≡ true) s

abbrev pub starts_blank : Text → Bool
starts_blank [] = false
starts_blank (c ∷ s) = is_whitespace c

abbrev pub ends_blank : Text → Bool
ends_blank [] = false
ends_blank (c ∷ s) = if is_empty s then is_whitespace c else ends_blank s

trim_start_lem :
    (s : Text)
    → (before : Text) × (s ≡ before ++ trim_start s)
      × Blank before
      × (starts_blank (trim_start s) ≡ false)
unfolding trim_start
trim_start_lem [] = ([], refl, tt, refl)
trim_start_lem (c ∷ s) = elim (Bool-cases (is_whitespace c)) [
  | inl e ↦
      let (before, cut, blank, clean) = trim_start_lem s in
      (c ∷ before, ground arith, (e, blank), ground arith)
  | inr e ↦ ([], ground arith, tt, ground arith)
]

trim_end_lem :
    (s : Text)
    → (after : Text) × (s ≡ trim_end s ++ after) × Blank after × (ends_blank (trim_end s) ≡ false)
unfolding trim_end
trim_end_lem [] = ([], refl, tt, refl)
trim_end_lem (c ∷ s) =
    let (after, cut, blank, clean) = trim_end_lem s in
    elim (Bool-cases (is_whitespace c && is_empty (trim_end s))) [
      | inl e ↦ (c ∷ after, ground arith, (ground arith, blank), ground arith)
      | inr e ↦ (after, ground arith, blank, ground arith)
    ]

starts_blank-trim_end : (s : Text) → starts_blank s ≡ false → starts_blank (trim_end s) ≡ false
unfolding trim_end
starts_blank-trim_end [] h = refl
starts_blank-trim_end (c ∷ s) h = ground arith

-- `trim` cuts a blank part off each end, and what is left neither begins nor ends with white space.
pub trim_lem :
    (s : Text)
    → (before after : Text) × (s ≡ before ++ (trim s ++ after))
      × Blank before
      × Blank after
      × (starts_blank (trim s) ≡ false)
      × (ends_blank (trim s) ≡ false)
unfolding trim
trim_lem s =
    let (before, cut, blank, clean) = trim_start_lem s in
    let (after, cut', blank', clean') = trim_end_lem (trim_start s) in
    (
      before,
      after,
      cut ∙ ap (λ t. before ++ t) cut',
      blank,
      blank',
      starts_blank-trim_end (trim_start s) clean,
      clean',
    )

-- The name that `rename` stores, on any anchor and for any text: it is absent or neither begins nor
-- ends with white space, and in each case not empty, so that the label never is the empty name.
pub rename-name :
    (reg : Registry) (id : ℕ) (name : Option Text) (a b : Anchor) (label : Text)
    → lookup id reg ≡ some a
    → lookup id (rename reg id name).0 ≡ some b
    → b.name ≡ some label
    → (is_empty label ≡ false)
      × (starts_blank label ≡ false)
      × (ends_blank label ≡ false)
      × (display_label b ≡ label)
unfolding rename display_label
rename-name reg id none a b label h k n =
    ground (arith, lookup-insert id id (record a { name = none }) reg, beq_self id)
rename-name reg id (some s) a b label h k n =
    let (before, after, cut, blank, blank', starts, ends) = trim_lem s in
    ground (
      arith,
      lookup-insert id id (record a { name = none }) reg,
      lookup-insert id id (record a { name = some (trim s) }) reg,
      beq_self id,
    )
