-- ===== src/Autodetect/Rules.antt =====
-- What a rule matches, and which rule wins.
use lmux.Prelude.{
  true, false, ◌||◌, Option, none, some, List, [], ◌∷◌, ◌++◌, nat_eq, list_eq, Text, contains, All,
  ◌≡◌, ◌↔◌, ◌⊎◌, refl, arith, Bool-cases, inl, inr, ap, ◌∙◌,
}
use lmux.Autodetect.{
  AutodetectRule, AutodetectMatch, starts_with, has_text, any_needle, any_key, matches, match_of,
  match_rule,
}

-- The needle stands somewhere in the text.
abbrev pub Occurs : Text → Text → Type 0
Occurs text needle = (before : Text) × (after : Text) × (text ≡ before ++ needle ++ after)

-- One of the members has the property.
abbrev pub Some : (Text → Type 0) → List Text → Type 0
Some P [] = ⊥
Some P (x ∷ xs) = P x ⊎ Some P xs

-- What a rule asks of a pane.
abbrev pub Applies : AutodetectRule → Text → List Text → Type 0
Applies rule command env_keys =
    Some (Occurs command) rule.match_spec.command_contains
    ⊎ Some (λ key. contains key env_keys ≡ true) rule.match_spec.env_set

prefix-split :
    (needle text : Text)
    → starts_with needle text ≡ true
    → (after : Text) × (text ≡ needle ++ after)
prefix-split [] text h = (text, refl)
prefix-split (n ∷ needle) [] h = cc
prefix-split (n ∷ needle) (c ∷ text) h =
    let (after, e) = prefix-split needle text (ground arith) in
    (after, ground (arith, nat_eq.beq_iff n c))

starts_with-append : (needle after : Text) → starts_with needle (needle ++ after) ≡ true
starts_with-append [] after = refl
starts_with-append (n ∷ needle) after =
    ground (arith, nat_eq.beq_iff n n, starts_with-append needle after)

Occurs-of : (text needle : Text) → has_text text needle ≡ true → Occurs text needle
Occurs-of [] needle h = let (after, e) = prefix-split needle [] h in ([], after, e)
Occurs-of (c ∷ text) needle h = elim (Bool-cases (starts_with needle (c ∷ text))) [
  | inl e ↦ let (after, same) = prefix-split needle (c ∷ text) e in ([], after, same)
  | inr e ↦
      let (before, after, same) = Occurs-of text needle (ground arith) in
      (c ∷ before, after, ap (λ t. c ∷ t) same)
]

has_text-front : (needle after : Text) → has_text (needle ++ after) needle ≡ true
has_text-front [] [] = refl
has_text-front [] (c ∷ after) = refl
has_text-front (n ∷ needle) after = ground (arith, starts_with-append (n ∷ needle) after)

has_text-append : (before needle after : Text) → has_text (before ++ needle ++ after) needle ≡ true
has_text-append [] needle after = has_text-front needle after
has_text-append (b ∷ before) needle after = ground (arith, has_text-append before needle after)

needle_of :
    (command : Text) (needles : List Text)
    → any_needle command needles ≡ true
    → Some (Occurs command) needles
needle_of command [] h = cc
needle_of command (n ∷ needles) h = elim (Bool-cases (has_text command n)) [
  | inl e ↦ inl (Occurs-of command n e)
  | inr e ↦ inr (needle_of command needles (ground arith))
]

of_needle :
    (command : Text) (needles : List Text)
    → Some (Occurs command) needles
    → any_needle command needles ≡ true
of_needle command [] h = absurd h
of_needle command (n ∷ needles) (inl (before, after, e)) =
    let found : has_text command n ≡ true =
      ap (λ t. has_text t n) e ∙ has_text-append before n after in
    ground arith
of_needle command (n ∷ needles) (inr h) = ground (arith, of_needle command needles h)

key_of :
    (env_keys needed : List Text)
    → any_key env_keys needed ≡ true
    → Some (λ key. contains key env_keys ≡ true) needed
key_of env_keys [] h = cc
key_of env_keys (k ∷ needed) h = elim (Bool-cases (contains k env_keys)) [
  | inl e ↦ inl e
  | inr e ↦ inr (key_of env_keys needed (ground arith))
]

of_key :
    (env_keys needed : List Text)
    → Some (λ key. contains key env_keys ≡ true) needed
    → any_key env_keys needed ≡ true
of_key env_keys [] h = absurd h
of_key env_keys (k ∷ needed) (inl h) = ground arith
of_key env_keys (k ∷ needed) (inr h) = ground (arith, of_key env_keys needed h)

-- A rule matches a pane exactly if one of its needles stands somewhere in the command line, or one of
-- its variables is set.
pub matches-Applies :
    (rule : AutodetectRule) (command : Text) (env_keys : List Text)
    → (matches rule command env_keys ≡ true) ↔ Applies rule command env_keys
unfolding matches
matches-Applies rule command env_keys = (to, from)
  where
    to :
        (any_needle command rule.match_spec.command_contains
            || any_key env_keys rule.match_spec.env_set)
          ≡ true
        → Applies rule command env_keys
    to h = elim (Bool-cases (any_needle command rule.match_spec.command_contains)) [
      | inl e ↦ inl (needle_of command rule.match_spec.command_contains e)
      | inr e ↦ inr (key_of env_keys rule.match_spec.env_set (ground arith))
    ]

    from :
        Applies rule command env_keys
        → (any_needle command rule.match_spec.command_contains
            || any_key env_keys rule.match_spec.env_set)
          ≡ true
    from (inl h) = ground (arith, of_needle command rule.match_spec.command_contains h)
    from (inr h) = ground (arith, of_key env_keys rule.match_spec.env_set h)

-- The rules before the winner do not apply, and the winner does.
abbrev pub Wins : List AutodetectRule → Text → List Text → Option AutodetectMatch → Type 0
Wins rules command env_keys none = All (λ r. ¬ Applies r command env_keys) rules
Wins rules command env_keys (some found) =
    (before : List AutodetectRule) × (rule : AutodetectRule) × (after : List AutodetectRule)
    × (rules ≡ before ++ rule ∷ after)
    × All (λ r. ¬ Applies r command env_keys) before
    × Applies rule command env_keys
    × (found ≡ match_of rule)

Applies-not :
    (rule : AutodetectRule) (command : Text) (env_keys : List Text)
    → matches rule command env_keys ≡ false
    → ¬ Applies rule command env_keys
Applies-not rule command env_keys h applies =
    let hit = (matches-Applies rule command env_keys).1 applies in absurd (ground arith)

-- `match_rule` gives the first rule that applies, with what it says of closing, and nothing exactly
-- where no rule applies.
pub match_rule-Wins :
    (rules : List AutodetectRule) (command : Text) (env_keys : List Text)
    → Wins rules command env_keys (match_rule rules command env_keys)
unfolding match_rule
match_rule-Wins [] command env_keys = tt
match_rule-Wins (rule ∷ rules) command env_keys =
    elim (Bool-cases (matches rule command env_keys)) [
      | inl e ↦ rw e ([], rule, rules, refl, tt, (matches-Applies rule command env_keys).0 e, refl)
      | inr e ↦ rw e (
          later rule rules command env_keys (match_rule rules command env_keys)
            (Applies-not rule command env_keys e) (match_rule-Wins rules command env_keys))
    ]
  where
    later :
        (rule : AutodetectRule) (rules : List AutodetectRule) (command : Text)
        (env_keys : List Text) (found : Option AutodetectMatch)
        → ¬ Applies rule command env_keys
        → Wins rules command env_keys found
        → Wins (rule ∷ rules) command env_keys found
    later rule rules command env_keys none miss h = (miss, h)
    later rule rules command env_keys (some found) miss
          (before, winner, after, split, missed, hit, same) =
        (rule ∷ before, winner, after, ap (λ rs. rule ∷ rs) split, (miss, missed), hit, same)
