-- ===== src/Shell/Words.antt =====
-- The command line of `shell_command_line` of crates/lmux/src/state.rs, read by a shell.
use lmux.Prelude.{
  ℕ, Bool, true, false, ◌&&◌, subst, Option, none, some, List, [], ◌∷◌, ◌++◌, ◌==◌, nat_eq, Text,
  if◌then◌else◌, map, unwrap_or, ◌≡◌, refl, arith, Bool-cases, inl, inr, ap, ◌∙◌, sym,
}
use mathlib.Core.List.{append-nil, append_assoc}
use lmux.Shell.Reader.{
  Reader, broken, opening, naming, plain, quoted, is_name_byte, is_name_start, plain_next, next,
  read, result, words, names, opens_assignment,
}
use lmux.Shell.{is_bare, all_bare, replace_quotes, shell_quote, join, shell_command_line}

read-append : (xs ys : Text) (r : Reader) → read r (xs ++ ys) ≡ read (read r xs) ys
read-append [] ys r = refl
read-append (x ∷ xs) ys r = read-append xs ys (next r x)

next-bare :
    (done : List Text) (cur : Option Text) (c : ℕ)
    → is_bare c ≡ true
    → next (plain done cur) c ≡ plain done (some (unwrap_or cur [] ++ c ∷ []))
next-bare done cur c h = ground arith

append_one : (xs ys : Text) (c : ℕ) → (xs ++ c ∷ []) ++ ys ≡ xs ++ c ∷ ys
append_one xs ys c = append_assoc xs (c ∷ []) ys

read-bare :
    (done : List Text) (cur xs : Text)
    → all_bare xs ≡ true
    → read (plain done (some cur)) xs ≡ plain done (some (cur ++ xs))
read-bare done cur [] h = ap (λ t. plain done (some t)) (sym (append-nil cur))
read-bare done cur (x ∷ xs) h =
    ap (λ r. read r xs) (next-bare done (some cur) x (ground arith))
    ∙ read-bare done (cur ++ x ∷ []) xs (ground arith)
    ∙ ap (λ t. plain done (some t)) (append_one cur xs x)

read-replace_quotes :
    (done : List Text) (cur xs : Text)
    → read (quoted done cur) (replace_quotes xs) ≡ quoted done (cur ++ xs)
unfolding replace_quotes
read-replace_quotes done cur [] = ap (quoted done) (sym (append-nil cur))
read-replace_quotes done cur (x ∷ xs) = elim (Bool-cases (x == b'\'')) [
  | inl e ↦ rw e (
      read-replace_quotes done (cur ++ b'\'' ∷ []) xs
      ∙ ap (quoted done)
          (append_one cur xs b'\'' ∙ ap (λ y. cur ++ y ∷ xs) (sym ((nat_eq.beq_iff x b'\'').0 e))))
  | inr e ↦ rw e (
      ap (λ r. read r (replace_quotes xs)) (stays e)
      ∙ read-replace_quotes done (cur ++ x ∷ []) xs
      ∙ ap (quoted done) (append_one cur xs x))
]
  where
    stays : (x == b'\'') ≡ false → next (quoted done cur) x ≡ quoted done (cur ++ x ∷ [])
    stays e = ground arith

read-shell_quote :
    (done : List Text) (arg : Text)
    → read (plain done none) (shell_quote arg) ≡ plain done (some arg)
unfolding shell_quote
read-shell_quote done [] = unfold replace_quotes in refl
read-shell_quote done (x ∷ xs) = elim (Bool-cases (all_bare (x ∷ xs))) [
  | inl e ↦ rw e (
      ap (λ r. read r xs) (next-bare done none x (ground arith))
      ∙ read-bare done (x ∷ []) xs (ground arith))
  | inr e ↦ rw e (
      read-append (replace_quotes (x ∷ xs)) (b'\'' ∷ []) (quoted done [])
      ∙ ap (λ r. read r (b'\'' ∷ [])) (read-replace_quotes done [] (x ∷ xs)))
]

read-join :
    (done : List Text) (arg : Text) (args : List Text)
    → result (read (plain done none) (join (map shell_quote (arg ∷ args))))
      ≡ some (done ++ arg ∷ args)
unfolding join
read-join done arg [] = ap result (read-shell_quote done arg)
read-join done arg (b ∷ args) =
    ap result (
      read-append (shell_quote arg) (b' ' ∷ join (map shell_quote (b ∷ args))) (plain done none)
      ∙ ap (λ r. read r (b' ' ∷ join (map shell_quote (b ∷ args)))) (read-shell_quote done arg))
    ∙ read-join (done ++ arg ∷ []) b args
    ∙ ap some (append_assoc done (arg ∷ []) (b ∷ args))

-- The reader has read one word and stands behind it.
abbrev Settled : Reader → Text → Type 0
Settled r word = (result r ≡ some (word ∷ [])) × (next r b' ' ≡ plain (word ∷ []) none)

plain-Settled : (r : Reader) (word : Text) → r ≡ plain [] (some word) → Settled r word
plain-Settled r word e = rw e (refl, refl)

naming-Settled :
    (cur xs : Text)
    → all_bare xs ≡ true
    → names xs ≡ false
    → Settled (read (naming cur) xs) (cur ++ xs)
naming-Settled cur [] h k = rw (append-nil cur) (refl, refl)
naming-Settled cur (x ∷ xs) h k = elim (Bool-cases (is_name_byte x)) [
  | inl e ↦
      let at : next (naming cur) x ≡ naming (cur ++ x ∷ []) = ground arith in
      let ih = naming-Settled (cur ++ x ∷ []) xs (ground arith) (ground arith) in
      subst (Settled (read (next (naming cur) x) xs)) (append_one cur xs x)
        (subst (λ r. Settled (read r xs) ((cur ++ x ∷ []) ++ xs)) (sym at) ih)
  | inr e ↦
      let at : next (naming cur) x ≡ plain [] (some (cur ++ x ∷ [])) = ground arith in
      plain-Settled _ _ (
        ap (λ r. read r xs) at
        ∙ read-bare [] (cur ++ x ∷ []) xs (ground arith)
        ∙ ap (λ t. plain [] (some t)) (append_one cur xs x))
]

no_name :
    (bare start rest : Bool)
    → bare ≡ true
    → start ≡ true
    → (bare && (start && rest)) ≡ false
    → rest ≡ false
no_name bare start rest h k e = ground arith

name_breaks :
    (bare start rest : Bool)
    → (bare && (start && rest)) ≡ true
    → (bare ≡ true) × (start ≡ true) × (rest ≡ true)
name_breaks bare start rest e = ground arith

head-is_bare : (x : ℕ) (xs : Text) → all_bare (x ∷ xs) ≡ true → is_bare x ≡ true
head-is_bare x xs h = ground arith

tail-all_bare : (x : ℕ) (xs : Text) → all_bare (x ∷ xs) ≡ true → all_bare xs ≡ true
tail-all_bare x xs h = ground arith

opening-naming : (x : ℕ) → is_name_start x ≡ true → next opening x ≡ naming (x ∷ [])
opening-naming x h = ground arith

bare_is_no_blank : (x : ℕ) → is_bare x ≡ true → (x == b' ') ≡ false
bare_is_no_blank x h = ground arith

opening-plain :
    (x : ℕ) → is_bare x ≡ true → is_name_start x ≡ false → next opening x ≡ plain [] (some (x ∷ []))
opening-plain x h k =
    let skip : next opening x ≡ plain_next [] none x = rw (bare_is_no_blank x h, k) refl in
    skip ∙ next-bare [] none x h

opening-Settled :
    (arg : Text) (args : List Text)
    → opens_assignment (arg ∷ args) ≡ false
    → Settled (read opening (shell_quote arg)) arg
unfolding shell_quote
opening-Settled [] args h = unfold replace_quotes in (refl, refl)
opening-Settled (x ∷ xs) args h = elim (Bool-cases (all_bare (x ∷ xs))) [
  | inl e ↦ rw e (bare e)
  | inr e ↦ rw e (
      plain-Settled _ _ (
        read-append (replace_quotes (x ∷ xs)) (b'\'' ∷ []) (quoted [] [])
        ∙ ap (λ r. read r (b'\'' ∷ [])) (read-replace_quotes [] [] (x ∷ xs))))
]
  where
    bare : all_bare (x ∷ xs) ≡ true → Settled (read opening (x ∷ xs)) (x ∷ xs)
    bare e =
        let rest = tail-all_bare x xs e in
        elim (Bool-cases (is_name_start x)) [
          | inl s ↦
              subst (λ r. Settled (read r xs) (x ∷ xs)) (sym (opening-naming x s))
                (naming-Settled (x ∷ []) xs rest
                  (no_name (all_bare (x ∷ xs)) (is_name_start x) (names xs) e s h))
          | inr s ↦ plain-Settled _ _ (
              ap (λ r. read r xs) (opening-plain x (head-is_bare x xs e) s)
              ∙ read-bare [] (x ∷ []) xs rest)
        ]

read-broken : (xs : Text) → read broken xs ≡ broken
read-broken [] = refl
read-broken (x ∷ xs) = read-broken xs

naming_breaks : (cur xs ys : Text) → names xs ≡ true → read (naming cur) (xs ++ ys) ≡ broken
naming_breaks cur [] ys h = absurd cc
naming_breaks cur (x ∷ xs) ys h = elim (Bool-cases (x == b'=')) [
  | inl e ↦
      let at : next (naming cur) x ≡ broken = rw e refl in
      ap (λ r. read r (xs ++ ys)) at ∙ read-broken (xs ++ ys)
  | inr e ↦
      let at : next (naming cur) x ≡ naming (cur ++ x ∷ []) = ground arith in
      ap (λ r. read r (xs ++ ys)) at ∙ naming_breaks (cur ++ x ∷ []) xs ys (ground arith)
]

opening_breaks :
    (arg : Text) (args : List Text) (ys : Text)
    → opens_assignment (arg ∷ args) ≡ true
    → read opening (shell_quote arg ++ ys) ≡ broken
unfolding shell_quote
opening_breaks [] args ys h = absurd cc
opening_breaks (x ∷ xs) args ys h =
    let (bare, start, rest) = name_breaks (all_bare (x ∷ xs)) (is_name_start x) (names xs) h in
    rw bare
      (ap (λ r. read r (xs ++ ys)) (opening-naming x start) ∙ naming_breaks (x ∷ []) xs ys rest)

opening-join :
    (arg : Text) (args : List Text)
    → opens_assignment (arg ∷ args) ≡ false
    → words (join (map shell_quote (arg ∷ args))) ≡ some (arg ∷ args)
unfolding join
opening-join arg [] h = (opening-Settled arg [] h).0
opening-join arg (b ∷ args) h =
    ap result (
      read-append (shell_quote arg) (b' ' ∷ join (map shell_quote (b ∷ args))) opening
      ∙ ap (λ r. read r (join (map shell_quote (b ∷ args)))) (opening-Settled arg (b ∷ args) h).1)
    ∙ read-join (arg ∷ []) b args

join_breaks :
    (arg : Text) (args : List Text)
    → opens_assignment (arg ∷ args) ≡ true
    → words (join (map shell_quote (arg ∷ args))) ≡ none
unfolding join
join_breaks arg [] h =
    ap result (ap (read opening) (sym (append-nil (shell_quote arg))) ∙ opening_breaks arg [] [] h)
join_breaks arg (b ∷ args) h =
    ap result (opening_breaks arg (b ∷ args) (b' ' ∷ join (map shell_quote (b ∷ args))) h)

-- Whatever bytes the arguments hold, quotes, blanks and operators among them, the tokens that a POSIX
-- shell reads from the command line are exactly these arguments, and outside a quotation it meets no
-- character that means anything else; except where the first argument is an assignment of bytes that
-- are left bare, `A=b`, which the shell reads as an assignment and not as a word of the command.
-- (Reserved words, aliases and a line editor are not considered.)
pub words-shell_command_line :
    (argv : List Text)
    → words (shell_command_line argv) ≡ (if opens_assignment argv then none else some argv)
unfolding shell_command_line
words-shell_command_line [] = unfold join in refl
words-shell_command_line (arg ∷ args) = elim (Bool-cases (opens_assignment (arg ∷ args))) [
  | inl e ↦ rw e (join_breaks arg args e)
  | inr e ↦ rw e (opening-join arg args e)
]
