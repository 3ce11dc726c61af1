-- ===== src/Anchors/Lifecycle.antt =====
-- The life of an anchor under any sequence of the registry's methods.
use lmux.Prelude.{
  ℕ, Bool, true, ◌||◌, not, Option, none, some, List, [], ◌∷◌, ◌==◌, nat_eq, beq_self, ◌≡◌, ◌⊎◌,
  inl, inr, refl, arith, Text, if◌then◌else◌, lookup, lookup-insert, Result, ok, err, ℤ,
  Option-cases, Bool-cases, nat_beq_iff,
}
use lmux.Anchors.{
  AnchorState, live, paused, hidden, dead, Anchor, Registry, RegistryError, Updated, pause, resume,
  hide, reattach, set_hidden, mark_dead, rename, set_group, set_sort_key, invalid_transition,
  not_found, with_entry, written, trimmed, state_beq,
}

-- The methods that change one entry.
pub data Op : Type 0 where
  pause_op resume_op hide_op mark_dead_op : Op
  reattach_op : ℕ → Op
  set_hidden_op : Bool → Op
  rename_op set_group_op : Option Text → Op
  set_sort_key_op : Option ℤ → Op

unfoldable pub apply : Registry → ℕ → Op → Updated
unfolding pause resume hide reattach set_hidden mark_dead rename set_group set_sort_key
apply reg id pause_op = pause reg id
apply reg id resume_op = resume reg id
apply reg id hide_op = hide reg id
apply reg id mark_dead_op = mark_dead reg id
apply reg id (reattach_op pane) = reattach reg id pane
apply reg id (set_hidden_op b) = set_hidden reg id b
apply reg id (rename_op n) = rename reg id n
apply reg id (set_group_op g) = set_group reg id g
apply reg id (set_sort_key_op k) = set_sort_key reg id k

-- The documented transitions: pause, resume, hide, reattach, the toggle of the soft hide, and death
-- from any state; the other methods keep the state.
infix 40 ◌⟶◌
pub data ◌⟶◌ : AnchorState → AnchorState → Type 0 where
  pauses : live ⟶ paused
  resumes : paused ⟶ live
  hides_live : live ⟶ hidden
  hides_paused : paused ⟶ hidden
  returns : hidden ⟶ live
  dies : {s : AnchorState} → s ⟶ dead
  stays : {s : AnchorState} → s ⟶ s

ruleset edges = (pauses, resumes, hides_live, hides_paused, returns, dies, stays)

-- What a method makes of the entry alone.
change : ℕ → Op → Anchor → Result RegistryError Anchor
change id pause_op a =
    if not (state_beq a.state live)
    then err (invalid_transition id a.state paused)
    else ok (record a { state = paused })
change id resume_op a =
    if not (state_beq a.state paused)
    then err (invalid_transition id a.state live)
    else ok (record a { state = live })
change id hide_op a =
    if not (state_beq a.state live || state_beq a.state paused)
    then err (invalid_transition id a.state hidden)
    else ok (record a { state = hidden; pane_id = none })
change id mark_dead_op a = ok (record a { state = dead })
change id (reattach_op pane) a =
    if not (state_beq a.state hidden)
    then err (invalid_transition id a.state live)
    else ok (record a { state = live; pane_id = some pane })
change id (set_hidden_op b) a =
    let to = if b then hidden else live in
    if not (state_beq a.state live || state_beq a.state hidden)
    then err (invalid_transition id a.state to)
    else ok (record a { state = to })
change id (rename_op n) a = ok (record a { name = trimmed n })
change id (set_group_op g) a = ok (record a { group = trimmed g })
change id (set_sort_key_op k) a = ok (record a { sort_key = k })

apply-change :
    (reg : Registry) (id : ℕ) (op : Op) → apply reg id op ≡ with_entry reg id (change id op)
unfolding apply change
apply-change reg id pause_op = refl
apply-change reg id _ = refl

-- An accepted change follows an edge of the diagram.
change-⟶ : (id : ℕ) (op : Op) (a b : Anchor) → change id op a ≡ ok b → a.state ⟶ b.state
unfolding change
change-⟶ id pause_op a b h = grind (arith, edges)
change-⟶ id _ a b h = grind (arith, edges)

-- A refused change names the entry and the state that it is in.
change_refused :
    (id : ℕ) (op : Op) (a : Anchor) (e : RegistryError)
    → change id op a ≡ err e
    → (to : AnchorState) × (e ≡ invalid_transition id a.state to)
unfolding change
change_refused id pause_op a e h = (paused, ground arith)
change_refused id resume_op a e h = (live, ground arith)
change_refused id hide_op a e h = (hidden, ground arith)
change_refused id mark_dead_op a e h = cc
change_refused id (reattach_op pane) a e h = (live, ground arith)
change_refused id (set_hidden_op b) a e h = (if b then hidden else live, ground arith)
change_refused id (rename_op n) a e h = cc
change_refused id (set_group_op g) a e h = cc
change_refused id (set_sort_key_op k) a e h = cc

-- What no method changes.
pub record SameOrigin (a b : Anchor) : Type 0 where
  pub same_id : b.id ≡ a.id
  pub same_argv : b.argv ≡ a.argv
  pub same_cwd : b.cwd ≡ a.cwd
  pub same_rule : b.autodetect_rule ≡ a.autodetect_rule
  pub same_close : b.hide_on_session_close ≡ a.hide_on_session_close

change-SameOrigin : (id : ℕ) (op : Op) (a b : Anchor) → change id op a ≡ ok b → SameOrigin a b
unfolding change
change-SameOrigin id pause_op a b h = ground arith
change-SameOrigin id _ a b h = ground arith

-- The entry after a change: a refused change keeps it.
abbrev kept : Anchor → Result RegistryError Anchor → Option Anchor
kept a (ok b) = some b
kept a (err e) = some a

lookup-written :
    (reg : Registry) (id j : ℕ) (a : Anchor) (r : Result RegistryError Anchor)
    → lookup id reg ≡ some a
    → lookup j (written reg id r).0 ≡ (if id == j then kept a r else lookup j reg)
lookup-written reg id j a (ok b) h = lookup-insert id j b reg
lookup-written reg id j a (err e) h = ground (arith, nat_beq_iff id j)

-- The registry after a method: the entry of the id is what `change` makes of it, all else is kept.
abbrev after : ℕ → Op → Option Anchor → Option Anchor
after id op none = none
after id op (some a) = kept a (change id op a)

lookup-apply :
    (reg : Registry) (id : ℕ) (op : Op) (j : ℕ)
    → lookup j (apply reg id op).0 ≡ (if id == j then after id op (lookup id reg) else lookup j reg)
lookup-apply reg id op j = rw (apply-change reg id op) (elim (Option-cases (lookup id reg)) [
  | inl e ↦ ground (arith, nat_beq_iff id j)
  | inr (a, e) ↦ ground (arith, lookup-written reg id j a (change id op a))
])

written-error :
    (reg : Registry) (id : ℕ) (e : RegistryError) (r : Result RegistryError Anchor)
    → (written reg id r).1 ≡ err e
    → ((written reg id r).0 ≡ reg) × (r ≡ err e)
written-error reg id e (ok a) h = cc
written-error reg id e (err x) h = (refl, h)

-- A method that fails changes nothing; it fails on an unknown id with `NotFound`, and on a known one
-- with `InvalidTransition` from the state that the anchor is in.
pub apply-error :
    (reg : Registry) (id : ℕ) (op : Op) (e : RegistryError)
    → (apply reg id op).1 ≡ err e
    → ((apply reg id op).0 ≡ reg)
      × (((lookup id reg ≡ none) × (e ≡ not_found id))
          ⊎ ((a : Anchor) × (to : AnchorState) × (lookup id reg ≡ some a)
              × (e ≡ invalid_transition id a.state to)))
apply-error reg id op e h = elim (Option-cases (lookup id reg)) [
  | inl n ↦
      (ground (arith, apply-change reg id op), inl (n, ground (arith, apply-change reg id op)))
  | inr (a, l) ↦
      let w = written-error reg id e (change id op a) (ground (arith, apply-change reg id op)) in
      let (to, from) = change_refused id op a e w.1 in
      (ground (arith, apply-change reg id op), inr (a, to, l, from))
]

kept-⟶ :
    (id : ℕ) (op : Op) (a : Anchor) (r : Result RegistryError Anchor)
    → change id op a ≡ r
    → (b : Anchor) × (kept a r ≡ some b) × (a.state ⟶ b.state) × SameOrigin a b
kept-⟶ id op a (ok b) h = (b, refl, change-⟶ id op a b h, change-SameOrigin id op a b h)
kept-⟶ id op a (err e) h = (a, refl, stays, ground arith)

-- Every method, accepted or refused, moves an anchor along an edge of the diagram or leaves it where
-- it is, and keeps what it was created with; the entry that is looked at may be any.
pub apply-⟶ :
    (reg : Registry) (id : ℕ) (op : Op) (j : ℕ) (a : Anchor)
    → lookup j reg ≡ some a
    → (b : Anchor) × (lookup j (apply reg id op).0 ≡ some b) × (a.state ⟶ b.state) × SameOrigin a b
apply-⟶ reg id op j a h = elim (Bool-cases (id == j)) [
  | inl same ↦
      let (b, at, edge, origin) = kept-⟶ id op a (change id op a) refl in
      (b, ground (arith, lookup-apply reg id op j, nat_beq_iff id j), edge, origin)
  | inr other ↦ (a, ground (arith, lookup-apply reg id op j), stays, ground arith)
]

-- A run of methods on any anchors.
unfoldable pub run : Registry → List (ℕ × Op) → Registry
unfolding apply
run reg [] = reg
run reg ((id, op) ∷ ops) = run (apply reg id op).0 ops

⟶-dead : {s t : AnchorState} → s ⟶ t → s ≡ dead → t ≡ dead
⟶-dead pauses h = cc
⟶-dead resumes h = cc
⟶-dead hides_live h = cc
⟶-dead hides_paused h = cc
⟶-dead returns h = cc
⟶-dead dies h = refl
⟶-dead stays h = h

-- A dead anchor stays on record and stays dead, whatever methods are called in whatever order.
pub run_dead :
    (ops : List (ℕ × Op)) (reg : Registry) (j : ℕ) (a : Anchor)
    → lookup j reg ≡ some a
    → a.state ≡ dead
    → (b : Anchor) × (lookup j (run reg ops) ≡ some b) × (b.state ≡ dead)
unfolding run
run_dead [] reg j a h d = (a, h, d)
run_dead ((id, op) ∷ ops) reg j a h d =
    let (b, at, edge, origin) = apply-⟶ reg id op j a h in
    run_dead ops (apply reg id op).0 j b at (⟶-dead edge d)

-- The soft hide keeps the pane: a live anchor that it hides is `Hidden` and still attached.
pub set_hidden-keeps_pane :
    (reg : Registry) (id pane : ℕ) (a : Anchor)
    → lookup id reg ≡ some a
    → a.state ≡ live
    → a.pane_id ≡ some pane
    → (b : Anchor) × (lookup id (set_hidden reg id true).0 ≡ some b)
      × (b.state ≡ hidden)
      × (b.pane_id ≡ some pane)
unfolding set_hidden
set_hidden-keeps_pane reg id pane a h l p = (
  record a { state = hidden },
  ground (arith, lookup-insert id id (record a { state = hidden }) reg, beq_self id),
  refl,
  p,
)
