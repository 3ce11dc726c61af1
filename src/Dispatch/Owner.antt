-- ===== src/Dispatch/Owner.antt =====
-- The pane that a process runs in: `resolve_owning_pane` of crates/lmux/src/state.rs.
use lmux.Prelude.{
  ℕ, zero, suc, ◌<◌, false, Option, some, List, nat_eq, leb, ◌≡◌, arith, Bool-cases, Option-cases,
  inl, inr,
}
use lmux.App.{AppState, Pane}
use lmux.Dispatch.{leader, owner_from, resolve_owning_pane}

-- From a process up to an ancestor, in so many steps, past no process with an id of at most 1.
pub data Up (read_ppid : ℕ → Option ℕ) : ℕ → ℕ → ℕ → Type 0 where
  here : (cur : ℕ) → Up read_ppid cur cur 0
  up :
      (cur ppid ancestor steps : ℕ)
      → read_ppid cur ≡ some ppid
      → leb ppid 1 ≡ false
      → Up read_ppid ppid ancestor steps
      → Up read_ppid cur ancestor (suc steps)

module _ (child_pid read_ppid : ℕ → Option ℕ) (panes : List (ℕ × Pane)) where
  -- An ancestor that is the child of the pane.
  abbrev pub Owns : ℕ → ℕ → ℕ → Type 0
  Owns rounds cur id =
      (ancestor : ℕ) × (steps : ℕ) × Up read_ppid cur ancestor steps
      × (steps < rounds)
      × (leader child_pid panes ancestor ≡ some id)

  owner-Owns :
      (rounds cur id : ℕ)
      → owner_from child_pid read_ppid panes rounds cur ≡ some id
      → Owns rounds cur id
  unfolding owner_from
  owner-Owns zero cur id h = absurd (cc)
  owner-Owns (suc rounds) cur id h = elim (Option-cases (leader child_pid panes cur)) [
    | inr (found, e) ↦ (cur, 0, Up.here cur, omega arith, ground arith)
    | inl other ↦ elim (Option-cases (read_ppid cur)) [
      | inl top ↦ absurd (ground arith)
      | inr (ppid, parent) ↦ elim (Bool-cases (leb ppid 1)) [
        | inl root ↦ absurd (ground arith)
        | inr deep ↦
            let (ancestor, steps, way, few, owns) = owner-Owns rounds ppid id (ground arith) in
            (ancestor, suc steps, Up.up cur ppid ancestor steps parent deep way, omega arith, owns)
      ]
    ]
  ]

  owner-found :
      (rounds cur ancestor steps id : ℕ)
      → Up read_ppid cur ancestor steps
      → steps < rounds
      → leader child_pid panes ancestor ≡ some id
      → (owner : ℕ) × (owner_from child_pid read_ppid panes rounds cur ≡ some owner)
  unfolding owner_from
  owner-found zero cur ancestor steps id way few owns = absurd (omega arith)
  owner-found (suc rounds) _ _ _ id (Up.here cur) few owns = (id, ground arith)
  owner-found (suc rounds) _ _ _ id (Up.up cur ppid ancestor steps parent deep way) few owns =
      let (owner, e) = owner-found rounds ppid ancestor steps id way (omega arith) owns in
      elim (Option-cases (leader child_pid panes cur)) [
        | inr (near, n) ↦ (near, ground arith)
        | inl other ↦ (owner, ground arith)
      ]

-- `resolve_owning_pane` finds a pane only if the process or one of its next 63 ancestors is the child
-- of that pane, and if one of them is the child of some pane it finds a pane. The way up goes through
-- no process with an id of 0 or 1.
pub resolve_owning_pane-Owns :
    {R : Type 0} (child_pid read_ppid : ℕ → Option ℕ) (s : AppState R) (source : ℕ)
    → ((id : ℕ)
        → resolve_owning_pane child_pid read_ppid s source ≡ some id
        → Owns child_pid read_ppid s.panes 64 source id)
      × ((id : ℕ)
          → Owns child_pid read_ppid s.panes 64 source id
          → (owner : ℕ) × (resolve_owning_pane child_pid read_ppid s source ≡ some owner))
resolve_owning_pane-Owns child_pid read_ppid s source = (
  λ id h. owner-Owns child_pid read_ppid s.panes 64 source id h,
  λ id (ancestor, steps, way, few, owns).
      owner-found child_pid read_ppid s.panes 64 source ancestor steps id way few owns,
)
