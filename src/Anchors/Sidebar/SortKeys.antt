-- ===== src/Anchors/Sidebar/SortKeys.antt =====
-- Where a new anchor is put in its group: `next_anchor_sort_key_for` of crates/lmux/src/state.rs.
use lmux.Prelude.{
  ℕ, Bool, true, false, Option, none, some, List, [], ◌∷◌, nat_eq, list_eq, option_eq, beq_self,
  ◌≡◌, arith, ℤ, pos, lebℤ, saturating_suc, i64_max, contains, nat_beq_iff, Option-cases, inl, inr,
}
use lmux.Anchors.{Anchor, Registry, get}
use lmux.Anchors.Sidebar.{key_of, larger, max_sort_key, next_anchor_sort_key_for}

abbrev at_most : ℤ → Option ℤ → Bool
at_most k none = false
at_most k (some m) = lebℤ k m

at_most-larger_self : (k : ℤ) (o : Option ℤ) → at_most k (some (larger k o)) ≡ true
at_most-larger_self k none = ground arith
at_most-larger_self k (some m) = ground arith

at_most-larger :
    (x k : ℤ) (o : Option ℤ) → at_most x o ≡ true → at_most x (some (larger k o)) ≡ true
at_most-larger x k none h = cc
at_most-larger x k (some m) h = ground arith

max_sort_key-bound :
    (ids : List ℕ) (reg : Registry) (id : ℕ) (a : Anchor)
    → contains id ids ≡ true
    → get reg id ≡ some a
    → at_most (key_of a) (max_sort_key ids reg a.group) ≡ true
unfolding max_sort_key
max_sort_key-bound [] reg id a h at = cc
max_sort_key-bound (j ∷ ids) reg id a h at =
    let rest = max_sort_key ids reg a.group in
    elim (Option-cases (get reg j)) [
      | inl e ↦ ground (arith, nat_beq_iff j id, max_sort_key-bound ids reg id a)
      | inr (b, e) ↦ ground (
        arith,
        nat_beq_iff j id,
        beq_self a.group,
        at_most-larger_self (key_of b) rest,
        at_most-larger (key_of a) (key_of b) rest,
        max_sort_key-bound ids reg id a,
      )
    ]

beyond :
    (k : ℤ) (o : Option ℤ)
    → at_most k o ≡ true
    → lebℤ (pos i64_max) k ≡ false
    → lebℤ (elim o [ none ↦ pos 0 | some m ↦ saturating_suc m ]) k ≡ false
beyond k none h b = cc
beyond k (some m) h b = ground arith

-- The key that a new anchor gets lies strictly above the key of every listed anchor of its group, so
-- it is shown below them, unless that key is already the largest `i64`.
pub next_anchor_sort_key-beyond :
    (ids : List ℕ) (reg : Registry) (id : ℕ) (a : Anchor)
    → contains id ids ≡ true
    → get reg id ≡ some a
    → lebℤ (pos i64_max) (key_of a) ≡ false
    → lebℤ (next_anchor_sort_key_for ids reg a.group) (key_of a) ≡ false
unfolding next_anchor_sort_key_for
next_anchor_sort_key-beyond ids reg id a h at b =
    beyond (key_of a) (max_sort_key ids reg a.group) (max_sort_key-bound ids reg id a h at) b
