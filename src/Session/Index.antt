-- ===== src/Session/Index.antt =====
-- The index: each operation's order and names.
use lmux.Prelude.{
  min, ℕ, ◌+◌, Bool, not, List, [], ◌∷◌, ◌==◌, nat_eq, list_eq, list_beq_iff, Text, if◌then◌else◌,
  retain, Sorted, Sorted-sort_by, IsOrder, tally, tally-sort_by, ◌≡◌, arith, ◌∙◌,
}
use lmux.Session.{IndexEntry, SessionIndex, set_time, newer, touch, remove, rename_first, rename}

abbrev pub named : Text → IndexEntry → Bool
named n e = e.name == n

-- The number of entries under a name.
abbrev pub entries_of : Text → SessionIndex → ℕ
entries_of n i = tally (named n) i.entries

newer-IsOrder : IsOrder newer
newer-IsOrder = record { total = λ a b h. ground arith; trans = λ a b c h k. ground arith }

tally-set_time :
    (n name : Text) (now : ℕ) (es : List IndexEntry)
    → tally (named n) (set_time name now es) ≡ (
        if name == n
        then (if nat_eq.beq (tally (named n) es) 0 then 1 else tally (named n) es)
        else tally (named n) es)
unfolding set_time
tally-set_time n name now [] = ground arith
tally-set_time n name now (e ∷ es) = ground (
  arith,
  tally-set_time n name now es,
  list_beq_iff e.name name,
  list_beq_iff e.name n,
  list_beq_iff name n,
)

-- After a session is opened, the index is sorted with the newest first, the session has one more
-- entry if it had none and as many as before otherwise, and every other name keeps its entries.
pub touch-entries :
    (i : SessionIndex) (name n : Text) (now : ℕ)
    → Sorted newer (touch i name now).entries
      × (entries_of n (touch i name now) ≡ (
          if name == n
          then (if entries_of n i == 0 then 1 else entries_of n i)
          else entries_of n i))
unfolding touch
touch-entries i name n now = (
  Sorted-sort_by newer newer-IsOrder (set_time name now i.entries),
  tally-sort_by newer (named n) (set_time name now i.entries) ∙ tally-set_time n name now i.entries,
)

tally-retain :
    (n name : Text) (es : List IndexEntry)
    → tally (named n) (retain (λ e. not (e.name == name)) es)
      ≡ (if name == n then 0 else tally (named n) es)
tally-retain n name [] = ground arith
tally-retain n name (e ∷ es) = ground (
  arith,
  tally-retain n name es,
  list_beq_iff e.name name,
  list_beq_iff e.name n,
  list_beq_iff name n,
)

tally-rename_first :
    (n from to : Text) (es : List IndexEntry)
    → tally (named n) (rename_first from to es)
        + (if from == n then (if nat_eq.beq (tally (named from) es) 0 then 0 else 1) else 0)
      ≡ tally (named n) es
        + (if to == n then (if nat_eq.beq (tally (named from) es) 0 then 0 else 1) else 0)
unfolding rename_first
tally-rename_first n from to [] = ground arith
tally-rename_first n from to (e ∷ es) = ground (
  arith,
  tally-rename_first n from to es,
  list_beq_iff e.name from,
  list_beq_iff e.name n,
  list_beq_iff to n,
  list_beq_iff from n,
  list_beq_iff e.name to,
)

-- A removed session has no entry left, and every other name keeps its entries.
pub remove-entries :
    (i : SessionIndex) (name n : Text)
    → entries_of n (remove i name) ≡ (if name == n then 0 else entries_of n i)
unfolding remove
remove-entries i name n = tally-retain n name i.entries

-- A rename moves one entry from the old name to the new one where the old name has any, and changes
-- no other count.
pub rename-entries :
    (i : SessionIndex) (from to n : Text)
    → entries_of n (rename i from to) + (if from == n then min 1 (entries_of from i) else 0)
      ≡ entries_of n i + (if to == n then min 1 (entries_of from i) else 0)
unfolding rename
rename-entries i from to n = ground (arith, tally-rename_first n from to i.entries)
