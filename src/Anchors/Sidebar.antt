-- ===== src/Anchors/Sidebar.antt =====
-- The order of the sidebar: `grouped_for_sidebar` of crates/lmux-anchor/src/registry.rs, and
-- `next_anchor_sort_key_for` of crates/lmux/src/state.rs.
pub mod Order
pub mod Precedence
pub mod Groups
pub mod SortKeys
use Prim.Native.Nat.{compare, Ordering}
use lmux.Prelude.{
  ℕ, Bool, true, false, not, ◌&&◌, ◌||◌, Option, none, some, List, [], ◌∷◌, ◌++◌, ◌==◌, nat_eq,
  list_eq, option_eq, Text, if◌then◌else◌, lookup, insert, ℤ, pos, negsuc, lebℤ, saturating_suc,
  unwrap_or, sort_by, leb,
}
use lmux.Anchors.{Anchor, Registry, display_label, get}

-- `str::cmp` is not `Greater`. (The order of UTF-8 bytes is that of the code points.)
abbrev pub text_le : Text → Text → Bool
text_le [] t = true
text_le (c ∷ s) [] = false
text_le (c ∷ s) (d ∷ t) = elim (compare c d) [
  | Ordering.lt ↦ true
  | Ordering.eq ↦ text_le s t
  | Ordering.gt ↦ false
]

abbrev pub key_of : Anchor → ℤ
key_of a = unwrap_or a.sort_key (pos 0)

-- By sort key, then by label.
unfoldable pub anchor_le : Anchor → Anchor → Bool
anchor_le a b =
    if lebℤ (key_of a) (key_of b)
    then if lebℤ (key_of b) (key_of a) then text_le (display_label a) (display_label b) else true
    else false

-- Group names in order, the anchors without a group last.
abbrev pub group_le : Option Text → Option Text → Bool
group_le (some x) (some y) = text_le x y
group_le (some x) none = true
group_le none (some y) = false
group_le none none = true

abbrev pub Bucket : Type 0
Bucket = Option Text × List Anchor

abbrev pub bucket_le : Bucket → Bucket → Bool
bucket_le x y = group_le x.0 y.0

-- `by_group.entry(group).or_default().push(a)`.
unfoldable pub push_group : Anchor → List Bucket → List Bucket
push_group a [] = (a.group, a ∷ []) ∷ []
push_group a ((g, bucket) ∷ rest) =
    if g == a.group then (g, bucket ++ a ∷ []) ∷ rest else (g, bucket) ∷ push_group a rest

unfoldable pub by_group : Registry → List Bucket → List Bucket
unfolding push_group
by_group [] out = out
by_group ((id, a) ∷ reg) out = by_group reg (push_group a out)

unfoldable pub sort_buckets : List Bucket → List Bucket
unfolding anchor_le
sort_buckets [] = []
sort_buckets ((g, bucket) ∷ rest) = (g, sort_by anchor_le bucket) ∷ sort_buckets rest

unfoldable pub grouped_for_sidebar : Registry → List Bucket
unfolding by_group sort_buckets
grouped_for_sidebar reg = sort_by bucket_le (sort_buckets (by_group reg []))

-- The largest of the sort keys of the group among the given anchors.
abbrev larger : ℤ → Option ℤ → ℤ
larger k none = k
larger k (some m) = if lebℤ k m then m else k

unfoldable pub max_sort_key : List ℕ → Registry → Option Text → Option ℤ
max_sort_key [] reg group = none
max_sort_key (id ∷ ids) reg group =
    let rest = max_sort_key ids reg group in
    elim (get reg id) [
      | none ↦ rest
      | some a ↦ if a.group == group then some (larger (key_of a) rest) else rest
    ]

unfoldable pub next_anchor_sort_key_for : List ℕ → Registry → Option Text → ℤ
unfolding max_sort_key
next_anchor_sort_key_for ids reg group = elim (max_sort_key ids reg group) [
  | none ↦ pos 0
  | some m ↦ saturating_suc m
]
