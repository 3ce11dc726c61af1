-- ===== src/Anchors/Sidebar/Groups.antt =====
-- What the sidebar shows: every anchor once, under its own group, in order.
use lmux.Prelude.{
  ℕ, ◌+◌, ◌≤◌, Option, Text, Bool, false, List, [], ◌∷◌, ◌++◌, ◌==◌, nat_eq, list_eq, option_eq,
  option_beq_iff, ◌≡◌, refl, arith, All, All-append, tally, tally-append, tally-sort_by, sort_by,
  insert_by, sym, subst, All-sort_by, Sorted-sort_by, is_empty, Bool-cases, inl, inr,
}
use lmux.Anchors.{Anchor, Registry}
use lmux.Anchors.Sidebar.{
  Bucket, anchor_le, bucket_le, push_group, by_group, sort_buckets, grouped_for_sidebar,
}
use lmux.Anchors.Sidebar.Precedence.{
  Before, GroupBefore, InOrder, anchor_le-Before, bucket_le-GroupBefore, Sorted-InOrder,
}
use lmux.Anchors.Sidebar.Order.{anchor_le-IsOrder, bucket_le-IsOrder}

abbrev pub values : Registry → List Anchor
values [] = []
values ((id, a) ∷ reg) = a ∷ values reg

-- How many of the anchors that are shown pass a test.
abbrev pub shown_tally : (Anchor → Bool) → List Bucket → ℕ
shown_tally p [] = 0
shown_tally p ((g, bucket) ∷ rest) = tally p bucket + shown_tally p rest

tally-push_group :
    (p : Anchor → Bool) (a : Anchor) (out : List Bucket)
    → shown_tally p (push_group a out) ≡ tally p (a ∷ []) + shown_tally p out
unfolding push_group
tally-push_group p a [] = refl
tally-push_group p a ((g, bucket) ∷ rest) =
    ground (arith, tally-push_group p a rest, tally-append p bucket (a ∷ []))

tally-by_group :
    (p : Anchor → Bool) (reg : Registry) (out : List Bucket)
    → shown_tally p (by_group reg out) ≡ tally p (values reg) + shown_tally p out
unfolding by_group
tally-by_group p [] out = omega arith
tally-by_group p ((id, a) ∷ reg) out =
    ground (arith, tally-by_group p reg (push_group a out), tally-push_group p a out)

tally-sort_buckets :
    (p : Anchor → Bool) (out : List Bucket) → shown_tally p (sort_buckets out) ≡ shown_tally p out
unfolding sort_buckets
tally-sort_buckets p [] = refl
tally-sort_buckets p ((g, bucket) ∷ rest) =
    omega (arith, tally-sort_by anchor_le p bucket, tally-sort_buckets p rest)

tally-insert_bucket :
    (p : Anchor → Bool) (b : Bucket) (out : List Bucket)
    → shown_tally p (insert_by bucket_le b out) ≡ shown_tally p (b ∷ out)
unfolding insert_by
tally-insert_bucket p b [] = refl
tally-insert_bucket p b (c ∷ out) = ground (arith, tally-insert_bucket p b out)

tally-sort_by_bucket :
    (p : Anchor → Bool) (out : List Bucket)
    → shown_tally p (sort_by bucket_le out) ≡ shown_tally p out
unfolding sort_by
tally-sort_by_bucket p [] = refl
tally-sort_by_bucket p (b ∷ out) =
    omega (arith, tally-insert_bucket p b (sort_by bucket_le out), tally-sort_by_bucket p out)

tally-grouped_for_sidebar :
    (p : Anchor → Bool) (reg : Registry)
    → shown_tally p (grouped_for_sidebar reg) ≡ tally p (values reg)
unfolding grouped_for_sidebar
tally-grouped_for_sidebar p reg = omega (
  arith,
  tally-sort_by_bucket p (sort_buckets (by_group reg [])),
  tally-sort_buckets p (by_group reg []),
  tally-by_group p reg [],
)

-- A bucket as it is shown: its anchors are in the group, by sort key and label, and there are some.
pub record IsTidy (b : Bucket) : Type 0 where
  pub in_group : All (λ a. a.group ≡ b.0) b.1
  pub ordered : InOrder Before b.1
  pub inhabited : is_empty b.1 ≡ false

abbrev Grouped : Bucket → Type 0
Grouped b = All (λ (a : Anchor). a.group ≡ b.0) b.1 × (is_empty b.1 ≡ false)

append-inhabited : (bucket : List Anchor) (a : Anchor) → is_empty (bucket ++ a ∷ []) ≡ false
append-inhabited [] a = refl
append-inhabited (b ∷ bucket) a = refl

Grouped-push_group :
    (a : Anchor) (out : List Bucket) → All Grouped out → All Grouped (push_group a out)
unfolding push_group
Grouped-push_group a [] h = (((refl, tt), refl), tt)
Grouped-push_group a ((g, bucket) ∷ rest) h = elim (Bool-cases (g == a.group)) [
  | inl e ↦ rw e (
    (
      All-append (λ (b : Anchor). b.group ≡ g) bucket (a ∷ []) h.0.0
          (sym ((option_beq_iff g a.group).0 e), tt),
      append-inhabited bucket a,
    ),
    h.1,
  )
  | inr e ↦ rw e (h.0, Grouped-push_group a rest h.1)
]

Grouped-by_group :
    (reg : Registry) (out : List Bucket) → All Grouped out → All Grouped (by_group reg out)
unfolding by_group
Grouped-by_group [] out h = h
Grouped-by_group ((id, a) ∷ reg) out h =
    Grouped-by_group reg (push_group a out) (Grouped-push_group a out h)

insert_by-inhabited :
    (a : Anchor) (bucket : List Anchor) → is_empty (insert_by anchor_le a bucket) ≡ false
unfolding insert_by
insert_by-inhabited a [] = refl
insert_by-inhabited a (b ∷ bucket) = ground arith

sort_by-inhabited :
    (bucket : List Anchor) → is_empty bucket ≡ false → is_empty (sort_by anchor_le bucket) ≡ false
unfolding sort_by
sort_by-inhabited [] h = cc
sort_by-inhabited (a ∷ bucket) h = insert_by-inhabited a (sort_by anchor_le bucket)

IsTidy-sort_buckets : (out : List Bucket) → All Grouped out → All IsTidy (sort_buckets out)
unfolding sort_buckets
IsTidy-sort_buckets [] h = tt
IsTidy-sort_buckets ((g, bucket) ∷ rest) h = (
  record {
    in_group = All-sort_by anchor_le (λ (a : Anchor). a.group ≡ g) bucket h.0.0;
    ordered =
        Sorted-InOrder anchor_le Before anchor_le-Before (sort_by anchor_le bucket)
          (Sorted-sort_by anchor_le anchor_le-IsOrder bucket);
    inhabited = sort_by-inhabited bucket h.0.1;
  },
  IsTidy-sort_buckets rest h.1,
)

-- How many buckets are there for a group.
abbrev pub times_shown : Option Text → List Bucket → ℕ
times_shown g out = tally (λ (b : Bucket). b.0 == g) out

times-push_own :
    (a : Anchor) (out : List Bucket)
    → times_shown a.group out ≤ 1
    → times_shown a.group (push_group a out) ≤ 1
unfolding push_group
times-push_own a [] h = ground arith
times-push_own a ((k, bucket) ∷ rest) h = ground (arith, times-push_own a rest)

times-push_other :
    (g : Option Text) (a : Anchor) (out : List Bucket)
    → (a.group == g) ≡ false
    → times_shown g (push_group a out) ≡ times_shown g out
unfolding push_group
times-push_other g a [] h = ground arith
times-push_other g a ((k, bucket) ∷ rest) h = ground (arith, times-push_other g a rest)

times-push_group :
    (g : Option Text) (a : Anchor) (out : List Bucket)
    → times_shown g out ≤ 1
    → times_shown g (push_group a out) ≤ 1
times-push_group g a out h = elim (Bool-cases (a.group == g)) [
  | inl e ↦
      let Once : Option Text → Type 0 = λ k. times_shown k out ≤ 1 in
      let Then : Option Text → Type 0 = λ k. times_shown k (push_group a out) ≤ 1 in
      let same : a.group ≡ g = (option_beq_iff a.group g).0 e in
      subst Then same (times-push_own a out (subst Once (sym same) h))
  | inr e ↦ omega (arith, times-push_other g a out e)
]

times-by_group :
    (g : Option Text) (reg : Registry) (out : List Bucket)
    → times_shown g out ≤ 1
    → times_shown g (by_group reg out) ≤ 1
unfolding by_group
times-by_group g [] out h = h
times-by_group g ((id, a) ∷ reg) out h =
    times-by_group g reg (push_group a out) (times-push_group g a out h)

times-sort_buckets :
    (g : Option Text) (out : List Bucket) → times_shown g (sort_buckets out) ≡ times_shown g out
unfolding sort_buckets
times-sort_buckets g [] = refl
times-sort_buckets g ((k, bucket) ∷ rest) = ground (arith, times-sort_buckets g rest)

-- The groups stand in the order of their names, no group twice and the anchors without a group last;
-- under each stand anchors of that group, at least one, the smaller sort key first (an anchor without
-- one counts as 0) and under equal keys the label that is first. No anchor is lost or shown twice:
-- whatever test is counted, the groups together hold as many anchors that pass it as the registry.
pub grouped_for_sidebar_ordered :
    (reg : Registry) (g : Option Text) (p : Anchor → Bool)
    → InOrder (λ (x : Bucket) (y : Bucket). GroupBefore x.0 y.0) (grouped_for_sidebar reg)
      × All IsTidy (grouped_for_sidebar reg)
      × (times_shown g (grouped_for_sidebar reg) ≤ 1)
      × (shown_tally p (grouped_for_sidebar reg) ≡ tally p (values reg))
unfolding grouped_for_sidebar
grouped_for_sidebar_ordered reg g p =
    let buckets = by_group reg [] in
    let once : times_shown g buckets ≤ 1 = times-by_group g reg [] (omega arith) in
    (
      Sorted-InOrder bucket_le (λ (x : Bucket) (y : Bucket). GroupBefore x.0 y.0)
          bucket_le-GroupBefore (sort_by bucket_le (sort_buckets buckets))
          (Sorted-sort_by bucket_le bucket_le-IsOrder (sort_buckets buckets)),
      All-sort_by bucket_le IsTidy (sort_buckets buckets)
          (IsTidy-sort_buckets buckets (Grouped-by_group reg [] tt)),
      omega (
        arith,
        tally-sort_by bucket_le (λ (b : Bucket). b.0 == g) (sort_buckets buckets),
        times-sort_buckets g buckets,
        once,
      ),
      tally-grouped_for_sidebar p reg,
    )
