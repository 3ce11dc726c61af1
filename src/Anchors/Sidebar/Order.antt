-- ===== src/Anchors/Sidebar/Order.antt =====
-- The comparisons of the sidebar are total orders up to equal keys, as `sort_by` asks.
use lmux.Prelude.{
  true, false, Option, none, some, [], ◌∷◌, ◌≡◌, refl, arith, Text, ℤ, lebℤ, IsOrder,
}
use lmux.Anchors.{Anchor, display_label}
use lmux.Anchors.Sidebar.{text_le, key_of, anchor_le, group_le, bucket_le}

text_le-total : (s t : Text) → text_le s t ≡ false → text_le t s ≡ true
text_le-total [] t h = cc
text_le-total (c ∷ s) [] h = refl
text_le-total (c ∷ s) (d ∷ t) h = ground (arith, text_le-total s t)

text_le_trans : (s t u : Text) → text_le s t ≡ true → text_le t u ≡ true → text_le s u ≡ true
text_le_trans [] t u h k = refl
text_le_trans (c ∷ s) [] u h k = cc
text_le_trans (c ∷ s) (d ∷ t) [] h k = cc
text_le_trans (c ∷ s) (d ∷ t) (e ∷ u) h k = ground (arith, text_le_trans s t u)

lebℤ-total : (a b : ℤ) → lebℤ a b ≡ false → lebℤ b a ≡ true
lebℤ-total a b h = ground arith

lebℤ-trans : (a b c : ℤ) → lebℤ a b ≡ true → lebℤ b c ≡ true → lebℤ a c ≡ true
lebℤ-trans a b c h k = ground arith

anchor_le-total : (a b : Anchor) → anchor_le a b ≡ false → anchor_le b a ≡ true
unfolding anchor_le
anchor_le-total a b h =
    ground
      (arith, lebℤ-total (key_of a) (key_of b), text_le-total (display_label a) (display_label b))

anchor_le_trans :
    (a b c : Anchor) → anchor_le a b ≡ true → anchor_le b c ≡ true → anchor_le a c ≡ true
unfolding anchor_le
anchor_le_trans a b c h k = ground (
  arith,
  lebℤ-trans (key_of a) (key_of b) (key_of c),
  lebℤ-trans (key_of c) (key_of a) (key_of b),
  lebℤ-trans (key_of b) (key_of c) (key_of a),
  text_le_trans (display_label a) (display_label b) (display_label c),
)

pub anchor_le-IsOrder : IsOrder anchor_le
anchor_le-IsOrder = record { total = anchor_le-total; trans = anchor_le_trans }

group_le-total : (x y : Option Text) → group_le x y ≡ false → group_le y x ≡ true
group_le-total (some x) (some y) h = text_le-total x y h
group_le-total (some x) none h = cc
group_le-total none (some y) h = refl
group_le-total none none h = refl

group_le_trans :
    (x y z : Option Text) → group_le x y ≡ true → group_le y z ≡ true → group_le x z ≡ true
group_le_trans (some x) (some y) (some z) h k = text_le_trans x y z h k
group_le_trans (some x) y none h k = refl
group_le_trans none (some y) z h k = cc
group_le_trans (some x) none (some z) h k = cc
group_le_trans none none z h k = k

pub bucket_le-IsOrder : IsOrder bucket_le
bucket_le-IsOrder = record {
  total = λ x y. group_le-total x.0 y.0;
  trans = λ x y z. group_le_trans x.0 y.0 z.0;
}
