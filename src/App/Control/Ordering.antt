-- ===== src/App/Control/Ordering.antt =====
-- Dragging rows of the sidebar into an order.
use lmux.Prelude.{
  ℕ, ◌+◌, Option, none, some, List, nat_eq, lookup, lookup-insert, lookup-erase, ◌<◌, ℤ, pos, ◌≡◌,
  arith,
}
use lmux.App.{AppState, Pane, new}
use lmux.App.Anchors.{tag_anchor_core, drop_anchor}

-- Two panes never share an entry of the registry.
abbrev pub Injective : List (ℕ × ℕ) → Type 0
Injective ids = (a b id : ℕ) → lookup a ids ≡ some id → lookup b ids ≡ some id → a ≡ b

-- The registry's ids are told apart, and below the fresh ones.
record IsSeparate {R : Type 0} (s : AppState R) : Type 0 where
  pub one : Injective s.pane_anchor_ids
  pub below : (pane id : ℕ) → lookup pane s.pane_anchor_ids ≡ some id → id < s.fresh

module _ {R : Type 0} where
  -- Tagging a pane, which is all that adds an entry, keeps the ids separate.
  tag_anchor_core-IsSeparate :
      (s : AppState R) (target : ℕ) → IsSeparate s → IsSeparate (tag_anchor_core s target).0
  unfolding tag_anchor_core
  tag_anchor_core-IsSeparate s target h = record {
    one = λ a b id x y. ground (
      arith,
      lookup-insert target a (s.fresh + 1) s.pane_anchor_ids,
      lookup-insert target b (s.fresh + 1) s.pane_anchor_ids,
      h.below a id,
      h.below b id,
      h.one a b id,
      nat_eq.beq_iff target a,
      nat_eq.beq_iff target b,
    );
    below = λ a id x.
        ground (arith, lookup-insert target a (s.fresh + 1) s.pane_anchor_ids, h.below a id);
  }

  -- So does dropping an anchor, which is all that takes one entry away.
  drop_anchor-IsSeparate :
      (s : AppState R) (target : ℕ) → IsSeparate s → IsSeparate (drop_anchor s target)
  unfolding drop_anchor
  drop_anchor-IsSeparate s target h = record {
    one = λ a b id x y. ground (
      arith,
      lookup-erase target a s.pane_anchor_ids,
      lookup-erase target b s.pane_anchor_ids,
      h.one a b id,
    );
    below = λ a id x. ground (arith, lookup-erase target a s.pane_anchor_ids, h.below a id);
  }

  -- The application starts without entries.
  new-IsSeparate : (id : ℕ) (first : Pane) (fresh : ℕ) → IsSeparate (new {R = R} id first fresh)
  unfolding new
  new-IsSeparate id first fresh = record {
    one = λ a b k x y. absurd cc;
    below = λ a k x. absurd cc;
  }

-- The key that the anchor gets: its place, if it was dragged.
abbrev pub key_at : ℕ → Option ℕ → Option ℤ → Option ℤ
key_at idx none old = old
key_at idx (some i) old = some (pos (idx + i))
