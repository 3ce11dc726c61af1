-- ===== src/Grants/Views.antt =====
-- The sidebar's counts and rows: `pending_grants_for_anchor`, `active_grants_for_anchor` and
-- `grant_views_for_anchor`.
use lmux.Prelude.{ℕ, ◌+◌, [], ◌∷◌, nat_eq, ◌≡◌, arith, length, retain, ◌&&◌}
use lmux.Grants.{
  Grants, targets, is_active, is_pending_state, as_u32, pending_grants_for_anchor,
  active_grants_for_anchor, grant_views_for_anchor,
}

abbrev pending_at : Grants → ℕ → ℕ
pending_at grants anchor_id =
    length (retain (λ e. targets anchor_id e && is_pending_state e.1.state) grants)

abbrev active_at : Grants → ℕ → ℕ → ℕ
active_at grants anchor_id now =
    length (retain (λ e. targets anchor_id e && is_active now e.1.state) grants)

length-views :
    (grants : Grants) (anchor_id now : ℕ)
    → length (grant_views_for_anchor grants anchor_id now)
      ≡ pending_at grants anchor_id + active_at grants anchor_id now
unfolding grant_views_for_anchor
length-views [] anchor_id now = omega arith
length-views ((id, r) ∷ grants) anchor_id now = ground (arith, length-views grants anchor_id now)

-- At one reading of the clock the sidebar shows a row for each grant that it counts, pending or
-- active, and for no other; the counts are `u32`.
pub length-grant_views :
    (grants : Grants) (anchor_id now : ℕ)
    → as_u32 (length (grant_views_for_anchor grants anchor_id now))
      ≡ as_u32 (
          pending_grants_for_anchor grants anchor_id
          + active_grants_for_anchor grants anchor_id now)
unfolding pending_grants_for_anchor active_grants_for_anchor
length-grant_views grants anchor_id now = omega (arith, length-views grants anchor_id now)
