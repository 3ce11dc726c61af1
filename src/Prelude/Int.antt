-- ===== src/Prelude/Int.antt =====
-- `i64` as an integer, with its order and the saturating increment.
use Prim.Native.Nat.{ℕ, zero, suc, ◌+◌}
use mathlib.Core.Bool.{Bool, true, false}
use lmux.Prelude.Tests.{leb, if◌then◌else◌}

-- `negsuc n` is -(n + 1).
pub data ℤ : Type 0 where
  pos : ℕ → ℤ
  negsuc : ℕ → ℤ

abbrev pub lebℤ : ℤ → ℤ → Bool
lebℤ (pos a) (pos b) = leb a b
lebℤ (pos a) (negsuc b) = false
lebℤ (negsuc a) (pos b) = true
lebℤ (negsuc a) (negsuc b) = leb b a

abbrev pub i64_max : ℕ
i64_max = 9223372036854775807

-- `saturating_add(1)`.
abbrev pub saturating_suc : ℤ → ℤ
saturating_suc (pos a) = if leb i64_max a then pos i64_max else pos (a + 1)
saturating_suc (negsuc zero) = pos 0
saturating_suc (negsuc (suc a)) = negsuc a
