-- ===== src/Base/Ints.antt =====
-- Differences of amounts, which may be negative: integers over the native numbers.
use Prim.Native.Nat.{ℕ, suc, ◌-◌}
use kruze.Base.Tests.{ltb, if◌then◌else◌}

pub data ℤ : Type 0 where
  pos negsuc : ℕ → ℤ

-- `a - b`
abbrev pub minus : ℕ → ℕ → ℤ
minus a b = if ltb a b then negsuc (b - suc a) else pos (a - b)
