-- ===== src/Base/Ints.antt =====
-- Signed numbers, for the differences of times.
use Prim.Native.Nat.{ℕ, zero, suc, ◌-◌, ◌/◌}
use grapheno.Base.Tests.{if◌then◌else◌, ltb}

-- `negsuc n` is -(n + 1).
pub data ℤ : Type 0 where
  pos : ℕ → ℤ
  negsuc : ℕ → ℤ

-- -n
abbrev pub neg : ℕ → ℤ
neg n = elim n [ zero ↦ pos 0 | suc k ↦ negsuc k ]

-- (a - b) / d, cut towards zero.
abbrev pub diff_div : ℕ → ℕ → ℕ → ℤ
diff_div a b d = if ltb a b then neg ((b - a) / d) else pos ((a - b) / d)
