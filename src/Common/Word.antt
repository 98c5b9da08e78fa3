-- ===== src/Common/Word.antt =====
-- Unsigned machine words as native numbers, with the bounds and saturating operations of `u64`.
use Prim.Native.Nat.{ℕ, ◌+◌, ◌-◌, ◌%◌, min}

abbrev pub u64_max : ℕ
u64_max = 18_446_744_073_709_551_615

abbrev pub u64 : ℕ → ℕ
u64 n = n % 18_446_744_073_709_551_616

abbrev pub saturating_add : ℕ → ℕ → ℕ
saturating_add a b = min (a + b) u64_max

-- `-` on the native numbers stops at 0, as `saturating_sub` does.
abbrev pub saturating_sub : ℕ → ℕ → ℕ
saturating_sub a b = a - b
