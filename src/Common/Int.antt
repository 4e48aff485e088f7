-- ===== src/Common/Int.antt =====
-- `i64`: signed integers over the native numbers, and their order.
use Prim.Native.Nat.{ℕ, suc, ◌+◌, ◌-◌, ◌^◌, ◌≤◌, ◌<◌, min, compare, Ordering}
use tig_mining_pool_public.Common.Tests.{ltb, if◌then◌else◌}
use mathlib.Core.Path.{◌≡◌}
use mathlib.Core.Logic.{◌↔◌}
use native.Mathlib.Omega.{arith}
use tig_mining_pool_public.Common.Sort.{IsComparison}

-- `negsuc n` is -(n + 1).
pub data ℤ : Type 0 where
  pos : ℕ → ℤ
  negsuc : ℕ → ℤ

abbrev pub pos_part : ℤ → ℕ
pos_part (pos n) = n
pos_part (negsuc n) = 0

abbrev pub neg_part : ℤ → ℕ
neg_part (pos n) = 0
neg_part (negsuc n) = suc n

infix 50 ◌≤ℤ◌ ◌<ℤ◌
abbrev pub ◌≤ℤ◌ : ℤ → ℤ → Type 0
a ≤ℤ b = pos_part a + neg_part b ≤ pos_part b + neg_part a

abbrev pub ◌<ℤ◌ : ℤ → ℤ → Type 0
a <ℤ b = pos_part a + neg_part b < pos_part b + neg_part a

-- `Ord::cmp`
abbrev pub compare_ℤ : ℤ → ℤ → Ordering
compare_ℤ a b = compare (pos_part a + neg_part b) (pos_part b + neg_part a)

pub compare_ℤ-IsComparison : IsComparison compare_ℤ
compare_ℤ-IsComparison = record {
  swapped = λ a b. ground arith;
  transitive = λ x y z h k. ground arith;
}

pub compare_ℤ-eq_iff : (a b : ℤ) → (compare_ℤ a b ≡ Ordering.eq) ↔ (a ≡ b)
compare_ℤ-eq_iff a b = ground arith

-- The largest value of `i64`, and how far below zero the smallest is.
abbrev pub i64_max : ℕ
i64_max = 2 ^ 63 - 1

-- A number as a difference of two naturals.
infixl 60 ◌⊖◌
abbrev pub ◌⊖◌ : ℕ → ℕ → ℤ
a ⊖ b = if ltb a b then negsuc (b - a - 1) else pos (a - b)

-- The nearest `i64`.
abbrev pub saturate : ℤ → ℤ
saturate (pos n) = pos (min n i64_max)
saturate (negsuc n) = negsuc (min n i64_max)

-- `i64::saturating_sub`
abbrev pub saturating_sub : ℤ → ℤ → ℤ
saturating_sub a b = saturate ((pos_part a + neg_part b) ⊖ (pos_part b + neg_part a))

-- `n.max(0)`
abbrev pub from_0 : ℤ → ℕ
from_0 a = pos_part a
