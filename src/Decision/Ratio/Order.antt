-- ===== src/Decision/Ratio/Order.antt =====
-- crates/pool-decision/src/ratio.rs: the comparison, against the order of the fractions.
use native.Mathlib.Nat
use tig_mining_pool_public.Common.{◌*◌, ◌≤◌, ◌<◌, ◌≡◌, ◌⊎◌, Result, ok, err, Ordering, arith}
use tig_mining_pool_public.Common.Words.{u128_size}
use tig_mining_pool_public.Decision.Ratio.{Ratio, RatioError, overflow, checked_cmp}
use tig_mining_pool_public.Decision.Ratio.Exact.{IsReduced, reduced_unique}

-- The order of the fractions, by their cross products.
abbrev pub Le : Ratio → Ratio → Type 0
Le a b = a.numerator * b.denominator ≤ b.numerator * a.denominator

abbrev pub Lt : Ratio → Ratio → Type 0
Lt a b = a.numerator * b.denominator < b.numerator * a.denominator

pub Le_trans : (a b c : Ratio) → 0 < b.denominator → Le a b → Le b c → Le a c
Le_trans a b c pos p q =
    Nat.le_of_mul-le-mul_right {k = b.denominator}
      (omega (arith, Nat.mul-le-mul_right c.denominator p, Nat.mul-le-mul_right a.denominator q))
      pos

-- What a verdict says of the two fractions it compares.
abbrev pub Verdict : Ratio → Ratio → Result RatioError Ordering → Type 0
Verdict a b (ok Ordering.lt) = Lt a b
Verdict a b (ok Ordering.eq) = a ≡ b
Verdict a b (ok Ordering.gt) = Lt b a
Verdict a b (err e) =
    ((e ≡ overflow "cmp: left") × (u128_size ≤ a.numerator * b.denominator))
    ⊎ ((e ≡ overflow "cmp: right") × (u128_size ≤ b.numerator * a.denominator))

-- On fractions in lowest terms `checked_cmp` gives their exact order, equal only for the same
-- fraction; it fails only where the cross product that it names is no `u128`.
pub checked_cmp_exact : (a b : Ratio) → IsReduced a → IsReduced b → Verdict a b (checked_cmp a b)
unfolding checked_cmp
checked_cmp_exact a b ha hb = ground (arith, reduced_unique a b ha hb)
