-- ===== src/Decision/Ratio/Arithmetic.antt =====
-- crates/pool-decision/src/ratio.rs: the sum of two ratios and the product with an integer.
use native.Mathlib.Nat
use tig_mining_pool_public.Common.{
  ℕ, ◌+◌, ◌*◌, ◌/◌, ◌≤◌, ◌<◌, ◌≡◌, ◌⊎◌, ap, ok, err, arith, inl, inr, Result-cases,
}
use tig_mining_pool_public.Common.Gcd
use tig_mining_pool_public.Common.Words.{u128_size}
use tig_mining_pool_public.Decision.Ratio.{Ratio, overflow, new, checked_add, checked_mul_int}
use tig_mining_pool_public.Decision.Ratio.Exact.{
  IsReduced, IsValue, gcd_pos, reduced, new_reduced, new_pos, new_IsReduced, cross_trans,
}

-- A sum of fractions over the least common denominator is their sum over the product.
sum_rescaled :
    (an ad bn bd g sa sb : ℕ)
    → sa * g ≡ ad
    → sb * g ≡ bd
    → (an * sb + bn * sa) * (ad * bd) ≡ (an * bd + bn * ad) * (ad * sb)
sum_rescaled an ad bn bd g sa sb ea eb =
    let e : sa * bd ≡ ad * sb =
      omega (arith, ap (λ (k : ℕ). k * sb) ea, ap (λ (k : ℕ). sa * k) eb) in
    omega (arith, ap (λ (k : ℕ). bn * ad * k) e)

-- The scaled numerator and the denominator that `checked_add` hands to `new`.
abbrev scaled_sum : Ratio → Ratio → ℕ
scaled_sum a b =
    let g = Gcd.gcd a.denominator b.denominator in
    a.numerator * (b.denominator / g) + b.numerator * (a.denominator / g)

abbrev common_denominator : Ratio → Ratio → ℕ
common_denominator a b = a.denominator * (b.denominator / Gcd.gcd a.denominator b.denominator)

checked_add_inv :
    (a b : Ratio) {r : Ratio}
    → 0 < b.denominator
    → checked_add a b ≡ ok r
    → new (scaled_sum a b) (common_denominator a b) ≡ ok r
unfolding checked_add
checked_add_inv a b h e = ground (arith, gcd_pos a.denominator b.denominator h)

-- For two ratios in lowest terms, a sum that is returned is the exact sum, in lowest terms.
pub checked_add_exact :
    (a b r : Ratio)
    → IsReduced a
    → IsReduced b
    → checked_add a b ≡ ok r
    → IsReduced r
      × IsValue r
          (a.numerator * b.denominator + b.numerator * a.denominator)
          (a.denominator * b.denominator)
checked_add_exact a b r ha hb e = (
  made.0,
  cross_trans r.numerator r.denominator (scaled_sum a b) (common_denominator a b) _ _
      (new_pos _ _ n) made.1
      (sum_rescaled a.numerator a.denominator b.numerator b.denominator _ _ _
        (Nat.div-mul_cancel _ (Gcd.gcd-dvd a.denominator b.denominator).0)
        (Nat.div-mul_cancel _ (Gcd.gcd-dvd a.denominator b.denominator).1)),
)
  where
    n : new (scaled_sum a b) (common_denominator a b) ≡ ok r
    n = checked_add_inv a b hb.positive e

    made : IsReduced r × IsValue r (scaled_sum a b) (common_denominator a b)
    made = new_IsReduced _ _ r n

common_pos : (a b : Ratio) → IsReduced a → IsReduced b → 0 < common_denominator a b
common_pos a b ha hb =
    Nat.mul-pos ha.positive (Gcd.div-gcd-pos_right a.denominator b.denominator hb.positive)

-- The sum is refused only where a term over the least common denominator leaves `u128`.
pub checked_add_total :
    (a b : Ratio)
    → IsReduced a
    → IsReduced b
    → scaled_sum a b < u128_size
    → common_denominator a b < u128_size
    → (r : Ratio) × (checked_add a b ≡ ok r)
unfolding checked_add
checked_add_total a b ha hb p q = (
  reduced (scaled_sum a b) (common_denominator a b),
  ground (
    arith,
    gcd_pos a.denominator b.denominator hb.positive,
    new_reduced (scaled_sum a b) (common_denominator a b),
    common_pos a b ha hb,
  ),
)

checked_mul_int_inv :
    (a : Ratio) (k : ℕ) {r : Ratio}
    → checked_mul_int a k ≡ ok r
    → new (a.numerator * k) a.denominator ≡ ok r
unfolding checked_mul_int
checked_mul_int_inv a k e = ground arith

-- For a ratio in lowest terms, either the product is returned, exact and in lowest terms, and the
-- product of the numerator and the factor is a `u128`, or that product is none and the overflow is
-- reported.
pub checked_mul_int_exact :
    (a : Ratio) (k : ℕ)
    → IsReduced a
    → ((r : Ratio) × (checked_mul_int a k ≡ ok r)
        × (a.numerator * k < u128_size)
        × IsReduced r
        × IsValue r (a.numerator * k) a.denominator)
      ⊎ ((checked_mul_int a k ≡ err (overflow "mul: numerator")) × (u128_size ≤ a.numerator * k))
unfolding checked_mul_int
checked_mul_int_exact a k h = elim (Result-cases (checked_mul_int a k)) [
  | inl (r, e) ↦
      let made = new_IsReduced _ _ r (checked_mul_int_inv a k e) in
      inl (r, e, ground arith, made.0, made.1)
  | inr (x, e) ↦ inr (ground (arith, new_reduced (a.numerator * k) a.denominator h.positive))
]
