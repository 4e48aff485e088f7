-- ===== src/Decision/Ratio.antt =====
-- crates/pool-decision/src/ratio.rs: non-negative rationals in lowest terms over `u128`. A value is
-- a native number, and each product and sum that the code checks is checked against `2 ^ 128`.
pub mod Exact
pub mod Arithmetic
pub mod Order
use Prim.Native.String.{String}
use tig_mining_pool_public.Common.{
  ℕ, ◌+◌, ◌*◌, ◌/◌, Bool, ◌==◌, if◌then◌else◌, Result, ok, err, ◌>>=◌, ok_or, compare, Ordering,
}
use tig_mining_pool_public.Common.Gcd
use tig_mining_pool_public.Common.Words.{
  u128_size, checked_add as add_u128, checked_mul as mul_u128,
}

pub record Ratio : Type 0 where
  pub numerator : ℕ
  pub denominator : ℕ

pub data RatioError : Type 0 where
  zero_denominator : RatioError
  overflow : String → RatioError

abbrev pub zero_ratio : Ratio
zero_ratio = record { numerator = 0; denominator = 1 }

-- `gcd(0, 0)` is no divisor, so it is read as 1.
unfoldable pub gcd : ℕ → ℕ → ℕ
gcd a b = if Gcd.gcd a b == 0 then 1 else Gcd.gcd a b

unfoldable pub new : ℕ → ℕ → Result RatioError Ratio
new n d =
    if d == 0
    then err zero_denominator
    else ok (record { numerator = n / gcd n d; denominator = d / gcd n d })

unfoldable pub whole : ℕ → Ratio
whole value = record { numerator = value; denominator = 1 }

unfoldable pub is_zero : Ratio → Bool
is_zero r = r.numerator == 0

unfoldable pub checked_add : Ratio → Ratio → Result RatioError Ratio
checked_add a b = do
  let divisor = gcd a.denominator b.denominator
  let other_scale = b.denominator / divisor
  left ← ok_or (mul_u128 u128_size a.numerator other_scale) (overflow "add: left numerator")
  right ←
      ok_or (mul_u128 u128_size b.numerator (a.denominator / divisor))
        (overflow "add: right numerator")
  numerator ← ok_or (add_u128 u128_size left right) (overflow "add: numerator")
  denominator ← ok_or (mul_u128 u128_size a.denominator other_scale) (overflow "add: denominator")
  new numerator denominator

unfoldable pub checked_mul_int : Ratio → ℕ → Result RatioError Ratio
checked_mul_int r factor = do
  numerator ← ok_or (mul_u128 u128_size r.numerator factor) (overflow "mul: numerator")
  new numerator r.denominator

unfoldable pub checked_cmp : Ratio → Ratio → Result RatioError Ordering
checked_cmp a b = do
  left ← ok_or (mul_u128 u128_size a.numerator b.denominator) (overflow "cmp: left")
  right ← ok_or (mul_u128 u128_size b.numerator a.denominator) (overflow "cmp: right")
  ok (compare left right)
