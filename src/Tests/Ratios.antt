-- ===== src/Tests/Ratios.antt =====
-- The ratios of crates/pool-decision/src/ratio.rs and its tests.
use tig_mining_pool_public.Common.{◌≡◌, refl, ok, Ordering, arith}
use tig_mining_pool_public.Common.Gcd
use tig_mining_pool_public.Decision.Ratio.{Ratio, gcd, new, checked_add, checked_cmp}
use tig_mining_pool_public.Decision.Ratio.Exact.{IsReduced}
use tig_mining_pool_public.Decision.Ratio.Order.{Verdict, checked_cmp_exact}

abbrev tenth : Ratio
tenth = record { numerator = 1; denominator = 10 }

abbrev third : Ratio
third = record { numerator = 1; denominator = 3 }

abbrev sixth : Ratio
sixth = record { numerator = 1; denominator = 6 }

abbrev half : Ratio
half = record { numerator = 1; denominator = 2 }

third-IsReduced : IsReduced third
unfolding Gcd.gcd
third-IsReduced = record { positive = omega arith; lowest = refl }

sixth-IsReduced : IsReduced sixth
unfolding Gcd.gcd
sixth-IsReduced = record { positive = omega arith; lowest = refl }

-- The sum of the source's test.
third_and_sixth : checked_add third sixth ≡ ok half
unfolding checked_add new gcd Gcd.gcd
third_and_sixth = refl

-- The comparison of the source's test.
closest :
    checked_cmp
      (record { numerator = 29; denominator = 137 })
      (record { numerator = 1; denominator = 5 })
    ≡ ok Ordering.gt
unfolding checked_cmp
closest = refl

checked_cmp_exact_example : Verdict third sixth (checked_cmp third sixth)
checked_cmp_exact_example = checked_cmp_exact third sixth third-IsReduced sixth-IsReduced
