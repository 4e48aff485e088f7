-- ===== src/Tests/Algorithms.antt =====
-- Three adopted algorithms of which two tie, one without a binary, and the rates of one track.
use tig_mining_pool_public.Common.{
  ◌≡◌, true, false, none, refl, some, Option, List, [], ◌∷◌, ok, arith,
}
use tig_mining_pool_public.Common.Bytes.{cmp, codes, contains}
use tig_mining_pool_public.Common.Gcd
use tig_mining_pool_public.Common.Map.{Map, get, insert}
use tig_mining_pool_public.Common.Max.{max?}
use tig_mining_pool_public.Common.Sort.{place, sort_by}
use tig_mining_pool_public.Decision.Ratio.{Ratio, gcd, new, checked_cmp}
use tig_mining_pool_public.Decision.Ratio.Exact.{IsReduced}
use tig_mining_pool_public.Decision.Challenge.{rate}
use tig_mining_pool_public.Decision.Algorithm.{
  Algorithm, AlgorithmSelectionInput, AlgorithmSelection, filter_one, filter_all, zero_adoption,
  no_successful_binary,
}
use tig_mining_pool_public.Decision.Algorithm.Rates.{
  seed, add_rate, rate_on, rate_all, challenge_best, best_from, tied_with, best_all, track_rates,
}
use tig_mining_pool_public.Decision.Algorithm.Select.{tied_for, flags, select_algorithm}
use tig_mining_pool_public.Decision.Algorithm.Adopted.{Names, select_algorithm-Names}
use tig_mining_pool_public.Decision.Algorithm.Greatest.{best_from-IsGreatest, IsGreatest}

abbrev algorithm_b : Algorithm
algorithm_b = record { id = codes "b"; banned = false; has_successful_binary = true; adoption = 7 }

abbrev choices : List Algorithm
choices =
    algorithm_b
    ∷ record algorithm_b { id = codes "c"; has_successful_binary = false; adoption = 9 }
    ∷ record algorithm_b { id = codes "a" }
    ∷ record algorithm_b { id = codes "d"; adoption = 0 }
    ∷ []

abbrev offered : AlgorithmSelectionInput
offered = record {
  algorithms = choices;
  algorithm_track_stats =
      (codes "a", (codes "t", record { qualifiers = 2; active_bundles = 4 }) ∷ [])
      ∷ (codes "d", (codes "t", record { qualifiers = 3; active_bundles = 4 }) ∷ [])
      ∷ [];
  active_tracks = codes "t" ∷ codes "u" ∷ [];
}

abbrev half : Ratio
half = record { numerator = 1; denominator = 2 }

abbrev three_quarters : Ratio
three_quarters = record { numerator = 3; denominator = 4 }

abbrev selection : AlgorithmSelection
selection = record {
  candidates_after_filters = codes "a" ∷ codes "b" ∷ [];
  excluded = (codes "c", no_successful_binary) ∷ (codes "d", zero_adoption) ∷ [];
  tie_candidates = some (codes "a" ∷ codes "b" ∷ []);
  selected = some (codes "a");
  track_qualifier_rate =
      (codes "t", (codes "a", some half) ∷ (codes "d", some three_quarters) ∷ [])
      ∷ (codes "u", [])
      ∷ [];
  best_on_track = (codes "t", some (codes "d")) ∷ (codes "u", none) ∷ [];
  track_rate_tie_candidates = [];
  selected_is_best_on_track = (codes "t", false) ∷ (codes "u", false) ∷ [];
}

run : select_algorithm offered ≡ ok selection
unfolding select_algorithm track_rates best_all rate_all rate_on add_rate seed rate new gcd Gcd.gcd
    checked_cmp challenge_best best_from tied_with tied_for flags filter_all filter_one max? sort_by
    place get insert cmp contains
run = refl

select_algorithm-Names_example : Names choices (some (codes "a"))
select_algorithm-Names_example = select_algorithm-Names offered selection run

abbrev rates_on_t : Map (Option Ratio)
rates_on_t =
    (codes "a", some half)
    ∷ (codes "c", none)
    ∷ (codes "d", some three_quarters)
    ∷ (codes "e", some three_quarters)
    ∷ []

half-IsReduced : IsReduced half
unfolding Gcd.gcd
half-IsReduced = record { positive = omega arith; lowest = refl }

three_quarters-IsReduced : IsReduced three_quarters
unfolding Gcd.gcd
three_quarters-IsReduced = record { positive = omega arith; lowest = refl }

search_t : best_from rates_on_t none ≡ ok (some (codes "d", three_quarters))
unfolding best_from challenge_best checked_cmp
search_t = refl

best_from-IsGreatest_example : IsGreatest rates_on_t (some (codes "d", three_quarters))
unfolding cmp
best_from-IsGreatest_example =
    best_from-IsGreatest rates_on_t (some (codes "d", three_quarters))
      (half-IsReduced, (three_quarters-IsReduced, (three_quarters-IsReduced, tt)))
      ((refl, (refl, (refl, tt))), ((refl, (refl, tt)), ((refl, tt), (tt, tt)))) search_t
