-- ===== src/Tests/Sources.antt =====
-- A choice between four benchmarks, of which two tie on the best bundle; a hyperparameter's value is
-- taken to be a number.
use tig_mining_pool_public.Common.{ℕ, ◌≡◌, refl, true, false, some, [], ◌∷◌, ◌⊎◌}
use tig_mining_pool_public.Common.Bytes.{cmp, codes}
use tig_mining_pool_public.Common.Int.{ℤ, pos, negsuc}
use tig_mining_pool_public.Common.Map.{insert}
use tig_mining_pool_public.Common.Max.{max?}
use tig_mining_pool_public.Common.Sift.{sift, IsDistinct}
use tig_mining_pool_public.Common.Sort.{sort_by, place}
use tig_mining_pool_public.Decision.Source.{
  SourceBenchmark, SourceSelectionInput, filter_benchmark, select_source,
}
use tig_mining_pool_public.Decision.Source.Choice.{IsBest, IsWithout, select_source-IsBest}

abbrev average : SourceBenchmark ℕ
average = record {
  benchmark_id = codes "b1";
  algorithm_id = codes "a";
  track_id = codes "t";
  verified = true;
  fraudulent = false;
  block_confirmed = 7;
  average_quality_by_bundle = pos 40 ∷ pos 42 ∷ [];
  hyperparameters = [];
  fuel_budget = 10;
}

abbrev single : SourceBenchmark ℕ
single = record average {
  benchmark_id = codes "b2";
  average_quality_by_bundle = negsuc 4 ∷ pos 50 ∷ [];
  hyperparameters = (codes "n", 3) ∷ [];
  fuel_budget = 20;
}

abbrev later : SourceBenchmark ℕ
later = record single { benchmark_id = codes "b3"; block_confirmed = 9; fuel_budget = 30 }

abbrev caught : SourceBenchmark ℕ
caught = record single {
  benchmark_id = codes "b4";
  fraudulent = true;
  average_quality_by_bundle = pos 99 ∷ [];
}

abbrev offer : SourceSelectionInput ℕ
offer = record {
  selected_algorithm = codes "a";
  track = codes "t";
  active_benchmarks = average ∷ single ∷ later ∷ caught ∷ [];
}

select_offer :
    ((select_source offer).source_benchmark ≡ some (codes "b3"))
    × ((select_source offer).tie_candidates ≡ some (codes "b2" ∷ codes "b3" ∷ []))
    × ((select_source offer).fuel_budget ≡ some 30)
unfolding select_source sift insert max? sort_by place cmp
select_offer = (refl, refl, refl)

select_source-IsBest_example :
    IsWithout offer (select_source offer)
    ⊎ ((w : SourceBenchmark ℕ) × (q : ℤ) × IsBest offer (select_source offer) w q)
select_source-IsBest_example = select_source-IsBest offer

offer-IsDistinct :
    IsDistinct
      (λ b. b.benchmark_id)
      (filter_benchmark (codes "a") (codes "t"))
      offer.active_benchmarks
unfolding cmp
offer-IsDistinct = ((refl, (refl, (refl, tt))), ((refl, (refl, tt)), ((refl, tt), (tt, tt))))
