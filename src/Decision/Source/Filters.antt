-- ===== src/Decision/Source/Filters.antt =====
-- crates/pool-decision/src/source.rs: which benchmarks of source.rs can be a source, and why the others are left out.
use tig_mining_pool_public.Common.{◌≡◌, ◌≢◌, true, false, some, [], ok, err, arith, In}
use tig_mining_pool_public.Common.Bytes.{Bytes, cmp_refl, eq_of_cmp, same-eq}
use tig_mining_pool_public.Common.Int.{ℤ, ◌≤ℤ◌, compare_ℤ, compare_ℤ-IsComparison}
use tig_mining_pool_public.Common.Max.{max?, max?-In, max?_upper, max?-some, max?-none}
use tig_mining_pool_public.Decision.Source.{
  SourceBenchmark, SourceExcluded, not_verified, no_active_bundles, different_algorithm,
  different_track, filter_benchmark,
}

-- A benchmark that §6.6 lets be a source, with its best bundle.
pub record IsEligible {V : Type 0} (algorithm track : Bytes) (b : SourceBenchmark V) (best : ℤ)
    : Type 0 where
  pub same_algorithm : b.algorithm_id ≡ algorithm
  pub same_track : b.track_id ≡ track
  pub honest : b.fraudulent ≡ false
  pub verified : b.verified ≡ true
  pub held : In best b.average_quality_by_bundle
  pub highest : (q : ℤ) → In q b.average_quality_by_bundle → q ≤ℤ best

module _ {V : Type 0} (algorithm track : Bytes) (b : SourceBenchmark V) where
  best_of_max :
      {best : ℤ}
      → max? compare_ℤ b.average_quality_by_bundle ≡ some best
      → In best b.average_quality_by_bundle
        × ((q : ℤ) → In q b.average_quality_by_bundle → q ≤ℤ best)
  best_of_max {best} e = (
    max?-In compare_ℤ best _ e,
    λ q i. let up = max?_upper compare_ℤ compare_ℤ-IsComparison best _ e q i in ground arith,
  )

  pub filter-IsEligible :
      {best : ℤ}
      → filter_benchmark algorithm track b ≡ ok (b, best)
      → IsEligible algorithm track b best
  unfolding filter_benchmark
  filter-IsEligible {best} e =
      let top = best_of_max {best = best} (ground arith) in
      record {
        same_algorithm = same-eq _ _ (ground arith);
        same_track = same-eq _ _ (ground arith);
        honest = ground arith;
        verified = ground arith;
        held = top.0;
        highest = top.1;
      }

  pub IsEligible-filter :
      {best : ℤ}
      → IsEligible algorithm track b best
      → filter_benchmark algorithm track b ≡ ok (b, best)
  unfolding filter_benchmark
  IsEligible-filter {best} h =
      let (m, e) = max?-some compare_ℤ best b.average_quality_by_bundle h.held in
      let below = h.highest m (max?-In compare_ℤ m _ e) in
      let above = max?_upper compare_ℤ compare_ℤ-IsComparison m _ e best h.held in
      let q : m ≡ best = ground arith in
      let e' : max? compare_ℤ b.average_quality_by_bundle ≡ some best = rw q at e in
      rw (
        h.same_algorithm,
        h.same_track,
        h.honest,
        h.verified,
        e',
        cmp_refl algorithm,
        cmp_refl track,
      )

  -- The first test that a benchmark fails, in the order of the code.
  abbrev pub FailsFor : SourceExcluded → Type 0
  FailsFor (different_algorithm a) = (b.algorithm_id ≢ algorithm) × (a ≡ b.algorithm_id)
  FailsFor (different_track t) =
      (b.algorithm_id ≡ algorithm) × (b.track_id ≢ track) × (t ≡ b.track_id)
  FailsFor SourceExcluded.fraudulent =
      (b.algorithm_id ≡ algorithm) × (b.track_id ≡ track) × (b.fraudulent ≡ true)
  FailsFor not_verified =
      (b.algorithm_id ≡ algorithm)
      × (b.track_id ≡ track)
      × (b.fraudulent ≡ false)
      × (b.verified ≡ false)
  FailsFor no_active_bundles =
      (b.algorithm_id ≡ algorithm)
      × (b.track_id ≡ track)
      × (b.fraudulent ≡ false)
      × (b.verified ≡ true)
      × (b.average_quality_by_bundle ≡ [])

  pub filter-FailsFor :
      (why : SourceExcluded) → filter_benchmark algorithm track b ≡ err why → FailsFor why
  unfolding filter_benchmark
  filter-FailsFor why e = ground (
    arith,
    cmp_refl algorithm,
    cmp_refl track,
    eq_of_cmp b.algorithm_id algorithm,
    eq_of_cmp b.track_id track,
    max?-none compare_ℤ b.average_quality_by_bundle,
  )
