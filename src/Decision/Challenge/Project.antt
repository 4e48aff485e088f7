-- ===== src/Decision/Challenge/Project.antt =====
-- crates/pool-decision/src/challenge.rs: what the benchmarks in flight are expected to add.
use tig_mining_pool_public.Common.{ℕ, Option, none, some, List, [], ◌∷◌, Result, ok, ◌>>=◌, map_err}
use tig_mining_pool_public.Common.Bytes.{Bytes}
use tig_mining_pool_public.Common.Map.{Map, get, get_or, insert}
use tig_mining_pool_public.Decision.Ratio.{
  Ratio, RatioError, zero_ratio, checked_add, checked_mul_int,
}
use tig_mining_pool_public.Decision.Challenge.{
  InFlightBenchmark, TrackStats, rate, ChallengeSelectionInput, ProjectionExcluded, track_unknown,
  ChallengeError, ratio,
}

-- `struct Projection`
pub record Projection : Type 0 where
  pub rates : Map (Map (Option Ratio))
  pub expected_q : Map Ratio
  pub excluded : Map ProjectionExcluded
  pub addition : Map Ratio

-- The rate of an algorithm on a track, `none` without statistics or active bundles.
unfoldable pub rate_of : Map (Map TrackStats) → Bytes → Bytes → Result RatioError (Option Ratio)
unfolding rate
rate_of stats algorithm track = elim (get algorithm stats) [
  | none ↦ ok none
  | some by_track ↦ elim (get track by_track) [ none ↦ ok none | some s ↦ rate s ]
]

unfoldable pub expected_of : Option Ratio → ℕ → Result RatioError Ratio
expected_of none num_bundles = ok zero_ratio
expected_of (some r) num_bundles = checked_mul_int r num_bundles

unfoldable pub project_on :
    Map (Map TrackStats) → InFlightBenchmark → Bytes → Projection → Result ChallengeError Projection
unfolding rate_of expected_of
project_on stats b track p = do
  r ← map_err ratio (rate_of stats b.algorithm_id track)
  expected ← map_err ratio (expected_of r b.num_bundles)
  entry ← map_err ratio (checked_add (get_or b.challenge_id zero_ratio p.addition) expected)
  ok (record p {
    rates = insert b.algorithm_id (insert track r (get_or b.algorithm_id [] p.rates)) p.rates;
    expected_q = insert b.benchmark_id expected p.expected_q;
    addition = insert b.challenge_id entry p.addition;
  })

-- The body of the loop over the benchmarks in flight.
unfoldable pub project_one :
    Map (Map TrackStats) → InFlightBenchmark → Projection → Result ChallengeError Projection
unfolding project_on
project_one stats b p = elim b.track_id [
  | none ↦ ok (record p { excluded = insert b.benchmark_id track_unknown p.excluded })
  | some track ↦ project_on stats b track p
]

unfoldable pub project_from :
    Map (Map TrackStats) → List InFlightBenchmark → Projection → Result ChallengeError Projection
unfolding project_one
project_from stats [] p = ok p
project_from stats (b ∷ rest) p = project_one stats b p >>= project_from stats rest

unfoldable pub project : ChallengeSelectionInput → Result ChallengeError Projection
unfolding project_from
project input =
    project_from input.algorithm_track_stats input.confirmed_in_flight_benchmarks
      (record { rates = []; expected_q = []; excluded = []; addition = [] })
