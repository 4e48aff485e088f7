-- ===== src/Decision/Challenge.antt =====
-- crates/pool-decision/src/challenge.rs: which challenge to work on. A draw rank is the array of
-- its 32 bytes, ordered as the bytes are.
pub mod Eligible
pub mod Project
pub mod Factor
pub mod Tie
pub mod Select
use Prim.Native.String.{String}
use tig_mining_pool_public.Common.{
  ℕ, ◌*◌, Bool, true, false, not, ◌&&◌, ◌||◌, ◌==◌, if◌then◌else◌, Ordering, Option, none, some,
  List, [], ◌∷◌, ◌++◌, map, find?, Result, ok, err, ◌>>=◌, ◌>>◌, ok_or, guard, map_err,
}
use tig_mining_pool_public.Common.Bytes.{Bytes, same, before, contains}
use tig_mining_pool_public.Common.Map.{Map, get, get_or, insert}
use tig_mining_pool_public.Common.Sift.{sift}
use tig_mining_pool_public.Common.Words.{
  u128_size, checked_add as add_u128, checked_mul as mul_u128,
}
use tig_mining_pool_public.Decision.Compute.{OfferedCompute, ComputeType, matches_challenge}
use tig_mining_pool_public.Decision.Ratio.{
  Ratio, RatioError, overflow, zero_ratio, new, whole, is_zero, checked_add, checked_mul_int,
  checked_cmp,
}

abbrev pub DrawRank : Type 0
DrawRank = Bytes

pub record Challenge : Type 0 where
  pub id : Bytes
  pub compute_type : ComputeType
  pub active_tracks : List Bytes
  pub network_qualifiers_by_track : Map ℕ
  pub tracks_with_source : List Bytes

pub record InFlightBenchmark : Type 0 where
  pub benchmark_id : Bytes
  pub challenge_id : Bytes
  pub algorithm_id : Bytes
  pub track_id : Option Bytes
  pub num_bundles : ℕ

pub record TrackStats : Type 0 where
  pub qualifiers : ℕ
  pub active_bundles : ℕ

-- `TrackStats::rate`
unfoldable pub rate : TrackStats → Result RatioError (Option Ratio)
rate s =
    if s.active_bundles == 0
    then ok none
    else (do r ← new s.qualifiers s.active_bundles; ok (some r))

pub record ChallengeSelectionInput : Type 0 where
  pub offered_compute : OfferedCompute
  pub challenges : List Challenge
  pub pool_qualifiers_by_challenge_by_track : Map (Map ℕ)
  pub confirmed_in_flight_benchmarks : List InFlightBenchmark
  pub algorithm_track_stats : Map (Map TrackStats)
  pub draw_ranks : Map DrawRank

pub data Excluded : Type 0 where
  incompatible_compute_type : Excluded
  track_without_source : Bytes → Excluded

pub data ProjectionExcluded : Type 0 where
  track_unknown : ProjectionExcluded

pub record ChallengeSelection : Type 0 where
  pub considered : List Bytes
  pub excluded : Map Excluded
  pub qualifier_rate : Map (Map (Option Ratio))
  pub expected_q : Map Ratio
  pub projection_excluded : Map ProjectionExcluded
  pub expected_addition : Map Ratio
  pub projected_raw_factor : Map Ratio
  pub tie_candidates : Option (List Bytes)
  pub selected : Option Bytes

pub data ChallengeError : Type 0 where
  ratio : RatioError → ChallengeError
  missing_draw_rank : Bytes → ChallengeError

-- The tests of the first loop's body.
unfoldable pub consider : OfferedCompute → Challenge → Result Excluded Challenge
consider compute c = do
  guard (matches_challenge compute c.compute_type) incompatible_compute_type
  elim (find? (λ track. not (contains track c.tracks_with_source)) c.active_tracks) [
    | none ↦ ok c
    | some track ↦ err (track_without_source track)
  ]
