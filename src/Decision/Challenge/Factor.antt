-- ===== src/Decision/Challenge/Factor.antt =====
-- crates/pool-decision/src/challenge.rs: the projected raw balancing factor of a challenge.
pub mod Exact
use Prim.Native.String.{String}
use tig_mining_pool_public.Common.{
  ℕ, ◌*◌, Bool, true, false, not, ◌&&◌, ◌||◌, ◌==◌, if◌then◌else◌, Ordering, Option, none, some,
  List, [], ◌∷◌, ◌++◌, map, find?, length, Result, ok, err, ◌>>=◌, ◌>>◌, ok_or, guard, map_err,
}
use tig_mining_pool_public.Common.Bytes.{Bytes, same, before, contains}
use tig_mining_pool_public.Common.Map.{Map, get, get_or, insert}
use tig_mining_pool_public.Common.Sift.{sift}
use tig_mining_pool_public.Common.Words.{
  u128_size, checked_add as add_u128, checked_mul as mul_u128,
}
use tig_mining_pool_public.Decision.Ratio.{
  Ratio, RatioError, overflow, zero_ratio, new, whole, is_zero, checked_add, checked_mul_int,
  checked_cmp,
}
use tig_mining_pool_public.Decision.Challenge.{
  DrawRank, Challenge, InFlightBenchmark, TrackStats, rate, ChallengeSelectionInput, Excluded,
  ProjectionExcluded, track_unknown, ChallengeSelection, ChallengeError, ratio, missing_draw_rank,
  consider,
}

-- The pool's qualifiers of a challenge on a track, zero where the maps have none.
abbrev pub pool_on : Option (Map ℕ) → Bytes → ℕ
pool_on none track = 0
pool_on (some by_track) track = get_or track 0 by_track

-- The sums over the active tracks: the network's and the pool's.
unfoldable pub sum_qualifiers :
    Map ℕ → Option (Map ℕ) → List Bytes → ℕ → ℕ → Result RatioError (ℕ × ℕ)
sum_qualifiers network pool [] network_q pool_q = ok (network_q, pool_q)
sum_qualifiers network pool (track ∷ rest) network_q pool_q = do
  network_q' ← ok_or (add_u128 u128_size network_q (get_or track 0 network)) (overflow "network_q")
  pool_q' ← ok_or (add_u128 u128_size pool_q (pool_on pool track)) (overflow "pool_q")
  sum_qualifiers network pool rest network_q' pool_q'

-- The quotient of two ratios, as the end of the function computes it.
unfoldable pub divide : Ratio → Ratio → Result RatioError Ratio
divide numerator denominator = do
  n ←
      ok_or (mul_u128 u128_size numerator.numerator denominator.denominator)
        (overflow "factor numerator")
  d ←
      ok_or (mul_u128 u128_size denominator.numerator numerator.denominator)
        (overflow "factor denominator")
  new n d

-- The factor over a denominator that is there.
unfoldable pub factor_over : ℕ → Ratio → Ratio → Result RatioError Ratio
unfolding divide
factor_over pool_q expected_addition denominator =
    if is_zero denominator
    then ok zero_ratio
    else checked_add (whole pool_q) expected_addition >>= λ numerator. divide numerator denominator

unfoldable pub projected_raw_factor_of :
    Challenge → Option (Map ℕ) → Ratio → Result RatioError Ratio
unfolding sum_qualifiers factor_over
projected_raw_factor_of c pool expected_addition = do
  sums ← sum_qualifiers c.network_qualifiers_by_track pool c.active_tracks 0 0
  denominator ← checked_add (whole sums.0) expected_addition
  factor_over sums.1 expected_addition denominator
