-- ===== src/Decision/Challenge/Select.antt =====
-- crates/pool-decision/src/challenge.rs: `select_challenge`.
pub mod Additions
pub mod Scores
pub mod Selected
pub mod LeftOut
use Prim.Native.String.{String}
use tig_mining_pool_public.Common.{
  ℕ, ◌*◌, Bool, true, false, not, ◌&&◌, ◌||◌, ◌==◌, if◌then◌else◌, Ordering, Option, none, some,
  List, [], ◌∷◌, ◌++◌, map, find?, length, Result, ok, err, ◌>>=◌, ◌>>◌, ok_or, guard, map_err,
}
use tig_mining_pool_public.Common.Bytes.{Bytes, same, before, contains}
use tig_mining_pool_public.Common.Map.{Map, get, get_or, insert}
use tig_mining_pool_public.Common.Sift.{sift}
use tig_mining_pool_public.Common.Words.{
  u128_size, checked_add as add_u128, checked_mul as mul_u128,
}
use tig_mining_pool_public.Decision.Ratio.{
  Ratio, RatioError, overflow, zero_ratio, new, whole, is_zero, checked_add, checked_mul_int,
  checked_cmp,
}
use tig_mining_pool_public.Decision.Challenge.{
  DrawRank, Challenge, InFlightBenchmark, TrackStats, rate, ChallengeSelectionInput, Excluded,
  ProjectionExcluded, track_unknown, ChallengeSelection, ChallengeError, ratio, missing_draw_rank,
  consider,
}
use tig_mining_pool_public.Decision.Challenge.Project.{Projection, project}
use tig_mining_pool_public.Decision.Challenge.Factor.{projected_raw_factor_of}
use tig_mining_pool_public.Decision.Challenge.Tie.{lowest_factor, resolve_tie}

-- The loop over the considered challenges: the additions and the factors.
unfoldable pub score :
    ChallengeSelectionInput
    → Projection
    → List Challenge
    → Map Ratio × Map Ratio
    → Result ChallengeError (Map Ratio × Map Ratio)
score input p [] acc = ok acc
score input p (c ∷ rest) acc = do
  let addition = get_or c.id zero_ratio p.addition
  factor ←
      map_err ratio
        (projected_raw_factor_of c (get c.id input.pool_qualifiers_by_challenge_by_track) addition)
  score input p rest (insert c.id addition acc.0, insert c.id factor acc.1)

-- The three cases on the challenges of the lowest factor: the tie, if any, and the selected one.
unfoldable pub settle :
    Option (List Bytes) → Map DrawRank → Result ChallengeError (Option (List Bytes) × Option Bytes)
settle none draw_ranks = ok (none, none)
settle (some (id ∷ [])) draw_ranks = ok (none, some id)
settle (some tied) draw_ranks = do winner ← resolve_tie tied draw_ranks; ok (some tied, some winner)

unfoldable pub select_challenge : ChallengeSelectionInput → Result ChallengeError ChallengeSelection
unfolding score settle
select_challenge input = do
  let sifted = sift (λ (c : Challenge). c.id) (consider input.offered_compute) input.challenges
  projection ← project input
  scores ← score input projection sifted.kept ([], [])
  lowest ← lowest_factor scores.1
  settled ← settle lowest input.draw_ranks
  ok (record {
    considered = map (λ c. c.id) sifted.kept;
    excluded = sifted.excluded;
    qualifier_rate = projection.rates;
    expected_q = projection.expected_q;
    projection_excluded = projection.excluded;
    expected_addition = scores.0;
    projected_raw_factor = scores.1;
    tie_candidates = settled.0;
    selected = settled.1;
  })
