-- ===== src/Decision/Challenge/Tie.antt =====
-- crates/pool-decision/src/challenge.rs: the lowest factor, and the draw between challenges that
-- share it.
pub mod Lowest
pub mod Draw
pub mod Held
use Prim.Native.String.{String}
use tig_mining_pool_public.Common.{
  ℕ, ◌*◌, Bool, true, false, not, ◌&&◌, ◌||◌, ◌==◌, if◌then◌else◌, Ordering, Option, none, some,
  List, [], ◌∷◌, ◌++◌, map, find?, length, Result, ok, err, ◌>>=◌, ◌>>◌, ok_or, guard, map_err,
}
use tig_mining_pool_public.Common.Bytes.{Bytes, same, before, contains}
use tig_mining_pool_public.Common.Map.{Map, get, get_or, insert}
use tig_mining_pool_public.Common.Sift.{sift}
use tig_mining_pool_public.Common.Words.{
  u128_size, checked_add as add_u128, checked_mul as mul_u128,
}
use tig_mining_pool_public.Decision.Ratio.{
  Ratio, RatioError, overflow, zero_ratio, new, whole, is_zero, checked_add, checked_mul_int,
  checked_cmp,
}
use tig_mining_pool_public.Decision.Challenge.{
  DrawRank, Challenge, InFlightBenchmark, TrackStats, rate, ChallengeSelectionInput, Excluded,
  ProjectionExcluded, track_unknown, ChallengeSelection, ChallengeError, ratio, missing_draw_rank,
  consider,
}

-- The lowest factor so far, and the challenges that hold it, in the order of their ids.
abbrev pub Best : Type 0
Best = Option (Ratio × List Bytes)

abbrev pub by_order : Bytes → Ratio → Ratio → List Bytes → Ordering → Ratio × List Bytes
by_order id factor lowest ids Ordering.lt = (factor, id ∷ [])
by_order id factor lowest ids Ordering.eq = (lowest, ids ++ (id ∷ []))
by_order id factor lowest ids Ordering.gt = (lowest, ids)

-- The body of the loop.
unfoldable pub lower : Bytes → Ratio → Best → Result RatioError Best
lower id factor none = ok (some (factor, id ∷ []))
lower id factor (some (lowest, ids)) = do
  order ← checked_cmp factor lowest
  ok (some (by_order id factor lowest ids order))

unfoldable pub lowest_from : Map Ratio → Best → Result RatioError Best
unfolding lower
lowest_from [] best = ok best
lowest_from ((id, factor) ∷ rest) best = lower id factor best >>= lowest_from rest

abbrev pub holders_of : Best → Option (List Bytes)
holders_of none = none
holders_of (some (_, ids)) = some ids

unfoldable pub lowest_factor : Map Ratio → Result ChallengeError (Option (List Bytes))
unfolding lowest_from
lowest_factor factors = do best ← map_err ratio (lowest_from factors none); ok (holders_of best)

-- The smaller rank, and of equal ranks the smaller id.
unfoldable pub draw : Bytes → DrawRank → Option (Bytes × DrawRank) → Bytes × DrawRank
draw id rank none = (id, rank)
draw id rank (some (best_id, best_rank)) =
    if before rank best_rank || (same rank best_rank && before id best_id)
    then (id, rank)
    else (best_id, best_rank)

unfoldable pub resolve_from :
    Map DrawRank
    → List Bytes
    → Option (Bytes × DrawRank)
    → Result ChallengeError (Option (Bytes × DrawRank))
unfolding draw
resolve_from draw_ranks [] best = ok best
resolve_from draw_ranks (id ∷ rest) best = do
  rank ← ok_or (get id draw_ranks) (missing_draw_rank id)
  resolve_from draw_ranks rest (some (draw id rank best))

unfoldable pub resolve_tie : List Bytes → Map DrawRank → Result ChallengeError Bytes
unfolding resolve_from
resolve_tie tied draw_ranks = do
  best ← resolve_from draw_ranks tied none
  elim best [ none ↦ err (missing_draw_rank []) | some (id, _) ↦ ok id ]
