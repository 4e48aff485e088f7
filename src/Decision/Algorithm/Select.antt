-- ===== src/Decision/Algorithm/Select.antt =====
-- crates/pool-decision/src/algorithm.rs: `select_algorithm`.
use tig_mining_pool_public.Common.{
  ℕ, ltb, ◌==◌, if◌then◌else◌, compare, Bool, false, Option, none, some, List, [], map, keep, head?,
  length, Result, ok, ◌>>=◌,
}
use tig_mining_pool_public.Common.Bytes.{Bytes, same}
use tig_mining_pool_public.Common.Map.{Map}
use tig_mining_pool_public.Common.Max.{max?}
use tig_mining_pool_public.Common.Sort.{sort_by}
use tig_mining_pool_public.Decision.Ratio.{RatioError}
use tig_mining_pool_public.Decision.Algorithm.{
  Algorithm, AlgorithmSelectionInput, AlgorithmSelection, filter_all, filtered, by_id,
}
use tig_mining_pool_public.Decision.Algorithm.Rates.{track_rates}

-- The candidates of the highest adoption, in their order.
abbrev pub tied_at : Option ℕ → List Algorithm → List Algorithm
tied_at none candidates = []
tied_at (some highest) candidates = keep (λ a. a.adoption == highest) candidates

unfoldable pub tied_for : List Algorithm → List Algorithm
tied_for candidates = tied_at (max? compare (map (λ a. a.adoption) candidates)) candidates

abbrev pub is_best : Option Bytes → Option Bytes → Bool
is_best none selected = false
is_best (some best) none = false
is_best (some best) (some selected) = same best selected

unfoldable pub flags : Option Bytes → Map (Option Bytes) → Map Bool
flags selected = map (λ e. (e.0, is_best e.1 selected))

unfoldable pub select_algorithm : AlgorithmSelectionInput → Result RatioError AlgorithmSelection
unfolding filter_all tied_for flags
select_algorithm input = do
  let sifted = filtered input.algorithms
  let candidates = sort_by by_id sifted.candidates
  let tied = map (λ a. a.id) (tied_for candidates)
  let selected = head? tied
  per_track ←
      track_rates (sort_by by_id sifted.step_one_survivors) input.algorithm_track_stats
        input.active_tracks
  ok (record {
    candidates_after_filters = map (λ a. a.id) candidates;
    excluded = sifted.excluded;
    tie_candidates = if ltb 1 (length tied) then some tied else none;
    selected = selected;
    track_qualifier_rate = per_track.rates;
    best_on_track = per_track.best_on_track;
    track_rate_tie_candidates = per_track.ties;
    selected_is_best_on_track = flags selected per_track.best_on_track;
  })
