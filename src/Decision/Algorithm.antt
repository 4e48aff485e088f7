-- ===== src/Decision/Algorithm.antt =====
-- crates/pool-decision/src/algorithm.rs: which algorithm to run, and on which tracks it is the best.
pub mod Rates
pub mod Select
pub mod Adopted
pub mod Beats
pub mod Greatest
use tig_mining_pool_public.Common.{
  ℕ, ◌==◌, not, Bool, if◌then◌else◌, Option, List, [], ◌∷◌, ◌++◌, Ordering,
}
use tig_mining_pool_public.Common.Bytes.{Bytes, cmp}
use tig_mining_pool_public.Common.Map.{Map, insert}
use tig_mining_pool_public.Decision.Ratio.{Ratio}
use tig_mining_pool_public.Decision.Challenge.{TrackStats}

pub record Algorithm : Type 0 where
  pub id : Bytes
  pub banned : Bool
  pub has_successful_binary : Bool
  pub adoption : ℕ

pub data AlgorithmExcluded : Type 0 where
  is_banned no_successful_binary zero_adoption : AlgorithmExcluded

pub record AlgorithmSelectionInput : Type 0 where
  pub algorithms : List Algorithm
  pub algorithm_track_stats : Map (Map TrackStats)
  pub active_tracks : List Bytes

pub record AlgorithmSelection : Type 0 where
  pub candidates_after_filters : List Bytes
  pub excluded : Map AlgorithmExcluded
  pub tie_candidates : Option (List Bytes)
  pub selected : Option Bytes
  pub track_qualifier_rate : Map (Map (Option Ratio))
  pub best_on_track : Map (Option Bytes)
  pub track_rate_tie_candidates : Map (List Bytes)
  pub selected_is_best_on_track : Map Bool

-- What the first loop of `select_algorithm` has filled.
pub record Filtered : Type 0 where
  pub excluded : Map AlgorithmExcluded
  pub step_one_survivors : List Algorithm
  pub candidates : List Algorithm

-- The body of the loop.
unfoldable pub filter_one : Algorithm → Filtered → Filtered
filter_one a s =
    if a.banned
    then record s { excluded = insert a.id is_banned s.excluded }
    else (if not a.has_successful_binary
        then record s { excluded = insert a.id no_successful_binary s.excluded }
        else (if a.adoption == 0
            then record s {
              step_one_survivors = s.step_one_survivors ++ (a ∷ []);
              excluded = insert a.id zero_adoption s.excluded;
            }
            else record s {
              step_one_survivors = s.step_one_survivors ++ (a ∷ []);
              candidates = s.candidates ++ (a ∷ []);
            }))

unfoldable pub filter_all : List Algorithm → Filtered → Filtered
unfolding filter_one
filter_all [] s = s
filter_all (a ∷ rest) s = filter_all rest (filter_one a s)

abbrev pub filtered : List Algorithm → Filtered
unfolding filter_all
filtered algorithms =
    filter_all algorithms (record { excluded = []; step_one_survivors = []; candidates = [] })

-- The order of the two sorts.
abbrev pub by_id : Algorithm → Algorithm → Ordering
by_id a b = cmp a.id b.id
