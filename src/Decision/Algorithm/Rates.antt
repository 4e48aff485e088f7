-- ===== src/Decision/Algorithm/Rates.antt =====
-- crates/pool-decision/src/algorithm.rs: `track_rates`.
use tig_mining_pool_public.Common.{
  ltb, if◌then◌else◌, Bool, true, false, not, ◌&&◌, Option, none, some, List, [], ◌∷◌, Ordering,
  Result, ok, ◌>>=◌, length,
}
use tig_mining_pool_public.Common.Bytes.{Bytes, contains}
use tig_mining_pool_public.Common.Map.{Map, get, get_or, insert}
use tig_mining_pool_public.Decision.Ratio.{Ratio, RatioError, checked_cmp}
use tig_mining_pool_public.Decision.Challenge.{TrackStats, rate}
use tig_mining_pool_public.Decision.Algorithm.{Algorithm}

abbrev pub Rates : Type 0
Rates = Map (Map (Option Ratio))

-- `rates.entry(track).or_default()`
unfoldable pub seed : List Bytes → Rates → Rates
seed [] rates = rates
seed (track ∷ rest) rates = seed rest (insert track (get_or track [] rates) rates)

abbrev pub is_nil : List Bytes → Bool
is_nil [] = true
is_nil (track ∷ rest) = false

-- The rate of one algorithm on one track, where the track counts.
unfoldable pub add_rate : List Bytes → Bytes → Bytes → TrackStats → Rates → Result RatioError Rates
add_rate active_tracks id track stats rates =
    if not (is_nil active_tracks) && not (contains track active_tracks)
    then ok rates
    else (do r ← rate stats; ok (insert track (insert id r (get_or track [] rates)) rates))

unfoldable pub rate_on : List Bytes → Bytes → Map TrackStats → Rates → Result RatioError Rates
unfolding add_rate
rate_on active_tracks id [] rates = ok rates
rate_on active_tracks id ((track, stats) ∷ rest) rates = do
  rates' ← add_rate active_tracks id track stats rates
  rate_on active_tracks id rest rates'

abbrev pub rate_one :
    List Bytes → Algorithm → Option (Map TrackStats) → Rates → Result RatioError Rates
unfolding rate_on
rate_one active_tracks algorithm none rates = ok rates
rate_one active_tracks algorithm (some by_track) rates =
    rate_on active_tracks algorithm.id by_track rates

unfoldable pub rate_all :
    List Algorithm → Map (Map TrackStats) → List Bytes → Rates → Result RatioError Rates
unfolding rate_on
rate_all [] stats active_tracks rates = ok rates
rate_all (algorithm ∷ rest) stats active_tracks rates = do
  rates' ← rate_one active_tracks algorithm (get algorithm.id stats) rates
  rate_all rest stats active_tracks rates'

abbrev pub Best : Type 0
Best = Option (Bytes × Ratio)

abbrev pub by_order : Bytes → Ratio → Bytes × Ratio → Ordering → Bytes × Ratio
by_order id rate best Ordering.gt = (id, rate)
by_order id rate best Ordering.eq = best
by_order id rate best Ordering.lt = best

-- One round of the search for the best.
unfoldable pub challenge_best : Bytes → Option Ratio → Best → Result RatioError Best
challenge_best id none best = ok best
challenge_best id (some r) none = ok (some (id, r))
challenge_best id (some r) (some best) = do
  order ← checked_cmp r best.1
  ok (some (by_order id r best order))

unfoldable pub best_from : Map (Option Ratio) → Best → Result RatioError Best
unfolding challenge_best
best_from [] best = ok best
best_from ((id, r) ∷ rest) best = do best' ← challenge_best id r best; best_from rest best'

abbrev pub is_equal : Ordering → Bool
is_equal Ordering.eq = true
is_equal Ordering.lt = false
is_equal Ordering.gt = false

-- The algorithms whose rate is the best.
unfoldable pub tied_with : Ratio → Map (Option Ratio) → Result RatioError (List Bytes)
tied_with best [] = ok []
tied_with best ((id, none) ∷ rest) = tied_with best rest
tied_with best ((id, some r) ∷ rest) = do
  order ← checked_cmp r best
  tied ← tied_with best rest
  ok (if is_equal order then id ∷ tied else tied)

abbrev pub ties_of : Best → Map (Option Ratio) → Result RatioError (List Bytes)
unfolding tied_with
ties_of none by_algorithm = ok []
ties_of (some best) by_algorithm = tied_with best.1 by_algorithm

abbrev pub name_of : Best → Option Bytes
name_of none = none
name_of (some best) = some best.0

pub record TrackRates : Type 0 where
  pub rates : Rates
  pub best_on_track : Map (Option Bytes)
  pub ties : Map (List Bytes)

unfoldable pub best_all : Rates → TrackRates → Result RatioError TrackRates
unfolding best_from tied_with
best_all [] acc = ok acc
best_all ((track, by_algorithm) ∷ rest) acc = do
  best ← best_from by_algorithm none
  tied ← ties_of best by_algorithm
  best_all rest (record acc {
    best_on_track = insert track (name_of best) acc.best_on_track;
    ties = if ltb 1 (length tied) then insert track tied acc.ties else acc.ties;
  })

unfoldable pub track_rates :
    List Algorithm → Map (Map TrackStats) → List Bytes → Result RatioError TrackRates
unfolding seed rate_all best_all
track_rates candidates stats active_tracks = do
  rates ← rate_all candidates stats active_tracks (seed active_tracks [])
  best_all rates (record { rates = rates; best_on_track = []; ties = [] })
