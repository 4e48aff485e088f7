-- ===== src/Controller/Draw/Chosen.antt =====
-- crates/pool-controller/src/propose.rs: the ranks that a proposal derives are enough for its draw.
use tig_mining_pool_public.Common.{
  ◌≡◌, ◌≢◌, inl, inr, refl, ap, ◌∙◌, Option-cases, subst, true, Option, some, none, List, [], ◌∷◌,
  map, Result, ok, err, ◌>>=◌, map_err, In, In-map, In-keep,
}
use tig_mining_pool_public.Common.Bytes.{Bytes, contains_iff}
use tig_mining_pool_public.Common.Map.{Map}
use tig_mining_pool_public.Common.Sift.{sift}
use tig_mining_pool_public.Decision.Compute.{OfferedCompute, matches_challenge}
use tig_mining_pool_public.Decision.Ratio.{Ratio, RatioError}
use tig_mining_pool_public.Decision.Challenge.{
  Challenge, InFlightBenchmark, TrackStats, ChallengeSelectionInput, ChallengeError, ratio,
  missing_draw_rank, consider,
}
use tig_mining_pool_public.Decision.Challenge.Eligible.{IsConsiderable}
use tig_mining_pool_public.Decision.Challenge.Project.{
  Projection, project, project_from, project_one, project_on,
}
use tig_mining_pool_public.Decision.Challenge.Tie.{lowest_factor}
use tig_mining_pool_public.Decision.Challenge.Tie.Held.{lowest_factor-held}
use tig_mining_pool_public.Decision.Challenge.Tie.Lowest.{lowest_factor_least}
use tig_mining_pool_public.Decision.Challenge.Select.{score, settle, select_challenge}
use tig_mining_pool_public.Decision.Challenge.Select.Additions.{project-HasReduced}
use tig_mining_pool_public.Decision.Challenge.Select.Scores.{scored, scores-AllReduced}
use tig_mining_pool_public.Decision.Challenge.Select.Selected.{challenge_id, considered-IsChallenge}
use tig_mining_pool_public.Domain.TieDraw.{draw_ranks}
use tig_mining_pool_public.Domain.TieDraw.Ranked.{draw_ranks-IsFirst}
use tig_mining_pool_public.Gateway.Network.{Network}
use tig_mining_pool_public.Controller.Draw.{all_sourced, eligible, selection}

-- The call comes out well, or fails on a number: never on a rank that is missing.
abbrev pub IsRanked : {A : Type 0} → Result ChallengeError A → Type 0
IsRanked (ok a) = Unit
IsRanked (err (ratio why)) = Unit
IsRanked (err (missing_draw_rank id)) = ⊥

>>=-IsRanked :
    {A B : Type 0} (r : Result ChallengeError A) (next : A → Result ChallengeError B)
    → IsRanked r
    → ((a : A) → r ≡ ok a → IsRanked (next a))
    → IsRanked (r >>= next)
>>=-IsRanked (ok a) next h f = f a refl
>>=-IsRanked (err (ratio why)) next h f = tt
>>=-IsRanked (err (missing_draw_rank id)) next h f = h

map_err-then :
    {A B : Type 0} (r : Result RatioError A) (next : A → Result ChallengeError B)
    → ((a : A) → IsRanked (next a))
    → IsRanked (map_err ratio r >>= next)
map_err-then (ok a) next f = f a
map_err-then (err why) next f = tt

project_on-IsRanked :
    (stats : Map (Map TrackStats)) (b : InFlightBenchmark) (t : Bytes) (p : Projection)
    → IsRanked (project_on stats b t p)
unfolding project_on
project_on-IsRanked stats b t p = search map_err-then

project_one-IsRanked :
    (stats : Map (Map TrackStats)) (b : InFlightBenchmark) (p : Projection)
    → IsRanked (project_one stats b p)
unfolding project_one
project_one-IsRanked stats b p = elim (Option-cases b.track_id) [
  | inl e ↦ rw e tt
  | inr (t, e) ↦ rw e (project_on-IsRanked stats b t p)
]

project_from-IsRanked :
    (stats : Map (Map TrackStats)) (bs : List InFlightBenchmark) (p : Projection)
    → IsRanked (project_from stats bs p)
unfolding project_from
project_from-IsRanked stats [] p = tt
project_from-IsRanked stats (b ∷ rest) p =
    >>=-IsRanked (project_one stats b p) _ (project_one-IsRanked stats b p)
      (λ q _. project_from-IsRanked stats rest q)

project-IsRanked : (input : ChallengeSelectionInput) → IsRanked (project input)
unfolding project
project-IsRanked input =
    project_from-IsRanked input.algorithm_track_stats input.confirmed_in_flight_benchmarks
      (record { rates = []; expected_q = []; excluded = []; addition = [] })

score-IsRanked :
    (input : ChallengeSelectionInput) (p : Projection) (cs : List Challenge)
    (acc : Map Ratio × Map Ratio)
    → IsRanked (score input p cs acc)
unfolding score
score-IsRanked input p [] acc = tt
score-IsRanked input p (c ∷ rest) acc = search (map_err-then, score-IsRanked input p rest)

lowest_factor-IsRanked : (factors : Map Ratio) → IsRanked (lowest_factor factors)
unfolding lowest_factor
lowest_factor-IsRanked factors = search map_err-then

all_sourced-true :
    (tracks sources : List Bytes)
    → ((t : Bytes) → In t tracks → In t sources)
    → all_sourced tracks sources ≡ true
unfolding all_sourced
all_sourced-true [] sources f = refl
all_sourced-true (t ∷ rest) sources f =
    rw ((contains_iff t sources).1 (f t (inl refl)))
      (all_sourced-true rest sources (λ x i. f x (inr i)))

-- What is considered is eligible.
IsConsiderable-eligible :
    (compute : OfferedCompute) (c : Challenge) (cs : List Challenge)
    → In c cs
    → IsConsiderable compute c
    → In c.id (map challenge_id (eligible compute cs))
unfolding eligible
IsConsiderable-eligible compute c cs i h = In-map challenge_id c _ (
    In-keep (λ c. all_sourced c.active_tracks c.tracks_with_source) c _
      (In-keep (λ c. matches_challenge compute c.compute_type) c cs i h.compatible)
      (all_sourced-true c.active_tracks c.tracks_with_source h.sourced))

module _ (hash : Bytes → Bytes) (network : Network) (block_id : Bytes) where
  settle-IsRanked :
      (lowest : Option (List Bytes)) (ids : List Bytes)
      → ((found : List Bytes)
          → lowest ≡ some found
          → (found ≢ []) × ((id : Bytes) → In id found → In id ids))
      → IsRanked (settle lowest (draw_ranks hash network block_id ids))
  unfolding settle
  settle-IsRanked none ids f = tt
  settle-IsRanked (some []) ids f = absurd ((f [] refl).0 refl)
  settle-IsRanked (some (id ∷ [])) ids f = tt
  settle-IsRanked (some (id ∷ other ∷ rest)) ids f =
      let tied = id ∷ other ∷ rest in
      let (w, e, _) = draw_ranks-IsFirst hash network block_id ids tied (λ q. cc) (f tied refl).1 in
      rw e tt

  module _ (input : ChallengeSelectionInput) where
    abbrev ids : List Bytes
    ids = map challenge_id (eligible input.offered_compute input.challenges)

    abbrev ranked : ChallengeSelectionInput
    ranked = record input { draw_ranks = draw_ranks hash network block_id ids }

    abbrev considered : List Challenge
    considered = (sift challenge_id (consider input.offered_compute) input.challenges).kept

    -- The holders of the lowest factor are eligible.
    found-eligible :
        (p : Projection) (scores : Map Ratio × Map Ratio) (found : List Bytes)
        → project ranked ≡ ok p
        → score ranked p considered ([], []) ≡ ok scores
        → lowest_factor scores.1 ≡ ok (some found)
        → (id : Bytes) → In id found
        → In id ids
    found-eligible p scores found ep es ef id i =
        let reduced =
          scores-AllReduced ranked p considered scores es (project-HasReduced ranked p ep) in
        let (low, least) = lowest_factor_least scores.1 (some found) reduced ef in
        let (c, j, q, _) =
          scored ranked p considered scores es (id, low) ((least.holders id).0 i) in
        let (k, h) = considered-IsChallenge ranked c j in
        subst (λ x. In x ids) q
          (IsConsiderable-eligible input.offered_compute c input.challenges k h)

    -- Whatever the snapshot, the block and the hash, the selection of a proposal never fails for a rank
    -- that is missing: it comes out, or it fails on the arithmetic of ratios.
    pub selection-IsRanked : IsRanked (selection hash network block_id input)
    unfolding selection select_challenge
    selection-IsRanked = >>=-IsRanked (project ranked) _ (project-IsRanked ranked) (λ p ep.
        >>=-IsRanked (score ranked p considered ([], [])) _ (score-IsRanked ranked p considered _)
          (λ scores es.
            >>=-IsRanked (lowest_factor scores.1) _ (lowest_factor-IsRanked scores.1) (λ low ef.
              >>=-IsRanked (settle low ranked.draw_ranks) _
                (settle-IsRanked low ids (λ found q.
                  let at = ef ∙ ap ok q in
                  (lowest_factor-held scores.1 found at, found-eligible p scores found ep es at)))
                (λ s _. tt))))
