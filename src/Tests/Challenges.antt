-- ===== src/Tests/Challenges.antt =====
-- A choice between two CPU challenges with one factor, and one challenge for GPUs.
use tig_mining_pool_public.Common.{
  ℕ, ◌≡◌, ◌≢◌, ◌⊎◌, inl, inr, none, refl, some, List, [], ◌∷◌, ok, arith,
}
use tig_mining_pool_public.Common.Bytes.{Bytes, cmp, codes, contains}
use tig_mining_pool_public.Common.Gcd
use tig_mining_pool_public.Common.Map.{Map, get, insert}
use tig_mining_pool_public.Common.Sift.{sift, IsDistinct}
use tig_mining_pool_public.Decision.Compute.{cpu, cpu_challenge, gpu_challenge, matches_challenge}
use tig_mining_pool_public.Decision.Ratio.{
  Ratio, zero_ratio, gcd, new, whole, is_zero, checked_add, checked_cmp,
}
use tig_mining_pool_public.Decision.Ratio.Exact.{IsReduced, zero_ratio-IsReduced}
use tig_mining_pool_public.Decision.Challenge.{
  Challenge, ChallengeSelectionInput, ChallengeSelection, consider, incompatible_compute_type,
  Excluded,
}
use tig_mining_pool_public.Decision.Challenge.Project.{Projection, project}
use tig_mining_pool_public.Decision.Challenge.Factor.{projected_raw_factor_of}
use tig_mining_pool_public.Decision.Challenge.Factor.Exact.{
  IsFactor, projected_raw_factor_of-IsFactor,
}
use tig_mining_pool_public.Decision.Challenge.Tie.{lowest_factor, resolve_tie}
use tig_mining_pool_public.Decision.Challenge.Tie.Draw.{Draws, resolve_tie-Draws}
use tig_mining_pool_public.Decision.Challenge.Tie.Lowest.{Finds, lowest_factor_least}
use tig_mining_pool_public.Decision.Challenge.Select.{select_challenge}
use tig_mining_pool_public.Decision.Challenge.Select.Selected.{
  challenge_id, Selects, select_challenge_lowest,
}
use tig_mining_pool_public.Decision.Challenge.Select.LeftOut.{select_challenge_excluded}
use tig_mining_pool_public.Decision.Challenge.Eligible.{IsConsiderable, LeftOutFor}

abbrev fifth : Ratio
fifth = record { numerator = 1; denominator = 5 }

abbrev quarter : Ratio
quarter = record { numerator = 1; denominator = 4 }

abbrev first : Challenge
first = record {
  id = codes "c001";
  compute_type = cpu_challenge;
  active_tracks = codes "t" ∷ [];
  network_qualifiers_by_track = (codes "t", 20) ∷ [];
  tracks_with_source = codes "t" ∷ [];
}

abbrev second : Challenge
second = record first { id = codes "c002"; network_qualifiers_by_track = (codes "t", 10) ∷ [] }

abbrev graphics : Challenge
graphics = record first { id = codes "c003"; compute_type = gpu_challenge }

abbrev pool : Map (Map ℕ)
pool = (codes "c001", (codes "t", 4) ∷ []) ∷ (codes "c002", (codes "t", 2) ∷ []) ∷ []

abbrev ranks : Map Bytes
ranks = (codes "c001", 9 ∷ []) ∷ (codes "c002", 5 ∷ []) ∷ []

abbrev situation : ChallengeSelectionInput
situation = record {
  offered_compute = cpu 8;
  challenges = first ∷ second ∷ graphics ∷ [];
  pool_qualifiers_by_challenge_by_track = pool;
  confirmed_in_flight_benchmarks = [];
  algorithm_track_stats = [];
  draw_ranks = ranks;
}

first_factor : projected_raw_factor_of first (get (codes "c001") pool) zero_ratio ≡ ok fifth
unfolding projected_raw_factor_of get cmp checked_add whole is_zero new gcd Gcd.gcd
first_factor = refl

projected_raw_factor_of-IsFactor_example : IsFactor 20 4 zero_ratio fifth
unfolding get cmp
projected_raw_factor_of-IsFactor_example =
    projected_raw_factor_of-IsFactor first (get (codes "c001") pool) zero_ratio fifth
      zero_ratio-IsReduced first_factor

abbrev factors : Map Ratio
factors = (codes "c001", fifth) ∷ (codes "c002", fifth) ∷ (codes "c004", quarter) ∷ []

lowest_two : lowest_factor factors ≡ ok (some (codes "c001" ∷ codes "c002" ∷ []))
unfolding lowest_factor checked_cmp
lowest_two = refl

fifth-IsReduced : IsReduced fifth
unfolding Gcd.gcd
fifth-IsReduced = record { positive = omega arith; lowest = refl }

quarter-IsReduced : IsReduced quarter
unfolding Gcd.gcd
quarter-IsReduced = record { positive = omega arith; lowest = refl }

lowest_factor_least_example : Finds factors (some (codes "c001" ∷ codes "c002" ∷ []))
lowest_factor_least_example =
    lowest_factor_least factors (some (codes "c001" ∷ codes "c002" ∷ []))
      (fifth-IsReduced, (fifth-IsReduced, (quarter-IsReduced, tt))) lowest_two

tied-ne-nil : ◌≢◌ {A = List Bytes} (codes "c001" ∷ codes "c002" ∷ []) []
tied-ne-nil e = cc

resolve_tie-Draws_example :
    Draws ranks
      (codes "c001" ∷ codes "c002" ∷ [])
      (resolve_tie (codes "c001" ∷ codes "c002" ∷ []) ranks)
resolve_tie-Draws_example = resolve_tie-Draws ranks (codes "c001" ∷ codes "c002" ∷ []) tied-ne-nil

-- The challenge with the smaller rank wins the tie.
abbrev outcome : ChallengeSelection
outcome = record {
  considered = codes "c001" ∷ codes "c002" ∷ [];
  excluded = (codes "c003", incompatible_compute_type) ∷ [];
  qualifier_rate = [];
  expected_q = [];
  projection_excluded = [];
  expected_addition = (codes "c001", zero_ratio) ∷ (codes "c002", zero_ratio) ∷ [];
  projected_raw_factor = (codes "c001", fifth) ∷ (codes "c002", fifth) ∷ [];
  tie_candidates = some (codes "c001" ∷ codes "c002" ∷ []);
  selected = some (codes "c002");
}

select_situation : select_challenge situation ≡ ok outcome
unfolding select_challenge sift insert consider contains matches_challenge project
    projected_raw_factor_of get cmp checked_add whole is_zero new gcd Gcd.gcd lowest_factor
    checked_cmp resolve_tie
select_situation = refl

situation-IsDistinct : IsDistinct challenge_id (consider (cpu 8)) situation.challenges
unfolding cmp
situation-IsDistinct = ((refl, (refl, tt)), ((refl, tt), (tt, tt)))

select_challenge_lowest_example :
    (p : Projection) × (project situation ≡ ok p) × Selects situation p (some (codes "c002"))
select_challenge_lowest_example =
    select_challenge_lowest situation outcome situation-IsDistinct select_situation

select_challenge_excluded_example :
    (IsConsiderable (cpu 8) graphics × (get (codes "c003") outcome.excluded ≡ none))
    ⊎ ((why : Excluded) × LeftOutFor (cpu 8) graphics why
        × (get (codes "c003") outcome.excluded ≡ some why))
select_challenge_excluded_example =
    select_challenge_excluded situation outcome graphics situation-IsDistinct select_situation
      (inr (inr (inl refl)))
