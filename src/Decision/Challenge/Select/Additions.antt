-- ===== src/Decision/Challenge/Select/Additions.antt =====
-- crates/pool-decision/src/challenge.rs: the terms of the expected additions.
use tig_mining_pool_public.Common.{
  ℕ, ◌≡◌, inl, inr, subst, Option, some, none, List, [], ◌∷◌, Result, ok, err, map_err,
  Option-cases, >>=-eq-ok, arith,
}
use tig_mining_pool_public.Common.Bytes.{Bytes}
use tig_mining_pool_public.Common.Map.{Map, get, get_or, insert, get_or-insert}
use tig_mining_pool_public.Decision.Ratio.{Ratio, RatioError, zero_ratio, checked_add}
use tig_mining_pool_public.Decision.Ratio.Exact.{IsReduced, zero_ratio-IsReduced, new_IsReduced}
use tig_mining_pool_public.Decision.Ratio.Arithmetic.{checked_add_exact, checked_mul_int_exact}
use tig_mining_pool_public.Decision.Challenge.{
  InFlightBenchmark, TrackStats, rate, ratio, ChallengeSelectionInput,
}
use tig_mining_pool_public.Decision.Challenge.Project.{
  Projection, rate_of, expected_of, project_on, project_one, project_from, project,
}

-- Every addition is in lowest terms.
abbrev pub HasReduced : Map Ratio → Type 0
HasReduced m = (k : Bytes) → IsReduced (get_or k zero_ratio m)

pub map_err_inv : {A : Type 0} (r : Result RatioError A) (a : A) → map_err ratio r ≡ ok a → r ≡ ok a
map_err_inv (ok b) a e = ground arith
map_err_inv (err x) a e = cc

insert-HasReduced :
    (k : Bytes) (r : Ratio) (m : Map Ratio) → IsReduced r → HasReduced m → HasReduced (insert k r m)
insert-HasReduced k r m hr hm j = get_or-insert IsReduced j k r zero_ratio m hr (hm j)

abbrev ReducedRate : Option Ratio → Type 0
ReducedRate none = Unit
ReducedRate (some r) = IsReduced r

rate-Reduced : (s : TrackStats) (r : Option Ratio) → rate s ≡ ok r → ReducedRate r
unfolding rate
rate-Reduced s none e = tt
rate-Reduced s (some r) e = (new_IsReduced s.qualifiers s.active_bundles r (ground arith)).0

rate_of-Reduced :
    (stats : Map (Map TrackStats)) (a t : Bytes) (r : Option Ratio)
    → rate_of stats a t ≡ ok r
    → ReducedRate r
unfolding rate_of
rate_of-Reduced stats a t none e = tt
rate_of-Reduced stats a t (some r) e = elim (Option-cases (get a stats)) [
  | inl n ↦ cc
  | inr (by_track, f) ↦ elim (Option-cases (get t by_track)) [
    | inl n ↦ ground arith
    | inr (s, g) ↦ rate-Reduced s (some r) (ground arith)
  ]
]

expected_of-Reduced :
    (r : Option Ratio) (n : ℕ) (x : Ratio) → ReducedRate r → expected_of r n ≡ ok x → IsReduced x
unfolding expected_of
expected_of-Reduced none n x h e =
    let q : zero_ratio ≡ x = ground arith in subst IsReduced q zero_ratio-IsReduced
expected_of-Reduced (some r) n x h e = elim (checked_mul_int_exact r n h) [
  | inl (y, f, _, hy, _) ↦ let q : y ≡ x = cc in subst IsReduced q hy
  | inr (f, _) ↦ cc
]

project_on-HasReduced :
    (stats : Map (Map TrackStats)) (b : InFlightBenchmark) (t : Bytes) (p q : Projection)
    → HasReduced p.addition
    → project_on stats b t p ≡ ok q
    → HasReduced q.addition
unfolding project_on
project_on-HasReduced stats b t p q h e =
    let (r, er, e₁) = >>=-eq-ok (map_err ratio (rate_of stats b.algorithm_id t)) _ e in
    let (x, ex, e₂) = >>=-eq-ok (map_err ratio (expected_of r b.num_bundles)) _ e₁ in
    let (y, ey, e₃) =
      >>=-eq-ok (map_err ratio (checked_add (get_or b.challenge_id zero_ratio p.addition) x)) _
        e₂ in
    let hr = rate_of-Reduced stats b.algorithm_id t r (map_err_inv _ r er) in
    let hx = expected_of-Reduced r b.num_bundles x hr (map_err_inv _ x ex) in
    let hy = checked_add_exact _ x y (h b.challenge_id) hx (map_err_inv _ y ey) in
    let put : insert b.challenge_id y p.addition ≡ q.addition = ground arith in
    subst HasReduced put (insert-HasReduced b.challenge_id y p.addition hy.0 h)

project_one-HasReduced :
    (stats : Map (Map TrackStats)) (b : InFlightBenchmark) (p q : Projection)
    → HasReduced p.addition
    → project_one stats b p ≡ ok q
    → HasReduced q.addition
unfolding project_one
project_one-HasReduced stats b p q h e = elim (Option-cases b.track_id) [
  | inl n ↦ let same : p.addition ≡ q.addition = ground arith in subst HasReduced same h
  | inr (t, s) ↦ project_on-HasReduced stats b t p q h (ground arith)
]

project_from-HasReduced :
    (stats : Map (Map TrackStats)) (bs : List InFlightBenchmark) (p q : Projection)
    → HasReduced p.addition
    → project_from stats bs p ≡ ok q
    → HasReduced q.addition
unfolding project_from
project_from-HasReduced stats [] p q h e =
    let same : p.addition ≡ q.addition = ground arith in subst HasReduced same h
project_from-HasReduced stats (b ∷ bs) p q h e =
    let (next, f, g) = >>=-eq-ok (project_one stats b p) _ e in
    project_from-HasReduced stats bs next q (project_one-HasReduced stats b p next h f) g

pub project-HasReduced :
    (input : ChallengeSelectionInput) (p : Projection)
    → project input ≡ ok p
    → HasReduced p.addition
unfolding project get
project-HasReduced input p e =
    project_from-HasReduced input.algorithm_track_stats input.confirmed_in_flight_benchmarks _ p
      (λ k. zero_ratio-IsReduced) e
