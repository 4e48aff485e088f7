-- ===== src/Decision/Challenge/Select/LeftOut.antt =====
-- crates/pool-decision/src/challenge.rs: which challenges `select_challenge` records as left out.
use tig_mining_pool_public.Common.{
  ◌≡◌, ◌⊎◌, inl, inr, ap, ◌∙◌, none, some, List, [], Result, ok, err, >>=-eq-ok, Result-cases,
  arith, In,
}
use tig_mining_pool_public.Common.Map.{get}
use tig_mining_pool_public.Common.Sift.{sift, IsDistinct, excluded_reason, reason}
use tig_mining_pool_public.Decision.Challenge.{
  Challenge, ChallengeSelectionInput, Excluded, ChallengeSelection, consider,
}
use tig_mining_pool_public.Decision.Challenge.Eligible.{
  IsConsiderable, consider-IsConsiderable, LeftOutFor, consider-LeftOutFor,
}
use tig_mining_pool_public.Decision.Challenge.Project.{project}
use tig_mining_pool_public.Decision.Challenge.Tie.{lowest_factor}
use tig_mining_pool_public.Decision.Challenge.Select.{score, settle, select_challenge}
use tig_mining_pool_public.Decision.Challenge.Select.Selected.{challenge_id}

module _ (input : ChallengeSelectionInput) where
  abbrev considered : List Challenge
  considered = (sift challenge_id (consider input.offered_compute) input.challenges).kept

  excluded_sift :
      (s : ChallengeSelection)
      → select_challenge input ≡ ok s
      → s.excluded ≡ (sift challenge_id (consider input.offered_compute) input.challenges).excluded
  unfolding select_challenge
  excluded_sift s e =
      let (p, ep, e₁) = >>=-eq-ok (project input) _ e in
      let (scores, es, e₂) = >>=-eq-ok (score input p considered ([], [])) _ e₁ in
      let (found, ef, e₃) = >>=-eq-ok (lowest_factor scores.1) _ e₂ in
      let (settled, et, e₄) = >>=-eq-ok (settle found input.draw_ranks) _ e₃ in ground arith

  -- Over distinct ids, a selection that is returned records every challenge as left out for the
  -- first test that it fails, or does not record it, and it is compatible and has a source for each
  -- of its active tracks.
  pub select_challenge_excluded :
      (s : ChallengeSelection) (c : Challenge)
      → IsDistinct challenge_id (consider input.offered_compute) input.challenges
      → select_challenge input ≡ ok s
      → In c input.challenges
      → (IsConsiderable input.offered_compute c × (get c.id s.excluded ≡ none))
        ⊎ ((why : Excluded) × LeftOutFor input.offered_compute c why
            × (get c.id s.excluded ≡ some why))
  select_challenge_excluded s c d e i = elim (Result-cases (consider input.offered_compute c)) [
    | inl (c', q) ↦
        inl ((consider-IsConsiderable input.offered_compute c c' q).1, recorded (ok c') q)
    | inr (why, q) ↦
        inr (why, consider-LeftOutFor input.offered_compute c why q, recorded (err why) q)
  ]
    where
      recorded :
          (r : Result Excluded Challenge)
          → consider input.offered_compute c ≡ r
          → get c.id s.excluded ≡ reason challenge_id (consider input.offered_compute) r
      recorded r q = rw (excluded_sift s e) (
          excluded_reason challenge_id (consider input.offered_compute) c input.challenges d i
          ∙ ap (reason challenge_id (consider input.offered_compute)) q)
