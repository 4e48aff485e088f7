-- ===== src/Decision/Challenge/Select/Selected.antt =====
-- crates/pool-decision/src/challenge.rs: what `select_challenge` returns.
use tig_mining_pool_public.Common.{
  ◌≡◌, ◌⊎◌, inl, inr, refl, sym, ap, ◌∙◌, subst, true, Option, some, none, List, [], ◌∷◌, ok,
  >>=-eq-ok, arith, In,
}
use tig_mining_pool_public.Common.Bytes.{Bytes, same, same_refl}
use tig_mining_pool_public.Common.Map.{Map}
use tig_mining_pool_public.Common.Sift.{
  sift, kept_passed, passed-Passes, Passes-passed, IsDistinct, eq_of_key,
}
use tig_mining_pool_public.Decision.Ratio.{Ratio}
use tig_mining_pool_public.Decision.Ratio.Order.{Le}
use tig_mining_pool_public.Decision.Challenge.{
  DrawRank, Challenge, ChallengeSelectionInput, ChallengeSelection, consider,
}
use tig_mining_pool_public.Decision.Challenge.Eligible.{
  IsConsiderable, consider-IsConsiderable, IsConsiderable-consider,
}
use tig_mining_pool_public.Decision.Challenge.Project.{Projection, project}
use tig_mining_pool_public.Decision.Challenge.Tie.{lowest_factor, resolve_tie}
use tig_mining_pool_public.Decision.Challenge.Tie.Draw.{Draws, resolve_tie-Draws}
use tig_mining_pool_public.Decision.Challenge.Tie.Lowest.{Finds, lowest_factor_least}
use tig_mining_pool_public.Decision.Challenge.Select.{score, settle, select_challenge}
use tig_mining_pool_public.Decision.Challenge.Select.Additions.{project-HasReduced}
use tig_mining_pool_public.Decision.Challenge.Select.Scores.{
  HasFactor, scored, Has-score, scores-AllReduced,
}

-- Of the holders of the lowest factor one is settled on.
abbrev Settled : Option (List Bytes) → Option Bytes → Type 0
Settled none selected = selected ≡ none
Settled (some ids) selected = (id : Bytes) × In id ids × (selected ≡ some id)

settle-Settled :
    (lowest : Option (List Bytes)) (ranks : Map DrawRank) (r : Option (List Bytes) × Option Bytes)
    → settle lowest ranks ≡ ok r
    → Settled lowest r.1
unfolding settle resolve_tie
settle-Settled none ranks r e = ground arith
settle-Settled (some []) ranks r e = cc
settle-Settled (some (id ∷ [])) ranks r e = (id, inl refl, ground arith)
settle-Settled (some (id ∷ other ∷ ids)) ranks r e =
    let (w, f, g) = >>=-eq-ok (resolve_tie (id ∷ other ∷ ids) ranks) _ e in
    let drawn =
      subst (Draws ranks (id ∷ other ∷ ids)) f
        (resolve_tie-Draws ranks (id ∷ other ∷ ids) (λ q. cc)) in
    (w, drawn.1.among, ground arith)

abbrev pub challenge_id : Challenge → Bytes
challenge_id c = c.id

module _ (input : ChallengeSelectionInput) where
  abbrev pub IsChallenge : Challenge → Type 0
  IsChallenge c = In c input.challenges × IsConsiderable input.offered_compute c

  abbrev considered : List Challenge
  considered = (sift challenge_id (consider input.offered_compute) input.challenges).kept

  pub considered-IsChallenge : (c : Challenge) → In c considered → IsChallenge c
  considered-IsChallenge c i =
      let j =
        subst (In c) (kept_passed challenge_id (consider input.offered_compute) input.challenges)
          i in
      let (b, k, e) =
        passed-Passes challenge_id (consider input.offered_compute) c input.challenges j in
      let (q, h) = consider-IsConsiderable input.offered_compute b c e in subst IsChallenge q (k, h)

  IsChallenge-considered : (c : Challenge) → IsChallenge c → In c considered
  IsChallenge-considered c (i, h) =
      subst (In c)
        (sym (kept_passed challenge_id (consider input.offered_compute) input.challenges))
        (Passes-passed challenge_id (consider input.offered_compute) c c input.challenges i
          (IsConsiderable-consider input.offered_compute c h))

  -- The selected challenge has a factor, and that of every considered challenge is no lower.
  pub record IsLowest (p : Projection) (c : Challenge) : Type 0 where
    pub challenge : IsChallenge c
    pub factor : Ratio
    pub has_factor : HasFactor input p c factor
    pub lowest : (d : Challenge) → IsChallenge d → (f : Ratio) × HasFactor input p d f × Le factor f

  abbrev pub Selects : Projection → Option Bytes → Type 0
  Selects p selected =
      ((selected ≡ none) × ((c : Challenge) → ¬ IsChallenge c))
      ⊎ ((c : Challenge) × (selected ≡ some c.id) × IsLowest p c)

  module _ (distinct : IsDistinct challenge_id (consider input.offered_compute) input.challenges)
      (p : Projection) (scores : Map Ratio × Map Ratio)
      (es : score input p considered ([], []) ≡ ok scores) where
    entry_of : (c : Challenge) → IsChallenge c → (f : Ratio) × In (c.id, f) scores.1
    entry_of c h = Has-score input p considered scores es c (IsChallenge-considered c h)

    factor_of_entry :
        (c : Challenge) (f : Ratio) → IsChallenge c → In (c.id, f) scores.1 → HasFactor input p c f
    factor_of_entry c f h i =
        let (d, j, q, k) = scored input p considered scores es (c.id, f) i in
        let hd = considered-IsChallenge d j in
        let same_id : same d.id c.id ≡ true = rw q (same_refl c.id) in
        let e : d ≡ c =
          eq_of_key challenge_id (consider input.offered_compute) d c input.challenges distinct hd.0
            h.0 same_id in
        subst (λ x. HasFactor input p x f) e k

    Selects-of_found :
        (found : Option (List Bytes)) (selected : Option Bytes)
        → Finds scores.1 found
        → Settled found selected
        → Selects p selected
    Selects-of_found none selected h t =
        inl (t, λ c k. let (f, i) = entry_of c k in absurd (subst (In (c.id, f)) h i))
    Selects-of_found (some ids) selected (low, least) (w, i, t) =
        let at = (least.holders w).0 i in
        let (c, j, q, k) = scored input p considered scores es (w, low) at in
        inr (
          c,
          t ∙ ap some (sym q),
          record {
            challenge = considered-IsChallenge c j;
            factor = low;
            has_factor = k;
            lowest = λ d h.
                let (f, m) = entry_of d h in (f, factor_of_entry d f h m, least.least d.id f m);
          },
        )

  -- Over distinct ids, a selection that is returned names no challenge exactly where none is
  -- compatible and eligible; otherwise it names one of these, and none of these has a lower
  -- projected raw factor.
  pub select_challenge_lowest :
      (s : ChallengeSelection)
      → IsDistinct challenge_id (consider input.offered_compute) input.challenges
      → select_challenge input ≡ ok s
      → (p : Projection) × (project input ≡ ok p) × Selects p s.selected
  unfolding select_challenge
  select_challenge_lowest s distinct e =
      let (p, ep, e₁) = >>=-eq-ok (project input) _ e in
      let (scores, es, e₂) = >>=-eq-ok (score input p considered ([], [])) _ e₁ in
      let (found, ef, e₃) = >>=-eq-ok (lowest_factor scores.1) _ e₂ in
      let (settled, et, e₄) = >>=-eq-ok (settle found input.draw_ranks) _ e₃ in
      let reduced =
        scores-AllReduced input p considered scores es (project-HasReduced input p ep) in
      let chosen : settled.1 ≡ s.selected = ground arith in
      (
        p,
        ep,
        subst (Selects p) chosen (
            Selects-of_found distinct p scores es found settled.1
              (lowest_factor_least scores.1 found reduced ef)
              (settle-Settled found input.draw_ranks settled et)),
      )
