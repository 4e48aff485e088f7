-- ===== src/Decision/Challenge/Select/Scores.antt =====
-- crates/pool-decision/src/challenge.rs: the loop that scores the considered challenges.
use tig_mining_pool_public.Common.{
  ◌≡◌, ◌⊎◌, inl, inr, refl, sym, ap, ◌∙◌, subst, List, [], ◌∷◌, ok, map_err, >>=-eq-ok, arith, In,
  All-of_In,
}
use tig_mining_pool_public.Common.Bytes.{Bytes}
use tig_mining_pool_public.Common.Entries.{Has, insert-In, insert-Has, insert-Has_self}
use tig_mining_pool_public.Common.Map.{Map, get, get_or, insert}
use tig_mining_pool_public.Decision.Ratio.{Ratio, zero_ratio}
use tig_mining_pool_public.Decision.Challenge.{Challenge, ChallengeSelectionInput, ratio}
use tig_mining_pool_public.Decision.Challenge.Project.{Projection}
use tig_mining_pool_public.Decision.Challenge.Factor.{projected_raw_factor_of}
use tig_mining_pool_public.Decision.Challenge.Factor.Exact.{projected_raw_factor_of-IsFactor}
use tig_mining_pool_public.Decision.Challenge.Tie.Lowest.{AllReduced}
use tig_mining_pool_public.Decision.Challenge.Select.{score}
use tig_mining_pool_public.Decision.Challenge.Select.Additions.{HasReduced, map_err_inv}

module _ (input : ChallengeSelectionInput) (p : Projection) where
  -- `f` is the projected raw factor of the challenge.
  abbrev pub HasFactor : Challenge → Ratio → Type 0
  HasFactor c f =
      projected_raw_factor_of c (get c.id input.pool_qualifiers_by_challenge_by_track)
        (get_or c.id zero_ratio p.addition)
      ≡ ok f

  abbrev Scored : List Challenge → Bytes × Ratio → Type 0
  Scored cs e = (c : Challenge) × In c cs × (c.id ≡ e.0) × HasFactor c e.1

  score-Scored :
      (cs : List Challenge) (acc acc' : Map Ratio × Map Ratio)
      → score input p cs acc ≡ ok acc'
      → (e : Bytes × Ratio) → In e acc'.1
      → In e acc.1 ⊎ Scored cs e
  unfolding score
  score-Scored [] acc acc' q e i =
      let s : acc.1 ≡ acc'.1 = ground arith in inl (subst (In e) (sym s) i)
  score-Scored (c ∷ cs) acc acc' q e i =
      let a = get_or c.id zero_ratio p.addition in
      let (f, ef, q') =
        >>=-eq-ok
          (map_err ratio
            (projected_raw_factor_of c (get c.id input.pool_qualifiers_by_challenge_by_track) a))
          _ q in
      elim (score-Scored cs (insert c.id a acc.0, insert c.id f acc.1) acc' q' e i) [
        | inl j ↦ elim (insert-In e c.id f acc.1 j) [
          | inl r ↦ inr (
            c,
            inl refl,
            sym (ap (λ x. x.0) r),
            subst (HasFactor c) (sym (ap (λ x. x.1) r)) (map_err_inv _ f ef),
          )
          | inr k ↦ inl k
        ]
        | inr (d, j, r, h) ↦ inr (d, inr j, r, h)
      ]

  score-Has :
      (cs : List Challenge) (acc acc' : Map Ratio × Map Ratio)
      → score input p cs acc ≡ ok acc'
      → (k : Bytes) → (Has k acc.1 ⊎ ((c : Challenge) × In c cs × (c.id ≡ k)))
      → Has k acc'.1
  unfolding score
  score-Has [] acc acc' q k (inl h) = let s : acc.1 ≡ acc'.1 = ground arith in subst (Has k) s h
  score-Has [] acc acc' q k (inr (c, i, r)) = absurd i
  score-Has (c ∷ cs) acc acc' q k h =
      let a = get_or c.id zero_ratio p.addition in
      let (f, ef, q') =
        >>=-eq-ok
          (map_err ratio
            (projected_raw_factor_of c (get c.id input.pool_qualifiers_by_challenge_by_track) a))
          _ q in
      score-Has cs (insert c.id a acc.0, insert c.id f acc.1) acc' q' k
        (elim h [
          | inl o ↦ inl (insert-Has k c.id f acc.1 o)
          | inr (d, inl r, e) ↦ inl (
              subst (λ x. Has x (insert c.id f acc.1)) (sym (ap (λ (x : Challenge). x.id) r) ∙ e)
                (insert-Has_self c.id f acc.1))
          | inr (d, inr j, e) ↦ inr (d, j, e)
        ])

  module _ (cs : List Challenge) (scores : Map Ratio × Map Ratio)
      (e : score input p cs ([], []) ≡ ok scores) where
    -- Each entry is the factor of a challenge of the list with that id.
    pub scored : (x : Bytes × Ratio) → In x scores.1 → Scored cs x
    scored x i = elim (score-Scored cs ([], []) scores e x i) [ inl j ↦ absurd j | inr s ↦ s ]

    -- Each challenge of the list has an entry.
    pub Has-score : (c : Challenge) → In c cs → Has c.id scores.1
    Has-score c i = score-Has cs ([], []) scores e c.id (inr (c, i, refl))

    pub scores-AllReduced : HasReduced p.addition → AllReduced scores.1
    scores-AllReduced h = All-of_In _ scores.1 (λ x i.
        let (c, _, _, f) = scored x i in (projected_raw_factor_of-IsFactor c _ _ x.1 (h c.id) f).0)
