-- ===== src/Decision/Challenge/Tie/Draw.antt =====
-- crates/pool-decision/src/challenge.rs: what `resolve_tie` returns.
use mathlib.Core.List.{append_assoc, append-nil}
use tig_mining_pool_public.Common.{
  ◌≡◌, ◌≢◌, ◌⊎◌, inl, inr, refl, sym, subst, true, Option, some, none, List, [], ◌∷◌, ◌++◌, Result,
  ok, err, ◌>>=◌, Ordering, not_gt, Option-cases, arith, In, In-append,
}
use tig_mining_pool_public.Common.Bytes.{
  Bytes, cmp, and_then, cmp-swap, cmp_refl, eq_of_cmp, cmp-not_gt_trans, cmp-lt_trans,
}
use tig_mining_pool_public.Common.Map.{Map, get}
use tig_mining_pool_public.Decision.Challenge.{DrawRank, ChallengeError, ratio, missing_draw_rank}
use tig_mining_pool_public.Decision.Challenge.Tie.{draw, resolve_from, resolve_tie}

-- The order of the draw: by rank, then by id.
abbrev pub draw_order : Bytes × DrawRank → Bytes × DrawRank → Ordering
draw_order (id, rank) (other, other_rank) = and_then (cmp rank other_rank) (cmp id other)

draw_order_trans :
    (x y z : Bytes × DrawRank)
    → not_gt (draw_order x y) ≡ true
    → not_gt (draw_order y z) ≡ true
    → not_gt (draw_order x z) ≡ true
draw_order_trans (a, r) (b, s) (c, t) h k =
    ground (arith, cmp-not_gt_trans a b c, cmp-lt_trans r s t, eq_of_cmp r s, eq_of_cmp s t)

draw_new :
    (id : Bytes) (rank : DrawRank) (best : Bytes × DrawRank)
    → ((draw id rank (some best) ≡ (id, rank)) × (not_gt (draw_order (id, rank) best) ≡ true))
      ⊎ ((draw id rank (some best) ≡ best) × (not_gt (draw_order best (id, rank)) ≡ true))
unfolding draw
draw_new id rank (b, s) = ground (arith, cmp-swap id b, cmp-swap rank s)

module _ (ranks : Map DrawRank) where
  -- `w` is one of the challenges, and no other comes before it in the draw.
  pub record IsDrawn (tied : List Bytes) (w : Bytes) (rank : DrawRank) : Type 0 where
    pub among : In w tied
    pub ranked : get w ranks ≡ some rank
    pub first :
        (id : Bytes)
        → In id tied
        → (r : DrawRank) × (get id ranks ≡ some r) × (not_gt (draw_order (w, rank) (id, r)) ≡ true)

  abbrev IsSoFar : List Bytes → Option (Bytes × DrawRank) → Type 0
  IsSoFar seen none = seen ≡ []
  IsSoFar seen (some p) = IsDrawn seen p.0 p.1

  draw_order_refl : (x : Bytes × DrawRank) → not_gt (draw_order x x) ≡ true
  draw_order_refl (a, r) = rw (cmp_refl r, cmp_refl a)

  module _ (seen : List Bytes) (id : Bytes) (rank : DrawRank) (g : get id ranks ≡ some rank) where
    over_both :
        (p : Bytes × DrawRank)
        → In p.0 (seen ++ (id ∷ []))
        → get p.0 ranks ≡ some p.1
        → ((k : Bytes)
            → In k seen
            → (r : DrawRank) × (get k ranks ≡ some r) × (not_gt (draw_order p (k, r)) ≡ true))
        → not_gt (draw_order p (id, rank)) ≡ true
        → IsDrawn (seen ++ (id ∷ [])) p.0 p.1
    over_both p i q f le = record {
      among = i;
      ranked = q;
      first = λ k j. elim ((In-append k seen (id ∷ [])).0 j) [
        | inl l ↦ f k l
        | inr (inl e) ↦ (
          rank,
          subst (λ x. get x ranks ≡ some rank) (sym e) g,
          subst (λ x. not_gt (draw_order p (x, rank)) ≡ true) (sym e) le,
        )
        | inr (inr l) ↦ absurd l
      ];
    }

    newest : In id (seen ++ (id ∷ []))
    newest = (In-append id seen (id ∷ [])).1 (inr (inl refl))

    draw_later :
        (p : Bytes × DrawRank)
        → IsDrawn seen p.0 p.1
        → IsDrawn (seen ++ (id ∷ [])) (draw id rank (some p)).0 (draw id rank (some p)).1
    draw_later p h = elim (draw_new id rank p) [
      | inl (e, le) ↦
          subst (λ x. IsDrawn (seen ++ (id ∷ [])) x.0 x.1) (sym e)
            (over_both (id, rank) newest g
              (λ k i.
                let (r, q, after) = h.first k i in
                (r, q, draw_order_trans (id, rank) p (k, r) le after))
              (draw_order_refl (id, rank)))
      | inr (e, le) ↦
          subst (λ x. IsDrawn (seen ++ (id ∷ [])) x.0 x.1) (sym e)
            (over_both p ((In-append p.0 seen (id ∷ [])).1 (inl h.among)) h.ranked h.first le)
    ]

    draw-IsSoFar :
        (best : Option (Bytes × DrawRank))
        → IsSoFar seen best
        → IsSoFar (seen ++ (id ∷ [])) (some (draw id rank best))
    unfolding draw
    draw-IsSoFar none h =
        over_both (id, rank) newest g (λ k i. absurd (subst (In k) h i))
          (draw_order_refl (id, rank))
    draw-IsSoFar (some p) h = draw_later p h

  -- What a run of the loop means: the draw is settled, or some challenge has no rank.
  abbrev Settles : List Bytes → Result ChallengeError (Option (Bytes × DrawRank)) → Type 0
  Settles tied (ok best) = IsSoFar tied best
  Settles tied (err (ratio x)) = ⊥
  Settles tied (err (missing_draw_rank id)) = In id tied × (get id ranks ≡ none)

  resolve_from-Settles :
      (rest seen : List Bytes) (best : Option (Bytes × DrawRank))
      → IsSoFar seen best
      → Settles (seen ++ rest) (resolve_from ranks rest best)
  unfolding resolve_from
  resolve_from-Settles [] seen best h = subst (λ l. IsSoFar l best) (sym (append-nil seen)) h
  resolve_from-Settles (id ∷ rest) seen best h = elim (Option-cases (get id ranks)) [
    | inl e ↦ rw e ((In-append id seen (id ∷ rest)).1 (inr (inl refl)), e)
    | inr (rank, e) ↦ rw e (
        subst (λ l. Settles l (resolve_from ranks rest (some (draw id rank best))))
          (append_assoc seen (id ∷ []) rest)
          (resolve_from-Settles rest (seen ++ (id ∷ [])) (some (draw id rank best))
            (draw-IsSoFar seen id rank e best h)))
  ]

  -- The verdict of a draw between challenges.
  abbrev pub Draws : List Bytes → Result ChallengeError Bytes → Type 0
  Draws tied (ok w) = (rank : DrawRank) × IsDrawn tied w rank
  Draws tied (err (ratio x)) = ⊥
  Draws tied (err (missing_draw_rank id)) = In id tied × (get id ranks ≡ none)

  -- Between one or more tied challenges the draw is won by the smallest rank, equal ranks by the
  -- smallest id in byte order; it fails only on a tied challenge for which no rank was supplied.
  pub resolve_tie-Draws : (tied : List Bytes) → tied ≢ [] → Draws tied (resolve_tie tied ranks)
  unfolding resolve_tie
  resolve_tie-Draws tied n =
      to_draws (resolve_from ranks tied none) (resolve_from-Settles tied [] none refl)
    where
      to_draws :
          (r : Result ChallengeError (Option (Bytes × DrawRank)))
          → Settles tied r
          → Draws tied
              (r >>= λ best. elim best [ none ↦ err (missing_draw_rank []) | some (id, _) ↦ ok id ])
      to_draws (ok none) h = absurd (n h)
      to_draws (ok (some p)) h = (p.1, h)
      to_draws (err (ratio x)) h = h
      to_draws (err (missing_draw_rank id)) h = h
