-- ===== src/Domain/TieDraw/Ranked.antt =====
-- crates/pool-domain/src/challenge_tie.rs with resolve_tie of crates/pool-decision: a draw with the
-- ranks that are derived for it.
use tig_mining_pool_public.Common.{
  ◌≡◌, ◌≢◌, inl, inr, refl, sym, subst, true, some, List, [], ◌∷◌, Result, ok, err, ◌↔◌, not_gt,
  Bool-cases, arith, In, ◌∙◌, ap,
}
use tig_mining_pool_public.Common.Bytes.{Bytes, same, eq_of_cmp, cmp-swap}
use tig_mining_pool_public.Common.Map.{
  Map, get, insert, get-insert_self, get-insert-same, get-insert_other,
}
use tig_mining_pool_public.Decision.Challenge.{DrawRank, ChallengeError, ratio, missing_draw_rank}
use tig_mining_pool_public.Decision.Challenge.Tie.{resolve_tie}
use tig_mining_pool_public.Decision.Challenge.Tie.Draw.{draw_order, resolve_tie-Draws, Draws}
use tig_mining_pool_public.Gateway.Network.{Network}
use tig_mining_pool_public.Domain.TieDraw.{challenge_tie_seed, draw_rank, enter, draw_ranks}

some_inj : {A : Type 0} {a b : A} → some a ≡ some b → a ≡ b
some_inj e = cc

draw_order_antisym :
    (x y : Bytes × DrawRank)
    → not_gt (draw_order x y) ≡ true
    → not_gt (draw_order y x) ≡ true
    → x.0 ≡ y.0
draw_order_antisym (a, r) (b, s) h k = ground (arith, cmp-swap a b, cmp-swap r s, eq_of_cmp a b)

module _ (hash : Bytes → Bytes) where
  -- What is in the map is the rank of its challenge.
  abbrev HasRank : Bytes → Map DrawRank → Bytes → Type 0
  HasRank seed ranks id = get id ranks ≡ some (draw_rank hash seed id)

  insert-keeps :
      (seed id k : Bytes) (ranks : Map DrawRank)
      → HasRank seed ranks id
      → HasRank seed (insert k (draw_rank hash seed k) ranks) id
  insert-keeps seed id k ranks h = elim (Bool-cases (same id k)) [
    | inl q ↦
        get-insert-same id k (draw_rank hash seed k) ranks q
        ∙ ap (λ x. some (draw_rank hash seed x)) (sym (eq_of_cmp id k (ground arith)))
    | inr q ↦ get-insert_other id k (draw_rank hash seed k) ranks q ∙ h
  ]

  enter-keeps :
      (seed id : Bytes) (ids : List Bytes) (ranks : Map DrawRank)
      → HasRank seed ranks id
      → HasRank seed (enter hash seed ids ranks) id
  unfolding enter
  enter-keeps seed id [] ranks h = h
  enter-keeps seed id (k ∷ rest) ranks h =
      enter-keeps seed id rest (insert k (draw_rank hash seed k) ranks)
        (insert-keeps seed id k ranks h)

  enter-HasRank :
      (seed id : Bytes) (ids : List Bytes) (ranks : Map DrawRank)
      → In id ids
      → HasRank seed (enter hash seed ids ranks) id
  unfolding enter
  enter-HasRank seed id [] ranks i = absurd i
  enter-HasRank seed id (k ∷ rest) ranks (inl e) =
      enter-keeps seed id rest (insert k (draw_rank hash seed k) ranks) (
        subst (HasRank seed (insert k (draw_rank hash seed k) ranks)) (sym e)
          (get-insert_self k (draw_rank hash seed k) ranks))
  enter-HasRank seed id (k ∷ rest) ranks (inr i) = enter-HasRank seed id rest _ i

  module _ (network : Network) (block_id : Bytes) where
    abbrev rank_at : Bytes → DrawRank
    rank_at id = draw_rank hash (challenge_tie_seed hash network block_id) id

    pub draw_ranks-get :
        (ids : List Bytes) (id : Bytes)
        → In id ids
        → get id (draw_ranks hash network block_id ids) ≡ some (rank_at id)
    unfolding draw_ranks
    draw_ranks-get ids id i = enter-HasRank (challenge_tie_seed hash network block_id) id ids [] i

    -- `w` is the tied challenge whose rank at the block comes first.
    pub record IsFirst (tied : List Bytes) (w : Bytes) : Type 0 where
      pub among : In w tied
      pub first :
          (id : Bytes) → In id tied → not_gt (draw_order (w, rank_at w) (id, rank_at id)) ≡ true

    module _ (ids tied : List Bytes) (n : tied ≢ [])
        (covers : (id : Bytes) → In id tied → In id ids) where
      settled :
          (r : Result ChallengeError Bytes)
          → Draws (draw_ranks hash network block_id ids) tied r
          → (w : Bytes) × (r ≡ ok w) × IsFirst tied w
      settled (ok w) (rank, h) = (
        w,
        refl,
        record {
          among = h.among;
          first = λ id i.
              let (r, e, le) = h.first id i in
              let rw_id : r ≡ rank_at id = some_inj (sym e ∙ draw_ranks-get ids id (covers id i)) in
              let rw_w : rank ≡ rank_at w =
                some_inj (sym h.ranked ∙ draw_ranks-get ids w (covers w h.among)) in
              subst (λ x. not_gt (draw_order (w, x) (id, rank_at id)) ≡ true) rw_w
                (subst (λ x. not_gt (draw_order (w, rank) (id, x)) ≡ true) rw_id le);
        },
      )
      settled (err (ratio x)) h = absurd h
      settled (err (missing_draw_rank id)) (i, e) = cc (draw_ranks-get ids id (covers id i))

      pub draw_ranks-IsFirst :
          (w : Bytes) × (resolve_tie tied (draw_ranks hash network block_id ids) ≡ ok w)
          × IsFirst tied w
      draw_ranks-IsFirst =
          settled (resolve_tie tied (draw_ranks hash network block_id ids))
            (resolve_tie-Draws (draw_ranks hash network block_id ids) tied n)

    only_one :
        (tied other : List Bytes)
        → ((id : Bytes) → In id tied ↔ In id other)
        → (v w : Bytes) → IsFirst tied v
        → IsFirst other w
        → v ≡ w
    only_one tied other s v w f g =
        draw_order_antisym (v, rank_at v) (w, rank_at w) (f.first w ((s w).1 g.among))
          (g.first v ((s v).0 f.among))

    remain :
        (tied other : List Bytes)
        → tied ≢ []
        → ((id : Bytes) → In id tied → In id other)
        → other ≢ []
    remain [] other n s e = n refl
    remain (x ∷ xs) other n s e = subst (In x) e (s x (inl refl))

    -- A draw can be run again from the network and the block alone. Two runs between the same one or
    -- more challenges, in whatever order these are given, with ranks derived over any two lists of
    -- challenges that include them, succeed with the same winner: the challenge with the smallest
    -- rank at that block, equal ranks going to the smallest id.
    pub draw_ranks-Reproduces :
        (ids tied more other : List Bytes)
        → tied ≢ []
        → ((id : Bytes) → In id tied ↔ In id other)
        → ((id : Bytes) → In id tied → In id ids)
        → ((id : Bytes) → In id other → In id more)
        → (w : Bytes) × (resolve_tie tied (draw_ranks hash network block_id ids) ≡ ok w)
          × (resolve_tie other (draw_ranks hash network block_id more) ≡ ok w)
          × IsFirst tied w
    draw_ranks-Reproduces ids tied more other n s c d =
        let (v, e, f) = draw_ranks-IsFirst ids tied n c in
        let (w, k, g) = draw_ranks-IsFirst more other (remain tied other n (λ id. (s id).0)) d in
        (v, e, k ∙ ap ok (sym (only_one tied other s v w f g)), f)
