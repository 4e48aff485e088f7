-- ===== src/Workflow/Restart/Observed.antt =====
-- crates/pool-workflow/src/restart.rs: a gap is recorded height by height, once.
use tig_mining_pool_public.Common.{
  ℕ, zero, suc, ◌+◌, ◌-◌, ◌<◌, ◌≤◌, ◌≡◌, refl, sym, ap, ◌∙◌, ◌↔◌, some, Bool, true, false, ◌||◌,
  ◌==◌, leb, List, [], ◌∷◌, ◌++◌, map, ok, In, compare, Bool-cases, inl, inr, arith,
}
use mathlib.Core.List.{append-nil, append_assoc}
use tig_mining_pool_public.Common.Int.{pos, i64_max}
use tig_mining_pool_public.Common.Sort.{sort_by}
use tig_mining_pool_public.Gateway.Network.{Network}
use tig_mining_pool_public.Workflow.Attempt.Queries.{any}
use tig_mining_pool_public.Workflow.Lifecycle.Kept.{is_same_refl}
use tig_mining_pool_public.Workflow.Restart.Gaps.{
  BlockDataGap, is_at, opened, heights, insert_new, record_block_gap,
}

In-heights : (h from n : ℕ) → In h (heights from n) ↔ ((from ≤ h) × (h < from + n))
In-heights h from zero = (λ i. absurd i, λ (a, b). omega arith)
In-heights h from (suc n) = let (to, back) = In-heights h (from + 1) n in ground arith

any-append :
    (p : BlockDataGap → Bool) (xs : List BlockDataGap) (y : BlockDataGap)
    → any p (xs ++ y ∷ []) ≡ (any p xs || p y)
any-append p [] y = ground arith
any-append p (x ∷ xs) y = ap (λ b. p x || b) (any-append p xs y) ∙ ground arith

module _ (network : Network) (after observed : ℕ) where
  known_then :
      (gaps : List BlockDataGap) (x h : ℕ)
      → any (is_at network h) (gaps ++ opened network after observed x ∷ [])
        ≡ (any (is_at network h) gaps || x == h)
  known_then gaps x h =
      any-append (is_at network h) gaps (opened network after observed x)
      ∙ rw (is_same_refl network) refl

  -- The rows that are added are for the heights that had none.
  insert_new-Adds :
      (hs : List ℕ) (gaps : List BlockDataGap) (h : ℕ)
      → ((insert_new network after observed hs gaps).0
          ≡ gaps
            ++ map (opened network after observed) (insert_new network after observed hs gaps).1)
        × (In h (insert_new network after observed hs gaps).1
            ↔ (In h hs × (any (is_at network h) gaps ≡ false)))
  unfolding insert_new
  insert_new-Adds [] gaps h = (sym (append-nil gaps), (λ i. absurd i, λ (i, n). i))
  insert_new-Adds (x ∷ rest) gaps h = elim (Bool-cases (any (is_at network x) gaps)) [
    | inl k ↦
        let (rows, (to, back)) = insert_new-Adds rest gaps h in
        rw k (
          rows,
          (
            λ i. let (j, n) = to i in (inr j, n),
            λ (i, n). elim i [
              | inl e ↦ let same : any (is_at network h) gaps ≡ true = rw e k in ground arith
              | inr j ↦ back (j, n)
            ],
          ),
        )
    | inr k ↦
        let next = gaps ++ opened network after observed x ∷ [] in
        let (rows, (to, back)) = insert_new-Adds rest next h in
        let was = known_then gaps x h in
        rw k (
          rows ∙ append_assoc gaps _ _,
          (
            λ i. elim i [
              | inl e ↦ (inl e, rw e k)
              | inr j ↦ let (l, n) = to j in (inr l, ground arith)
            ],
            λ (i, n). elim i [
              | inl e ↦ inl e
              | inr j ↦ elim (Bool-cases (x == h)) [
                | inl e ↦ inl (ground arith)
                | inr e ↦ inr (back (j, ground arith))
              ]
            ],
          ),
        )
  ]

-- From heights that are not negative, of which the last known is below the largest `i64`, recording a
-- gap keeps every row there is and adds one open
-- row for each height that it returns, and returns these in order; a height is among them exactly
-- where it lies strictly between the last height and the observed one and had no row.
pub record_block_gap-Records :
    (network : Network) (after observed : ℕ) (gaps : List BlockDataGap) (h : ℕ)
    → after < i64_max
    → (new : List ℕ) × (record_block_gap network (pos after) (pos observed) gaps
        ≡ some (gaps ++ map (opened network after observed) new, ok (sort_by compare new)))
      × (In h new ↔ ((after < h) × (h < observed) × (any (is_at network h) gaps ≡ false)))
unfolding record_block_gap
record_block_gap-Records network after observed gaps h bound =
    let fine : leb i64_max after ≡ false = ground arith in
    elim (Bool-cases (leb observed (after + 1))) [
      | inl l ↦
          rw (fine, l)
            (
              [],
              ap (λ x. some (x, ok [])) (sym (append-nil gaps)),
              (λ i. absurd i, λ (a, b, n). ground arith),
            )
      | inr l ↦
          let missing = heights (after + 1) (observed - (after + 1)) in
          let (rows, (to, back)) = insert_new-Adds network after observed missing gaps h in
          let (inside, within) = In-heights h (after + 1) (observed - (after + 1)) in
          rw (fine, l)
            (
              (insert_new network after observed missing gaps).1,
              ap
                  (λ x.
                    some
                      (x, ok (sort_by compare (insert_new network after observed missing gaps).1)))
                  rows,
              (
                λ i. let (j, n) = to i in let (a, b) = inside j in (omega arith, omega arith, n),
                λ (a, b, n). back (within (omega arith, omega arith), n),
              ),
            )
    ]
